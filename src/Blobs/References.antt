-- ===== src/Blobs/References.antt =====
-- packages/danaus/src/actors/blobs/utils.ts: the blobs that a record refers to. What an object is to
-- the library's tests `isBlob`, `isLegacyBlob`, `isBytes` and `isCidLink` is a parameter.
use danaus.Prelude.{
  ℕ, ◌+◌, String, Bool, Option, none, some, List, [], ◌∷◌, ◌++◌, if◌then◌else◌, ltb, str_eq,
}
use danaus.Table.{any}

mutual
  pub data Value : Type 0 where
    -- null, and what is no object
    atom : Value
    array : Items → Value
    object : Fields → Value

  pub data Items : Type 0 where
    nil : Items
    cons : Value → Items → Items

  pub data Fields : Type 0 where
    end : Fields
    field : String → Value → Fields → Fields

pub record Shapes : Type 0 where
  -- the CID of an object that is a blob
  pub is_blob : Fields → Option String
  -- a legacy blob, bytes or a link
  pub is_leaf : Fields → Bool

-- `map.set(cid, …)` on the keys of a map
abbrev pub add_cid : String → List String → List String
add_cid cid cids = if any (str_eq cid) cids then cids else cids ++ cid ∷ []

module _ (shapes : Shapes) where
  unfoldable mutual
    pub find_blob_references : Value → List String → ℕ → List String
    find_blob_references atom cids layer = cids
    find_blob_references (array items) cids layer =
        let inner = find_in_items items cids (layer + 1) in if ltb 32 layer then cids else inner
    find_blob_references (object fields) cids layer =
        let inner = find_in_fields fields cids (layer + 1) in
        if ltb 32 layer then cids else elim (shapes.is_blob fields) [
          | some cid ↦ add_cid cid cids
          | none ↦ if shapes.is_leaf fields then cids else inner
        ]

    pub find_in_items : Items → List String → ℕ → List String
    find_in_items nil cids layer = cids
    find_in_items (cons item items) cids layer =
        find_in_items items (find_blob_references item cids layer) layer

    pub find_in_fields : Fields → List String → ℕ → List String
    find_in_fields end cids layer = cids
    find_in_fields (field key value fields) cids layer =
        find_in_fields fields (find_blob_references value cids layer) layer
