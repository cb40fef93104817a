-- ===== src/Blobs/Depth.antt =====
-- packages/danaus/src/actors/blobs/utils.ts: which references `findBlobReferences` finds.
use danaus.Prelude.{
  ℕ, zero, suc, ◌+◌, String, ◌≡◌, refl, ◌∙◌, Bool, false, ◌||◌, none, some, List, [], arith,
  if◌then◌else◌, str_eq, Option-cases, inl, inr,
}
use danaus.Table.{any}
use danaus.Blobs.References.{
  Value, atom, array, object, Items, nil, cons, Fields, end, field, Shapes, find_blob_references,
  find_in_items, find_in_fields,
}
use danaus.Blobs.Writer.{contains}
use danaus.Blobs.Membership.{contains-add}

module _ (shapes : Shapes) where
  -- A blob with this CID stands below fewer than `n` arrays and objects.
  unfoldable mutual
    pub refers_within : ℕ → Value → String → Bool
    refers_within n atom cid = false
    refers_within zero (array items) cid = false
    refers_within (suc n) (array items) cid = items_refer n items cid
    refers_within zero (object fields) cid = false
    refers_within (suc n) (object fields) cid =
        let inner = fields_refer n fields cid in
        elim (shapes.is_blob fields) [
          | some blob ↦ str_eq cid blob
          | none ↦ if shapes.is_leaf fields then false else inner
        ]

    pub items_refer : ℕ → Items → String → Bool
    items_refer n nil cid = false
    items_refer n (cons item items) cid = refers_within n item cid || items_refer n items cid

    pub fields_refer : ℕ → Fields → String → Bool
    fields_refer n end cid = false
    fields_refer n (field key value fields) cid =
        refers_within n value cid || fields_refer n fields cid

  mutual
    unfolding find_blob_references find_in_items find_in_fields refers_within items_refer
        fields_refer

    find-contains :
        (n : ℕ) (v : Value) (cids : List String) (layer : ℕ) (cid : String)
        → layer + n ≡ 33
        → contains (find_blob_references shapes v cids layer) cid
          ≡ contains cids cid || refers_within n v cid
    find-contains n atom cids layer cid h = ground arith
    find-contains zero (array items) cids layer cid h = ground arith
    find-contains (suc n) (array items) cids layer cid h =
        ground (arith, items-contains n items cids (layer + 1) cid)
    find-contains zero (object fields) cids layer cid h = ground arith
    find-contains (suc n) (object fields) cids layer cid h =
        elim (Option-cases (shapes.is_blob fields)) [
          | inl e ↦ rw e (ground (arith, fields-contains n fields cids (layer + 1) cid))
          | inr e ↦ rw e.1 (ground (arith, contains-add e.0 cids cid))
        ]

    items-contains :
        (n : ℕ) (items : Items) (cids : List String) (layer : ℕ) (cid : String)
        → layer + n ≡ 33
        → contains (find_in_items shapes items cids layer) cid
          ≡ contains cids cid || items_refer n items cid
    items-contains n nil cids layer cid h = ground arith
    items-contains n (cons item items) cids layer cid h =
        items-contains n items (find_blob_references shapes item cids layer) layer cid h
        ∙ ground (arith, find-contains n item cids layer cid h)

    fields-contains :
        (n : ℕ) (fields : Fields) (cids : List String) (layer : ℕ) (cid : String)
        → layer + n ≡ 33
        → contains (find_in_fields shapes fields cids layer) cid
          ≡ contains cids cid || fields_refer n fields cid
    fields-contains n end cids layer cid h = ground arith
    fields-contains n (field key value fields) cids layer cid h =
        fields-contains n fields (find_blob_references shapes value cids layer) layer cid h
        ∙ ground (arith, find-contains n value cids layer cid h)

  -- The references that are found in a record are those of the blobs that stand below at most 32
  -- arrays and objects.
  pub find_blob_references-refers :
      (v : Value) (cid : String)
      → contains (find_blob_references shapes v [] 0) cid ≡ refers_within 33 v cid
  unfolding any
  find_blob_references-refers v cid = find-contains 33 v [] 0 cid refl ∙ ground arith
