-- ===== src/Repo.antt =====
-- packages/danaus/src/actors/repo: the types, the tables `repo_root` and `repo_block` of
-- packages/danaus/src/actors/db/schema.ts, and what the code calls of third-party libraries: the
-- Merkle search tree, CBOR, CIDs, TIDs and the signing key. `Rec` is the type of record values.
pub mod Signing
pub mod Blocks
pub mod Writes
pub mod Apply
pub mod Tree
pub mod Steps
pub mod Committed
pub mod Agreement
pub mod Creation
pub mod Keys
pub mod Persisted
pub mod Reader
use danaus.Prelude.{ℕ, String, ◌≡◌, Option, none, some, List, [], ◌∷◌, ◌++◌, if◌then◌else◌, str_eq}
use danaus.Table.{first}
use danaus.SeqEvent.{Bytes}
use danaus.RecordIndex.{RecordTable}

-- The entries of a JavaScript `Map` from CIDs, in its order.
abbrev pub BlockMap : Type 0
BlockMap = List (String × Bytes)

-- `map.set(cid, bytes)`
abbrev pub map_set : String → Bytes → BlockMap → BlockMap
map_set cid bytes [] = (cid, bytes) ∷ []
map_set cid bytes ((k, b) ∷ m) =
    let rest = map_set cid bytes m in if str_eq k cid then (k, bytes) ∷ m else (k, b) ∷ rest

-- `map.get(cid)`
abbrev pub map_get : String → BlockMap → Option Bytes
map_get cid [] = none
map_get cid ((k, b) ∷ m) = let rest = map_get cid m in if str_eq k cid then some b else rest

pub record WriteBase : Type 0 where
  pub collection : String
  pub rkey : Option String
  -- `none` where `swapRecord` is undefined, `some none` where it is null
  pub swap_record : Option (Option String)

pub data RepoWriteOp (Rec : Type 0) : Type 0 where
  create_op : WriteBase → Rec → RepoWriteOp Rec
  update_op : WriteBase → Rec → RepoWriteOp Rec
  delete_op : WriteBase → RepoWriteOp Rec

pub record RepoRootRow : Type 0 where
  pub cid : String
  pub content : Bytes
  pub rev : String

pub record RepoBlockRow : Type 0 where
  pub cid : String
  pub rev : String
  pub content : Bytes

pub record RepoDb : Type 0 where
  pub root : Option RepoRootRow
  pub blocks : List RepoBlockRow
  pub records : RecordTable

pub record Unsigned : Type 0 where
  pub did : String
  pub data_cid : String
  pub rev : String

pub record Commit : Type 0 where
  pub unsigned : Unsigned
  pub sig : Bytes

pub data DeltaType : Type 0 where
  created updated deleted : DeltaType

-- A block store as its readers see it.
abbrev pub Store : Type 0
Store = String → Option Bytes

-- The libraries' functions. A tree is named by the CID of its root node, `none` being the empty
-- tree; writes to it give the new root and the node blocks that were put into the memory store.
pub record Libraries (Rec : Type 0) : Type 0 where
  pub find : Store → Option String → String → Option String
  pub put_record : Store → Option String → String → String → Option String × BlockMap
  pub delete_record : Store → Option String → String → Option String × BlockMap
  pub empty_node : String × Bytes
  pub mst_diff : Store → String → String → List String × List String
  pub record_diff : Store → List String → List String → List (DeltaType × Option String)
  pub exclusion_proof : Store → String → String → List String
  pub encode_record : Rec → Bytes
  pub create_cid : Bytes → String
  pub encode_unsigned : Unsigned → Bytes
  pub encode_signed : Commit → Bytes
  pub decode_signed : Bytes → Option Commit
  pub sign : Bytes → Bytes
  -- the TID that the n-th call of `TID.now` gives
  pub tid : ℕ → String

-- SELECT content FROM repo_block WHERE cid = …
abbrev pub stored_block : List RepoBlockRow → Store
stored_block rows cid = elim (first (λ (row : RepoBlockRow). str_eq row.cid cid) rows) [
  | none ↦ none
  | some row ↦ some row.content
]

-- `OverlayBlockStore`: the memory store, and what it lacks from the store below.
abbrev pub overlay : BlockMap → Store → Store
overlay memory store cid = elim (map_get cid memory) [ none ↦ store cid | some b ↦ some b ]
