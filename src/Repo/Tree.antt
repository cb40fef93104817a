-- ===== src/Repo/Tree.antt =====
-- packages/danaus/src/actors/repo: a tree as the map from paths to CIDs that it stands for, what the
-- tree library is relied on for, and the effect of commit operations on the map.
use danaus.Prelude.{
  String, ◌≡◌, refl, sym, subst, ◌∙◌, Bool, true, false, ◌||◌, Option, none, some, List, [], ◌∷◌,
  ◌++◌, arith, if◌then◌else◌, str_eq, str_eq→eq, str_eq_comm, ◌&&◌, not, is_some, Bool-cases,
  Option-cases, inl, inr,
}
use danaus.Table.{any}
use danaus.SeqEvent.{Bytes, Action, create, update, delete, Op}
use danaus.Repo.{Store, Libraries, overlay, map_set, BlockMap}
use danaus.Repo.Blocks.{prior_values}
use danaus.Repo.Writes.{put_all}

abbrev pub Paths : Type 0
Paths = String → Option String

abbrev pub set_path : String → Option String → Paths → Paths
set_path path cid m q = if str_eq q path then cid else m q

abbrev pub no_paths : Paths
no_paths path = none

-- The blocks that are pruned when the tree `next` takes the place of `prev`.
abbrev pub pruned : {Rec : Type 0} → Libraries Rec → Store → String → String → List String
pruned L store prev next =
    let (added, dropped) = L.mst_diff store prev next in
    dropped ++ prior_values (L.record_diff store added dropped)

-- What one store holds another holds too.
abbrev pub Extends : Store → Store → Type 0
Extends store store' = (cid : String) (b : Bytes) → store cid ≡ some b → store' cid ≡ some b

-- `Tree store root m`: the blocks of `store` below `root` are a tree that stands for `m`.
pub record MstLaws {Rec : Type 0} (L : Libraries Rec) : Type 1 where
  pub Tree : Store → Option String → Paths → Type 0
  pub tree_none : (store : Store) → Tree store none no_paths
  pub find_lem :
      (store : Store) (root : Option String) (m : Paths) (path : String)
      → Tree store root m
      → L.find store root path ≡ m path
  pub put_lem :
      (store : Store) (memory : BlockMap) (root : Option String) (m : Paths) (path cid : String)
      → Tree (overlay memory store) root m
      → Tree
          (overlay (put_all (L.put_record (overlay memory store) root path cid).1 memory) store)
          (L.put_record (overlay memory store) root path cid).0
          (set_path path (some cid) m)
  pub delete_lem :
      (store : Store) (memory : BlockMap) (root : Option String) (m : Paths) (path : String)
      → Tree (overlay memory store) root m
      → Tree
          (overlay (put_all (L.delete_record (overlay memory store) root path).1 memory) store)
          (L.delete_record (overlay memory store) root path).0
          (set_path path none m)
  -- An empty tree stands for no paths, and so does the empty node once it is stored.
  pub empty_lem :
      (store : Store) (memory : BlockMap) (m : Paths)
      → Tree (overlay memory store) none m
      → Tree (overlay (map_set L.empty_node.0 L.empty_node.1 memory) store) (some L.empty_node.0) m
  -- More blocks change nothing.
  pub extend_lem :
      (store store' : Store) (root : Option String) (m : Paths)
      → Extends store store'
      → Tree store root m
      → Tree store' root m
  -- The nodes that the diff of two trees drops are not the new tree's, nor are the records.
  pub prune_lem :
      (store store' : Store) (prev next : String) (m m' : Paths)
      → Tree store (some prev) m
      → Tree store (some next) m'
      → ((cid : String) (b : Bytes)
          → any (str_eq cid) (pruned L store prev next) ≡ false
          → store cid ≡ some b
          → store' cid ≡ some b)
      → Tree store' (some next) m'

-- What an operation of a commit does to the map.
abbrev pub effect : Op String → Paths → Paths
effect op m = set_path op.path op.cid m

abbrev pub after : List (Op String) → Paths → Paths
after [] m = m
after (op ∷ ops) m = after ops (effect op m)

-- A commit operation tells the truth about the map that it is applied to.
abbrev pub TrueOf : Action → Option String → Option String → Option String → Type 0
TrueOf create cid prev old = (old ≡ none) × (prev ≡ none) × (is_some cid ≡ true)
TrueOf update cid prev old = (prev ≡ old) × (is_some old ≡ true) × (is_some cid ≡ true)
TrueOf delete cid prev old = (prev ≡ old) × (is_some old ≡ true) × (cid ≡ none)

abbrev pub Honest : Paths → List (Op String) → Type 0
Honest m [] = Unit {0}
Honest m (op ∷ ops) = TrueOf op.action op.cid op.prev (m op.path) × Honest (effect op m) ops

pub after-append :
    (xs ys : List (Op String)) (m : Paths) → after (xs ++ ys) m ≡ after ys (after xs m)
after-append [] ys m = refl
after-append (x ∷ xs) ys m = after-append xs ys (effect x m)

pub Honest-append :
    (xs ys : List (Op String)) (m : Paths)
    → Honest m xs
    → Honest (after xs m) ys
    → Honest m (xs ++ ys)
Honest-append [] ys m h k = k
Honest-append (x ∷ xs) ys m h k = (h.0, Honest-append xs ys (effect x m) h.1 k)

-- The paths that are deleted, and the last CID that is written to a path.
abbrev pub deletes_path : String → List (Op String) → Bool
deletes_path path [] = false
deletes_path path (op ∷ ops) =
    (str_eq path op.path && not (is_some op.cid)) || deletes_path path ops

abbrev pub last_written : String → List (Op String) → Option String → Option String
last_written path [] old = old
last_written path (op ∷ ops) old =
    last_written path ops (if str_eq path op.path && is_some op.cid then op.cid else old)

abbrev pub touches : String → List (Op String) → Bool
touches path [] = false
touches path (op ∷ ops) = str_eq op.path path || touches path ops

-- No operation follows a deletion of its path.
abbrev pub NoRecreation : List (Op String) → Type 0
NoRecreation [] = Unit {0}
NoRecreation (op ∷ ops) = (is_some op.cid || not (touches op.path ops) ≡ true) × NoRecreation ops

-- What the index holds at a path after a commit: it writes all upserts before all deletions.
abbrev pub indexed : List (Op String) → Paths → Paths
indexed ops m path = if deletes_path path ops then none else last_written path ops (m path)

after-untouched :
    (ops : List (Op String)) (m : Paths) (path : String)
    → touches path ops ≡ false
    → after ops m path ≡ m path
after-untouched [] m path h = refl
after-untouched (op ∷ ops) m path h =
    after-untouched ops (effect op m) path (ground arith) ∙ ground (arith, str_eq_comm path op.path)

untouched-deletes :
    (ops : List (Op String)) (path : String)
    → touches path ops ≡ false
    → deletes_path path ops ≡ false
untouched-deletes [] path h = refl
untouched-deletes (op ∷ ops) path h =
    ground (arith, str_eq_comm path op.path, untouched-deletes ops path)

pub indexed-eq-after :
    (ops : List (Op String)) (m : Paths) (path : String)
    → NoRecreation ops
    → indexed ops m path ≡ after ops m path
indexed-eq-after [] m path h = refl
indexed-eq-after (op ∷ ops) m path h = elim (Bool-cases (str_eq path op.path)) [
  | inr e ↦ ground (arith, e, indexed-eq-after ops (effect op m) path h.1)
  | inl e ↦ elim (Option-cases op.cid) [
    | inl t ↦
        let same : path ≡ op.path = str_eq→eq path op.path e in
        let quiet : touches path ops ≡ false =
          subst (λ q. touches q ops ≡ false) (sym same) (ground (arith, h.0, t)) in
        ground (arith, e, t, after-untouched ops (effect op m) path quiet)
    | inr t ↦ ground (arith, e, t.1, indexed-eq-after ops (effect op m) path h.1)
  ]
]
