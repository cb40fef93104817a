-- ===== src/Repo/Persisted.antt =====
-- packages/danaus/src/actors/repo/transactor.ts: the tree in the table `repo_block`, once the blocks of
-- a call are inserted and those of the previous tree are pruned.
use danaus.Prelude.{
  String, ◌≡◌, refl, sym, ap, subst, ◌∙◌, Bool, true, false, Option, none, some, List, [], ◌∷◌,
  ◌++◌, arith, if◌then◌else◌, str_eq, str_eq→eq, is_some, Bool-cases, Option-cases, inl, inr,
}
use mathlib.Core.Option.{some-injective}
use danaus.Table.{Timestamps, first, any, delete}
use danaus.SeqEvent.{Bytes}
use danaus.Repo.{BlockMap, map_get, RepoBlockRow, RepoDb, Libraries, Store, stored_block, overlay}
use danaus.Repo.Blocks.{
  insert_blocks, delete_blocks, persist_repo_root, persist_repo_blocks, prune_repo_blocks,
}
use danaus.Repo.Signing.{encode_commit}
use danaus.Repo.Writes.{Progress}
use danaus.Repo.Apply.{with_root, persist}
use danaus.Repo.Tree.{Paths, MstLaws, Extends, pruned}
use danaus.Repo.Keys.{or_else, or_else-none, insert-one}

holds_some :
    (cid : String) (rows : List RepoBlockRow)
    → any (λ (row : RepoBlockRow). str_eq row.cid cid) rows ≡ true
    → is_some (stored_block rows cid) ≡ true
unfolding any first
holds_some cid [] h = cc h
holds_some cid (x ∷ xs) h = ground (arith, holds_some cid xs)

or_else-some : (o x : Option Bytes) → is_some o ≡ true → or_else o x ≡ o
or_else-some none x h = cc h
or_else-some (some b) x h = refl

or_else_assoc : (o x y : Option Bytes) → or_else (or_else o x) y ≡ or_else o (or_else x y)
or_else_assoc none x y = refl
or_else_assoc (some b) x y = refl

-- A block that is stored is kept, and one that is not is inserted.
stored-insert_blocks :
    (blocks : BlockMap) (rev cid : String) (rows : List RepoBlockRow)
    → stored_block (insert_blocks blocks rev rows) cid
      ≡ or_else (stored_block rows cid) (map_get cid blocks)
unfolding insert_blocks
stored-insert_blocks [] rev cid rows = sym (or_else-none (stored_block rows cid))
stored-insert_blocks ((k, content) ∷ blocks) rev cid rows =
    elim (Bool-cases (any (λ (row : RepoBlockRow). str_eq row.cid k) rows)) [
      | inl e ↦ elim (Bool-cases (str_eq k cid)) [
        | inl q ↦
            let there =
              subst (λ c. is_some (stored_block rows c) ≡ true) (str_eq→eq k cid q)
                (holds_some k rows e) in
            rw e (
              stored-insert_blocks blocks rev cid rows
              ∙ or_else-some (stored_block rows cid) (map_get cid blocks) there
              ∙ sym (or_else-some (stored_block rows cid) _ there))
        | inr q ↦ rw (e, q) (stored-insert_blocks blocks rev cid rows)
      ]
      | inr e ↦
          let row : RepoBlockRow = record { cid = k; rev = rev; content = content } in
          rw e (
            stored-insert_blocks blocks rev cid (rows ++ row ∷ [])
            ∙ ap (λ o. or_else o (map_get cid blocks)) (insert-one row rows cid)
            ∙ or_else_assoc (stored_block rows cid) _ (map_get cid blocks)
            ∙ ap (or_else (stored_block rows cid)) (chosen (str_eq k cid) content _))
    ]
  where
    chosen :
        (t : Bool) (b : Bytes) (y : Option Bytes)
        → or_else (if t then some b else none) y ≡ (if t then some b else y)
    chosen true b y = refl
    chosen false b y = refl

stored-delete_blocks :
    (cids : List String) (cid : String) (rows : List RepoBlockRow)
    → any (str_eq cid) cids ≡ false
    → stored_block (delete_blocks cids rows) cid ≡ stored_block rows cid
unfolding delete_blocks delete first
stored-delete_blocks cids cid [] h = refl
stored-delete_blocks cids cid (x ∷ xs) h = elim (Bool-cases (str_eq x.cid cid)) [
  | inl e ↦
      let kept = subst (λ c. any (str_eq c) cids ≡ false) (sym (str_eq→eq x.cid cid e)) h in
      ground (arith, e, kept)
  | inr e ↦ ground (arith, e, stored-delete_blocks cids cid xs h)
]

insert_blocks-Extends :
    (blocks : BlockMap) (rev : String) (rows : List RepoBlockRow)
    → Extends (stored_block rows) (stored_block (insert_blocks blocks rev rows))
insert_blocks-Extends blocks rev rows cid b h =
    stored-insert_blocks blocks rev cid rows ∙ ap (λ o. or_else o (map_get cid blocks)) h

-- A CID that is written is stored with no other content.
abbrev pub Agrees : BlockMap → Store → Type 0
Agrees memory store =
    (cid : String) (b b' : Bytes) → map_get cid memory ≡ some b → store cid ≡ some b' → b ≡ b'

overlay-lacks :
    (memory : BlockMap) (store : Store) (cid : String)
    → map_get cid memory ≡ none
    → overlay memory store cid ≡ store cid
overlay-lacks memory store cid e = rw (e, overlay) refl

overlay-has :
    (memory : BlockMap) (store : Store) (cid : String) (c : Bytes)
    → map_get cid memory ≡ some c
    → overlay memory store cid ≡ some c
overlay-has memory store cid c e = rw (e, overlay) refl

overlay-Extends :
    (memory : BlockMap) (store : Store) → Agrees memory store → Extends store (overlay memory store)
overlay-Extends memory store a cid b h = elim (Option-cases (map_get cid memory)) [
  | inl e ↦ overlay-lacks memory store cid e ∙ h
  | inr (c, e) ↦ overlay-has memory store cid c e ∙ ap some (a cid c b e h)
]

overlay_mono :
    (memory : BlockMap) (store store' : Store)
    → Extends store store'
    → Extends (overlay memory store) (overlay memory store')
overlay_mono memory store store' f cid b h = elim (Option-cases (map_get cid memory)) [
  | inl e ↦ overlay-lacks memory store' cid e ∙ f cid b (sym (overlay-lacks memory store cid e) ∙ h)
  | inr (c, e) ↦ overlay-has memory store' cid c e ∙ sym (overlay-has memory store cid c e) ∙ h
]

Extends-trans : (s t u : Store) → Extends s t → Extends t u → Extends s u
Extends-trans s t u f g cid b h = g cid b (f cid b h)

-- Once the memory store is inserted, the table holds what the overlay showed.
inserted-Extends :
    (memory : BlockMap) (rev : String) (rows : List RepoBlockRow)
    → Agrees memory (stored_block rows)
    → Extends (overlay memory (stored_block rows)) (stored_block (insert_blocks memory rev rows))
inserted-Extends memory rev rows a cid b h = elim (Option-cases (map_get cid memory)) [
  | inl e ↦
      insert_blocks-Extends memory rev rows cid b
        (sym (overlay-lacks memory (stored_block rows) cid e) ∙ h)
  | inr (c, e) ↦
      let same : c ≡ b =
        some-injective c b (sym (overlay-has memory (stored_block rows) cid c e) ∙ h) in
      stored-insert_blocks memory rev cid rows ∙ elim (Option-cases (stored_block rows cid)) [
        | inl n ↦ ap (λ o. or_else o (map_get cid memory)) n ∙ e ∙ ap some same
        | inr (d, n) ↦
            ap (λ o. or_else o (map_get cid memory)) n ∙ ap some (sym (a cid c d e n) ∙ same)
      ]
]

module _ {Rec : Type 0} (L : Libraries Rec) (laws : MstLaws L) where
  module _ (memory records : BlockMap) (rev : String) (rows : List RepoBlockRow)
      (agrees : Agrees memory (stored_block rows)) where
    abbrev inserted : List RepoBlockRow
    inserted = insert_blocks records rev (insert_blocks memory rev rows)

    shown-Extends : Extends (overlay memory (stored_block rows)) (stored_block inserted)
    shown-Extends =
        Extends-trans _ _ _ (inserted-Extends memory rev rows agrees)
          (insert_blocks-Extends records rev (insert_blocks memory rev rows))

    old-Extends : Extends (stored_block rows) (stored_block inserted)
    old-Extends =
        Extends-trans _ _ _ (overlay-Extends memory (stored_block rows) agrees) shown-Extends

    -- After the insertion the memory store shows nothing that the table does not hold.
    hidden-Extends : Extends (overlay memory (stored_block inserted)) (stored_block inserted)
    hidden-Extends cid b h = elim (Option-cases (map_get cid memory)) [
      | inl e ↦ sym (overlay-lacks memory (stored_block inserted) cid e) ∙ h
      | inr (c, e) ↦ shown-Extends cid b (
          overlay-has memory (stored_block rows) cid c e
          ∙ sym (overlay-has memory (stored_block inserted) cid c e)
          ∙ h)
    ]

    inserted-Tree :
        (root : String) (m : Paths)
        → laws.Tree (overlay memory (stored_block rows)) (some root) m
        → laws.Tree (stored_block inserted) (some root) m
    inserted-Tree root m t = laws.extend_lem _ _ (some root) m shown-Extends t

    pruned-Tree :
        (prev root : String) (m m' : Paths)
        → laws.Tree (stored_block rows) (some prev) m
        → laws.Tree (overlay memory (stored_block rows)) (some root) m'
        → laws.Tree
            (stored_block (
              delete_blocks (pruned L (overlay memory (stored_block inserted)) prev root) inserted))
            (some root)
            m'
    pruned-Tree prev root m m' old new =
        let nodes = overlay memory (stored_block inserted) in
        let wider = overlay_mono memory (stored_block rows) (stored_block inserted) old-Extends in
        laws.prune_lem nodes _ prev root m m'
          (laws.extend_lem _ nodes (some prev) m
            (Extends-trans _ _ _ (overlay-Extends memory (stored_block rows) agrees) wider) old)
          (laws.extend_lem _ nodes (some root) m' wider new)
          λ cid b kept h.
            stored-delete_blocks (pruned L nodes prev root) cid inserted kept
            ∙ hidden-Extends cid b h

  -- After the writes to the database, the table of blocks has the tree of the call.
  pub persist-Tree :
      (D : Timestamps) (did rev : String) (prev : Option String) (p : Progress Rec) (s : RepoDb)
      (m m' : Paths)
      → Agrees (with_root L p).1.memory (stored_block s.blocks)
      → laws.Tree (stored_block s.blocks) prev m
      → laws.Tree
          (overlay (with_root L p).1.memory (stored_block s.blocks))
          (some (with_root L p).0)
          m'
      → laws.Tree (stored_block (persist L D did prev rev p s).blocks) (some (with_root L p).0) m'
  unfolding persist persist_repo_root persist_repo_blocks prune_repo_blocks
  persist-Tree D did rev none p s m m' a old new =
      inserted-Tree (with_root L p).1.memory (with_root L p).1.record_blocks rev s.blocks a
        (with_root L p).0 m' new
  persist-Tree D did rev (some prev) p s m m' a old new =
      pruned-Tree (with_root L p).1.memory (with_root L p).1.record_blocks rev s.blocks a prev
        (with_root L p).0 m m' old new

  -- The root that is written is that of a commit of the tree.
  pub persist-root :
      (D : Timestamps) (did rev : String) (prev : Option String) (p : Progress Rec) (s : RepoDb)
      → let commit = encode_commit L did (with_root L p).0 rev in
        (persist L D did prev rev p s).root
        ≡ some (record { cid = commit.cid; content = commit.bytes; rev = rev })
  unfolding persist persist_repo_root persist_repo_blocks prune_repo_blocks
  persist-root D did rev none p s = refl
  persist-root D did rev (some prev) p s = refl
