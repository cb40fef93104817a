-- ===== src/Repo/Keys.antt =====
-- The primary key of the table `repo_block`, which
-- packages/danaus/src/actors/repo/transactor.ts keeps.
use danaus.Prelude.{
  ok, ℕ, String, ◌≡◌, refl, sym, ap, subst, ◌∙◌, Bool, false, Option, none, some, List, [], ◌∷◌,
  ◌++◌, arith, if◌then◌else◌, str_eq, str_eq_comm, Bool-cases, inl, inr,
}
use danaus.Table.{Timestamps, first, any, delete}
use danaus.SeqEvent.{Bytes}
use danaus.Repo.{BlockMap, RepoBlockRow, RepoDb, RepoWriteOp, Libraries, Store, stored_block}
use danaus.Repo.Blocks.{
  insert_blocks, delete_blocks, persist_repo_root, persist_repo_blocks, prune_repo_blocks,
}
use danaus.Repo.Writes.{Progress}
use danaus.Repo.Apply.{
  RepoSideEffects, ApplyWritesOptions, ApplyWritesResult, data_of, with_root, persist,
  apply_writes_internal,
}
use danaus.Repo.Committed.{apply_writes_internal-Succeeded}

-- The primary key: no two rows have the same CID.
abbrev pub UniqueCids : List RepoBlockRow → Type 0
UniqueCids [] = Unit {0}
UniqueCids (row ∷ rows) = (stored_block rows row.cid ≡ none) × UniqueCids rows

abbrev pub or_else : Option Bytes → Option Bytes → Option Bytes
or_else none y = y
or_else (some b) y = some b

pub or_else-none : (o : Option Bytes) → or_else o none ≡ o
or_else-none none = refl
or_else-none (some b) = refl

pub stored-step :
    (row : RepoBlockRow) (rows : List RepoBlockRow) (cid : String)
    → stored_block (row ∷ rows) cid
      ≡ (if str_eq row.cid cid then some row.content else stored_block rows cid)
unfolding first
stored-step row rows cid = ground arith

pub insert-one :
    (row : RepoBlockRow) (rows : List RepoBlockRow) (cid : String)
    → stored_block (rows ++ row ∷ []) cid
      ≡ or_else (stored_block rows cid) (if str_eq row.cid cid then some row.content else none)
unfolding first
insert-one row [] cid = ground arith
insert-one row (x ∷ xs) cid = ground (arith, insert-one row xs cid)

append-UniqueCids :
    (row : RepoBlockRow) (rows : List RepoBlockRow)
    → any (λ (r : RepoBlockRow). str_eq r.cid row.cid) rows ≡ false
    → UniqueCids rows
    → UniqueCids (rows ++ row ∷ [])
unfolding any first
append-UniqueCids row [] h u = (refl, tt)
append-UniqueCids row (x ∷ xs) h u = (
  let off : str_eq row.cid x.cid ≡ false = str_eq_comm row.cid x.cid ∙ ground (arith, h) in
      let last : Option Bytes = if str_eq row.cid x.cid then some row.content else none in
      insert-one row xs x.cid
      ∙ ap (λ o. or_else o last) u.0
      ∙ ap (λ (t : Bool). if t then some row.content else none) off,
  append-UniqueCids row xs (ground (arith, h)) u.1,
)

pub insert_blocks-UniqueCids :
    (blocks : BlockMap) (rev : String) (rows : List RepoBlockRow)
    → UniqueCids rows
    → UniqueCids (insert_blocks blocks rev rows)
unfolding insert_blocks
insert_blocks-UniqueCids [] rev rows u = u
insert_blocks-UniqueCids ((cid, content) ∷ blocks) rev rows u =
    elim (Bool-cases (any (λ (row : RepoBlockRow). str_eq row.cid cid) rows)) [
      | inl e ↦ rw e (insert_blocks-UniqueCids blocks rev rows u)
      | inr e ↦ rw e (
          insert_blocks-UniqueCids blocks rev _
            (append-UniqueCids (record { cid = cid; rev = rev; content = content }) rows e u))
    ]

stored-delete :
    (p : RepoBlockRow → Bool) (rows : List RepoBlockRow) (cid : String)
    → stored_block rows cid ≡ none
    → stored_block (delete p rows) cid ≡ none
unfolding first delete
stored-delete p [] cid h = refl
stored-delete p (row ∷ rows) cid h = ground (arith, h, stored-delete p rows cid)

pub delete-UniqueCids :
    (p : RepoBlockRow → Bool) (rows : List RepoBlockRow)
    → UniqueCids rows
    → UniqueCids (delete p rows)
unfolding delete
delete-UniqueCids p [] u = tt
delete-UniqueCids p (row ∷ rows) u = elim (Bool-cases (p row)) [
  | inl e ↦ rw e (delete-UniqueCids p rows u.1)
  | inr e ↦ rw e (stored-delete p rows row.cid u.0, delete-UniqueCids p rows u.1)
]

module _ {Rec World : Type 0} (L : Libraries Rec) (D : Timestamps)
    (effects : RepoSideEffects Rec World) (did : String) where
  prune-UniqueCids :
      (store : Store) (prev : Option String) (next : String) (s : RepoDb)
      → UniqueCids s.blocks
      → UniqueCids (prune_repo_blocks L store prev next s).blocks
  unfolding prune_repo_blocks delete_blocks
  prune-UniqueCids store none next s u = u
  prune-UniqueCids store (some prev) next s u = delete-UniqueCids _ s.blocks u

  persist-UniqueCids :
      (prev : Option String) (rev : String) (p : Progress Rec) (s : RepoDb)
      → UniqueCids s.blocks
      → UniqueCids (persist L D did prev rev p s).blocks
  unfolding persist persist_repo_root persist_repo_blocks
  persist-UniqueCids prev rev p s u = prune-UniqueCids _ prev _ _ (
      insert_blocks-UniqueCids (with_root L p).1.record_blocks rev _
        (insert_blocks-UniqueCids (with_root L p).1.memory rev s.blocks u))

  -- A successful call keeps the CIDs of the stored blocks different.
  pub apply_writes_internal-UniqueCids :
      (writes : List (RepoWriteOp Rec)) (o : ApplyWritesOptions) (now tids : ℕ) (s s' : RepoDb)
      (w w' : World) (r : ApplyWritesResult)
      → apply_writes_internal L D did effects writes o now tids s w ≡ ok (r, s', w')
      → UniqueCids s.blocks
      → UniqueCids s'.blocks
  apply_writes_internal-UniqueCids writes o now tids s s' w w' r h u =
      let done = apply_writes_internal-Succeeded L D did effects writes o now tids s s' w w' r h in
      subst (λ (t : RepoDb). UniqueCids t.blocks) (sym done.kept)
        (persist-UniqueCids (data_of done.prior) (L.tid tids) done.progress s u)
