-- ===== src/Repo/Blocks.antt =====
-- packages/danaus/src/actors/repo/transactor.ts: persisting the root and the blocks, pruning the
-- blocks of the previous tree, and the blocks of a commit event; and the reads of blocks of
-- packages/danaus/src/actors/repo/reader.ts. Batches of a statement are one statement.
use danaus.Prelude.{String, Option, none, some, List, [], ◌∷◌, ◌++◌, if◌then◌else◌, str_eq}
use danaus.Table.{delete, any}
use danaus.SeqEvent.{Bytes}
use danaus.Repo.{
  BlockMap, map_set, map_get, RepoBlockRow, RepoDb, DeltaType, created, updated, deleted, Store,
  Libraries,
}

unfoldable pub persist_repo_root : String → Bytes → String → RepoDb → RepoDb
persist_repo_root cid content rev s = record s {
  root = some (record { cid = cid; content = content; rev = rev });
}

-- INSERT … ON CONFLICT (cid) DO NOTHING
unfoldable pub insert_blocks : BlockMap → String → List RepoBlockRow → List RepoBlockRow
insert_blocks [] rev rows = rows
insert_blocks ((cid, content) ∷ blocks) rev rows = insert_blocks blocks rev (
    if any (λ (row : RepoBlockRow). str_eq row.cid cid) rows
    then rows
    else rows ++ record { cid = cid; rev = rev; content = content } ∷ [])

unfoldable pub persist_repo_blocks : BlockMap → String → RepoDb → RepoDb
unfolding insert_blocks
persist_repo_blocks blocks rev s = record s { blocks = insert_blocks blocks rev s.blocks }

-- The prior values of the records that a delta replaces or removes.
unfoldable pub prior_values : List (DeltaType × Option String) → List String
prior_values [] = []
prior_values ((created, prior) ∷ deltas) = prior_values deltas
prior_values ((updated, none) ∷ deltas) = prior_values deltas
prior_values ((deleted, none) ∷ deltas) = prior_values deltas
prior_values ((updated, some cid) ∷ deltas) = cid ∷ prior_values deltas
prior_values ((deleted, some cid) ∷ deltas) = cid ∷ prior_values deltas

unfoldable pub delete_blocks : List String → List RepoBlockRow → List RepoBlockRow
delete_blocks cids rows = delete (λ (row : RepoBlockRow). any (λ cid. str_eq row.cid cid) cids) rows

-- A proof node that cannot be read would throw; a node reads back as its bytes.
unfoldable pub add_proofs : Store → List String → BlockMap → Option BlockMap
add_proofs store [] blocks = some blocks
add_proofs store (cid ∷ cids) blocks = elim (map_get cid blocks) [
  | some b ↦ add_proofs store cids blocks
  | none ↦ elim (store cid) [ none ↦ none | some b ↦ add_proofs store cids (map_set cid b blocks) ]
]

unfoldable pub set_all : BlockMap → BlockMap → BlockMap
set_all [] blocks = blocks
set_all ((cid, b) ∷ more) blocks = set_all more (map_set cid b blocks)

module _ {Rec : Type 0} (L : Libraries Rec) where
  unfoldable pub prune_repo_blocks : Store → Option String → String → RepoDb → RepoDb
  unfolding prior_values delete_blocks
  prune_repo_blocks store none next s = s
  prune_repo_blocks store (some prev) next s =
      let (added, dropped) = L.mst_diff store prev next in
      record s {
        blocks =
            delete_blocks (dropped ++ prior_values (L.record_diff store added dropped)) s.blocks;
      }

  -- The nodes that prove that the deleted paths are not in the tree.
  unfoldable pub collect_deletion_proofs : Store → String → List String → List String
  collect_deletion_proofs store root [] = []
  collect_deletion_proofs store root (path ∷ paths) =
      L.exclusion_proof store root path ++ collect_deletion_proofs store root paths

  unfoldable pub build_commit_blocks :
      Store → String → String → Bytes → BlockMap → BlockMap → List String → Option BlockMap
  unfolding collect_deletion_proofs add_proofs set_all
  build_commit_blocks store root commit_cid commit_bytes nodes records paths =
      add_proofs store (collect_deletion_proofs store root paths)
        (set_all records (set_all nodes ((commit_cid, commit_bytes) ∷ [])))
