-- ===== src/Repo/Apply.antt =====
-- packages/danaus/src/actors/repo/transactor.ts: class RepoTransactor. The blob handler and the
-- sequencer of packages/danaus/src/actors/repo/side-effects.ts act on a state of their own, `World`;
-- the record indexer is the one of RecordIndex. A call that fails leaves the databases as they
-- were: it runs in a transaction (`transact` of packages/danaus/src/actors/manager.ts).
use danaus.Prelude.{
  Result, fail, ok, ◌>>=◌, ◌>>◌, ℕ, suc, String, Bool, true, false, not, ◌&&◌, Option, none, some,
  List, [], ◌∷◌, map, if◌then◌else◌, ltb, str_eq, is_some, length, ◌==◌,
}
use danaus.Table.{Timestamps}
use danaus.SeqEvent.{RepoCommitEvent}
use danaus.RecordIndex.{upsert_records, delete_records}
use danaus.Repo.{
  map_set, WriteBase, RepoWriteOp, create_op, update_op, delete_op, RepoRootRow, RepoDb, Commit,
  Libraries, stored_block, overlay,
}
use danaus.Repo.Signing.{encode_commit, decode_commit}
use danaus.Repo.Blocks.{
  persist_repo_root, persist_repo_blocks, prune_repo_blocks, build_commit_blocks,
}
use danaus.Repo.Writes.{
  RepoError, RepoRecordWrite, RepoRecordDelete, RepoWriteResult, no_writes, too_many_writes,
  repo_not_found, repo_already_exists, invalid_swap, call_failed, throw_if, Progress, path_of,
  apply_all,
}

pub record RepoBlobWriteOptions (Rec : Type 0) : Type 0 where
  pub did : String
  pub rev : String
  pub now : ℕ
  pub writes : List (RepoRecordWrite Rec)
  pub deletes : List RepoRecordDelete
  pub validate_blobs : Bool

pub record RepoSideEffects (Rec World : Type 0) : Type 0 where
  -- `none` where the handler throws
  pub apply_blobs : RepoBlobWriteOptions Rec → World → Option World
  pub record_commit : RepoCommitEvent → World → Option World

pub record ApplyWritesOptions : Type 0 where
  pub swap_commit : Option String
  pub create_repo : Bool
  pub validate_blobs : Bool
  pub emit_sequencer : Bool

pub record ApplyWritesResult : Type 0 where
  pub cid : String
  pub rev : String
  pub commit_event : RepoCommitEvent
  pub results : List RepoWriteResult

-- What the calls may fail with, as a result.
abbrev pub or_fail {ℓ} : {A : Type ℓ} → Option A → Result RepoError A
or_fail none = fail call_failed
or_fail (some a) = ok a

-- `options.swapCommit && existingRoot && existingRoot.cid !== options.swapCommit`
abbrev pub head_moved : Option String → Option RepoRootRow → Bool
head_moved none root = false
head_moved (some expected) none = false
head_moved (some expected) (some root) = not (str_eq expected "") && not (str_eq root.cid expected)

abbrev pub data_of : Option Commit → Option String
data_of none = none
data_of (some commit) = some commit.unsigned.data_cid

abbrev pub rev_of : Option Commit → Option String
rev_of none = none
rev_of (some commit) = some commit.unsigned.rev

abbrev pub start : {Rec : Type 0} → Option String → ℕ → Progress Rec
start root tids = record {
  root = root;
  memory = [];
  record_blocks = [];
  upserts = [];
  writes = [];
  deletes = [];
  results = [];
  ops = [];
  tids = tids;
}

-- The checks before the loop.
unfoldable pub check_request :
    {Rec : Type 0}
    → List (RepoWriteOp Rec)
    → ApplyWritesOptions
    → RepoDb
    → Result RepoError (Unit {0})
check_request writes o s = do
  throw_if (length writes == 0 && not o.create_repo) no_writes
  throw_if (ltb 200 (length writes)) too_many_writes
  throw_if (not (is_some s.root) && not o.create_repo) repo_not_found
  throw_if (is_some s.root && o.create_repo) repo_already_exists
  throw_if (head_moved o.swap_commit s.root) invalid_swap

-- A write that does not set `swapRecord`.
abbrev pub plain_base : String → Option String → WriteBase
plain_base collection rkey = record { collection = collection; rkey = rkey; swap_record = none }

module _ {Rec : Type 0} (L : Libraries Rec) where
  -- `getRoot()?.commit`: decoding the root may throw.
  abbrev pub root_commit : Option RepoRootRow → Result RepoError (Option Commit)
  root_commit none = ok none
  root_commit (some row) = elim (decode_commit L row.content) [
    | none ↦ fail call_failed
    | some commit ↦ ok (some commit)
  ]

  -- `if (!rootCid) …`: an empty tree is given an empty node.
  abbrev pub with_root : Progress Rec → String × Progress Rec
  with_root p = elim p.root [
    | some root ↦ (root, p)
    | none ↦ (
      L.empty_node.0,
      record p {
        root = some L.empty_node.0;
        memory = map_set L.empty_node.0 L.empty_node.1 p.memory;
      },
    )
  ]

  module _ (D : Timestamps) (did : String) where
    -- The writes to the database after the loop.
    unfoldable pub persist : Option String → String → Progress Rec → RepoDb → RepoDb
    unfolding persist_repo_root persist_repo_blocks prune_repo_blocks upsert_records delete_records
    persist prev rev p s =
        let (root, q) = with_root p in
        let commit = encode_commit L did root rev in
        let stored =
          persist_repo_blocks q.record_blocks rev
            (persist_repo_blocks q.memory rev (persist_repo_root commit.cid commit.bytes rev s)) in
        let pruned =
          prune_repo_blocks L (overlay q.memory (stored_block stored.blocks)) prev root stored in
        record pruned {
          records =
              delete_records (map (λ (d : RepoRecordDelete). d.uri) q.deletes)
                (upsert_records D q.upserts pruned.records);
        }

    module _ {World : Type 0} (effects : RepoSideEffects Rec World) where
      unfoldable pub apply_writes_internal :
          List (RepoWriteOp Rec)
          → ApplyWritesOptions
          → ℕ
          → ℕ
          → RepoDb
          → World
          → Result RepoError (ApplyWritesResult × RepoDb × World)
      unfolding check_request persist
      apply_writes_internal writes o now tids s w = do
        check_request writes o s
        prior ← root_commit s.root
        let rev = L.tid tids
        let store = stored_block s.blocks
        p ← apply_all L store did rev now writes (start (data_of prior) (suc tids))
        let (root, q) = with_root p
        let commit = encode_commit L did root rev
        blocks ← or_fail (
            build_commit_blocks L (overlay q.memory store) root commit.cid commit.bytes q.memory
              q.record_blocks
              (map (λ (d : RepoRecordDelete). path_of d.collection d.rkey) q.deletes))
        w' ← or_fail (
            effects.apply_blobs
              (record {
                did = did;
                rev = rev;
                now = now;
                writes = q.writes;
                deletes = q.deletes;
                validate_blobs = o.validate_blobs;
              })
              w)
        let event : RepoCommitEvent = record {
          did = did;
          commit_cid = commit.cid;
          rev = rev;
          since = rev_of prior;
          prev_data = data_of prior;
          now = now;
          ops = q.ops;
          blocks = blocks;
        }
        w'' ← or_fail (if o.emit_sequencer then effects.record_commit event w' else some w')
        ok (
          record { cid = commit.cid; rev = rev; commit_event = event; results = q.results },
          persist (data_of prior) rev p s,
          w'',
        )

      -- `swapCommit` is null, so it is not checked.
      unfoldable pub create_repo :
          List (RepoWriteOp Rec)
          → Bool
          → Bool
          → ℕ
          → ℕ
          → RepoDb
          → World
          → Result RepoError (ApplyWritesResult × RepoDb × World)
      unfolding apply_writes_internal
      create_repo writes validate emit now tids s w =
          apply_writes_internal writes
            (record {
              swap_commit = none;
              create_repo = true;
              validate_blobs = validate;
              emit_sequencer = emit;
            })
            now tids s w

      unfoldable pub apply_writes :
          List (RepoWriteOp Rec)
          → Option String
          → Bool
          → Bool
          → ℕ
          → ℕ
          → RepoDb
          → World
          → Result RepoError (ApplyWritesResult × RepoDb × World)
      unfolding apply_writes_internal
      apply_writes writes swap validate emit now tids s w =
          apply_writes_internal writes
            (record {
              swap_commit = swap;
              create_repo = false;
              validate_blobs = validate;
              emit_sequencer = emit;
            })
            now tids s w

      unfoldable pub create_record :
          String
          → Rec
          → Option String
          → ℕ
          → ℕ
          → RepoDb
          → World
          → Result RepoError (ApplyWritesResult × RepoDb × World)
      unfolding apply_writes
      create_record collection value rkey now tids s w =
          apply_writes (create_op (plain_base collection rkey) value ∷ []) none true true now tids s
            w

      unfoldable pub put_record :
          String
          → String
          → Rec
          → ℕ
          → ℕ
          → RepoDb
          → World
          → Result RepoError (ApplyWritesResult × RepoDb × World)
      unfolding apply_writes
      put_record collection rkey value now tids s w =
          apply_writes (update_op (plain_base collection (some rkey)) value ∷ []) none true true now
            tids s w

      unfoldable pub delete_record :
          String
          → String
          → ℕ
          → ℕ
          → RepoDb
          → World
          → Result RepoError (ApplyWritesResult × RepoDb × World)
      unfolding apply_writes
      delete_record collection rkey now tids s w =
          apply_writes (delete_op (plain_base collection (some rkey)) ∷ []) none true true now tids
            s w
