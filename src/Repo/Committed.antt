-- ===== src/Repo/Committed.antt =====
-- packages/danaus/src/actors/repo/transactor.ts: what a successful `applyWritesInternal` leaves in
-- the tree and in the record index.
use danaus.Prelude.{
  bind-ok, ok, ok-injective, ℕ, suc, String, ◌≡◌, refl, sym, ap, ◌∙◌, Option, none, some, List, map,
  if◌then◌else◌, Option-cases, inl, inr,
}
use danaus.Table.{Timestamps}
use danaus.SeqEvent.{RepoCommitEvent}
use danaus.RecordIndex.{RecordTable, get_current_record_cid, upsert_records, delete_records}
use danaus.Repo.{RepoWriteOp, RepoDb, Commit, Libraries, stored_block, overlay}
use danaus.Repo.Blocks.{
  build_commit_blocks, prune_repo_blocks, persist_repo_root, persist_repo_blocks,
}
use danaus.Repo.Signing.{encode_commit}
use danaus.Repo.Writes.{RepoRecordDelete, Progress, path_of, uri_of, apply_all}
use danaus.Repo.Apply.{
  RepoSideEffects, ApplyWritesOptions, ApplyWritesResult, or_fail, data_of, rev_of, start,
  check_request, root_commit, with_root, persist, apply_writes_internal,
}
use danaus.Repo.Tree.{Paths}
use danaus.Repo.Steps.{uris_of}

-- The record index of the account `did` has the CIDs of `m`.
abbrev pub IndexOf : String → RecordTable → Paths → Type 0
IndexOf did rows m = (path : String) → get_current_record_cid (uri_of did path) rows ≡ m path

module _ {Rec : Type 0} (L : Libraries Rec) where
  pub with_root-ops : (p : Progress Rec) → (with_root L p).1.ops ≡ p.ops
  with_root-ops p = elim (Option-cases p.root) [ inl e ↦ rw e refl | inr e ↦ rw e.1 refl ]

  with_root-upserts : (p : Progress Rec) → (with_root L p).1.upserts ≡ p.upserts
  with_root-upserts p = elim (Option-cases p.root) [ inl e ↦ rw e refl | inr e ↦ rw e.1 refl ]

  pub with_root-deletes : (p : Progress Rec) → (with_root L p).1.deletes ≡ p.deletes
  with_root-deletes p = elim (Option-cases p.root) [ inl e ↦ rw e refl | inr e ↦ rw e.1 refl ]

  prune-records :
      (store : String → Option (List ℕ)) (prev : Option String) (next : String) (s : RepoDb)
      → (prune_repo_blocks L store prev next s).records ≡ s.records
  unfolding prune_repo_blocks
  prune-records store none next s = refl
  prune-records store (some prev) next s = refl

  module _ (D : Timestamps) (did : String) where
    pub persist-records :
        (prev : Option String) (rev : String) (p : Progress Rec) (s : RepoDb)
        → (persist L D did prev rev p s).records
          ≡ delete_records (uris_of p.deletes) (upsert_records D p.upserts s.records)
    unfolding persist persist_repo_root persist_repo_blocks
    persist-records prev rev p s =
        rw (with_root-deletes p) (rw (with_root-upserts p) (rw (prune-records _ prev _ _) refl))

    module _ {World : Type 0} (effects : RepoSideEffects Rec World) where
      -- What a successful call went through.
      pub record Succeeded (writes : List (RepoWriteOp Rec)) (now tids : ℕ) (s : RepoDb)
          (event : RepoCommitEvent) (s' : RepoDb) : Type 0 where
        pub prior : Option Commit
        pub progress : Progress Rec
        pub had_root : root_commit L s.root ≡ ok prior
        pub applied :
            apply_all L
              (stored_block s.blocks)
              did
              (L.tid tids)
              now
              writes
              (start (data_of prior) (suc tids))
            ≡ ok progress
        pub emitted : event.ops ≡ progress.ops
        pub kept : s' ≡ persist L D did (data_of prior) (L.tid tids) progress s

      pub apply_writes_internal-Succeeded :
          (writes : List (RepoWriteOp Rec)) (o : ApplyWritesOptions) (now tids : ℕ) (s s' : RepoDb)
          (w w' : World) (r : ApplyWritesResult)
          → apply_writes_internal L D did effects writes o now tids s w ≡ ok (r, s', w')
          → Succeeded writes now tids s r.commit_event s'
      unfolding apply_writes_internal
      apply_writes_internal-Succeeded writes o now tids s s' w w' r h =
          let out : ApplyWritesResult × RepoDb × World = (r, s', w') in
          let (_, (_, h1)) = bind-ok (check_request writes o s) _ out h in
          let (prior, (e1, h2)) = bind-ok (root_commit L s.root) _ out h1 in
          let (p, (e2, h3)) =
            bind-ok
              (apply_all L (stored_block s.blocks) did (L.tid tids) now writes
                (start (data_of prior) (suc tids)))
              _ out h2 in
          let q = (with_root L p).1 in
          let root = (with_root L p).0 in
          let commit = encode_commit L did root (L.tid tids) in
          let (blocks, (_, h4)) =
            bind-ok
              (or_fail (
                build_commit_blocks L (overlay q.memory (stored_block s.blocks)) root commit.cid
                  commit.bytes q.memory q.record_blocks
                  (map (λ (d : RepoRecordDelete). path_of d.collection d.rkey) q.deletes)))
              _ out h3 in
          let (v, (_, h5)) =
            bind-ok
              (or_fail (
                effects.apply_blobs
                  (record {
                    did = did;
                    rev = L.tid tids;
                    now = now;
                    writes = q.writes;
                    deletes = q.deletes;
                    validate_blobs = o.validate_blobs;
                  })
                  w))
              _ out h4 in
          let event : RepoCommitEvent = record {
            did = did;
            commit_cid = commit.cid;
            rev = L.tid tids;
            since = rev_of prior;
            prev_data = data_of prior;
            now = now;
            ops = q.ops;
            blocks = blocks;
          } in
          let (_, (_, h6)) =
            bind-ok (or_fail (if o.emit_sequencer then effects.record_commit event v else some v)) _
              out h5 in
          let same = ok-injective _ out h6 in
          record {
            prior = prior;
            progress = p;
            had_root = e1;
            applied = e2;
            emitted =
                ap (λ (t : ApplyWritesResult × RepoDb × World). t.0.commit_event.ops) (sym same)
                ∙ with_root-ops p;
            kept = ap (λ (t : ApplyWritesResult × RepoDb × World). t.1) (sym same);
          }
