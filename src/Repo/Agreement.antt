-- ===== src/Repo/Agreement.antt =====
-- packages/danaus/src/actors/repo/transactor.ts: the commit, the tree and the record index after a
-- successful `applyWritesInternal`.
use danaus.Prelude.{
  ok, ok-injective, ℕ, suc, String, ◌≡◌, refl, sym, ap, subst, ◌∙◌, true, Option, none, some, List,
  arith, Option-cases, inl, inr,
}
use danaus.Table.{Timestamps, any}
use danaus.RecordIndex.{get_current_record_cid, upsert_records}
use danaus.RecordIndex.Lookup.{cid-upsert_records, cid-delete_records}
use danaus.Repo.{Store, RepoWriteOp, RepoDb, Commit, Libraries, stored_block, overlay}
use danaus.Repo.Writes.{Progress, uri_of, apply_all}
use danaus.Repo.Apply.{
  RepoSideEffects, ApplyWritesOptions, ApplyWritesResult, data_of, start, root_commit, with_root,
  persist, apply_writes_internal,
}
use danaus.Repo.Tree.{Paths, MstLaws, after, Honest, deletes_path, indexed}
use danaus.Repo.Steps.{Sound, apply_all-Sound, uris_of}
use danaus.Repo.Persisted.{Agrees}
use danaus.Repo.Committed.{IndexOf, Succeeded, apply_writes_internal-Succeeded, persist-records}

-- A root that is left out is the empty node's, which stands for the same map.
with_root-Tree :
    {Rec : Type 0} (L : Libraries Rec) (laws : MstLaws L) (store : Store) (p : Progress Rec)
    (n : Paths)
    → laws.Tree (overlay p.memory store) p.root n
    → laws.Tree (overlay (with_root L p).1.memory store) (some (with_root L p).0) n
with_root-Tree L laws store p n t = elim (Option-cases p.root) [
  | inl e ↦ rw e (
      laws.empty_lem store p.memory n
        (subst (λ root. laws.Tree (overlay p.memory store) root n) e t))
  | inr e ↦ rw e.1 (subst (λ root. laws.Tree (overlay p.memory store) root n) e.1 t)
]

module _ {Rec World : Type 0} (L : Libraries Rec) (laws : MstLaws L) (D : Timestamps)
    (effects : RepoSideEffects Rec World) (did : String) (writes : List (RepoWriteOp Rec))
    (o : ApplyWritesOptions) (now tids : ℕ) (s s' : RepoDb) (w w' : World) (r : ApplyWritesResult)
    (m : Paths) (prior : Option Commit) (known : root_commit L s.root ≡ ok prior)
    (current : laws.Tree (stored_block s.blocks) (data_of prior) m)
    (h : apply_writes_internal L D did effects writes o now tids s w ≡ ok (r, s', w')) where
  success : Succeeded L D did effects writes now tids s r.commit_event s'
  success = apply_writes_internal-Succeeded L D did effects writes o now tids s s' w w' r h

  progress-Sound : Sound L laws (stored_block s.blocks) did (L.tid tids) now m success.progress
  unfolding any
  progress-Sound =
      apply_all-Sound L laws (stored_block s.blocks) did (L.tid tids) now m writes
        (start (data_of success.prior) (suc tids)) success.progress
        (record {
          tree =
              subst (λ c. laws.Tree (stored_block s.blocks) (data_of c) m)
                (ok-injective _ _ (sym known ∙ success.had_root)) current;
          honest = tt;
          deletes_match = λ path. refl;
          upserts_match = λ path old. refl;
        })
        success.applied

  -- Where the tree stands for `m`, the operations of the commit event of a successful call are true
  -- of `m` one after the other: a creation is of a path that is absent, and an update or a deletion
  -- is of a path that is there, whose CID is the operation's `prev`.
  pub apply_writes_internal-Honest : Honest m r.commit_event.ops
  apply_writes_internal-Honest = subst (Honest m) (sym success.emitted) progress-Sound.honest

  index-indexed : IndexOf did s.records m → IndexOf did s'.records (indexed r.commit_event.ops m)
  index-indexed index path =
      let p = success.progress in
      let uri = uri_of did path in
      ap (λ (t : RepoDb). get_current_record_cid uri t.records) success.kept
      ∙ ap (get_current_record_cid uri) (persist-records L D did _ _ p s)
      ∙ cid-delete_records uri (uris_of p.deletes) (upsert_records D p.upserts s.records)
      ∙ ground (
        arith,
        cid-upsert_records D uri p.upserts s.records,
        index path,
        success.emitted,
        progress-Sound.deletes_match path,
        progress-Sound.upserts_match path (m path),
      )

  persisted : s' ≡ persist L D did (data_of prior) (L.tid tids) success.progress s
  persisted =
      subst (λ c. s' ≡ persist L D did (data_of c) (L.tid tids) success.progress s)
        (ok-injective _ _ (sym success.had_root ∙ known)) success.kept

  tree-after :
      laws.Tree
        (overlay (with_root L success.progress).1.memory (stored_block s.blocks))
        (some (with_root L success.progress).0)
        (after r.commit_event.ops m)
  tree-after =
      subst
        (λ ops.
          laws.Tree (overlay (with_root L success.progress).1.memory (stored_block s.blocks))
            (some (with_root L success.progress).0) (after ops m))
        (sym success.emitted)
        (with_root-Tree L laws (stored_block s.blocks) success.progress
          (after success.progress.ops m) progress-Sound.tree)

  -- No block of the call's tree has the CID of a stored block with other bytes.
  abbrev pub NoCollision : Type 0
  NoCollision =
      (p : Progress Rec)
      → apply_all L (stored_block s.blocks) did (L.tid tids) now writes
          (start (data_of prior) (suc tids))
        ≡ ok p
      → Agrees (with_root L p).1.memory (stored_block s.blocks)

  -- Where the tree stands for a map and the record index has its CIDs, a record that a successful
  -- call deletes and then writes again is in the tree that the call persists, but not in the record
  -- index.
  pub recreated-is_lost :
      (path cid : String)
      → IndexOf did s.records m
      → deletes_path path r.commit_event.ops ≡ true
      → after r.commit_event.ops m path ≡ some cid
      → (get_current_record_cid (uri_of did path) s'.records ≡ none)
        × ((p : Progress Rec) × (s' ≡ persist L D did (data_of prior) (L.tid tids) p s)
            × (L.find
                  (overlay (with_root L p).1.memory (stored_block s.blocks))
                  (some (with_root L p).0)
                  path
                ≡ some cid))
  recreated-is_lost path cid index e there = (
    index-indexed index path ∙ rw e refl,
    (success.progress, persisted, laws.find_lem _ _ _ path tree-after ∙ there),
  )
