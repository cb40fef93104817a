-- ===== src/Repo/Creation.antt =====
-- packages/danaus/src/actors/repo/transactor.ts: what becomes of a call of `createRecord`.
use danaus.Prelude.{
  Result, fail, ok, ◌>>=◌, ℕ, suc, String, ◌≡◌, refl, ap, ◌∙◌, Bool, true, false, Option, none,
  some, List, [], ◌∷◌, ◌⊎◌, Option-cases, inl, inr, str_eq, str_eq_refl, is_some,
}
use danaus.Table.{Timestamps, any}
use danaus.SeqEvent.{create, RepoCommitEvent}
use danaus.RecordIndex.{get_current_record_cid, upsert_records}
use danaus.RecordIndex.Lookup.{cid-upsert_records, cid-delete_records}
use danaus.Repo.{
  RepoRootRow, RepoWriteOp, create_op, RepoDb, Commit, Libraries, stored_block, overlay, Store,
}
use danaus.Repo.Signing.{decode_commit}
use danaus.Repo.Blocks.{build_commit_blocks, collect_deletion_proofs, add_proofs}
use danaus.Repo.Writes.{
  RepoError, Progress, path_of, uri_of, record_already_exists, apply_write, apply_all, written,
}
use danaus.Repo.Apply.{
  RepoSideEffects, RepoBlobWriteOptions, ApplyWritesResult, start, root_commit, persist,
  apply_writes_internal, apply_writes, create_record, check_request, plain_base, or_fail,
}
use danaus.Repo.Tree.{Paths, MstLaws}
use danaus.Repo.Committed.{persist-records, with_root-deletes}

or_fail-bind {ℓ κ μ} :
    {A : Type ℓ} {B : Type κ} (P : Result RepoError B → Type μ) (o : Option A)
    (f : A → Result RepoError B)
    → is_some o ≡ true
    → ((a : A) → P (f a))
    → P (or_fail o >>= f)
or_fail-bind P none f h k = absurd (cc)
or_fail-bind P (some a) f h k = k a

module _ {Rec : Type 0} (L : Libraries Rec) where
  check-passes :
      (w : RepoWriteOp Rec) (validate emit : Bool) (s : RepoDb) (row : RepoRootRow)
      → s.root ≡ some row
      → check_request
          (w ∷ [])
          (record {
            swap_commit = none;
            create_repo = false;
            validate_blobs = validate;
            emit_sequencer = emit;
          })
          s
        ≡ ok tt
  unfolding check_request
  check-passes w validate emit s row e = rw e refl

  apply_write-creates :
      (store : Store) (did rev : String) (now : ℕ) (collection rkey : String) (value : Rec)
      (p : Progress Rec)
      → str_eq rkey "" ≡ false
      → L.find (overlay p.memory store) p.root (path_of collection rkey) ≡ none
      → apply_write L store did rev now (create_op (plain_base collection (some rkey)) value) p
        ≡ ok (written L store did rev now create collection rkey value none p)
  unfolding apply_write
  apply_write-creates store did rev now collection rkey value p k e = rw k (rw e refl)

  apply_write-refuses :
      (store : Store) (did rev : String) (now : ℕ) (collection rkey : String) (value : Rec)
      (p : Progress Rec) (c : String)
      → str_eq rkey "" ≡ false
      → L.find (overlay p.memory store) p.root (path_of collection rkey) ≡ some c
      → apply_write L store did rev now (create_op (plain_base collection (some rkey)) value) p
        ≡ fail record_already_exists
  unfolding apply_write
  apply_write-refuses store did rev now collection rkey value p c k e = rw k (rw e refl)

  no_deletions :
      (store : Store) (root cid : String) (bytes : List ℕ) (nodes records : List (String × List ℕ))
      (paths : List String)
      → paths ≡ []
      → is_some (build_commit_blocks L store root cid bytes nodes records paths) ≡ true
  unfolding build_commit_blocks collect_deletion_proofs add_proofs
  no_deletions store root cid bytes nodes records paths e = rw e refl

  module _ (laws : MstLaws L) (D : Timestamps) (did : String) {World : Type 0}
      (effects : RepoSideEffects Rec World) (collection rkey : String) (value : Rec) (now tids : ℕ)
      (s : RepoDb) (w : World) (row : RepoRootRow) (prior : Commit) (m : Paths)
      (stored : s.root ≡ some row) (decoded : decode_commit L row.content ≡ some prior)
      (current : laws.Tree (stored_block s.blocks) (some prior.unsigned.data_cid) m)
      (named : str_eq rkey "" ≡ false) where
    abbrev begun : Progress Rec
    begun = start (some prior.unsigned.data_cid) (suc tids)

    abbrev created : Progress Rec
    created =
        written L (stored_block s.blocks) did (L.tid tids) now create collection rkey value none
          begun

    -- The call returns, and the record index has the new record.
    abbrev Created : Result RepoError (ApplyWritesResult × RepoDb × World) → Type 0
    Created r =
        (out : ApplyWritesResult × RepoDb × World) × (r ≡ ok out)
        × (get_current_record_cid (uri_of did (path_of collection rkey)) out.1.records
            ≡ some (L.create_cid (L.encode_record value)))

    root-known : root_commit L s.root ≡ ok (some prior)
    root-known = rw stored (rw (decoded, root_commit) refl)

    loop-refuses :
        (c : String)
        → m (path_of collection rkey) ≡ some c
        → apply_all L
            (stored_block s.blocks)
            did
            (L.tid tids)
            now
            (create_op (plain_base collection (some rkey)) value ∷ [])
            begun
          ≡ fail record_already_exists
    unfolding apply_all
    loop-refuses c there =
        rw
          (apply_write-refuses (stored_block s.blocks) did (L.tid tids) now collection rkey value
            begun c named
            (laws.find_lem (stored_block s.blocks) (some prior.unsigned.data_cid) m
                (path_of collection rkey) current
              ∙ there))
          refl

    loop-creates :
        m (path_of collection rkey) ≡ none
        → apply_all L
            (stored_block s.blocks)
            did
            (L.tid tids)
            now
            (create_op (plain_base collection (some rkey)) value ∷ [])
            begun
          ≡ ok created
    unfolding apply_all
    loop-creates free =
        rw
          (apply_write-creates (stored_block s.blocks) did (L.tid tids) now collection rkey value
            begun named
            (laws.find_lem (stored_block s.blocks) (some prior.unsigned.data_cid) m
                (path_of collection rkey) current
              ∙ free))
          refl

    indexed-created :
        get_current_record_cid
          (uri_of did (path_of collection rkey))
          (persist L D did (some prior.unsigned.data_cid) (L.tid tids) created s).records
        ≡ some (L.create_cid (L.encode_record value))
    unfolding any
    indexed-created =
        let uri = uri_of did (path_of collection rkey) in
        let cids = get_current_record_cid uri in
        ap (get_current_record_cid uri)
          (persist-records L D did (some prior.unsigned.data_cid) (L.tid tids) created s)
        ∙ cid-delete_records uri [] (upsert_records D created.upserts s.records)
        ∙ cid-upsert_records D uri created.upserts s.records
        ∙ rw (str_eq_refl uri) refl

    creates :
        m (path_of collection rkey) ≡ none
        → ((b : RepoBlobWriteOptions Rec) (v : World) → is_some (effects.apply_blobs b v) ≡ true)
        → ((e : RepoCommitEvent) (v : World) → is_some (effects.record_commit e v) ≡ true)
        → Created (create_record L D did effects collection value (some rkey) now tids s w)
    unfolding create_record apply_writes apply_writes_internal
    creates free blobs commits =
        rw
          (check-passes (create_op (plain_base collection (some rkey)) value) true true s row
            stored)
          (rw root-known (
            rw (loop-creates free) (
              or_fail-bind Created _ _
                (no_deletions _ _ _ _ _ _ _ (rw (with_root-deletes L created) refl))
                λ blocks.
                  or_fail-bind Created _ _ (blobs _ _)
                    λ v. or_fail-bind Created _ _ (commits _ _) λ v'. (_, refl, indexed-created))))

    refuses :
        (c : String)
        → m (path_of collection rkey) ≡ some c
        → create_record L D did effects collection value (some rkey) now tids s w
          ≡ fail record_already_exists
    unfolding create_record apply_writes apply_writes_internal
    refuses c there =
        rw
          (check-passes (create_op (plain_base collection (some rkey)) value) true true s row
            stored)
          (rw root-known (rw (loop-refuses c there) refl))

    -- Where the side effects do not throw, `createRecord` with a record key returns where the tree has
    -- nothing at the path, and the record index then has the new record's CID; where the tree has a
    -- record at the path it fails, as the record already exists.
    pub create_record-outcome :
        ((b : RepoBlobWriteOptions Rec) (v : World) → is_some (effects.apply_blobs b v) ≡ true)
        → ((e : RepoCommitEvent) (v : World) → is_some (effects.record_commit e v) ≡ true)
        → ((m (path_of collection rkey) ≡ none)
            × Created (create_record L D did effects collection value (some rkey) now tids s w))
          ⊎ ((is_some (m (path_of collection rkey)) ≡ true)
              × (create_record L D did effects collection value (some rkey) now tids s w
                  ≡ fail record_already_exists))
    create_record-outcome blobs commits = elim (Option-cases (m (path_of collection rkey))) [
      | inl e ↦ inl (e, creates e blobs commits)
      | inr e ↦ inr (rw e.1 refl, refuses e.0 e.1)
    ]
