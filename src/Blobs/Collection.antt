-- ===== src/Blobs/Collection.antt =====
-- packages/danaus/src/actors/blobs/transactor.ts: the links and the blobs after `applyWrites`.
use mathlib.Core.Option.{some-injective}
use danaus.Prelude.{
  str_eq→eq, String, ◌≡◌, refl, sym, ap, subst, ◌∙◌, Bool, true, false, not, ◌&&◌, ◌||◌, Option,
  none, some, List, [], ◌∷◌, map, arith, str_eq, Bool-cases, Option-cases, inl, inr,
}
use danaus.Table.{select, delete, any}
use danaus.SeqEvent.{or_throw}
use danaus.Repo.Apply.{RepoBlobWriteOptions}
use danaus.Blobs.{Blob, RecordBlob, BlobState, BlobStore, with_cid}
use danaus.Blobs.References.{Value, Shapes}
use danaus.Blobs.Writer.{
  contains, affected_uris, collect_write_blob_refs, valid_blob_references, remove_record_blob_links,
  insert_record_blob_links, promote, make_blobs_permanent, unreferenced, remove_blobs,
  delete_orphaned_blobs, apply_blob_writes,
}
use danaus.Blobs.Membership.{
  contains-select, contains-distinct, contains-map-select, any-linked, stored-delete_among,
  stored-update, linked, linked-insert_links, linked-delete, linked-collect, contains-collect,
  writes_link, refers-of_linked,
}

-- A record refers to the blob.
abbrev pub refers : List RecordBlob → String → Bool
refers links cid = any (λ (row : RecordBlob). str_eq cid row.blob_cid) links

-- One of the records refers to the blob.
abbrev pub refers_from : List String → List RecordBlob → String → Bool
refers_from uris links cid =
    any (λ (row : RecordBlob). str_eq cid row.blob_cid && contains uris row.record_uri) links

-- No link is to a blob that is not stored.
abbrev pub LinksStored : {Files : Type 0} → BlobState Files → Type 0
LinksStored s =
    (link : RecordBlob) → linked s.links link && not (any (with_cid link.blob_cid) s.blobs) ≡ false

valid-stored :
    {Files : Type 0} (refs : List String) (cid : String) (s : BlobState Files)
    → valid_blob_references refs s ≡ true
    → contains refs cid ≡ true
    → any (with_cid cid) s.blobs ≡ true
unfolding valid_blob_references any
valid-stored [] cid s v c = absurd (cc)
valid-stored (r ∷ refs) cid s v c = elim (Bool-cases (str_eq cid r)) [
  | inl e ↦
      subst (λ t. any (with_cid t) s.blobs ≡ true) (sym (str_eq→eq cid r e)) (ground (arith, v))
  | inr e ↦ valid-stored refs cid s (ground (arith, v)) (ground (arith, c, e))
]

or_throw-some {ℓ κ} :
    {A : Type ℓ} {B : Type κ} (o : Option A) (f : A → Option B) (b : B)
    → or_throw o f ≡ some b
    → (a : A) × ((o ≡ some a) × (f a ≡ some b))
or_throw-some none f b h = absurd (cc)
or_throw-some (some a) f b h = (a, (refl, h))

module _ {Files : Type 0} (store : BlobStore Files) where
  -- What the promotion of temporary blobs leaves alone.
  promote-keeps :
      (rows : List Blob) (s s' : BlobState Files)
      → promote store rows s ≡ some s'
      → (s'.links ≡ s.links) × ((c : String) → any (with_cid c) s'.blobs ≡ any (with_cid c) s.blobs)
  promote-keeps [] s s' h =
      let same : s ≡ s' = some-injective s s' h in
      (
        ap (λ (t : BlobState Files). t.links) (sym same),
        λ c. ap (λ (t : BlobState Files). any (with_cid c) t.blobs) (sym same),
      )
  promote-keeps (row ∷ rows) s s' h = elim (Option-cases row.temp_key) [
    | inl e ↦ promote-keeps rows s s' (rw e at h)
    | inr e ↦ elim (Bool-cases (str_eq e.0 "")) [
      | inl f ↦ promote-keeps rows s s' (rw f at (rw e.1 at h))
      | inr f ↦
          let (files, (_, k)) =
            or_throw-some (store.make_permanent e.0 row.cid s.files) _ s' (rw f at (rw e.1 at h)) in
          let rest = promote-keeps rows _ s' k in
          (
            rest.0,
            λ c.
                rest.1 c
                ∙ stored-update (with_cid row.cid) (λ (b : Blob). record b { temp_key = none })
                    s.blobs c (λ b. refl),
          )
    ]
  ]

  permanent-keeps :
      (refs : List String) (s s' : BlobState Files)
      → make_blobs_permanent store refs s ≡ some s'
      → (s'.links ≡ s.links) × ((c : String) → any (with_cid c) s'.blobs ≡ any (with_cid c) s.blobs)
  unfolding make_blobs_permanent
  permanent-keeps refs s s' h =
      promote-keeps (select (λ (row : Blob). contains refs row.cid) s.blobs) s s' h

  remove-outcome :
      (cids : List String) (s s' : BlobState Files)
      → remove_blobs store cids s ≡ some s'
      → (s'.links ≡ s.links)
        × ((c : String)
            → any (with_cid c) s'.blobs ≡ any (with_cid c) s.blobs && not (contains cids c))
  unfolding any
  remove-outcome [] s s' h =
      let same : s ≡ s' = some-injective s s' h in
      (
        ap (λ (t : BlobState Files). t.links) (sym same),
        λ c. ap (λ (t : BlobState Files). any (with_cid c) t.blobs) (sym same) ∙ ground arith,
      )
  remove-outcome (cid ∷ cids) s s' h =
      let (files, (_, k)) = or_throw-some (store.delete_many (cid ∷ cids) s.files) _ s' h in
      let same = some-injective _ s' k in
      (
        ap (λ (t : BlobState Files). t.links) (sym same),
        λ c.
            ap (λ (t : BlobState Files). any (with_cid c) t.blobs) (sym same)
            ∙ stored-delete_among (cid ∷ cids) s.blobs c,
      )

unreferenced-contains :
    {Files : Type 0} (cids : List String) (s : BlobState Files) (c : String)
    → contains (unreferenced cids s) c ≡ contains cids c && not (refers s.links c)
unreferenced-contains cids s c =
    contains-select
      (λ cid. not (
        contains
          (map (λ (row : RecordBlob). row.blob_cid)
            (select (λ (row : RecordBlob). contains cids row.blob_cid) s.links))
          cid))
      cids c
    ∙ ground (
      arith,
      contains-map-select (λ (row : RecordBlob). contains cids row.blob_cid) s.links c,
      any-linked cids s.links c,
    )

module _ {Files : Type 0} (store : BlobStore Files) (shapes : Shapes)
    (o : RepoBlobWriteOptions Value) (s s' : BlobState Files)
    (h : apply_blob_writes store shapes o s ≡ some s') where
  abbrev gathered : List String × List RecordBlob
  gathered = collect_write_blob_refs shapes o.writes [] []

  -- The state after the links were replaced.
  abbrev relinked : BlobState Files
  relinked = insert_record_blob_links gathered.1 (remove_record_blob_links (affected_uris o) s).1

  collects :
      (kept : BlobState Files) × ((make_blobs_permanent store gathered.0 relinked ≡ some kept)
        × (delete_orphaned_blobs store (remove_record_blob_links (affected_uris o) s).0 kept
            ≡ some s'))
  unfolding apply_blob_writes
  collects = elim (Bool-cases (o.validate_blobs && not (valid_blob_references gathered.0 s))) [
    | inl e ↦ absurd (cc (rw e at h))
    | inr e ↦ or_throw-some (make_blobs_permanent store gathered.0 relinked) _ s' (rw e at h)
  ]

  links-after : s'.links ≡ relinked.links
  unfolding delete_orphaned_blobs
  links-after =
      let (kept, (e, k)) = collects in
      (remove-outcome store (unreferenced (remove_record_blob_links (affected_uris o) s).0 kept)
        kept s' k).0
      ∙ (permanent-keeps store gathered.0 relinked kept e).0

  blobs-after :
      (cid : String)
      → any (with_cid cid) s'.blobs
        ≡ any (with_cid cid) s.blobs
          && not (
              contains (remove_record_blob_links (affected_uris o) s).0 cid
              && not (refers s'.links cid))
  unfolding delete_orphaned_blobs insert_record_blob_links remove_record_blob_links
  blobs-after cid =
      let (kept, (e, k)) = collects in
      let cids = (remove_record_blob_links (affected_uris o) s).0 in
      let out = remove-outcome store (unreferenced cids kept) kept s' k in
      out.1 cid
      ∙ ground (
        arith,
        (permanent-keeps store gathered.0 relinked kept e).1 cid,
        unreferenced-contains cids kept cid,
        ap (λ links. refers links cid) out.0,
      )

  -- After a successful call a record is linked to a blob where it was and no write replaces or
  -- deletes it, or where a write of it refers to the blob; and a blob is stored where it was, unless
  -- one of the replaced or deleted records referred to it and no record does any more.
  pub apply_blob_writes-outcome :
      ((link : RecordBlob)
        → linked s'.links link
          ≡ linked s.links link && not (contains (affected_uris o) link.record_uri)
            || writes_link shapes o.writes link)
      × ((cid : String)
          → any (with_cid cid) s'.blobs
            ≡ any (with_cid cid) s.blobs
              && not (refers_from (affected_uris o) s.links cid && not (refers s'.links cid)))
  unfolding insert_record_blob_links remove_record_blob_links any
  apply_blob_writes-outcome = (
    λ link.
        ap (λ links. linked links link) links-after
        ∙ linked-insert_links gathered.1
            (delete (λ (row : RecordBlob). contains (affected_uris o) row.record_uri) s.links) link
        ∙ ground (
          arith,
          linked-delete (affected_uris o) s.links link,
          linked-collect shapes o.writes [] [] link,
        ),
    λ cid.
        blobs-after cid
        ∙ ground (
          arith,
          contains-distinct
              (map (λ (row : RecordBlob). row.blob_cid)
                (select (λ (row : RecordBlob). contains (affected_uris o) row.record_uri) s.links))
              cid,
          contains-map-select (λ (row : RecordBlob). contains (affected_uris o) row.record_uri)
              s.links cid,
        ),
  )

  checked : o.validate_blobs ≡ true → valid_blob_references gathered.0 s ≡ true
  unfolding apply_blob_writes
  checked v = elim (Bool-cases (valid_blob_references gathered.0 s)) [
    | inl e ↦ e
    | inr e ↦ absurd (cc (rw (v, e) at h))
  ]

  stored-before :
      (link : RecordBlob)
      → o.validate_blobs ≡ true
      → LinksStored s
      → linked s'.links link ≡ true
      → any (with_cid link.blob_cid) s.blobs ≡ true
  stored-before link v i there = elim (Bool-cases (writes_link shapes o.writes link)) [
    | inl e ↦
        valid-stored gathered.0 link.blob_cid s (checked v)
          (contains-collect shapes o.writes [] [] link (ground (arith, e)))
    | inr e ↦ ground (arith, e, i link, there, apply_blob_writes-outcome.0 link)
  ]

  -- A successful call that validates blobs keeps it so that every link is to a stored blob.
  pub apply_blob_writes-LinksStored : o.validate_blobs ≡ true → LinksStored s → LinksStored s'
  apply_blob_writes-LinksStored v i link = elim (Bool-cases (linked s'.links link)) [
    | inl e ↦ ground (
      arith,
      e,
      stored-before link v i e,
      refers-of_linked s'.links link e,
      apply_blob_writes-outcome.1 link.blob_cid,
    )
    | inr e ↦ ground (arith, e)
  ]
