-- ===== src/RecordIndex/Lookup.antt =====
-- What `getCurrentRecordCid` finds after the rows of the record index were changed.
use danaus.Prelude.{
  String, ◌≡◌, refl, ◌∙◌, subst, Bool, true, false, ◌&&◌, ap, Option, none, some, List, [], ◌∷◌,
  ◌++◌, arith, if◌then◌else◌, str_eq, str_eq→eq, str_eq_comm, Bool-cases, inl, inr,
}
use danaus.Table.{Timestamps, first, update, delete, any}
use danaus.RecordIndex.{
  RecordTable, RecordIndexEntry, RecordIndexUpsert, with_uri, get_record, get_current_record_cid,
  upsert_record, upsert_records, delete_records, overwrite, new_entry,
}

-- The CID that a batch of upserts leaves at a URI where there was `old`.
abbrev pub last_upsert : String → List RecordIndexUpsert → Option String → Option String
last_upsert uri [] old = old
last_upsert uri (u ∷ us) old = last_upsert uri us (if str_eq uri u.uri then some u.cid else old)

pub last_upsert-append :
    (uri : String) (us vs : List RecordIndexUpsert) (old : Option String)
    → last_upsert uri (us ++ vs) old ≡ last_upsert uri vs (last_upsert uri us old)
last_upsert-append uri [] vs old = refl
last_upsert-append uri (u ∷ us) vs old =
    last_upsert-append uri us vs (if str_eq uri u.uri then some u.cid else old)

pub any-append {ℓ} :
    {A : Type ℓ} (p : A → Bool) (xs ys : List A)
    → any p (xs ++ ys) ≡ (if any p xs then true else any p ys)
unfolding any
any-append p [] ys = refl
any-append p (x ∷ xs) ys = ground (arith, any-append p xs ys)

cid-step :
    (uri : String) (row : RecordIndexEntry) (rows : RecordTable)
    → get_current_record_cid uri (row ∷ rows)
      ≡ (if str_eq row.uri uri then some row.cid else get_current_record_cid uri rows)
unfolding get_current_record_cid get_record first
cid-step uri row rows = ground arith

absent-cid :
    (uri : String) (rows : RecordTable)
    → any (with_uri uri) rows ≡ false
    → get_current_record_cid uri rows ≡ none
unfolding get_current_record_cid get_record first any
absent-cid uri [] h = refl
absent-cid uri (row ∷ rows) h = ground (arith, h, cid-step uri row rows, absent-cid uri rows)

cid-append :
    (uri : String) (row : RecordIndexEntry) (rows : RecordTable)
    → any (with_uri row.uri) rows ≡ false
    → get_current_record_cid uri (rows ++ row ∷ [])
      ≡ (if str_eq uri row.uri then some row.cid else get_current_record_cid uri rows)
unfolding any get_current_record_cid get_record first
cid-append uri row [] h = ground (arith, str_eq_comm uri row.uri)
cid-append uri row (x ∷ xs) h = elim (Bool-cases (str_eq x.uri uri)) [
  | inl e ↦
      let other : str_eq uri row.uri ≡ false =
        subst (λ v. str_eq v row.uri ≡ false) (str_eq→eq x.uri uri e) (ground (arith, h)) in
      ground (arith, e, other)
  | inr e ↦ ground (arith, e, h, cid-append uri row xs)
]

module _ (D : Timestamps) where
  cid-update :
      (uri : String) (u : RecordIndexUpsert) (rows : RecordTable)
      → get_current_record_cid uri (update (with_uri u.uri) (overwrite D u) rows) ≡ (
          if any (with_uri u.uri) rows && str_eq uri u.uri
          then some u.cid
          else get_current_record_cid uri rows)
  unfolding any update get_current_record_cid get_record first
  cid-update uri u [] = ground arith
  cid-update uri u (x ∷ xs) = elim (Bool-cases (str_eq x.uri u.uri)) [
    | inl e ↦
        let swap : str_eq x.uri uri ≡ str_eq uri u.uri =
          ap (λ v. str_eq v uri) (str_eq→eq x.uri u.uri e) ∙ str_eq_comm u.uri uri in
        ground (arith, e, swap, cid-update uri u xs)
    | inr e ↦ elim (Bool-cases (str_eq x.uri uri)) [
      | inl f ↦
          let other : str_eq uri u.uri ≡ false =
            subst (λ v. str_eq v u.uri ≡ false) (str_eq→eq x.uri uri f) e in
          ground (arith, e, f, other)
      | inr f ↦ ground (arith, e, f, cid-update uri u xs)
    ]
  ]

  pub cid-upsert_record :
      (uri : String) (u : RecordIndexUpsert) (rows : RecordTable)
      → get_current_record_cid uri (upsert_record D u rows)
        ≡ (if str_eq uri u.uri then some u.cid else get_current_record_cid uri rows)
  unfolding upsert_record
  cid-upsert_record uri u rows = elim (Bool-cases (any (with_uri u.uri) rows)) [
    | inl e ↦ ground (arith, e, cid-update uri u rows)
    | inr e ↦ rw e (cid-append uri (new_entry D u) rows e)
  ]

  pub cid-upsert_records :
      (uri : String) (us : List RecordIndexUpsert) (rows : RecordTable)
      → get_current_record_cid uri (upsert_records D us rows)
        ≡ last_upsert uri us (get_current_record_cid uri rows)
  unfolding upsert_records
  cid-upsert_records uri [] rows = refl
  cid-upsert_records uri (u ∷ us) rows =
      cid-upsert_records uri us (upsert_record D u rows) ∙ (rw (cid-upsert_record uri u rows) refl)

pub cid-delete_records :
    (uri : String) (uris : List String) (rows : RecordTable)
    → get_current_record_cid uri (delete_records uris rows)
      ≡ (if any (λ v. str_eq uri v) uris then none else get_current_record_cid uri rows)
unfolding delete_records delete get_current_record_cid get_record first
cid-delete_records uri uris [] = ground arith
cid-delete_records uri uris (row ∷ rows) = elim (Bool-cases (str_eq row.uri uri)) [
  | inl e ↦
      let same : any (λ v. str_eq row.uri v) uris ≡ any (λ v. str_eq uri v) uris =
        ap (λ t. any (λ v. str_eq t v) uris) (str_eq→eq row.uri uri e) in
      ground (arith, e, same, cid-delete_records uri uris rows)
  | inr e ↦ ground (arith, e, cid-delete_records uri uris rows)
]
