-- ===== src/Mfa/Fresh.antt =====
-- packages/danaus/src/accounts/mfa.ts: a credential that is created without a name.
use danaus.Prelude.{
  ℕ, ◌<◌, ◌≡◌, ◌≢◌, refl, ap, ◌∙◌, String, true, false, none, List, [], ◌∷◌, ◌++◌, map, arith, All,
  str_eq_comm, str_eq_refl, ne-of-str_eq-false, leb,
}
use danaus.Table.Rows.{select-append}
use danaus.Mfa.Sync.{sync-SyncKeeps}
use danaus.Table.{Timestamps, first, select, any}
use danaus.Mfa.{MfaDb, TotpCredential, ok, totp_of, count_totp_credentials, sync_preferred_mfa}
use danaus.Mfa.Names.{has, generate_name-fresh}
use danaus.Mfa.Totp.{
  CreateTotpCredentialOptions, create_totp_credential, generate_totp_name, new_totp, totp_named,
  name_or, list_totp_credentials, insert_totp,
}

unnamed :
    (did name : String) (rows : List TotpCredential)
    → has name (map (λ (c : TotpCredential). c.name) (select (totp_of did) rows)) ≡ false
    → first (totp_named did name) rows ≡ none
unfolding any select first
unnamed did name [] h = refl
unnamed did name (x ∷ xs) h = ground (arith, str_eq_comm name x.name, unnamed did name xs)

generate_totp_name-fresh :
    (did : String) (s : MfaDb)
    → first (totp_named did (generate_totp_name did s)) s.totp_credentials ≡ none
unfolding generate_totp_name list_totp_credentials
generate_totp_name-fresh did s = unnamed did (generate_totp_name did s) s.totp_credentials (
    generate_name-fresh "Authenticator"
      (map (λ (c : TotpCredential). c.name) (select (totp_of did) s.totp_credentials)))

distinct_names :
    (name : String) (rows : List TotpCredential)
    → has name (map (λ (c : TotpCredential). c.name) rows) ≡ false
    → All (λ (c : TotpCredential). c.name ≢ name) rows
unfolding any
distinct_names name [] h = tt
distinct_names name (x ∷ xs) h = (
  ne-of-str_eq-false x.name name (ground (arith, str_eq_comm name x.name)),
  distinct_names name xs (ground arith),
)

own_row :
    (did : String) (row : TotpCredential)
    → totp_of did row ≡ true
    → select (totp_of did) (row ∷ []) ≡ row ∷ []
unfolding select
own_row did row e = ground arith

module _ (D : Timestamps) where
  abbrev pub unnamed_row : CreateTotpCredentialOptions → ℕ → MfaDb → TotpCredential
  unnamed_row o now s = new_totp D o (generate_totp_name o.did s) s.next_totp_id now

  created_when :
      (o : CreateTotpCredentialOptions) (now : ℕ) (s : MfaDb)
      → leb 5 (count_totp_credentials o.did s) ≡ false
      → o.name ≡ none
      → first (totp_named o.did (generate_totp_name o.did s)) s.totp_credentials ≡ none
      → create_totp_credential D o now s
        ≡ (ok (unnamed_row o now s), sync_preferred_mfa o.did (insert_totp (unnamed_row o now s) s))
  unfolding create_totp_credential name_or
  created_when o now s h n e = ground arith

  -- An account with fewer than five TOTP credentials gets one more when no name is given: it is
  -- returned and is the last row of the table, which else is as it was, and its generated name is
  -- that of no credential that the account had before.
  pub create_totp_credential-unnamed :
      (o : CreateTotpCredentialOptions) (now : ℕ) (s : MfaDb)
      → count_totp_credentials o.did s < 5
      → o.name ≡ none
      → let row = new_totp D o (generate_totp_name o.did s) s.next_totp_id now in
        let (result, s') = create_totp_credential D o now s in
        (result ≡ ok row)
        × (s'.totp_credentials ≡ s.totp_credentials ++ row ∷ [])
        × (list_totp_credentials o.did s' ≡ list_totp_credentials o.did s ++ row ∷ [])
        × All (λ (c : TotpCredential). c.name ≢ row.name) (list_totp_credentials o.did s)
  unfolding list_totp_credentials generate_totp_name
  create_totp_credential-unnamed o now s h n =
      let row = unnamed_row o now s in
      let e = created_when o now s (ground arith) n (generate_totp_name-fresh o.did s) in
      let added =
        ap (λ r. r.1.totp_credentials) e
        ∙ (sync-SyncKeeps o.did (insert_totp row s)).totp_credentials in
      (
        ap (λ r. r.0) e,
        added,
        ap (select (totp_of o.did)) added
            ∙ select-append (totp_of o.did) s.totp_credentials (row ∷ [])
            ∙ ap (λ rs. select (totp_of o.did) s.totp_credentials ++ rs)
                (own_row o.did row (str_eq_refl o.did)),
        distinct_names (generate_totp_name o.did s) (select (totp_of o.did) s.totp_credentials) (
            generate_name-fresh "Authenticator"
              (map (λ (c : TotpCredential). c.name) (select (totp_of o.did) s.totp_credentials))),
      )
