-- ===== src/Mfa/TotpInvariant.antt =====
-- packages/danaus/src/accounts/mfa.ts: the operations on TOTP credentials keep the invariant.
use danaus.Prelude.{
  ℕ, ◌<◌, ◌≡◌, sym, ap, subst, String, true, false, none, some, arith, str_eq-false, str_eq→eq,
  str_eq-apart, Bool-cases, Option-cases, inl, inr, length, leb,
}
use danaus.Table.{Timestamps, first, count, delete}
use danaus.Table.Counts.{insert-le, insert-le_one, count-append_miss, count-delete-le}
use danaus.Table.Rows.{select-delete}
use danaus.Mfa.{
  MfaDb, TotpCredential, totp_of, count_totp_credentials, count_webauthn_credentials,
  sync_preferred_mfa,
}
use danaus.Mfa.Invariant.{MfaInv, AlmostInv, sync-MfaInv}
use danaus.Mfa.Sync.{Backed}
use danaus.Mfa.Totp.{
  CreateTotpCredentialOptions, create_totp_credential, new_totp, name_or, generate_totp_name,
  totp_named, totp_id, insert_totp, delete_totp_credential,
}

pub delete_totp_credential-MfaInv :
    (did : String) (id : ℕ) (s : MfaDb) → MfaInv s → MfaInv (delete_totp_credential did id s)
unfolding delete_totp_credential
delete_totp_credential-MfaInv did id s i =
    let rows = s.totp_credentials in
    sync-MfaInv did (record s { totp_credentials = delete (totp_id did id) rows })
      (record {
        bounded = record {
          totp_bound = λ d.
              omega
                (arith, count-delete-le (totp_of d) (totp_id did id) rows, i.bounded.totp_bound d);
          totp_names = λ d n. omega (
            arith,
            count-delete-le (totp_named d n) (totp_id did id) rows,
            i.bounded.totp_names d n,
          );
          webauthn_bound = i.bounded.webauthn_bound;
          webauthn_names = i.bounded.webauthn_names;
          credential_ids = i.bounded.credential_ids;
        };
        backed = λ other h a e.
            subst (λ n. Backed a.preferred_mfa n (count_webauthn_credentials other s))
              (ap length (
                sym (
                  select-delete (totp_of other) (totp_id did id) rows
                    λ x k. ground (arith, str_eq-apart other did x.did h k))))
              (i.backed other a e);
      })

named_row :
    (row : TotpCredential) (did name : String)
    → totp_named did name row ≡ true
    → Path (String × String) (row.did, row.name) (did, name)
named_row row did name e =
    λ j. (str_eq→eq row.did did (ground arith) j, str_eq→eq row.name name (ground arith) j)

pub insert_totp-AlmostInv :
    (row : TotpCredential) (s : MfaDb)
    → count_totp_credentials row.did s < 5
    → first (totp_named row.did row.name) s.totp_credentials ≡ none
    → MfaInv s
    → AlmostInv row.did (insert_totp row s)
insert_totp-AlmostInv row s room fresh i =
    let rows = s.totp_credentials in
    record {
      bounded = record {
        totp_bound = λ d.
            insert-le (totp_of d) rows row 5
              (λ e. subst (λ x. count (totp_of x) rows < 5) (str_eq→eq row.did d e) room)
              (i.bounded.totp_bound d);
        totp_names = λ d n.
            insert-le_one (totp_named d n) rows row
              (λ e.
                subst (λ (q : String × String). first (totp_named q.0 q.1) rows ≡ none)
                  (named_row row d n e) fresh)
              (i.bounded.totp_names d n);
        webauthn_bound = i.bounded.webauthn_bound;
        webauthn_names = i.bounded.webauthn_names;
        credential_ids = i.bounded.credential_ids;
      };
      backed = λ other h a e.
          subst (λ n. Backed a.preferred_mfa n (count_webauthn_credentials other s))
            (sym (
              count-append_miss (totp_of other) rows row
                (str_eq-false row.did other λ k. h (sym k))))
            (i.backed other a e);
    }

module _ (D : Timestamps) where
  abbrev chosen_name : CreateTotpCredentialOptions → MfaDb → String
  chosen_name o s = name_or o.name (generate_totp_name o.did s)

  create-refused :
      (o : CreateTotpCredentialOptions) (now : ℕ) (s : MfaDb)
      → leb 5 (count_totp_credentials o.did s) ≡ true
      → (create_totp_credential D o now s).1 ≡ s
  unfolding create_totp_credential
  create-refused o now s h = ground arith

  create-duplicate :
      (o : CreateTotpCredentialOptions) (now : ℕ) (s : MfaDb) (c : TotpCredential)
      → first (totp_named o.did (chosen_name o s)) s.totp_credentials ≡ some c
      → (create_totp_credential D o now s).1 ≡ s
  unfolding create_totp_credential
  create-duplicate o now s c h = ground arith

  create-inserts :
      (o : CreateTotpCredentialOptions) (now : ℕ) (s : MfaDb)
      → leb 5 (count_totp_credentials o.did s) ≡ false
      → first (totp_named o.did (chosen_name o s)) s.totp_credentials ≡ none
      → (create_totp_credential D o now s).1
        ≡ sync_preferred_mfa o.did
            (insert_totp (new_totp D o (chosen_name o s) s.next_totp_id now) s)
  unfolding create_totp_credential
  create-inserts o now s h k = ground arith

  pub create_totp_credential-MfaInv :
      (o : CreateTotpCredentialOptions) (now : ℕ) (s : MfaDb)
      → MfaInv s
      → MfaInv (create_totp_credential D o now s).1
  create_totp_credential-MfaInv o now s i =
      elim (Bool-cases (leb 5 (count_totp_credentials o.did s))) [
        | inl h ↦ subst MfaInv (sym (create-refused o now s h)) i
        | inr h ↦
            elim (Option-cases (first (totp_named o.did (chosen_name o s)) s.totp_credentials)) [
              | inr (c, e) ↦ subst MfaInv (sym (create-duplicate o now s c e)) i
              | inl e ↦
                  let row = new_totp D o (chosen_name o s) s.next_totp_id now in
                  subst MfaInv (sym (create-inserts o now s h e)) (
                    sync-MfaInv o.did (insert_totp row s)
                      (insert_totp-AlmostInv row s (ground arith) e i))
            ]
      ]
