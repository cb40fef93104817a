-- ===== src/Mfa/WebAuthnInvariant.antt =====
-- packages/danaus/src/accounts/mfa.ts: the operations on WebAuthn credentials keep the invariant.
use danaus.Prelude.{
  ℕ, ◌≤◌, ◌<◌, ◌≡◌, sym, ap, subst, String, true, false, Option, none, some, [], ◌∷◌, ◌++◌, arith,
  str_eq→eq, str_eq-apart, Bool-cases, Option-cases, inl, inr, length, leb,
}
use danaus.Table.{Timestamps, first, count, delete}
use danaus.Table.Counts.{count-append-le, insert-le, insert-le_one, count-delete-le}
use danaus.Table.Rows.{select-delete}
use danaus.Mfa.{
  WebAuthnCredentialType, security_key, passkey, MfaDb, WebauthnCredential, PreferredMfa, totp,
  web_authn, webauthn_of, count_totp_credentials, count_webauthn_credentials,
}
use danaus.Mfa.Invariant.{MfaInv, sync-MfaInv}
use danaus.Mfa.Sync.{Backed}
use danaus.Mfa.Totp.{name_or}
use danaus.Mfa.WebAuthn.{
  CreateWebAuthnCredentialOptions, create_webauthn_credential, new_webauthn, generate_webauthn_name,
  sync_for_type, webauthn_named, webauthn_id, with_credential_id, insert_webauthn,
  delete_webauthn_credential,
}

pub delete_webauthn_credential-MfaInv :
    (did : String) (id : ℕ) (s : MfaDb) → MfaInv s → MfaInv (delete_webauthn_credential did id s)
unfolding delete_webauthn_credential
delete_webauthn_credential-MfaInv did id s i =
    let rows = s.webauthn_credentials in
    let gone = webauthn_id did id in
    sync-MfaInv did (record s { webauthn_credentials = delete gone rows })
      (record {
        bounded = record {
          totp_bound = i.bounded.totp_bound;
          totp_names = i.bounded.totp_names;
          webauthn_bound = λ d.
              omega (arith, count-delete-le (webauthn_of d) gone rows, i.bounded.webauthn_bound d);
          webauthn_names = λ d n.
              omega (
                arith,
                count-delete-le (webauthn_named d n) gone rows,
                i.bounded.webauthn_names d n,
              );
          credential_ids = λ c.
              omega (
                arith,
                count-delete-le (with_credential_id c) gone rows,
                i.bounded.credential_ids c,
              );
        };
        backed = λ other h a e.
            subst (λ n. Backed a.preferred_mfa (count_totp_credentials other s) n)
              (ap length (
                sym (
                  select-delete (webauthn_of other) gone rows
                    λ x k. ground (arith, str_eq-apart other did x.did h k))))
              (i.backed other a e);
      })

named_row :
    (row : WebauthnCredential) (did name : String)
    → webauthn_named did name row ≡ true
    → Path (String × String) (row.did, row.name) (did, name)
named_row row did name e =
    λ j. (str_eq→eq row.did did (ground arith) j, str_eq→eq row.name name (ground arith) j)

Backed-mono : (p : Option PreferredMfa) (t w w' : ℕ) → w ≤ w' → Backed p t w → Backed p t w'
Backed-mono none t w w' h b = b
Backed-mono (some totp) t w w' h b = b
Backed-mono (some web_authn) t w w' h b = omega arith

-- One more credential of an account does no harm to any preferred method.
insert_webauthn-MfaInv :
    (row : WebauthnCredential) (s : MfaDb)
    → count_webauthn_credentials row.did s < 10
    → first (webauthn_named row.did row.name) s.webauthn_credentials ≡ none
    → first (with_credential_id row.credential_id) s.webauthn_credentials ≡ none
    → MfaInv s
    → MfaInv (insert_webauthn row s)
insert_webauthn-MfaInv row s room fresh unknown i =
    let rows = s.webauthn_credentials in
    record {
      bounded = record {
        totp_bound = i.bounded.totp_bound;
        totp_names = i.bounded.totp_names;
        webauthn_bound = λ d.
            insert-le (webauthn_of d) rows row 10
              (λ e. subst (λ x. count (webauthn_of x) rows < 10) (str_eq→eq row.did d e) room)
              (i.bounded.webauthn_bound d);
        webauthn_names = λ d n.
            insert-le_one (webauthn_named d n) rows row
              (λ e.
                subst (λ (q : String × String). first (webauthn_named q.0 q.1) rows ≡ none)
                  (named_row row d n e) fresh)
              (i.bounded.webauthn_names d n);
        credential_ids = λ c.
            insert-le_one (with_credential_id c) rows row
              (λ e.
                subst (λ x. first (with_credential_id x) rows ≡ none)
                  (str_eq→eq row.credential_id c e) unknown)
              (i.bounded.credential_ids c);
      };
      backed = λ d a e.
          Backed-mono a.preferred_mfa (count_totp_credentials d s) (count (webauthn_of d) rows)
            (count (webauthn_of d) (rows ++ row ∷ [])) (count-append-le (webauthn_of d) rows row)
            (i.backed d a e);
    }

sync_for_type-MfaInv :
    (type : WebAuthnCredentialType) (did : String) (s : MfaDb)
    → MfaInv s
    → MfaInv (sync_for_type type did s)
sync_for_type-MfaInv security_key did s i =
    sync-MfaInv did s (record { bounded = i.bounded; backed = λ other h. i.backed other })
sync_for_type-MfaInv passkey did s i = i

module _ (D : Timestamps) where
  abbrev chosen_name : CreateWebAuthnCredentialOptions → MfaDb → String
  chosen_name o s = name_or o.name (generate_webauthn_name o.did o.credential_type s)

  create-refused :
      (o : CreateWebAuthnCredentialOptions) (now : ℕ) (s : MfaDb)
      → leb 10 (count_webauthn_credentials o.did s) ≡ true
      → (create_webauthn_credential D o now s).1 ≡ s
  unfolding create_webauthn_credential
  create-refused o now s h = ground arith

  create-duplicate :
      (o : CreateWebAuthnCredentialOptions) (now : ℕ) (s : MfaDb) (c : WebauthnCredential)
      → first (webauthn_named o.did (chosen_name o s)) s.webauthn_credentials ≡ some c
      → (create_webauthn_credential D o now s).1 ≡ s
  unfolding create_webauthn_credential
  create-duplicate o now s c h = ground arith

  create-registered :
      (o : CreateWebAuthnCredentialOptions) (now : ℕ) (s : MfaDb) (c : WebauthnCredential)
      → first (with_credential_id o.credential_id) s.webauthn_credentials ≡ some c
      → (create_webauthn_credential D o now s).1 ≡ s
  unfolding create_webauthn_credential
  create-registered o now s c h = ground arith

  create-inserts :
      (o : CreateWebAuthnCredentialOptions) (now : ℕ) (s : MfaDb)
      → leb 10 (count_webauthn_credentials o.did s) ≡ false
      → first (webauthn_named o.did (chosen_name o s)) s.webauthn_credentials ≡ none
      → first (with_credential_id o.credential_id) s.webauthn_credentials ≡ none
      → (create_webauthn_credential D o now s).1
        ≡ sync_for_type o.credential_type o.did
            (insert_webauthn (new_webauthn D o (chosen_name o s) s.next_webauthn_id now) s)
  unfolding create_webauthn_credential
  create-inserts o now s h k l = ground arith

  pub create_webauthn_credential-MfaInv :
      (o : CreateWebAuthnCredentialOptions) (now : ℕ) (s : MfaDb)
      → MfaInv s
      → MfaInv (create_webauthn_credential D o now s).1
  create_webauthn_credential-MfaInv o now s i =
      let rows = s.webauthn_credentials in
      elim (Bool-cases (leb 10 (count_webauthn_credentials o.did s))) [
        | inl h ↦ subst MfaInv (sym (create-refused o now s h)) i
        | inr h ↦ elim (Option-cases (first (webauthn_named o.did (chosen_name o s)) rows)) [
          | inr (c, e) ↦ subst MfaInv (sym (create-duplicate o now s c e)) i
          | inl e ↦ elim (Option-cases (first (with_credential_id o.credential_id) rows)) [
            | inr (c, k) ↦ subst MfaInv (sym (create-registered o now s c k)) i
            | inl k ↦
                let row = new_webauthn D o (chosen_name o s) s.next_webauthn_id now in
                subst MfaInv (sym (create-inserts o now s h e k)) (
                  sync_for_type-MfaInv o.credential_type o.did (insert_webauthn row s)
                    (insert_webauthn-MfaInv row s (ground arith) e k i))
          ]
        ]
      ]
