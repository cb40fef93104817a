-- ===== src/Mfa/History.antt =====
-- packages/danaus/src/accounts/mfa.ts: any sequence of calls, from a database whose accounts have no
-- credentials.
use danaus.Prelude.{ℕ, ◌≡◌, refl, sym, ap, String, Bool, List, [], ◌∷◌, arith, ◌==◌, ◌∙◌}
use danaus.Table.{Timestamps, first}
use danaus.Table.Rows.{count-update}
use danaus.SeqEvent.{Bytes}
use danaus.Totp.{generate_backup_codes}
use danaus.Mfa.{WebauthnCredential, webauthn_of, account_of, MfaDb, TotpCredential, totp_of}
use danaus.Mfa.Invariant.{MfaInv}
use danaus.Mfa.Totp.{
  CreateTotpCredentialOptions, create_totp_credential, delete_totp_credential,
  verify_account_totp_code, totp_named, set_counter, list_totp_credentials,
}
use danaus.Mfa.TotpInvariant.{create_totp_credential-MfaInv, delete_totp_credential-MfaInv}
use danaus.Mfa.Replay.{used, Checked, accepts, refuses, verify_account_totp_code-Checked}
use danaus.Mfa.WebAuthn.{
  webauthn_named, with_credential_id, CreateWebAuthnCredentialOptions, create_webauthn_credential,
  delete_webauthn_credential, update_webauthn_credential_counter,
}
use danaus.Mfa.WebAuthnInvariant.{
  create_webauthn_credential-MfaInv, delete_webauthn_credential-MfaInv,
}
use danaus.Mfa.RecoveryCodes.{
  generate_recovery_codes, consume_recovery_code, delete_recovery_codes, insert_codes,
}
use danaus.Mfa.Challenges.{
  create_registration_challenge, get_registration_challenge, delete_registration_challenge,
  cleanup_registration_challenges, create_passkey_login_challenge, consume_passkey_login_challenge,
}

pub data Call : Type 0 where
  creates_totp : CreateTotpCredentialOptions → ℕ → Call
  deletes_totp : String → ℕ → Call
  verifies_totp : ℕ → String → String → Call
  generates_codes : (ℕ → String) → String → ℕ → Call
  consumes_code : String → String → ℕ → Call
  deletes_codes : String → Call
  creates_web_authn : CreateWebAuthnCredentialOptions → ℕ → Call
  deletes_web_authn : String → ℕ → Call
  counts_web_authn : ℕ → ℕ → Call
  starts_registration : String → String → String → ℕ → Call
  reads_registration : String → ℕ → Call
  ends_registration : String → Call
  cleans_registrations : ℕ → Call
  starts_login : String → ℕ → Call
  ends_login : String → ℕ → Call

module _ (D : Timestamps) (hmac : Bytes → Bytes → Bytes) where
  unfoldable pub call : Call → MfaDb → MfaDb
  call (creates_totp o now) s = (create_totp_credential D o now s).1
  call (deletes_totp did id) s = delete_totp_credential did id s
  call (verifies_totp now did code) s = (verify_account_totp_code hmac now did code s).1
  call (generates_codes draw did now) s = generate_recovery_codes D draw did now s
  call (consumes_code did code now) s = (consume_recovery_code D did code now s).1
  call (deletes_codes did) s = delete_recovery_codes did s
  call (creates_web_authn o now) s = (create_webauthn_credential D o now s).1
  call (deletes_web_authn did id) s = delete_webauthn_credential did id s
  call (counts_web_authn id counter) s = update_webauthn_credential_counter id counter s
  call (starts_registration token did challenge now) s =
      (create_registration_challenge D token did challenge now s).1
  call (reads_registration token now) s = (get_registration_challenge token now s).1
  call (ends_registration token) s = delete_registration_challenge token s
  call (cleans_registrations now) s = cleanup_registration_challenges D now s
  call (starts_login challenge now) s = (create_passkey_login_challenge D challenge now s).1
  call (ends_login challenge now) s = (consume_passkey_login_challenge D challenge now s).1

  unfoldable pub run : List Call → MfaDb → MfaDb
  unfolding call
  run [] s = s
  run (c ∷ cs) s = run cs (call c s)

-- The tables that the invariant reads are the same.
record Untouched (s s' : MfaDb) : Type 0 where
  accounts : s'.accounts ≡ s.accounts
  totp_credentials : s'.totp_credentials ≡ s.totp_credentials
  webauthn_credentials : s'.webauthn_credentials ≡ s.webauthn_credentials

Untouched-MfaInv : (s s' : MfaDb) → Untouched s s' → MfaInv s → MfaInv s'
Untouched-MfaInv s s' u i = record {
  bounded = record {
    totp_bound = λ d. rw u.totp_credentials (i.bounded.totp_bound d);
    totp_names = λ d n. rw u.totp_credentials (i.bounded.totp_names d n);
    webauthn_bound = λ d. rw u.webauthn_credentials (i.bounded.webauthn_bound d);
    webauthn_names = λ d n. rw u.webauthn_credentials (i.bounded.webauthn_names d n);
    credential_ids = λ c. rw u.webauthn_credentials (i.bounded.credential_ids c);
  };
  backed = λ d a e.
      rw (u.totp_credentials, u.webauthn_credentials)
        (i.backed d a (ap (first (account_of d)) (sym u.accounts) ∙ e));
}

used-MfaInv : (id k : ℕ) (s : MfaDb) → MfaInv s → MfaInv (used id k s)
used-MfaInv id k s i =
    let rows = s.totp_credentials in
    let same = λ (p : TotpCredential → Bool) (h : (x : TotpCredential) → p (set_counter k x) ≡ p x).
      count-update p (λ (row : TotpCredential). row.id == id) (set_counter k) rows h in
    record {
      bounded = record {
        totp_bound = λ d. rw (same (totp_of d) λ x. refl) (i.bounded.totp_bound d);
        totp_names = λ d n. rw (same (totp_named d n) λ x. refl) (i.bounded.totp_names d n);
        webauthn_bound = i.bounded.webauthn_bound;
        webauthn_names = i.bounded.webauthn_names;
        credential_ids = i.bounded.credential_ids;
      };
      backed = λ d a e. rw (same (totp_of d) λ x. refl) (i.backed d a e);
    }

counter-MfaInv :
    (id k : ℕ) (s : MfaDb) → MfaInv s → MfaInv (update_webauthn_credential_counter id k s)
unfolding update_webauthn_credential_counter
counter-MfaInv id k s i =
    let rows = s.webauthn_credentials in
    let same =
      λ (p : WebauthnCredential → Bool)
          (h : (x : WebauthnCredential) → p (record x { counter = k }) ≡ p x).
        count-update p (λ (row : WebauthnCredential). row.id == id)
          (λ (row : WebauthnCredential). record row { counter = k }) rows h in
    record {
      bounded = record {
        totp_bound = i.bounded.totp_bound;
        totp_names = i.bounded.totp_names;
        webauthn_bound = λ d. rw (same (webauthn_of d) λ x. refl) (i.bounded.webauthn_bound d);
        webauthn_names =
            λ d n. rw (same (webauthn_named d n) λ x. refl) (i.bounded.webauthn_names d n);
        credential_ids =
            λ c. rw (same (with_credential_id c) λ x. refl) (i.bounded.credential_ids c);
      };
      backed = λ d a e. rw (same (webauthn_of d) λ x. refl) (i.backed d a e);
    }

insert_codes-Untouched :
    (D : Timestamps) (did : String) (now : ℕ) (codes : List String) (s : MfaDb)
    → Untouched s (insert_codes D did now codes s)
unfolding insert_codes
insert_codes-Untouched D did now [] s = record {
  accounts = refl;
  totp_credentials = refl;
  webauthn_credentials = refl;
}
insert_codes-Untouched D did now (code ∷ codes) s =
    let u = insert_codes-Untouched D did now codes _ in
    record {
      accounts = u.accounts;
      totp_credentials = u.totp_credentials;
      webauthn_credentials = u.webauthn_credentials;
    }

module _ (D : Timestamps) (hmac : Bytes → Bytes → Bytes) where
  checked-MfaInv :
      (now : ℕ) (code : String) (cs : List TotpCredential) (s : MfaDb) (r : Bool × MfaDb)
      → Checked hmac now code cs s r
      → MfaInv s
      → MfaInv r.1
  checked-MfaInv now code cs s _ (accepts c k m a) i = used-MfaInv c.id k s i
  checked-MfaInv now code cs s _ (refuses h) i = i

  call-MfaInv : (c : Call) (s : MfaDb) → MfaInv s → MfaInv (call D hmac c s)
  unfolding call generate_recovery_codes consume_recovery_code delete_recovery_codes
      create_registration_challenge get_registration_challenge delete_registration_challenge
      cleanup_registration_challenges create_passkey_login_challenge consume_passkey_login_challenge
  call-MfaInv (creates_totp o now) s i = create_totp_credential-MfaInv D o now s i
  call-MfaInv (deletes_totp did id) s i = delete_totp_credential-MfaInv did id s i
  call-MfaInv (verifies_totp now did code) s i =
      checked-MfaInv now code (list_totp_credentials did s) s _
        (verify_account_totp_code-Checked hmac now did code s) i
  call-MfaInv (generates_codes draw did now) s i =
      Untouched-MfaInv s (generate_recovery_codes D draw did now s)
        (let u = insert_codes-Untouched D did now (generate_backup_codes draw) _ in
          record {
            accounts = u.accounts;
            totp_credentials = u.totp_credentials;
            webauthn_credentials = u.webauthn_credentials;
          })
        i
  call-MfaInv (creates_web_authn o now) s i = create_webauthn_credential-MfaInv D o now s i
  call-MfaInv (deletes_web_authn did id) s i = delete_webauthn_credential-MfaInv did id s i
  call-MfaInv (counts_web_authn id counter) s i = counter-MfaInv id counter s i
  call-MfaInv (consumes_code did code now) s i =
      Untouched-MfaInv s ((consume_recovery_code D did code now s).1)
        (record { accounts = refl; totp_credentials = refl; webauthn_credentials = refl }) i
  call-MfaInv (deletes_codes did) s i =
      Untouched-MfaInv s (delete_recovery_codes did s)
        (record { accounts = refl; totp_credentials = refl; webauthn_credentials = refl }) i
  call-MfaInv (ends_registration token) s i =
      Untouched-MfaInv s (delete_registration_challenge token s)
        (record { accounts = refl; totp_credentials = refl; webauthn_credentials = refl }) i
  call-MfaInv (cleans_registrations now) s i =
      Untouched-MfaInv s (cleanup_registration_challenges D now s)
        (record { accounts = refl; totp_credentials = refl; webauthn_credentials = refl }) i
  call-MfaInv (ends_login challenge now) s i =
      Untouched-MfaInv s ((consume_passkey_login_challenge D challenge now s).1)
        (record { accounts = refl; totp_credentials = refl; webauthn_credentials = refl }) i
  call-MfaInv (starts_registration token did challenge now) s i =
      Untouched-MfaInv s ((create_registration_challenge D token did challenge now s).1)
        (record {
          accounts = ground arith;
          totp_credentials = ground arith;
          webauthn_credentials = ground arith;
        })
        i
  call-MfaInv (reads_registration token now) s i =
      Untouched-MfaInv s ((get_registration_challenge token now s).1)
        (record {
          accounts = ground arith;
          totp_credentials = ground arith;
          webauthn_credentials = ground arith;
        })
        i
  call-MfaInv (starts_login challenge now) s i =
      Untouched-MfaInv s ((create_passkey_login_challenge D challenge now s).1)
        (record {
          accounts = ground arith;
          totp_credentials = ground arith;
          webauthn_credentials = ground arith;
        })
        i

  -- Any sequence of calls keeps the tables in order, where they are: an account has at most five TOTP
  -- credentials and ten WebAuthn credentials, whose names differ in each table, no credential id is
  -- registered twice, a preferred method has a credential, and no method is preferred only where
  -- there is no TOTP credential.
  pub run-MfaInv : (cs : List Call) (s : MfaDb) → MfaInv s → MfaInv (run D hmac cs s)
  unfolding run
  run-MfaInv [] s i = i
  run-MfaInv (c ∷ cs) s i = run-MfaInv cs (call D hmac c s) (call-MfaInv c s i)
