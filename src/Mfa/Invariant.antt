-- ===== src/Mfa/Invariant.antt =====
-- packages/danaus/src/accounts/mfa.ts: what holds of the tables between the calls.
use danaus.Prelude.{
  ◌≤◌, ◌≡◌, ◌≢◌, refl, sym, subst, ◌∙◌, String, none, List, [], arith, All, str_eq, str_eq→eq,
  ne-of-str_eq-false, Bool-cases, inl, inr,
}
use danaus.Table.{count, select}
use danaus.Table.Rows.{first-All}
use danaus.Mfa.{
  MfaDb, Account, count_totp_credentials, count_webauthn_credentials, sync_preferred_mfa,
  account_of,
}
use danaus.Mfa.Sync.{Backed, BackedFor, SyncKeeps, sync-BackedFor, sync-SyncKeeps}
use danaus.Mfa.Totp.{totp_named}
use danaus.Mfa.WebAuthn.{webauthn_named, with_credential_id}

-- The bounds and the uniqueness of the credentials.
pub record Bounded (s : MfaDb) : Type 0 where
  pub totp_bound : (did : String) → count_totp_credentials did s ≤ 5
  pub totp_names : (did name : String) → count (totp_named did name) s.totp_credentials ≤ 1
  pub webauthn_bound : (did : String) → count_webauthn_credentials did s ≤ 10
  pub webauthn_names :
      (did name : String) → count (webauthn_named did name) s.webauthn_credentials ≤ 1
  pub credential_ids :
      (credential_id : String) → count (with_credential_id credential_id) s.webauthn_credentials ≤ 1

pub record MfaInv (s : MfaDb) : Type 0 where
  pub bounded : Bounded s
  pub backed : (did : String) → BackedFor did s

-- In order but for the preferred method of one account.
pub record AlmostInv (did : String) (s : MfaDb) : Type 0 where
  pub bounded : Bounded s
  pub backed : (other : String) → other ≢ did → BackedFor other s

keeps-Bounded : (did : String) (s s' : MfaDb) → SyncKeeps did s s' → Bounded s → Bounded s'
keeps-Bounded did s s' k b = record {
  totp_bound = λ d. rw k.totp_credentials (b.totp_bound d);
  totp_names = λ d n. rw k.totp_credentials (b.totp_names d n);
  webauthn_bound = λ d. rw k.webauthn_credentials (b.webauthn_bound d);
  webauthn_names = λ d n. rw k.webauthn_credentials (b.webauthn_names d n);
  credential_ids = λ c. rw k.webauthn_credentials (b.credential_ids c);
}

keeps-BackedFor :
    (did other : String) (s s' : MfaDb)
    → other ≢ did
    → SyncKeeps did s s'
    → BackedFor other s
    → BackedFor other s'
keeps-BackedFor did other s s' h k b =
    λ a e. rw (k.totp_credentials, k.webauthn_credentials) (b a (sym (k.others other h) ∙ e))

pub sync-MfaInv : (did : String) (s : MfaDb) → AlmostInv did s → MfaInv (sync_preferred_mfa did s)
sync-MfaInv did s i = record {
  bounded = keeps-Bounded did s _ (sync-SyncKeeps did s) i.bounded;
  backed = λ other. elim (Bool-cases (str_eq other did)) [
    | inl e ↦
        subst (λ d. BackedFor d (sync_preferred_mfa did s)) (sym (str_eq→eq other did e))
          (sync-BackedFor did s)
    | inr e ↦
        let apart = ne-of-str_eq-false other did e in
        keeps-BackedFor did other s _ apart (sync-SyncKeeps did s) (i.backed other apart)
  ];
}

-- A database whose accounts have no credentials.
abbrev pub init : List Account → MfaDb
init accounts = record {
  accounts = accounts;
  totp_credentials = [];
  next_totp_id = 1;
  recovery_codes = [];
  next_recovery_id = 1;
  webauthn_credentials = [];
  next_webauthn_id = 1;
  registration_challenges = [];
  passkey_challenges = [];
}

pub init-MfaInv :
    (accounts : List Account)
    → All (λ (a : Account). a.preferred_mfa ≡ none) accounts
    → MfaInv (init accounts)
unfolding select
init-MfaInv accounts h = record {
  bounded = record {
    totp_bound = λ d. omega arith;
    totp_names = λ d n. omega arith;
    webauthn_bound = λ d. omega arith;
    webauthn_names = λ d n. omega arith;
    credential_ids = λ c. omega arith;
  };
  backed =
      λ d a e. subst (λ p. Backed p 0 0) (sym (first-All _ (account_of d) accounts a h e).0) refl;
}
