-- ===== src/Mfa.antt =====
-- packages/danaus/src/accounts/mfa.ts over the tables of packages/danaus/src/accounts/db/schema.ts
-- that it reads and writes: the state, the counts, and the account's preferred method. The other
-- operations are in the child modules, one for each region of the source.
pub mod Names
pub mod Sync
pub mod Invariant
pub mod TotpInvariant
pub mod WebAuthnInvariant
pub mod History
pub mod CodeBook
pub mod Expiry
pub mod Fresh
pub mod Replay
pub mod Totp
pub mod RecoveryCodes
pub mod WebAuthn
pub mod Challenges
use danaus.Prelude.{
  is_some, ℕ, ◌+◌, ◌*◌, String, Bool, true, false, ◌&&◌, ◌||◌, not, Option, none, some, List, ◌∷◌,
  if◌then◌else◌, ltb, str_eq, ◌==◌,
}
use danaus.Table.{select, first, count, update, any}
use danaus.SeqEvent.{Bytes}

pub data PreferredMfa : Type 0 where
  totp : PreferredMfa
  web_authn : PreferredMfa

pub data WebAuthnCredentialType : Type 0 where
  security_key : WebAuthnCredentialType
  passkey : WebAuthnCredentialType

pub record Account : Type 0 where
  pub did : String
  pub preferred_mfa : Option PreferredMfa

pub record TotpCredential : Type 0 where
  pub id : ℕ
  pub did : String
  pub name : String
  pub secret : Bytes
  pub created_at : ℕ
  pub last_used_counter : ℕ

pub record RecoveryCode : Type 0 where
  pub id : ℕ
  pub did : String
  pub code : String
  pub used_at : Option ℕ
  pub created_at : ℕ

pub record WebauthnCredential : Type 0 where
  pub id : ℕ
  pub did : String
  pub credential_type : WebAuthnCredentialType
  pub name : String
  pub credential_id : String
  pub public_key : Bytes
  pub counter : ℕ
  pub transports : Option (List String)
  pub created_at : ℕ

pub record RegistrationChallenge : Type 0 where
  pub token : String
  pub did : String
  pub challenge : String
  pub created_at : ℕ
  pub expires_at : ℕ

pub record PasskeyLoginChallenge : Type 0 where
  pub challenge : String
  pub created_at : ℕ
  pub expires_at : ℕ

-- The tables, each with its AUTOINCREMENT counter where it has one.
pub record MfaDb : Type 0 where
  pub accounts : List Account
  pub totp_credentials : List TotpCredential
  pub next_totp_id : ℕ
  pub recovery_codes : List RecoveryCode
  pub next_recovery_id : ℕ
  pub webauthn_credentials : List WebauthnCredential
  pub next_webauthn_id : ℕ
  pub registration_challenges : List RegistrationChallenge
  pub passkey_challenges : List PasskeyLoginChallenge

pub data MfaError : Type 0 where
  too_many_totp_credentials : MfaError
  duplicate_totp_name : MfaError
  too_many_web_authn_credentials : MfaError
  duplicate_web_authn_name : MfaError
  duplicate_credential_id : MfaError
  -- an INSERT that repeats a primary key
  constraint_failed : MfaError

pub data Result (A : Type 0) : Type 0 where
  fail : MfaError → Result A
  ok : A → Result A

abbrev pub totp_of : String → TotpCredential → Bool
totp_of did row = str_eq row.did did

abbrev pub webauthn_of : String → WebauthnCredential → Bool
webauthn_of did row = str_eq row.did did

abbrev pub same_type : WebAuthnCredentialType → WebAuthnCredentialType → Bool
same_type security_key security_key = true
same_type passkey passkey = true
same_type security_key passkey = false
same_type passkey security_key = false

abbrev pub count_totp_credentials : String → MfaDb → ℕ
count_totp_credentials did s = count (totp_of did) s.totp_credentials

abbrev pub count_webauthn_credentials : String → MfaDb → ℕ
count_webauthn_credentials did s = count (webauthn_of did) s.webauthn_credentials

-- Whether the method that is preferred still has a credential.
abbrev pub still_valid : Option PreferredMfa → Bool → Bool → Bool
still_valid none has_totp has_webauthn = false
still_valid (some totp) has_totp has_webauthn = has_totp
still_valid (some web_authn) has_totp has_webauthn = has_webauthn

abbrev pub new_preferred : Bool → Bool → Option PreferredMfa
new_preferred has_totp has_webauthn =
    if has_totp then some totp else if has_webauthn then some web_authn else none

abbrev pub account_of : String → Account → Bool
account_of did row = str_eq row.did did

-- The UPDATE is left out where it would change nothing.
abbrev pub set_preferred : Option PreferredMfa → Account → Account
set_preferred preferred account = record account { preferred_mfa = preferred }

abbrev pub same_preferred : Option PreferredMfa → Option PreferredMfa → Bool
same_preferred none none = true
same_preferred (some totp) (some totp) = true
same_preferred (some web_authn) (some web_authn) = true
same_preferred none (some q) = false
same_preferred (some p) none = false
same_preferred (some totp) (some web_authn) = false
same_preferred (some web_authn) (some totp) = false

unfoldable pub sync_preferred_mfa : String → MfaDb → MfaDb
sync_preferred_mfa did s = elim (first (account_of did) s.accounts) [
  | none ↦ s
  | some account ↦
      let has_totp = ltb 0 (count_totp_credentials did s) in
      let has_webauthn = ltb 0 (count_webauthn_credentials did s) in
      let preferred = new_preferred has_totp has_webauthn in
      if still_valid account.preferred_mfa has_totp has_webauthn
      then s
      else if same_preferred preferred account.preferred_mfa
      then s
      else record s { accounts = update (account_of did) (set_preferred preferred) s.accounts }
]

pub data WebAuthnType : Type 0 where
  no_key : WebAuthnType
  only_security_key : WebAuthnType
  only_passkey : WebAuthnType
  mixed : WebAuthnType

unfoldable pub get_webauthn_type : String → MfaDb → WebAuthnType
get_webauthn_type did s =
    let credentials = select (webauthn_of did) s.webauthn_credentials in
    let has_security_key =
      any (λ (c : WebauthnCredential). same_type c.credential_type security_key) credentials in
    let has_passkey =
      any (λ (c : WebauthnCredential). same_type c.credential_type passkey) credentials in
    if count_webauthn_credentials did s == 0
    then no_key
    else if has_security_key && has_passkey
    then mixed
    else if has_passkey
    then only_passkey
    else only_security_key

pub record MfaStatus : Type 0 where
  pub preferred : PreferredMfa
  pub has_totp : Bool
  pub webauthn_type : WebAuthnType
  pub has_recovery_codes : Bool

-- An unused recovery code of an account.
abbrev pub unused_of : String → RecoveryCode → Bool
unused_of did row = str_eq row.did did && not (is_some row.used_at)

unfoldable pub get_mfa_status : String → MfaDb → Option MfaStatus
unfolding get_webauthn_type
get_mfa_status did s = elim (first (account_of did) s.accounts) [
  | none ↦ none
  | some account ↦ elim account.preferred_mfa [
    | none ↦ none
    | some preferred ↦ some (record {
      preferred = preferred;
      has_totp = ltb 0 (count_totp_credentials did s);
      webauthn_type = get_webauthn_type did s;
      has_recovery_codes = ltb 0 (count (unused_of did) s.recovery_codes);
    })
  ]
]
