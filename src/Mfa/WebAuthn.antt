-- ===== src/Mfa/WebAuthn.antt =====
-- packages/danaus/src/accounts/mfa.ts, the region on WebAuthn credentials.
use danaus.Prelude.{
  is_some, ℕ, suc, String, Bool, ◌&&◌, Option, List, [], ◌∷◌, ◌++◌, map, if◌then◌else◌, leb, ◌==◌,
  str_eq,
}
use danaus.Table.{Timestamps, select, first, update, delete}
use danaus.SeqEvent.{Bytes}
use danaus.Mfa.{
  MfaDb, WebauthnCredential, WebAuthnCredentialType, security_key, passkey, Result, fail, ok,
  too_many_web_authn_credentials, duplicate_web_authn_name, duplicate_credential_id, webauthn_of,
  same_type, count_webauthn_credentials, sync_preferred_mfa,
}
use danaus.Mfa.Names.{generate_name}
use danaus.Mfa.Totp.{name_or}

abbrev pub max_webauthn_credentials : ℕ
max_webauthn_credentials = 10

pub record CreateWebAuthnCredentialOptions : Type 0 where
  pub did : String
  pub credential_type : WebAuthnCredentialType
  pub name : Option String
  pub credential_id : String
  pub public_key : Bytes
  pub counter : ℕ
  pub transports : Option (List String)

unfoldable pub list_webauthn_credentials : String → MfaDb → List WebauthnCredential
list_webauthn_credentials did s = select (webauthn_of did) s.webauthn_credentials

unfoldable pub list_webauthn_credentials_by_type :
    String → WebAuthnCredentialType → MfaDb → List WebauthnCredential
list_webauthn_credentials_by_type did type s =
    select (λ (row : WebauthnCredential). webauthn_of did row && same_type row.credential_type type)
      s.webauthn_credentials

abbrev pub base_name : WebAuthnCredentialType → String
base_name security_key = "Security Key"
base_name passkey = "Passkey"

unfoldable pub generate_webauthn_name : String → WebAuthnCredentialType → MfaDb → String
unfolding list_webauthn_credentials_by_type
generate_webauthn_name did type s =
    generate_name (base_name type)
      (map (λ (c : WebauthnCredential). c.name) (list_webauthn_credentials_by_type did type s))

abbrev pub webauthn_named : String → String → WebauthnCredential → Bool
webauthn_named did name row = str_eq row.did did && str_eq row.name name

abbrev pub webauthn_id : String → ℕ → WebauthnCredential → Bool
webauthn_id did id row = str_eq row.did did && row.id == id

abbrev pub with_credential_id : String → WebauthnCredential → Bool
with_credential_id credential_id row = str_eq row.credential_id credential_id

unfoldable pub get_webauthn_credential : String → ℕ → MfaDb → Option WebauthnCredential
get_webauthn_credential did id s = first (webauthn_id did id) s.webauthn_credentials

unfoldable pub get_webauthn_credential_by_credential_id : String → MfaDb → Option WebauthnCredential
get_webauthn_credential_by_credential_id credential_id s =
    first (with_credential_id credential_id) s.webauthn_credentials

unfoldable pub delete_webauthn_credential : String → ℕ → MfaDb → MfaDb
delete_webauthn_credential did id s =
    sync_preferred_mfa did
      (record s { webauthn_credentials = delete (webauthn_id did id) s.webauthn_credentials })

unfoldable pub update_webauthn_credential_counter : ℕ → ℕ → MfaDb → MfaDb
update_webauthn_credential_counter id counter s = record s {
  webauthn_credentials =
      update (λ (row : WebauthnCredential). row.id == id)
        (λ (row : WebauthnCredential). record row { counter = counter }) s.webauthn_credentials;
}

abbrev pub insert_webauthn : WebauthnCredential → MfaDb → MfaDb
insert_webauthn row s = record s {
  webauthn_credentials = s.webauthn_credentials ++ row ∷ [];
  next_webauthn_id = suc s.next_webauthn_id;
}

-- The preferred method is looked at only for a security key.
abbrev pub sync_for_type : WebAuthnCredentialType → String → MfaDb → MfaDb
sync_for_type security_key did s = sync_preferred_mfa did s
sync_for_type passkey did s = s

module _ (D : Timestamps) where
  -- The row that the INSERT makes.
  abbrev pub new_webauthn : CreateWebAuthnCredentialOptions → String → ℕ → ℕ → WebauthnCredential
  new_webauthn o name id now = record {
    id = id;
    did = o.did;
    credential_type = o.credential_type;
    name = name;
    credential_id = o.credential_id;
    public_key = o.public_key;
    counter = o.counter;
    transports = o.transports;
    created_at = D.stored now;
  }

  unfoldable pub create_webauthn_credential :
      CreateWebAuthnCredentialOptions → ℕ → MfaDb → Result WebauthnCredential × MfaDb
  unfolding generate_webauthn_name
  create_webauthn_credential o now s =
      let name = name_or o.name (generate_webauthn_name o.did o.credential_type s) in
      let row = new_webauthn o name s.next_webauthn_id now in
      if leb max_webauthn_credentials (count_webauthn_credentials o.did s)
      then (fail too_many_web_authn_credentials, s)
      else if is_some (first (webauthn_named o.did name) s.webauthn_credentials)
      then (fail duplicate_web_authn_name, s)
      else if is_some (first (with_credential_id o.credential_id) s.webauthn_credentials)
      then (fail duplicate_credential_id, s)
      else (ok row, sync_for_type o.credential_type o.did (insert_webauthn row s))
