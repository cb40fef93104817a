-- ===== src/Mfa/Totp.antt =====
-- packages/danaus/src/accounts/mfa.ts, the region on TOTP credentials. An instant that is stored
-- goes through `Timestamps`; `now` is what `new Date()` and `Date.now()` answer in the call.
use danaus.Prelude.{
  is_some, ℕ, suc, String, Bool, true, false, ◌&&◌, Option, none, some, List, [], ◌∷◌, ◌++◌, map,
  if◌then◌else◌, leb, ◌==◌, str_eq,
}
use danaus.Table.{Timestamps, select, first, update, delete}
use danaus.SeqEvent.{Bytes}
use danaus.Text.{trim}
use danaus.Totp.{max_totp_credentials, verify_totp_code}
use danaus.Mfa.{
  MfaDb, TotpCredential, Result, fail, ok, too_many_totp_credentials, duplicate_totp_name, totp_of,
  count_totp_credentials, sync_preferred_mfa,
}
use danaus.Mfa.Names.{generate_name}

pub record CreateTotpCredentialOptions : Type 0 where
  pub did : String
  pub name : Option String
  pub secret : Bytes
  pub last_used_counter : ℕ

unfoldable pub list_totp_credentials : String → MfaDb → List TotpCredential
list_totp_credentials did s = select (totp_of did) s.totp_credentials

unfoldable pub generate_totp_name : String → MfaDb → String
unfolding list_totp_credentials
generate_totp_name did s =
    generate_name "Authenticator"
      (map (λ (c : TotpCredential). c.name) (list_totp_credentials did s))

-- `name?.trim() || generated`
unfoldable pub name_or : Option String → String → String
name_or none generated = generated
name_or (some name) generated = if str_eq (trim name) "" then generated else trim name

abbrev pub totp_named : String → String → TotpCredential → Bool
totp_named did name row = str_eq row.did did && str_eq row.name name

abbrev pub totp_id : String → ℕ → TotpCredential → Bool
totp_id did id row = str_eq row.did did && row.id == id

unfoldable pub get_totp_credential : String → ℕ → MfaDb → Option TotpCredential
get_totp_credential did id s = first (totp_id did id) s.totp_credentials

unfoldable pub delete_totp_credential : String → ℕ → MfaDb → MfaDb
delete_totp_credential did id s =
    sync_preferred_mfa did
      (record s { totp_credentials = delete (totp_id did id) s.totp_credentials })

abbrev pub insert_totp : TotpCredential → MfaDb → MfaDb
insert_totp row s = record s {
  totp_credentials = s.totp_credentials ++ row ∷ [];
  next_totp_id = suc s.next_totp_id;
}

module _ (D : Timestamps) where
  -- The row that the INSERT makes.
  abbrev pub new_totp : CreateTotpCredentialOptions → String → ℕ → ℕ → TotpCredential
  new_totp o name id now = record {
    id = id;
    did = o.did;
    name = name;
    secret = o.secret;
    created_at = D.stored now;
    last_used_counter = o.last_used_counter;
  }

  unfoldable pub create_totp_credential :
      CreateTotpCredentialOptions → ℕ → MfaDb → Result TotpCredential × MfaDb
  unfolding name_or generate_totp_name
  create_totp_credential o now s =
      let name = name_or o.name (generate_totp_name o.did s) in
      let row = new_totp o name s.next_totp_id now in
      if leb max_totp_credentials (count_totp_credentials o.did s)
      then (fail too_many_totp_credentials, s)
      else if is_some (first (totp_named o.did name) s.totp_credentials)
      then (fail duplicate_totp_name, s)
      else (ok row, sync_preferred_mfa o.did (insert_totp row s))

abbrev pub set_counter : ℕ → TotpCredential → TotpCredential
set_counter counter row = record row { last_used_counter = counter }

module _ (hmac : Bytes → Bytes → Bytes) where
  -- The loop over the account's credentials, which ends at the first that matches.
  unfoldable pub try_credentials : ℕ → String → List TotpCredential → MfaDb → Bool × MfaDb
  try_credentials now code [] s = (false, s)
  try_credentials now code (c ∷ cs) s =
      let rest = try_credentials now code cs s in
      elim (verify_totp_code hmac now c.secret code (some c.last_used_counter)) [
        | none ↦ rest
        | some counter ↦ (
          true,
          record s {
            totp_credentials =
                update (λ (row : TotpCredential). row.id == c.id) (set_counter counter)
                  s.totp_credentials;
          },
        )
      ]

  unfoldable pub verify_account_totp_code : ℕ → String → String → MfaDb → Bool × MfaDb
  unfolding list_totp_credentials try_credentials
  verify_account_totp_code now did code s = try_credentials now code (list_totp_credentials did s) s
