-- ===== src/LegacyAuth/AppPasswords.antt =====
-- The app passwords of packages/danaus/src/accounts/legacy-auth.ts (class LegacyAuthManager) and the
-- privileges of packages/danaus/src/accounts/app-passwords.ts.
use danaus.Prelude.{
  ℕ, suc, String, Bool, ◌&&◌, Option, none, some, List, [], ◌∷◌, ◌++◌, if◌then◌else◌, str_eq, leb,
  length, Result, fail, ok, ◌>>=◌,
}
use danaus.Table.{Timestamps, select, delete, any}
use danaus.Accounts.{Account, AccountError, everyone, Texts, hash_password, verify_password}
use danaus.Accounts.Manager.{resolve_account}
use danaus.LegacyAuth.{
  AppPasswordPrivilege, limited, privileged, full, AppPassword, LegacyDb, LegacyError,
  too_many_app_passwords, duplicate_app_password, invalid_privilege, account_error,
  max_app_passwords,
}

unfoldable pub parse_app_password_privilege : String → Result LegacyError AppPasswordPrivilege
parse_app_password_privilege s =
    if str_eq s "limited"
    then ok limited
    else if str_eq s "privileged"
    then ok privileged
    else if str_eq s "full"
    then ok full
    else fail invalid_privilege

unfoldable pub format_app_password_privilege : AppPasswordPrivilege → String
format_app_password_privilege limited = "limited"
format_app_password_privilege privileged = "privileged"
format_app_password_privilege full = "full"

abbrev pub of_account : String → AppPassword → Bool
of_account did row = str_eq row.did did

abbrev pub lift {ℓ} : {A : Type ℓ} → Result AccountError A → Result LegacyError A
lift (fail e) = fail (account_error e)
lift (ok a) = ok a

unfoldable pub list_app_passwords : String → LegacyDb → List AppPassword
list_app_passwords did s = select (of_account did) s.app_passwords

unfoldable pub delete_app_password : String → String → LegacyDb → LegacyDb
delete_app_password did name s = record s {
  app_passwords =
      delete (λ (row : AppPassword). of_account did row && str_eq row.name name) s.app_passwords;
}

module _ (T : Texts) (D : Timestamps) where
  -- The checks and the insertion; hashing the secret suspends the call in between.
  unfoldable pub create_app_password :
      String
      → String
      → AppPasswordPrivilege
      → String
      → ℕ
      → LegacyDb
      → Result LegacyError (AppPassword × String × LegacyDb)
  unfolding list_app_passwords hash_password
  create_app_password did name privilege secret now s =
      let existing = list_app_passwords did s in
      if leb max_app_passwords (length existing)
      then fail too_many_app_passwords
      else if any (λ (row : AppPassword). str_eq row.name name) existing
      then fail duplicate_app_password
      else lift (hash_password T secret) >>= λ hash.
          let row : AppPassword = record {
            id = s.next_app_password;
            did = did;
            name = name;
            privilege = privilege;
            password_hash = hash;
            created_at = D.stored now;
          } in
          ok (
            row,
            secret,
            record s {
              app_passwords = s.app_passwords ++ row ∷ [];
              next_app_password = suc s.next_app_password;
            },
          )

  -- The first password that matches; a password of a wrong length throws.
  abbrev pub first_match : String → List AppPassword → Result AccountError (Option AppPassword)
  first_match password [] = ok none
  first_match password (row ∷ rows) =
      let rest = first_match password rows in
      verify_password T password row.password_hash >>= λ valid.
      if valid then ok (some row) else rest

  unfoldable pub verify_legacy_credentials :
      String → String → LegacyDb → Result AccountError (Option (Account × AppPassword))
  unfolding resolve_account list_app_passwords verify_password
  verify_legacy_credentials identifier password s =
      elim (resolve_account T identifier everyone s.base) [
        | none ↦ ok none
        | some account ↦ first_match password (list_app_passwords account.did s) >>= λ found.
            ok (elim found [ none ↦ none | some row ↦ some (account, row) ])
      ]
