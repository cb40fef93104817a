-- ===== src/Accounts/Credentials.antt =====
-- packages/danaus/src/accounts/manager.ts: the updates of an account's email address, password and
-- takedown status, which also remove its email tokens and sessions.
use danaus.Prelude.{
  Result, fail, ok, String, Bool, false, not, ◌&&◌, ◌||◌, Option, none, some, List, if◌then◌else◌,
  str_eq, is_some,
}
use danaus.Table.{first, update, delete, any}
use danaus.RecordIndex.{Takedown}
use danaus.WebSessions.{WebSession}
use danaus.Accounts.{
  AccountError, Account, LegacySession, email_verify, email_update, password_reset, EmailToken,
  AccountDb, email_taken, constraint_failed, Texts, everyone, hash_password,
}
use danaus.Accounts.Manager.{with_did, is_purpose, has_email, get_account_by_email}

abbrev pub drop_legacy_sessions : String → List LegacySession → List LegacySession
drop_legacy_sessions did rows = delete (λ (row : LegacySession). str_eq row.did did) rows

abbrev pub drop_web_sessions : String → List WebSession → List WebSession
drop_web_sessions did rows = delete (λ (row : WebSession). str_eq row.did did) rows

-- `existing && existing.did !== did`
abbrev pub is_other : String → Option Account → Bool
is_other did none = false
is_other did (some a) = not (str_eq a.did did)

abbrev pub about_email : String → EmailToken → Bool
about_email did row =
    str_eq row.did did
    && (is_purpose row.purpose email_verify || is_purpose row.purpose email_update)

module _ (T : Texts) where
  unfoldable pub update_account_email :
      String → String → AccountDb → Result AccountError (Unit {0}) × AccountDb
  unfolding get_account_by_email
  update_account_email did raw s =
      let email = T.to_lower raw in
      if is_other did (get_account_by_email T email everyone s)
      then (fail email_taken, s)
      else if is_some (first (with_did did) s.accounts)
          && any (λ (a : Account). not (with_did did a) && has_email T (T.sql_lower email) a)
              s.accounts
      then (fail constraint_failed, s)
      else (
        ok tt,
        record s {
          accounts =
              update (with_did did)
                (λ (a : Account). record a { email = email; email_confirmed_at = none }) s.accounts;
          email_tokens = delete (about_email did) s.email_tokens;
        },
      )

  unfoldable pub update_account_password :
      String → String → AccountDb → Result AccountError (Unit {0}) × AccountDb
  unfolding hash_password
  update_account_password did password s = elim (hash_password T password) [
    | fail e ↦ (fail e, s)
    | ok hash ↦ (
      ok tt,
      record s {
        accounts =
            update (with_did did) (λ (a : Account). record a { password_hash = hash }) s.accounts;
        legacy_sessions = drop_legacy_sessions did s.legacy_sessions;
        web_sessions = drop_web_sessions did s.web_sessions;
        email_tokens =
            delete
              (λ (row : EmailToken). str_eq row.did did && is_purpose row.purpose password_reset)
              s.email_tokens;
      },
    )
  ]

abbrev pub takedown_reason : Option String → String
takedown_reason none = "admin"
takedown_reason (some reason) = reason

unfoldable pub update_account_takedown_status : String → Takedown → AccountDb → AccountDb
update_account_takedown_status did takedown s =
    let reason = if takedown.applied then some (takedown_reason takedown.reason) else none in
    let accounts =
      update (with_did did) (λ (a : Account). record a { takedown_ref = reason }) s.accounts in
    if takedown.applied
    then record s {
      accounts = accounts;
      legacy_sessions = drop_legacy_sessions did s.legacy_sessions;
      web_sessions = drop_web_sessions did s.web_sessions;
    }
    else record s { accounts = accounts }
