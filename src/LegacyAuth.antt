-- ===== src/LegacyAuth.antt =====
-- The sessions of packages/danaus/src/accounts/legacy-auth.ts (class LegacyAuthManager), with
-- packages/danaus/src/auth/legacy-tokens.ts. The generators of ids are arguments, and the signing of
-- JSON Web Tokens is a parameter.
pub mod AppPasswords
pub mod Rotation
pub mod Admission
use danaus.Prelude.{
  ℕ, zero, suc, ◌+◌, ◌*◌, ◌/◌, String, Bool, true, ◌&&◌, ◌==◌, Option, none, some, List, [], ◌∷◌,
  ◌++◌, if◌then◌else◌, str_eq, ltb, leb, Result, fail, ok,
}
use danaus.Table.{Timestamps, first, update, delete, any}
use danaus.Accounts.{Account, LegacySession, AccountDb, AccountError}
use danaus.Auth.{AuthScope, access_scope, refresh_scope, app_pass, app_pass_privileged}

pub data AppPasswordPrivilege : Type 0 where
  limited privileged full : AppPasswordPrivilege

pub record AppPassword : Type 0 where
  pub id : ℕ
  pub did : String
  pub name : String
  pub privilege : AppPasswordPrivilege
  pub password_hash : String
  pub created_at : ℕ

-- The tables, with the AUTOINCREMENT counter of `app_password`.
pub record LegacyDb : Type 0 where
  pub base : AccountDb
  pub app_passwords : List AppPassword
  pub next_app_password : ℕ

pub data LegacyError : Type 0 where
  too_many_app_passwords duplicate_app_password invalid_privilege : LegacyError
  invalid_token expired_token constraint_failed : LegacyError
  account_error : AccountError → LegacyError
  out_of_fuel : LegacyError

-- The header and the claims of a token that is signed.
pub record TokenClaims : Type 0 where
  pub typ : String
  pub scope : AuthScope
  pub audience : String
  pub subject : String
  pub jti : Option String
  pub issued_at : ℕ
  pub expires_at : ℕ

pub record LegacySessionTokens : Type 0 where
  pub access_jwt : String
  pub refresh_jwt : String

abbrev pub hour : ℕ
hour = 60 * 60 * 1000

abbrev pub access_ttl : ℕ
access_ttl = 2 * hour

abbrev pub refresh_ttl : ℕ
refresh_ttl = 90 * (24 * hour)

abbrev pub refresh_grace_ttl : ℕ
refresh_grace_ttl = 2 * hour

abbrev pub max_app_passwords : ℕ
max_app_passwords = 25

abbrev pub with_id : String → LegacySession → Bool
with_id id row = str_eq row.id id

-- The sessions of the account's database.
abbrev pub sessions : LegacyDb → List LegacySession
sessions s = s.base.legacy_sessions

abbrev pub set_sessions : List LegacySession → LegacyDb → LegacyDb
set_sessions rows s = record s { base = record s.base { legacy_sessions = rows } }

unfoldable pub get_legacy_session : String → ℕ → LegacyDb → Option LegacySession × LegacyDb
get_legacy_session id now s = elim (first (with_id id) (sessions s)) [
  | none ↦ (none, s)
  | some row ↦
      if leb row.expires_at now
      then (none, set_sessions (delete (with_id id) (sessions s)) s)
      else (some row, s)
]

unfoldable pub delete_legacy_session : String → LegacyDb → LegacyDb
delete_legacy_session id s = set_sessions (delete (with_id id) (sessions s)) s

unfoldable pub scope_for_privilege : AppPasswordPrivilege → AuthScope
scope_for_privilege full = access_scope
scope_for_privilege privileged = app_pass_privileged
scope_for_privilege limited = app_pass

abbrev pub new_session : Timestamps → String → String → ℕ → ℕ → LegacySession
new_session D id did app_password_id now = record {
  id = id;
  did = did;
  app_password_id = app_password_id;
  created_at = D.stored now;
  expires_at = D.stored (now + refresh_ttl);
  next_id = none;
}

-- The session joined with its app password.
abbrev pub joined : String → LegacyDb → Option (LegacySession × AppPassword)
joined id s = elim (first (with_id id) (sessions s)) [
  | none ↦ none
  | some row ↦ elim (first (λ (p : AppPassword). p.id == row.app_password_id) s.app_passwords) [
    | none ↦ none
    | some password ↦ some (row, password)
  ]
]

abbrev pub or_id : Option String → String → String
or_id none fresh = fresh
or_id (some id) fresh = id

abbrev pub is_expired : Timestamps → String → ℕ → LegacySession → Bool
is_expired D did now row = str_eq row.did did && leb row.expires_at (D.stored now)

-- The row may be rotated to this next session.
abbrev pub may_rotate : String → String → LegacySession → Bool
may_rotate id next row =
    str_eq row.id id && elim row.next_id [ none ↦ true | some n ↦ str_eq n next ]

abbrev pub rotated : String → ℕ → LegacySession → LegacySession
rotated next expires row = record row { next_id = some next; expires_at = expires }

-- INSERT … ON CONFLICT (id) DO NOTHING
abbrev pub insert_session : LegacySession → List LegacySession → List LegacySession
insert_session row rows = if any (with_id row.id) rows then rows else rows ++ row ∷ []

abbrev pub shortened : ℕ → ℕ → ℕ
shortened expires now =
    if ltb (now + refresh_grace_ttl) expires then now + refresh_grace_ttl else expires

module _ (sign : TokenClaims → String) (service_did : String) where
  -- Times are rounded down to seconds.
  unfoldable pub create_legacy_access_jwt : String → AuthScope → ℕ → ℕ → String
  create_legacy_access_jwt did scope issued_at ttl = sign (record {
    typ = "at+jwt";
    scope = scope;
    audience = service_did;
    subject = did;
    jti = none;
    issued_at = issued_at / 1000;
    expires_at = (issued_at + ttl) / 1000;
  })

  unfoldable pub create_legacy_refresh_jwt : String → String → ℕ → ℕ → String
  create_legacy_refresh_jwt did session_id issued_at ttl = sign (record {
    typ = "refresh+jwt";
    scope = refresh_scope;
    audience = service_did;
    subject = did;
    jti = some session_id;
    issued_at = issued_at / 1000;
    expires_at = (issued_at + ttl) / 1000;
  })

  unfoldable pub issue_legacy_tokens :
      String → AppPasswordPrivilege → String → ℕ → LegacySessionTokens
  unfolding create_legacy_access_jwt create_legacy_refresh_jwt scope_for_privilege
  issue_legacy_tokens did privilege session_id now = record {
    access_jwt = create_legacy_access_jwt did (scope_for_privilege privilege) now access_ttl;
    refresh_jwt = create_legacy_refresh_jwt did session_id now refresh_ttl;
  }

  module _ (D : Timestamps) where
    unfoldable pub create_legacy_session :
        String
        → AppPassword
        → String
        → ℕ
        → LegacyDb
        → Result LegacyError (LegacySessionTokens × LegacyDb)
    unfolding issue_legacy_tokens
    create_legacy_session did app_password id now s =
        if any (with_id id) (sessions s)
        then fail constraint_failed
        else ok (
          issue_legacy_tokens did app_password.privilege id now,
          set_sessions (sessions s ++ new_session D id did app_password.id now ∷ []) s,
        )

    -- One attempt for each unit of fuel. A call that throws keeps what it deleted.
    unfoldable pub rotate_legacy_refresh :
        ℕ → String → String → ℕ → LegacyDb → Result LegacyError LegacySessionTokens × LegacyDb
    unfolding issue_legacy_tokens
    rotate_legacy_refresh zero id fresh now s = (fail out_of_fuel, s)
    rotate_legacy_refresh (suc fuel) id fresh now s = elim (joined id s) [
      | none ↦ (fail invalid_token, s)
      | some (row, password) ↦
          let live = delete (is_expired D row.did now) (sessions s) in
          let tidied = set_sessions live s in
          let next = or_id row.next_id fresh in
          let again = rotate_legacy_refresh fuel id fresh now tidied in
          if leb row.expires_at now
          then (fail expired_token, tidied)
          else if any (may_rotate id next) live
          then (
            ok (issue_legacy_tokens row.did password.privilege next now),
            set_sessions
                (insert_session (new_session D next row.did row.app_password_id now) (
                  update (may_rotate id next)
                    (rotated next (D.stored (shortened row.expires_at now))) live))
                tidied,
          )
          else again
    ]
