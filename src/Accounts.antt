-- ===== src/Accounts.antt =====
-- packages/danaus/src/accounts/manager.ts: class AccountManager, with
-- packages/danaus/src/accounts/types.ts, packages/danaus/src/accounts/passwords.ts and the tables of
-- packages/danaus/src/accounts/db/schema.ts that it uses. What the code calls of the run-time system
-- and of libraries is the record `Texts`. An UPDATE or INSERT that breaks a unique index throws.
pub mod Handles
pub mod Cursors
pub mod Manager
pub mod Credentials
pub mod Takedowns
pub mod Accepted
use danaus.Prelude.{
  Result, fail, ok, ℕ, String, Bool, true, false, not, ◌&&◌, ◌||◌, Option, none, some, List, ◌∷◌,
  if◌then◌else◌, str_eq, ltb, is_some,
}
use danaus.SeqEvent.{AccountStatus, active, takendown, deleted, deactivated}
use danaus.WebSessions.{WebSession}

-- The columns that AccountManager reads and writes.
pub record Account : Type 0 where
  pub did : String
  pub handle : Option String
  pub created_at : ℕ
  pub takedown_ref : Option String
  pub deactivated_at : Option ℕ
  pub delete_at : Option ℕ
  pub password_hash : String
  pub email : String
  pub email_confirmed_at : Option ℕ

pub record LegacySession : Type 0 where
  pub id : String
  pub did : String
  pub app_password_id : ℕ
  pub created_at : ℕ
  pub expires_at : ℕ
  pub next_id : Option String

pub data EmailTokenPurpose : Type 0 where
  email_verify email_update password_reset account_delete : EmailTokenPurpose

pub record EmailToken : Type 0 where
  pub did : String
  pub purpose : EmailTokenPurpose
  pub token : String
  pub created_at : ℕ
  pub expires_at : ℕ

pub record AccountDb : Type 0 where
  pub accounts : List Account
  pub legacy_sessions : List LegacySession
  pub web_sessions : List WebSession
  pub email_tokens : List EmailToken

pub record AccountAvailabilityOptions : Type 0 where
  pub include_taken_down : Bool
  pub include_deactivated : Bool

pub data AccountError : Type 0 where
  invalid_cursor invalid_handle unsupported_domain upstream_failure : AccountError
  email_taken invalid_password constraint_failed : AccountError

pub record Texts : Type 0 where
  pub is_did : String → Bool
  pub is_handle : String → Bool
  -- `toLowerCase`, and SQLite's `lower`
  pub to_lower : String → String
  pub sql_lower : String → String
  -- SQLite's `LIKE`: the text, and the pattern
  pub like : String → String → Bool
  -- `length`, in UTF-16 units
  pub units : String → ℕ
  -- `trim`
  pub trim : String → String
  -- `Number(…)` where it is a safe integer; times before 1970 are left out
  pub safe_integer : String → Option ℕ
  pub hash : String → String
  pub verify : String → String → Bool

-- A text is falsy where it is empty, and where it is null.
abbrev pub is_truthy : Option String → Bool
is_truthy none = false
is_truthy (some s) = not (str_eq s "")

-- `formatAccountStatus`, with `Active` where the status is undefined.
unfoldable pub format_account_status : Option Account → AccountStatus
format_account_status none = deleted
format_account_status (some a) =
    if is_truthy a.takedown_ref
    then takendown
    else if is_some a.deactivated_at
    then deactivated
    else active

abbrev pub everyone : AccountAvailabilityOptions
everyone = record { include_taken_down = true; include_deactivated = true }

-- The options' default.
abbrev pub available_only : AccountAvailabilityOptions
available_only = record { include_taken_down = false; include_deactivated = false }

abbrev pub is_available : AccountAvailabilityOptions → Account → Bool
is_available o a =
    (o.include_deactivated || not (is_some a.deactivated_at))
    && (o.include_taken_down || not (is_some a.takedown_ref))

unfoldable pub verify_password_constraints : Texts → String → Bool
verify_password_constraints T password =
    not (ltb (T.units password) 8) && not (ltb 256 (T.units password))

unfoldable pub hash_password : Texts → String → Result AccountError String
unfolding verify_password_constraints
hash_password T password =
    if verify_password_constraints T password then ok (T.hash password) else fail invalid_password

unfoldable pub verify_password : Texts → String → String → Result AccountError Bool
unfolding verify_password_constraints
verify_password T password hash =
    if verify_password_constraints T password
    then ok (T.verify password hash)
    else fail invalid_password
