-- ===== src/Accounts/Manager.antt =====
-- packages/danaus/src/accounts/manager.ts: the queries and the updates of class AccountManager.
use Prim.Native.String as Str
use danaus.Prelude.{
  Result, fail, ok, ℕ, ◌+◌, String, Bool, true, false, not, ◌&&◌, ◌||◌, ◌==◌, Option, none, some,
  List, [], ◌∷◌, ◌++◌, if◌then◌else◌, str_eq, str_ltb, ltb, is_some, length, take, get_last?,
}
use danaus.Table.{Timestamps, select, first, update, any, count, order_by, order_by_text}
use danaus.SeqEvent.{AccountStatus}
use danaus.Accounts.{
  AccountError, Account, EmailTokenPurpose, email_verify, email_update, password_reset,
  account_delete, AccountDb, AccountAvailabilityOptions, constraint_failed, Texts,
  format_account_status, everyone, is_available, hash_password, verify_password,
}
use danaus.Accounts.Cursors.{pack, unpack_optional}

abbrev pub with_did : String → Account → Bool
with_did did a = str_eq a.did did

abbrev pub is_purpose : EmailTokenPurpose → EmailTokenPurpose → Bool
is_purpose email_verify email_verify = true
is_purpose email_update email_update = true
is_purpose password_reset password_reset = true
is_purpose account_delete account_delete = true
is_purpose _ _ = false

pub record ListAccountsOptions : Type 0 where
  pub limit : Option ℕ
  pub cursor : Option String
  pub query : Option String
  pub availability : AccountAvailabilityOptions

pub record AccountStats : Type 0 where
  pub total : ℕ
  pub active : ℕ
  pub deactivated : ℕ
  pub takendown : ℕ
  pub delete_scheduled : ℕ

-- Whether an admin measure is applied to an account, and its reference.
pub record Measure : Type 0 where
  pub applied : Bool
  pub reference : Option String

pub record CreateAccountOptions : Type 0 where
  pub did : String
  pub handle : String
  pub email : String
  pub password : String

unfoldable pub get_account_stats : AccountDb → AccountStats
get_account_stats s = record {
  total = count (λ (a : Account). true) s.accounts;
  active =
      count (λ (a : Account). not (is_some a.takedown_ref) && not (is_some a.deactivated_at))
        s.accounts;
  deactivated = count (λ (a : Account). is_some a.deactivated_at) s.accounts;
  takendown = count (λ (a : Account). is_some a.takedown_ref) s.accounts;
  delete_scheduled = count (λ (a : Account). is_some a.delete_at) s.accounts;
}

unfoldable pub get_accounts : List String → AccountAvailabilityOptions → AccountDb → List Account
get_accounts dids o s =
    select (λ (a : Account). any (str_eq a.did) dids && is_available o a) s.accounts

module _ (T : Texts) where
  -- A handle that is null equals nothing.
  abbrev pub has_handle : String → Account → Bool
  has_handle lowered a = elim a.handle [
    | none ↦ false
    | some handle ↦ str_eq (T.sql_lower handle) lowered
  ]

  abbrev pub has_email : String → Account → Bool
  has_email lowered a = str_eq (T.sql_lower a.email) lowered

  unfoldable pub get_account : String → AccountAvailabilityOptions → AccountDb → Option Account
  get_account actor o s =
      first
        (λ (a : Account).
          (if T.is_did actor then with_did actor a else has_handle (T.to_lower actor) a)
          && is_available o a)
        s.accounts

  unfoldable pub get_account_by_email :
      String → AccountAvailabilityOptions → AccountDb → Option Account
  get_account_by_email email o s =
      first (λ (a : Account). has_email (T.to_lower email) a && is_available o a) s.accounts

  unfoldable pub get_account_did : String → AccountAvailabilityOptions → AccountDb → Option String
  unfolding get_account
  get_account_did actor o s = elim (get_account actor o s) [ none ↦ none | some a ↦ some a.did ]

  unfoldable pub get_account_status : String → AccountDb → AccountStatus
  unfolding get_account format_account_status
  get_account_status actor s = format_account_status (get_account actor everyone s)

  unfoldable pub get_account_admin_status : String → AccountDb → Option (Measure × Measure)
  unfolding get_account
  get_account_admin_status did s = elim (get_account did everyone s) [
    | none ↦ none
    | some a ↦ some (
      record { applied = is_some a.takedown_ref; reference = a.takedown_ref },
      record { applied = is_some a.deactivated_at; reference = none },
    )
  ]

  unfoldable pub is_account_activated : String → AccountDb → Bool
  unfolding get_account
  is_account_activated did s =
      elim (get_account did (record { include_taken_down = false; include_deactivated = true }) s) [
        | none ↦ false
        | some a ↦ not (is_some a.deactivated_at)
      ]

  unfoldable pub resolve_account : String → AccountAvailabilityOptions → AccountDb → Option Account
  unfolding get_account get_account_by_email
  resolve_account identifier o s =
      if T.is_did identifier || T.is_handle identifier
      then get_account identifier o s
      else get_account_by_email identifier o s

  -- The query matches the handle or the email; an empty one is left out.
  abbrev pub matches_query : Option String → Account → Bool
  matches_query none a = true
  matches_query (some query) a =
      let normalized = T.to_lower (T.trim query) in
      let pattern = Str.◌++◌ "%" (Str.◌++◌ normalized "%") in
      if str_eq normalized "" then true else elim a.handle [
        | none ↦ T.like (T.sql_lower a.email) pattern
        | some handle ↦ T.like (T.sql_lower handle) pattern || T.like (T.sql_lower a.email) pattern
      ]

  abbrev pub after_cursor : Option (ℕ × String) → Account → Bool
  after_cursor none a = true
  after_cursor (some (time, key)) a =
      ltb time a.created_at || (a.created_at == time && str_ltb key a.did)

  abbrev pub limit_of : Option ℕ → ℕ
  limit_of none = 500
  limit_of (some n) = n

  -- ORDER BY created_at, did
  abbrev pub in_order : List Account → List Account
  in_order rows =
      order_by (λ (a : Account). a.created_at) (order_by_text (λ (a : Account). a.did) rows)

  -- One more row than the limit is read.
  abbrev pub page_of : ℕ → List Account → List Account × Option String
  page_of limit rows =
      let has_more = ltb limit (length rows) in
      let accounts = if has_more then take limit rows else rows in
      (
        accounts,
        elim (get_last? accounts) [
          | none ↦ none
          | some last ↦ if has_more then some (pack last.created_at last.did) else none
        ],
      )

  unfoldable pub list_accounts :
      ListAccountsOptions → AccountDb → Result AccountError (List Account × Option String)
  unfolding unpack_optional pack
  list_accounts o s = elim (unpack_optional T T.is_did o.cursor) [
    | fail e ↦ fail e
    | ok at ↦ ok (
        page_of (limit_of o.limit) (
          take (limit_of o.limit + 1) (
            in_order (
              select
                (λ (a : Account).
                  is_available o.availability a && matches_query o.query a && after_cursor at a)
                s.accounts))))
  ]

  unfoldable pub verify_account_password :
      String → String → AccountDb → Result AccountError (Option Account)
  unfolding resolve_account verify_password
  verify_account_password identifier password s = elim (resolve_account identifier everyone s) [
    | none ↦ ok none
    | some a ↦ elim (verify_password T password a.password_hash) [
      | fail e ↦ fail e
      | ok valid ↦ ok (if valid then some a else none)
    ]
  ]

  -- The unique indices on the handle and on the email, for a row that is written.
  abbrev pub clashes : Account → Account → Bool
  clashes row a =
      elim row.handle [ none ↦ false | some handle ↦ has_handle (T.sql_lower handle) a ]
      || has_email (T.sql_lower row.email) a

  module _ (D : Timestamps) where
    unfoldable pub create_account :
        CreateAccountOptions → ℕ → AccountDb → Result AccountError Account × AccountDb
    unfolding hash_password
    create_account o now s = elim (hash_password T o.password) [
      | fail e ↦ (fail e, s)
      | ok hash ↦
          let row : Account = record {
            did = o.did;
            handle = some (T.to_lower o.handle);
            created_at = D.stored now;
            takedown_ref = none;
            deactivated_at = none;
            delete_at = none;
            password_hash = hash;
            email = T.to_lower o.email;
            email_confirmed_at = none;
          } in
          if any (λ (a : Account). with_did o.did a || clashes row a) s.accounts
          then (fail constraint_failed, s)
          else (ok row, record s { accounts = s.accounts ++ row ∷ [] })
    ]

    unfoldable pub update_account_deactivated_status : String → Bool → ℕ → AccountDb → AccountDb
    update_account_deactivated_status did applied now s = record s {
      accounts =
          update (with_did did)
            (λ (a : Account). record a {
              deactivated_at = if applied then some (D.stored now) else none;
            })
            s.accounts;
    }

  unfoldable pub update_account_handle :
      String → String → AccountDb → Result AccountError (Unit {0}) × AccountDb
  update_account_handle did raw s =
      let handle = T.to_lower raw in
      if is_some (first (with_did did) s.accounts)
        && any (λ (a : Account). not (with_did did a) && has_handle (T.sql_lower handle) a)
            s.accounts
      then (fail constraint_failed, s)
      else (
        ok tt,
        record s {
          accounts =
              update (with_did did) (λ (a : Account). record a { handle = some handle }) s.accounts;
        },
      )
