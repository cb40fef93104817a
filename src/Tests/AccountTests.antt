-- ===== src/Tests/AccountTests.antt =====
-- packages/danaus/src/accounts/manager.ts and packages/danaus/src/auth/verifier.ts at concrete
-- inputs.
use Prim.Native.String as Str
use danaus.Prelude.{
  String, ◌≡◌, ◌≢◌, refl, true, false, none, some, List, [], ◌∷◌, str_eq, if◌then◌else◌, ok,
}
use danaus.Table.{any, first}
use danaus.WebSessions.{WebSession}
use danaus.Accounts.{Account, AccountDb, Texts, format_account_status}
use danaus.Accounts.Accepted.{Acceptable, validate_handle-accepted}
use danaus.Accounts.Handles.{
  Resolution, resolved, not_found, ends_with, before_suffix, has_dot, ends_with_any,
  is_service_domain, is_valid_tld, validate_handle,
}
use danaus.Accounts.Manager.{get_account, get_account_status}
use danaus.Accounts.Takedowns.{taken_down}
use danaus.Auth.Header.{
  Request, split_at_code, parse_auth_header, get_auth_type, bearer_token_from_request,
}
use danaus.Auth.{
  AuthScope, app_pass, auth_scope, VerifyOptions, access_standard, access_output, verified, Tokens,
  verify_bearer_jwt, assert_account_status, access, authorization,
}
use danaus.Auth.Access.{Admitted, authorization-Admitted, authorization-taken_down}

-- Texts that are in lower case, and passwords that are their own hashes.
abbrev pub texts : Texts
texts = record {
  is_did = λ t. str_eq t "did:plc:a";
  is_handle = λ t. str_eq t "alice.pds.test";
  to_lower = λ t. t;
  sql_lower = λ t. t;
  like = λ t pattern. str_eq t pattern;
  units = λ t. Str.len t;
  trim = λ t. t;
  safe_integer = λ t. none;
  hash = λ t. t;
  verify = λ t hash. str_eq t hash;
}

abbrev pub alice : Account
alice = record {
  did = "did:plc:a";
  handle = some "alice.pds.test";
  created_at = 0;
  takedown_ref = none;
  deactivated_at = none;
  delete_at = none;
  password_hash = "secret";
  email = "alice@pds.test";
  email_confirmed_at = none;
}

abbrev pub session : String → WebSession
session did = record {
  id = "s";
  did = did;
  user_agent = none;
  ip = none;
  created_at = 0;
  expires_at = 1000;
  sudo_at = none;
}

abbrev pub accounts : AccountDb
accounts = record {
  accounts = alice ∷ [];
  legacy_sessions = [];
  web_sessions = session "did:plc:a" ∷ session "did:plc:b" ∷ [];
  email_tokens = [];
}

abbrev domains : List String
domains = ".pds.test" ∷ []

abbrev resolve : String → Resolution
resolve handle = if str_eq handle "alice.test" then resolved "did:plc:a" else not_found

validate_handle-accepted_example :
    (texts.to_lower "bob.pds.test" ≡ "bob.pds.test")
    × Acceptable texts domains resolve none "bob.pds.test"
unfolding validate_handle any first ends_with before_suffix has_dot ends_with_any is_service_domain
    is_valid_tld
validate_handle-accepted_example =
    validate_handle-accepted texts domains resolve "bob.pds.test" "bob.pds.test" none refl

-- One token is good.
abbrev tokens : Tokens
tokens = record {
  jwt_verify = λ token. verified (record {
    typ = some "at+jwt";
    scope = some "com.atproto.appPass";
    sub = some "did:plc:a";
    jti = none;
  });
  has_lxm = λ token. some false;
  verify_service = λ request. none;
  from_base64 = λ t. t;
}

abbrev request : Request
request = record { authorization = some "bearer abc"; url = "/" }

abbrev pub options : VerifyOptions
options = record {
  check_takedown = true;
  check_deactivated = true;
  scopes = some access_standard;
  additional = none;
}

authorization-Admitted_example :
    (did : String) × ((scope : AuthScope) × ((access_output "did:plc:a" app_pass
          ≡ access_output did scope)
        × Admitted texts tokens request options accounts did scope))
unfolding authorization access verify_bearer_jwt auth_scope assert_account_status get_account_status
    get_account format_account_status first any get_auth_type bearer_token_from_request
    parse_auth_header split_at_code
authorization-Admitted_example =
    authorization-Admitted texts tokens request options accounts
      (access_output "did:plc:a" app_pass) refl

authorization-taken_down_example :
    authorization texts tokens request options (taken_down "did:plc:a" none accounts)
    ≢ ok (access_output "did:plc:a" app_pass)
unfolding any
authorization-taken_down_example =
    authorization-taken_down texts tokens request options accounts "did:plc:a" none app_pass refl
      refl refl refl
