-- ===== src/Tests/LegacyTests.antt =====
-- packages/danaus/src/accounts/legacy-auth.ts at concrete inputs.
use Prim.Native.String as Str
use danaus.Prelude.{
  ap, ◌*◌, str_eq, if◌then◌else◌, String, ◌≡◌, refl, false, none, some, [], ◌∷◌, arith, ok,
}
use danaus.Table.{first, any}
use danaus.Accounts.{Texts, LegacySession, format_account_status}
use danaus.Accounts.Manager.{get_account, get_account_status}
use danaus.Auth.Header.{Request, split_at_code, parse_auth_header}
use danaus.Auth.{
  scope_value, access_output, refresh_output, Claims, verified, Tokens, assert_account_status,
  authorization, refresh,
}
use danaus.LegacyAuth.{
  AppPassword, limited, LegacyDb, TokenClaims, hour, scope_for_privilege, create_legacy_access_jwt,
  create_legacy_refresh_jwt, issue_legacy_tokens, rotate_legacy_refresh,
}
use danaus.LegacyAuth.Rotation.{rotate-again}
use danaus.LegacyAuth.Admission.{claims_read, legacy_tokens-admitted}
use danaus.Tests.AccountTests.{texts, accounts, options}
use danaus.Tests.StreamTests.{seconds}
use danaus.Tests.ToyTree.{put_text, get_text, get-put_text, cell, uncell, uncell-cell}

-- A token is the text of what it says.
abbrev sign : TokenClaims → String
sign c = put_text c.typ (put_text (scope_value c.scope) (put_text c.subject (cell c.jti)))

abbrev read : String → Claims
read token =
    let typ = get_text token in
    let scope = get_text typ.1 in
    let sub = get_text scope.1 in
    record { typ = some typ.0; scope = some scope.0; sub = some sub.0; jti = uncell sub.1 }

read-sign : (c : TokenClaims) → read (sign c) ≡ claims_read c
read-sign c =
    rw
      (
        get-put_text c.typ (put_text (scope_value c.scope) (put_text c.subject (cell c.jti))),
        get-put_text (scope_value c.scope) (put_text c.subject (cell c.jti)),
        get-put_text c.subject (cell c.jti),
        uncell-cell c.jti,
      )
      refl

abbrev readable : Tokens
readable = record {
  jwt_verify = λ token. verified (read token);
  has_lxm = λ token. some false;
  verify_service = λ request. none;
  from_base64 = λ t. t;
}

abbrev bearing : String → Request
bearing token = record { authorization = some (Str.◌++◌ "Bearer " token); url = "/" }

-- The header's scheme in lower case.
abbrev lower_texts : Texts
lower_texts = record texts { to_lower = λ t. if str_eq t "Bearer" then "bearer" else t }

legacy_tokens-admitted_example :
    (authorization lower_texts readable
        (bearing
          (issue_legacy_tokens sign "did:web:pds" "did:plc:a" limited "session" 5000).access_jwt)
        options
        accounts
      ≡ ok (access_output "did:plc:a" (scope_for_privilege limited)))
    × (refresh lower_texts readable (
          bearing
            (issue_legacy_tokens sign "did:web:pds" "did:plc:a" limited "session" 5000).refresh_jwt)
        ≡ ok (refresh_output "did:plc:a" "session"))
unfolding issue_legacy_tokens create_legacy_access_jwt create_legacy_refresh_jwt scope_for_privilege
    scope_value parse_auth_header split_at_code assert_account_status get_account_status get_account
    format_account_status first any
legacy_tokens-admitted_example =
    legacy_tokens-admitted lower_texts readable readable sign "did:web:pds" "did:plc:a" "session"
      limited 5000 60 3600
      (bearing
        (issue_legacy_tokens sign "did:web:pds" "did:plc:a" limited "session" 5000).access_jwt)
      (bearing
        (issue_legacy_tokens sign "did:web:pds" "did:plc:a" limited "session" 5000).refresh_jwt)
      options accounts (λ c a h. ap (λ t. verified t) (read-sign c))
      (λ c a h. ap (λ t. verified t) (read-sign c)) refl refl (omega arith) (omega arith) refl refl
      refl

abbrev password : AppPassword
password = record {
  id = 1;
  did = "did:plc:a";
  name = "phone";
  privilege = limited;
  password_hash = "secret";
  created_at = 0;
}

abbrev session : LegacySession
session = record {
  id = "s1";
  did = "did:plc:a";
  app_password_id = 1;
  created_at = 0;
  expires_at = 24 * hour;
  next_id = none;
}

abbrev stored : LegacyDb
stored = record {
  base = record accounts { legacy_sessions = session ∷ [] };
  app_passwords = password ∷ [];
  next_app_password = 2;
}

rotate-again_example :
    ((rotate_legacy_refresh sign "did:web:pds" seconds 1 "s1" "s2" hour stored).0
      ≡ ok (issue_legacy_tokens sign "did:web:pds" "did:plc:a" limited "s2" hour))
    × ((rotate_legacy_refresh sign "did:web:pds" seconds 1 "s1" "s3"
          (2 * hour)
          (rotate_legacy_refresh sign "did:web:pds" seconds 1 "s1" "s2" hour stored).1).0
        ≡ ok (issue_legacy_tokens sign "did:web:pds" "did:plc:a" limited "s2" (2 * hour)))
unfolding first
rotate-again_example =
    rotate-again sign "did:web:pds" seconds "s1" "s2" "s3" hour (2 * hour) 0 stored session password
      refl (omega arith) (omega arith)
