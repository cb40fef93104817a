-- ===== src/LegacyAuth/Admission.antt =====
-- packages/danaus/src/auth/legacy-tokens.ts and packages/danaus/src/auth/verifier.ts: the tokens of a
-- legacy session, presented to the verifier.
use danaus.Prelude.{ℕ, ◌+◌, ◌/◌, ◌<◌, String, ◌≡◌, refl, true, false, some, ok}
use danaus.Accounts.{AccountDb, Texts}
use danaus.Auth.Header.{
  Request, parse_auth_header, get_auth_type, bearer_token_from_request, bearer,
}
use danaus.Auth.{
  AuthScope, access_scope, refresh_scope, app_pass, app_pass_privileged, signup_queued, taken_down,
  scope_value, auth_scope, VerifyOptions, access_output, refresh_output, Claims, verified, Tokens,
  is_bad_scope, verify_bearer_jwt, assert_account_status, access, refresh, authorization, scope_of,
  subject,
}
use danaus.LegacyAuth.{
  AppPasswordPrivilege, TokenClaims, access_ttl, scope_for_privilege, create_legacy_access_jwt,
  create_legacy_refresh_jwt, issue_legacy_tokens, refresh_ttl,
}

auth_scope-scope_value : (scope : AuthScope) → auth_scope (scope_value scope) ≡ some scope
unfolding auth_scope scope_value
auth_scope-scope_value access_scope = refl
auth_scope-scope_value refresh_scope = refl
auth_scope-scope_value app_pass = refl
auth_scope-scope_value app_pass_privileged = refl
auth_scope-scope_value signup_queued = refl
auth_scope-scope_value taken_down = refl

-- What the verifier reads of a token.
abbrev pub claims_read : TokenClaims → Claims
claims_read c = record {
  typ = some c.typ;
  scope = some (scope_value c.scope);
  sub = some c.subject;
  jti = c.jti;
}

module _ (T : Texts) (K : Tokens) (request : Request) (token : String)
    (header : parse_auth_header T request ≡ some ("bearer", token)) where
  bearer-token : bearer_token_from_request T request ≡ some token
  unfolding bearer_token_from_request
  bearer-token = rw (header, bearer_token_from_request) refl

  bearer-type : get_auth_type T request ≡ bearer
  unfolding get_auth_type
  bearer-type = rw (header, get_auth_type) refl

  bearer-claims :
      (claims : Claims)
      → K.jwt_verify token ≡ verified claims
      → verify_bearer_jwt T K request ≡ ok claims
  unfolding verify_bearer_jwt
  bearer-claims claims h = rw (bearer-token, h, verify_bearer_jwt) refl

-- Where the tokens that are signed for the server's own audience are verified as what was signed until
-- they expire, and nothing is said of other tokens, the tokens of a legacy session do what they are for: with the access token, `authorization` lets the account in
-- with the scope of its app password until two hours have passed, if this scope is allowed and the
-- account's status passes; and with the refresh token, `refresh` gives the account and the session
-- until ninety days have passed. Times are in seconds, rounded down.
pub legacy_tokens-admitted :
    (T : Texts) (K K' : Tokens) (sign : TokenClaims → String) (service_did did session_id : String)
    (privilege : AppPasswordPrivilege) (now time later : ℕ) (asking refreshing : Request)
    (o : VerifyOptions) (s : AccountDb)
    → ((c : TokenClaims)
        → c.audience ≡ service_did
        → time < c.expires_at
        → K.jwt_verify (sign c) ≡ verified (claims_read c))
    → ((c : TokenClaims)
        → c.audience ≡ service_did
        → later < c.expires_at
        → K'.jwt_verify (sign c) ≡ verified (claims_read c))
    → parse_auth_header T asking
      ≡ some
          ("bearer", (issue_legacy_tokens sign service_did did privilege session_id now).access_jwt)
    → parse_auth_header T refreshing
      ≡ some (
        "bearer",
        (issue_legacy_tokens sign service_did did privilege session_id now).refresh_jwt,
      )
    → time < (now + access_ttl) / 1000
    → later < (now + refresh_ttl) / 1000
    → T.is_did did ≡ true
    → is_bad_scope o (scope_for_privilege privilege) ≡ false
    → assert_account_status T K did o s ≡ ok tt
    → (authorization T K asking o s ≡ ok (access_output did (scope_for_privilege privilege)))
      × (refresh T K' refreshing ≡ ok (refresh_output did session_id))
unfolding authorization access refresh issue_legacy_tokens create_legacy_access_jwt
    create_legacy_refresh_jwt
legacy_tokens-admitted T K K' sign service_did did session_id privilege now time later asking
      refreshing o s law law' a r h h' d b k =
    (
      rw
          (
            bearer-type T K asking _ a,
            bearer-claims T K asking _ a _ (law _ refl h),
            auth_scope-scope_value (scope_for_privilege privilege),
            b,
            d,
            k,
            authorization,
            access,
            scope_of,
            subject,
          )
          refl,
      rw (bearer-claims T K' refreshing _ r _ (law' _ refl h'), d, refresh, subject) refl,
    )
