-- ===== src/Auth.antt =====
-- packages/danaus/src/auth/verifier.ts: class AuthVerifier, and packages/danaus/src/auth/scopes.ts.
-- JSON Web Tokens, service tokens and base64 are third-party, and parameters; a request is its
-- `authorization` header and its URL.
pub mod Header
pub mod Access
use danaus.Prelude.{
  Result, fail, ok, ◌>>=◌, String, Bool, true, false, not, ◌&&◌, ◌||◌, Option, none, some, List, [],
  ◌∷◌, ◌++◌, if◌then◌else◌, str_eq, is_some,
}
use danaus.Table.{any}
use danaus.SeqEvent.{AccountStatus, takendown, deactivated}
use danaus.Accounts.{AccountDb, Texts}
use danaus.Accounts.Manager.{get_account_status}
use danaus.Auth.Header.{
  Request, unknown, basic, bearer, dpop, get_auth_type, bearer_token_from_request, parse_basic_auth,
}

pub data AuthScope : Type 0 where
  access_scope refresh_scope app_pass app_pass_privileged signup_queued taken_down : AuthScope

-- The value of a scope.
unfoldable pub scope_value : AuthScope → String
scope_value access_scope = "com.atproto.access"
scope_value refresh_scope = "com.atproto.refresh"
scope_value app_pass = "com.atproto.appPass"
scope_value app_pass_privileged = "com.atproto.appPassPrivileged"
scope_value signup_queued = "com.atproto.signupQueued"
scope_value taken_down = "com.atproto.takendown"

-- `isAuthScope`: the scope with this value.
unfoldable pub auth_scope : String → Option AuthScope
auth_scope value =
    if str_eq value "com.atproto.access"
    then some access_scope
    else if str_eq value "com.atproto.refresh"
    then some refresh_scope
    else if str_eq value "com.atproto.appPass"
    then some app_pass
    else if str_eq value "com.atproto.appPassPrivileged"
    then some app_pass_privileged
    else if str_eq value "com.atproto.signupQueued"
    then some signup_queued
    else if str_eq value "com.atproto.takendown"
    then some taken_down
    else none

abbrev pub access_full : List AuthScope
access_full = access_scope ∷ []

abbrev pub access_privileged : List AuthScope
access_privileged = access_full ++ app_pass_privileged ∷ []

abbrev pub access_standard : List AuthScope
access_standard = access_privileged ++ app_pass ∷ []

abbrev pub same_scope : AuthScope → AuthScope → Bool
same_scope access_scope access_scope = true
same_scope refresh_scope refresh_scope = true
same_scope app_pass app_pass = true
same_scope app_pass_privileged app_pass_privileged = true
same_scope signup_queued signup_queued = true
same_scope taken_down taken_down = true
same_scope _ _ = false

-- The options of a check; a list that is undefined is `none`.
pub record VerifyOptions : Type 0 where
  pub check_takedown : Bool
  pub check_deactivated : Bool
  pub scopes : Option (List AuthScope)
  pub additional : Option (List AuthScope)

pub data AuthOutput : Type 0 where
  unauthenticated_output admin_token_output : AuthOutput
  access_output : String → AuthScope → AuthOutput
  refresh_output : String → String → AuthOutput
  user_service_output : String → AuthOutput

pub data AuthError : Type 0 where
  auth_required invalid_token expired_token account_takedown account_deactivated : AuthError
  missing_token_id oauth_not_implemented service_token_refused : AuthError

-- The claims that are read; a claim that is no text is `none`.
pub record Claims : Type 0 where
  pub typ : Option String
  pub scope : Option String
  pub sub : Option String
  pub jti : Option String

pub data Verification : Type 0 where
  verified : Claims → Verification
  expired refused : Verification

pub record Tokens : Type 0 where
  -- `jwtVerify` with the server's key and audience
  pub jwt_verify : String → Verification
  -- whether `decodeJwt` finds a text `lxm`; `none` where it throws
  pub has_lxm : String → Option Bool
  -- the issuer of the request's service token
  pub verify_service : Request → Option String
  pub from_base64 : String → String

abbrev pub includes : Option (List AuthScope) → AuthScope → Bool
includes none scope = false
includes (some scopes) scope = any (same_scope scope) scopes

abbrev pub is_bad_scope : VerifyOptions → AuthScope → Bool
is_bad_scope o scope =
    (is_some o.scopes || is_some o.additional)
    && not (includes o.scopes scope || includes o.additional scope)

abbrev pub is_text : Option String → String → Bool
is_text none t = false
is_text (some s) t = str_eq s t

abbrev pub is_takendown : AccountStatus → Bool
is_takendown status = elim status [ takendown ↦ true | _ ↦ false ]

abbrev pub is_deactivated : AccountStatus → Bool
is_deactivated status = elim status [ deactivated ↦ true | _ ↦ false ]

-- `typeof did !== 'string' || !isDid(did)`
abbrev pub subject : Texts → Claims → Result AuthError String
subject T claims = elim claims.sub [
  | none ↦ fail invalid_token
  | some did ↦ if T.is_did did then ok did else fail invalid_token
]

abbrev pub scope_of : Claims → VerifyOptions → Result AuthError AuthScope
scope_of claims o = elim claims.scope [
  | none ↦ fail invalid_token
  | some value ↦ elim (auth_scope value) [
    | none ↦ fail invalid_token
    | some scope ↦ if is_bad_scope o scope then fail invalid_token else ok scope
  ]
]

-- The errors of a token that is not verified.
abbrev pub claims_of : Verification → Result AuthError Claims
claims_of (verified claims) = ok claims
claims_of expired = fail expired_token
claims_of refused = fail invalid_token

module _ (T : Texts) (J : Tokens) where
  unfoldable pub verify_bearer_jwt : Request → Result AuthError Claims
  unfolding bearer_token_from_request
  verify_bearer_jwt request = elim (bearer_token_from_request T request) [
    | none ↦ fail auth_required
    | some token ↦ claims_of (J.jwt_verify token)
  ]

  unfoldable pub assert_account_status :
      String → VerifyOptions → AccountDb → Result AuthError (Unit {0})
  unfolding get_account_status
  assert_account_status did o s =
      let status = get_account_status T did s in
      if o.check_takedown && is_takendown status
      then fail account_takedown
      else if o.check_deactivated && is_deactivated status
      then fail account_deactivated
      else ok tt

  unfoldable pub access : Request → VerifyOptions → AccountDb → Result AuthError AuthOutput
  unfolding verify_bearer_jwt auth_scope assert_account_status
  access request o s = do
    claims ← verify_bearer_jwt request
    typed ← (if is_text claims.typ "at+jwt" then ok claims else fail invalid_token)
    scope ← scope_of typed o
    did ← subject T typed
    live ← assert_account_status did o s
    ok (access_output did scope)

  unfoldable pub refresh : Request → Result AuthError AuthOutput
  unfolding verify_bearer_jwt
  refresh request = do
    claims ← verify_bearer_jwt request
    typed ← (if is_text claims.typ "refresh+jwt" then ok claims else fail invalid_token)
    did ← subject T typed
    elim typed.jti [ none ↦ fail missing_token_id | some jti ↦ ok (refresh_output did jti) ]

  -- A header that is empty is falsy.
  unfoldable pub unauthenticated : Request → Result AuthError AuthOutput
  unauthenticated request = elim request.authorization [
    | none ↦ ok unauthenticated_output
    | some header ↦ if str_eq header "" then ok unauthenticated_output else fail auth_required
  ]

  unfoldable pub admin : Option String → Request → Result AuthError AuthOutput
  unfolding parse_basic_auth
  admin password request = elim (parse_basic_auth T J.from_base64 request) [
    | none ↦ fail auth_required
    | some (username, given) ↦ elim password [
      | none ↦ fail auth_required
      | some expected ↦
          if str_eq expected ""
          then fail auth_required
          else if str_eq username "admin" && str_eq given expected
          then ok admin_token_output
          else fail auth_required
    ]
  ]

  unfoldable pub admin_optional : Option String → Request → Result AuthError AuthOutput
  unfolding get_auth_type admin unauthenticated
  admin_optional password request = elim (get_auth_type T request) [
    | basic ↦ admin password request
    | _ ↦ unauthenticated request
  ]

  unfoldable pub oauth : Request → Result AuthError AuthOutput
  oauth request = fail oauth_not_implemented

  unfoldable pub authorization : Request → VerifyOptions → AccountDb → Result AuthError AuthOutput
  unfolding get_auth_type access oauth
  authorization request o s = elim (get_auth_type T request) [
    | dpop ↦ oauth request
    | bearer ↦ access request o s
    | unknown ↦ fail invalid_token
    | basic ↦ fail invalid_token
  ]

  unfoldable pub authorization_or_admin_optional :
      Option String → Request → VerifyOptions → AccountDb → Result AuthError AuthOutput
  unfolding get_auth_type authorization oauth admin unauthenticated
  authorization_or_admin_optional password request o s = elim (get_auth_type T request) [
    | dpop ↦ oauth request
    | bearer ↦ authorization request o s
    | basic ↦ admin password request
    | unknown ↦ unauthenticated request
  ]

  unfoldable pub user_service_auth : Request → Result AuthError AuthOutput
  user_service_auth request = elim (J.verify_service request) [
    | none ↦ fail service_token_refused
    | some issuer ↦ ok (user_service_output issuer)
  ]

  unfoldable pub user_service_auth_optional : Request → Result AuthError AuthOutput
  unfolding get_auth_type user_service_auth unauthenticated
  user_service_auth_optional request = elim (get_auth_type T request) [
    | bearer ↦ user_service_auth request
    | _ ↦ unauthenticated request
  ]

  -- Decoding a bearer token that is no JWT throws.
  unfoldable pub is_service_token : Request → Result AuthError Bool
  unfolding bearer_token_from_request
  is_service_token request = elim (bearer_token_from_request T request) [
    | none ↦ ok false
    | some token ↦ elim (J.has_lxm token) [ none ↦ fail invalid_token | some b ↦ ok b ]
  ]

  unfoldable pub authorization_or_user_service_auth :
      Request → VerifyOptions → AccountDb → Result AuthError AuthOutput
  unfolding is_service_token user_service_auth authorization
  authorization_or_user_service_auth request o s = is_service_token request >>= λ service.
      if service then user_service_auth request else authorization request o s
