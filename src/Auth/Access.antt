-- ===== src/Auth/Access.antt =====
-- packages/danaus/src/auth/verifier.ts: whom `authorization` lets in.
use danaus.Prelude.{
  String, ◌≡◌, ◌≢◌, refl, sym, ap, subst, ◌∙◌, true, false, ◌&&◌, Option, some, arith,
  if◌then◌else◌, str_eq, Result, fail, ok, bind-ok, ok-injective, fail-ne-ok, Bool-cases,
  Option-cases, inl, inr,
}
use danaus.Table.{any}
use danaus.Accounts.Takedowns
use danaus.Accounts.Takedowns.{status-taken_down}
use danaus.Accounts.Credentials.{takedown_reason}
use danaus.SeqEvent.{takendown}
use danaus.Accounts.{AccountDb, Texts}
use danaus.Accounts.Manager.{with_did, get_account_status}
use danaus.Auth.Header.{
  Request, AuthType, unknown, basic, bearer, dpop, get_auth_type, bearer_token_from_request,
}
use danaus.Auth.{
  AuthScope, auth_scope, VerifyOptions, AuthOutput, access_output, AuthError, Claims, Verification,
  verified, expired, refused, Tokens, is_bad_scope, is_text, is_takendown, is_deactivated,
  verify_bearer_jwt, subject, scope_of, claims_of, assert_account_status, access, authorization,
  oauth, invalid_token, oauth_not_implemented,
}

jwt-verified : (v : Verification) (claims : Claims) → claims_of v ≡ ok claims → v ≡ verified claims
jwt-verified (verified c) claims h = ap (λ t. verified t) (ok-injective c claims h)
jwt-verified expired claims h = absurd (fail-ne-ok _ claims h)
jwt-verified refused claims h = absurd (fail-ne-ok _ claims h)

typed-known :
    (claims typed : Claims) (t : String)
    → (if is_text claims.typ t then ok claims else fail invalid_token) ≡ ok typed
    → (claims ≡ typed) × (is_text claims.typ t ≡ true)
typed-known claims typed t h = elim (Bool-cases (is_text claims.typ t)) [
  | inl e ↦ (ok-injective claims typed (rw e at h), e)
  | inr e ↦ absurd (cc (rw e at h))
]

status-known :
    (T : Texts) (J : Tokens) (did : String) (o : VerifyOptions) (s : AccountDb) (u : Unit {0})
    → assert_account_status T J did o s ≡ ok u
    → (o.check_takedown && is_takendown (get_account_status T did s) ≡ false)
      × (o.check_deactivated && is_deactivated (get_account_status T did s) ≡ false)
unfolding assert_account_status
status-known T J did o s u h =
    elim (Bool-cases (o.check_takedown && is_takendown (get_account_status T did s))) [
      | inl e ↦ absurd (cc (rw e at h))
      | inr e ↦
          elim (Bool-cases (o.check_deactivated && is_deactivated (get_account_status T did s))) [
            | inl f ↦ absurd (cc (rw (e, f) at h))
            | inr f ↦ (e, f)
          ]
    ]

subject-known :
    (T : Texts) (claims : Claims) (did : String)
    → subject T claims ≡ ok did
    → (claims.sub ≡ some did) × (T.is_did did ≡ true)
subject-known T claims did h = elim (Option-cases claims.sub) [
  | inl e ↦ absurd (cc (rw e at h))
  | inr e ↦ elim (Bool-cases (T.is_did e.0)) [
    | inl d ↦
        let same : e.0 ≡ did = ok-injective e.0 did (rw (e.1, d) at h) in
        (e.1 ∙ ap (λ t. some t) same, subst (λ t. T.is_did t ≡ true) same d)
    | inr d ↦ absurd (cc (rw (e.1, d) at h))
  ]
]

scope-known :
    (claims : Claims) (o : VerifyOptions) (scope : AuthScope)
    → scope_of claims o ≡ ok scope
    → ((value : String) × ((claims.scope ≡ some value) × (auth_scope value ≡ some scope)))
      × (is_bad_scope o scope ≡ false)
scope-known claims o scope h = elim (Option-cases claims.scope) [
  | inl e ↦ absurd (cc (rw e at h))
  | inr e ↦ elim (Option-cases (auth_scope e.0)) [
    | inl f ↦ absurd (cc (rw (e.1, f, scope_of) at h))
    | inr f ↦ elim (Bool-cases (is_bad_scope o f.0)) [
      | inl b ↦ absurd (cc (rw (e.1, f.1, b, scope_of) at h))
      | inr b ↦
          let same : f.0 ≡ scope = ok-injective f.0 scope (rw (e.1, f.1, b, scope_of) at h) in
          ((e.0, (e.1, f.1 ∙ ap (λ t. some t) same)), subst (λ t. is_bad_scope o t ≡ false) same b)
    ]
  ]
]

-- Of the types of authorization only the bearer's may let in.
bearer-known :
    (t : AuthType) (a : Result AuthError AuthOutput) (out : AuthOutput)
    → (elim t [
      | dpop ↦ fail oauth_not_implemented
      | bearer ↦ a
      | unknown ↦ fail invalid_token
      | basic ↦ fail invalid_token
    ])
      ≡ ok out
    → a ≡ ok out
bearer-known dpop a out h = absurd (fail-ne-ok _ out h)
bearer-known bearer a out h = h
bearer-known unknown a out h = absurd (fail-ne-ok _ out h)
bearer-known basic a out h = absurd (fail-ne-ok _ out h)

module _ (T : Texts) (J : Tokens) where
  -- Why a request is let in as an account with a scope.
  pub record Admitted (request : Request) (o : VerifyOptions) (s : AccountDb) (did : String)
      (scope : AuthScope) : Type 0 where
    pub token : String
    pub claims : Claims
    pub presented : bearer_token_from_request T request ≡ some token
    pub signed : J.jwt_verify token ≡ verified claims
    pub typed : is_text claims.typ "at+jwt" ≡ true
    pub subjected : (claims.sub ≡ some did) × (T.is_did did ≡ true)
    pub scoped : (value : String) × ((claims.scope ≡ some value) × (auth_scope value ≡ some scope))
    pub allowed : is_bad_scope o scope ≡ false
    pub not_takendown : o.check_takedown && is_takendown (get_account_status T did s) ≡ false
    pub not_deactivated : o.check_deactivated && is_deactivated (get_account_status T did s) ≡ false

  bearer-verified :
      (request : Request) (claims : Claims)
      → verify_bearer_jwt T J request ≡ ok claims
      → (token : String) × ((bearer_token_from_request T request ≡ some token)
          × (J.jwt_verify token ≡ verified claims))
  unfolding verify_bearer_jwt
  bearer-verified request claims h = elim (Option-cases (bearer_token_from_request T request)) [
    | inl e ↦ absurd (cc (rw (e, verify_bearer_jwt) at h))
    | inr e ↦
        (e.0, (e.1, jwt-verified (J.jwt_verify e.0) claims (rw (e.1, verify_bearer_jwt) at h)))
  ]

  access-known :
      (request : Request) (o : VerifyOptions) (s : AccountDb) (out : AuthOutput)
      → access T J request o s ≡ ok out
      → (did : String) × ((scope : AuthScope) × ((out ≡ access_output did scope)
            × Admitted request o s did scope))
  unfolding access
  access-known request o s out h =
      let (claims, (e1, h1)) = bind-ok (verify_bearer_jwt T J request) _ out h in
      let (typed, (e2, h2)) =
        bind-ok (if is_text claims.typ "at+jwt" then ok claims else fail invalid_token) _ out h1 in
      let (scope, (e3, h3)) = bind-ok (scope_of typed o) _ out h2 in
      let (did, (e4, h4)) = bind-ok (subject T typed) _ out h3 in
      let (u, (e5, h5)) = bind-ok (assert_account_status T J did o s) _ out h4 in
      let (token, (presented, signed)) = bearer-verified request claims e1 in
      let (same, is_typed) = typed-known claims typed "at+jwt" e2 in
      let known = scope-known typed o scope e3 in
      let status = status-known T J did o s u e5 in
      (
        did,
        (
          scope,
          (
            sym (ok-injective _ out h5),
            record {
              token = token;
              claims = typed;
              presented = presented;
              signed = signed ∙ ap (λ c. verified c) same;
              typed = subst (λ (c : Claims). is_text c.typ "at+jwt" ≡ true) same is_typed;
              subjected = subject-known T typed did e4;
              scoped = known.0;
              allowed = known.1;
              not_takendown = status.0;
              not_deactivated = status.1;
            },
          ),
        ),
      )

  -- What `authorization` lets in is an account with a scope: the request has a bearer token that is
  -- verified, is an access token, and names the account's DID and the scope; the scope is among
  -- those that are allowed, if there are any; and the account is not taken down, or not deactivated,
  -- if this is to be checked.
  pub authorization-Admitted :
      (request : Request) (o : VerifyOptions) (s : AccountDb) (out : AuthOutput)
      → authorization T J request o s ≡ ok out
      → (did : String) × ((scope : AuthScope) × ((out ≡ access_output did scope)
            × Admitted request o s did scope))
  unfolding authorization oauth
  authorization-Admitted request o s out h =
      access-known request o s out
        (bearer-known (get_auth_type T request) (access T J request o s) out h)

unfoldable did_of : AuthOutput → String
did_of (access_output did scope) = did
did_of _ = ""

-- Where an account exists and is taken down with a reason that is not empty, `authorization` that
-- checks takedowns does not let anyone in as this account.
pub authorization-taken_down :
    (T : Texts) (J : Tokens) (request : Request) (o : VerifyOptions) (s : AccountDb) (did : String)
    (reason : Option String) (scope : AuthScope)
    → T.is_did did ≡ true
    → any (with_did did) s.accounts ≡ true
    → str_eq (takedown_reason reason) "" ≡ false
    → o.check_takedown ≡ true
    → authorization T J request o (Takedowns.taken_down did reason s) ≢ ok (access_output did scope)
unfolding did_of
authorization-taken_down T J request o s did reason scope d a r c h =
    let (found, (_, (same, why))) =
      authorization-Admitted T J request o (Takedowns.taken_down did reason s)
        (access_output did scope) h in
    let status : get_account_status T found (Takedowns.taken_down did reason s) ≡ takendown =
      subst (λ t. get_account_status T t (Takedowns.taken_down did reason s) ≡ takendown)
        (ap did_of same) (status-taken_down T did reason s d r ∙ rw a refl) in
    ground (arith, c, ap is_takendown status, why.not_takendown)
