-- ===== src/SignIn/Pages.antt =====
-- packages/danaus/src/web/middlewares/session.ts, and the decisions of the pages of
-- packages/danaus/src/web/controllers/verify.tsx and packages/danaus/src/web/controllers/login.tsx:
-- which page is shown, and which changes the request makes. What the pages look like is not modelled.
use danaus.Prelude.{
  ℕ, zero, suc, String, Bool, true, false, ◌≡◌, ◌⊎◌, arith, Option, none, some, List, [], ◌∷◌,
  if◌then◌else◌, str_eq, is_some,
}
use danaus.Mfa.{MfaDb, MfaStatus, PreferredMfa, totp, web_authn, get_mfa_status}
use danaus.Mfa.WebAuthn.{list_webauthn_credentials}
use danaus.Mfa.Challenges.{create_passkey_login_challenge}
use danaus.WebToken.{Verdict, throws, null, session, verify_web_session_token}
use danaus.WebSessions.{
  WebSession, VerifyChallenge, get_web_session, delete_web_session, is_session_elevated,
  get_verify_challenge, get_or_create_sudo_challenge, set_verify_challenge_webauthn,
}
use danaus.SignIn.{Server, SignInDb, Visit, AuthFactor, totp_code, recovery, password, webauthn}

-- What the cookie says of the caller. A signature of another length makes the comparison throw.
pub data Caller : Type 0 where
  fails unknown : Caller
  known : WebSession → Caller

pub record VerifyContext : Type 0 where
  pub challenge : VerifyChallenge
  pub mfa_status : Option MfaStatus
  pub redirect_url : String
  pub is_sudo : Bool

-- The context of a page, or where the request goes instead.
pub data Resolved : Type 0 where
  fails leaves_to_login leaves_to_target : Resolved
  context : VerifyContext → Resolved

-- What a page does with its context: it shows its form, or redirects to another of the pages.
pub data Step : Type 0 where
  shows : Step
  to_index : Step
  to_page : AuthFactor → Step
  leaves : Step

abbrev pub has_rows {ℓ} : {A : Type ℓ} → List A → Bool
has_rows [] = false
has_rows (x ∷ xs) = true

abbrev preferred_page : PreferredMfa → AuthFactor
preferred_page web_authn = webauthn
preferred_page totp = totp_code

-- The action `index`, and those of the four methods; `has_keys` says whether the account has
-- WebAuthn credentials.
unfoldable pub index_page : Bool → Option MfaStatus → Step
index_page true none = to_page password
index_page false none = leaves
index_page is_sudo (some status) = to_page (preferred_page status.preferred)

unfoldable pub method_page : AuthFactor → Bool → Option MfaStatus → Bool → Step
method_page totp_code true none has_keys = to_index
method_page totp_code false none has_keys = shows
method_page totp_code is_sudo (some status) has_keys = shows
method_page recovery true none has_keys = to_index
method_page recovery false none has_keys = shows
method_page recovery is_sudo (some status) has_keys = shows
method_page webauthn true none has_keys = to_index
method_page webauthn false none has_keys = if has_keys then shows else to_page totp_code
method_page webauthn is_sudo (some status) has_keys = if has_keys then shows else to_page totp_code
method_page password false status has_keys = leaves
method_page password true (some status) has_keys = to_index
method_page password true none has_keys = shows

abbrev pub offered : Step → String → String → SignInDb → Step × SignInDb
offered shows token options_challenge s =
    (shows, record s { web = set_verify_challenge_webauthn token options_challenge s.web })
offered to_index token options_challenge s = (to_index, s)
offered (to_page page) token options_challenge s = (to_page page, s)
offered leaves token options_challenge s = (leaves, s)

abbrev pub caller_of : Option WebSession → Caller
caller_of none = unknown
caller_of (some row) = known row

module _ (V : Server) where
  -- What the cookie's token is verified as.
  abbrev pub caller : Verdict → Visit → SignInDb → Caller × SignInDb
  caller throws visit s = (Caller.fails, s)
  caller null visit s = (unknown, s)
  caller (session id) visit s =
      let found = get_web_session id visit.now s.web in
      (caller_of found.0, record s { web = found.1 })

  -- `tryGetSession`; `requireSession` goes to the login page unless the caller is known.
  unfoldable pub try_get_session : Option String → Visit → SignInDb → Caller × SignInDb
  try_get_session none visit s = (unknown, s)
  try_get_session (some token) visit s =
      if str_eq token ""
      then (unknown, s)
      else caller (verify_web_session_token V.token_hmac V.from_base64url token) visit s

  abbrev pub forget : Verdict → SignInDb → SignInDb
  forget throws s = s
  forget null s = s
  forget (session id) s = record s { web = delete_web_session id s.web }

  -- The action `logout`.
  unfoldable pub log_out : Option String → SignInDb → SignInDb
  log_out none s = s
  log_out (some token) s =
      if str_eq token ""
      then s
      else forget (verify_web_session_token V.token_hmac V.from_base64url token) s

  -- The action `passkey.challenge`, with the challenge that the library makes.
  unfoldable pub passkey_challenge : String → Visit → SignInDb → SignInDb
  unfolding create_passkey_login_challenge
  passkey_challenge challenge visit s = record s {
    mfa = (create_passkey_login_challenge V.clock challenge visit.now s.mfa).1;
  }

  abbrev pub context_of : Option VerifyChallenge → String → MfaDb → Resolved
  context_of none target mfa = leaves_to_login
  context_of (some challenge) target mfa =
      let status = get_mfa_status challenge.did mfa in
      if is_some status
      then context (record {
        challenge = challenge;
        mfa_status = status;
        redirect_url = target;
        is_sudo = false;
      })
      else leaves_to_login

  -- The context of a login, whose token stands in the address.
  unfoldable pub login_context : String → String → Visit → SignInDb → Resolved × SignInDb
  unfolding get_verify_challenge
  login_context token target visit s =
      let found = get_verify_challenge token visit.now s.web in
      (context_of found.0 target s.mfa, record s { web = found.1 })

  -- The context of a session that asks for sudo mode.
  unfoldable pub sudo_context : WebSession → String → Visit → SignInDb → Resolved × SignInDb
  unfolding is_session_elevated get_or_create_sudo_challenge
  sudo_context row target visit s =
      let made =
        get_or_create_sudo_challenge V.clock visit.fresh_token row.id row.did visit.now s.web in
      if is_session_elevated visit.now row then (leaves_to_target, s) else (
        elim made.0 [
          | none ↦ fails
          | some challenge ↦ context (record {
            challenge = challenge;
            mfa_status = get_mfa_status row.did s.mfa;
            redirect_url = target;
            is_sudo = true;
          })
        ],
        record s { web = made.1 },
      )

  abbrev pub sudo_of : Caller → String → Visit → SignInDb → Resolved × SignInDb
  sudo_of Caller.fails target visit s = (Resolved.fails, s)
  sudo_of unknown target visit s = (leaves_to_login, s)
  sudo_of (known row) target visit s = sudo_context row target visit s

  unfoldable pub resolve_verify_context :
      Option String → String → Option String → Visit → SignInDb → Resolved × SignInDb
  unfolding login_context sudo_context try_get_session
  resolve_verify_context (some token) target cookie visit s = login_context token target visit s
  resolve_verify_context none target cookie visit s =
      let called = try_get_session cookie visit s in sudo_of called.0 target visit called.1

  -- The action `webauthn`: where it shows its form, the challenge that the library made is stored.
  unfoldable pub webauthn_page : VerifyContext → String → SignInDb → Step × SignInDb
  unfolding method_page list_webauthn_credentials set_verify_challenge_webauthn
  webauthn_page ctx options_challenge s =
      offered
        (method_page webauthn ctx.is_sudo ctx.mfa_status
          (has_rows (list_webauthn_credentials ctx.challenge.did s.mfa)))
        ctx.challenge.token options_challenge s

-- The pages that a browser comes to, in one context, from a first one on.
unfoldable pub follow : ℕ → Bool → Option MfaStatus → Bool → Step → Step
unfolding index_page method_page
follow zero is_sudo status has_keys step = step
follow (suc hops) is_sudo status has_keys shows = shows
follow (suc hops) is_sudo status has_keys leaves = leaves
follow (suc hops) is_sudo status has_keys to_index =
    follow hops is_sudo status has_keys (index_page is_sudo status)
follow (suc hops) is_sudo status has_keys (to_page page) =
    follow hops is_sudo status has_keys (method_page page is_sudo status has_keys)

-- A page shows its form, or the request goes elsewhere.
abbrev pub Settled : Step → Type 0
Settled step = (step ≡ shows) ⊎ (step ≡ leaves)

-- Whatever page of the verification a browser comes to first, in a context that stays as it is: three
-- redirects at most lead to a page that shows its form, or elsewhere.
pub follow-Settled :
    (page : AuthFactor) (is_sudo : Bool) (status : Option MfaStatus) (has_keys : Bool)
    → Settled (follow 4 is_sudo status has_keys (to_page page))
      × Settled (follow 4 is_sudo status has_keys to_index)
unfolding follow
follow-Settled page is_sudo status has_keys = ground arith
