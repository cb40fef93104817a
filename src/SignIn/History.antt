-- ===== src/SignIn/History.antt =====
-- packages/danaus/src/web/controllers/login/lib/forms.ts and the pages around it: any sequence of
-- requests, with what each of them proves of its sender. What is proved is described on its own: by
-- the checks of passwords, codes and authenticators, and not by what the forms do with them.
use danaus.Prelude.{
  ℕ, String, Bool, true, false, Option, none, some, List, [], ◌∷◌, ◌++◌, ◌≡◌, ◌≢◌, All, is_some,
  Result, fail, ok,
}
use danaus.Accounts.{Account, AccountDb, AccountError}
use danaus.Accounts.Manager.{verify_account_password}
use danaus.Mfa.{MfaDb, WebauthnCredential, get_mfa_status}
use danaus.Mfa.Challenges.{consume_passkey_login_challenge}
use danaus.Mfa.WebAuthn.{get_webauthn_credential_by_credential_id}
use danaus.WebSessions.{VerifyChallenge, get_verify_challenge}
use danaus.SignIn.{
  Server, SignInDb, Visit, WebAuthnResponse, AuthFactor, totp_code, recovery, password, webauthn,
  passed, refused, threw, Check, challenge_or_empty, LoginData, VerifyData, check_factor,
  login_form, verify_form,
}
use danaus.SignIn.Authenticators.{passkey_login_form, verify_webauthn_form}
use danaus.SignIn.Pages.{
  VerifyContext, try_get_session, log_out, passkey_challenge, resolve_verify_context, webauthn_page,
}

pub data Request : Type 0 where
  logs_in : LoginData → Request
  verifies : VerifyData → Request
  shows_passkey : WebAuthnResponse → String → Request
  shows_key : String → WebAuthnResponse → String → Request
  asks_passkey : String → Request
  opens_verify : Option String → String → Option String → Request
  opens_webauthn : VerifyContext → String → Request
  calls_with : Option String → Request
  logs_out : Option String → Request

-- What the sender has shown of an account, by its DID.
pub data Proof : Type 0 where
  -- its password, and whether the account had a second factor then
  by_password : Bool → String → Proof
  by_factor : AuthFactor → String → Proof
  by_passkey : String → Proof

abbrev pub of_password : MfaDb → Result AccountError (Option Account) → List Proof
of_password mfa (ok (some account)) =
    by_password (is_some (get_mfa_status account.did mfa)) account.did ∷ []
of_password mfa (ok none) = []
of_password mfa (fail _) = []

abbrev pub of_factor : Bool → AuthFactor → String → Check → List Proof
of_factor has_mfa factor did refused = []
of_factor has_mfa factor did threw = []
of_factor has_mfa password did passed = by_password has_mfa did ∷ []
of_factor has_mfa totp_code did passed = by_factor totp_code did ∷ []
of_factor has_mfa recovery did passed = by_factor recovery did ∷ []
of_factor has_mfa webauthn did passed = by_factor webauthn did ∷ []

-- A response that verifies with the credential.
abbrev pub of_assertion : Proof → Option (Bool × ℕ) → List Proof
of_assertion proof none = []
of_assertion proof (some (false, counter)) = []
of_assertion proof (some (true, counter)) = proof ∷ []

abbrev pub if_fresh : Bool → List Proof → List Proof
if_fresh true proofs = proofs
if_fresh false proofs = []

abbrev pub challenged : Option VerifyChallenge → (VerifyChallenge → List Proof) → List Proof
challenged none f = []
challenged (some challenge) f = f challenge

abbrev pub with_credential :
    Option WebauthnCredential → (WebauthnCredential → List Proof) → List Proof
with_credential none f = []
with_credential (some credential) f = f credential

module _ (V : Server) where
  -- The challenge that was presented is one that was issued and is used for the first time.
  abbrev pub of_passkey :
      WebauthnCredential → WebAuthnResponse → Option String → ℕ → MfaDb → List Proof
  of_passkey credential response none now mfa = []
  of_passkey credential response (some challenge) now mfa =
      if_fresh (consume_passkey_login_challenge V.clock challenge now mfa).0
        (of_assertion (by_passkey credential.did) (V.authenticate response challenge credential))

  unfoldable pub proves : Request → Visit → SignInDb → List Proof
  proves (logs_in form) visit s =
      of_password s.mfa (verify_account_password V.texts form.identifier form.password s.accounts)
  proves (verifies form) visit s =
      challenged (get_verify_challenge form.challenge visit.now s.web).0 λ challenge.
        of_factor (is_some (get_mfa_status challenge.did s.mfa)) form.factor challenge.did
          (check_factor V form.factor challenge.did form.code visit.now s).0
  proves (shows_passkey response target) visit s =
      with_credential (get_webauthn_credential_by_credential_id response.id s.mfa)
        λ credential. of_passkey credential response response.client_challenge visit.now s.mfa
  proves (shows_key token response target) visit s =
      challenged (get_verify_challenge token visit.now s.web).0 λ challenge.
        with_credential (get_webauthn_credential_by_credential_id response.id s.mfa) λ credential.
          of_assertion (by_factor webauthn credential.did)
            (V.authenticate response (challenge_or_empty challenge.webauthn_challenge) credential)
  proves _ visit s = []

  unfoldable pub respond : Request → Visit → SignInDb → SignInDb
  respond (logs_in form) visit s = (login_form V form visit s).1
  respond (verifies form) visit s = (verify_form V form visit s).1
  respond (shows_passkey response target) visit s = (passkey_login_form V response target visit s).1
  respond (shows_key token response target) visit s =
      (verify_webauthn_form V token response target visit s).1
  respond (asks_passkey challenge) visit s = passkey_challenge V challenge visit s
  respond (opens_verify token target cookie) visit s =
      (resolve_verify_context V token target cookie visit s).1
  respond (opens_webauthn ctx challenge) visit s = (webauthn_page V ctx challenge s).1
  respond (calls_with cookie) visit s = (try_get_session V cookie visit s).1
  respond (logs_out cookie) visit s = log_out V cookie s

  -- No challenge names the id that is drawn for a new session.
  abbrev pub Fresh : Visit → SignInDb → Type 0
  Fresh visit s =
      All (λ (row : VerifyChallenge). row.session_id ≢ some visit.fresh_id) s.web.challenges

  -- The states that requests lead to, with what was proved on the way. Accounts and second factors
  -- may change by other means between two requests.
  pub data Reached : List Proof → SignInDb → Type 0 where
    start : (s : SignInDb) → s.web.sessions ≡ [] → s.web.challenges ≡ [] → Reached [] s
    next :
        {log : List Proof} {s : SignInDb} (request : Request) (visit : Visit)
        → Fresh visit s
        → Reached log s
        → Reached (proves request visit s ++ log) (respond request visit s)
    changes :
        {log : List Proof} {s : SignInDb} (accounts : AccountDb) (mfa : MfaDb)
        → Reached log s
        → Reached log (record s { accounts = accounts; mfa = mfa })
