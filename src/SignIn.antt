-- ===== src/SignIn.antt =====
-- packages/danaus/src/web/controllers/login/lib/forms.ts: signing in to the web interface and raising
-- a session to sudo mode, over the managers of accounts, second factors and web sessions. A call runs
-- as one step: no other call comes between, though the checks of a password or of a code suspend it.
-- The random ids of `nanoid` are arguments. `Server` holds what is not under src/: the run-time
-- system, the cryptography and the library that verifies authenticators.
pub mod Authenticators
pub mod Pages
pub mod History
pub mod Backed
pub mod Tables
pub mod Forms
pub mod Keys
pub mod Provenance
pub mod Journeys
pub mod Once
use danaus.Prelude.{
  ℕ, String, Bool, true, false, ◌||◌, Option, none, some, List, [], ◌∷◌, if◌then◌else◌, str_eq, ltb,
  is_some, Result, fail, ok,
}
use danaus.SeqEvent.{Bytes}
use danaus.Table.{Timestamps}
use danaus.Totp.{is_totp_code, is_recovery_code}
use danaus.Accounts.{Account, AccountDb, AccountError, invalid_password, Texts}
use danaus.Accounts.Manager.{verify_account_password}
use danaus.Mfa.{MfaDb, WebauthnCredential, get_mfa_status}
use danaus.Mfa.Totp.{verify_account_totp_code}
use danaus.Mfa.RecoveryCodes.{consume_recovery_code}
use danaus.WebSessions.{
  WebSession, VerifyChallenge, SessionDb, CreateWebSessionOptions, create_web_session,
  get_verify_challenge, delete_verify_challenge, elevate_session, create_verify_challenge,
  cleanup_verify_challenges,
}

-- The response of an authenticator. `client_challenge` is the challenge in its client data, where
-- these can be read.
pub record WebAuthnResponse : Type 0 where
  pub id : String
  pub client_challenge : Option String
  pub signed : String

pub record Server : Type 0 where
  pub texts : Texts
  pub clock : Timestamps
  pub totp_hmac : Bytes → Bytes → Bytes
  pub token_hmac : String → Bytes
  pub to_base64url : Bytes → String
  pub from_base64url : String → Bytes
  -- `verifyWebAuthnAuthentication` for the expected challenge: whether it is verified, and the new
  -- counter; `none` where it throws
  pub authenticate : WebAuthnResponse → String → WebauthnCredential → Option (Bool × ℕ)

-- The tables of the accounts' database. The web sessions stand in `web`.
pub record SignInDb : Type 0 where
  pub accounts : AccountDb
  pub mfa : MfaDb
  pub web : SessionDb

-- The request, the time at which it is handled, and what `nanoid` draws for it.
pub record Visit : Type 0 where
  pub user_agent : Option String
  pub ip : Option String
  pub now : ℕ
  pub fresh_id : String
  pub fresh_token : String

pub data AuthFactor : Type 0 where
  totp_code recovery password webauthn : AuthFactor

-- What a form answers. `signs_in` sets the cookie to the token and goes on to the address.
pub data Outcome : Type 0 where
  invalid throws : Outcome
  to_login : String → Outcome
  to_verify : String → String → Outcome
  redirects : String → Outcome
  signs_in : WebSession → String → String → Outcome

pub data Check : Type 0 where
  passed refused threw : Check

abbrev pub same_factor : AuthFactor → AuthFactor → Bool
same_factor totp_code totp_code = true
same_factor recovery recovery = true
same_factor password password = true
same_factor webauthn webauthn = true
same_factor totp_code _ = false
same_factor recovery _ = false
same_factor password _ = false
same_factor webauthn _ = false

-- `allowedFactors.includes(factor)`
abbrev pub includes : AuthFactor → List AuthFactor → Bool
includes factor [] = false
includes factor (f ∷ fs) = same_factor factor f || includes factor fs

-- VERIFY_ALLOWED_MFA_FACTORS, VERIFY_ALLOWED_SUDO_MFA_FACTORS, VERIFY_ALLOWED_SUDO_OFA_FACTORS
abbrev pub allowed_mfa : List AuthFactor
allowed_mfa = totp_code ∷ recovery ∷ []

abbrev pub allowed_sudo_mfa : List AuthFactor
allowed_sudo_mfa = totp_code ∷ webauthn ∷ recovery ∷ []

abbrev pub allowed_sudo_ofa : List AuthFactor
allowed_sudo_ofa = password ∷ []

-- The factors that a challenge allows: of a login, or of a session that asks for sudo mode, whose
-- account has a second factor or not.
abbrev pub allowed_factors : Option String → Bool → List AuthFactor
allowed_factors none has_mfa = allowed_mfa
allowed_factors (some _) true = allowed_sudo_mfa
allowed_factors (some _) false = allowed_sudo_ofa

-- The password's length is outside its bounds.
abbrev pub is_bad_length : Texts → String → Bool
is_bad_length T code = ltb (T.units code) 8 || ltb 256 (T.units code)

abbrev pub check_of : Bool → Check
check_of true = passed
check_of false = refused

abbrev pub check_password : Result AccountError (Option Account) → Check
check_password (fail invalid_password) = refused
check_password (fail _) = threw
check_password (ok none) = refused
check_password (ok (some _)) = passed

abbrev pub challenge_or_empty : Option String → String
challenge_or_empty none = ""
challenge_or_empty (some challenge) = challenge

pub record LoginData : Type 0 where
  pub identifier : String
  pub password : String
  pub remember : Bool
  pub redirect : String

pub record VerifyData : Type 0 where
  pub challenge : String
  pub factor : AuthFactor
  pub code : String
  pub redirect : String

-- What the schema of the form refuses.
abbrev pub is_incomplete : LoginData → Bool
is_incomplete form = str_eq form.identifier "" || str_eq form.password "" || str_eq form.redirect ""

module _ (V : Server) where
  -- The switch on the factor.
  unfoldable pub check_factor : AuthFactor → String → String → ℕ → SignInDb → Check × SignInDb
  unfolding verify_account_password
  check_factor totp_code did code now s =
      let checked = verify_account_totp_code V.totp_hmac now did code s.mfa in
      if is_totp_code code then (check_of checked.0, record s { mfa = checked.1 }) else (refused, s)
  check_factor recovery did code now s =
      let consumed = consume_recovery_code V.clock did code now s.mfa in
      if is_recovery_code code
      then (check_of consumed.0, record s { mfa = consumed.1 })
      else (refused, s)
  check_factor password did code now s =
      if is_bad_length V.texts code
      then (refused, s)
      else (check_password (verify_account_password V.texts did code s.accounts), s)
  check_factor webauthn did code now s = (refused, s)

  unfoldable pub verify_factor :
      String → AuthFactor → String → List AuthFactor → ℕ → SignInDb → Check × SignInDb
  unfolding check_factor
  verify_factor did factor code allowed now s =
      if includes factor allowed then check_factor factor did code now s else (refused, s)

  -- `createWebSession`, the cookie and the redirect.
  unfoldable pub sign_in : String → Bool → Visit → String → SignInDb → Outcome × SignInDb
  unfolding create_web_session
  sign_in did remember visit target s =
      let o : CreateWebSessionOptions = record {
        did = did;
        remember = remember;
        user_agent = visit.user_agent;
        ip = visit.ip;
      } in
      let created =
        create_web_session V.clock V.token_hmac V.to_base64url o visit.fresh_id visit.now s.web in
      (
        elim created.0 [ none ↦ throws | some (session, token) ↦ signs_in session token target ],
        record s { web = created.1 },
      )

  -- What follows the right password of an account.
  unfoldable pub after_password : Account → LoginData → Visit → SignInDb → Outcome × SignInDb
  unfolding cleanup_verify_challenges create_verify_challenge sign_in
  after_password account form visit s =
      let web = cleanup_verify_challenges V.clock visit.now s.web in
      let challenged =
        create_verify_challenge V.clock visit.fresh_token account.did form.remember visit.now web in
      if is_some (get_mfa_status account.did s.mfa)
      then (
        elim challenged.0 [ none ↦ throws | some row ↦ to_verify row.token form.redirect ],
        record s { web = challenged.1 },
      )
      else sign_in account.did form.remember visit form.redirect (record s { web = web })

  abbrev pub after_check :
      Result AccountError (Option Account) → LoginData → Visit → SignInDb → Outcome × SignInDb
  after_check (fail invalid_password) form visit s = (invalid, s)
  after_check (fail _) form visit s = (throws, s)
  after_check (ok none) form visit s = (invalid, s)
  after_check (ok (some account)) form visit s = after_password account form visit s

  unfoldable pub login_form : LoginData → Visit → SignInDb → Outcome × SignInDb
  login_form form visit s =
      if is_incomplete form || is_bad_length V.texts form.password
      then (invalid, s)
      else after_check (verify_account_password V.texts form.identifier form.password s.accounts)
          form visit s

  -- The session of the challenge is raised, or a session is made where it has none.
  abbrev pub finish :
      Option String → VerifyChallenge → String → Visit → SignInDb → Outcome × SignInDb
  finish (some id) challenge target visit s =
      (redirects target, record s { web = elevate_session V.clock id visit.now s.web })
  finish none challenge target visit s = sign_in challenge.did challenge.remember visit target s

  -- What follows a factor that passed: the challenge is deleted first.
  unfoldable pub complete : VerifyChallenge → String → Visit → SignInDb → Outcome × SignInDb
  unfolding delete_verify_challenge elevate_session sign_in
  complete challenge target visit s =
      finish challenge.session_id challenge target visit
        (record s { web = delete_verify_challenge challenge.token s.web })

  abbrev pub after_factor : Check → VerifyChallenge → String → Visit → SignInDb → Outcome × SignInDb
  after_factor refused challenge target visit s = (invalid, s)
  after_factor threw challenge target visit s = (throws, s)
  after_factor passed challenge target visit s = complete challenge target visit s

  abbrev pub after_challenge :
      Option VerifyChallenge → VerifyData → Visit → SignInDb → Outcome × SignInDb
  after_challenge none form visit s = (to_login form.redirect, s)
  after_challenge (some challenge) form visit s =
      let checked =
        verify_factor challenge.did form.factor form.code
          (allowed_factors challenge.session_id (is_some (get_mfa_status challenge.did s.mfa)))
          visit.now s in
      after_factor checked.0 challenge form.redirect visit checked.1

  -- The form has no security keys to pick.
  unfoldable pub verify_form : VerifyData → Visit → SignInDb → Outcome × SignInDb
  verify_form form visit s =
      let found = get_verify_challenge form.challenge visit.now s.web in
      if same_factor form.factor webauthn
      then (invalid, s)
      else after_challenge found.0 form visit (record s { web = found.1 })
