-- ===== src/SignIn/Journeys.antt =====
-- packages/danaus/src/web/controllers/login/lib/forms.ts: what the forms lead to, one after another.
use danaus.Prelude.{
  ◌+◌, ◌≤◌, ◌≡◌, ap, subst, ◌∙◌, inl, inr, String, Bool, false, ◌||◌, Option, none, some, arith,
  Bool-cases, str_eq, str_eq→eq, is_some, ok,
}
use danaus.Table.{first}
use danaus.Accounts.{Account}
use danaus.Accounts.Manager.{verify_account_password}
use danaus.Mfa.{get_mfa_status}
use danaus.SeqEvent.{Bytes}
use danaus.WebToken.{session, split_at_dot, verify_web_session_token, create_web_session_token}
use danaus.WebToken.RoundTrip.{verify-create_web_session_token}
use danaus.WebSessions.{
  WebSession, SessionDb, CreateWebSessionOptions, with_id, session_ttl, create_web_session,
  new_session, get_web_session, cleanup_verify_challenges,
}
use danaus.WebSessions.Lifetime.{web_session-lives}
use danaus.SignIn.{
  Server, SignInDb, Visit, Outcome, invalid, throws, to_login, to_verify, redirects, signs_in,
  LoginData, is_incomplete, is_bad_length, sign_in, after_password, login_form,
}
use danaus.SignIn.Pages.{known, try_get_session}

-- The form lets its sender in.
abbrev pub IsAccepted : Outcome → Type 0
IsAccepted invalid = ⊥
IsAccepted throws = ⊥
IsAccepted (to_login target) = ⊥
IsAccepted (to_verify token target) = ⊥
IsAccepted (redirects target) = Unit
IsAccepted (signs_in row token target) = Unit

-- The password is an account's, and the form is complete.
abbrev pub HasPassword : Server → LoginData → SignInDb → Account → Type 0
HasPassword V form s account =
    ((is_incomplete form || is_bad_length V.texts form.password) ≡ false)
    × (verify_account_password V.texts form.identifier form.password s.accounts ≡ ok (some account))

abbrev pub has_mfa : Account → SignInDb → Bool
has_mfa account s = is_some (get_mfa_status account.did s.mfa)

module _ (V : Server) where
  verified-nonempty :
      (id token : String)
      → verify_web_session_token V.token_hmac V.from_base64url token ≡ session id
      → str_eq token "" ≡ false
  unfolding verify_web_session_token split_at_dot
  verified-nonempty id token v = elim (Bool-cases (str_eq token "")) [
    | inl t ↦ cc (
        subst (λ x. verify_web_session_token V.token_hmac V.from_base64url x ≡ session id)
          (str_eq→eq token "" t) v)
    | inr f ↦ f
  ]

  -- A token that is verified, of a session that is found.
  known_by :
      (id token : String) (visit : Visit) (s : SignInDb) (row : WebSession)
      → verify_web_session_token V.token_hmac V.from_base64url token ≡ session id
      → (get_web_session id visit.now s.web).0 ≡ some row
      → (try_get_session V (some token) visit s).0 ≡ known row
  unfolding try_get_session
  known_by id token visit s row v g = rw (verified-nonempty id token v) (rw v (rw g))

module _ (V : Server) (form : LoginData) (visit : Visit) (s : SignInDb) (account : Account) where
  known_password :
      HasPassword V form s account
      → login_form V form visit s ≡ after_password V account form visit s
  unfolding login_form
  known_password h = rw (h.0, h.1)

  abbrev options : CreateWebSessionOptions
  options = record {
    did = account.did;
    remember = form.remember;
    user_agent = visit.user_agent;
    ip = visit.ip;
  }

  abbrev pub first_session : WebSession
  first_session = new_session V.clock options visit.fresh_id visit.now

  abbrev pub first_token : String
  first_token = create_web_session_token V.token_hmac V.to_base64url visit.fresh_id

  abbrev tidied : SessionDb
  tidied = cleanup_verify_challenges V.clock visit.now s.web

  abbrev created : Option (WebSession × String) × SessionDb
  created =
      create_web_session V.clock V.token_hmac V.to_base64url options visit.fresh_id visit.now tidied

  created-row :
      first (with_id visit.fresh_id) s.web.sessions ≡ none
      → created.0 ≡ some (first_session, first_token)
  unfolding create_web_session cleanup_verify_challenges
  created-row e = ground arith

  after_password-session :
      has_mfa account s ≡ false
      → first (with_id visit.fresh_id) s.web.sessions ≡ none
      → after_password V account form visit s
        ≡ (signs_in first_session first_token form.redirect, record s { web = created.1 })
  unfolding after_password sign_in
  after_password-session h e = rw (h, created-row e)

  -- Where the id that is drawn is a token's and is not in use: an account with no second factor that
  -- gives its password gets a session and its cookie, and every later request with the cookie, up to a
  -- second before the session's seven or 365 days are over, is known to be of the session.
  pub login_form-known :
      (later : Visit)
      → HasPassword V form s account
      → has_mfa account s ≡ false
      → first (with_id visit.fresh_id) s.web.sessions ≡ none
      → ((bytes : Bytes) → V.from_base64url (V.to_base64url bytes) ≡ bytes)
      → split_at_dot visit.fresh_id ≡ none
      → str_eq visit.fresh_id "" ≡ false
      → str_eq (V.to_base64url (V.token_hmac visit.fresh_id)) "" ≡ false
      → later.now + 1000 ≤ visit.now + session_ttl form.remember
      → let answer = login_form V form visit s in
        (answer.0 ≡ signs_in first_session first_token form.redirect)
        × ((try_get_session V (some first_token) later answer.1).0 ≡ known first_session)
  unfolding cleanup_verify_challenges
  login_form-known later h m e back plain named signed t =
      let signed_in = known_password h ∙ after_password-session m e in
      (
        ap (λ r. r.0) signed_in,
        ap (λ r. (try_get_session V (some first_token) later r.1).0) signed_in
            ∙ known_by V visit.fresh_id first_token later (record s { web = created.1 })
                first_session
                (verify-create_web_session_token V.token_hmac V.from_base64url V.to_base64url
                  visit.fresh_id back plain named signed)
                (web_session-lives V.clock V.token_hmac V.to_base64url options visit.fresh_id
                  visit.now later.now tidied e t),
      )
