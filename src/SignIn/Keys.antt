-- ===== src/SignIn/Keys.antt =====
-- packages/danaus/src/web/controllers/login/lib/forms.ts: the forms that a passkey or a security key
-- fills, in terms of what they prove of their sender.
use danaus.Prelude.{
  ℕ, ◌≡◌, refl, sym, ap, inl, inr, String, Bool, true, false, Option, none, some, List, [], ◌∷◌,
  ◌++◌, Bool-cases, str_eq→eq, str_eq,
}
use danaus.Mfa.{WebauthnCredential}
use danaus.Mfa.Challenges.{consume_passkey_login_challenge}
use danaus.Mfa.WebAuthn.{
  get_webauthn_credential_by_credential_id, update_webauthn_credential_counter,
}
use danaus.WebSessions.{WebSession, VerifyChallenge}
use danaus.SignIn.{Server, SignInDb, Visit, webauthn, WebAuthnResponse, challenge_or_empty}
use danaus.SignIn.Authenticators.{
  with_passkey, after_credential, after_lookup, passkey_login_form, with_assertion, after_key,
  with_key, verify_webauthn_form,
}
use danaus.SignIn.History.{
  Proof, by_factor, by_passkey, of_assertion, of_passkey, if_fresh, with_credential, challenged,
  shows_key, shows_passkey, Fresh, proves,
}
use danaus.SignIn.Backed.{ChallengeFor, ChallengeFits, Backed, Backed-more}
use danaus.SignIn.Tables.{presented}
use danaus.SignIn.Forms.{Completes, sign_in-Backed, complete-Backed}

key-Completes :
    (log : List Proof) (sessions : List WebSession) (id : Option String) (did owner : String)
    → owner ≡ did
    → ChallengeFor log sessions id did
    → Completes (by_factor webauthn owner ∷ log) sessions id did
key-Completes log sessions none did owner e c =
    inr (inr (inr c, inr (inr (inl (ap (by_factor webauthn) (sym e))))))
key-Completes log sessions (some id) did owner e c =
    (c, inl (inr (inr (inl (ap (by_factor webauthn) (sym e))))))

module _ (V : Server) (visit : Visit) where
  -- A key's assertion against a challenge.
  with_assertion-Backed :
      (log : List Proof) (result : Option (Bool × ℕ)) (challenge : VerifyChallenge)
      (credential : WebauthnCredential) (target : String) (s : SignInDb)
      → Backed log s.web
      → Fresh V visit s
      → ChallengeFits log s.web.sessions challenge
      → Backed
          (of_assertion (by_factor webauthn credential.did) result ++ log)
          (with_assertion V result challenge credential target visit s).1.web
  with_assertion-Backed log none challenge credential target s b fresh c =
      elim (Bool-cases (str_eq credential.did challenge.did)) [ inl e ↦ rw e b | inr e ↦ rw e b ]
  with_assertion-Backed log (some (false, counter)) challenge credential target s b fresh c =
      elim (Bool-cases (str_eq credential.did challenge.did)) [ inl e ↦ rw e b | inr e ↦ rw e b ]
  with_assertion-Backed log (some (true, counter)) challenge credential target s b fresh c =
      let new = by_factor webauthn credential.did ∷ [] in
      elim (Bool-cases (str_eq credential.did challenge.did)) [
        | inl e ↦ rw e (
            complete-Backed V visit (new ++ log) challenge target
              (record s { mfa = update_webauthn_credential_counter credential.id counter s.mfa })
              (Backed-more new log s.web b) fresh
              (key-Completes log s.web.sessions challenge.session_id challenge.did credential.did
                (str_eq→eq credential.did challenge.did e) c))
        | inr e ↦ rw e (Backed-more new log s.web b)
      ]

  -- What a key proves against a challenge.
  abbrev key_proofs : WebAuthnResponse → VerifyChallenge → Option WebauthnCredential → List Proof
  key_proofs response challenge found = with_credential found λ credential.
      of_assertion (by_factor webauthn credential.did)
        (V.authenticate response (challenge_or_empty challenge.webauthn_challenge) credential)

  after_key-Backed :
      (log : List Proof) (challenge : VerifyChallenge) (found : Option WebauthnCredential)
      (response : WebAuthnResponse) (target : String) (s : SignInDb)
      → Backed log s.web
      → Fresh V visit s
      → ChallengeFits log s.web.sessions challenge
      → Backed
          (key_proofs response challenge found ++ log)
          (after_key V challenge found response target visit s).1.web
  after_key-Backed log challenge none response target s b fresh c = b
  after_key-Backed log challenge (some credential) response target s b fresh c =
      with_assertion-Backed log
        (V.authenticate response (challenge_or_empty challenge.webauthn_challenge) credential)
        challenge credential target s b fresh c

  with_key-Backed :
      (log : List Proof) (challenge : VerifyChallenge) (response : WebAuthnResponse)
      (target : String) (s : SignInDb)
      → Backed log s.web
      → Fresh V visit s
      → ChallengeFits log s.web.sessions challenge
      → Backed
          (key_proofs response challenge
              (get_webauthn_credential_by_credential_id response.id s.mfa)
            ++ log)
          (with_key V (some challenge) response target visit s).1.web
  with_key-Backed log challenge response target s b fresh c =
      let found = get_webauthn_credential_by_credential_id response.id s.mfa in
      elim (Bool-cases (str_eq (challenge_or_empty challenge.webauthn_challenge) "")) [
        | inl e ↦ rw e (Backed-more (key_proofs response challenge found) log s.web b)
        | inr e ↦ rw e (after_key-Backed log challenge found response target s b fresh c)
      ]

  pub verify_webauthn_form-Backed :
      (log : List Proof) (token : String) (response : WebAuthnResponse) (target : String)
      (s : SignInDb)
      → Backed log s.web
      → Fresh V visit s
      → Backed
          (proves V (shows_key token response target) visit s ++ log)
          (verify_webauthn_form V token response target visit s).1.web
  unfolding verify_webauthn_form proves
  verify_webauthn_form-Backed log token response target s b fresh =
      let found = get_webauthn_credential_by_credential_id response.id s.mfa in
      presented log s.web b
        (λ r.
          Backed (challenged r.0 (λ challenge. key_proofs response challenge found) ++ log)
            (with_key V r.0 response target visit (record s { web = r.1 })).1.web)
        token visit.now (λ v c. c) λ row c. with_key-Backed log row response target s b fresh c

  with_passkey-Backed :
      (log : List Proof) (is_fresh : Bool) (result : Option (Bool × ℕ))
      (credential : WebauthnCredential) (target : String) (s : SignInDb)
      → Backed log s.web
      → Fresh V visit s
      → Backed
          (if_fresh is_fresh (of_assertion (by_passkey credential.did) result) ++ log)
          (with_passkey V is_fresh result credential target visit s).1.web
  with_passkey-Backed log false result credential target s b fresh = b
  with_passkey-Backed log true none credential target s b fresh = b
  with_passkey-Backed log true (some (false, counter)) credential target s b fresh = b
  with_passkey-Backed log true (some (true, counter)) credential target s b fresh =
      let new = by_passkey credential.did ∷ [] in
      sign_in-Backed V visit (new ++ log) credential.did true target
        (record s { mfa = update_webauthn_credential_counter credential.id counter s.mfa })
        (Backed-more new log s.web b) fresh (inl (inl refl))

  after_credential-Backed :
      (log : List Proof) (credential : WebauthnCredential) (response : WebAuthnResponse)
      (challenge : Option String) (target : String) (s : SignInDb)
      → Backed log s.web
      → Fresh V visit s
      → Backed
          (of_passkey V credential response challenge visit.now s.mfa ++ log)
          (after_credential V credential response challenge target visit s).1.web
  after_credential-Backed log credential response none target s b fresh = b
  after_credential-Backed log credential response (some challenge) target s b fresh =
      let consumed = consume_passkey_login_challenge V.clock challenge visit.now s.mfa in
      with_passkey-Backed log consumed.0 (V.authenticate response challenge credential) credential
        target (record s { mfa = consumed.1 }) b fresh

  after_lookup-Backed :
      (log : List Proof) (found : Option WebauthnCredential) (response : WebAuthnResponse)
      (target : String) (s : SignInDb)
      → Backed log s.web
      → Fresh V visit s
      → Backed
          (with_credential found (λ credential.
              of_passkey V credential response response.client_challenge visit.now s.mfa)
            ++ log)
          (after_lookup V found response target visit s).1.web
  after_lookup-Backed log none response target s b fresh = b
  after_lookup-Backed log (some credential) response target s b fresh =
      after_credential-Backed log credential response response.client_challenge target s b fresh

  pub passkey_login_form-Backed :
      (log : List Proof) (response : WebAuthnResponse) (target : String) (s : SignInDb)
      → Backed log s.web
      → Fresh V visit s
      → Backed
          (proves V (shows_passkey response target) visit s ++ log)
          (passkey_login_form V response target visit s).1.web
  unfolding passkey_login_form proves
  passkey_login_form-Backed log response target s b fresh =
      after_lookup-Backed log (get_webauthn_credential_by_credential_id response.id s.mfa) response
        target s b fresh
