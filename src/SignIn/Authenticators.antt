-- ===== src/SignIn/Authenticators.antt =====
-- packages/danaus/src/web/controllers/login/lib/forms.ts: the forms that a passkey or a security key
-- fills, `passkeyLoginForm` and `verifyWebAuthnForm`.
use danaus.Prelude.{ℕ, String, Bool, true, false, not, Option, none, some, if◌then◌else◌, str_eq}
use danaus.Mfa.{WebauthnCredential}
use danaus.Mfa.Challenges.{consume_passkey_login_challenge}
use danaus.Mfa.WebAuthn.{
  get_webauthn_credential_by_credential_id, update_webauthn_credential_counter,
}
use danaus.WebSessions.{VerifyChallenge, get_verify_challenge}
use danaus.SignIn.{
  Server, SignInDb, Visit, WebAuthnResponse, Outcome, invalid, throws, to_login, sign_in, complete,
  challenge_or_empty,
}

module _ (V : Server) where
  -- What an assertion that is verified changes: the counter of its credential.
  abbrev pub after_assertion : Option (Bool × ℕ) → WebauthnCredential → SignInDb → Bool × SignInDb
  after_assertion none credential s = (false, s)
  after_assertion (some (false, counter)) credential s = (false, s)
  after_assertion (some (true, counter)) credential s =
      (true, record s { mfa = update_webauthn_credential_counter credential.id counter s.mfa })

  -- The challenge was issued and not yet used, and the assertion is verified.
  abbrev pub with_passkey :
      Bool → Option (Bool × ℕ) → WebauthnCredential → String → Visit → SignInDb → Outcome × SignInDb
  with_passkey false result credential target visit s = (invalid, s)
  with_passkey true result credential target visit s =
      let checked = after_assertion result credential s in
      if checked.0
      then sign_in V credential.did true visit target checked.1
      else (invalid, checked.1)

  abbrev pub after_credential :
      WebauthnCredential
      → WebAuthnResponse
      → Option String
      → String
      → Visit
      → SignInDb
      → Outcome × SignInDb
  after_credential credential response none target visit s = (throws, s)
  after_credential credential response (some challenge) target visit s =
      let consumed = consume_passkey_login_challenge V.clock challenge visit.now s.mfa in
      with_passkey consumed.0 (V.authenticate response challenge credential) credential target visit
        (record s { mfa = consumed.1 })

  abbrev pub after_lookup :
      Option WebauthnCredential → WebAuthnResponse → String → Visit → SignInDb → Outcome × SignInDb
  after_lookup none response target visit s = (invalid, s)
  after_lookup (some credential) response target visit s =
      after_credential credential response response.client_challenge target visit s

  unfoldable pub passkey_login_form :
      WebAuthnResponse → String → Visit → SignInDb → Outcome × SignInDb
  passkey_login_form response target visit s =
      after_lookup (get_webauthn_credential_by_credential_id response.id s.mfa) response target
        visit s

  -- The key is the account's, and its assertion is verified.
  abbrev pub with_assertion :
      Option (Bool × ℕ)
      → VerifyChallenge
      → WebauthnCredential
      → String
      → Visit
      → SignInDb
      → Outcome × SignInDb
  with_assertion result challenge credential target visit s =
      let checked = after_assertion result credential s in
      if not (str_eq credential.did challenge.did)
      then (invalid, s)
      else if checked.0
      then complete V challenge target visit checked.1
      else (invalid, checked.1)

  abbrev pub after_key :
      VerifyChallenge
      → Option WebauthnCredential
      → WebAuthnResponse
      → String
      → Visit
      → SignInDb
      → Outcome × SignInDb
  after_key challenge none response target visit s = (invalid, s)
  after_key challenge (some credential) response target visit s =
      with_assertion
        (V.authenticate response (challenge_or_empty challenge.webauthn_challenge) credential)
        challenge credential target visit s

  abbrev pub with_key :
      Option VerifyChallenge → WebAuthnResponse → String → Visit → SignInDb → Outcome × SignInDb
  with_key none response target visit s = (to_login target, s)
  with_key (some challenge) response target visit s =
      if str_eq (challenge_or_empty challenge.webauthn_challenge) ""
      then (invalid, s)
      else after_key challenge (get_webauthn_credential_by_credential_id response.id s.mfa) response
          target visit s

  unfoldable pub verify_webauthn_form :
      String → WebAuthnResponse → String → Visit → SignInDb → Outcome × SignInDb
  verify_webauthn_form token response target visit s =
      let found = get_verify_challenge token visit.now s.web in
      with_key found.0 response target visit (record s { web = found.1 })
