-- ===== src/SignIn/Once.antt =====
-- packages/danaus/src/web/controllers/login/lib/forms.ts: a verification challenge is used once.
use danaus.Prelude.{
  ◌≡◌, refl, sym, ap, subst, ◌∙◌, inl, inr, String, Bool, false, Option, none, some, List, arith,
  Bool-cases, str_eq→eq, is_some,
}
use danaus.Table.{first, delete}
use danaus.Table.Rows.{first-none_of, first-holds, delete-misses}
use danaus.Mfa.{get_mfa_status}
use danaus.WebSessions.{
  VerifyChallenge, SessionDb, with_token, create_web_session, delete_verify_challenge,
  get_verify_challenge, elevate_session,
}
use danaus.SignIn.{
  Server, SignInDb, Visit, AuthFactor, webauthn, Check, passed, refused, threw, to_login,
  same_factor, includes, allowed_factors, VerifyData, sign_in, complete, finish, verify_factor,
  after_factor, after_challenge, verify_form,
}
use danaus.SignIn.Tables.{get_verify_challenge-cases}
use danaus.SignIn.Forms.{check_factor-web}
use danaus.SignIn.Journeys.{IsAccepted}

module _ (V : Server) (visit : Visit) where
  sign_in-challenges :
      (did : String) (remember : Bool) (target : String) (s : SignInDb)
      → (sign_in V did remember visit target s).1.web.challenges ≡ s.web.challenges
  unfolding sign_in create_web_session
  sign_in-challenges did remember target s = ground arith

  finish-challenges :
      (id : Option String) (challenge : VerifyChallenge) (target : String) (s : SignInDb)
      → (finish V id challenge target visit s).1.web.challenges ≡ s.web.challenges
  unfolding elevate_session
  finish-challenges none challenge target s =
      sign_in-challenges challenge.did challenge.remember target s
  finish-challenges (some id) challenge target s = refl

  -- Who is let in has used the challenge up.
  after_factor-deletes :
      (check : Check) (challenge : VerifyChallenge) (target : String) (s : SignInDb)
      → IsAccepted (after_factor V check challenge target visit s).0
      → (after_factor V check challenge target visit s).1.web.challenges
        ≡ delete (with_token challenge.token) s.web.challenges
  unfolding complete delete_verify_challenge
  after_factor-deletes refused challenge target s h = absurd h
  after_factor-deletes threw challenge target s h = absurd h
  after_factor-deletes passed challenge target s h =
      finish-challenges challenge.session_id challenge target
        (record s { web = delete_verify_challenge challenge.token s.web })

  verify_factor-web :
      (did : String) (factor : AuthFactor) (code : String) (allowed : List AuthFactor)
      (s : SignInDb)
      → (verify_factor V did factor code allowed visit.now s).1.web ≡ s.web
  unfolding verify_factor
  verify_factor-web did factor code allowed s = elim (Bool-cases (includes factor allowed)) [
    | inl e ↦ rw e (check_factor-web V visit factor did code s)
    | inr e ↦ rw e
  ]

  after_challenge-deletes :
      (challenge : VerifyChallenge) (form : VerifyData) (s : SignInDb)
      → IsAccepted (after_challenge V (some challenge) form visit s).0
      → (after_challenge V (some challenge) form visit s).1.web.challenges
        ≡ delete (with_token challenge.token) s.web.challenges
  after_challenge-deletes challenge form s h =
      let allowed =
        allowed_factors challenge.session_id (is_some (get_mfa_status challenge.did s.mfa)) in
      let checked = verify_factor V challenge.did form.factor form.code allowed visit.now s in
      after_factor-deletes checked.0 challenge form.redirect checked.1 h
      ∙ ap (λ (w : SessionDb). delete (with_token challenge.token) w.challenges)
          (verify_factor-web challenge.did form.factor form.code allowed s)

  -- Who is let in by a challenge leaves no challenge of its token.
  presented-gone :
      (form : VerifyData) (s : SignInDb)
      → let found = get_verify_challenge form.challenge visit.now s.web in
        let answer = after_challenge V found.0 form visit (record s { web = found.1 }) in
        IsAccepted answer.0 → first (with_token form.challenge) answer.1.web.challenges ≡ none
  presented-gone form s =
      let P : Option VerifyChallenge × SessionDb → Type 0 = λ found.
        let answer = after_challenge V found.0 form visit (record s { web = found.1 }) in
        IsAccepted answer.0 → first (with_token form.challenge) answer.1.web.challenges ≡ none in
      elim (get_verify_challenge-cases form.challenge visit.now s.web) [
        | inl e ↦ subst P (sym e) λ h. absurd h
        | inr (inl e) ↦ subst P (sym e) λ h. absurd h
        | inr (inr (row, e, found)) ↦ subst P (sym e) λ h.
            let token =
              str_eq→eq row.token form.challenge
                (first-holds (with_token form.challenge) s.web.challenges row found) in
            ap (first (with_token form.challenge)) (after_challenge-deletes row form s h)
            ∙ subst
                (λ t. first (with_token t) (delete (with_token row.token) s.web.challenges) ≡ none)
                token
                (first-none_of (with_token row.token) _
                  (delete-misses (with_token row.token) s.web.challenges))
      ]

  verify_form-gone :
      (form : VerifyData) (s : SignInDb)
      → IsAccepted (verify_form V form visit s).0
      → first (with_token form.challenge) (verify_form V form visit s).1.web.challenges ≡ none
  unfolding verify_form
  verify_form-gone form s = elim (Bool-cases (same_factor form.factor webauthn)) [
    | inl e ↦ rw e λ h. absurd h
    | inr e ↦ rw e (presented-gone form s)
  ]

  get_verify_challenge-unknown :
      (token : String) (w : SessionDb)
      → first (with_token token) w.challenges ≡ none
      → get_verify_challenge token visit.now w ≡ (none, w)
  unfolding get_verify_challenge
  get_verify_challenge-unknown token w e = ground arith

  verify_form-unknown :
      (form : VerifyData) (s : SignInDb)
      → same_factor form.factor webauthn ≡ false
      → first (with_token form.challenge) s.web.challenges ≡ none
      → (verify_form V form visit s).0 ≡ to_login form.redirect
  unfolding verify_form
  verify_form-unknown form s e f = rw (e, get_verify_challenge-unknown form.challenge s.web f)

-- A challenge is good for one verification: after a form with its token let its sender in, every later
-- form with the token is sent back to the login page, unless it names a factor that it cannot pick.
pub verify_form-once :
    (V : Server) (form again : VerifyData) (visit later : Visit) (s : SignInDb)
    → IsAccepted (verify_form V form visit s).0
    → again.challenge ≡ form.challenge
    → same_factor again.factor webauthn ≡ false
    → (verify_form V again later (verify_form V form visit s).1).0 ≡ to_login again.redirect
verify_form-once V form again visit later s h e f =
    let after = (verify_form V form visit s).1 in
    verify_form-unknown V later again after f (
      subst (λ t. first (with_token t) after.web.challenges ≡ none) (sym e)
        (verify_form-gone V visit form s h))
