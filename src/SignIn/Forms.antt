-- ===== src/SignIn/Forms.antt =====
-- packages/danaus/src/web/controllers/login/lib/forms.ts: each form, in terms of what it proves of its
-- sender.
use danaus.Prelude.{
  ◌≡◌, ◌≢◌, refl, sym, subst, inl, inr, String, Bool, true, false, ◌||◌, Option, none, some, List,
  [], ◌∷◌, ◌++◌, arith, All, Bool-cases, is_some, Result, fail, ok,
}
use danaus.Table.Rows.{delete-All}
use danaus.Accounts.{Account, AccountError}
use danaus.Accounts.Manager.{verify_account_password}
use danaus.Mfa.{get_mfa_status}
use danaus.WebSessions.{
  WebSession, VerifyChallenge, SessionDb, with_token, create_verify_challenge,
  cleanup_verify_challenges, delete_verify_challenge, new_challenge,
}
use danaus.WebSessions.Ids.{Belongs}
use danaus.SignIn.{
  Server, SignInDb, Visit, AuthFactor, totp_code, recovery, password, webauthn, Check, passed,
  refused, threw, includes, allowed_factors, LoginData, is_incomplete, is_bad_length, VerifyData,
  sign_in, after_password, after_check, login_form, finish, complete, check_factor, verify_factor,
  after_factor, after_challenge, verify_form, same_factor,
}
use danaus.SignIn.History.{
  Proof, by_password, of_password, of_factor, challenged, verifies, Fresh, proves,
}
use danaus.SignIn.Backed.{SignedIn, Confirmed, ChallengeFor, ChallengeFits, Backed, Backed-more}
use danaus.SignIn.Tables.{
  create_web_session-Backed, cleanup-Backed, insert_challenge-Backed,
  delete_verify_challenge-Backed, elevate_session-Backed, presented,
}

-- What lets a challenge end in a session, or in sudo mode.
abbrev pub Completes : List Proof → List WebSession → Option String → String → Type 0
Completes log sessions none did = SignedIn log did
Completes log sessions (some id) did = All (Belongs id did) sessions × Confirmed log did

factor-Completes :
    (log : List Proof) (sessions : List WebSession) (id : Option String) (did : String)
    (has_mfa : Bool) (factor : AuthFactor)
    → includes factor (allowed_factors id has_mfa) ≡ true
    → ChallengeFor log sessions id did
    → Completes (of_factor has_mfa factor did passed ++ log) sessions id did
factor-Completes log sessions none did b totp_code h c = inr (inr (inr c, inl (inl refl)))
factor-Completes log sessions none did b recovery h c = inr (inr (inr c, inr (inl (inl refl))))
factor-Completes log sessions none did b password h c = cc
factor-Completes log sessions none did b webauthn h c = cc
factor-Completes log sessions (some id) did true totp_code h c = (c, inl (inl (inl refl)))
factor-Completes log sessions (some id) did true recovery h c = (c, inl (inr (inl (inl refl))))
factor-Completes log sessions (some id) did true webauthn h c = (c, inl (inr (inr (inl refl))))
factor-Completes log sessions (some id) did true password h c = cc
factor-Completes log sessions (some id) did false totp_code h c = cc
factor-Completes log sessions (some id) did false recovery h c = cc
factor-Completes log sessions (some id) did false webauthn h c = cc
factor-Completes log sessions (some id) did false password h c = (c, inr (inl refl))

module _ (V : Server) (visit : Visit) where
  pub sign_in-Backed :
      (log : List Proof) (did : String) (remember : Bool) (target : String) (s : SignInDb)
      → Backed log s.web
      → Fresh V visit s
      → SignedIn log did
      → Backed log (sign_in V did remember visit target s).1.web
  unfolding sign_in
  sign_in-Backed log did remember target s b fresh h =
      create_web_session-Backed log s.web b V.clock V.token_hmac V.to_base64url
        (record { did = did; remember = remember; user_agent = visit.user_agent; ip = visit.ip })
        visit.fresh_id visit.now h fresh

  after_password-Backed :
      (log : List Proof) (account : Account) (form : LoginData) (s : SignInDb)
      → Backed log s.web
      → Fresh V visit s
      → Backed
          (by_password (is_some (get_mfa_status account.did s.mfa)) account.did ∷ log)
          (after_password V account form visit s).1.web
  unfolding after_password create_verify_challenge cleanup_verify_challenges
  after_password-Backed log account form s b fresh =
      let web = cleanup_verify_challenges V.clock visit.now s.web in
      let tidied : (p : Proof) → Backed (p ∷ log) web =
        λ p. Backed-more (p ∷ []) log web (cleanup-Backed log s.web b V.clock visit.now) in
      elim (Bool-cases (is_some (get_mfa_status account.did s.mfa))) [
        | inl e ↦ rw e (
            insert_challenge-Backed (by_password true account.did ∷ log) web
              (tidied (by_password true account.did)) V.clock
              (new_challenge V.clock visit.fresh_token account.did none form.remember visit.now)
              (inl refl))
        | inr e ↦ rw e (
            sign_in-Backed (by_password false account.did ∷ log) account.did form.remember
              form.redirect (record s { web = web }) (tidied (by_password false account.did))
              (delete-All (λ (row : VerifyChallenge). row.session_id ≢ some visit.fresh_id) _
                s.web.challenges fresh)
              (inr (inl (inl refl))))
      ]

  after_failure :
      (e : AccountError) (form : LoginData) (s : SignInDb)
      → (after_check V (fail e) form visit s).1 ≡ s
  after_failure e form s = ground arith

  after_check-Backed :
      (log : List Proof) (result : Result AccountError (Option Account)) (form : LoginData)
      (s : SignInDb)
      → Backed log s.web
      → Fresh V visit s
      → Backed (of_password s.mfa result ++ log) (after_check V result form visit s).1.web
  after_check-Backed log (fail e) form s b fresh =
      subst (λ (t : SignInDb). Backed log t.web) (sym (after_failure e form s)) b
  after_check-Backed log (ok none) form s b fresh = b
  after_check-Backed log (ok (some account)) form s b fresh =
      after_password-Backed log account form s b fresh

  pub login_form-Backed :
      (log : List Proof) (form : LoginData) (s : SignInDb)
      → Backed log s.web
      → Fresh V visit s
      → Backed
          (of_password s.mfa
              (verify_account_password V.texts form.identifier form.password s.accounts)
            ++ log)
          (login_form V form visit s).1.web
  unfolding login_form
  login_form-Backed log form s b fresh =
      let result = verify_account_password V.texts form.identifier form.password s.accounts in
      elim (Bool-cases (is_incomplete form || is_bad_length V.texts form.password)) [
        | inl e ↦ rw e (Backed-more (of_password s.mfa result) log s.web b)
        | inr e ↦ rw e (after_check-Backed log result form s b fresh)
      ]

  -- The session of a challenge is raised, or a new one is made.
  finish-Backed :
      (log : List Proof) (id : Option String) (challenge : VerifyChallenge) (target : String)
      (s : SignInDb)
      → Backed log s.web
      → Fresh V visit s
      → Completes log s.web.sessions id challenge.did
      → Backed log (finish V id challenge target visit s).1.web
  finish-Backed log none challenge target s b fresh h =
      sign_in-Backed log challenge.did challenge.remember target s b fresh h
  finish-Backed log (some id) challenge target s b fresh h =
      elevate_session-Backed log s.web b V.clock id challenge.did visit.now h.0 h.1

  pub complete-Backed :
      (log : List Proof) (challenge : VerifyChallenge) (target : String) (s : SignInDb)
      → Backed log s.web
      → Fresh V visit s
      → Completes log s.web.sessions challenge.session_id challenge.did
      → Backed log (complete V challenge target visit s).1.web
  unfolding complete delete_verify_challenge
  complete-Backed log challenge target s b fresh h =
      finish-Backed log challenge.session_id challenge target
        (record s { web = delete_verify_challenge challenge.token s.web })
        (delete_verify_challenge-Backed log s.web b challenge.token)
        (delete-All (λ (row : VerifyChallenge). row.session_id ≢ some visit.fresh_id)
          (with_token challenge.token) s.web.challenges fresh)
        h

  pub check_factor-web :
      (factor : AuthFactor) (did code : String) (s : SignInDb)
      → (check_factor V factor did code visit.now s).1.web ≡ s.web
  unfolding check_factor
  check_factor-web totp_code did code s = ground arith
  check_factor-web recovery did code s = ground arith
  check_factor-web password did code s = ground arith
  check_factor-web webauthn did code s = refl

  -- The tables of sessions and challenges do not matter to the check of a factor.
  check_factor-elsewhere :
      (factor : AuthFactor) (did code : String) (s : SignInDb) (w : SessionDb)
      → (check_factor V factor did code visit.now (record s { web = w })).0
        ≡ (check_factor V factor did code visit.now s).0
  unfolding check_factor
  check_factor-elsewhere totp_code did code s w = ground arith
  check_factor-elsewhere recovery did code s w = ground arith
  check_factor-elsewhere password did code s w = ground arith
  check_factor-elsewhere webauthn did code s w = refl

  after_factor-Backed :
      (log : List Proof) (check : Check) (challenge : VerifyChallenge) (target : String)
      (has_mfa : Bool) (factor : AuthFactor) (s : SignInDb)
      → includes factor (allowed_factors challenge.session_id has_mfa) ≡ true
      → Backed log s.web
      → Fresh V visit s
      → ChallengeFits log s.web.sessions challenge
      → Backed
          (of_factor has_mfa factor challenge.did check ++ log)
          (after_factor V check challenge target visit s).1.web
  after_factor-Backed log refused challenge target has_mfa factor s i b fresh c = b
  after_factor-Backed log threw challenge target has_mfa factor s i b fresh c = b
  after_factor-Backed log passed challenge target has_mfa factor s i b fresh c =
      let new = of_factor has_mfa factor challenge.did passed in
      complete-Backed (new ++ log) challenge target s (Backed-more new log s.web b) fresh
        (factor-Completes log s.web.sessions challenge.session_id challenge.did has_mfa factor i c)

  verified-Backed :
      (log : List Proof) (challenge : VerifyChallenge) (form : VerifyData) (s : SignInDb)
      → Backed log s.web
      → Fresh V visit s
      → ChallengeFits log s.web.sessions challenge
      → Backed
          (of_factor
              (is_some (get_mfa_status challenge.did s.mfa))
              form.factor
              challenge.did
              (check_factor V form.factor challenge.did form.code visit.now s).0
            ++ log)
          (after_challenge V (some challenge) form visit s).1.web
  unfolding verify_factor
  verified-Backed log challenge form s b fresh c =
      let has_mfa = is_some (get_mfa_status challenge.did s.mfa) in
      let checked = check_factor V form.factor challenge.did form.code visit.now s in
      let same = check_factor-web form.factor challenge.did form.code s in
      let new = of_factor has_mfa form.factor challenge.did checked.0 in
      elim (Bool-cases (includes form.factor (allowed_factors challenge.session_id has_mfa))) [
        | inl i ↦ rw i (
            after_factor-Backed log checked.0 challenge form.redirect has_mfa form.factor checked.1
              i (subst (Backed log) (sym same) b)
              (subst
                (λ (w : SessionDb).
                  All (λ (row : VerifyChallenge). row.session_id ≢ some visit.fresh_id)
                    w.challenges)
                (sym same) fresh)
              (subst (λ (w : SessionDb). ChallengeFits log w.sessions challenge) (sym same) c))
        | inr i ↦ rw i (Backed-more new log s.web b)
      ]

  pub verify_form-Backed :
      (log : List Proof) (form : VerifyData) (s : SignInDb)
      → Backed log s.web
      → Fresh V visit s
      → Backed (proves V (verifies form) visit s ++ log) (verify_form V form visit s).1.web
  unfolding verify_form proves
  verify_form-Backed log form s b fresh = elim (Bool-cases (same_factor form.factor webauthn)) [
    | inl e ↦ rw e (Backed-more (proves V (verifies form) visit s) log s.web b)
    | inr e ↦ rw e (
        presented log s.web b
          (λ found.
            Backed
              (challenged found.0 (λ challenge.
                  of_factor (is_some (get_mfa_status challenge.did s.mfa)) form.factor challenge.did
                    (check_factor V form.factor challenge.did form.code visit.now s).0)
                ++ log)
              (after_challenge V found.0 form visit (record s { web = found.1 })).1.web)
          form.challenge visit.now (λ v c. c) λ row c. verified-Backed log row form s b fresh c)
  ]
