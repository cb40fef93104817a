-- ===== src/SignIn/Tables.antt =====
-- packages/danaus/src/accounts/web-sessions.ts under what was proved by those who signed in: each
-- operation on the tables of sessions and challenges.
use danaus.Prelude.{
  ℕ, ◌≡◌, ◌≢◌, refl, sym, ap, subst, ◌∙◌, ◌⊎◌, inl, inr, String, false, Option, none, some, List,
  [], ◌∷◌, ◌++◌, arith, All, All-append, All-map, Bool-cases, Option-cases, str_eq→eq, is_some, leb,
  ltb,
}
use danaus.SeqEvent.{Bytes}
use danaus.Table.{Timestamps, first, update, delete}
use danaus.Table.Rows.{delete-All, update-All, first-All}
use danaus.WebSessions.{
  WebSession, VerifyChallenge, SessionDb, CreateWebSessionOptions, with_id, with_token,
  create_web_session, new_session, delete_web_session, get_web_session, delete_verify_challenge,
  get_verify_challenge, elevate_session, elevate, insert_challenge, cleanup_verify_challenges,
  set_verify_challenge_webauthn, get_or_create_sudo_challenge, new_challenge, for_session,
}
use danaus.WebSessions.Ids.{
  UniqueIds, Belongs, delete-UniqueIds, update-UniqueIds, append-UniqueIds, first-Belongs,
}
use danaus.SignIn.Backed.{SignedIn, Confirmed, SessionFits, ChallengeFor, ChallengeFits, Backed}
use danaus.SignIn.History.{Proof}

-- What a challenge asks of the sessions holds of other sessions.
ChallengeFor-sessions :
    (log : List Proof) (old rows : List WebSession) (id : Option String) (did : String)
    → ((i : String) → id ≡ some i → All (Belongs i did) old → All (Belongs i did) rows)
    → ChallengeFor log old id did
    → ChallengeFor log rows id did
ChallengeFor-sessions log old rows none did f h = h
ChallengeFor-sessions log old rows (some i) did f h = f i refl h

is_some-false {ℓ} : {A : Type ℓ} (o : Option A) → is_some o ≡ false → o ≡ none
is_some-false none h = refl
is_some-false (some a) h = cc

none-ne_some : (row : VerifyChallenge) → none ≢ some row
none-ne_some row h = cc

-- A session is unknown, or has expired and is deleted, or is found.
pub get_web_session-cases :
    (id : String) (now : ℕ) (w : SessionDb)
    → (get_web_session id now w ≡ (none, w))
      ⊎ (get_web_session id now w ≡ (none, delete_web_session id w))
      ⊎ ((row : WebSession) × (get_web_session id now w ≡ (some row, w))
          × (first (with_id id) w.sessions ≡ some row))
unfolding get_web_session
get_web_session-cases id now w = elim (Option-cases (first (with_id id) w.sessions)) [
  | inl e ↦ inl (ground arith)
  | inr (row, e) ↦ elim (Bool-cases (leb row.expires_at now)) [
    | inl t ↦ inr (inl (ground arith))
    | inr t ↦ inr (inr (row, ground arith, e))
  ]
]

-- The challenge of the session stays, or is inserted, or takes the place of one.
sudo_challenge-cases :
    (D : Timestamps) (token id did : String) (now : ℕ) (w : SessionDb)
    → let row = new_challenge D token did (some id) false now in
      let after = (get_or_create_sudo_challenge D token id did now w).1 in
      (after ≡ w)
      ⊎ (after ≡ (insert_challenge D row w).1)
      ⊎ ((old : String) × (after ≡ (insert_challenge D row (delete_verify_challenge old w)).1))
unfolding get_or_create_sudo_challenge
sudo_challenge-cases D token id did now w =
    elim (Option-cases (first (for_session id) w.challenges)) [
      | inl e ↦ inr (inl (ground arith))
      | inr (k, e) ↦ elim (Bool-cases (ltb now k.expires_at)) [
        | inl t ↦ inl (ground arith)
        | inr t ↦ inr (inr (k.token, ground arith))
      ]
    ]

-- A challenge is unknown, or has expired and is deleted, or is found.
pub get_verify_challenge-cases :
    (token : String) (now : ℕ) (w : SessionDb)
    → (get_verify_challenge token now w ≡ (none, w))
      ⊎ (get_verify_challenge token now w ≡ (none, delete_verify_challenge token w))
      ⊎ ((row : VerifyChallenge) × (get_verify_challenge token now w ≡ (some row, w))
          × (first (with_token token) w.challenges ≡ some row))
unfolding get_verify_challenge
get_verify_challenge-cases token now w =
    elim (Option-cases (first (with_token token) w.challenges)) [
      | inl e ↦ inl (ground arith)
      | inr (k, e) ↦ elim (Bool-cases (leb k.expires_at now)) [
        | inl t ↦ inr (inl (ground arith))
        | inr t ↦ inr (inr (k, ground arith, e))
      ]
    ]

module _ (log : List Proof) (w : SessionDb) (b : Backed log w) where
  -- Other sessions, of which the challenges ask no more than of the present ones.
  with_sessions :
      (rows : List WebSession)
      → UniqueIds rows
      → All (SessionFits log) rows
      → ((id did : String) → All (Belongs id did) w.sessions → All (Belongs id did) rows)
      → Backed log (record w { sessions = rows })
  with_sessions rows u h f = record {
    ids = u;
    sessions = h;
    challenges =
        All-map (ChallengeFits log w.sessions) (ChallengeFits log rows)
          (λ k c.
            ChallengeFor-sessions log w.sessions rows k.session_id k.did (λ id _. f id k.did) c)
          w.challenges b.challenges;
  }

  pub delete_web_session-Backed : (id : String) → Backed log (delete_web_session id w)
  unfolding delete_web_session
  delete_web_session-Backed id =
      with_sessions (delete (with_id id) w.sessions)
        (delete-UniqueIds (with_id id) w.sessions b.ids)
        (delete-All (SessionFits log) (with_id id) w.sessions b.sessions)
        λ i did. delete-All (Belongs i did) (with_id id) w.sessions

  -- A session is raised that was confirmed.
  pub elevate_session-Backed :
      (D : Timestamps) (id did : String) (now : ℕ)
      → All (Belongs id did) w.sessions
      → Confirmed log did
      → Backed log (elevate_session D id now w)
  unfolding elevate_session update
  elevate_session-Backed D id did now h c =
      with_sessions (update (with_id id) (elevate D now) w.sessions)
        (update-UniqueIds (with_id id) (elevate D now) w.sessions (λ x. refl) b.ids)
        (raised w.sessions h b.sessions)
        λ i other. update-All (Belongs i other) (with_id id) (elevate D now) w.sessions λ x _ k. k
    where
      raised :
          (rows : List WebSession)
          → All (Belongs id did) rows
          → All (SessionFits log) rows
          → All (SessionFits log) (update (with_id id) (elevate D now) rows)
      raised [] f g = tt
      raised (x ∷ xs) f g = elim (Bool-cases (with_id id x)) [
        | inl e ↦ rw e (
          (g.0.0, inr (subst (Confirmed log) (sym (f.0 (str_eq→eq x.id id e))) c)),
          raised xs f.1 g.1,
        )
        | inr e ↦ rw e (g.0, raised xs f.1 g.1)
      ]

  -- A session of an account that was signed in to, whose id no challenge names.
  pub create_web_session-Backed :
      (D : Timestamps) (hmac : String → Bytes) (to_base64url : Bytes → String)
      (o : CreateWebSessionOptions) (id : String) (now : ℕ)
      → SignedIn log o.did
      → All (λ (row : VerifyChallenge). row.session_id ≢ some id) w.challenges
      → Backed log (create_web_session D hmac to_base64url o id now w).1
  unfolding create_web_session
  create_web_session-Backed D hmac to_base64url o id now h fresh =
      elim (Bool-cases (is_some (first (with_id id) w.sessions))) [
        | inl e ↦ rw e b
        | inr e ↦ rw e (record {
          ids =
              append-UniqueIds w.sessions (new_session D o id now)
                (is_some-false (first (with_id id) w.sessions) e) b.ids;
          sessions =
              All-append (SessionFits log) w.sessions (new_session D o id now ∷ []) b.sessions
                ((h, inl refl), tt);
          challenges = asked w.challenges b.challenges fresh;
        })
      ]
    where
      asked :
          (ks : List VerifyChallenge)
          → All (ChallengeFits log w.sessions) ks
          → All (λ (row : VerifyChallenge). row.session_id ≢ some id) ks
          → All (ChallengeFits log (w.sessions ++ new_session D o id now ∷ [])) ks
      asked [] f g = tt
      asked (k ∷ ks) f g = (
        ChallengeFor-sessions log w.sessions (w.sessions ++ new_session D o id now ∷ [])
            k.session_id k.did
            (λ i e all.
              All-append (Belongs i k.did) w.sessions (new_session D o id now ∷ []) all
                ((λ same. absurd (g.0 (e ∙ ap some (sym same)))), tt))
            f.0,
        asked ks f.1 g.1,
      )

  -- Other challenges of the same sessions.
  with_challenges :
      (ks : List VerifyChallenge)
      → All (ChallengeFits log w.sessions) ks
      → Backed log (record w { challenges = ks })
  with_challenges ks h = record { ids = b.ids; sessions = b.sessions; challenges = h }

  pub delete_verify_challenge-Backed :
      (token : String) → Backed log (delete_verify_challenge token w)
  unfolding delete_verify_challenge
  delete_verify_challenge-Backed token =
      with_challenges (delete (with_token token) w.challenges)
        (delete-All (ChallengeFits log w.sessions) (with_token token) w.challenges b.challenges)

  pub cleanup-Backed : (D : Timestamps) (now : ℕ) → Backed log (cleanup_verify_challenges D now w)
  unfolding cleanup_verify_challenges
  cleanup-Backed D now =
      let expired = λ (row : VerifyChallenge). leb row.expires_at (D.stored now) in
      with_challenges (delete expired w.challenges)
        (delete-All (ChallengeFits log w.sessions) expired w.challenges b.challenges)

  pub set_webauthn-Backed :
      (token challenge : String) → Backed log (set_verify_challenge_webauthn token challenge w)
  unfolding set_verify_challenge_webauthn
  set_webauthn-Backed token challenge =
      let f = λ (row : VerifyChallenge). record row { webauthn_challenge = some challenge } in
      with_challenges (update (with_token token) f w.challenges) (
        update-All (ChallengeFits log w.sessions) (with_token token) f w.challenges (λ x _ k. k)
          b.challenges)

  pub insert_challenge-Backed :
      (D : Timestamps) (row : VerifyChallenge)
      → ChallengeFits log w.sessions row
      → Backed log (insert_challenge D row w).1
  unfolding insert_challenge
  insert_challenge-Backed D row h =
      elim (Bool-cases (is_some (first (with_token row.token) w.challenges))) [
        | inl e ↦ rw e b
        | inr e ↦ rw e (
            with_challenges (w.challenges ++ row ∷ []) (
              All-append (ChallengeFits log w.sessions) w.challenges (row ∷ []) b.challenges
                (h, tt)))
      ]

  -- A challenge that is presented leaves the tables in order.
  pub get_verify_challenge-Backed :
      (token : String) (now : ℕ) → Backed log (get_verify_challenge token now w).1
  get_verify_challenge-Backed token now = elim (get_verify_challenge-cases token now w) [
    | inl e ↦ subst (λ r. Backed log r.1) (sym e) b
    | inr (inl e) ↦ subst (λ r. Backed log r.1) (sym e) (delete_verify_challenge-Backed token)
    | inr (inr (row, e, f)) ↦ subst (λ r. Backed log r.1) (sym e) b
  ]

  -- What holds of a challenge that is not found, with tables in order, and of one that fits, with the
  -- tables as they are, holds of what is presented.
  pub presented {κ} :
      (P : Option VerifyChallenge × SessionDb → Type κ) (token : String) (now : ℕ)
      → ((v : SessionDb) → Backed log v → P (none, v))
      → ((row : VerifyChallenge) → ChallengeFits log w.sessions row → P (some row, w))
      → P (get_verify_challenge token now w)
  presented P token now f g = elim (get_verify_challenge-cases token now w) [
    | inl e ↦ subst P (sym e) (f w b)
    | inr (inl e) ↦
        subst P (sym e) (f (delete_verify_challenge token w) (delete_verify_challenge-Backed token))
    | inr (inr (k, e, first_is)) ↦ subst P (sym e) (
        g k
          (first-All (ChallengeFits log w.sessions) (with_token token) w.challenges k b.challenges
            first_is).0)
  ]

-- The challenge of a session that was found, for the account that it is of.
pub sudo_challenge-Backed :
    (log : List Proof) (w : SessionDb) (D : Timestamps) (token id : String) (session : WebSession)
    (now : ℕ)
    → Backed log w
    → first (with_id id) w.sessions ≡ some session
    → Backed log (get_or_create_sudo_challenge D token session.id session.did now w).1
unfolding delete_verify_challenge
sudo_challenge-Backed log w D token id session now b found =
    let row = new_challenge D token session.did (some session.id) false now in
    let fits = first-Belongs id w.sessions session b.ids found in
    elim (sudo_challenge-cases D token session.id session.did now w) [
      | inl e ↦ subst (Backed log) (sym e) b
      | inr (inl e) ↦ subst (Backed log) (sym e) (insert_challenge-Backed log w b D row fits)
      | inr (inr (old, e)) ↦ subst (Backed log) (sym e) (
          insert_challenge-Backed log (delete_verify_challenge old w)
            (delete_verify_challenge-Backed log w b old) D row fits)
    ]
