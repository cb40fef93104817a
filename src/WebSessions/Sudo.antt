-- ===== src/WebSessions/Sudo.antt =====
-- packages/danaus/src/accounts/web-sessions.ts: the challenge that lifts a session to sudo mode.
use danaus.Prelude.{
  ℕ, ◌+◌, ◌≤◌, ◌<◌, ◌≡◌, refl, sym, subst, ◌∙◌, String, Bool, true, false, Option, none, some, List,
  [], ◌∷◌, ◌++◌, arith, str_eq_refl, str_eq→eq, ltb, Bool-cases, Option-cases, inl, inr,
}
use mathlib.Core.Option.{some-injective}
use danaus.Table.{Timestamps, first, count, delete, select}
use danaus.Table.Rows.{first-append_none, first-holds}
use danaus.Table.Counts.{count-delete-le, first-none-count, insert-le_one}
use danaus.WebSessions.{
  VerifyChallenge, SessionDb, for_session, with_token, mfa_challenge_ttl, new_challenge,
  insert_challenge, delete_verify_challenge, get_or_create_sudo_challenge,
}

-- A session has at most one challenge.
abbrev pub OneChallenge : SessionDb → Type 0
OneChallenge s = (id : String) → count (for_session id) s.challenges ≤ 1

-- The only row that meets a test is deleted with the rows that meet another.
first-delete_only :
    {A : Type 0} (p q : A → Bool) (rows : List A) (x : A)
    → count p rows ≤ 1
    → first p rows ≡ some x
    → q x ≡ true
    → first p (delete q rows) ≡ none
unfolding first select delete
first-delete_only p q [] x h e k = refl
first-delete_only p q (y ∷ ys) x h e k = elim (Bool-cases (p y)) [
  | inr f ↦ ground (arith, first-delete_only p q ys x)
  | inl t ↦
      let same : y ≡ x = ground arith in
      let gone : q y ≡ true = subst (λ z. q z ≡ true) (sym same) k in
      let rest : count p (delete q ys) ≤ 0 = ground (arith, count-delete-le p q ys) in
      ground (arith, first-none-count p (delete q ys) rest)
]

module _ (D : Timestamps) where
  abbrev sudo_row : String → String → String → ℕ → VerifyChallenge
  sudo_row token id did now = new_challenge D token did (some id) false now

  kept :
      (token id did : String) (now : ℕ) (s : SessionDb) (c : VerifyChallenge)
      → first (for_session id) s.challenges ≡ some c
      → now < c.expires_at
      → get_or_create_sudo_challenge D token id did now s ≡ (some c, s)
  unfolding get_or_create_sudo_challenge
  kept token id did now s c e h = ground arith

  made :
      (token id did : String) (now : ℕ) (s : SessionDb)
      → first (for_session id) s.challenges ≡ none
      → get_or_create_sudo_challenge D token id did now s
        ≡ insert_challenge D (sudo_row token id did now) s
  unfolding get_or_create_sudo_challenge
  made token id did now s e = ground arith

  replaced :
      (token id did : String) (now : ℕ) (s : SessionDb) (c : VerifyChallenge)
      → first (for_session id) s.challenges ≡ some c
      → c.expires_at ≤ now
      → get_or_create_sudo_challenge D token id did now s
        ≡ insert_challenge D (sudo_row token id did now) (delete_verify_challenge c.token s)
  unfolding get_or_create_sudo_challenge
  replaced token id did now s c e h = ground arith

  -- The outcomes of a call: a live challenge is handed out and nothing changes, or a new one is
  -- inserted where the session has none left, or the token is taken and the INSERT throws.
  data Sudo (token id did : String) (now : ℕ) : Option VerifyChallenge × SessionDb → Type 0 where
    live :
        (s : SessionDb) (c : VerifyChallenge)
        → first (for_session id) s.challenges ≡ some c
        → now < c.expires_at
        → OneChallenge s
        → Sudo token id did now (some c, s)
    inserted :
        (s : SessionDb)
        → first (for_session id) s.challenges ≡ none
        → OneChallenge s
        → Sudo token id did now (
          some (sudo_row token id did now),
          record s { challenges = s.challenges ++ sudo_row token id did now ∷ [] },
        )
    refused : (s : SessionDb) → OneChallenge s → Sudo token id did now (none, s)

  insert-throws :
      (row c : VerifyChallenge) (s : SessionDb)
      → first (with_token row.token) s.challenges ≡ some c
      → insert_challenge D row s ≡ (none, s)
  unfolding insert_challenge
  insert-throws row c s e = ground arith

  insert-adds :
      (row : VerifyChallenge) (s : SessionDb)
      → first (with_token row.token) s.challenges ≡ none
      → insert_challenge D row s ≡ (some row, record s { challenges = s.challenges ++ row ∷ [] })
  unfolding insert_challenge
  insert-adds row s e = ground arith

  insert-Sudo :
      (token id did : String) (now : ℕ) (s : SessionDb)
      → first (for_session id) s.challenges ≡ none
      → OneChallenge s
      → Sudo token id did now (insert_challenge D (sudo_row token id did now) s)
  insert-Sudo token id did now s e o = elim (Option-cases (first (with_token token) s.challenges)) [
    | inl k ↦
        subst (Sudo token id did now) (sym (insert-adds (sudo_row token id did now) s k))
          (inserted s e o)
    | inr (c, k) ↦
        subst (Sudo token id did now) (sym (insert-throws (sudo_row token id did now) c s k))
          (refused s o)
  ]

  call-Sudo :
      (token id did : String) (now : ℕ) (s : SessionDb)
      → OneChallenge s
      → Sudo token id did now (get_or_create_sudo_challenge D token id did now s)
  unfolding delete_verify_challenge
  call-Sudo token id did now s o = elim (Option-cases (first (for_session id) s.challenges)) [
    | inl e ↦
        subst (Sudo token id did now) (sym (made token id did now s e))
          (insert-Sudo token id did now s e o)
    | inr (c, e) ↦ elim (Bool-cases (ltb now c.expires_at)) [
      | inl h ↦
          subst (Sudo token id did now) (sym (kept token id did now s c e (ground arith)))
            (live s c e (ground arith) o)
      | inr h ↦
          let rows = s.challenges in
          subst (Sudo token id did now) (sym (replaced token id did now s c e (ground arith))) (
            insert-Sudo token id did now (delete_verify_challenge c.token s)
              (first-delete_only (for_session id) (with_token c.token) rows c (o id) e
                (str_eq_refl c.token))
              (λ i. omega (arith, count-delete-le (for_session i) (with_token c.token) rows, o i)))
    ]
  ]

  added-found :
      (token id did : String) (now : ℕ) (rows : List VerifyChallenge)
      → first (for_session id) rows ≡ none
      → first (for_session id) (rows ++ sudo_row token id did now ∷ [])
        ≡ some (sudo_row token id did now)
  unfolding first
  added-found token id did now rows e =
      first-append_none (for_session id) rows (sudo_row token id did now ∷ []) e
      ∙ ground (arith, str_eq_refl id)

  added-one :
      (token id did : String) (now : ℕ) (rows : List VerifyChallenge)
      → first (for_session id) rows ≡ none
      → ((i : String) → count (for_session i) rows ≤ 1)
      → (i : String) → count (for_session i) (rows ++ sudo_row token id did now ∷ []) ≤ 1
  added-one token id did now rows e o i =
      insert-le_one (for_session i) rows (sudo_row token id did now)
        (λ k. subst (λ j. first (for_session j) rows ≡ none) (str_eq→eq id i k) e) (o i)

  Sudo-found :
      (token id did : String) (now : ℕ) (r : Option VerifyChallenge × SessionDb)
      (c : VerifyChallenge)
      → Sudo token id did now r
      → r.0 ≡ some c
      → (first (for_session id) r.1.challenges ≡ some c) × (now < c.expires_at)
  Sudo-found token id did now _ c (live s d e h o) k =
      let same = some-injective d c k in
      (e ∙ k, subst (λ (x : VerifyChallenge). now < x.expires_at) same h)
  Sudo-found token id did now _ c (inserted s e o) k =
      let row = sudo_row token id did now in
      (
        added-found token id did now s.challenges e ∙ k,
        subst (λ (x : VerifyChallenge). now < x.expires_at) (some-injective row c k)
            (omega (arith, D.lt-stored (now + mfa_challenge_ttl))),
      )
  Sudo-found token id did now _ c (refused s o) k = cc

  Sudo-OneChallenge :
      (token id did : String) (now : ℕ) (r : Option VerifyChallenge × SessionDb)
      → Sudo token id did now r
      → OneChallenge r.1
  Sudo-OneChallenge token id did now _ (live s d e h o) = o
  Sudo-OneChallenge token id did now _ (inserted s e o) =
      added-one token id did now s.challenges e o
  Sudo-OneChallenge token id did now _ (refused s o) = o

  -- Where a session has at most one challenge, it has at most one after
  -- `getOrCreateSudoChallenge`, whether the call returns or throws.
  pub sudo_challenge-OneChallenge :
      (token id did : String) (now : ℕ) (s : SessionDb)
      → OneChallenge s
      → OneChallenge (get_or_create_sudo_challenge D token id did now s).1
  sudo_challenge-OneChallenge token id did now s o =
      Sudo-OneChallenge token id did now _ (call-Sudo token id did now s o)

  -- Where a session has at most one challenge, what `getOrCreateSudoChallenge` returns is live and
  -- is the challenge of the session.
  sudo_challenge-live :
      (token id did : String) (now : ℕ) (s : SessionDb) (c : VerifyChallenge)
      → OneChallenge s
      → (get_or_create_sudo_challenge D token id did now s).0 ≡ some c
      → (for_session id c ≡ true) × (now < c.expires_at)
  sudo_challenge-live token id did now s c o e =
      let (f, h) = Sudo-found token id did now _ c (call-Sudo token id did now s o) e in
      (first-holds (for_session id) _ c f, h)

  -- Where a session has at most one challenge, a later call returns the same challenge, and changes
  -- nothing, until the challenge expires.
  pub sudo_challenge-stable :
      (token id did : String) (now : ℕ) (s : SessionDb) (c : VerifyChallenge)
      (other_token other_did : String) (later : ℕ)
      → OneChallenge s
      → (get_or_create_sudo_challenge D token id did now s).0 ≡ some c
      → later < c.expires_at
      → get_or_create_sudo_challenge D other_token id other_did later
          (get_or_create_sudo_challenge D token id did now s).1
        ≡ (some c, (get_or_create_sudo_challenge D token id did now s).1)
  sudo_challenge-stable token id did now s c other_token other_did later o e h =
      kept other_token id other_did later _ c
        (Sudo-found token id did now _ c (call-Sudo token id did now s o) e).0 h
