-- ===== src/WebSessions/Lifetime.antt =====
-- packages/danaus/src/accounts/web-sessions.ts: how long a session and its sudo mode last.
use danaus.Prelude.{
  ℕ, ◌+◌, ◌≤◌, ◌<◌, ◌≡◌, refl, ap, ◌∙◌, String, true, false, none, some, List, [], ◌∷◌, ◌++◌, arith,
  All, str_eq_refl, Bool-cases, inl, inr,
}
use danaus.SeqEvent.{Bytes}
use danaus.Table.{Timestamps, first, update}
use danaus.Table.Rows.{first-append_none, first-All}
use danaus.WebSessions.{
  WebSession, SessionDb, CreateWebSessionOptions, session_ttl, sudo_mode_ttl, with_id,
  get_web_session, is_session_elevated, new_session, create_web_session, elevate, elevate_session,
}

module _ (D : Timestamps) (hmac : String → Bytes) (to_base64url : Bytes → String) where
  created :
      (o : CreateWebSessionOptions) (id : String) (t : ℕ) (s : SessionDb)
      → first (with_id id) s.sessions ≡ none
      → (create_web_session D hmac to_base64url o id t s).1
        ≡ record s { sessions = s.sessions ++ new_session D o id t ∷ [] }
  unfolding create_web_session
  created o id t s e = ground arith

  stands :
      (o : CreateWebSessionOptions) (id : String) (t : ℕ) (rows : List WebSession)
      → first (with_id id) rows ≡ none
      → first (with_id id) (rows ++ new_session D o id t ∷ []) ≡ some (new_session D o id t)
  unfolding first
  stands o id t rows e =
      first-append_none (with_id id) rows (new_session D o id t ∷ []) e
      ∙ ground (arith, str_eq_refl id)

  get-live :
      (id : String) (now : ℕ) (s : SessionDb) (row : WebSession)
      → first (with_id id) s.sessions ≡ some row
      → now < row.expires_at
      → (get_web_session id now s).0 ≡ some row
  unfolding get_web_session
  get-live id now s row e h = ground arith

  get-expired :
      (id : String) (now : ℕ) (s : SessionDb) (row : WebSession)
      → first (with_id id) s.sessions ≡ some row
      → row.expires_at ≤ now
      → (get_web_session id now s).0 ≡ none
  unfolding get_web_session
  get-expired id now s row e h = ground arith

  -- A session whose id was not in use is found again, as it was created, up to a second before its
  -- seven days are over, or its 365 days if it is to be remembered.
  pub web_session-lives :
      (o : CreateWebSessionOptions) (id : String) (t now : ℕ) (s : SessionDb)
      → first (with_id id) s.sessions ≡ none
      → now + 1000 ≤ t + session_ttl o.remember
      → (get_web_session id now (create_web_session D hmac to_base64url o id t s).1).0
        ≡ some (new_session D o id t)
  web_session-lives o id t now s e h =
      ap (λ d. (get_web_session id now d).0) (created o id t s e)
      ∙ get-live id now (record s { sessions = s.sessions ++ new_session D o id t ∷ [] })
          (new_session D o id t) (stands o id t s.sessions e)
          (omega (arith, D.lt-stored (t + session_ttl o.remember)))

  -- A session whose id was not in use is not found once its seven days are over, or its 365 days if
  -- it is to be remembered.
  pub web_session-expires :
      (o : CreateWebSessionOptions) (id : String) (t now : ℕ) (s : SessionDb)
      → first (with_id id) s.sessions ≡ none
      → t + session_ttl o.remember ≤ now
      → (get_web_session id now (create_web_session D hmac to_base64url o id t s).1).0 ≡ none
  web_session-expires o id t now s e h =
      ap (λ d. (get_web_session id now d).0) (created o id t s e)
      ∙ get-expired id now (record s { sessions = s.sessions ++ new_session D o id t ∷ [] })
          (new_session D o id t) (stands o id t s.sessions e)
          (omega (arith, D.stored-le (t + session_ttl o.remember)))

module _ (D : Timestamps) where
  got-first :
      (id : String) (now : ℕ) (s : SessionDb) (row : WebSession)
      → (get_web_session id now s).0 ≡ some row
      → first (with_id id) s.sessions ≡ some row
  unfolding get_web_session
  got-first id now s row e = ground (arith, e)

  marked :
      (id : String) (t : ℕ) (rows : List WebSession)
      → All
          (λ (x : WebSession). with_id id x ≡ true → x.sudo_at ≡ some (D.stored t))
          (update (with_id id) (elevate D t) rows)
  unfolding update
  marked id t [] = tt
  marked id t (x ∷ xs) = elim (Bool-cases (with_id id x)) [
    | inl e ↦ rw e ((λ k. refl), marked id t xs)
    | inr e ↦ rw e ((λ k. cc (e, k)), marked id t xs)
  ]

  -- A session that was lifted to sudo mode is back to normal fifteen minutes later and from then on.
  pub sudo_mode-ends :
      (id : String) (t now : ℕ) (s : SessionDb) (row : WebSession)
      → (get_web_session id now (elevate_session D id t s)).0 ≡ some row
      → t + sudo_mode_ttl ≤ now
      → is_session_elevated now row ≡ false
  unfolding elevate_session is_session_elevated
  sudo_mode-ends id t now s row e h =
      let rows = update (with_id id) (elevate D t) s.sessions in
      let (lifted, mine) =
        first-All _ (with_id id) rows row (marked id t s.sessions)
          (got-first id now (record s { sessions = rows }) row e) in
      rw (lifted mine) (ground (arith, D.stored-le t))
