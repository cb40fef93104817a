-- ===== src/LegacyAuth/Rotation.antt =====
-- packages/danaus/src/accounts/legacy-auth.ts: rotating a refresh token, and rotating it again while
-- it is in its grace period.
use mathlib.Core.Option.{some-injective}
use danaus.Prelude.{
  ℕ, suc, ◌<◌, String, ◌≡◌, refl, ap, subst, ◌∙◌, Bool, true, false, ◌==◌, some, List, [], ◌∷◌,
  arith, str_eq_refl, leb, Result, ok, Bool-cases, Option-cases, inl, inr,
}
use danaus.Table.{Timestamps, first, update, delete, any}
use danaus.Table.Rows.{first-append_some, first-holds}
use danaus.Accounts.{LegacySession}
use danaus.LegacyAuth.{
  AppPassword, LegacyDb, TokenClaims, LegacySessionTokens, with_id, sessions, set_sessions,
  issue_legacy_tokens, joined, or_id, is_expired, may_rotate, rotated, insert_session, new_session,
  shortened, rotate_legacy_refresh, LegacyError,
}

module _ {ℓ} {A : Type ℓ} where
  first-delete_kept :
      (p q : A → Bool) (xs : List A) (x : A)
      → first p xs ≡ some x
      → q x ≡ false
      → first p (delete q xs) ≡ some x
  unfolding first delete
  first-delete_kept p q [] x e k = absurd (cc)
  first-delete_kept p q (y ∷ ys) x e k = elim (Bool-cases (p y)) [
    | inl t ↦
        let same : y ≡ x = some-injective y x (ground (arith, e, t)) in
        let kept : q y ≡ false = ap q same ∙ k in ground (arith, t, kept, e)
    | inr t ↦ ground (arith, t, first-delete_kept p q ys x (ground (arith, e, t)) k)
  ]

  -- Only rows that the test finds are updated.
  first-update-some :
      (p q : A → Bool) (f : A → A) (xs : List A) (x : A)
      → ((y : A) → p y ≡ false → q y ≡ false)
      → first p xs ≡ some x
      → q x ≡ true
      → p (f x) ≡ true
      → first p (update q f xs) ≡ some (f x)
  unfolding first update
  first-update-some p q f [] x k e t h = absurd (cc)
  first-update-some p q f (y ∷ ys) x k e t h = elim (Bool-cases (p y)) [
    | inl a ↦
        let same : y ≡ x = some-injective y x (ground (arith, e, a)) in
        let found : q y ≡ true = ap q same ∙ t in
        let kept : p (f y) ≡ true = ap p (ap f same) ∙ h in
        ground (arith, found, kept) ∙ ap (λ z. some (f z)) same
    | inr a ↦ ground (arith, a, k y, first-update-some p q f ys x k (ground (arith, e, a)) t h)
  ]

  any-of_first :
      (p q : A → Bool) (xs : List A) (x : A) → first p xs ≡ some x → q x ≡ true → any q xs ≡ true
  unfolding first any
  any-of_first p q [] x e t = absurd (cc)
  any-of_first p q (y ∷ ys) x e t = elim (Bool-cases (p y)) [
    | inl a ↦
        let same : y ≡ x = some-injective y x (ground (arith, e, a)) in
        let found : q y ≡ true = ap q same ∙ t in ground (arith, found)
    | inr a ↦ ground (arith, any-of_first p q ys x (ground (arith, e, a)) t)
  ]

first-insert_session :
    (p : LegacySession → Bool) (new row : LegacySession) (rows : List LegacySession)
    → first p rows ≡ some row
    → first p (insert_session new rows) ≡ some row
first-insert_session p new row rows e = elim (Bool-cases (any (with_id new.id) rows)) [
  | inl t ↦ rw t e
  | inr t ↦ rw t (first-append_some p rows (new ∷ []) row e)
]

may_rotate-joined :
    (id fresh : String) (row : LegacySession)
    → with_id id row ≡ true
    → may_rotate id (or_id row.next_id fresh) row ≡ true
may_rotate-joined id fresh row h = elim (Option-cases row.next_id) [
  | inl e ↦ rw e (ground (arith, h))
  | inr e ↦ rw e.1 (ground (arith, h, str_eq_refl e.0))
]

joined-found :
    (id : String) (s : LegacyDb) (row : LegacySession) (password : AppPassword)
    → joined id s ≡ some (row, password)
    → (first (with_id id) (sessions s) ≡ some row)
      × (first (λ (p : AppPassword). p.id == row.app_password_id) s.app_passwords ≡ some password)
joined-found id s row password h = elim (Option-cases (first (with_id id) (sessions s))) [
  | inl e ↦ absurd (cc (rw (e, joined) at h))
  | inr e ↦
      elim (Option-cases
        (first (λ (p : AppPassword). p.id == e.0.app_password_id) s.app_passwords)) [
          | inl f ↦ absurd (cc (rw (e.1, f, joined) at h))
          | inr f ↦
              let pair : (e.0, f.0) ≡ (row, password) =
                some-injective _ (row, password) (rw (e.1, f.1, joined) at h) in
              let same : e.0 ≡ row = ap (λ (t : LegacySession × AppPassword). t.0) pair in
              (
                e.1 ∙ ap (λ t. some t) same,
                subst
                    (λ (t : LegacySession).
                      first (λ (p : AppPassword). p.id == t.app_password_id) s.app_passwords
                      ≡ some password)
                    same (f.1 ∙ ap (λ (t : LegacySession × AppPassword). some t.1) pair),
              )
        ]
]

module _ (sign : TokenClaims → String) (service_did : String) (D : Timestamps) (id fresh : String)
    (now : ℕ) (s : LegacyDb) (row : LegacySession) (password : AppPassword)
    (found : joined id s ≡ some (row, password)) (live : now < row.expires_at) where
  -- The next session, when the row's own ends, and the state after the call.
  abbrev next : String
  next = or_id row.next_id fresh

  abbrev ends : ℕ
  ends = D.stored (shortened row.expires_at now)

  abbrev remaining : List LegacySession
  remaining = delete (is_expired D row.did now) (sessions s)

  abbrev after : LegacyDb
  after =
      set_sessions
        (insert_session (new_session D next row.did row.app_password_id now)
          (update (may_rotate id next) (rotated next ends) remaining))
        s

  remains : first (with_id id) remaining ≡ some row
  remains =
      first-delete_kept (with_id id) (is_expired D row.did now) (sessions s) row
        (joined-found id s row password found).0 (ground (arith, live, D.stored-le now))

  rotates :
      (fuel : ℕ)
      → rotate_legacy_refresh sign service_did D (suc fuel) id fresh now s
        ≡ (ok (issue_legacy_tokens sign service_did row.did password.privilege next now), after)
  unfolding rotate_legacy_refresh
  rotates fuel =
      let parts = joined-found id s row password found in
      let fresh_row : leb row.expires_at now ≡ false = ground (arith, live) in
      let matched : any (may_rotate id next) remaining ≡ true =
        any-of_first (with_id id) (may_rotate id next) remaining row remains
          (may_rotate-joined id fresh row (first-holds (with_id id) (sessions s) row parts.0)) in
      rw (parts.0, parts.1, fresh_row, matched, rotate_legacy_refresh, joined) refl

  joined-after : joined id after ≡ some (rotated next ends row, password)
  joined-after =
      let parts = joined-found id s row password found in
      let named : with_id id row ≡ true = first-holds (with_id id) (sessions s) row parts.0 in
      let kept =
        first-insert_session (with_id id) (new_session D next row.did row.app_password_id now)
          (rotated next ends row) (update (may_rotate id next) (rotated next ends) remaining)
          (first-update-some (with_id id) (may_rotate id next) (rotated next ends) remaining row
            (λ y e. ground (arith, e)) remains (may_rotate-joined id fresh row named) named) in
      rw (kept, parts.1, joined) refl

-- Where a refresh session has an app password and has not expired, rotating it gives tokens of its
-- next session, in one attempt; and rotating it again, while the lifetime that is left to it has not
-- ended, gives tokens of the same next session.
pub rotate-again :
    (sign : TokenClaims → String) (service_did : String) (D : Timestamps)
    (id fresh fresh_later : String) (now later fuel : ℕ) (s : LegacyDb) (row : LegacySession)
    (password : AppPassword)
    → joined id s ≡ some (row, password)
    → now < row.expires_at
    → later < D.stored (shortened row.expires_at now)
    → ((rotate_legacy_refresh sign service_did D (suc fuel) id fresh now s).0
        ≡ ok (
            issue_legacy_tokens sign service_did row.did password.privilege
              (or_id row.next_id fresh)
              now))
      × ((rotate_legacy_refresh sign service_did D
            (suc fuel)
            id
            fresh_later
            later
            (rotate_legacy_refresh sign service_did D (suc fuel) id fresh now s).1).0
          ≡ ok (
              issue_legacy_tokens sign service_did row.did password.privilege
                (or_id row.next_id fresh)
                later))
rotate-again sign service_did D id fresh fresh_later now later fuel s row password f live grace =
    let once = rotates sign service_did D id fresh now s row password f live fuel in
    let s' = after sign service_did D id fresh now s row password f live in
    let twice =
      rotates sign service_did D id fresh_later later s' _ password
        (joined-after sign service_did D id fresh now s row password f live) grace fuel in
    (
      ap (λ (t : Result LegacyError LegacySessionTokens × LegacyDb). t.0) once,
      rw once (ap (λ (t : Result LegacyError LegacySessionTokens × LegacyDb). t.0) twice),
    )
