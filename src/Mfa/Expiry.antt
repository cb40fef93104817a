-- ===== src/Mfa/Expiry.antt =====
-- packages/danaus/src/accounts/mfa.ts: how long a passkey login challenge can be used, and how often.
use danaus.Prelude.{
  is_some, ℕ, ◌+◌, ◌≤◌, ◌≡◌, ap, ◌∙◌, String, Bool, true, false, none, List, [], ◌∷◌, ◌++◌, arith,
  ltb, str_eq_refl,
}
use danaus.Table.{Timestamps, first, delete}
use danaus.Table.Rows.{delete-All, delete-misses, first-none_of}
use danaus.Mfa.{MfaDb, PasskeyLoginChallenge, ok}
use danaus.Mfa.Challenges.{
  challenge_ttl, with_challenge, create_passkey_login_challenge, passkey_expired,
  consume_passkey_login_challenge,
}

module _ (D : Timestamps) where
  -- A challenge is good for one login: whenever it is presented again, it is refused.
  pub consume_passkey_login_challenge-once :
      (challenge : String) (now later : ℕ) (s : MfaDb)
      → (consume_passkey_login_challenge D challenge later
          (consume_passkey_login_challenge D challenge now s).1).0
        ≡ false
  unfolding consume_passkey_login_challenge
  consume_passkey_login_challenge-once challenge now later s = ap is_some (
      first-none_of (with_challenge challenge) _ (
        delete-All _ (passkey_expired D later) _ (
          delete-misses (with_challenge challenge)
            (delete (passkey_expired D now) s.passkey_challenges))))

  delete-append_one :
      (p : PasskeyLoginChallenge → Bool) (xs : List PasskeyLoginChallenge)
      (x : PasskeyLoginChallenge)
      → delete p (xs ++ x ∷ []) ≡ delete p xs ++ delete p (x ∷ [])
  unfolding delete
  delete-append_one p [] x = ground arith
  delete-append_one p (y ∷ ys) x = ground (arith, delete-append_one p ys x)

  abbrev login : String → ℕ → PasskeyLoginChallenge
  login challenge t = record {
    challenge = challenge;
    created_at = D.stored t;
    expires_at = D.stored (t + challenge_ttl);
  }

  created :
      (challenge : String) (t : ℕ) (s : MfaDb)
      → first (with_challenge challenge) s.passkey_challenges ≡ none
      → create_passkey_login_challenge D challenge t s
        ≡ (ok tt, record s { passkey_challenges = s.passkey_challenges ++ login challenge t ∷ [] })
  unfolding create_passkey_login_challenge
  created challenge t s e = ground arith

  found :
      (challenge : String) (t now : ℕ) (rows : List PasskeyLoginChallenge)
      → first (with_challenge challenge) rows ≡ none
      → is_some (
          first
            (with_challenge challenge)
            (delete (passkey_expired D now) (rows ++ login challenge t ∷ [])))
        ≡ ltb (D.stored now) (D.stored (t + challenge_ttl))
  unfolding first delete
  found challenge t now [] e = ground (arith, str_eq_refl challenge)
  found challenge t now (x ∷ xs) e = ground (arith, found challenge t now xs)

  -- A new challenge that is presented at `now` is accepted exactly if the whole second of `now`
  -- lies before the one in which it expires.
  accepted_while :
      (challenge : String) (t now : ℕ) (s : MfaDb)
      → first (with_challenge challenge) s.passkey_challenges ≡ none
      → (consume_passkey_login_challenge D challenge now
          (create_passkey_login_challenge D challenge t s).1).0
        ≡ ltb (D.stored now) (D.stored (t + challenge_ttl))
  unfolding consume_passkey_login_challenge
  accepted_while challenge t now s e =
      ap (λ (r : _). (consume_passkey_login_challenge D challenge now r.1).0)
        (created challenge t s e)
      ∙ found challenge t now s.passkey_challenges e

  -- A challenge that was created at `t`, when no challenge had its text, is accepted if it is
  -- presented a second or more before the five minutes are over.
  login_challenge-accepted :
      (challenge : String) (t now : ℕ) (s : MfaDb)
      → first (with_challenge challenge) s.passkey_challenges ≡ none
      → now + 1000 ≤ t + challenge_ttl
      → (consume_passkey_login_challenge D challenge now
          (create_passkey_login_challenge D challenge t s).1).0
        ≡ true
  login_challenge-accepted challenge t now s e h =
      accepted_while challenge t now s e
      ∙ ground (arith, D.stored-le now, D.lt-stored (t + challenge_ttl))

  -- A challenge that was created at `t`, when no challenge had its text, is refused five minutes
  -- later and from then on.
  login_challenge-refused :
      (challenge : String) (t now : ℕ) (s : MfaDb)
      → first (with_challenge challenge) s.passkey_challenges ≡ none
      → t + challenge_ttl ≤ now
      → (consume_passkey_login_challenge D challenge now
          (create_passkey_login_challenge D challenge t s).1).0
        ≡ false
  login_challenge-refused challenge t now s e h =
      accepted_while challenge t now s e ∙ ground (arith, D.stored_mono (t + challenge_ttl) now h)
