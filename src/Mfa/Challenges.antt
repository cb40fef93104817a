-- ===== src/Mfa/Challenges.antt =====
-- packages/danaus/src/accounts/mfa.ts, the regions on WebAuthn registration challenges and on
-- passkey login challenges. The random token of `nanoid` is an argument. An INSERT that repeats a
-- primary key throws.
use danaus.Prelude.{
  is_some, ℕ, ◌+◌, ◌*◌, String, Bool, Option, none, some, [], ◌∷◌, ◌++◌, if◌then◌else◌, leb, str_eq,
}
use danaus.Table.{Timestamps, first, delete}
use danaus.Mfa.{
  MfaDb, RegistrationChallenge, PasskeyLoginChallenge, Result, fail, ok, constraint_failed,
}

-- WEBAUTHN_CHALLENGE_TTL_MS
abbrev pub challenge_ttl : ℕ
challenge_ttl = 5 * 60 * 1000

abbrev pub with_token : String → RegistrationChallenge → Bool
with_token token row = str_eq row.token token

abbrev pub with_challenge : String → PasskeyLoginChallenge → Bool
with_challenge challenge row = str_eq row.challenge challenge

unfoldable pub delete_registration_challenge : String → MfaDb → MfaDb
delete_registration_challenge token s = record s {
  registration_challenges = delete (with_token token) s.registration_challenges;
}

-- An instant that is read back is compared with the present one in milliseconds.
unfoldable pub get_registration_challenge :
    String → ℕ → MfaDb → Option RegistrationChallenge × MfaDb
unfolding delete_registration_challenge
get_registration_challenge token now s = elim (first (with_token token) s.registration_challenges) [
  | none ↦ (none, s)
  | some c ↦
      if leb c.expires_at now then (none, delete_registration_challenge token s) else (some c, s)
]

module _ (D : Timestamps) where
  unfoldable pub create_registration_challenge :
      String → String → String → ℕ → MfaDb → Result String × MfaDb
  create_registration_challenge token did challenge now s =
      if is_some (first (with_token token) s.registration_challenges)
      then (fail constraint_failed, s)
      else (
        ok token,
        record s {
          registration_challenges =
              s.registration_challenges
              ++ record {
                token = token;
                did = did;
                challenge = challenge;
                created_at = D.stored now;
                expires_at = D.stored (now + challenge_ttl);
              }
                ∷ [];
        },
      )

  -- An instant that a query is given is written like a stored one.
  unfoldable pub cleanup_registration_challenges : ℕ → MfaDb → MfaDb
  cleanup_registration_challenges now s = record s {
    registration_challenges =
        delete (λ (row : RegistrationChallenge). leb row.expires_at (D.stored now))
          s.registration_challenges;
  }

  unfoldable pub create_passkey_login_challenge : String → ℕ → MfaDb → Result (Unit {0}) × MfaDb
  create_passkey_login_challenge challenge now s =
      if is_some (first (with_challenge challenge) s.passkey_challenges)
      then (fail constraint_failed, s)
      else (
        ok tt,
        record s {
          passkey_challenges =
              s.passkey_challenges
              ++ record {
                challenge = challenge;
                created_at = D.stored now;
                expires_at = D.stored (now + challenge_ttl);
              }
                ∷ [];
        },
      )

  abbrev pub passkey_expired : ℕ → PasskeyLoginChallenge → Bool
  passkey_expired now row = leb row.expires_at (D.stored now)

  unfoldable pub consume_passkey_login_challenge : String → ℕ → MfaDb → Bool × MfaDb
  consume_passkey_login_challenge challenge now s =
      let live = delete (passkey_expired now) s.passkey_challenges in
      (
        is_some (first (with_challenge challenge) live),
        record s { passkey_challenges = delete (with_challenge challenge) live },
      )
