-- ===== src/Mfa/Replay.antt =====
-- packages/danaus/src/accounts/totp.ts and mfa.ts: a code is accepted only for a counter of the
-- window that its credential has not used, and that counter is used from then on.
use danaus.Prelude.{
  ℕ, ◌+◌, ◌-◌, ◌≤◌, ◌<◌, ◌≡◌, ◌≢◌, refl, sym, subst, ◌∙◌, String, Bool, true, false, Option, none,
  some, List, [], ◌∷◌, arith, All, Has, str_eq, str_eq→eq, ne-of-str_eq-false, Bool-cases,
  Option-cases, inl, inr, ◌⊎◌, ◌==◌,
}
use danaus.Table.{update}
use danaus.SeqEvent.{Bytes}
use danaus.Totp.{
  generate_hotp, is_totp_code, is_used, match_counter, current_counter, verify_totp_code,
}
use danaus.Mfa.{MfaDb, TotpCredential}
use danaus.Mfa.Totp.{set_counter, try_credentials, verify_account_totp_code, list_totp_credentials}

-- The counters that a code is checked against: the current one and its two neighbours.
abbrev pub window : ℕ → List ℕ
window now = (current_counter now - 1) ∷ current_counter now ∷ (current_counter now + 1) ∷ []

-- Using a counter: the credentials with this id have it as their last.
abbrev pub used : ℕ → ℕ → MfaDb → MfaDb
used id k s = record s {
  totp_credentials =
      update (λ (row : TotpCredential). row.id == id) (set_counter k) s.totp_credentials;
}

module _ (hmac : Bytes → Bytes → Bytes) where
  match_counter-found :
      (P : ℕ → Type 0) (secret : Bytes) (code : String) (last : Option ℕ) (counters : List ℕ)
      (k : ℕ)
      → All P counters
      → match_counter hmac secret code last counters ≡ some k
      → P k × (is_used last k ≡ false) × (generate_hotp hmac secret k ≡ code)
  unfolding match_counter
  match_counter-found P secret code last [] k h e = cc
  match_counter-found P secret code last (c ∷ cs) k h e = elim (Bool-cases (is_used last c)) [
    | inl u ↦ match_counter-found P secret code last cs k h.1 (ground arith)
    | inr u ↦ elim (Bool-cases (str_eq code (generate_hotp hmac secret c))) [
      | inl q ↦
          let same : c ≡ k = ground arith in
          subst (λ n. P n × (is_used last n ≡ false) × (generate_hotp hmac secret n ≡ code)) same
            (h.0, u, sym (str_eq→eq code (generate_hotp hmac secret c) q))
      | inr q ↦ match_counter-found P secret code last cs k h.1 (ground arith)
    ]
  ]

  match_counter-missed :
      (secret : Bytes) (code : String) (last : Option ℕ) (counters : List ℕ)
      → match_counter hmac secret code last counters ≡ none
      → All (λ k. (is_used last k ≡ true) ⊎ (generate_hotp hmac secret k ≢ code)) counters
  unfolding match_counter
  match_counter-missed secret code last [] e = tt
  match_counter-missed secret code last (c ∷ cs) e = elim (Bool-cases (is_used last c)) [
    | inl u ↦ (inl u, match_counter-missed secret code last cs (ground arith))
    | inr u ↦ elim (Bool-cases (str_eq code (generate_hotp hmac secret c))) [
      | inl q ↦ absurd (ground arith)
      | inr q ↦ (
        inr (λ k. ne-of-str_eq-false code (generate_hotp hmac secret c) q (sym k)),
        match_counter-missed secret code last cs (ground arith),
      )
    ]
  ]

  verify-rejects-shape :
      (now : ℕ) (secret : Bytes) (code : String) (last : Option ℕ)
      → is_totp_code code ≡ false
      → verify_totp_code hmac now secret code last ≡ none
  unfolding verify_totp_code
  verify-rejects-shape now secret code last h = ground arith

  verify-matches :
      (now : ℕ) (secret : Bytes) (code : String) (last : Option ℕ)
      → is_totp_code code ≡ true
      → verify_totp_code hmac now secret code last
        ≡ match_counter hmac secret code last (window now)
  unfolding verify_totp_code
  verify-matches now secret code last h = ground arith

  -- What an accepted code says of the secret, the clock and the counters used before.
  pub record Accepted (now : ℕ) (secret : Bytes) (code : String) (last k : ℕ) : Type 0 where
    pub shape : is_totp_code code ≡ true
    pub code_of : generate_hotp hmac secret k ≡ code
    pub unused : last < k
    pub recent : current_counter now ≤ k + 1
    pub not_ahead : k ≤ current_counter now + 1

  pub verify-Accepted :
      (now : ℕ) (secret : Bytes) (code : String) (last k : ℕ)
      → verify_totp_code hmac now secret code (some last) ≡ some k
      → Accepted now secret code last k
  unfolding is_used
  verify-Accepted now secret code last k e = elim (Bool-cases (is_totp_code code)) [
    | inr s ↦ cc (e, verify-rejects-shape now secret code (some last) s)
    | inl s ↦
        let (near, unused, same) =
          match_counter-found (λ n. (current_counter now ≤ n + 1) × (n ≤ current_counter now + 1))
            secret code (some last) (window now) k
            (
              (omega arith, omega arith),
              ((omega arith, omega arith), ((omega arith, omega arith), tt)),
            )
            (sym (verify-matches now secret code (some last) s) ∙ e) in
        record {
          shape = s;
          code_of = same;
          unused = ground (arith, unused);
          recent = near.0;
          not_ahead = near.1;
        }
  ]

  -- A refused code is not of six digits, or no unused counter of the window has it.
  abbrev pub Refused : ℕ → Bytes → String → ℕ → Type 0
  Refused now secret code last =
      (is_totp_code code ≡ false)
      ⊎ All (λ k. (is_used (some last) k ≡ true) ⊎ (generate_hotp hmac secret k ≢ code))
          (window now)

  pub verify-Refused :
      (now : ℕ) (secret : Bytes) (code : String) (last : ℕ)
      → verify_totp_code hmac now secret code (some last) ≡ none
      → Refused now secret code last
  verify-Refused now secret code last e = elim (Bool-cases (is_totp_code code)) [
    | inr s ↦ inl s
    | inl s ↦ inr (
        match_counter-missed secret code (some last) (window now)
          (sym (verify-matches now secret code (some last) s) ∙ e))
  ]

  try-accept :
      (now : ℕ) (code : String) (c : TotpCredential) (cs : List TotpCredential) (s : MfaDb) (k : ℕ)
      → verify_totp_code hmac now c.secret code (some c.last_used_counter) ≡ some k
      → try_credentials hmac now code (c ∷ cs) s ≡ (true, used c.id k s)
  unfolding try_credentials
  try-accept now code c cs s k e = ground arith

  try-refuse :
      (now : ℕ) (code : String) (c : TotpCredential) (cs : List TotpCredential) (s : MfaDb)
      → verify_totp_code hmac now c.secret code (some c.last_used_counter) ≡ none
      → try_credentials hmac now code (c ∷ cs) s ≡ try_credentials hmac now code cs s
  unfolding try_credentials
  try-refuse now code c cs s e = ground arith

  -- The outcomes of a check against some credentials.
  pub data Checked (now : ℕ) (code : String) (cs : List TotpCredential) (s : MfaDb)
      : Bool × MfaDb → Type 0 where
    accepts :
        (c : TotpCredential) (k : ℕ)
        → Has c cs
        → Accepted now c.secret code c.last_used_counter k
        → Checked now code cs s (true, used c.id k s)
    refuses :
        All (λ (c : TotpCredential). Refused now c.secret code c.last_used_counter) cs
        → Checked now code cs s (false, s)

  more :
      (now : ℕ) (code : String) (c : TotpCredential) (cs : List TotpCredential) (s : MfaDb)
      (r : Bool × MfaDb)
      → Refused now c.secret code c.last_used_counter
      → Checked now code cs s r
      → Checked now code (c ∷ cs) s r
  more now code c cs s _ h (accepts d k m a) = accepts d k (inr m) a
  more now code c cs s _ h (refuses hs) = refuses (h, hs)

  try_credentials-Checked :
      (now : ℕ) (code : String) (cs : List TotpCredential) (s : MfaDb)
      → Checked now code cs s (try_credentials hmac now code cs s)
  unfolding try_credentials
  try_credentials-Checked now code [] s = refuses tt
  try_credentials-Checked now code (c ∷ cs) s =
      elim (Option-cases (verify_totp_code hmac now c.secret code (some c.last_used_counter))) [
        | inl e ↦ subst (Checked now code (c ∷ cs) s) (sym (try-refuse now code c cs s e)) (
            more now code c cs s _ (verify-Refused now c.secret code c.last_used_counter e)
              (try_credentials-Checked now code cs s))
        | inr (k, e) ↦
            subst (Checked now code (c ∷ cs) s) (sym (try-accept now code c cs s k e))
              (accepts c k (inl refl) (verify-Accepted now c.secret code c.last_used_counter k e))
      ]

  -- `verifyAccountTotpCode` either accepts the code for one of the account's credentials, at a
  -- counter of the window above the last one used, which becomes the last one used, or refuses it
  -- for every credential of the account and changes nothing.
  pub verify_account_totp_code-Checked :
      (now : ℕ) (did code : String) (s : MfaDb)
      → Checked now code
          (list_totp_credentials did s)
          s
          (verify_account_totp_code hmac now did code s)
  unfolding verify_account_totp_code
  verify_account_totp_code-Checked now did code s =
      try_credentials-Checked now code (list_totp_credentials did s) s
