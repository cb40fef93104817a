-- ===== src/Mfa/Sync.antt =====
-- packages/danaus/src/accounts/mfa.ts, `#syncPreferredMfa`: what the preferred method of an account
-- says of its credentials.
use danaus.Prelude.{
  ℕ, ◌<◌, ◌≡◌, ◌≢◌, refl, sym, subst, ◌∙◌, String, true, false, Option, none, some, List, [], ◌∷◌,
  arith, ltb, str_eq-other, str_eq_comm, Bool-cases, Option-cases, inl, inr, tests,
}
use mathlib.Core.Option.{some-injective}
use danaus.Table.{first, update}
use danaus.Mfa.{
  PreferredMfa, totp, web_authn, Account, MfaDb, count_totp_credentials, count_webauthn_credentials,
  still_valid, new_preferred, account_of, set_preferred, same_preferred, sync_preferred_mfa,
}

-- A preferred method has a credential, and no method is preferred only where there is no TOTP
-- credential: registering a passkey leaves the method as it was.
abbrev pub Backed : Option PreferredMfa → ℕ → ℕ → Type 0
Backed none totps webauthns = totps ≡ 0
Backed (some totp) totps webauthns = 0 < totps
Backed (some web_authn) totps webauthns = 0 < webauthns

abbrev pub BackedFor : String → MfaDb → Type 0
BackedFor did s =
    (account : Account)
    → first (account_of did) s.accounts ≡ some account
    → Backed account.preferred_mfa (count_totp_credentials did s) (count_webauthn_credentials did s)

-- A preferred method has a credential, and no method is preferred only where there is none.
abbrev pub Synced : Option PreferredMfa → ℕ → ℕ → Type 0
Synced none totps webauthns = (totps ≡ 0) × (webauthns ≡ 0)
Synced (some totp) totps webauthns = 0 < totps
Synced (some web_authn) totps webauthns = 0 < webauthns

abbrev pub SyncedFor : String → MfaDb → Type 0
SyncedFor did s =
    (account : Account)
    → first (account_of did) s.accounts ≡ some account
    → Synced account.preferred_mfa (count_totp_credentials did s) (count_webauthn_credentials did s)

Synced→Backed : (p : Option PreferredMfa) (t w : ℕ) → Synced p t w → Backed p t w
Synced→Backed none t w h = h.0
Synced→Backed (some totp) t w h = h
Synced→Backed (some web_authn) t w h = h

still_valid-Synced :
    (p : Option PreferredMfa) (t w : ℕ) → still_valid p (ltb 0 t) (ltb 0 w) ≡ true → Synced p t w
still_valid-Synced none t w h = cc
still_valid-Synced (some totp) t w h = omega (tests, h)
still_valid-Synced (some web_authn) t w h = omega (tests, h)

-- What the method is switched to has a credential where the present one has none.
new_preferred-Synced : (t w : ℕ) → Synced (new_preferred (ltb 0 t) (ltb 0 w)) t w
new_preferred-Synced t w = elim (Bool-cases (ltb 0 t)) [
  | inl e ↦ subst (λ b. Synced (new_preferred b (ltb 0 w)) t w) (sym e) (omega (tests, e))
  | inr e ↦
      subst (λ b. Synced (new_preferred b (ltb 0 w)) t w) (sym e)
        (elim (Bool-cases (ltb 0 w)) [
          | inl k ↦ subst (λ b. Synced (new_preferred false b) t w) (sym k) (omega (tests, k))
          | inr k ↦ subst (λ b. Synced (new_preferred false b) t w) (sym k) (ground arith)
        ])
]

same_preferred→eq : (p q : Option PreferredMfa) → same_preferred p q ≡ true → p ≡ q
same_preferred→eq none none h = refl
same_preferred→eq (some totp) (some totp) h = refl
same_preferred→eq (some web_authn) (some web_authn) h = refl
same_preferred→eq none (some q) h = cc
same_preferred→eq (some p) none h = cc
same_preferred→eq (some totp) (some web_authn) h = cc
same_preferred→eq (some web_authn) (some totp) h = cc

first-set_preferred :
    (did : String) (p : Option PreferredMfa) (xs : List Account) (a : Account)
    → first (account_of did) xs ≡ some a
    → first (account_of did) (update (account_of did) (set_preferred p) xs)
      ≡ some (set_preferred p a)
unfolding first update
first-set_preferred did p [] a h = cc
first-set_preferred did p (x ∷ xs) a h = ground (arith, first-set_preferred did p xs a)

first-set_preferred_other :
    (did other : String) (p : Option PreferredMfa) (xs : List Account)
    → ((x : Account) → account_of other x ≡ true → account_of did x ≡ false)
    → first (account_of other) (update (account_of did) (set_preferred p) xs)
      ≡ first (account_of other) xs
unfolding first update
first-set_preferred_other did other p [] k = refl
first-set_preferred_other did other p (x ∷ xs) k =
    ground (arith, k x, first-set_preferred_other did other p xs k)

-- The method that the account is switched to, where it is.
abbrev preferred_now : String → MfaDb → Option PreferredMfa
preferred_now did s =
    new_preferred (ltb 0 (count_totp_credentials did s)) (ltb 0 (count_webauthn_credentials did s))

abbrev switched : String → MfaDb → MfaDb
switched did s = record s {
  accounts = update (account_of did) (set_preferred (preferred_now did s)) s.accounts;
}

sync-unknown :
    (did : String) (s : MfaDb)
    → first (account_of did) s.accounts ≡ none
    → sync_preferred_mfa did s ≡ s
unfolding sync_preferred_mfa
sync-unknown did s e = ground arith

sync-valid :
    (did : String) (s : MfaDb) (a : Account)
    → first (account_of did) s.accounts ≡ some a
    → still_valid a.preferred_mfa
        (ltb 0 (count_totp_credentials did s))
        (ltb 0 (count_webauthn_credentials did s))
      ≡ true
    → sync_preferred_mfa did s ≡ s
unfolding sync_preferred_mfa
sync-valid did s a e v = ground arith

sync-same :
    (did : String) (s : MfaDb) (a : Account)
    → first (account_of did) s.accounts ≡ some a
    → same_preferred (preferred_now did s) a.preferred_mfa ≡ true
    → sync_preferred_mfa did s ≡ s
unfolding sync_preferred_mfa
sync-same did s a e v = ground arith

sync-switched :
    (did : String) (s : MfaDb) (a : Account)
    → first (account_of did) s.accounts ≡ some a
    → still_valid a.preferred_mfa
        (ltb 0 (count_totp_credentials did s))
        (ltb 0 (count_webauthn_credentials did s))
      ≡ false
    → same_preferred (preferred_now did s) a.preferred_mfa ≡ false
    → sync_preferred_mfa did s ≡ switched did s
unfolding sync_preferred_mfa
sync-switched did s a e v w = ground arith

-- After `#syncPreferredMfa` the preferred method of the account has a credential, and no method is
-- preferred only where the account has no credential of either kind, whatever the method was before.
pub sync-SyncedFor : (did : String) (s : MfaDb) → SyncedFor did (sync_preferred_mfa did s)
sync-SyncedFor did s = elim (Option-cases (first (account_of did) s.accounts)) [
  | inl e ↦ subst (SyncedFor did) (sym (sync-unknown did s e)) λ a k. cc
  | inr (a, e) ↦
      let t = count_totp_credentials did s in
      let w = count_webauthn_credentials did s in
      elim (Bool-cases (still_valid a.preferred_mfa (ltb 0 t) (ltb 0 w))) [
        | inl v ↦ subst (SyncedFor did) (sym (sync-valid did s a e v)) λ b k.
            subst (λ (x : Account). Synced x.preferred_mfa t w) (some-injective a b (sym e ∙ k))
              (still_valid-Synced a.preferred_mfa t w v)
        | inr v ↦ elim (Bool-cases (same_preferred (preferred_now did s) a.preferred_mfa)) [
          | inl q ↦ subst (SyncedFor did) (sym (sync-same did s a e q)) λ b k.
              subst (λ (x : Account). Synced x.preferred_mfa t w) (some-injective a b (sym e ∙ k))
                (subst (λ p. Synced p t w)
                  (same_preferred→eq (preferred_now did s) a.preferred_mfa q)
                  (new_preferred-Synced t w))
          | inr q ↦ subst (SyncedFor did) (sym (sync-switched did s a e v q)) λ b k.
              subst (λ (x : Account). Synced x.preferred_mfa t w)
                (some-injective (set_preferred (preferred_now did s) a) b
                  (sym (first-set_preferred did (preferred_now did s) s.accounts a e) ∙ k))
                (new_preferred-Synced t w)
        ]
      ]
]

pub sync-BackedFor : (did : String) (s : MfaDb) → BackedFor did (sync_preferred_mfa did s)
sync-BackedFor did s a e = Synced→Backed a.preferred_mfa _ _ (sync-SyncedFor did s a e)

-- The call leaves every table but the accounts as it was, and the other accounts too.
pub record SyncKeeps (did : String) (s s' : MfaDb) : Type 0 where
  pub totp_credentials : s'.totp_credentials ≡ s.totp_credentials
  pub next_totp_id : s'.next_totp_id ≡ s.next_totp_id
  pub webauthn_credentials : s'.webauthn_credentials ≡ s.webauthn_credentials
  pub next_webauthn_id : s'.next_webauthn_id ≡ s.next_webauthn_id
  pub others :
      (other : String)
      → other ≢ did
      → first (account_of other) s'.accounts ≡ first (account_of other) s.accounts

keeps_self : (did : String) (s : MfaDb) → SyncKeeps did s s
keeps_self did s = record {
  totp_credentials = refl;
  next_totp_id = refl;
  webauthn_credentials = refl;
  next_webauthn_id = refl;
  others = λ other h. refl;
}

keeps_switched : (did : String) (s : MfaDb) → SyncKeeps did s (switched did s)
keeps_switched did s = record {
  totp_credentials = refl;
  next_totp_id = refl;
  webauthn_credentials = refl;
  next_webauthn_id = refl;
  others = λ other h.
      first-set_preferred_other did other (preferred_now did s) s.accounts
        λ x e. str_eq_comm x.did did ∙ str_eq-other other did x.did h (str_eq_comm other x.did ∙ e);
}

pub sync-SyncKeeps : (did : String) (s : MfaDb) → SyncKeeps did s (sync_preferred_mfa did s)
sync-SyncKeeps did s = elim (Option-cases (first (account_of did) s.accounts)) [
  | inl e ↦ subst (SyncKeeps did s) (sym (sync-unknown did s e)) (keeps_self did s)
  | inr (a, e) ↦
      elim (Bool-cases (
        still_valid a.preferred_mfa (ltb 0 (count_totp_credentials did s))
          (ltb 0 (count_webauthn_credentials did s)))) [
            | inl v ↦ subst (SyncKeeps did s) (sym (sync-valid did s a e v)) (keeps_self did s)
            | inr v ↦ elim (Bool-cases (same_preferred (preferred_now did s) a.preferred_mfa)) [
              | inl q ↦ subst (SyncKeeps did s) (sym (sync-same did s a e q)) (keeps_self did s)
              | inr q ↦
                  subst (SyncKeeps did s) (sym (sync-switched did s a e v q)) (keeps_switched did s)
            ]
          ]
]
