-- ===== src/Mfa/CodeBook.antt =====
-- packages/danaus/src/accounts/mfa.ts: the recovery codes of an account as the list of the codes
-- that can still be used.
use danaus.Prelude.{
  is_some, ℕ, ◌≡◌, refl, sym, ap, ◌∙◌, String, Bool, none, some, List, [], ◌∷◌, ◌++◌, map, arith,
  str_eq, if◌then◌else◌, ◌≢◌, str_eq-apart, str_eq→eq, ne-of-str_eq-false, Bool-cases, inl, inr,
  subst, length, append_assoc, append-nil, str_eq_refl,
}
use danaus.Table.{Timestamps, select, first, update, delete, any}
use danaus.Totp.{generate_backup_codes}
use danaus.Mfa.{MfaDb, RecoveryCode, unused_of}
use danaus.Mfa.RecoveryCodes.{
  recovery_of, unused_code, get_recovery_codes, delete_recovery_codes, insert_codes,
  generate_recovery_codes, consume_recovery_code,
}

-- The codes of an account that are not used, in some rows.
abbrev codes_in : String → List RecoveryCode → List String
codes_in did rows = map (λ (row : RecoveryCode). row.code) (select (unused_of did) rows)

abbrev mark : ℕ → RecoveryCode → RecoveryCode
mark t row = record row { used_at = some t }

consume-found :
    (did code : String) (rows : List RecoveryCode)
    → is_some (first (unused_code did code) rows) ≡ any (λ c. str_eq c code) (codes_in did rows)
unfolding first any select
consume-found did code [] = refl
consume-found did code (x ∷ xs) = ground (arith, consume-found did code xs)

consume-rest :
    (did code : String) (t : ℕ) (rows : List RecoveryCode)
    → codes_in did (update (unused_code did code) (mark t) rows)
      ≡ delete (λ c. str_eq c code) (codes_in did rows)
unfolding update delete select
consume-rest did code t [] = refl
consume-rest did code t (x ∷ xs) = ground (arith, consume-rest did code t xs)

consume-others :
    (did other code : String) (t : ℕ) (rows : List RecoveryCode)
    → other ≢ did
    → codes_in other (update (unused_code did code) (mark t) rows) ≡ codes_in other rows
unfolding update select
consume-others did other code t [] h = refl
consume-others did other code t (x ∷ xs) h =
    ground (arith, str_eq-apart other did x.did h, consume-others did other code t xs h)

-- What consuming a code of an account does to the lists of usable codes of every account.
pub record Consumed (did code : String) (s : MfaDb) (r : Bool × MfaDb) : Type 0 where
  pub answer : r.0 ≡ any (λ c. str_eq c code) (get_recovery_codes did s)
  pub usable :
      (other : String)
      → get_recovery_codes other r.1 ≡ (
          if str_eq other did
          then delete (λ c. str_eq c code) (get_recovery_codes other s)
          else get_recovery_codes other s)

consume-usable :
    (did other code : String) (t : ℕ) (rows : List RecoveryCode)
    → codes_in other (update (unused_code did code) (mark t) rows) ≡ (
        if str_eq other did
        then delete (λ c. str_eq c code) (codes_in other rows)
        else codes_in other rows)
consume-usable did other code t rows = elim (Bool-cases (str_eq other did)) [
  | inl e ↦
      rw (e, if◌then◌else◌)
        (subst
          (λ d.
            codes_in d (update (unused_code did code) (mark t) rows)
            ≡ delete (λ c. str_eq c code) (codes_in d rows))
          (sym (str_eq→eq other did e)) (consume-rest did code t rows))
  | inr e ↦
      rw (e, if◌then◌else◌) (consume-others did other code t rows (ne-of-str_eq-false other did e))
]

module _ (D : Timestamps) where
  -- Consuming a code succeeds exactly if the code is one of the account's usable codes. It takes
  -- the code out of them and leaves the others, and leaves the codes of other accounts.
  pub consume_recovery_code-Consumed :
      (did code : String) (now : ℕ) (s : MfaDb)
      → Consumed did code s (consume_recovery_code D did code now s)
  unfolding consume_recovery_code get_recovery_codes
  consume_recovery_code-Consumed did code now s = record {
    answer = consume-found did code s.recovery_codes;
    usable = λ other. consume-usable did other code (D.stored now) s.recovery_codes;
  }

  abbrev new_code : String → ℕ → String → ℕ → RecoveryCode
  new_code did now code id = record {
    id = id;
    did = did;
    code = code;
    used_at = none;
    created_at = D.stored now;
  }

  codes_in-append :
      (did : String) (rows : List RecoveryCode) (now : ℕ) (code : String) (id : ℕ)
      → codes_in did (rows ++ new_code did now code id ∷ []) ≡ codes_in did rows ++ code ∷ []
  unfolding select
  codes_in-append did [] now code id = ground (arith, str_eq_refl did)
  codes_in-append did (x ∷ xs) now code id = ground (arith, codes_in-append did xs now code id)

  insert_codes-usable :
      (did : String) (now : ℕ) (codes : List String) (s : MfaDb)
      → get_recovery_codes did (insert_codes D did now codes s) ≡ get_recovery_codes did s ++ codes
  unfolding insert_codes get_recovery_codes
  insert_codes-usable did now [] s = sym (append-nil _)
  insert_codes-usable did now (code ∷ codes) s =
      insert_codes-usable did now codes _
      ∙ ap (λ xs. xs ++ codes) (codes_in-append did s.recovery_codes now code s.next_recovery_id)
      ∙ append_assoc (codes_in did s.recovery_codes) (code ∷ []) codes

  codes_in-deleted :
      (did : String) (rows : List RecoveryCode) → codes_in did (delete (recovery_of did) rows) ≡ []
  unfolding select delete
  codes_in-deleted did [] = refl
  codes_in-deleted did (x ∷ xs) = ground (arith, codes_in-deleted did xs)

  -- Generating codes replaces every code that the account had by ten new ones, which are usable.
  pub generate_recovery_codes-replaces :
      (draw : ℕ → String) (did : String) (now : ℕ) (s : MfaDb)
      → (get_recovery_codes did (generate_recovery_codes D draw did now s)
          ≡ generate_backup_codes draw)
        × (length (generate_backup_codes draw) ≡ 10)
  unfolding generate_recovery_codes delete_recovery_codes get_recovery_codes generate_backup_codes
  generate_recovery_codes-replaces draw did now s = (
    insert_codes-usable did now (generate_backup_codes draw)
          (record s { recovery_codes = delete (recovery_of did) s.recovery_codes })
        ∙ ap (λ xs. xs ++ generate_backup_codes draw) (codes_in-deleted did s.recovery_codes),
    refl,
  )
