-- ===== src/Mfa/RecoveryCodes.antt =====
-- packages/danaus/src/accounts/mfa.ts, the region on recovery codes. The random generator is given
-- by what it draws in each round.
use danaus.Prelude.{
  is_some, ℕ, suc, String, Bool, ◌&&◌, none, some, List, [], ◌∷◌, ◌++◌, map, str_eq,
}
use danaus.Table.{Timestamps, select, first, count, update, delete}
use danaus.Totp.{generate_backup_codes}
use danaus.Mfa.{MfaDb, RecoveryCode, unused_of}

abbrev pub recovery_of : String → RecoveryCode → Bool
recovery_of did row = str_eq row.did did

abbrev pub unused_code : String → String → RecoveryCode → Bool
unused_code did code row = unused_of did row && str_eq row.code code

unfoldable pub get_recovery_codes : String → MfaDb → List String
get_recovery_codes did s =
    map (λ (row : RecoveryCode). row.code) (select (unused_of did) s.recovery_codes)

unfoldable pub get_recovery_code_count : String → MfaDb → ℕ
get_recovery_code_count did s = count (unused_of did) s.recovery_codes

unfoldable pub delete_recovery_codes : String → MfaDb → MfaDb
delete_recovery_codes did s = record s {
  recovery_codes = delete (recovery_of did) s.recovery_codes;
}

module _ (D : Timestamps) where
  -- The INSERTs of the transaction, one for each code.
  unfoldable pub insert_codes : String → ℕ → List String → MfaDb → MfaDb
  insert_codes did now [] s = s
  insert_codes did now (code ∷ codes) s = insert_codes did now codes (record s {
    recovery_codes =
        s.recovery_codes
        ++ record {
          id = s.next_recovery_id;
          did = did;
          code = code;
          used_at = none;
          created_at = D.stored now;
        }
          ∷ [];
    next_recovery_id = suc s.next_recovery_id;
  })

  unfoldable pub generate_recovery_codes : (ℕ → String) → String → ℕ → MfaDb → MfaDb
  unfolding insert_codes delete_recovery_codes
  generate_recovery_codes draw did now s =
      insert_codes did now (generate_backup_codes draw) (delete_recovery_codes did s)

  unfoldable pub consume_recovery_code : String → String → ℕ → MfaDb → Bool × MfaDb
  consume_recovery_code did code now s = (
    is_some (first (unused_code did code) s.recovery_codes),
    record s {
      recovery_codes =
          update (unused_code did code)
            (λ (row : RecoveryCode). record row { used_at = some (D.stored now) }) s.recovery_codes;
    },
  )
