-- ===== src/Tests/MfaTests.antt =====
-- packages/danaus/src/accounts/mfa.ts and totp.ts at concrete inputs: HMAC-SHA1 is replaced by a
-- concrete function of the secret and the counter's bytes.
use danaus.Prelude.{
  ℕ, ◌≡◌, ◌≢◌, All, refl, String, false, arith, length, none, some, List, [], ◌∷◌, ◌++◌,
}
use danaus.Table.{select}
use danaus.SeqEvent.{Bytes}
use danaus.Totp.{generate_backup_codes}
use danaus.Mfa.{MfaDb, Account, TotpCredential, totp, ok, sync_preferred_mfa}
use danaus.Mfa.Names.{has, generate_name, generate_name-fresh}
use danaus.Mfa.Sync.{SyncedFor, sync-SyncedFor}
use danaus.Mfa.Totp.{
  CreateTotpCredentialOptions, create_totp_credential, generate_totp_name, new_totp,
  list_totp_credentials, verify_account_totp_code,
}
use danaus.Mfa.Replay.{Checked, verify_account_totp_code-Checked}
use danaus.Mfa.Invariant.{MfaInv, init, init-MfaInv}
use danaus.Mfa.RecoveryCodes.{get_recovery_codes, generate_recovery_codes, consume_recovery_code}
use danaus.Mfa.CodeBook.{Consumed, consume_recovery_code-Consumed, generate_recovery_codes-replaces}
use danaus.Mfa.Challenges.{create_passkey_login_challenge, consume_passkey_login_challenge}
use danaus.Mfa.Expiry.{consume_passkey_login_challenge-once}
use danaus.Mfa.Fresh.{create_totp_credential-unnamed}
use danaus.Mfa.History.{
  Call, creates_totp, verifies_totp, generates_codes, consumes_code, starts_login, ends_login, run,
  run-MfaInv,
}
use danaus.Tests.StreamTests.{seconds}

-- A stand-in for the hash: the counter's bytes and then the secret.
abbrev toy_hmac : Bytes → Bytes → Bytes
toy_hmac secret counter = counter ++ secret

abbrev draw : ℕ → String
draw n = "ABCDEFGH"

abbrev alice : Account
alice = record { did = "did:plc:a"; preferred_mfa = none }

abbrev accounts : List Account
accounts = alice ∷ []

abbrev options : CreateTotpCredentialOptions
options = record {
  did = "did:plc:a";
  name = none;
  secret = 0 ∷ 0 ∷ 0 ∷ 7 ∷ 0 ∷ 0 ∷ [];
  last_used_counter = 3;
}

abbrev calls : List Call
calls =
    creates_totp options 90000
    ∷ creates_totp options 90500
    ∷ verifies_totp 120000 "did:plc:a" "000000"
    ∷ generates_codes draw "did:plc:a" 130000
    ∷ consumes_code "did:plc:a" "ABCD-EFGH" 140000
    ∷ starts_login "xyz" 150000
    ∷ ends_login "xyz" 151000
    ∷ []

abbrev enrolled : MfaDb
enrolled = run seconds toy_hmac calls (init accounts)

run-MfaInv_example : MfaInv enrolled
run-MfaInv_example =
    run-MfaInv seconds toy_hmac calls (init accounts) (init-MfaInv accounts (refl, tt))

verify_account_totp_code-Checked_example :
    Checked toy_hmac 150000 "000256"
      (list_totp_credentials "did:plc:a" enrolled)
      enrolled
      (verify_account_totp_code toy_hmac 150000 "did:plc:a" "000256" enrolled)
verify_account_totp_code-Checked_example =
    verify_account_totp_code-Checked toy_hmac 150000 "did:plc:a" "000256" enrolled

consume_recovery_code-Consumed_example :
    Consumed "did:plc:a" "ABCD-EFGH" enrolled
      (consume_recovery_code seconds "did:plc:a" "ABCD-EFGH" 160000 enrolled)
consume_recovery_code-Consumed_example =
    consume_recovery_code-Consumed seconds "did:plc:a" "ABCD-EFGH" 160000 enrolled

generate_recovery_codes-replaces_example :
    (get_recovery_codes "did:plc:a" (generate_recovery_codes seconds draw "did:plc:a" 5 enrolled)
      ≡ generate_backup_codes draw)
    × (length (generate_backup_codes draw) ≡ 10)
generate_recovery_codes-replaces_example =
    generate_recovery_codes-replaces seconds draw "did:plc:a" 5 enrolled

consume_passkey_login_challenge-once_example :
    (consume_passkey_login_challenge seconds "xyz" 2000
      (consume_passkey_login_challenge seconds "xyz" 1000
        (create_passkey_login_challenge seconds "xyz" 0 (init accounts)).1).1).0
    ≡ false
consume_passkey_login_challenge-once_example =
    consume_passkey_login_challenge-once seconds "xyz" 1000 2000
      (create_passkey_login_challenge seconds "xyz" 0 (init accounts)).1

abbrev unnamed_row : TotpCredential
unnamed_row = new_totp seconds options (generate_totp_name "did:plc:a" (init accounts)) 1 90000

create_totp_credential-unnamed_example :
    ((create_totp_credential seconds options 90000 (init accounts)).0 ≡ ok unnamed_row)
    × ((create_totp_credential seconds options 90000 (init accounts)).1.totp_credentials
        ≡ unnamed_row ∷ [])
    × (list_totp_credentials "did:plc:a"
          (create_totp_credential seconds options 90000 (init accounts)).1
        ≡ list_totp_credentials "did:plc:a" (init accounts) ++ unnamed_row ∷ [])
    × All
        (λ (c : TotpCredential). c.name ≢ unnamed_row.name)
        (list_totp_credentials "did:plc:a" (init accounts))
unfolding select
create_totp_credential-unnamed_example =
    create_totp_credential-unnamed seconds options 90000 (init accounts) (omega arith) refl

generate_name-fresh_example :
    has (generate_name "Passkey" ("Passkey" ∷ "Passkey 2" ∷ [])) ("Passkey" ∷ "Passkey 2" ∷ [])
    ≡ false
generate_name-fresh_example = generate_name-fresh "Passkey" ("Passkey" ∷ "Passkey 2" ∷ [])

sync-SyncedFor_example : SyncedFor "did:plc:a" (
    sync_preferred_mfa "did:plc:a"
      (init (record { did = "did:plc:a"; preferred_mfa = some totp } ∷ [])))
sync-SyncedFor_example =
    sync-SyncedFor "did:plc:a" (init (record { did = "did:plc:a"; preferred_mfa = some totp } ∷ []))
