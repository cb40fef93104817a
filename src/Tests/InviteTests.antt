-- ===== src/Tests/InviteTests.antt =====
-- packages/danaus/src/accounts/invite-codes.ts at concrete inputs.
use danaus.Prelude.{◌≤◌, ◌≡◌, refl, false, List, [], ◌∷◌, fail}
use danaus.Table.{first, count, select, update, any, distinct}
use danaus.InviteCodes.{
  InviteCode, limited, invalid_invite_code, use_of, ensure_invite_is_available, create_invite_codes,
  record_invite_use, redeem, disable_invite_codes, get_invite_code_stats,
}
use danaus.InviteCodes.History.{
  InviteCall, creates_codes, redeems, disables_codes, no_invites, invite_call, invite_calls,
  invite_calls-within,
}
use danaus.Tests.StreamTests.{seconds}

-- One code for one use that two accounts try, and another that is disabled.
abbrev calls : List InviteCall
calls =
    creates_codes ("code-a" ∷ "code-b" ∷ []) 1 5500
    ∷ redeems "code-a" "did:plc:a" 7000
    ∷ redeems "code-a" "did:plc:b" 8000
    ∷ disables_codes ("code-b" ∷ [])
    ∷ redeems "code-b" "did:plc:b" 9000
    ∷ []

abbrev code_a : InviteCode
code_a = record { code = "code-a"; available_uses = limited 1; disabled = false; created_at = 5000 }

invite_calls-within_example :
    count (use_of "code-a") (invite_calls seconds calls no_invites).uses ≤ 1
unfolding invite_calls invite_call create_invite_codes redeem disable_invite_codes first update any
    ensure_invite_is_available record_invite_use select
invite_calls-within_example = invite_calls-within seconds calls "code-a" code_a 1 refl refl

used_code_test :
    ensure_invite_is_available "code-a" (invite_calls seconds calls no_invites)
    ≡ fail invalid_invite_code
unfolding invite_calls invite_call create_invite_codes redeem disable_invite_codes first update any
    ensure_invite_is_available record_invite_use select
used_code_test = refl

stats_test :
    get_invite_code_stats (invite_calls seconds calls no_invites)
    ≡ record { total = 2; available = 1; disabled_codes = 1; used = 1 }
unfolding invite_calls invite_call create_invite_codes redeem disable_invite_codes first update any
    ensure_invite_is_available record_invite_use select get_invite_code_stats distinct
stats_test = refl
