-- ===== src/InviteCodes/History.antt =====
-- packages/danaus/src/accounts/invite-codes.ts: any sequence of calls, from empty tables.
use danaus.Prelude.{ℕ, ◌≤◌, ◌≡◌, refl, subst, String, some, List, [], ◌∷◌, fail, ok, Result}
use danaus.Table.{Timestamps, first, select, count}
use danaus.InviteCodes.{
  InviteCode, limited, InviteDb, InviteError, has_code, use_of, create_invite_codes, redeem,
  disable_invite_codes,
}
use danaus.InviteCodes.Allowance.{Within, Allowed, Fits, create-Fits, redeem-Fits, disable-Fits}

pub data InviteCall : Type 0 where
  creates_codes : List String → ℕ → ℕ → InviteCall
  redeems : String → String → ℕ → InviteCall
  disables_codes : List String → InviteCall

abbrev pub no_invites : InviteDb
no_invites = record { codes = []; uses = [] }

-- A registration that is refused changes nothing here.
abbrev pub kept : Result InviteError InviteDb → InviteDb → InviteDb
kept (fail _) s = s
kept (ok after) s = after

kept-Fits :
    (m : Result InviteError InviteDb) (s : InviteDb)
    → Fits s
    → ((after : InviteDb) → m ≡ ok after → Fits after)
    → Fits (kept m s)
kept-Fits (fail _) s f k = f
kept-Fits (ok after) s f k = k after refl

module _ (D : Timestamps) where
  unfoldable pub invite_call : InviteCall → InviteDb → InviteDb
  invite_call (creates_codes codes available_uses now) s =
      (create_invite_codes D codes available_uses now s).1
  invite_call (redeems code used_by now) s = kept (redeem D code used_by now s) s
  invite_call (disables_codes codes) s = disable_invite_codes codes s

  unfoldable pub invite_calls : List InviteCall → InviteDb → InviteDb
  invite_calls [] s = s
  invite_calls (c ∷ cs) s = invite_calls cs (invite_call c s)

  invite_call-Fits : (c : InviteCall) (s : InviteDb) → Fits s → Fits (invite_call c s)
  unfolding invite_call
  invite_call-Fits (creates_codes codes available_uses now) s f =
      create-Fits D codes available_uses now s f
  invite_call-Fits (redeems code used_by now) s f =
      kept-Fits (redeem D code used_by now s) s f
        (λ after h. redeem-Fits D code used_by now s after h f)
  invite_call-Fits (disables_codes codes) s f = disable-Fits D codes s f

  invite_calls-Fits : (cs : List InviteCall) (s : InviteDb) → Fits s → Fits (invite_calls cs s)
  unfolding invite_calls
  invite_calls-Fits [] s f = f
  invite_calls-Fits (c ∷ cs) s f = invite_calls-Fits cs (invite_call c s) (invite_call-Fits c s f)

  no_invites-Fits : Fits no_invites
  unfolding first select
  no_invites-Fits code = refl

  -- Whatever codes are created and disabled from empty tables on, and whoever redeems one, no two
  -- registrations at the same time: a code that is limited to `n` uses has `n` uses at most.
  pub invite_calls-within :
      (cs : List InviteCall) (code : String) (row : InviteCode) (n : ℕ)
      → first (has_code code) (invite_calls cs no_invites).codes ≡ some row
      → row.available_uses ≡ limited n
      → count (use_of code) (invite_calls cs no_invites).uses ≤ n
  invite_calls-within cs code row n e a =
      let used = count (use_of code) (invite_calls cs no_invites).uses in
      subst (λ available. Within available used) a
        (subst (λ o. Allowed o used) e (invite_calls-Fits cs no_invites no_invites-Fits code))
