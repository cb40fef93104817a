-- ===== src/InviteCodes.antt =====
-- packages/danaus/src/accounts/invite-codes.ts: class InviteCodeManager without listInviteCodes, with
-- the tables `invite_code` and `invite_code_use` of packages/danaus/src/accounts/db/schema.ts. The
-- generator of codes is an argument.
pub mod Allowance
pub mod History
use danaus.Prelude.{
  ℕ, zero, suc, ◌-◌, ◌≤◌, String, Bool, true, false, ◌&&◌, Option, none, some, List, [], ◌∷◌, ◌++◌,
  map, if◌then◌else◌, str_eq, leb, length, Result, fail, ok, ◌>>=◌, ◌>>◌,
}
use danaus.Table.{Timestamps, select, first, count, update, any, distinct}

-- The column holds -1 for unlimited uses.
pub data AvailableUses : Type 0 where
  unlimited : AvailableUses
  limited : ℕ → AvailableUses

pub record InviteCode : Type 0 where
  pub code : String
  pub available_uses : AvailableUses
  pub disabled : Bool
  pub created_at : ℕ

pub record InviteCodeUse : Type 0 where
  pub code : String
  pub used_by : String
  pub used_at : ℕ

pub record InviteDb : Type 0 where
  pub codes : List InviteCode
  pub uses : List InviteCodeUse

pub data InviteError : Type 0 where
  invalid_invite_code constraint_failed : InviteError

abbrev pub has_code : String → InviteCode → Bool
has_code code row = str_eq row.code code

abbrev pub use_of : String → InviteCodeUse → Bool
use_of code row = str_eq row.code code

abbrev pub allowance : ℕ → AvailableUses
allowance zero = unlimited
allowance (suc n) = limited (suc n)

-- `available_uses !== -1` and as many uses as there may be
abbrev pub is_used_up : AvailableUses → ℕ → Bool
is_used_up unlimited used = false
is_used_up (limited available) used = leb available used

-- INSERT of a use, whose primary key is the code with the account
abbrev pub use_exists : String → String → InviteCodeUse → Bool
use_exists code used_by row = str_eq row.code code && str_eq row.used_by used_by

abbrev pub disabling : InviteCode → InviteCode
disabling row = record row { disabled = true }

-- The row of the code, and the number of its uses.
abbrev pub check_invite : Option InviteCode → ℕ → Result InviteError (Unit {0})
check_invite none used = fail invalid_invite_code
check_invite (some row) used =
    if row.disabled
    then fail invalid_invite_code
    else if is_used_up row.available_uses used
    then fail invalid_invite_code
    else ok tt

unfoldable pub ensure_invite_is_available : String → InviteDb → Result InviteError (Unit {0})
ensure_invite_is_available code s =
    check_invite (first (has_code code) s.codes) (count (use_of code) s.uses)

unfoldable pub get_invite_code : String → InviteDb → Option (InviteCode × List InviteCodeUse)
get_invite_code code s = elim (first (has_code code) s.codes) [
  | none ↦ none
  | some row ↦ some (row, select (use_of code) s.uses)
]

-- `inArray(code, codes)`; nothing is sent to the database for an empty list.
unfoldable pub disable_invite_codes : List String → InviteDb → InviteDb
disable_invite_codes [] s = s
disable_invite_codes (code ∷ codes) s = record s {
  codes = update (λ (row : InviteCode). any (str_eq row.code) (code ∷ codes)) disabling s.codes;
}

pub record InviteCodeStats : Type 0 where
  pub total : ℕ
  pub available : ℕ
  pub disabled_codes : ℕ
  pub used : ℕ

-- The disabled codes are among all, so that the subtraction does not stop at 0.
unfoldable pub get_invite_code_stats : InviteDb → InviteCodeStats
get_invite_code_stats s =
    let total = length s.codes in
    let disabled_codes = count (λ (row : InviteCode). row.disabled) s.codes in
    record {
      total = total;
      available = total - disabled_codes;
      disabled_codes = disabled_codes;
      used = length (distinct (map (λ (row : InviteCodeUse). row.code) s.uses));
    }

module _ (D : Timestamps) where
  -- One row for each generated code; a code that exists throws, and the rows before it stay.
  unfoldable pub create_invite_codes :
      List String → ℕ → ℕ → InviteDb → Result InviteError (List InviteCode) × InviteDb
  create_invite_codes [] available_uses now s = (ok [], s)
  create_invite_codes (code ∷ codes) available_uses now s =
      let row : InviteCode = record {
        code = code;
        available_uses = allowance available_uses;
        disabled = false;
        created_at = D.stored now;
      } in
      let rest =
        create_invite_codes codes available_uses now (record s { codes = s.codes ++ row ∷ [] }) in
      if any (has_code code) s.codes
      then (fail constraint_failed, s)
      else (rest.0 >>= λ rows. ok (row ∷ rows), rest.1)

  unfoldable pub record_invite_use : String → String → ℕ → InviteDb → Result InviteError InviteDb
  record_invite_use code used_by now s =
      let row : InviteCodeUse = record { code = code; used_by = used_by; used_at = D.stored now } in
      if any (use_exists code used_by) s.uses
      then fail constraint_failed
      else ok (record s { uses = s.uses ++ row ∷ [] })

  -- The two calls of a public registration (api/local.danaus/account.createAccount.ts), with no
  -- other registration while the account is set up in between.
  unfoldable pub redeem : String → String → ℕ → InviteDb → Result InviteError InviteDb
  unfolding ensure_invite_is_available record_invite_use
  redeem code used_by now s =
      ensure_invite_is_available code s >> record_invite_use code used_by now s
