-- ===== src/InviteCodes/Allowance.antt =====
-- packages/danaus/src/accounts/invite-codes.ts: the uses of a code and its allowance, call by call.
use danaus.Prelude.{
  ℕ, ◌+◌, ◌≤◌, ◌≡◌, refl, sym, subst, inl, inr, String, Bool, true, false, Option, none, some, List,
  [], ◌∷◌, ◌++◌, arith, str_eq, Bool-cases, Option-cases, if◌then◌else◌, ◌∙◌, str_eq→eq, Result,
  fail, ok, ok-injective, fail-ne-ok, bind-ok,
}
use danaus.Table.{Timestamps, first, count, update, any}
use danaus.Table.Counts
use danaus.Table.Rows.{first-append_some, first-append_none}
use danaus.InviteCodes.{
  AvailableUses, unlimited, limited, InviteCode, InviteCodeUse, InviteDb, InviteError, has_code,
  use_of, is_used_up, disabling, allowance, use_exists, check_invite, invalid_invite_code,
  constraint_failed, ensure_invite_is_available, create_invite_codes, record_invite_use, redeem,
  disable_invite_codes,
}

-- So many uses are allowed.
abbrev pub Within : AvailableUses → ℕ → Type 0
Within unlimited used = Unit {0}
Within (limited available) used = used ≤ available

-- What the tables hold of one code: a code that exists is within its allowance, another has no use.
abbrev pub Allowed : Option InviteCode → ℕ → Type 0
Allowed none used = used ≡ 0
Allowed (some row) used = Within row.available_uses used

abbrev pub Fits : InviteDb → Type 0
Fits s = (code : String) → Allowed (first (has_code code) s.codes) (count (use_of code) s.uses)

Within-not_used_up : (a : AvailableUses) (n : ℕ) → is_used_up a n ≡ false → Within a (n + 1)
Within-not_used_up unlimited n h = tt
Within-not_used_up (limited k) n h = ground (arith, h)

Within-zero : (a : AvailableUses) → Within a 0
Within-zero unlimited = tt
Within-zero (limited k) = omega arith

-- A code that has no use yet is within any allowance.
first-one :
    (code : String) (row : InviteCode) (n : ℕ)
    → n ≡ 0
    → Allowed (first (has_code code) (row ∷ [])) n
unfolding first
first-one code row n e = elim (Bool-cases (has_code code row)) [
  | inl h ↦ rw h (subst (Within row.available_uses) (sym e) (Within-zero row.available_uses))
  | inr h ↦ rw h e
]

abbrev disabled_if : (InviteCode → Bool) → InviteCode → InviteCode
disabled_if p row = if p row then disabling row else row

abbrev found_disabled : (InviteCode → Bool) → Option InviteCode → Option InviteCode
found_disabled p none = none
found_disabled p (some row) = some (disabled_if p row)

first-disabling :
    (p : InviteCode → Bool) (code : String) (rows : List InviteCode)
    → first (has_code code) (update p disabling rows)
      ≡ found_disabled p (first (has_code code) rows)
unfolding first update
first-disabling p code [] = refl
first-disabling p code (row ∷ rows) = elim (Bool-cases (p row)) [
  | inl q ↦ elim (Bool-cases (has_code code row)) [
    | inl e ↦ ground (arith, q, e)
    | inr e ↦ ground (arith, q, e, first-disabling p code rows)
  ]
  | inr q ↦ elim (Bool-cases (has_code code row)) [
    | inl e ↦ ground (arith, q, e)
    | inr e ↦ ground (arith, q, e, first-disabling p code rows)
  ]
]

Allowed-disabled :
    (p : InviteCode → Bool) (o : Option InviteCode) (n : ℕ)
    → Allowed o n
    → Allowed (found_disabled p o) n
Allowed-disabled p none n h = h
Allowed-disabled p (some row) n h = elim (Bool-cases (p row)) [ inl q ↦ rw q h | inr q ↦ rw q h ]

-- A code that is available may be used once more.
abbrev stopped : Bool → Bool → Result InviteError (Unit {0})
stopped disabled used_up =
    if disabled
    then fail invalid_invite_code
    else if used_up
    then fail invalid_invite_code
    else ok tt

not_stopped : (a b : Bool) → stopped a b ≡ ok tt → b ≡ false
not_stopped true b h = absurd (fail-ne-ok invalid_invite_code tt h)
not_stopped false true h = absurd (fail-ne-ok invalid_invite_code tt h)
not_stopped false false h = refl

check_invite-Allowed :
    (o : Option InviteCode) (n : ℕ) → check_invite o n ≡ ok tt → Allowed o (n + 1)
check_invite-Allowed none n h = absurd (fail-ne-ok invalid_invite_code tt h)
check_invite-Allowed (some row) n h =
    Within-not_used_up row.available_uses n
      (not_stopped row.disabled (is_used_up row.available_uses n) h)

recorded-after :
    (exists : Bool) (new after : InviteDb)
    → (if exists then fail constraint_failed else ok new) ≡ ok after
    → new ≡ after
recorded-after true new after h = absurd (fail-ne-ok constraint_failed after h)
recorded-after false new after h = ok-injective new after h

module _ (D : Timestamps) where
  -- One new row of uses: of the code itself, or of another.
  use-Fits :
      (s : InviteDb) (row : InviteCodeUse)
      → Fits s
      → Allowed (first (has_code row.code) s.codes) (count (use_of row.code) s.uses + 1)
      → Fits (record s { uses = s.uses ++ row ∷ [] })
  use-Fits s row f room code = elim (Bool-cases (use_of code row)) [
    | inl e ↦
        subst (Allowed (first (has_code code) s.codes))
          (sym (Counts.count-append_hit (use_of code) s.uses row e))
          (subst (λ c. Allowed (first (has_code c) s.codes) (count (use_of c) s.uses + 1))
            (str_eq→eq row.code code e) room)
    | inr e ↦
        subst (Allowed (first (has_code code) s.codes))
          (sym (Counts.count-append_miss (use_of code) s.uses row e)) (f code)
  ]

  -- One new code that does not exist yet.
  code-Fits :
      (s : InviteDb) (row : InviteCode) → Fits s → Fits (record s { codes = s.codes ++ row ∷ [] })
  code-Fits s row f code = elim (Option-cases (first (has_code code) s.codes)) [
    | inr (found, e) ↦
        subst (λ o. Allowed o (count (use_of code) s.uses))
          (e ∙ sym (first-append_some (has_code code) s.codes (row ∷ []) found e)) (f code)
    | inl e ↦
        subst (λ o. Allowed o (count (use_of code) s.uses))
          (sym (first-append_none (has_code code) s.codes (row ∷ []) e))
          (first-one code row (count (use_of code) s.uses)
            (subst (λ o. Allowed o (count (use_of code) s.uses)) e (f code)))
  ]

  pub create-Fits :
      (codes : List String) (available_uses now : ℕ) (s : InviteDb)
      → Fits s
      → Fits (create_invite_codes D codes available_uses now s).1
  unfolding create_invite_codes
  create-Fits [] available_uses now s f = f
  create-Fits (code ∷ codes) available_uses now s f =
      let row : InviteCode = record {
        code = code;
        available_uses = allowance available_uses;
        disabled = false;
        created_at = D.stored now;
      } in
      elim (Bool-cases (any (has_code code) s.codes)) [
        | inl e ↦ rw e f
        | inr e ↦ rw e (
            create-Fits codes available_uses now (record s { codes = s.codes ++ row ∷ [] })
              (code-Fits s row f))
      ]

  pub disable-Fits :
      (codes : List String) (s : InviteDb) → Fits s → Fits (disable_invite_codes codes s)
  unfolding disable_invite_codes
  disable-Fits [] s f code = f code
  disable-Fits (c ∷ codes) s f code =
      let p : InviteCode → Bool = λ row. any (str_eq row.code) (c ∷ codes) in
      subst (λ o. Allowed o (count (use_of code) s.uses)) (sym (first-disabling p code s.codes))
        (Allowed-disabled p (first (has_code code) s.codes) (count (use_of code) s.uses) (f code))

  pub redeem-Fits :
      (code used_by : String) (now : ℕ) (s after : InviteDb)
      → redeem D code used_by now s ≡ ok after
      → Fits s
      → Fits after
  unfolding redeem record_invite_use ensure_invite_is_available
  redeem-Fits code used_by now s after h f =
      let row : InviteCodeUse = record { code = code; used_by = used_by; used_at = D.stored now } in
      let (_, (available, recorded)) =
        bind-ok (ensure_invite_is_available code s) (λ _. record_invite_use D code used_by now s)
          after h in
      subst Fits
        (recorded-after (any (use_exists code used_by) s.uses)
          (record s { uses = s.uses ++ row ∷ [] }) after recorded)
        (use-Fits s row f (
          check_invite-Allowed (first (has_code code) s.codes) (count (use_of code) s.uses)
            available))
