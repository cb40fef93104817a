-- ===== src/Mfa/Names.antt =====
-- packages/danaus/src/accounts/mfa.ts: the names that `generateTotpName` and `generateWebAuthnName`
-- make, "Authenticator", "Authenticator 2" and on. The loop that looks for a free number has one
-- more round than there are names: the numbers that are taken have different names.
use Prim.Native.String as Str
use text.Mathlib.TextLemmas.{append_cancel_left}
use danaus.Prelude.{
  ℕ, zero, suc, ◌≤◌, ◌<◌, ◌≡◌, refl, sym, ap, ◌∙◌, String, Bool, false, List, [], ◌∷◌, arith,
  length, if◌then◌else◌, ◌==◌, str_eq, str_eq-other, Bool-cases, inl, inr,
}
use danaus.Table.{any, delete}
use danaus.Table.Rows.{any-delete, length-delete-lt}
use danaus.Text.{decimal}
use danaus.Text.Decimal.{decimal_inj}

-- `${base} ${num}`
unfoldable pub numbered : String → ℕ → String
numbered base num = Str.◌++◌ base (Str.◌++◌ " " (decimal num))

-- `existingNames.has(name)`
abbrev pub has : String → List String → Bool
has name names = any (str_eq name) names

-- `while (existingNames.has(…)) num++`
unfoldable pub next_free : String → List String → ℕ → ℕ → ℕ
unfolding numbered any
next_free base names zero num = num
next_free base names (suc fuel) num =
    let rest = next_free base names fuel (suc num) in
    if has (numbered base num) names then rest else num

unfoldable pub generate_name : String → List String → String
unfolding next_free
generate_name base names =
    if length names == 0 then base else numbered base (next_free base names (suc (length names)) 2)

numbered_inj : (base : String) (m n : ℕ) → numbered base m ≡ numbered base n → m ≡ n
unfolding numbered
numbered_inj base m n e = decimal_inj m n (append_cancel_left _ _ _ (append_cancel_left _ _ _ e))

-- `left` has the names from number `num` on that are still to be met.
free_from :
    (base : String) (names left : List String) (fuel num : ℕ)
    → ((k : ℕ) → num ≤ k → has (numbered base k) names ≡ has (numbered base k) left)
    → length left < fuel
    → has (numbered base (next_free base names fuel num)) names ≡ false
unfolding next_free
free_from base names left zero num h l = absurd (omega arith)
free_from base names left (suc fuel) num h l = elim (Bool-cases (has (numbered base num) names)) [
  | inl e ↦
      let taken = str_eq (numbered base num) in
      rw e (
        free_from base names (delete taken left) fuel (suc num)
          (λ k le.
            h k (omega arith)
            ∙ sym (
                any-delete (str_eq (numbered base k)) taken left λ x eq.
                  str_eq-other (numbered base k) (numbered base num) x
                    (λ q. absurd (omega (arith, numbered_inj base k num q))) eq))
          (omega (arith, length-delete-lt taken left (sym (h num (omega arith)) ∙ e))))
  | inr e ↦ rw e e
]

generate_name-cons :
    (base x : String) (xs : List String)
    → generate_name base (x ∷ xs)
      ≡ numbered base (next_free base (x ∷ xs) (suc (length (x ∷ xs))) 2)
unfolding generate_name
generate_name-cons base x xs = ground arith

-- A generated name is not among the names that there are: the loop ends at a free number.
pub generate_name-fresh :
    (base : String) (names : List String) → has (generate_name base names) names ≡ false
unfolding any
generate_name-fresh base [] = refl
generate_name-fresh base (x ∷ xs) =
    ap (λ name. has name (x ∷ xs)) (generate_name-cons base x xs)
    ∙ free_from base (x ∷ xs) (x ∷ xs) (suc (length (x ∷ xs))) 2 (λ k le. refl) (omega arith)
