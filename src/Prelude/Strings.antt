-- ===== src/Prelude/Strings.antt =====
-- The Boolean test of equality on texts.
use Prim.Native.String.{String}
use mathlib.Core.Path.{◌≡◌, sym, ◌∙◌}
use mathlib.Core.Logic.{◌≢◌, inl, inr}
use mathlib.Core.Bool.{Bool, true, false}
use text.Mathlib.Text.{◌==◌ as str_eq}
use Prim.Native.String as Str
use Prim.Native.Nat.{Ordering}
use text.Mathlib.TextEquality.{eq_iff as str_eq_iff}
use danaus.Prelude.Tests.{Bool-cases}

pub str_eq→eq : (s t : String) → str_eq s t ≡ true → s ≡ t
str_eq→eq s t h = (str_eq_iff s t).0 h

pub eq→str_eq : (s t : String) → s ≡ t → str_eq s t ≡ true
eq→str_eq s t h = (str_eq_iff s t).1 h

pub str_eq-false : (s t : String) → s ≢ t → str_eq s t ≡ false
str_eq-false s t h = elim (Bool-cases (str_eq s t)) [
  | inl e ↦ absurd (h (str_eq→eq s t e))
  | inr e ↦ e
]

pub ne-of-str_eq-false : (s t : String) → str_eq s t ≡ false → s ≢ t
ne-of-str_eq-false s t h e = cc (h, eq→str_eq s t e)

-- A text that equals one of two different texts does not equal the other.
pub str_eq-other : (s t x : String) → s ≢ t → str_eq s x ≡ true → str_eq t x ≡ false
str_eq-other s t x h e = str_eq-false t x λ k. h (str_eq→eq s x e ∙ sym k)

pub str_eq_comm : (s t : String) → str_eq s t ≡ str_eq t s
str_eq_comm s t = elim (Bool-cases (str_eq s t)) [
  | inl e ↦ e ∙ sym (eq→str_eq t s (sym (str_eq→eq s t e)))
  | inr e ↦ e ∙ sym (str_eq-false t s λ k. ne-of-str_eq-false s t e (sym k))
]

-- A text that is one of two different texts is not the other.
pub str_eq-apart : (s t x : String) → s ≢ t → str_eq x s ≡ true → str_eq x t ≡ false
str_eq-apart s t x h e = str_eq-false x t λ k. h (sym (str_eq→eq x s e) ∙ k)

-- The order of texts by the numbers of their characters, which is the order of their bytes.
abbrev pub str_ltb : String → String → Bool
str_ltb s t = elim (Str.compare s t) [ Ordering.lt ↦ true | _ ↦ false ]
