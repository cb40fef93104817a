-- ===== src/Text/Decimal.antt =====
-- Different numbers print differently.
use Prim.Native.String.{◌++◌, count}
use text.Mathlib.TextLemmas.{append_inj, length-append}
use danaus.Prelude.{
  ℕ, zero, suc, ◌+◌, ◌/◌, ◌%◌, ◌<◌, ◌≤◌, ◌≡◌, refl, sym, ap, ◌∙◌, String, if◌then◌else◌, ltb,
  str_eq, arith, inl, inr, Bool-cases, ◌≢◌,
}
use danaus.Text.{digit, decimal_digits, decimal}

value : String → ℕ
value s =
    if str_eq s "0"
    then 0
    else if str_eq s "1"
    then 1
    else if str_eq s "2"
    then 2
    else if str_eq s "3"
    then 3
    else if str_eq s "4"
    then 4
    else if str_eq s "5"
    then 5
    else if str_eq s "6"
    then 6
    else if str_eq s "7"
    then 7
    else if str_eq s "8"
    then 8
    else 9

value-digit : (n : ℕ) → n < 10 → value (digit n) ≡ n
unfolding value
value-digit zero h = refl
value-digit (suc zero) h = refl
value-digit (suc (suc zero)) h = refl
value-digit (suc (suc (suc zero))) h = refl
value-digit (suc (suc (suc (suc zero)))) h = refl
value-digit (suc (suc (suc (suc (suc zero))))) h = refl
value-digit (suc (suc (suc (suc (suc (suc zero)))))) h = refl
value-digit (suc (suc (suc (suc (suc (suc (suc zero))))))) h = refl
value-digit (suc (suc (suc (suc (suc (suc (suc (suc zero)))))))) h = refl
value-digit (suc (suc (suc (suc (suc (suc (suc (suc (suc zero))))))))) h = refl
value-digit (suc (suc (suc (suc (suc (suc (suc (suc (suc (suc n)))))))))) h = absurd (omega arith)

count-digit : (n : ℕ) → n < 10 → count (digit n) ≡ 1
count-digit zero h = refl
count-digit (suc zero) h = refl
count-digit (suc (suc zero)) h = refl
count-digit (suc (suc (suc zero))) h = refl
count-digit (suc (suc (suc (suc zero)))) h = refl
count-digit (suc (suc (suc (suc (suc zero))))) h = refl
count-digit (suc (suc (suc (suc (suc (suc zero)))))) h = refl
count-digit (suc (suc (suc (suc (suc (suc (suc zero))))))) h = refl
count-digit (suc (suc (suc (suc (suc (suc (suc (suc zero)))))))) h = refl
count-digit (suc (suc (suc (suc (suc (suc (suc (suc (suc zero))))))))) h = refl
count-digit (suc (suc (suc (suc (suc (suc (suc (suc (suc (suc n)))))))))) h = absurd (omega arith)

digit_inj : (m n : ℕ) → m < 10 → n < 10 → digit m ≡ digit n → m ≡ n
digit_inj m n h k e = sym (value-digit m h) ∙ ap value e ∙ value-digit n k

digits_small : (fuel n : ℕ) → n < 10 → decimal_digits (suc fuel) n ≡ digit n
unfolding decimal_digits
digits_small fuel n h = ground arith

digits_large :
    (fuel n : ℕ)
    → 10 ≤ n
    → decimal_digits (suc fuel) n ≡ decimal_digits fuel (n / 10) ++ digit (n % 10)
unfolding decimal_digits
digits_large fuel n h = ground arith

count-decimal_digits-pos : (fuel n : ℕ) → n < fuel → 0 < count (decimal_digits fuel n)
count-decimal_digits-pos zero n h = absurd (omega arith)
count-decimal_digits-pos (suc fuel) n h = elim (Bool-cases (ltb n 10)) [
  | inl e ↦ rw (digits_small fuel n (ground arith), count-digit n (ground arith)) (omega arith)
  | inr e ↦
      rw (digits_large fuel n (ground arith), length-append, count-digit (n % 10) (omega arith))
        (omega arith)
]

-- Texts with a last digit each: the digits agree, and what stands before them.
last_digit :
    (s t : String) (d e : ℕ)
    → d < 10
    → e < 10
    → s ++ digit d ≡ t ++ digit e
    → (s ≡ t) × (digit d ≡ digit e)
last_digit s t d e h k eq =
    let lengths : count s + count (digit d) ≡ count t + count (digit e) =
      sym (length-append s (digit d)) ∙ ap count eq ∙ length-append t (digit e) in
    append_inj eq (omega (arith, lengths, count-digit d h, count-digit e k))

one_digit :
    (f g m n : ℕ)
    → m < 10
    → 10 ≤ n
    → n < suc g
    → decimal_digits (suc f) m ≢ decimal_digits (suc g) n
one_digit f g m n h k l e =
    let short : count (decimal_digits (suc f) m) ≡ 1 = rw (digits_small f m h) (count-digit m h) in
    let long : count (decimal_digits (suc g) n) ≡ count (decimal_digits g (n / 10)) + 1 =
      rw (digits_large g n k, length-append, count-digit (n % 10) (omega arith)) refl in
    omega (arith, short, long, ap count e, count-decimal_digits-pos g (n / 10) (omega arith))

decimal_digits_inj : (f g m n : ℕ) → m < f → n < g → decimal_digits f m ≡ decimal_digits g n → m ≡ n
decimal_digits_inj zero g m n h k e = absurd (omega arith)
decimal_digits_inj (suc f) zero m n h k e = absurd (omega arith)
decimal_digits_inj (suc f) (suc g) m n h k e = elim (Bool-cases (ltb m 10)) [
  | inl p ↦ elim (Bool-cases (ltb n 10)) [
    | inl q ↦
        digit_inj m n (ground arith) (ground arith)
          (sym (digits_small f m (ground arith)) ∙ e ∙ digits_small g n (ground arith))
    | inr q ↦ absurd (one_digit f g m n (ground arith) (ground arith) k e)
  ]
  | inr p ↦ elim (Bool-cases (ltb n 10)) [
    | inl q ↦ absurd (one_digit g f n m (ground arith) (ground arith) h (sym e))
    | inr q ↦
        let ten_m : 10 ≤ m = ground arith in
        let ten_n : 10 ≤ n = ground arith in
        let same = sym (digits_large f m (ground arith)) ∙ e ∙ digits_large g n (ground arith) in
        let (high, low) =
          last_digit (decimal_digits f (m / 10)) (decimal_digits g (n / 10)) (m % 10) (n % 10)
            (omega arith) (omega arith) same in
        let tens = decimal_digits_inj f g (m / 10) (n / 10) (omega arith) (omega arith) high in
        let ones = digit_inj (m % 10) (n % 10) (omega arith) (omega arith) low in
        omega (arith, tens, ones)
  ]
]

pub decimal_inj : (m n : ℕ) → decimal m ≡ decimal n → m ≡ n
unfolding decimal
decimal_inj m n e = decimal_digits_inj (suc m) (suc n) m n (omega arith) (omega arith) e
