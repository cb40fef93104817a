-- ===== src/Prelude/Results.antt =====
-- A value or an error: what a call that may throw gives.
use mathlib.Core.Path.{◌≡◌, refl, ap}
use mathlib.Core.Logic.{◌≢◌}

pub data Result {ℓ} (E : Type 0) (A : Type ℓ) : Type ℓ where
  fail : E → Result E A
  ok : A → Result E A

infixl 5 ◌>>=◌ ◌>>◌
abbrev pub ◌>>=◌ {ℓ κ} :
    {E : Type 0} {A : Type ℓ} {B : Type κ} → Result E A → (A → Result E B) → Result E B
fail e >>= f = fail e
ok a >>= f = f a

abbrev pub ◌>>◌ {ℓ} : {E : Type 0} {B : Type ℓ} → Result E (Unit {0}) → Result E B → Result E B
m >> k = m >>= λ _. k

unfoldable result_get {ℓ} : {E : Type 0} {A : Type ℓ} → A → Result E A → A
result_get d (fail e) = d
result_get d (ok a) = a

pub ok-injective {ℓ} :
    {E : Type 0} {A : Type ℓ} (a b : A) → ◌≡◌ {A = Result E A} (ok a) (ok b) → a ≡ b
unfolding result_get
ok-injective a b e = ap (result_get a) e

pub fail-ne-ok {ℓ} : {E : Type 0} {A : Type ℓ} (e : E) (a : A) → fail e ≢ ok a
fail-ne-ok e a h = cc

-- A call that returns after another returned a value.
pub bind-ok {ℓ κ} :
    {E : Type 0} {A : Type ℓ} {B : Type κ} (m : Result E A) (f : A → Result E B) (b : B)
    → (m >>= f) ≡ ok b
    → (a : A) × ((m ≡ ok a) × (f a ≡ ok b))
bind-ok (fail e) f b h = absurd (fail-ne-ok e b h)
bind-ok (ok a) f b h = (a, (refl, h))
