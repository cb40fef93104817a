-- ===== src/Table/Rows.antt =====
-- Laws of SELECT, UPDATE and DELETE on the rows of a table.
use danaus.Prelude.{
  ◌≤◌, ◌<◌, ◌≡◌, refl, inl, inr, Bool, true, false, none, some, List, [], ◌∷◌, ◌++◌, arith, length,
  All, Bool-cases,
}
use danaus.Table.{select, first, count, update, delete, any}

module _ {ℓ} {A : Type ℓ} where
  pub select-append :
      (p : A → Bool) (xs ys : List A) → select p (xs ++ ys) ≡ select p xs ++ select p ys
  unfolding select
  select-append p [] ys = refl
  select-append p (x ∷ xs) ys = ground (arith, select-append p xs ys)

  pub length-select-le : (p : A → Bool) (xs : List A) → length (select p xs) ≤ length xs
  unfolding select
  length-select-le p [] = omega arith
  length-select-le p (x ∷ xs) = ground (arith, length-select-le p xs)

  pub select-All {κ} :
      (P : A → Type κ) (p : A → Bool) (xs : List A) → All P xs → All P (select p xs)
  unfolding select
  select-All P p [] h = tt
  select-All P p (x ∷ xs) h = elim (Bool-cases (p x)) [
    | inl e ↦ rw e (h.0, select-All P p xs h.1)
    | inr e ↦ rw e (select-All P p xs h.1)
  ]

  pub select-holds : (p : A → Bool) (xs : List A) → All (λ x. p x ≡ true) (select p xs)
  unfolding select
  select-holds p [] = tt
  select-holds p (x ∷ xs) = elim (Bool-cases (p x)) [
    | inl e ↦ rw e (e, select-holds p xs)
    | inr e ↦ rw e (select-holds p xs)
  ]

  pub delete-All {κ} :
      (P : A → Type κ) (p : A → Bool) (xs : List A) → All P xs → All P (delete p xs)
  unfolding delete
  delete-All P p [] h = tt
  delete-All P p (x ∷ xs) h = elim (Bool-cases (p x)) [
    | inl e ↦ rw e (delete-All P p xs h.1)
    | inr e ↦ rw e (h.0, delete-All P p xs h.1)
  ]

  pub delete-misses : (p : A → Bool) (xs : List A) → All (λ x. p x ≡ false) (delete p xs)
  unfolding delete
  delete-misses p [] = tt
  delete-misses p (x ∷ xs) = elim (Bool-cases (p x)) [
    | inl e ↦ rw e (delete-misses p xs)
    | inr e ↦ rw e (e, delete-misses p xs)
  ]

  pub update-All {κ} :
      (P : A → Type κ) (p : A → Bool) (f : A → A) (xs : List A)
      → ((x : A) → p x ≡ true → P x → P (f x))
      → All P xs
      → All P (update p f xs)
  unfolding update
  update-All P p f [] k h = tt
  update-All P p f (x ∷ xs) k h = elim (Bool-cases (p x)) [
    | inl e ↦ rw e (k x e h.0, update-All P p f xs k h.1)
    | inr e ↦ rw e (h.0, update-All P p f xs k h.1)
  ]

  -- The first row that meets the test is a row that meets it.
  pub first-All {κ} :
      (P : A → Type κ) (p : A → Bool) (xs : List A) (x : A)
      → All P xs
      → first p xs ≡ some x
      → P x × (p x ≡ true)
  unfolding first
  first-All P p [] x h e = cc
  first-All P p (y ∷ ys) x h e = elim (Bool-cases (p y)) [
    | inl t ↦ ground (arith, h.0, t, e)
    | inr f ↦ first-All P p ys x h.1 (ground arith)
  ]

  pub first-none : (p : A → Bool) (xs : List A) → first p xs ≡ none → All (λ x. p x ≡ false) xs
  unfolding first
  first-none p [] e = tt
  first-none p (y ∷ ys) e = (ground arith, first-none p ys (ground arith))

  pub first-none_of : (p : A → Bool) (xs : List A) → All (λ x. p x ≡ false) xs → first p xs ≡ none
  unfolding first
  first-none_of p [] h = refl
  first-none_of p (y ∷ ys) h = ground (arith, h.0, first-none_of p ys h.1)

  pub select-none : (p : A → Bool) (xs : List A) → All (λ x. p x ≡ false) xs → select p xs ≡ []
  unfolding select
  select-none p [] h = refl
  select-none p (y ∷ ys) h = ground (arith, h.0, select-none p ys h.1)

  pub select-eq_self : (p : A → Bool) (xs : List A) → All (λ x. p x ≡ true) xs → select p xs ≡ xs
  unfolding select
  select-eq_self p [] h = refl
  select-eq_self p (y ∷ ys) h = ground (arith, h.0, select-eq_self p ys h.1)

  -- Rows of an unrelated test are all kept by a deletion.
  pub select-delete :
      (p q : A → Bool) (xs : List A)
      → ((x : A) → p x ≡ true → q x ≡ false)
      → select p (delete q xs) ≡ select p xs
  unfolding select delete
  select-delete p q [] k = refl
  select-delete p q (x ∷ xs) k = ground (arith, k x, select-delete p q xs k)

  -- An update that keeps the outcome of a test on the rows it changes keeps their number.
  pub count-update :
      (p q : A → Bool) (f : A → A) (xs : List A)
      → ((x : A) → p (f x) ≡ p x)
      → count p (update q f xs) ≡ count p xs
  unfolding select update
  count-update p q f [] k = refl
  count-update p q f (x ∷ xs) k = ground (arith, k x, count-update p q f xs k)

  pub first-append_some :
      (p : A → Bool) (xs ys : List A) (x : A) → first p xs ≡ some x → first p (xs ++ ys) ≡ some x
  unfolding first
  first-append_some p [] ys x e = cc
  first-append_some p (y ∷ xs) ys x e = ground (arith, first-append_some p xs ys x)

  pub first-append_none :
      (p : A → Bool) (xs ys : List A) → first p xs ≡ none → first p (xs ++ ys) ≡ first p ys
  unfolding first
  first-append_none p [] ys e = refl
  first-append_none p (y ∷ xs) ys e = ground (arith, first-append_none p xs ys)

  pub any-delete :
      (p q : A → Bool) (xs : List A)
      → ((x : A) → p x ≡ true → q x ≡ false)
      → any p (delete q xs) ≡ any p xs
  unfolding any delete
  any-delete p q [] k = refl
  any-delete p q (x ∷ xs) k = ground (arith, k x, any-delete p q xs k)

  pub length-delete-le : (q : A → Bool) (xs : List A) → length (delete q xs) ≤ length xs
  unfolding delete
  length-delete-le q [] = omega arith
  length-delete-le q (x ∷ xs) = ground (arith, length-delete-le q xs)

  pub length-delete-lt :
      (q : A → Bool) (xs : List A) → any q xs ≡ true → length (delete q xs) < length xs
  unfolding any delete
  length-delete-lt q [] h = absurd (cc)
  length-delete-lt q (x ∷ xs) h = ground (arith, h, length-delete-le q xs, length-delete-lt q xs)

  pub first-any : (p : A → Bool) (xs : List A) → first p xs ≡ none → any p xs ≡ false
  unfolding first any
  first-any p [] h = refl
  first-any p (x ∷ xs) h = ground (arith, first-any p xs)

  pub first-holds : (p : A → Bool) (xs : List A) (x : A) → first p xs ≡ some x → p x ≡ true
  unfolding first
  first-holds p [] x e = cc
  first-holds p (y ∷ ys) x e = elim (Bool-cases (p y)) [
    | inl t ↦ ground (arith, t, e)
    | inr f ↦ first-holds p ys x (ground arith)
  ]
