-- ===== src/Table/Sorted.antt =====
-- ORDER BY a key on rows that already stand in its order.
use danaus.Prelude.{
  ℕ, ◌≤◌, ◌<◌, ◌≡◌, refl, Bool, List, [], ◌∷◌, ◌++◌, arith, All, inl, inr, Bool-cases,
}
use danaus.Table.{select, delete, order_by, Ascending}

module _ {ℓ} {A : Type ℓ} (key : A → ℕ) where
  pub Ascending-weaken : (m n : ℕ) (xs : List A) → m ≤ n → Ascending key n xs → Ascending key m xs
  Ascending-weaken m n [] h a = tt
  Ascending-weaken m n (x ∷ xs) h a = (omega arith, a.1)

  pub order_by-Ascending : (n : ℕ) (xs : List A) → Ascending key n xs → order_by key xs ≡ xs
  unfolding order_by
  order_by-Ascending n [] a = refl
  order_by-Ascending n (x ∷ []) a = refl
  order_by-Ascending n (x ∷ y ∷ ys) a =
      rw (order_by-Ascending (key x) (y ∷ ys) a.1) (ground (arith, a.1.0))

  pub select-Ascending :
      (p : A → Bool) (n : ℕ) (xs : List A) → Ascending key n xs → Ascending key n (select p xs)
  unfolding select
  select-Ascending p n [] a = tt
  select-Ascending p n (x ∷ xs) a = elim (Bool-cases (p x)) [
    | inl e ↦ rw e (a.0, select-Ascending p (key x) xs a.1)
    | inr e ↦
        rw e (
          Ascending-weaken n (key x) (select p xs) (omega arith)
            (select-Ascending p (key x) xs a.1))
  ]

  pub delete-Ascending :
      (p : A → Bool) (n : ℕ) (xs : List A) → Ascending key n xs → Ascending key n (delete p xs)
  unfolding delete
  delete-Ascending p n [] a = tt
  delete-Ascending p n (x ∷ xs) a = elim (Bool-cases (p x)) [
    | inl e ↦
        rw e (
          Ascending-weaken n (key x) (delete p xs) (omega arith)
            (delete-Ascending p (key x) xs a.1))
    | inr e ↦ rw e (a.0, delete-Ascending p (key x) xs a.1)
  ]

  -- A row with a key above all others goes to the end.
  pub Ascending-append :
      (n : ℕ) (xs : List A) (x : A)
      → n < key x
      → Ascending key n xs
      → All (λ y. key y < key x) xs
      → Ascending key n (xs ++ x ∷ [])
  Ascending-append n [] x h a b = (h, tt)
  Ascending-append n (y ∷ ys) x h a b = (a.0, Ascending-append (key y) ys x b.0 a.1 b.1)

  pub All-of-Ascending : (n : ℕ) (xs : List A) → Ascending key n xs → All (λ y. n < key y) xs
  All-of-Ascending n [] a = tt
  All-of-Ascending n (x ∷ xs) a =
      (a.0, All-of-Ascending n xs (Ascending-weaken n (key x) xs (omega arith) a.1))
