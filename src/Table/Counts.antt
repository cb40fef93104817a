-- ===== src/Table/Counts.antt =====
-- How the statements on a table change the number of the rows that meet a test.
use danaus.Prelude.{
  ℕ, ◌+◌, ◌≤◌, ◌<◌, ◌≡◌, refl, ap, Bool, true, false, none, List, [], ◌∷◌, ◌++◌, arith, length,
  Bool-cases, inl, inr,
}
use danaus.Table.{select, first, count, delete}
use danaus.Table.Rows.{first-none, select-none}

module _ {ℓ} {A : Type ℓ} where
  pub count-append_hit :
      (p : A → Bool) (xs : List A) (x : A) → p x ≡ true → count p (xs ++ x ∷ []) ≡ count p xs + 1
  unfolding select
  count-append_hit p [] x h = ground (arith, h)
  count-append_hit p (y ∷ ys) x h = ground (arith, count-append_hit p ys x h)

  pub count-append_miss :
      (p : A → Bool) (xs : List A) (x : A) → p x ≡ false → count p (xs ++ x ∷ []) ≡ count p xs
  unfolding select
  count-append_miss p [] x h = ground (arith, h)
  count-append_miss p (y ∷ ys) x h = ground (arith, count-append_miss p ys x h)

  pub count-delete-le : (p q : A → Bool) (xs : List A) → count p (delete q xs) ≤ count p xs
  unfolding select delete
  count-delete-le p q [] = omega arith
  count-delete-le p q (x ∷ xs) = ground (arith, count-delete-le p q xs)

  pub count-none : (p : A → Bool) (xs : List A) → first p xs ≡ none → count p xs ≡ 0
  count-none p xs e = ap length (select-none p xs (first-none p xs e))

  -- A test that holds for no row so far holds for one at most with one more row.
  pub insert-le_one :
      (p : A → Bool) (rows : List A) (row : A)
      → (p row ≡ true → first p rows ≡ none)
      → count p rows ≤ 1
      → count p (rows ++ row ∷ []) ≤ 1
  insert-le_one p rows row h b = elim (Bool-cases (p row)) [
    | inl e ↦ omega (arith, count-append_hit p rows row e, count-none p rows (h e))
    | inr e ↦ omega (arith, count-append_miss p rows row e, b)
  ]

  pub insert-le :
      (p : A → Bool) (rows : List A) (row : A) (n : ℕ)
      → (p row ≡ true → count p rows < n)
      → count p rows ≤ n
      → count p (rows ++ row ∷ []) ≤ n
  insert-le p rows row n h b = elim (Bool-cases (p row)) [
    | inl e ↦ omega (arith, count-append_hit p rows row e, h e)
    | inr e ↦ omega (arith, count-append_miss p rows row e, b)
  ]

  pub count-append-le : (p : A → Bool) (xs : List A) (x : A) → count p xs ≤ count p (xs ++ x ∷ [])
  count-append-le p xs x = elim (Bool-cases (p x)) [
    | inl e ↦ omega (arith, count-append_hit p xs x e)
    | inr e ↦ omega (arith, count-append_miss p xs x e)
  ]

  pub first-none-count : (p : A → Bool) (xs : List A) → count p xs ≤ 0 → first p xs ≡ none
  unfolding first select
  first-none-count p [] h = refl
  first-none-count p (x ∷ xs) h = ground (arith, first-none-count p xs)
