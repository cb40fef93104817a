-- ===== src/Table.antt =====
-- A database table as the list of its rows in the order of insertion, with the statements that the
-- program's query builder issues: SELECT, UPDATE and DELETE with a WHERE test, and ORDER BY.
pub mod Counts
pub mod Rows
pub mod Sorted
use danaus.Prelude.{
  String, str_eq, str_ltb, ℕ, ◌+◌, ◌≤◌, ◌<◌, Bool, true, false, Option, none, some, List, [], ◌∷◌,
  length, if◌then◌else◌, leb,
}

-- A column `integer({ mode: 'timestamp' })`: what is read back of an instant in milliseconds that
-- was written. The database library keeps whole seconds, rounded down; it is not under src/.
pub record Timestamps : Type 0 where
  pub stored : ℕ → ℕ
  pub stored-le : (t : ℕ) → stored t ≤ t
  pub lt-stored : (t : ℕ) → t < stored t + 1000
  pub stored_mono : (t u : ℕ) → t ≤ u → stored t ≤ stored u

module _ {ℓ} {A : Type ℓ} where
  -- SELECT … WHERE p
  unfoldable pub select : (A → Bool) → List A → List A
  select p [] = []
  select p (x ∷ xs) = let rest = select p xs in if p x then x ∷ rest else rest

  -- SELECT … WHERE p, the first row
  unfoldable pub first : (A → Bool) → List A → Option A
  first p [] = none
  first p (x ∷ xs) = if p x then some x else first p xs

  -- SELECT count(*) … WHERE p
  abbrev pub count : (A → Bool) → List A → ℕ
  count p xs = length (select p xs)

  -- UPDATE … SET f WHERE p
  unfoldable pub update : (A → Bool) → (A → A) → List A → List A
  update p f [] = []
  update p f (x ∷ xs) = (if p x then f x else x) ∷ update p f xs

  -- DELETE … WHERE p
  unfoldable pub delete : (A → Bool) → List A → List A
  delete p [] = []
  delete p (x ∷ xs) = let rest = delete p xs in if p x then rest else x ∷ rest

  -- array.some(p)
  unfoldable pub any : (A → Bool) → List A → Bool
  any p [] = false
  any p (x ∷ xs) = if p x then true else any p xs

  -- ORDER BY key ASC
  insert_by : (A → ℕ) → A → List A → List A
  insert_by key a [] = a ∷ []
  insert_by key a (x ∷ xs) = if leb (key a) (key x) then a ∷ x ∷ xs else x ∷ insert_by key a xs

  unfoldable pub order_by : (A → ℕ) → List A → List A
  unfolding insert_by
  order_by key [] = []
  order_by key (x ∷ xs) = insert_by key x (order_by key xs)

  -- ORDER BY a text ASC, and DESC
  insert_by_text : (A → A → Bool) → A → List A → List A
  insert_by_text before a [] = a ∷ []
  insert_by_text before a (x ∷ xs) =
      if before x a then x ∷ insert_by_text before a xs else a ∷ x ∷ xs

  unfoldable pub order_by_text : (A → String) → List A → List A
  unfolding insert_by_text
  order_by_text key [] = []
  order_by_text key (x ∷ xs) =
      insert_by_text (λ a b. str_ltb (key a) (key b)) x (order_by_text key xs)

  unfoldable pub order_by_text_desc : (A → String) → List A → List A
  unfolding insert_by_text
  order_by_text_desc key [] = []
  order_by_text_desc key (x ∷ xs) =
      insert_by_text (λ a b. str_ltb (key b) (key a)) x (order_by_text_desc key xs)

  -- The keys rise strictly along the list, from above `n`.
  abbrev pub Ascending : (A → ℕ) → ℕ → List A → Type 0
  Ascending key n [] = Unit {0}
  Ascending key n (x ∷ xs) = (n < key x) × Ascending key (key x) xs

-- GROUP BY a text column: each value once.
unfoldable pub distinct : List String → List String
unfolding any
distinct [] = []
distinct (x ∷ xs) = let rest = distinct xs in if any (str_eq x) rest then rest else x ∷ rest
