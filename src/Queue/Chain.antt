-- ===== src/Queue/Chain.antt =====
-- The nodes of a queue as a chain of addresses and values in the heap.
use danaus.Prelude.{
  ℕ, suc, ◌<◌, ◌≡◌, ◌≢◌, refl, ◌∙◌, Option, none, some, List, [], ◌∷◌, ◌++◌, arith,
}
use danaus.Queue.{Node, create_node, write, set_next}

abbrev pub Nodes {ℓ} : Type ℓ → Type ℓ
Nodes A = List (ℕ × A)

module _ {ℓ} {A : Type ℓ} where
  -- The address that the first node has, or `last` if there is none.
  abbrev pub start : Nodes A → Option ℕ → Option ℕ
  start [] last = last
  start ((p, v) ∷ ns) last = some p

  abbrev pub end : Nodes A → Option ℕ
  end [] = none
  end ((p, v) ∷ []) = some p
  end ((p, v) ∷ n ∷ ns) = end (n ∷ ns)

  abbrev pub values : Nodes A → List A
  values [] = []
  values ((p, v) ∷ ns) = v ∷ values ns

  -- Each node holds its value and points to the next one; the last one points to `last`.
  abbrev pub Chain : (ℕ → Option (Node A)) → Nodes A → Option ℕ → Type ℓ
  Chain cell [] last = Unit
  Chain cell ((p, v) ∷ ns) last =
      (cell p ≡ some (create_node v (start ns last))) × Chain cell ns last

  -- No node of the list stands at `p`.
  abbrev pub Absent : ℕ → Nodes A → Type 0
  Absent p [] = Unit {0}
  Absent p ((q, v) ∷ ns) = (q ≢ p) × Absent p ns

  abbrev pub Distinct : Nodes A → Type 0
  Distinct [] = Unit {0}
  Distinct ((p, v) ∷ ns) = Absent p ns × Distinct ns

  -- All addresses lie below `n`.
  abbrev pub Below : ℕ → Nodes A → Type 0
  Below n [] = Unit {0}
  Below n ((p, v) ∷ ns) = (p < n) × Below n ns

  pub Below-suc : (n : ℕ) (ns : Nodes A) → Below n ns → Below (suc n) ns
  Below-suc n [] b = tt
  Below-suc n ((p, v) ∷ ns) b = (omega arith, Below-suc n ns b.1)

  pub Absent-of_Below : (n : ℕ) (ns : Nodes A) → Below n ns → Absent n ns
  Absent-of_Below n [] b = tt
  Absent-of_Below n ((p, v) ∷ ns) b = (omega arith, Absent-of_Below n ns b.1)

  pub Chain-write :
      (cell : ℕ → Option (Node A)) (p : ℕ) (n : Node A) (ns : Nodes A) (last : Option ℕ)
      → Absent p ns
      → Chain cell ns last
      → Chain (write cell p n) ns last
  Chain-write cell p n [] last a c = tt
  Chain-write cell p n ((q, v) ∷ ns) last a c =
      (ground (arith, a.0, c.0), Chain-write cell p n ns last a.1 c.1)

  pub Below-append :
      (n p : ℕ) (v : A) (ns : Nodes A) → Below n ns → p < n → Below n (ns ++ (p, v) ∷ [])
  Below-append n p v [] b h = (h, tt)
  Below-append n p v ((q, w) ∷ ns) b h = (b.0, Below-append n p v ns b.1 h)

  Absent-append :
      (q p : ℕ) (v : A) (ns : Nodes A) → Absent q ns → p ≢ q → Absent q (ns ++ (p, v) ∷ [])
  Absent-append q p v [] a h = (h, tt)
  Absent-append q p v ((r, w) ∷ ns) a h = (a.0, Absent-append q p v ns a.1 h)

  pub Distinct-append :
      (p : ℕ) (v : A) (ns : Nodes A) → Absent p ns → Distinct ns → Distinct (ns ++ (p, v) ∷ [])
  Distinct-append p v [] a d = (tt, tt)
  Distinct-append p v ((q, w) ∷ ns) a d =
      (Absent-append q p v ns d.0 (λ e. a.0 (ground arith)), Distinct-append p v ns a.1 d.1)

  pub end-append : (ns : Nodes A) (p : ℕ) (v : A) → end (ns ++ (p, v) ∷ []) ≡ some p
  end-append [] p v = refl
  end-append (n ∷ []) p v = refl
  end-append (n ∷ m ∷ ns) p v = end-append (m ∷ ns) p v

  pub end-some : (n : ℕ × A) (ns : Nodes A) → (t : ℕ) × (end (n ∷ ns) ≡ some t)
  end-some (p, v) [] = (p, refl)
  end-some (p, v) (n ∷ ns) = end-some n ns

  pub values-append :
      (ns : Nodes A) (p : ℕ) (v : A) → values (ns ++ (p, v) ∷ []) ≡ values ns ++ v ∷ []
  values-append [] p v = refl
  values-append ((q, w) ∷ ns) p v = λ i. w ∷ values-append ns p v i

  end-ne_of_Absent : (q t : ℕ) (ns : Nodes A) → Absent q ns → end ns ≡ some t → t ≢ q
  end-ne_of_Absent q t [] a e = cc
  end-ne_of_Absent q t ((r, u) ∷ []) a e = ground (arith, a.0)
  end-ne_of_Absent q t ((r, u) ∷ n ∷ ns) a e = end-ne_of_Absent q t (n ∷ ns) a.1 e

  set_next_away : (cell : ℕ → Option (Node A)) (t p q : ℕ) → t ≢ q → set_next cell t p q ≡ cell q
  unfolding set_next
  set_next_away cell t p q h = ground arith

  -- Linking the last node to `p` hangs the node at `p` behind the chain.
  pub Chain-append :
      (cell : ℕ → Option (Node A)) (p : ℕ) (v : A) (t : ℕ) (ns : Nodes A)
      → Distinct ns
      → Absent p ns
      → end ns ≡ some t
      → cell p ≡ some (create_node v none)
      → Chain cell ns none
      → Chain (set_next cell t p) (ns ++ (p, v) ∷ []) none
  unfolding set_next
  Chain-append cell p v t [] d a e h c = cc
  Chain-append cell p v t ((q, w) ∷ []) d a e h c =
      (ground (arith, c.0), (ground (arith, c.0, a.0), tt))
  Chain-append cell p v t ((q, w) ∷ (r, u) ∷ ns) d a e h c = (
    set_next_away cell t p q (end-ne_of_Absent q t ((r, u) ∷ ns) d.0 e) ∙ c.0,
    Chain-append cell p v t ((r, u) ∷ ns) d.1 a.1 e h c.1,
  )
