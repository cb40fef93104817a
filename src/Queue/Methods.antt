-- ===== src/Queue/Methods.antt =====
-- What each method of the queue does to the values that it holds, and the invariant of its nodes.
use danaus.Prelude.{
  ℕ, zero, suc, ◌<◌, ◌≡◌, refl, sym, ap, subst, ◌∙◌, Option, none, some, [], ◌∷◌, ◌++◌, arith,
  length, length-append,
}
use danaus.Queue.{
  Node, Queue, create_node, write, empty, clear, enqueue, enqueue_front, set_next, dequeue, peek,
  drain, walk, iterate,
}
use danaus.Queue.Chain.{
  Nodes, start, end, values, Chain, Distinct, Below, Below-suc, Absent-of_Below, Chain-write,
  Below-append, Distinct-append, end-append, end-some, values-append, Chain-append,
}

-- The nodes `ns` are those of the queue, from its head to its tail.
pub record Holds {ℓ} {A : Type ℓ} (q : Queue A) (ns : Nodes A) : Type ℓ where
  pub chain : Chain q.cell ns none
  pub distinct : Distinct ns
  pub below : Below q.fresh ns
  pub at_head : q.head ≡ start ns none
  pub at_tail : q.tail ≡ end ns
  pub counted : q.size ≡ length (values ns)

module _ {ℓ} {A : Type ℓ} where
  pub empty-Holds : Holds (empty {A = A}) []
  unfolding empty
  empty-Holds = record {
    chain = tt;
    distinct = tt;
    below = tt;
    at_head = refl;
    at_tail = refl;
    counted = refl;
  }

  pub clear-Holds : (q : Queue A) → Holds (clear q) []
  unfolding clear
  clear-Holds q = record {
    chain = tt;
    distinct = tt;
    below = tt;
    at_head = refl;
    at_tail = refl;
    counted = refl;
  }

  -- The queue after `enqueue` behind a node at `t`.
  abbrev linked : Queue A → A → ℕ → Queue A
  linked q v t = record q {
    cell = set_next (write q.cell q.fresh (create_node v none)) t q.fresh;
    fresh = suc q.fresh;
    tail = some q.fresh;
    size = suc q.size;
  }

  enqueue-linked : (q : Queue A) (v : A) (t : ℕ) → q.tail ≡ some t → enqueue v q ≡ linked q v t
  unfolding enqueue
  enqueue-linked q v t e = ground arith

  length-values-append :
      (ns : Nodes A) (p : ℕ) (v : A)
      → length (values (ns ++ (p, v) ∷ [])) ≡ suc (length (values ns))
  length-values-append ns p v =
      omega (arith, ap length (values-append ns p v), length-append (values ns) (v ∷ []))

  linked-Holds :
      (q : Queue A) (n : ℕ × A) (ns : Nodes A) (v : A) (t : ℕ)
      → Holds q (n ∷ ns)
      → end (n ∷ ns) ≡ some t
      → Holds (linked q v t) ((n ∷ ns) ++ (q.fresh, v) ∷ [])
  linked-Holds q n ns v t h e =
      let away = Absent-of_Below q.fresh (n ∷ ns) h.below in
      record {
        chain =
            Chain-append _ q.fresh v t (n ∷ ns) h.distinct away e (ground arith)
              (Chain-write q.cell q.fresh (create_node v none) (n ∷ ns) none away h.chain);
        distinct = Distinct-append q.fresh v (n ∷ ns) away h.distinct;
        below =
            Below-append (suc q.fresh) q.fresh v (n ∷ ns) (Below-suc q.fresh (n ∷ ns) h.below)
              (omega arith);
        at_head = h.at_head;
        at_tail = sym (end-append (n ∷ ns) q.fresh v);
        counted = omega (arith, h.counted, length-values-append (n ∷ ns) q.fresh v);
      }

  -- A value goes behind all others.
  pub enqueue-Holds :
      (q : Queue A) (ns : Nodes A) (v : A)
      → Holds q ns
      → Holds (enqueue v q) (ns ++ (q.fresh, v) ∷ [])
  unfolding enqueue
  enqueue-Holds q [] v h = record {
    chain = (ground arith, tt);
    distinct = (tt, tt);
    below = ground arith;
    at_head = ground arith;
    at_tail = ground arith;
    counted = ground arith;
  }
  enqueue-Holds q (n ∷ ns) v h =
      let (t, e) = end-some n ns in
      rw (enqueue-linked q v t (h.at_tail ∙ e)) (linked-Holds q n ns v t h e)

  front_end :
      (q : Queue A) (ns : Nodes A) (v : A)
      → Holds q ns
      → (enqueue_front v q).tail ≡ end ((q.fresh, v) ∷ ns)
  unfolding enqueue_front
  front_end q [] v h = ground arith
  front_end q (n ∷ ns) v h = ground arith

  -- A value goes before all others.
  pub enqueue_front-Holds :
      (q : Queue A) (ns : Nodes A) (v : A)
      → Holds q ns
      → Holds (enqueue_front v q) ((q.fresh, v) ∷ ns)
  unfolding enqueue_front
  enqueue_front-Holds q ns v h =
      let away = Absent-of_Below q.fresh ns h.below in
      record {
        chain = (ground arith, Chain-write q.cell q.fresh _ ns none away h.chain);
        distinct = (away, h.distinct);
        below = (omega arith, Below-suc q.fresh ns h.below);
        at_head = refl;
        at_tail = front_end q ns v h;
        counted = omega (arith, h.counted);
      }

  pub dequeue-nil : (q : Queue A) → Holds q [] → dequeue q ≡ (none, q)
  unfolding dequeue
  dequeue-nil q h = ground arith

  cell-dequeue : (q : Queue A) → (dequeue q).1.cell ≡ q.cell
  unfolding dequeue
  cell-dequeue q = ground arith

  fresh-dequeue : (q : Queue A) → (dequeue q).1.fresh ≡ q.fresh
  unfolding dequeue
  fresh-dequeue q = ground arith

  -- The first value is returned, and its node leaves the chain.
  pub dequeue-cons :
      (q : Queue A) (p : ℕ) (v : A) (ns : Nodes A)
      → Holds q ((p, v) ∷ ns)
      → ((dequeue q).0 ≡ some v) × Holds (dequeue q).1 ns
  unfolding dequeue
  dequeue-cons q p v [] h = (
    ground (arith, h.chain),
    record {
      chain = tt;
      distinct = tt;
      below = tt;
      at_head = ground arith;
      at_tail = ground arith;
      counted = ground arith;
    },
  )
  dequeue-cons q p v (n ∷ ns) h = (
    ground (arith, h.chain),
    record {
      chain = subst (λ cell. Chain cell (n ∷ ns) none) (sym (cell-dequeue q)) h.chain.1;
      distinct = h.distinct.1;
      below = subst (λ m. Below m (n ∷ ns)) (sym (fresh-dequeue q)) h.below.1;
      at_head = ground arith;
      at_tail = ground arith;
      counted = ground arith;
    },
  )

  pub peek-nil : (q : Queue A) → Holds q [] → peek q ≡ none
  unfolding peek
  peek-nil q h = ground arith

  pub peek-cons :
      (q : Queue A) (p : ℕ) (v : A) (ns : Nodes A) → Holds q ((p, v) ∷ ns) → peek q ≡ some v
  unfolding peek
  peek-cons q p v ns h = ground (arith, h.chain)

  drain-none : (n : ℕ) (q : Queue A) → (dequeue q).0 ≡ none → drain (suc n) q ≡ ([], (dequeue q).1)
  unfolding drain
  drain-none n q e = ground arith

  drain-some :
      (n : ℕ) (q : Queue A) (v : A)
      → (dequeue q).0 ≡ some v
      → drain (suc n) q ≡ (v ∷ (drain n (dequeue q).1).0, (drain n (dequeue q).1).1)
  unfolding drain
  drain-some n q v e = ground arith

  -- Draining returns all values in order, and leaves an empty queue.
  pub drain-values :
      (q : Queue A) (ns : Nodes A)
      → Holds q ns
      → ((drain (suc (length (values ns))) q).0 ≡ values ns)
        × Holds (drain (suc (length (values ns))) q).1 []
  drain-values q [] h =
      let e = dequeue-nil q h in
      rw (drain-none 0 q (ap (λ r. r.0) e)) (refl, subst (λ r. Holds r.1 []) (sym e) h)
  drain-values q ((p, v) ∷ ns) h =
      let (e, h') = dequeue-cons q p v ns h in
      let (vs, left) = drain-values (dequeue q).1 ns h' in
      rw (drain-some _ q v e) (ap (◌∷◌ v) vs, left)

  walk-values :
      (rounds : ℕ) (cell : ℕ → Option (Node A)) (ns : Nodes A)
      → Chain cell ns none
      → length (values ns) < rounds
      → walk rounds cell (start ns none) ≡ values ns
  unfolding walk
  walk-values zero cell ns c h = absurd (omega arith)
  walk-values (suc rounds) cell [] c h = refl
  walk-values (suc rounds) cell ((p, v) ∷ ns) c h =
      ground (arith, c.0, walk-values rounds cell ns c.1)

  -- Iterating sees all values in order, and has no node left over.
  pub iterate-values : (q : Queue A) (ns : Nodes A) → Holds q ns → iterate q ≡ values ns
  unfolding iterate
  iterate-values q ns h =
      rw h.at_head (walk-values (suc q.size) q.cell ns h.chain (omega (arith, h.counted)))
