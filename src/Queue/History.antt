-- ===== src/Queue/History.antt =====
-- Any sequence of calls on the queue answers as it would on a plain list.
use danaus.Prelude.{
  ℕ, suc, ◌≡◌, refl, sym, ap, subst, ◌∙◌, Option, none, some, List, [], ◌∷◌, ◌++◌, length,
}
use danaus.Queue.{Queue, empty, clear, enqueue, enqueue_front, dequeue, peek, drain, iterate}
use danaus.Queue.Chain.{Nodes, values, values-append}
use danaus.Queue.Methods.{
  Holds, empty-Holds, clear-Holds, enqueue-Holds, enqueue_front-Holds, dequeue-nil, dequeue-cons,
  peek-nil, peek-cons, drain-values, iterate-values,
}

-- The calls of the class, and what a caller sees of each: values, and the size after it.
pub data Call {ℓ} (A : Type ℓ) : Type ℓ where
  enqueues enqueues_front : A → Call A
  dequeues peeks clears drains iterates : Call A

abbrev pub to_values {ℓ} : {A : Type ℓ} → Option A → List A
to_values none = []
to_values (some v) = v ∷ []

module _ {ℓ} {A : Type ℓ} where
  -- One call on the heap: what it returns, and the queue after it.
  unfoldable pub call : Call A → Queue A → List A × Queue A
  call (enqueues v) q = ([], enqueue v q)
  call (enqueues_front v) q = ([], enqueue_front v q)
  call dequeues q = (to_values (dequeue q).0, (dequeue q).1)
  call peeks q = (to_values (peek q), q)
  call clears q = ([], clear q)
  call drains q = drain (suc q.size) q
  call iterates q = (iterate q, q)

  -- The same call on the list of values, first in first out.
  unfoldable pub model : Call A → List A → List A × List A
  model (enqueues v) vs = ([], vs ++ v ∷ [])
  model (enqueues_front v) vs = ([], v ∷ vs)
  model dequeues [] = ([], [])
  model dequeues (v ∷ vs) = (v ∷ [], vs)
  model peeks [] = ([], [])
  model peeks (v ∷ vs) = (v ∷ [], v ∷ vs)
  model clears vs = ([], [])
  model drains vs = (vs, [])
  model iterates vs = (vs, vs)

  unfoldable pub run : List (Call A) → Queue A → List (List A × ℕ)
  unfolding call
  run [] q = []
  run (c ∷ cs) q = ((call c q).0, (call c q).1.size) ∷ run cs (call c q).1

  unfoldable pub run_model : List (Call A) → List A → List (List A × ℕ)
  unfolding model
  run_model [] vs = []
  run_model (c ∷ cs) vs = ((model c vs).0, length (model c vs).1) ∷ run_model cs (model c vs).1

  -- A call answers like the list, and leaves the nodes of the list's values.
  abbrev Agrees : List A × Queue A → List A × List A → Type ℓ
  Agrees r m = (r.0 ≡ m.0) × (ns : Nodes A) × Holds r.1 ns × (values ns ≡ m.1)

  call-Agrees :
      (c : Call A) (q : Queue A) (ns : Nodes A)
      → Holds q ns
      → Agrees (call c q) (model c (values ns))
  unfolding call model
  call-Agrees (enqueues v) q ns h =
      (refl, ns ++ (q.fresh, v) ∷ [], enqueue-Holds q ns v h, values-append ns q.fresh v)
  call-Agrees (enqueues_front v) q ns h =
      (refl, (q.fresh, v) ∷ ns, enqueue_front-Holds q ns v h, refl)
  call-Agrees dequeues q [] h =
      let e = dequeue-nil q h in
      (ap (λ r. to_values r.0) e, [], subst (λ r. Holds r.1 []) (sym e) h, refl)
  call-Agrees dequeues q ((p, v) ∷ ns) h =
      let (e, h') = dequeue-cons q p v ns h in (ap to_values e, ns, h', refl)
  call-Agrees peeks q [] h = (ap to_values (peek-nil q h), [], h, refl)
  call-Agrees peeks q ((p, v) ∷ ns) h = (ap to_values (peek-cons q p v ns h), (p, v) ∷ ns, h, refl)
  call-Agrees clears q ns h = (refl, [], clear-Holds q, refl)
  call-Agrees drains q ns h =
      let (vs, left) = drain-values q ns h in
      subst (λ n. Agrees (drain (suc n) q) (values ns, [])) (sym h.counted) (vs, [], left, refl)
  call-Agrees iterates q ns h = (iterate-values q ns h, ns, h, refl)

  run-Holds :
      (cs : List (Call A)) (q : Queue A) (ns : Nodes A)
      → Holds q ns
      → run cs q ≡ run_model cs (values ns)
  unfolding run run_model
  run-Holds [] q ns h = refl
  run-Holds (c ∷ cs) q ns h =
      let (returns, ns', h', vs) = call-Agrees c q ns h in
      cc (
        returns,
        h'.counted ∙ ap length vs,
        run-Holds cs (call c q).1 ns' h' ∙ ap (run_model cs) vs,
      )

-- Whatever calls are made on a new queue, each returns the values, and leaves the size, that the
-- same calls have on a list: first in first out, `enqueueFront` at the front, nothing lost.
pub run-eq-model {ℓ} : {A : Type ℓ} (cs : List (Call A)) → run cs empty ≡ run_model cs []
run-eq-model cs = run-Holds cs empty [] empty-Holds
