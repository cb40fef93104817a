-- ===== src/Queue/Fifo.antt =====
-- What a client of the queue relies on, and the queue as an implementation of it.
use danaus.Prelude.{ℕ, ◌≡◌, sym, ap, subst, ◌∙◌, Option, none, List, [], ◌∷◌, ◌++◌, length}
use danaus.Queue.{Queue, empty, enqueue, dequeue, iterate}
use danaus.Queue.Chain.{Nodes, values-append}
use danaus.Queue.Methods.{
  Holds, empty-Holds, enqueue-Holds, dequeue-nil, dequeue-cons, iterate-values,
}
use danaus.Queue.History.{to_values}

pub record Fifo (A : Type 0) : Type 1 where
  pub Q : Type 0
  pub Good : Q → Type 0
  pub contents : Q → List A
  pub empty : Q
  pub enqueue : A → Q → Q
  pub dequeue : Q → Option A × Q
  pub size : Q → ℕ
  pub empty-Good : Good empty
  pub contents-empty : contents empty ≡ []
  pub enqueue-Good : (v : A) (q : Q) → Good q → Good (enqueue v q)
  pub contents-enqueue : (v : A) (q : Q) → Good q → contents (enqueue v q) ≡ contents q ++ v ∷ []
  pub dequeue-Good : (q : Q) → Good q → Good (dequeue q).1
  pub contents-dequeue :
      (q : Q) → Good q → contents q ≡ to_values (dequeue q).0 ++ contents (dequeue q).1
  pub dequeue-none : (q : Q) → Good q → (dequeue q).0 ≡ none → contents q ≡ []
  pub size-contents : (q : Q) → Good q → size q ≡ length (contents q)

module _ {A : Type 0} where
  abbrev pub IsChained : Queue A → Type 0
  IsChained q = (ns : Nodes A) × Holds q ns

  pub IsChained-enqueue : (v : A) (q : Queue A) → IsChained q → IsChained (enqueue v q)
  IsChained-enqueue v q (ns, h) = (ns ++ (q.fresh, v) ∷ [], enqueue-Holds q ns v h)

  pub IsChained-dequeue : (q : Queue A) → IsChained q → IsChained (dequeue q).1
  IsChained-dequeue q ([], h) = ([], subst (λ r. Holds r.1 []) (sym (dequeue-nil q h)) h)
  IsChained-dequeue q ((p, v) ∷ ns, h) = (ns, (dequeue-cons q p v ns h).1)

  pub iterate-enqueue :
      (v : A) (q : Queue A) → IsChained q → iterate (enqueue v q) ≡ iterate q ++ v ∷ []
  iterate-enqueue v q (ns, h) =
      iterate-values _ _ (enqueue-Holds q ns v h)
      ∙ values-append ns q.fresh v
      ∙ ap (λ vs. vs ++ v ∷ []) (sym (iterate-values q ns h))

  pub iterate-dequeue :
      (q : Queue A) → IsChained q → iterate q ≡ to_values (dequeue q).0 ++ iterate (dequeue q).1
  iterate-dequeue q ([], h) = cc (
    iterate-values q [] h,
    ap (λ r. to_values r.0) (dequeue-nil q h),
    ap (λ r. iterate r.1) (dequeue-nil q h),
  )
  iterate-dequeue q ((p, v) ∷ ns, h) =
      let (e, h') = dequeue-cons q p v ns h in
      iterate-values q _ h
      ∙ ap (◌∷◌ v) (sym (iterate-values _ ns h'))
      ∙ ap (λ o. to_values o ++ iterate (dequeue q).1) (sym e)

  pub dequeue_empty : (q : Queue A) → IsChained q → (dequeue q).0 ≡ none → iterate q ≡ []
  dequeue_empty q ([], h) e = iterate-values q [] h
  dequeue_empty q ((p, v) ∷ ns, h) e = cc (e, (dequeue-cons q p v ns h).0)

  pub size-iterate : (q : Queue A) → IsChained q → q.size ≡ length (iterate q)
  size-iterate q (ns, h) = h.counted ∙ ap length (sym (iterate-values q ns h))

  -- The queue of the program, behind its laws.
  abbrev pub linked_queue : Fifo A
  linked_queue = record {
    Q = Queue A;
    Good = IsChained;
    contents = iterate;
    empty = empty;
    enqueue = enqueue;
    dequeue = dequeue;
    size = λ q. q.size;
    empty-Good = ([], empty-Holds);
    contents-empty = iterate-values empty [] empty-Holds;
    enqueue-Good = IsChained-enqueue;
    contents-enqueue = iterate-enqueue;
    dequeue-Good = IsChained-dequeue;
    contents-dequeue = iterate-dequeue;
    dequeue-none = dequeue_empty;
    size-contents = size-iterate;
  }
