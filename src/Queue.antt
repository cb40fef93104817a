-- ===== src/Queue.antt =====
-- packages/danaus/src/utils/queue.ts: the first-in first-out queue, a singly linked list of nodes
-- with a pointer to each end. Nodes are shared and mutated, so they stand at addresses of a heap;
-- `fresh` is the next address that has never been used. The proofs are in the modules below.
pub mod Chain
pub mod Methods
pub mod History
pub mod Fifo
use danaus.Prelude.{ℕ, zero, suc, ◌+◌, ◌-◌, Option, none, some, List, [], ◌∷◌, ◌==◌, if◌then◌else◌}

pub record Node {ℓ} (A : Type ℓ) : Type ℓ where
  pub value : A
  pub next : Option ℕ

pub record Queue {ℓ} (A : Type ℓ) : Type ℓ where
  pub cell : ℕ → Option (Node A)
  pub fresh : ℕ
  pub head : Option ℕ
  pub tail : Option ℕ
  pub size : ℕ

module _ {ℓ} {A : Type ℓ} where
  -- `createNode(value, next)`
  abbrev pub create_node : A → Option ℕ → Node A
  create_node value next = record { value = value; next = next }

  abbrev pub write : (ℕ → Option (Node A)) → ℕ → Node A → ℕ → Option (Node A)
  write cell p n a = if a == p then some n else cell a

  -- `tail.next = node`
  unfoldable pub set_next : (ℕ → Option (Node A)) → ℕ → ℕ → ℕ → Option (Node A)
  set_next cell p q = elim (cell p) [
    | none ↦ cell
    | some n ↦ write cell p (record n { next = some q })
  ]

  unfoldable pub empty : Queue A
  empty = record { cell = λ _. none; fresh = 0; head = none; tail = none; size = 0 }

  unfoldable pub clear : Queue A → Queue A
  clear q = record q { head = none; tail = none; size = 0 }

  unfoldable pub enqueue : A → Queue A → Queue A
  unfolding set_next
  enqueue value q =
      let cell = write q.cell q.fresh (create_node value none) in
      elim q.tail [
        | some t ↦ record q {
          cell = set_next cell t q.fresh;
          fresh = suc q.fresh;
          tail = some q.fresh;
          size = suc q.size;
        }
        | none ↦ record q {
          cell = cell;
          fresh = suc q.fresh;
          head = some q.fresh;
          tail = some q.fresh;
          size = suc q.size;
        }
      ]

  unfoldable pub enqueue_front : A → Queue A → Queue A
  enqueue_front value q = record q {
    cell = write q.cell q.fresh (create_node value q.head);
    fresh = suc q.fresh;
    head = some q.fresh;
    tail = elim q.head [ none ↦ some q.fresh | some _ ↦ q.tail ];
    size = suc q.size;
  }

  -- The node that `#head` points to.
  unfoldable pub head_node : Queue A → Option (Node A)
  head_node q = elim q.head [ none ↦ none | some h ↦ q.cell h ]

  unfoldable pub dequeue : Queue A → Option A × Queue A
  unfolding head_node
  dequeue q = elim (head_node q) [
    | none ↦ (none, q)
    | some n ↦ (
      some n.value,
      record q {
        head = n.next;
        tail = elim n.next [ none ↦ none | some _ ↦ q.tail ];
        size = q.size - 1;
      },
    )
  ]

  unfoldable pub peek : Queue A → Option A
  unfolding head_node
  peek q = elim (head_node q) [ none ↦ none | some n ↦ some n.value ]

  -- `drain()`: what `next` of the iterator does is what `dequeue` does; a loop over the iterator
  -- that takes at most `rounds` values.
  unfoldable pub drain : ℕ → Queue A → List A × Queue A
  unfolding dequeue
  drain zero q = ([], q)
  drain (suc rounds) q =
      let (value, q') = dequeue q in
      let (rest, q'') = drain rounds q' in elim value [ none ↦ ([], q') | some v ↦ (v ∷ rest, q'') ]

  -- `[Symbol.iterator]()`: the walk from `current`, at most `rounds` nodes.
  unfoldable pub walk : ℕ → (ℕ → Option (Node A)) → Option ℕ → List A
  walk zero cell current = []
  walk (suc rounds) cell none = []
  walk (suc rounds) cell (some p) = elim (cell p) [
    | none ↦ []
    | some n ↦ n.value ∷ walk rounds cell n.next
  ]

  -- The values that the loop `for (const x of queue)` sees.
  unfoldable pub iterate : Queue A → List A
  unfolding walk
  iterate q = walk (suc q.size) q.cell q.head
