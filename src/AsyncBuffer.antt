-- ===== src/AsyncBuffer.antt =====
-- packages/danaus/src/sequencer/async-buffer.ts: the bounded buffer between an event emitter and an
-- async generator. `resolved` is the state of `deferred`; one `resume` is one turn of the loop of
-- `events()`: it ends where the generator awaits, yields, throws or returns.
pub mod Delivery
pub mod Guarantees
use danaus.Prelude.{
  ℕ, ◌+◌, Bool, true, false, none, some, List, [], ◌∷◌, ltb, leb, length, if◌then◌else◌,
}
use danaus.Queue.Fifo.{Fifo}

pub record Buffer (Q : Type 0) : Type 0 where
  pub queue : Q
  pub closed : Bool
  pub resolved : Bool
  pub max_size : ℕ

-- `pending`: the generator awaits a promise that is not resolved. `full`: it throws
-- `AsyncBufferFullError`.
pub data Outcome (A : Type 0) : Type 0 where
  pending : Outcome A
  full : ℕ → Outcome A
  yielded : A → Outcome A
  returned : Outcome A

module _ {A : Type 0} (F : Fifo A) where
  unfoldable pub new_buffer : ℕ → Buffer F.Q
  new_buffer max_size = record {
    queue = F.empty;
    closed = false;
    resolved = false;
    max_size = max_size;
  }

  unfoldable pub push : A → Buffer F.Q → Buffer F.Q
  push value b = if b.closed then b else record b {
    closed = leb b.max_size (F.size b.queue);
    queue = F.enqueue value b.queue;
    resolved = true;
  }

  unfoldable pub enqueue_all : List A → F.Q → F.Q
  enqueue_all [] q = q
  enqueue_all (v ∷ vs) q = enqueue_all vs (F.enqueue v q)

  unfoldable pub push_many : List A → Buffer F.Q → Buffer F.Q
  push_many values b = if b.closed then b else record b {
    closed = ltb b.max_size (F.size b.queue + length values);
    queue = enqueue_all values b.queue;
    resolved = true;
  }

  unfoldable pub close : Buffer F.Q → Buffer F.Q
  close b = if b.closed then b else record b { closed = true; resolved = true }

  unfoldable pub resume : Buffer F.Q → Outcome A × Buffer F.Q
  resume b =
      if b.resolved
      then (if ltb b.max_size (F.size b.queue)
          then (full b.max_size, b)
          else elim (F.dequeue b.queue).0 [
            | some value ↦ (yielded value, record b { queue = (F.dequeue b.queue).1 })
            | none ↦ if b.closed then (returned, b) else (pending, record b { resolved = false })
          ])
      else (pending, b)
