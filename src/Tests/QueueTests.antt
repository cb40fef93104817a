-- ===== src/Tests/QueueTests.antt =====
-- packages/danaus/src/utils/queue.ts and packages/danaus/src/sequencer/async-buffer.ts at concrete
-- inputs.
use danaus.Prelude.{ℕ, ◌≡◌, refl, arith, List, [], ◌∷◌}
use danaus.Queue.{empty, clear, enqueue, enqueue_front, dequeue, peek, drain, iterate}
use danaus.Queue.History.{
  Call, enqueues, enqueues_front, dequeues, peeks, clears, drains, iterates, run, run_model,
  run-eq-model,
}
use danaus.Queue.Fifo.{linked_queue}
use danaus.AsyncBuffer.{full, push, push_many, enqueue_all, resume}
use danaus.AsyncBuffer.Delivery
use danaus.AsyncBuffer.Delivery.{Event, pushes, pushes_many, closes, resumes, Explains, step, start}
use danaus.AsyncBuffer.Guarantees.{resume-Explains, overflow_reported}

abbrev calls : List (Call ℕ)
calls =
    enqueues 1
    ∷ enqueues 2
    ∷ enqueues_front 0
    ∷ dequeues
    ∷ peeks
    ∷ iterates
    ∷ enqueues 3
    ∷ drains
    ∷ enqueues 4
    ∷ clears
    ∷ dequeues
    ∷ []

queue_answers :
    run calls empty
    ≡ ([], 1)
      ∷ ([], 2)
      ∷ ([], 3)
      ∷ (0 ∷ [], 2)
      ∷ (1 ∷ [], 2)
      ∷ (1 ∷ 2 ∷ [], 2)
      ∷ ([], 3)
      ∷ (1 ∷ 2 ∷ 3 ∷ [], 0)
      ∷ ([], 1)
      ∷ ([], 0)
      ∷ ([], 0)
      ∷ []
unfolding run empty enqueue enqueue_front dequeue peek clear drain iterate
queue_answers = refl

run-eq-model_example : run calls empty ≡ run_model calls []
run-eq-model_example = run-eq-model calls

abbrev pushed : List (Event ℕ)
pushed = pushes 1 ∷ pushes 2 ∷ resumes ∷ pushes_many (3 ∷ []) ∷ []

resume-Explains_example :
    Explains linked_queue
      (Delivery.run linked_queue pushed (start linked_queue 2))
      (resume linked_queue (Delivery.run linked_queue pushed (start linked_queue 2)).buffer).0
resume-Explains_example = resume-Explains linked_queue 2 pushed

overflow_reported_example :
    (resume linked_queue
      (Delivery.run linked_queue (pushes 5 ∷ closes ∷ []) (
        step linked_queue
          (pushes 4)
          (Delivery.run linked_queue pushed (start linked_queue 2)))).buffer).0
    ≡ full 2
unfolding Delivery.run start push push_many enqueue_all resume empty enqueue dequeue iterate
overflow_reported_example =
    overflow_reported linked_queue 2 pushed (pushes 5 ∷ closes ∷ []) 4 refl (omega arith)
      ((λ e. cc e), ((λ e. cc e), tt))
