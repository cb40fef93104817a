-- ===== src/AsyncBuffer/Guarantees.antt =====
-- The guarantees of the buffer over every order of pushes, closes and turns of the generator.
use danaus.Prelude.{
  ℕ, ◌≤◌, ◌<◌, ◌≡◌, ◌≢◌, refl, sym, ap, subst, ◌∙◌, true, false, some, List, [], ◌∷◌, ◌++◌,
  append_assoc, append-nil, arith, length, length-append, All, leb, inl, inr, Bool-cases,
}
use danaus.Queue.History.{to_values}
use danaus.Queue.Fifo.{Fifo}
use danaus.AsyncBuffer.{Buffer, Outcome, full, resume}
use danaus.AsyncBuffer.Delivery.{
  Event, pushes, pushes_many, closes, resumes, Trace, taken_by, contents, step, run, start, Inv,
  accepting, start-Inv, push-closed, push-open, push-Inv, push_many-Inv, close-Inv, Explains,
  all_taken, Turn, asleep, overflows, takes, ends, rearms, resume-Turn,
}

module _ {A : Type 0} (F : Fifo A) where
  -- The trace after a turn that ended in `o`.
  abbrev turned : Trace F.Q A → Outcome A → Buffer F.Q → Trace F.Q A
  turned t o b = record t { buffer = b; taken = t.taken ++ taken_by o }

  taken_first :
      (t : Trace F.Q A) (v : A)
      → Inv F t
      → (F.dequeue t.buffer.queue).0 ≡ some v
      → contents F t ≡ v ∷ F.contents (F.dequeue t.buffer.queue).1
  taken_first t v i e =
      F.contents-dequeue t.buffer.queue i.good
      ∙ ap (λ o. to_values o ++ F.contents (F.dequeue t.buffer.queue).1) e

  Turn-Inv :
      (t : Trace F.Q A) (o : Outcome A) (b : Buffer F.Q)
      → Inv F t
      → Turn F t.buffer o b
      → Inv F (turned t o b)
  Turn-Inv t o b i (asleep r) = record {
    good = i.good;
    conserved = rw append-nil i.conserved;
    awake = i.awake;
    room = i.room;
  }
  Turn-Inv t o b i (overflows h) = record {
    good = i.good;
    conserved = rw append-nil i.conserved;
    awake = i.awake;
    room = i.room;
  }
  Turn-Inv t o b i (ends e c) = record {
    good = i.good;
    conserved = rw append-nil i.conserved;
    awake = i.awake;
    room = i.room;
  }
  Turn-Inv t o b i (rearms e c) = record {
    good = i.good;
    conserved = rw append-nil i.conserved;
    awake = λ _. (F.dequeue-none t.buffer.queue i.good e, c);
    room = i.room;
  }
  Turn-Inv t o b i (takes v s e) = record {
    good = F.dequeue-Good t.buffer.queue i.good;
    conserved =
        i.conserved
        ∙ ap (λ vs. t.taken ++ vs) (taken_first t v i e)
        ∙ sym (append_assoc t.taken (v ∷ []) _);
    awake = λ r. absurd (cc ((i.awake r).0, taken_first t v i e));
    room = λ _. omega (
      arith,
      s,
      ap length (taken_first t v i e),
      F.size-contents t.buffer.queue i.good,
      F.size-contents (F.dequeue t.buffer.queue).1 (F.dequeue-Good t.buffer.queue i.good),
    );
  }

  closed_keeps :
      (t : Trace F.Q A) (e : Event A)
      → Inv F t
      → e ≢ resumes
      → (t.buffer.closed ≡ false → Inv F (step F e t))
      → Inv F (step F e t)
  closed_keeps t e i h f = elim (Bool-cases t.buffer.closed) [
    | inl c ↦ subst (Inv F) (sym (push-closed F t e c h)) i
    | inr c ↦ f c
  ]

  step-Inv : (t : Trace F.Q A) (e : Event A) → Inv F t → Inv F (step F e t)
  step-Inv t (pushes v) i = closed_keeps t (pushes v) i (λ h. cc) (λ c. push-Inv F t v c i)
  step-Inv t (pushes_many vs) i =
      closed_keeps t (pushes_many vs) i (λ h. cc) (λ c. push_many-Inv F t vs c i)
  step-Inv t closes i = close-Inv F t i
  step-Inv t resumes i = unfold step in Turn-Inv t _ _ i (resume-Turn F t.buffer)

  run-Inv : (es : List (Event A)) (t : Trace F.Q A) → Inv F t → Inv F (run F es t)
  unfolding run
  run-Inv [] t i = i
  run-Inv (e ∷ es) t i = run-Inv es (step F e t) (step-Inv t e i)

  Turn-Explains :
      (t : Trace F.Q A) (o : Outcome A) (b : Buffer F.Q)
      → Inv F t
      → Turn F t.buffer o b
      → Explains F t o
  Turn-Explains t o b i (asleep r) = (all_taken F t i (i.awake r).0, (i.awake r).1)
  Turn-Explains t o b i (overflows h) =
      (refl, omega (arith, h, F.size-contents t.buffer.queue i.good))
  Turn-Explains t o b i (takes v s e) = (
    F.contents (F.dequeue t.buffer.queue).1,
    i.conserved ∙ ap (λ vs. t.taken ++ vs) (taken_first t v i e),
    omega (arith, s, ap length (taken_first t v i e), F.size-contents t.buffer.queue i.good),
  )
  Turn-Explains t o b i (ends e c) = (all_taken F t i (F.dequeue-none t.buffer.queue i.good e), c)
  Turn-Explains t o b i (rearms e c) = (all_taken F t i (F.dequeue-none t.buffer.queue i.good e), c)

  -- After any pushes, closes and turns on a new buffer, a turn of the generator waits only if the
  -- buffer is open and all accepted values have been taken (no wake-up is lost); it yields the
  -- value that was accepted next after those taken, with fewer than `maxSize` behind it; it throws
  -- only if more than `maxSize` values wait; and it returns only if the buffer is closed and all
  -- accepted values have been taken.
  pub resume-Explains :
      (max_size : ℕ) (es : List (Event A))
      → Explains F (run F es (start F max_size)) (resume F (run F es (start F max_size)).buffer).0
  resume-Explains m es =
      let t = run F es (start F m) in
      Turn-Explains t _ _ (run-Inv es (start F m) (start-Inv F m)) (resume-Turn F t.buffer)

  run-closed :
      (es : List (Event A)) (t : Trace F.Q A)
      → t.buffer.closed ≡ true
      → All (λ e. e ≢ resumes) es
      → run F es t ≡ t
  unfolding run
  run-closed [] t c h = refl
  run-closed (e ∷ es) t c h = ap (run F es) (push-closed F t e c h.0) ∙ run-closed es t c h.1

  pub overfull :
      (b : Buffer F.Q)
      → b.resolved ≡ true
      → b.max_size < F.size b.queue
      → (resume F b).0 ≡ full b.max_size
  unfolding resume
  overfull b r h = ground arith

  push_overfull :
      (t : Trace F.Q A) (v : A) (more : List (Event A))
      → Inv F t
      → t.buffer.closed ≡ false
      → t.buffer.max_size ≤ length (contents F t)
      → All (λ e. e ≢ resumes) more
      → (resume F (run F more (step F (pushes v) t)).buffer).0 ≡ full t.buffer.max_size
  push_overfull t v more i c h quiet =
      let q = t.buffer.queue in
      let shut = leb t.buffer.max_size (F.size q) in
      let u = accepting F t (v ∷ []) (F.enqueue v q) shut in
      let held : F.size q ≡ length (contents F t) = F.size-contents q i.good in
      let shut_eq : shut ≡ true = ground arith in
      let grown : t.buffer.max_size < F.size (F.enqueue v q) = omega (
        arith,
        h,
        F.size-contents (F.enqueue v q) (F.enqueue-Good v q i.good),
        ap length (F.contents-enqueue v q i.good),
        length-append (F.contents q) (v ∷ []),
      ) in
      ap (λ w. (resume F (run F more w).buffer).0) (push-open F t v c)
      ∙ ap (λ (w : Trace F.Q A). (resume F w.buffer).0) (run-closed more u shut_eq quiet)
      ∙ overfull u.buffer refl grown

  -- A push into an open buffer that already holds `maxSize` values or more is reported: whatever is
  -- pushed or closed before the next turn of the generator, that turn throws.
  pub overflow_reported :
      (max_size : ℕ) (es more : List (Event A)) (v : A)
      → (run F es (start F max_size)).buffer.closed ≡ false
      → (run F es (start F max_size)).buffer.max_size
        ≤ length (contents F (run F es (start F max_size)))
      → All (λ e. e ≢ resumes) more
      → (resume F (run F more (step F (pushes v) (run F es (start F max_size)))).buffer).0
        ≡ full (run F es (start F max_size)).buffer.max_size
  overflow_reported m es more v c h quiet =
      push_overfull (run F es (start F m)) v more (run-Inv es (start F m) (start-Inv F m)) c h quiet
