-- ===== src/AsyncBuffer/Delivery.antt =====
-- What the generator delivers of what was pushed, whatever the order of the calls.
use danaus.Prelude.{
  ℕ, ◌+◌, ◌≤◌, ◌<◌, ◌≡◌, ◌≢◌, refl, sym, ap, subst, ◌∙◌, inl, inr, Bool, true, false, none, some,
  List, [], ◌∷◌, ◌++◌, append_assoc, append-nil, arith, length, length-append, Bool-cases,
  Option-cases, ltb, leb,
}
use danaus.Queue.Fifo.{Fifo}
use danaus.AsyncBuffer.{
  Buffer, Outcome, pending, full, yielded, returned, new_buffer, push, enqueue_all, push_many,
  close, resume,
}

pub data Event (A : Type 0) : Type 0 where
  pushes : A → Event A
  pushes_many : List A → Event A
  closes resumes : Event A

-- The buffer, what was pushed into it while it was open, and what the generator has yielded.
pub record Trace (Q A : Type 0) : Type 0 where
  pub buffer : Buffer Q
  pub accepted : List A
  pub taken : List A

abbrev pub taken_by : {A : Type 0} → Outcome A → List A
taken_by (yielded v) = v ∷ []
taken_by _ = []

-- A closed buffer drops what is pushed.
abbrev pub accepted_by : {A : Type 0} → Bool → List A → List A
accepted_by true vs = []
accepted_by false vs = vs

module _ {A : Type 0} (F : Fifo A) where
  abbrev pub contents : Trace F.Q A → List A
  contents t = F.contents t.buffer.queue

  unfoldable pub step : Event A → Trace F.Q A → Trace F.Q A
  step (pushes v) t = record t {
    buffer = push F v t.buffer;
    accepted = t.accepted ++ accepted_by t.buffer.closed (v ∷ []);
  }
  step (pushes_many vs) t = record t {
    buffer = push_many F vs t.buffer;
    accepted = t.accepted ++ accepted_by t.buffer.closed vs;
  }
  step closes t = record t { buffer = close F t.buffer }
  step resumes t = record t {
    buffer = (resume F t.buffer).1;
    taken = t.taken ++ taken_by (resume F t.buffer).0;
  }

  unfoldable pub run : List (Event A) → Trace F.Q A → Trace F.Q A
  unfolding step
  run [] t = t
  run (e ∷ es) t = run es (step e t)

  unfoldable pub start : ℕ → Trace F.Q A
  unfolding new_buffer
  start max_size = record { buffer = new_buffer F max_size; accepted = []; taken = [] }

  pub record Inv (t : Trace F.Q A) : Type 0 where
    pub good : F.Good t.buffer.queue
    pub conserved : t.accepted ≡ t.taken ++ contents t
    pub awake : t.buffer.resolved ≡ false → (contents t ≡ []) × (t.buffer.closed ≡ false)
    pub room : t.buffer.closed ≡ false → F.size t.buffer.queue ≤ t.buffer.max_size

  pub start-Inv : (max_size : ℕ) → Inv (start max_size)
  unfolding start
  start-Inv m = record {
    good = F.empty-Good;
    conserved = sym F.contents-empty;
    awake = λ _. (F.contents-empty, refl);
    room = λ _. omega (arith, F.size-contents F.empty F.empty-Good, ap length F.contents-empty);
  }

  enqueue_all-Good : (vs : List A) (q : F.Q) → F.Good q → F.Good (enqueue_all F vs q)
  unfolding enqueue_all
  enqueue_all-Good [] q g = g
  enqueue_all-Good (v ∷ vs) q g = enqueue_all-Good vs _ (F.enqueue-Good v q g)

  contents-enqueue_all :
      (vs : List A) (q : F.Q) → F.Good q → F.contents (enqueue_all F vs q) ≡ F.contents q ++ vs
  unfolding enqueue_all
  contents-enqueue_all [] q g = sym (append-nil _)
  contents-enqueue_all (v ∷ vs) q g =
      contents-enqueue_all vs _ (F.enqueue-Good v q g)
      ∙ ap (λ xs. xs ++ vs) (F.contents-enqueue v q g)
      ∙ append_assoc (F.contents q) (v ∷ []) vs

  -- Values that an open buffer accepts.
  accept-Inv :
      (t : Trace F.Q A) (vs : List A) (q : F.Q) (closed : Bool)
      → Inv t
      → F.Good q
      → F.contents q ≡ contents t ++ vs
      → (closed ≡ false → F.size q ≤ t.buffer.max_size)
      → Inv (record t {
        buffer = record (t.buffer) { queue = q; closed = closed; resolved = true };
        accepted = t.accepted ++ vs;
      })
  accept-Inv t vs q closed i g e r = record {
    good = g;
    conserved = rw (i.conserved, e) (append_assoc t.taken (contents t) vs);
    awake = λ w. cc w;
    room = r;
  }

  -- The trace after an open buffer has accepted `vs`.
  abbrev pub accepting : Trace F.Q A → List A → F.Q → Bool → Trace F.Q A
  accepting t vs q closed = record t {
    buffer = record (t.buffer) { queue = q; closed = closed; resolved = true };
    accepted = t.accepted ++ vs;
  }

  pub push-closed :
      (t : Trace F.Q A) (e : Event A) → t.buffer.closed ≡ true → e ≢ resumes → step e t ≡ t
  unfolding step push push_many close
  push-closed t (pushes v) c h = ground (arith, append-nil t.accepted)
  push-closed t (pushes_many vs) c h = ground (arith, append-nil t.accepted)
  push-closed t closes c h = ground arith
  push-closed t resumes c h = absurd (h refl)

  pub push-open :
      (t : Trace F.Q A) (v : A)
      → t.buffer.closed ≡ false
      → step (pushes v) t
        ≡ accepting t
            (v ∷ [])
            (F.enqueue v t.buffer.queue)
            (leb t.buffer.max_size (F.size t.buffer.queue))
  unfolding step push
  push-open t v c = ground arith

  push_many-open :
      (t : Trace F.Q A) (vs : List A)
      → t.buffer.closed ≡ false
      → step (pushes_many vs) t
        ≡ accepting t vs
            (enqueue_all F vs t.buffer.queue)
            (ltb t.buffer.max_size (F.size t.buffer.queue + length vs))
  unfolding step push_many
  push_many-open t vs c = ground arith

  pub push-Inv :
      (t : Trace F.Q A) (v : A) → t.buffer.closed ≡ false → Inv t → Inv (step (pushes v) t)
  push-Inv t v c i =
      let q = t.buffer.queue in
      let g = F.enqueue-Good v q i.good in
      let e = F.contents-enqueue v q i.good in
      subst Inv (sym (push-open t v c)) (
        accept-Inv t (v ∷ []) (F.enqueue v q) _ i g e (λ o. ground (
          arith,
          o,
          F.size-contents (F.enqueue v q) g,
          ap length e,
          length-append (F.contents q) (v ∷ []),
          F.size-contents q i.good,
        )))

  pub push_many-Inv :
      (t : Trace F.Q A) (vs : List A)
      → t.buffer.closed ≡ false
      → Inv t
      → Inv (step (pushes_many vs) t)
  push_many-Inv t vs c i =
      let q = t.buffer.queue in
      let g = enqueue_all-Good vs q i.good in
      let e = contents-enqueue_all vs q i.good in
      subst Inv (sym (push_many-open t vs c)) (
        accept-Inv t vs (enqueue_all F vs q) _ i g e (λ o. ground (
          arith,
          o,
          F.size-contents (enqueue_all F vs q) g,
          ap length e,
          length-append (F.contents q) vs,
          F.size-contents q i.good,
        )))

  pub close-Inv : (t : Trace F.Q A) → Inv t → Inv (step closes t)
  unfolding step close
  close-Inv t i = record {
    good = ground (arith, i.good);
    conserved = ground (arith, i.conserved);
    awake = λ w. ground (arith, i.awake);
    room = λ w. ground (arith, i.room);
  }

  -- What a turn of the generator means for what was pushed and what was taken.
  abbrev pub Explains : Trace F.Q A → Outcome A → Type 0
  Explains t pending = (t.accepted ≡ t.taken) × (t.buffer.closed ≡ false)
  Explains t (full m) = (m ≡ t.buffer.max_size) × (m < length (contents t))
  Explains t (yielded v) =
      (rest : List A) × (t.accepted ≡ t.taken ++ v ∷ rest) × (length rest < t.buffer.max_size)
  Explains t returned = (t.accepted ≡ t.taken) × (t.buffer.closed ≡ true)

  pub all_taken : (t : Trace F.Q A) → Inv t → contents t ≡ [] → t.accepted ≡ t.taken
  all_taken t i e = i.conserved ∙ ap (λ vs. t.taken ++ vs) e ∙ append-nil t.taken

  -- The four ways in which a turn ends, with the tests that lead there.
  pub data Turn (b : Buffer F.Q) : Outcome A → Buffer F.Q → Type 0 where
    asleep : b.resolved ≡ false → Turn b pending b
    overflows : b.max_size < F.size b.queue → Turn b (full b.max_size) b
    takes :
        (v : A)
        → F.size b.queue ≤ b.max_size
        → (F.dequeue b.queue).0 ≡ some v
        → Turn b (yielded v) (record b { queue = (F.dequeue b.queue).1 })
    ends : (F.dequeue b.queue).0 ≡ none → b.closed ≡ true → Turn b returned b
    rearms :
        (F.dequeue b.queue).0 ≡ none
        → b.closed ≡ false
        → Turn b pending (record b { resolved = false })

  Turn-by :
      (b : Buffer F.Q) (o : Outcome A) (b' : Buffer F.Q)
      → resume F b ≡ (o, b')
      → Turn b o b'
      → Turn b (resume F b).0 (resume F b).1
  Turn-by b o b' e t = subst (λ r. Turn b r.0 r.1) (sym e) t

  awake-Turn :
      (b : Buffer F.Q)
      → b.resolved ≡ true
      → F.size b.queue ≤ b.max_size
      → Turn b (resume F b).0 (resume F b).1
  unfolding resume
  awake-Turn b r s = elim (Option-cases (F.dequeue b.queue).0) [
    | inr (v, e) ↦ Turn-by b _ _ (ground arith) (takes v s e)
    | inl e ↦ elim (Bool-cases b.closed) [
      | inl c ↦ Turn-by b _ _ (ground arith) (ends e c)
      | inr c ↦ Turn-by b _ _ (ground arith) (rearms e c)
    ]
  ]

  pub resume-Turn : (b : Buffer F.Q) → Turn b (resume F b).0 (resume F b).1
  unfolding resume
  resume-Turn b = elim (Bool-cases b.resolved) [
    | inr r ↦ Turn-by b pending b (ground arith) (asleep r)
    | inl r ↦ elim (Bool-cases (ltb b.max_size (F.size b.queue))) [
      | inl o ↦ Turn-by b (full b.max_size) b (ground arith) (overflows (ground arith))
      | inr o ↦ awake-Turn b r (ground arith)
    ]
  ]
