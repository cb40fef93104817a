-- ===== src/Outbox/Buffered.antt =====
-- packages/danaus/src/sequencer/outbox.ts: the bounded buffer of a stream, by what it holds.
use danaus.Prelude.{
  ℕ, ◌≤◌, ◌<◌, ◌≡◌, refl, sym, ap, subst, ◌∙◌, ◌⊎◌, inl, inr, true, false, List, [], ◌∷◌, ◌++◌,
  append_assoc, append-nil, arith, length, length-append, leb, Bool-cases,
}
use danaus.SeqEvent.{SeqEvt}
use danaus.Queue.{Queue}
use danaus.Queue.History.{to_values}
use danaus.Queue.Fifo.{
  linked_queue, IsChained, IsChained-enqueue, IsChained-dequeue, iterate-enqueue, iterate-dequeue,
  dequeue_empty, size-iterate,
}
use danaus.Queue.{iterate, enqueue}
use danaus.AsyncBuffer.{Buffer, Outcome, pending, full, yielded, new_buffer, push, resume}
use danaus.AsyncBuffer.Delivery.{Turn, asleep, overflows, takes, ends, rearms, resume-Turn}
use danaus.AsyncBuffer.Guarantees.{overfull}
use danaus.Outbox.{push_all}

module _ {Link : Type 0} (m : ℕ) where
  -- The buffer is open and holds `ws`, no more than fit.
  pub record Open (ws : List (SeqEvt Link)) (b : Buffer (Queue (SeqEvt Link))) : Type 0 where
    pub good : IsChained b.queue
    pub holds : iterate b.queue ≡ ws
    pub room : length ws ≤ m
    pub size : b.max_size ≡ m
    pub accepts : b.closed ≡ false
    pub awake : b.resolved ≡ false → ws ≡ []

  -- Either the buffer holds what was pushed, or there was more than fits and the next turn says so.
  abbrev pub Ready : List (SeqEvt Link) → Buffer (Queue (SeqEvt Link)) → Type 0
  Ready ws b = Open ws b ⊎ (((resume linked_queue b).0 ≡ full m) × (m < length ws))

  pub new-Open : Open [] (new_buffer linked_queue m)
  unfolding new_buffer
  new-Open = record {
    good = linked_queue.empty-Good;
    holds = linked_queue.contents-empty;
    room = omega arith;
    size = refl;
    accepts = refl;
    awake = λ _. refl;
  }

  abbrev pushed : SeqEvt Link → Buffer (Queue (SeqEvt Link)) → Buffer (Queue (SeqEvt Link))
  pushed e b = record b {
    closed = leb b.max_size b.queue.size;
    queue = enqueue e b.queue;
    resolved = true;
  }

  push-pushed :
      (e : SeqEvt Link) (b : Buffer (Queue (SeqEvt Link)))
      → b.closed ≡ false
      → push linked_queue e b ≡ pushed e b
  unfolding push
  push-pushed e b c = ground arith

  push-closed :
      (e : SeqEvt Link) (b : Buffer (Queue (SeqEvt Link)))
      → b.closed ≡ true
      → push linked_queue e b ≡ b
  unfolding push
  push-closed e b c = ground arith

  push_all-closed :
      (es : List (SeqEvt Link)) (b : Buffer (Queue (SeqEvt Link)))
      → b.closed ≡ true
      → push_all es b ≡ b
  unfolding push_all push
  push_all-closed [] b c = refl
  push_all-closed (e ∷ es) b c = ap (push_all es) (push-closed e b c) ∙ push_all-closed es b c

  held :
      (ws : List (SeqEvt Link)) (b : Buffer (Queue (SeqEvt Link)))
      → Open ws b
      → b.queue.size ≡ length ws
  held ws b o = size-iterate b.queue o.good ∙ ap length o.holds

  pushed-Open :
      (e : SeqEvt Link) (ws : List (SeqEvt Link)) (b : Buffer (Queue (SeqEvt Link)))
      → Open ws b
      → length ws < m
      → Open (ws ++ e ∷ []) (pushed e b)
  pushed-Open e ws b o h = record {
    good = IsChained-enqueue e b.queue o.good;
    holds = iterate-enqueue e b.queue o.good ∙ ap (λ xs. xs ++ e ∷ []) o.holds;
    room = omega (arith, length-append ws (e ∷ []), h);
    size = o.size;
    accepts = ground (arith, held ws b o, o.size, h);
    awake = λ w. cc w;
  }

  push_all-over :
      (e : SeqEvt Link) (es ws : List (SeqEvt Link)) (b : Buffer (Queue (SeqEvt Link)))
      → Open ws b
      → m ≤ length ws
      → (resume linked_queue (push_all es (pushed e b))).0 ≡ full m
  push_all-over e es ws b o h =
      let good = IsChained-enqueue e b.queue o.good in
      let more : b.max_size < (enqueue e b.queue).size = omega (
        arith,
        o.size,
        h,
        held ws b o,
        size-iterate (enqueue e b.queue) good,
        ap length (iterate-enqueue e b.queue o.good),
        length-append (iterate b.queue) (e ∷ []),
        size-iterate b.queue o.good,
      ) in
      ap (λ c. (resume linked_queue c).0)
        (push_all-closed es (pushed e b) (ground (arith, held ws b o, o.size, h)))
      ∙ overfull linked_queue (pushed e b) refl more
      ∙ ap full o.size

  pub push_all-Ready :
      (es ws : List (SeqEvt Link)) (b : Buffer (Queue (SeqEvt Link)))
      → Open ws b
      → Ready (ws ++ es) (push_all es b)
  unfolding push_all
  push_all-Ready [] ws b o = inl (subst (λ vs. Open vs b) (sym (append-nil ws)) o)
  push_all-Ready (e ∷ es) ws b o =
      subst (λ c. Ready (ws ++ e ∷ es) (push_all es c)) (sym (push-pushed e b o.accepts))
        (elim (Bool-cases (leb m (length ws))) [
          | inl h ↦ inr (
            push_all-over e es ws b o (ground (arith, h)),
            ground (arith, h, length-append ws (e ∷ es)),
          )
          | inr h ↦
              subst (λ vs. Ready vs (push_all es (pushed e b))) (append_assoc ws (e ∷ []) es)
                (push_all-Ready es (ws ++ e ∷ []) (pushed e b)
                  (pushed-Open e ws b o (ground (arith, h))))
        ])

  -- How a turn ends on an open buffer.
  abbrev pub Steps :
      List (SeqEvt Link) → Outcome (SeqEvt Link) → Buffer (Queue (SeqEvt Link)) → Type 0
  Steps ws o b' =
      ((o ≡ pending) × (ws ≡ []) × Open [] b')
      ⊎ ((v : SeqEvt Link) × (rest : List (SeqEvt Link)) × (o ≡ yielded v)
          × (ws ≡ v ∷ rest)
          × Open rest b')

  emptied :
      (ws : List (SeqEvt Link)) (b b' : Buffer (Queue (SeqEvt Link)))
      → Open ws b
      → ws ≡ []
      → b'.queue ≡ b.queue
      → b'.max_size ≡ b.max_size
      → b'.closed ≡ b.closed
      → Open [] b'
  emptied ws b b' o e q s c = record {
    good = subst IsChained (sym q) o.good;
    holds = ap iterate q ∙ o.holds ∙ e;
    room = omega arith;
    size = s ∙ o.size;
    accepts = c ∙ o.accepts;
    awake = λ _. refl;
  }

  Turn-Steps :
      (ws : List (SeqEvt Link)) (b : Buffer (Queue (SeqEvt Link))) (o : Outcome (SeqEvt Link))
      (b' : Buffer (Queue (SeqEvt Link)))
      → Open ws b
      → Turn linked_queue b o b'
      → Steps ws o b'
  Turn-Steps ws b o b' i (asleep r) =
      inl (refl, i.awake r, emptied ws b b i (i.awake r) refl refl refl)
  Turn-Steps ws b o b' i (overflows h) = absurd (omega (arith, h, held ws b i, i.room, i.size))
  Turn-Steps ws b o b' i (ends e c) = absurd (cc (c, i.accepts))
  Turn-Steps ws b o b' i (rearms e c) =
      let none_left = sym i.holds ∙ dequeue_empty b.queue i.good e in
      inl (refl, none_left, emptied ws b _ i none_left refl refl refl)
  Turn-Steps ws b o b' i (takes v s e) =
      let (_, q) = linked_queue.dequeue b.queue in
      let split =
        sym i.holds ∙ iterate-dequeue b.queue i.good ∙ ap (λ r. to_values r ++ iterate q) e in
      inr (
        v,
        iterate q,
        refl,
        split,
        record {
          good = IsChained-dequeue b.queue i.good;
          holds = refl;
          room = omega (arith, ap length split, i.room);
          size = i.size;
          accepts = i.accepts;
          awake = λ r. absurd (cc (i.awake r, split));
        },
      )

  pub resume-Steps :
      (ws : List (SeqEvt Link)) (b : Buffer (Queue (SeqEvt Link)))
      → Open ws b
      → Steps ws (resume linked_queue b).0 (resume linked_queue b).1
  resume-Steps ws b i = Turn-Steps ws b _ _ i (resume-Turn linked_queue b)
