-- ===== src/Outbox/Tail.antt =====
-- packages/danaus/src/sequencer/outbox.ts: what the tail of a stream delivers of what its buffer was
-- handed.
use danaus.Prelude.{
  ℕ, ◌≤◌, ◌<◌, ◌≡◌, refl, sym, ap, subst, ◌∙◌, inl, inr, Bool, false, Option, none, some, List, [],
  ◌∷◌, ◌++◌, append_assoc, append-nil, arith, All, All-map, All-append, length,
}
use danaus.Table.{Timestamps}
use danaus.SeqEvent.{SeqEvt}
use danaus.Sequencer.{Sequencer}
use danaus.Sequencer.Invariant.{Inv}
use danaus.Sequencer.Range.{Events-All}
use danaus.Queue.{Queue}
use danaus.Queue.Fifo.{linked_queue}
use danaus.AsyncBuffer.{Buffer, Outcome, pending, full, yielded, resume}
use danaus.Outbox.{
  Moment, Streamed, Ending, waiting, listening, consumer_too_slow, throws_aborted, finished,
  sequence_all, push_all, hear, heard, passed, caught_after, behind, tail, ended, cut, turn,
}
use danaus.Outbox.Growth.{Grows, Grows-trans, Grows-refl, sequence_all-Follows, heard-Grows}
use danaus.Outbox.Rounds.{Calm, AllCalm}
use danaus.Outbox.Buffered.{Open, Ready, push_all-Ready, resume-Steps}

-- The number that the loop compares with lies below all that it is handed.
abbrev pub Before : Option ℕ → ℕ → Type 0
Before last n = (l : ℕ) → last ≡ some l → l < n

module _ {Link : Type 0} (D : Timestamps) (max_size : ℕ) where
  -- What is left when the stream stops where it is: nothing while it waits, no more than fits while
  -- it is suspended at an event, and more than fits where it throws ConsumerTooSlow.
  abbrev pub Leaves : Ending → List (SeqEvt Link) → Type 0
  Leaves waiting rest = rest ≡ []
  Leaves listening rest = length rest ≤ max_size
  Leaves consumer_too_slow rest = max_size < length rest
  Leaves throws_aborted rest = ⊥
  Leaves finished rest = ⊥

  -- The stream has shown the first of `ws` and of what was sequenced after them, and leaves the rest.
  pub record Tailed (s : Sequencer Link) (ws : List (SeqEvt Link)) (r : Streamed Link)
      : Type 0 where
    pub inv : Inv r.sequencer
    pub grown : Grows s r.sequencer
    pub rest : List (SeqEvt Link)
    pub split : ws ++ grown.sent ≡ r.shown ++ rest
    pub leaves : Leaves r.ending rest

  stopped :
      (s : Sequencer Link) (ws shown rest : List (SeqEvt Link)) (ending : Ending)
      → Inv s
      → ws ≡ shown ++ rest
      → Leaves ending rest
      → Tailed s ws (ended s shown ending)
  unfolding Grows-refl
  stopped s ws shown rest ending i e l = record {
    inv = i;
    grown = Grows-refl s;
    rest = rest;
    split = append-nil ws ∙ e;
    leaves = l;
  }

  pub Tailed-later :
      (s s' : Sequencer Link) (ws : List (SeqEvt Link)) (r : Streamed Link) (g : Grows s s')
      → Tailed s' (ws ++ g.sent) r
      → Tailed s ws r
  unfolding Grows-trans
  Tailed-later s s' ws r g t = record {
    inv = t.inv;
    grown = Grows-trans g t.grown;
    rest = t.rest;
    split = sym (append_assoc ws g.sent t.grown.sent) ∙ t.split;
    leaves = t.leaves;
  }

  Tailed-behind :
      (s : Sequencer Link) (v : SeqEvt Link) (ws : List (SeqEvt Link)) (r : Streamed Link)
      → Tailed s ws r
      → Tailed s (v ∷ ws) (behind (v ∷ []) r)
  Tailed-behind s v ws r t = record {
    inv = t.inv;
    grown = t.grown;
    rest = t.rest;
    split = ap (◌∷◌ v) t.split;
    leaves = t.leaves;
  }

  passed-Before :
      (c : Bool) (last : Option ℕ) (n : ℕ) (e : SeqEvt Link)
      → Before last n
      → n ≤ e.seq
      → passed c last e ≡ e ∷ []
  passed-Before c none n e k h = refl
  passed-Before c (some l) n e k h = ground (arith, k l refl)

  pub sent_fresh :
      (s t : Sequencer Link) (g : Grows s t) → All (λ (e : SeqEvt Link). s.next_seq ≤ e.seq) g.sent
  sent_fresh s t g = Events-All (λ n. s.next_seq ≤ n) g.matched g.fresh

  module _ (c : Bool) (last : Option ℕ) (b : Buffer (Queue (SeqEvt Link)))
      (s : Sequencer Link) where
    tail-last :
        (o : Outcome (SeqEvt Link))
        → (resume linked_queue b).0 ≡ o
        → tail D [] c last b s ≡ cut c last s o
    unfolding tail
    tail-last o e = ap (cut c last s) e

    -- The rest of the tail, after a turn that ended in `o`.
    abbrev later : Moment Link → List (Moment Link) → Outcome (SeqEvt Link) → Streamed Link
    later m ms o =
        let s' = sequence_all D m.sequenced s in
        tail D ms (caught_after c last o) last (push_all (heard s s') (resume linked_queue b).1) s'

    tail-turn :
        (m : Moment Link) (ms : List (Moment Link)) (o : Outcome (SeqEvt Link))
        → m.aborts ≡ false
        → (resume linked_queue b).0 ≡ o
        → tail D (m ∷ ms) c last b s ≡ turn c last s o (later m ms o)
    unfolding tail
    tail-turn m ms o calm e =
        let s' = sequence_all D m.sequenced s in
        let (o', b') = resume linked_queue b in
        ap
          (λ a.
            turn c last s o' (tail D ms (caught_after c last o') last (hear (heard s s') a b') s'))
          calm
        ∙ ap (λ x. turn c last s x (later m ms x)) e

    pub tail-full :
        (ms : List (Moment Link))
        → AllCalm D ms
        → (resume linked_queue b).0 ≡ full max_size
        → tail D ms c last b s ≡ ended s [] consumer_too_slow
    tail-full [] f e = tail-last (full max_size) e
    tail-full (m ∷ ms) f e = tail-turn m ms (full max_size) f.0.1 e

    -- A turn of the tail, given what the rest of the tail does.
    tail_step :
        (m : Moment Link) (ms : List (Moment Link)) (n : ℕ) (ws : List (SeqEvt Link))
        → Calm D m
        → Inv s
        → Open max_size ws b
        → Before last n
        → n ≤ s.next_seq
        → All (λ (e : SeqEvt Link). n ≤ e.seq) ws
        → ((c' : Bool) (b' : Buffer (Queue (SeqEvt Link))) (s' : Sequencer Link)
              (ws' : List (SeqEvt Link))
            → Inv s'
            → Ready max_size ws' b'
            → n ≤ s'.next_seq
            → All (λ (e : SeqEvt Link). n ≤ e.seq) ws'
            → Tailed s' ws' (tail D ms c' last b' s'))
        → Tailed s ws (tail D (m ∷ ms) c last b s)
    tail_step m ms n ws calm i o k le fresh next =
        let (i', g) = sequence_all-Follows D m.sequenced s calm.0 i in
        let s' = sequence_all D m.sequenced s in
        let new =
          All-map (λ (e : SeqEvt Link). s.next_seq ≤ e.seq) (λ (e : SeqEvt Link). n ≤ e.seq)
            (λ e h. omega (arith, h, le)) g.sent (sent_fresh s s' g) in
        let continue =
          λ (c' : Bool) (rest : List (SeqEvt Link))
              (old : All (λ (e : SeqEvt Link). n ≤ e.seq) rest)
              (p : Open max_size rest (resume linked_queue b).1).
            Tailed-later s s' rest _ g (
              next c' _ s' (rest ++ g.sent) i'
                (subst
                  (λ es.
                    Ready max_size (rest ++ es) (push_all (heard s s') (resume linked_queue b).1))
                  (heard-Grows D s s' g) (push_all-Ready max_size (heard s s') rest _ p))
                (omega (arith, le, g.counter)) (All-append _ rest g.sent old new)) in
        elim (resume-Steps max_size ws b o) [
          | inl (e, w, p) ↦
              subst (Tailed s ws) (sym (tail-turn m ms pending calm.1 e))
                (subst (λ vs. Tailed s vs (later m ms pending)) (sym w) (continue c [] tt p))
          | inr (v, rest, e, w, p) ↦
              let f = subst (All (λ (x : SeqEvt Link). n ≤ x.seq)) w fresh in
              let more = later m ms (yielded v) in
              let done = Tailed-behind s v rest more (continue _ rest f.1 p) in
              subst (Tailed s ws) (sym (tail-turn m ms (yielded v) calm.1 e)) (
                subst (λ es. Tailed s ws (behind es more)) (sym (passed-Before c last n v k f.0))
                  (subst (λ vs. Tailed s vs (behind (v ∷ []) more)) (sym w) done))
        ]

    tail_end :
        (n : ℕ) (ws : List (SeqEvt Link))
        → Inv s
        → Open max_size ws b
        → Before last n
        → All (λ (e : SeqEvt Link). n ≤ e.seq) ws
        → Tailed s ws (tail D [] c last b s)
    tail_end n ws i o k fresh = elim (resume-Steps max_size ws b o) [
      | inl (e, w, p) ↦
          subst (Tailed s ws) (sym (tail-last pending e)) (stopped s ws [] [] waiting i w refl)
      | inr (v, rest, e, w, p) ↦
          let f = subst (All (λ (x : SeqEvt Link). n ≤ x.seq)) w fresh in
          let split = w ∙ ap (λ es. es ++ rest) (sym (passed-Before c last n v k f.0)) in
          subst (Tailed s ws) (sym (tail-last (yielded v) e))
            (stopped s ws (passed c last v) rest listening i split p.room)
    ]

  -- What a tail that is not aborted does with what its buffer was handed.
  pub tail-Tailed :
      (ms : List (Moment Link)) (c : Bool) (last : Option ℕ) (b : Buffer (Queue (SeqEvt Link)))
      (s : Sequencer Link) (n : ℕ) (ws : List (SeqEvt Link))
      → Before last n
      → AllCalm D ms
      → Inv s
      → Ready max_size ws b
      → n ≤ s.next_seq
      → All (λ (e : SeqEvt Link). n ≤ e.seq) ws
      → Tailed s ws (tail D ms c last b s)
  tail-Tailed ms c last b s n ws k f i (inr (e, h)) le fresh =
      subst (Tailed s ws) (sym (tail-full c last b s ms f e))
        (stopped s ws [] ws consumer_too_slow i refl h)
  tail-Tailed [] c last b s n ws k f i (inl o) le fresh = tail_end c last b s n ws i o k fresh
  tail-Tailed (m ∷ ms) c last b s n ws k f i (inl o) le fresh =
      tail_step c last b s m ms n ws f.0 i o k le fresh
        λ c' b' s' ws' i' r. tail-Tailed ms c' last b' s' n ws' k f.1 i' r
