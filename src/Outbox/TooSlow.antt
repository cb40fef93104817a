-- ===== src/Outbox/TooSlow.antt =====
-- packages/danaus/src/sequencer/outbox.ts: a stream whose consumer falls behind while it catches up.
use mathlib.Core.Option.{some-injective}
use danaus.Prelude.{
  ℕ, ◌+◌, ◌≤◌, ◌<◌, ◌≡◌, sym, ap, subst, ◌∙◌, false, none, some, List, [], ◌∷◌, ◌++◌, arith, All,
  length, length-append, inl, inr,
}
use danaus.Table.{Timestamps, Ascending}
use danaus.SeqEvent.{SeqEvt, SequencerInsert}
use danaus.SeqEvent.Format.{Formatted}
use danaus.Sequencer.{Sequencer, request_seq_range, row_to_seq_evt}
use danaus.Sequencer.Invariant.{Inv, sequence_evt-written}
use danaus.Sequencer.Range.{evt_seq}
use danaus.Queue.Fifo.{linked_queue}
use danaus.AsyncBuffer.{full, new_buffer, resume}
use danaus.Outbox.{
  Moment, Streamed, consumer_too_slow, after, resume_from, last_of, sequence_all, push_all, heard,
  events,
}
use danaus.Outbox.Growth.{sequence_all-Follows, heard-Grows}
use danaus.Outbox.Pages.{request-pending}
use danaus.Outbox.Coverage.{Covered-start}
use danaus.Outbox.Rounds.{total, Calm, AllCalm}
use danaus.Outbox.Backfill.{backfill_total}
use danaus.Outbox.Buffered.{new-Open, push_all-Ready}
use danaus.Outbox.Tail.{Leaves, tail-full}
use danaus.Outbox.Complete.{events-from, events_complete}

module _ {Link : Type 0} (D : Timestamps) where
  length-emitted :
      (is : List (SequencerInsert Link)) (s : Sequencer Link)
      → All Formatted is
      → length (sequence_all D is s).emitted ≡ length s.emitted + length is
  unfolding sequence_all row_to_seq_evt
  length-emitted [] s f = omega arith
  length-emitted (i ∷ is) s f =
      let (e, p) = f.0 s.next_seq (D.stored i.sequenced_at) in
      let one = ap (λ r. length r.1.emitted) (sequence_evt-written D i s e p) in
      omega (arith, length-emitted is _ f.1, one, length-append s.emitted (e ∷ []))

  length-heard :
      (is : List (SequencerInsert Link)) (s : Sequencer Link)
      → All Formatted is
      → Inv s
      → length (heard s (sequence_all D is s)) ≡ length is
  length-heard is s f i =
      let (_, g) = sequence_all-Follows D is s f i in
      ap length (heard-Grows D s (sequence_all D is s) g)
      ∙ omega (arith, length-emitted is s f, ap length g.emitted, length-append s.emitted g.sent)

  too_many :
      (max_size : ℕ) (is : List (SequencerInsert Link)) (s : Sequencer Link)
      → All Formatted is
      → Inv s
      → max_size < length is
      → (resume linked_queue
          (push_all (heard s (sequence_all D is s)) (new_buffer linked_queue max_size))).0
        ≡ full max_size
  too_many max_size is s f i many =
      elim (push_all-Ready max_size (heard s (sequence_all D is s)) [] _ (new-Open max_size)) [
        | inl o ↦ absurd (omega (arith, o.room, many, length-heard is s f i))
        | inr (over, _) ↦ over
      ]

  -- A stream from a cursor that has been sequenced, with the signal not aborted and enough fuel, ends
  -- with ConsumerTooSlow where more events than fit in the buffer are sequenced while it yields the
  -- catch-up events, whatever happens before and after: it has shown the first of the events after
  -- its cursor, in order, and more than fit in the buffer are left.
  pub events_too_slow :
      (fuel max_size c : ℕ) (pages : List (Moment Link)) (during_catch_up : Moment Link)
      (during_tail : List (Moment Link)) (s : Sequencer Link)
      → Inv s
      → c < s.next_seq
      → AllCalm D pages
      → Calm D during_catch_up
      → AllCalm D during_tail
      → s.next_seq + total D pages ≤ c + fuel
      → max_size < length during_catch_up.sequenced
      → (r : Streamed Link) × (events D fuel max_size
            (some c)
            false
            pages
            during_catch_up
            during_tail
            s
          ≡ some r)
        × (r.ending ≡ consumer_too_slow)
        × ((rest : List (SeqEvt Link)) × (request_seq_range D (after c none) r.sequencer
              ≡ some (r.shown ++ rest))
            × Ascending evt_seq 0 (r.shown ++ rest)
            × (max_size < length rest))
  events_too_slow fuel max_size c pages dc dt s i h fp fc ft enough many =
      let (r, e, (rest, q, a, l)) =
        events_complete D fuel max_size c pages dc dt s i h fp fc ft enough in
      let (b, p, d) = backfill_total D fuel pages s c none [] i fp (Covered-start c s h) enough in
      let (caught, q', _) = request-pending D (resume_from c b.last) none b.sequencer d.inv in
      let t = sequence_all D dc.sequenced b.sequencer in
      let over = too_many max_size dc.sequenced b.sequencer fc.0 d.inv many in
      let same =
        some-injective r _
          (sym e ∙ events-from D fuel max_size c pages dc dt s b caught p d.unaborted q' fc.1) in
      let slow =
        ap (λ (x : Streamed Link). x.ending) same
        ∙ ap (λ (x : Streamed Link). x.ending)
            (tail-full D max_size false (last_of caught b.last) _ t dt ft over) in
      (r, e, slow, (rest, q, a, subst (λ k. Leaves D max_size k rest) slow l))
