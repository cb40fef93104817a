-- ===== src/Outbox/Complete.antt =====
-- A stream that starts from a cursor delivers every event after it, once and in order, unless it is too slow.
use mathlib.Core.Option.{some-injective}
use danaus.Prelude.{
  ℕ, suc, ◌+◌, ◌≤◌, ◌<◌, ◌≡◌, refl, sym, ap, subst, ◌∙◌, true, false, Option, none, some, List, [],
  ◌∷◌, ◌++◌, append_assoc, arith, All, inl, inr,
}
use danaus.Table.{Timestamps, Ascending, select}
use danaus.Table.Rows.{select-All}
use danaus.Table.Sorted.{select-Ascending}
use danaus.SeqEvent.{SeqEvt}
use danaus.Sequencer.{RepoSeqRow, Sequencer, by_seq, request_seq_range}
use danaus.Sequencer.Invariant.{Inv}
use danaus.Sequencer.Range.{evt_seq, Events, nil, Events-append, Events-Ascending}
use danaus.Outbox.{
  after, resume_from, last_of, Backfilled, Streamed, sequence_all, backfill, tail, heard, events,
  Moment, behind, push_all,
}
use danaus.Outbox.Growth.{sequence_all-Follows, heard-Grows}
use danaus.Outbox.Pages.{unseen, pending_rows, request-pending, Events-last}
use danaus.Outbox.Coverage.{Covered-start, Events-unique, pending-Grows, row_below}
use danaus.Queue.Fifo.{linked_queue}
use danaus.AsyncBuffer.{new_buffer}
use danaus.Outbox.Buffered.{Ready, new-Open, push_all-Ready}
use danaus.Outbox.Tail.{Leaves, Tailed, Tailed-later, sent_fresh, tail-Tailed}
use danaus.Outbox.Rounds.{total, Calm, AllCalm}
use danaus.Outbox.Backfill.{backfill_total}

module _ {Link : Type 0} (D : Timestamps) where
  -- The number that the tail loop compares with lies below all that it is handed.
  last_known :
      (c : ℕ) (s : Sequencer Link) (last : Option ℕ) (es : List (SeqEvt Link))
      → Inv s
      → resume_from c last < s.next_seq
      → Events (pending_rows (resume_from c last) s.rows) es
      → (l : ℕ) → last_of es last ≡ some l
      → l < s.next_seq
  last_known c s last es i h r l e = elim (Events-last r) [
    | inl (_, k) ↦ last_kept last h (ap (λ fs. last_of fs last) (sym k) ∙ e)
    | inr (t, k, reached) ↦
        let below =
          row_below s.next_seq (pending_rows (resume_from c last) s.rows) t
            (select-All _ (unseen (resume_from c last)) s.rows i.below) k in
        let same : t.seq ≡ l = some-injective t.seq l (sym (reached last) ∙ e) in
        omega (arith, below, same)
  ]
    where
      last_kept : (o : Option ℕ) → resume_from c o < s.next_seq → o ≡ some l → l < s.next_seq
      last_kept none k p = cc p
      last_kept (some m) k p = let q : m ≡ l = some-injective m l p in omega (arith, q, k)

  -- The events after a cursor are those of the pending rows.
  request-of-Events :
      (c : ℕ) (s : Sequencer Link) (es : List (SeqEvt Link))
      → Inv s
      → Events (pending_rows c s.rows) es
      → request_seq_range D (after c none) s ≡ some es
  request-of-Events c s es i r =
      let (fs, p, q) = request-pending D c none s i in p ∙ ap some (Events-unique q r)

  nothing_pending :
      (c : ℕ) (rows : List (RepoSeqRow Link))
      → All (λ (row : RepoSeqRow Link). row.seq < suc c) rows
      → pending_rows c rows ≡ []
  unfolding select
  nothing_pending c [] h = refl
  nothing_pending c (row ∷ rows) h = ground (arith, h.0, nothing_pending c rows h.1)

  -- What a single query after the cursor would return at the end is what the stream has shown and
  -- the rest that it leaves: every event, none twice, in order.
  abbrev pub Delivers : ℕ → ℕ → Streamed Link → Type 0
  Delivers max_size c r =
      (rest : List (SeqEvt Link)) × (request_seq_range D (after c none) r.sequencer
        ≡ some (r.shown ++ rest))
      × Ascending evt_seq 0 (r.shown ++ rest)
      × Leaves D max_size r.ending rest

  Delivers-of_Events :
      (max_size c : ℕ) (r : Streamed Link) (rest : List (SeqEvt Link))
      → Inv r.sequencer
      → Events (pending_rows c r.sequencer.rows) (r.shown ++ rest)
      → Leaves D max_size r.ending rest
      → Delivers max_size c r
  Delivers-of_Events max_size c r rest i v l = (
    rest,
    request-of-Events c r.sequencer (r.shown ++ rest) i v,
    Events-Ascending 0 v (select-Ascending by_seq (unseen c) 0 r.sequencer.rows i.ascending),
    l,
  )

  -- What a tail adds to what was shown before it.
  tail-Delivers :
      (max_size c : ℕ) (s : Sequencer Link) (early : List (SeqEvt Link)) (r : Streamed Link)
      → c < s.next_seq
      → Events (pending_rows c s.rows) early
      → Tailed D max_size s [] r
      → Delivers max_size c (behind early r)
  tail-Delivers max_size c s early r h v t =
      let rows = pending-Grows c s r.sequencer t.grown h in
      let split = ap (λ es. early ++ es) t.split ∙ sym (append_assoc early r.shown t.rest) in
      Delivers-of_Events max_size c (behind early r) t.rest t.inv
        (subst (λ es. Events (pending_rows c r.sequencer.rows) es) split
          (subst (λ rs. Events rs (early ++ t.grown.sent)) (sym rows)
            (Events-append v t.grown.matched)))
        t.leaves

  module _ (fuel max_size c : ℕ) (pages : List (Moment Link)) (dc : Moment Link)
      (dt : List (Moment Link)) (s : Sequencer Link) where
    abbrev pub caught_up_to : Backfilled Link → List (SeqEvt Link) → Streamed Link
    caught_up_to b caught =
        let t = sequence_all D dc.sequenced b.sequencer in
        tail D dt false (last_of caught b.last)
          (push_all (heard b.sequencer t) (new_buffer linked_queue max_size)) t

    pub events-from :
        (b : Backfilled Link) (caught : List (SeqEvt Link))
        → backfill D fuel pages false s c none ≡ some b
        → b.aborted ≡ false
        → request_seq_range D (after (resume_from c b.last) none) b.sequencer ≡ some caught
        → dc.aborts ≡ false
        → events D fuel max_size (some c) false pages dc dt s
          ≡ some (behind (b.shown ++ caught) (caught_up_to b caught))
    unfolding events
    events-from b caught p a q quiet = rw (p, a, q, quiet) refl

    caught_up-Tailed :
        (b : Backfilled Link) (caught : List (SeqEvt Link))
        → Inv b.sequencer
        → resume_from c b.last < b.sequencer.next_seq
        → Events (pending_rows (resume_from c b.last) b.sequencer.rows) caught
        → Calm D dc
        → AllCalm D dt
        → Tailed D max_size b.sequencer [] (caught_up_to b caught)
    caught_up-Tailed b caught i known r calm ft =
        let (i', g) = sequence_all-Follows D dc.sequenced b.sequencer calm.0 i in
        let t = sequence_all D dc.sequenced b.sequencer in
        Tailed-later D max_size b.sequencer t [] _ g (
          tail-Tailed D max_size dt false (last_of caught b.last) _ t b.sequencer.next_seq g.sent
            (last_known c b.sequencer b.last caught i known r) ft i'
            (subst
              (λ es.
                Ready max_size es
                  (push_all (heard b.sequencer t) (new_buffer linked_queue max_size)))
              (heard-Grows D b.sequencer t g)
              (push_all-Ready max_size (heard b.sequencer t) [] _ (new-Open max_size)))
            g.counter (sent_fresh D max_size b.sequencer t g))

  -- From a cursor that has been sequenced, whatever is sequenced while pages are yielded, during the
  -- catch-up and between the turns of the tail, with the signal not aborted and fuel for one round
  -- more than there are numbers after the cursor, the stream ends its backfill without an error. What
  -- it has shown, with a rest that it leaves, is what a single query after the cursor returns of the
  -- table when it stops: every event, none twice, in order. The rest is empty where the stream waits, no more
  -- than the buffer's size where it is suspended at an event, and more than that where it throws
  -- ConsumerTooSlow; it ends in no other way.
  pub events_complete :
      (fuel max_size c : ℕ) (pages : List (Moment Link)) (during_catch_up : Moment Link)
      (during_tail : List (Moment Link)) (s : Sequencer Link)
      → Inv s
      → c < s.next_seq
      → AllCalm D pages
      → Calm D during_catch_up
      → AllCalm D during_tail
      → s.next_seq + total D pages ≤ c + fuel
      → (r : Streamed Link) × (events D fuel max_size
            (some c)
            false
            pages
            during_catch_up
            during_tail
            s
          ≡ some r)
        × ((rest : List (SeqEvt Link)) × (request_seq_range D (after c none) r.sequencer
              ≡ some (r.shown ++ rest))
            × Ascending evt_seq 0 (r.shown ++ rest)
            × Leaves D max_size r.ending rest)
  events_complete fuel max_size c pages dc dt s i h fp fc ft enough =
      let (b, p, d) = backfill_total D fuel pages s c none [] i fp (Covered-start c s h) enough in
      let (caught, q, r) = request-pending D (resume_from c b.last) none b.sequencer d.inv in
      let t =
        caught_up-Tailed fuel max_size c pages dc dt s b caught d.inv d.covered.known r fc ft in
      let seen =
        subst (λ rs. Events rs (b.shown ++ caught)) (sym d.covered.split)
          (Events-append d.covered.matched r) in
      (
        _,
        events-from fuel max_size c pages dc dt s b caught p d.unaborted q fc.1,
        tail-Delivers max_size c b.sequencer (b.shown ++ caught) _
            (omega (arith, d.covered.past, d.covered.known)) seen t,
      )

  -- With no cursor the stream shows what is sequenced after it was opened.
  pub events_live :
      (fuel max_size c : ℕ) (pages : List (Moment Link)) (during_catch_up : Moment Link)
      (during_tail : List (Moment Link)) (s : Sequencer Link)
      → Inv s
      → s.next_seq ≡ suc c
      → AllCalm D during_tail
      → (r : Streamed Link) × (events D fuel max_size none false pages during_catch_up during_tail s
          ≡ some r)
        × Delivers max_size c r
  unfolding events
  events_live fuel max_size c pages dc dt s i h ft =
      let t =
        tail-Tailed D max_size dt true none _ s s.next_seq [] (λ l e. cc e) ft i
          (inl (new-Open max_size)) (omega arith) tt in
      let none_before =
        nothing_pending c s.rows
          (subst (λ n. All (λ (row : RepoSeqRow Link). row.seq < n) s.rows) h i.below) in
      (
        _,
        refl,
        tail-Delivers max_size c s [] _ (omega (arith, h))
            (subst (λ rs. Events rs []) (sym none_before) nil) t,
      )
