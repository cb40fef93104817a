-- ===== src/Outbox/Rounds.antt =====
-- One round of the backfill loop: how it ends, and what it leaves.
use danaus.Prelude.{
  ℕ, suc, ◌+◌, ◌≡◌, refl, Bool, true, false, Option, some, List, [], ◌∷◌, arith, All, length, ltb,
}
use danaus.Table.{Timestamps}
use danaus.SeqEvent.{SeqEvt, SequencerInsert}
use danaus.SeqEvent.Format.{Formatted}
use danaus.Sequencer.{Sequencer, last_seq, sequence_evt, request_seq_range}
use danaus.Sequencer.Invariant.{Inv, last_seq-Inv}
use danaus.Outbox.{
  backfill_page_size, after, resume_from, last_of, Moment, Backfilled, sequence_all, backfill,
  next_batch, next_aborts, later_batches, prepend,
}
use danaus.Outbox.Growth.{Grows, Grows-trans, sequence_all-Follows, last_seq-Grows}

module _ {Link : Type 0} (D : Timestamps) where
  -- The number of events that are sequenced in these moments.
  abbrev pub total : List (Moment Link) → ℕ
  total [] = 0
  total (m ∷ ms) = length m.sequenced + total ms

  -- The events that are sequenced can be read back, and the signal is not aborted.
  abbrev pub Calm : Moment Link → Type 0
  Calm m = All Formatted m.sequenced × (m.aborts ≡ false)

  abbrev pub AllCalm : List (Moment Link) → Type 0
  AllCalm ms = All Calm ms

  pub next_seq-sequence_evt :
      (i : SequencerInsert Link) (s : Sequencer Link)
      → (sequence_evt D i s).1.next_seq ≡ suc s.next_seq
  unfolding sequence_evt
  next_seq-sequence_evt i s = ground arith

  pub next_seq-sequence_all :
      (is : List (SequencerInsert Link)) (s : Sequencer Link)
      → (sequence_all D is s).next_seq ≡ s.next_seq + length is
  unfolding sequence_all
  next_seq-sequence_all [] s = omega arith
  next_seq-sequence_all (i ∷ is) s =
      omega (arith, next_seq-sequence_all is (sequence_evt D i s).1, next_seq-sequence_evt i s)

  pub next_seq-last_seq : (s : Sequencer Link) → (last_seq s).1.next_seq ≡ s.next_seq
  unfolding last_seq
  next_seq-last_seq s = ground arith

  -- The sequencer after a page has been yielded and `lastSeq()` asked.
  abbrev pub paged : List (Moment Link) → Sequencer Link → Sequencer Link
  paged bs s = (last_seq (sequence_all D (next_batch D bs) s)).1

  pub paged-Follows :
      (bs : List (Moment Link)) (s : Sequencer Link)
      → AllCalm bs
      → Inv s
      → Inv (paged bs s)
        × Grows s (paged bs s)
        × AllCalm (later_batches D bs)
        × ((paged bs s).next_seq + total (later_batches D bs) ≡ s.next_seq + total bs)
  paged-Follows [] s f i =
      let (i', g) = sequence_all-Follows D [] s tt i in
      (
        last_seq-Inv _ i',
        Grows-trans g (last_seq-Grows _),
        tt,
        omega (arith, next_seq-last_seq (sequence_all D [] s), next_seq-sequence_all [] s),
      )
  paged-Follows (m ∷ ms) s f i =
      let (i', g) = sequence_all-Follows D m.sequenced s f.0.0 i in
      (
        last_seq-Inv _ i',
        Grows-trans g (last_seq-Grows _),
        f.1,
        omega (
          arith,
          next_seq-last_seq (sequence_all D m.sequenced s),
          next_seq-sequence_all m.sequenced s,
        ),
      )

  pub next_aborts-Calm : (ms : List (Moment Link)) → AllCalm ms → next_aborts D ms ≡ false
  next_aborts-Calm [] f = refl
  next_aborts-Calm (m ∷ ms) f = f.0.1

  module _ (fuel : ℕ) (bs : List (Moment Link)) (s : Sequencer Link) (c : ℕ) (last : Option ℕ) where
    unfoldable pub query : Option (List (SeqEvt Link))
    query = request_seq_range D (after (resume_from c last) (some backfill_page_size)) s

    pub backfill-empty :
        query ≡ some []
        → backfill D (suc fuel) bs false s c last
          ≡ some (record { sequencer = s; last = last; shown = []; aborted = false })
    unfolding backfill query
    backfill-empty e = rw e

    abbrev pub near : List (SeqEvt Link) → Bool
    near es =
        ltb (last_seq (sequence_all D (next_batch D bs) s)).0
          (resume_from c (last_of es last) + 250)

    pub backfill-stop :
        (e : SeqEvt Link) (es : List (SeqEvt Link))
        → query ≡ some (e ∷ es)
        → next_aborts D bs ≡ false
        → near (e ∷ es) ≡ true
        → backfill D (suc fuel) bs false s c last
          ≡ some (record {
            sequencer = paged bs s;
            last = last_of (e ∷ es) last;
            shown = e ∷ es;
            aborted = false;
          })
    unfolding backfill query
    backfill-stop e es q a n = rw (q, a, n)

    pub backfill-more :
        (e : SeqEvt Link) (es : List (SeqEvt Link)) (b : Backfilled Link)
        → query ≡ some (e ∷ es)
        → next_aborts D bs ≡ false
        → near (e ∷ es) ≡ false
        → backfill D fuel (later_batches D bs) false (paged bs s) c (last_of (e ∷ es) last) ≡ some b
        → backfill D (suc fuel) bs false s c last ≡ some (prepend D (e ∷ es) b)
    unfolding backfill query
    backfill-more e es b q a n r = rw (q, a, n, r)
