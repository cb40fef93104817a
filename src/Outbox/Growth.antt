-- ===== src/Outbox/Growth.antt =====
-- What sequencing more events does to the table and to the listeners.
use danaus.Prelude.{
  ◌≤◌, ◌≡◌, refl, sym, ap, subst, ◌∙◌, some, List, [], ◌∷◌, ◌++◌, append-nil, append_assoc, arith,
  All, All-append, All-map, drop-append,
}
use danaus.Table.{Timestamps}
use danaus.SeqEvent.{SequencerInsert, SeqEvt}
use danaus.SeqEvent.Format.{Formatted}
use danaus.Sequencer.{RepoSeqRow, Sequencer, last_seq, row_to_seq_evt, inserted, sequence_evt}
use danaus.Sequencer.Invariant.{Inv, written, sequence_evt-written, written-Inv}
use danaus.Sequencer.Range.{Events, nil, cons, Events-append}
use danaus.Outbox.{sequence_all, heard}

module _ {Link : Type 0} where
  -- From `s` to `t` rows were added at the end, with new numbers, and their events emitted.
  pub record Grows (s t : Sequencer Link) : Type 0 where
    pub added : List (RepoSeqRow Link)
    pub sent : List (SeqEvt Link)
    pub rows : t.rows ≡ s.rows ++ added
    pub emitted : t.emitted ≡ s.emitted ++ sent
    pub matched : Events added sent
    pub valid : All (λ (row : RepoSeqRow Link). row.invalidated ≡ 0) added
    pub fresh : All (λ (row : RepoSeqRow Link). s.next_seq ≤ row.seq) added
    pub counter : s.next_seq ≤ t.next_seq

  unfoldable pub Grows-refl : (s : Sequencer Link) → Grows s s
  Grows-refl s = record {
    added = [];
    sent = [];
    rows = sym (append-nil s.rows);
    emitted = sym (append-nil s.emitted);
    matched = nil;
    valid = tt;
    fresh = tt;
    counter = omega arith;
  }

  unfoldable pub Grows-trans : {s t u : Sequencer Link} → Grows s t → Grows t u → Grows s u
  Grows-trans {s} {t} {u} g h = record {
    added = g.added ++ h.added;
    sent = g.sent ++ h.sent;
    rows = h.rows ∙ ap (λ rs. rs ++ h.added) g.rows ∙ append_assoc s.rows g.added h.added;
    emitted = h.emitted ∙ ap (λ es. es ++ h.sent) g.emitted ∙ append_assoc s.emitted g.sent h.sent;
    matched = Events-append g.matched h.matched;
    valid = All-append _ g.added h.added g.valid h.valid;
    fresh =
        All-append _ g.added h.added g.fresh (
          All-map _ _ (λ row (k : t.next_seq ≤ row.seq). omega (arith, g.counter)) h.added h.fresh);
    counter = omega (arith, g.counter, h.counter);
  }

  pub last_seq-Grows : (s : Sequencer Link) → Grows s (last_seq s).1
  unfolding last_seq
  last_seq-Grows s = record {
    added = [];
    sent = [];
    rows = ground (arith, append-nil s.rows);
    emitted = ground (arith, append-nil s.emitted);
    matched = nil;
    valid = tt;
    fresh = tt;
    counter = ground arith;
  }

  module _ (D : Timestamps) where
    -- A listener is handed the events that were emitted, in order.
    pub heard-Grows : (s t : Sequencer Link) (g : Grows s t) → heard s t ≡ g.sent
    heard-Grows s t g = rw g.emitted (drop-append s.emitted g.sent)

    written-Grows :
        (i : SequencerInsert Link) (s : Sequencer Link) (e : SeqEvt Link)
        → row_to_seq_evt (inserted D i s.next_seq) ≡ some e
        → Grows s (written D i e s)
    written-Grows i s e p = record {
      added = inserted D i s.next_seq ∷ [];
      sent = e ∷ [];
      rows = refl;
      emitted = refl;
      matched = cons p nil;
      valid = (refl, tt);
      fresh = (omega arith, tt);
      counter = omega arith;
    }

    -- The invariant is kept, and the state has grown.
    abbrev pub Follows : Sequencer Link → Sequencer Link → Type 0
    Follows s t = Inv t × Grows s t

    sequence_evt-Follows :
        (i : SequencerInsert Link) (s : Sequencer Link)
        → Formatted i
        → Inv s
        → Follows s (sequence_evt D i s).1
    unfolding row_to_seq_evt
    sequence_evt-Follows i s f v =
        let (e, p) = f s.next_seq (D.stored i.sequenced_at) in
        subst (λ r. Follows s r.1) (sym (sequence_evt-written D i s e p))
          (written-Inv D i s e p v, written-Grows i s e p)

    pub sequence_all-Follows :
        (is : List (SequencerInsert Link)) (s : Sequencer Link)
        → All Formatted is
        → Inv s
        → Follows s (sequence_all D is s)
    unfolding sequence_all
    sequence_all-Follows [] s f v = (v, Grows-refl s)
    sequence_all-Follows (i ∷ is) s f v =
        let (v', g) = sequence_evt-Follows i s f.0 v in
        let (v'', h) = sequence_all-Follows is _ f.1 v' in (v'', Grows-trans g h)
