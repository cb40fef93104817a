-- ===== src/Sequencer/Range.antt =====
-- What `requestSeqRange` returns.
use danaus.Prelude.{
  ℕ, zero, suc, ◌≤◌, ◌<◌, ◌≡◌, refl, sym, ap, subst, ◌∙◌, Bool, true, Option, none, some, List, [],
  ◌∷◌, ◌++◌, arith, take, All, ltb, leb,
}
use danaus.Table.{Timestamps, Ascending, select}
use danaus.Table.Rows.{select-All}
use danaus.Table.Sorted.{order_by-Ascending, select-Ascending}
use danaus.SeqEvent.{SeqEvt, EventType, commit, sync, identity, account, Message, Bytes, to_seq_evt}
use danaus.Sequencer.{
  RepoSeqRow, Sequencer, SeqRangeOptions, by_seq, row_to_seq_evt, to_events, limit_to, in_range,
  request_seq_range, when_given,
}
use danaus.Sequencer.Invariant.{Readable, Inv}

-- The bounds that a range asks for, as propositions.
abbrev pub WhenGiven : Option ℕ → (ℕ → Type 0) → Type 0
WhenGiven none P = Unit {0}
WhenGiven (some n) P = P n

pub take-All {ℓ κ} :
    {A : Type ℓ} (P : A → Type κ) (n : ℕ) (xs : List A) → All P xs → All P (take n xs)
take-All P zero xs h = tt
take-All P (suc n) [] h = tt
take-All P (suc n) (x ∷ xs) h = (h.0, take-All P n xs h.1)

pub take-Ascending :
    {A : Type 0} (key : A → ℕ) (m n : ℕ) (xs : List A)
    → Ascending key m xs
    → Ascending key m (take n xs)
take-Ascending key m zero xs a = tt
take-Ascending key m (suc n) [] a = tt
take-Ascending key m (suc n) (x ∷ xs) a = (a.0, take-Ascending key (key x) n xs a.1)

given→WhenGiven :
    (o : Option ℕ) (p : ℕ → Bool) (P : ℕ → Type 0)
    → ((n : ℕ) → p n ≡ true → P n)
    → when_given o p ≡ true
    → WhenGiven o P
given→WhenGiven none p P f h = tt
given→WhenGiven (some n) p P f h = f n h

WhenGiven→given :
    (o : Option ℕ) (p : ℕ → Bool) (P : ℕ → Type 0)
    → ((n : ℕ) → P n → p n ≡ true)
    → WhenGiven o P
    → when_given o p ≡ true
WhenGiven→given none p P f h = refl
WhenGiven→given (some n) p P f h = f n h

module _ {Link : Type 0} where
  abbrev pub evt_seq : SeqEvt Link → ℕ
  evt_seq e = e.seq

  pub seq-to_seq_evt :
      (t : EventType) (seq at : ℕ) (m : Message Link) (b : Option Bytes) (e : SeqEvt Link)
      → to_seq_evt t seq at m b ≡ some e
      → (e.seq ≡ seq) × (e.time ≡ at) × (e.kind ≡ t)
  unfolding to_seq_evt
  seq-to_seq_evt commit seq at m b e h = ground arith
  seq-to_seq_evt sync seq at m b e h = ground arith
  seq-to_seq_evt identity seq at m b e h = ground arith
  seq-to_seq_evt account seq at m b e h = ground arith

  pub seq-row_to_seq_evt :
      (row : RepoSeqRow Link) (e : SeqEvt Link) → row_to_seq_evt row ≡ some e → e.seq ≡ row.seq
  unfolding row_to_seq_evt
  seq-row_to_seq_evt row e h =
      (seq-to_seq_evt row.event_type row.seq row.sequenced_at row.event row.blocks e h).0

  -- The events are those of the rows, one for each, in order.
  pub data Events : List (RepoSeqRow Link) → List (SeqEvt Link) → Type 0 where
    nil : Events [] []
    cons :
        {row : RepoSeqRow Link} {e : SeqEvt Link} {rows : List (RepoSeqRow Link)}
        {es : List (SeqEvt Link)}
        → row_to_seq_evt row ≡ some e
        → Events rows es
        → Events (row ∷ rows) (e ∷ es)

  pub to_events-Events :
      (rows : List (RepoSeqRow Link))
      → All Readable rows
      → (es : List (SeqEvt Link)) × (to_events rows ≡ some es) × Events rows es
  unfolding to_events
  to_events-Events [] h = ([], refl, nil)
  to_events-Events (row ∷ rows) ((e, p), h) =
      let (es, q, r) = to_events-Events rows h in (e ∷ es, rw (p, q), cons p r)

  pub to_events-of-Events :
      {rows : List (RepoSeqRow Link)} {es : List (SeqEvt Link)}
      → Events rows es
      → to_events rows ≡ some es
  unfolding to_events
  to_events-of-Events nil = refl
  to_events-of-Events (cons p r) = rw (p, to_events-of-Events r)

  pub Events-append :
      {rows rows' : List (RepoSeqRow Link)} {es es' : List (SeqEvt Link)}
      → Events rows es
      → Events rows' es'
      → Events (rows ++ rows') (es ++ es')
  Events-append nil q = q
  Events-append (cons p r) q = cons p (Events-append r q)

  pub Events-Ascending :
      {rows : List (RepoSeqRow Link)} {es : List (SeqEvt Link)} (n : ℕ)
      → Events rows es
      → Ascending by_seq n rows
      → Ascending evt_seq n es
  Events-Ascending n nil a = tt
  Events-Ascending n (cons {row = row} {e = e} {rows = rest} p r) a =
      let q = seq-row_to_seq_evt row e p in
      (
        omega (arith, q, a.0),
        Events-Ascending e.seq r (subst (λ m. Ascending (by_seq {Link = Link}) m rest) (sym q) a.1),
      )

  pub Events-All :
      (P : ℕ → Type 0) {rows : List (RepoSeqRow Link)} {es : List (SeqEvt Link)}
      → Events rows es
      → All (λ (row : RepoSeqRow Link). P row.seq) rows
      → All (λ (e : SeqEvt Link). P e.seq) es
  Events-All P nil h = tt
  Events-All P (cons {row = row} {e = e} p r) h =
      (subst P (sym (seq-row_to_seq_evt row e p)) h.0, Events-All P r h.1)

  limited-Readable :
      (l : Option ℕ) (rows : List (RepoSeqRow Link))
      → All Readable rows
      → All Readable (limit_to l rows)
  limited-Readable none rows h = h
  limited-Readable (some n) rows h = take-All Readable n rows h

  module _ (D : Timestamps) where
    pub request-Events :
        (o : SeqRangeOptions) (s : Sequencer Link)
        → Inv s
        → (es : List (SeqEvt Link)) × (request_seq_range D o s ≡ some es)
          × Events (limit_to o.limit (select (in_range D o) s.rows)) es
    unfolding request_seq_range
    request-Events o s i =
        let visible = select (in_range D o) s.rows in
        let sorted = select-Ascending by_seq (in_range D o) 0 s.rows i.ascending in
        let (es, p, r) = to_events-Events (limit_to o.limit visible) (
          limited-Readable o.limit visible
            (select-All Readable (in_range D o) s.rows i.readable)) in
        (
          es,
          ap (λ rs. to_events (limit_to o.limit rs)) (order_by-Ascending by_seq 0 visible sorted)
              ∙ p,
          r,
        )

    -- The row is one that the range asks for.
    abbrev pub Asked : SeqRangeOptions → RepoSeqRow Link → Type 0
    Asked o row =
        (row.invalidated ≡ 0)
        × WhenGiven o.earliest_seq (λ n. n < row.seq)
        × WhenGiven o.latest_seq (λ n. row.seq ≤ n)
        × WhenGiven o.earliest_time (λ t. D.stored t ≤ row.sequenced_at)

    pub in_range→Asked :
        (o : SeqRangeOptions) (row : RepoSeqRow Link) → in_range D o row ≡ true → Asked o row
    unfolding in_range
    in_range→Asked o row h = (
      ground arith,
      given→WhenGiven o.earliest_seq (λ n. ltb n row.seq) _ (λ n k. ground arith) (ground arith),
      given→WhenGiven o.latest_seq (λ n. leb row.seq n) _ (λ n k. ground arith) (ground arith),
      given→WhenGiven o.earliest_time (λ t. leb (D.stored t) row.sequenced_at) _
          (λ t k. ground arith) (ground arith),
    )

    pub Asked→in_range :
        (o : SeqRangeOptions) (row : RepoSeqRow Link) → Asked o row → in_range D o row ≡ true
    unfolding in_range
    Asked→in_range o row (valid, early, late, time) = ground (
      arith,
      valid,
      WhenGiven→given o.earliest_seq (λ n. ltb n row.seq) _ (λ n k. ground arith) early,
      WhenGiven→given o.latest_seq (λ n. leb row.seq n) _ (λ n k. ground arith) late,
      WhenGiven→given o.earliest_time (λ t. leb (D.stored t) row.sequenced_at) _
          (λ t k. ground arith) time,
    )
