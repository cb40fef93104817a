-- ===== src/Outbox/Backfill.antt =====
-- packages/danaus/src/sequencer/outbox.ts: the backfill loop ends, and covers what lies between the
-- cursor and where it stopped.
use danaus.Prelude.{
  ℕ, zero, suc, ◌+◌, ◌≤◌, ◌≡◌, refl, sym, ap, subst, false, Option, some, List, [], ◌∷◌, ◌++◌,
  append_assoc, append-nil, arith, take, inl, inr, Bool-cases,
}
use danaus.Table.{Timestamps}
use danaus.SeqEvent.{SeqEvt}
use danaus.Sequencer.{Sequencer}
use danaus.Sequencer.Invariant.{Inv}
use danaus.Sequencer.Range.{Events}
use danaus.Outbox.{
  backfill_page_size, resume_from, last_of, Backfilled, backfill, later_batches, prepend, Moment,
}
use danaus.Outbox.Growth.{Grows, Grows-trans, Grows-refl}
use danaus.Outbox.Pages.{pending_rows, request-pending, Events-last}
use danaus.Outbox.Coverage.{Covered, Covered-Grows, Covered-page}
use danaus.Outbox.Rounds.{
  total, AllCalm, next_aborts-Calm, paged, paged-Follows, query, near, backfill-empty,
  backfill-stop, backfill-more,
}

module _ {Link : Type 0} (D : Timestamps) where
  -- The backfill ended in `b`, and covers what lies between the cursor and where it stopped.
  pub record Done (s : Sequencer Link) (c : ℕ) (es : List (SeqEvt Link)) (b : Backfilled Link)
      : Type 0 where
    pub inv : Inv b.sequencer
    pub grown : Grows s b.sequencer
    pub covered : Covered c (resume_from c b.last) b.sequencer (es ++ b.shown)
    pub unaborted : b.aborted ≡ false

  abbrev pub Ends :
      ℕ → List (Moment Link) → Sequencer Link → ℕ → Option ℕ → List (SeqEvt Link) → Type 0
  Ends fuel bs s c last es =
      (b : Backfilled Link) × (backfill D fuel bs false s c last ≡ some b) × Done s c es b

  Done-trans :
      (s t : Sequencer Link) (c : ℕ) (es page : List (SeqEvt Link)) (b : Backfilled Link)
      → Grows s t
      → Done t c (es ++ page) b
      → Done s c es (prepend D page b)
  Done-trans s t c es page b g d = record {
    inv = d.inv;
    grown = Grows-trans g d.grown;
    covered =
        subst (Covered c (resume_from c b.last) b.sequencer) (append_assoc es page b.shown)
          d.covered;
    unaborted = d.unaborted;
  }

  -- One round, given that what follows a page ends.
  round :
      (fuel : ℕ) (bs : List (Moment Link)) (s : Sequencer Link) (c : ℕ) (last : Option ℕ)
      (es page : List (SeqEvt Link))
      → Inv s
      → AllCalm D bs
      → Covered c (resume_from c last) s es
      → s.next_seq + total D bs ≤ resume_from c last + suc fuel
      → query D fuel bs s c last ≡ some page
      → Events (take backfill_page_size (pending_rows (resume_from c last) s.rows)) page
      → ((last' : Option ℕ) (es' : List (SeqEvt Link))
          → Inv (paged D bs s)
          → AllCalm D (later_batches D bs)
          → Covered c (resume_from c last') (paged D bs s) es'
          → (paged D bs s).next_seq + total D (later_batches D bs) ≤ resume_from c last' + fuel
          → Ends fuel (later_batches D bs) (paged D bs s) c last' es')
      → Ends (suc fuel) bs s c last es
  round fuel bs s c last es [] i f v h q r next = (
    _,
    backfill-empty D fuel bs s c last q,
    record {
      inv = i;
      grown = Grows-refl s;
      covered = subst (Covered c (resume_from c last) s) (sym (append-nil es)) v;
      unaborted = refl;
    },
  )
  round fuel bs s c last es (e ∷ rest) i f v h q r next = elim (Events-last r) [
    | inl (_, k) ↦ absurd (cc k)
    | inr (t, k, reached) ↦
        let page = e ∷ rest in
        let l = resume_from c last in
        let quiet = next_aborts-Calm D bs f in
        let (v', past) = Covered-page c l backfill_page_size s es page t i v r k in
        let (i', g, f', n) = paged-Follows D bs s f i in
        let at : resume_from c (last_of page last) ≡ t.seq = ap (resume_from c) (reached last) in
        let covered =
          subst (λ m. Covered c m (paged D bs s) (es ++ page)) (sym at)
            (Covered-Grows c t.seq s (paged D bs s) (es ++ page) g v') in
        elim (Bool-cases (near D fuel bs s c last page)) [
          | inl stop ↦ (
            _,
            backfill-stop D fuel bs s c last e rest q quiet stop,
            record { inv = i'; grown = g; covered = covered; unaborted = refl },
          )
          | inr more ↦
              let (b, p, d) =
                next (last_of page last) (es ++ page) i' f' covered
                  (omega (arith, at, past, n, h)) in
              (
                prepend D page b,
                backfill-more D fuel bs s c last e rest b q quiet more p,
                Done-trans s (paged D bs s) c es page b g d,
              )
        ]
  ]

  -- With one more unit of fuel than there are numbers left, the loop ends.
  pub backfill_total :
      (fuel : ℕ) (bs : List (Moment Link)) (s : Sequencer Link) (c : ℕ) (last : Option ℕ)
      (es : List (SeqEvt Link))
      → Inv s
      → AllCalm D bs
      → Covered c (resume_from c last) s es
      → s.next_seq + total D bs ≤ resume_from c last + fuel
      → Ends fuel bs s c last es
  backfill_total zero bs s c last es i f v h = absurd (omega (arith, v.known))
  backfill_total (suc fuel) bs s c last es i f v h =
      let (page, q, r) = request-pending D (resume_from c last) (some backfill_page_size) s i in
      round fuel bs s c last es page i f v h (unfold query in q) r
        (backfill_total fuel (later_batches D bs) (paged D bs s) c)
