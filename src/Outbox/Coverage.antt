-- ===== src/Outbox/Coverage.antt =====
-- Which events a stream has delivered so far.
use mathlib.Core.Option.{some-injective}
use danaus.Prelude.{
  ℕ, zero, suc, ◌≤◌, ◌<◌, ◌≡◌, refl, sym, ap, ◌∙◌, true, some, List, [], ◌∷◌, ◌++◌, append_assoc,
  arith, All, take, get_last?,
}
use danaus.Table.Rows.{select-append, select-eq_self, select-All}
use danaus.SeqEvent.{SeqEvt}
use danaus.Sequencer.{RepoSeqRow, Sequencer}
use danaus.Sequencer.Invariant.{Inv}
use danaus.Sequencer.Range.{Events, nil, Events-append, to_events-of-Events}
use danaus.Outbox.Growth.{Grows}
use danaus.Outbox.Pages.{unseen, pending_rows, page_split}

module _ {Link : Type 0} where
  -- `es` are the events of the rows that are pending after `c` up to the number `l`.
  pub record Covered (c l : ℕ) (s : Sequencer Link) (es : List (SeqEvt Link)) : Type 0 where
    pub seen : List (RepoSeqRow Link)
    pub split : pending_rows c s.rows ≡ seen ++ pending_rows l s.rows
    pub matched : Events seen es
    pub past : c ≤ l
    pub known : l < s.next_seq

  pub Covered-start : (c : ℕ) (s : Sequencer Link) → c < s.next_seq → Covered c c s []
  Covered-start c s h = record {
    seen = [];
    split = refl;
    matched = nil;
    past = omega arith;
    known = h;
  }

  unseen-new :
      (c n : ℕ) (row : RepoSeqRow Link)
      → c < n
      → row.invalidated ≡ 0
      → n ≤ row.seq
      → unseen c row ≡ true
  unseen-new c n row h v f = ground arith

  All-unseen :
      (c n : ℕ) (rows : List (RepoSeqRow Link))
      → c < n
      → All (λ (row : RepoSeqRow Link). row.invalidated ≡ 0) rows
      → All (λ (row : RepoSeqRow Link). n ≤ row.seq) rows
      → All (λ row. unseen c row ≡ true) rows
  All-unseen c n [] h v f = tt
  All-unseen c n (row ∷ rows) h v f = (unseen-new c n row h v.0 f.0, All-unseen c n rows h v.1 f.1)

  -- New rows are pending after every cursor that was known.
  pub pending-Grows :
      (c : ℕ) (s t : Sequencer Link) (g : Grows s t)
      → c < s.next_seq
      → pending_rows c t.rows ≡ pending_rows c s.rows ++ g.added
  pending-Grows c s t g h =
      ap (pending_rows c) g.rows
      ∙ select-append (unseen c) s.rows g.added
      ∙ ap (λ rs. pending_rows c s.rows ++ rs)
          (select-eq_self (unseen c) g.added (All-unseen c s.next_seq g.added h g.valid g.fresh))

  pub Covered-Grows :
      (c l : ℕ) (s t : Sequencer Link) (es : List (SeqEvt Link))
      → Grows s t
      → Covered c l s es
      → Covered c l t es
  Covered-Grows c l s t es g k = record {
    seen = k.seen;
    split =
        pending-Grows c s t g (omega (arith, k.past, k.known))
        ∙ ap (λ rs. rs ++ g.added) k.split
        ∙ append_assoc k.seen (pending_rows l s.rows) g.added
        ∙ ap (λ rs. k.seen ++ rs) (sym (pending-Grows l s t g k.known));
    matched = k.matched;
    past = k.past;
    known = omega (arith, k.known, g.counter);
  }

  pub row_below :
      (n : ℕ) (rows : List (RepoSeqRow Link)) (t : RepoSeqRow Link)
      → All (λ (row : RepoSeqRow Link). row.seq < n) rows
      → get_last? rows ≡ some t
      → t.seq < n
  row_below n [] t b e = cc
  row_below n (x ∷ []) t b e = let p : x.seq ≡ t.seq = ground arith in omega (arith, p, b.0)
  row_below n (x ∷ y ∷ ys) t b e = row_below n (y ∷ ys) t b.1 e

  pub take-below :
      (n k : ℕ) (rows : List (RepoSeqRow Link))
      → All (λ (row : RepoSeqRow Link). row.seq < n) rows
      → All (λ (row : RepoSeqRow Link). row.seq < n) (take k rows)
  take-below n zero rows h = tt
  take-below n (suc k) [] h = tt
  take-below n (suc k) (x ∷ rows) h = (h.0, take-below n k rows h.1)

  -- A page that ends with the row `t` extends the coverage to `t`.
  pub Covered-page :
      (c l k : ℕ) (s : Sequencer Link) (es page : List (SeqEvt Link)) (t : RepoSeqRow Link)
      → Inv s
      → Covered c l s es
      → Events (take k (pending_rows l s.rows)) page
      → get_last? (take k (pending_rows l s.rows)) ≡ some t
      → Covered c t.seq s (es ++ page) × (l < t.seq)
  Covered-page c l k s es page t i v r e =
      let (split, past) = page_split l k s.rows t i.ascending e in
      (
        record {
          seen = v.seen ++ take k (pending_rows l s.rows);
          split =
              v.split
              ∙ ap (λ rs. v.seen ++ rs) split
              ∙ sym (
                  append_assoc v.seen (take k (pending_rows l s.rows)) (pending_rows t.seq s.rows));
          matched = Events-append v.matched r;
          past = omega (arith, v.past, past);
          known =
              row_below s.next_seq (take k (pending_rows l s.rows)) t
                (take-below s.next_seq k (pending_rows l s.rows)
                  (select-All _ (unseen l) s.rows i.below))
                e;
        },
        past,
      )

  -- There is one list of events for a list of rows.
  pub Events-unique :
      {rows : List (RepoSeqRow Link)} {es fs : List (SeqEvt Link)}
      → Events rows es
      → Events rows fs
      → es ≡ fs
  Events-unique {es = es} {fs = fs} p q =
      some-injective es fs (sym (to_events-of-Events p) ∙ to_events-of-Events q)
