-- ===== src/Sequencer/Invariant.antt =====
-- The invariant of the sequencer: sequence numbers rise along the table, are never used again, and
-- the cached last number is the greatest.
use danaus.Prelude.{
  ℕ, suc, ◌≤◌, ◌<◌, String, ◌≡◌, refl, sym, subst, none, some, List, [], ◌∷◌, ◌++◌, arith, All,
  All-append, All-map, get_last?, Option-cases, inl, inr,
}
use danaus.Table.{Timestamps, Ascending, order_by}
use danaus.Table.Rows.{delete-All}
use danaus.Table.Sorted.{order_by-Ascending, delete-Ascending, Ascending-append}
use danaus.SeqEvent.{SequencerInsert, SeqEvt}
use danaus.Sequencer.{
  RepoSeqRow, Sequencer, by_seq, stored_last, last_seq, row_to_seq_evt, delete_all_for_user,
  inserted, sequence_evt,
}

module _ {Link : Type 0} where
  -- The row can be turned into an event: a commit or a sync has its blocks.
  abbrev pub Readable : RepoSeqRow Link → Type 0
  Readable row = (event : SeqEvt Link) × (row_to_seq_evt row ≡ some event)

  pub record Inv (s : Sequencer Link) : Type 0 where
    pub positive : 0 < s.next_seq
    pub ascending : Ascending by_seq 0 s.rows
    pub below : All (λ (row : RepoSeqRow Link). row.seq < s.next_seq) s.rows
    pub readable : All Readable s.rows
    pub cached_below : (n : ℕ) → s.last_seq ≡ some n → n < s.next_seq
    pub cached_last :
        (n : ℕ) → s.last_seq ≡ some n → All (λ (row : RepoSeqRow Link). row.seq ≤ n) s.rows

  -- A new database, and one that is opened again: nothing is cached.
  abbrev pub init : Sequencer Link
  init = record { rows = []; next_seq = 1; last_seq = none; emitted = []; notified = 0 }

  abbrev pub reopen : Sequencer Link → Sequencer Link
  reopen s = record s { last_seq = none }

  pub init-Inv : Inv init
  init-Inv = record {
    positive = omega arith;
    ascending = tt;
    below = tt;
    readable = tt;
    cached_below = λ n e. cc;
    cached_last = λ n e. cc;
  }

  pub reopen-Inv : (s : Sequencer Link) → Inv s → Inv (reopen s)
  reopen-Inv s i = record {
    positive = i.positive;
    ascending = i.ascending;
    below = i.below;
    readable = i.readable;
    cached_below = λ n e. cc;
    cached_last = λ n e. cc;
  }

  last-Ascending :
      (n : ℕ) (rows : List (RepoSeqRow Link)) (r : RepoSeqRow Link)
      → Ascending by_seq n rows
      → get_last? rows ≡ some r
      → All (λ (row : RepoSeqRow Link). row.seq ≤ r.seq) rows × (n < r.seq)
  last-Ascending n [] r a e = cc
  last-Ascending n (x ∷ []) r a e =
      let p : x.seq ≡ r.seq = ground arith in ((omega arith, tt), omega (arith, a.0))
  last-Ascending n (x ∷ y ∷ ys) r a e =
      let (h, l) = last-Ascending x.seq (y ∷ ys) r a.1 e in ((omega arith, h), omega (arith, a.0))

  last-below :
      (m : ℕ) (rows : List (RepoSeqRow Link)) (r : RepoSeqRow Link)
      → All (λ (row : RepoSeqRow Link). row.seq < m) rows
      → get_last? rows ≡ some r
      → r.seq < m
  last-below m [] r b e = cc
  last-below m (x ∷ []) r b e = let p : x.seq ≡ r.seq = ground arith in omega (arith, b.0)
  last-below m (x ∷ y ∷ ys) r b e = last-below m (y ∷ ys) r b.1 e

  get_last?-none : (rows : List (RepoSeqRow Link)) → get_last? rows ≡ none → rows ≡ []
  get_last?-none [] e = refl
  get_last?-none (x ∷ []) e = cc
  get_last?-none (x ∷ y ∷ ys) e = cc (get_last?-none (y ∷ ys) e)

  stored_last-sorted :
      (rows : List (RepoSeqRow Link)) (r : RepoSeqRow Link)
      → Ascending by_seq 0 rows
      → get_last? rows ≡ some r
      → stored_last rows ≡ r.seq
  unfolding stored_last
  stored_last-sorted rows r a e = rw (order_by-Ascending by_seq 0 rows a, e, stored_last)

  stored_last-greatest :
      (rows : List (RepoSeqRow Link))
      → Ascending by_seq 0 rows
      → All (λ (row : RepoSeqRow Link). row.seq ≤ stored_last rows) rows
  stored_last-greatest rows a = elim (Option-cases (get_last? rows)) [
    | inl e ↦
        subst (λ rs. All (λ (row : RepoSeqRow Link). row.seq ≤ stored_last rows) rs)
          (sym (get_last?-none rows e)) tt
    | inr (r, e) ↦ rw (stored_last-sorted rows r a e) (last-Ascending 0 rows r a e).0
  ]

  stored_last-lt :
      (m : ℕ) (rows : List (RepoSeqRow Link))
      → 0 < m
      → Ascending by_seq 0 rows
      → All (λ (row : RepoSeqRow Link). row.seq < m) rows
      → stored_last rows < m
  unfolding stored_last order_by
  stored_last-lt m rows h a b = elim (Option-cases (get_last? rows)) [
    | inl e ↦ rw (get_last?-none rows e) h
    | inr (r, e) ↦ rw (stored_last-sorted rows r a e) (last-below m rows r b e)
  ]

  -- `lastSeq()` is at least every number in the table, and below the next one; it changes nothing
  -- but the cache.
  pub last_seq_bounds :
      (s : Sequencer Link)
      → Inv s
      → All (λ (row : RepoSeqRow Link). row.seq ≤ (last_seq s).0) s.rows
        × ((last_seq s).0 < s.next_seq)
  unfolding last_seq
  last_seq_bounds s i = elim (Option-cases s.last_seq) [
    | inl e ↦
        rw (e, last_seq)
          (
            stored_last-greatest s.rows i.ascending,
            stored_last-lt s.next_seq s.rows i.positive i.ascending i.below,
          )
    | inr (n, e) ↦ rw (e, last_seq) (i.cached_last n e, i.cached_below n e)
  ]

  last_seq-cached : (s : Sequencer Link) (n : ℕ) → s.last_seq ≡ some n → last_seq s ≡ (n, s)
  unfolding last_seq
  last_seq-cached s n e = ground arith

  last_seq-fresh :
      (s : Sequencer Link)
      → s.last_seq ≡ none
      → last_seq s ≡ (stored_last s.rows, record s { last_seq = some (stored_last s.rows) })
  unfolding last_seq
  last_seq-fresh s e = ground arith

  pub last_seq-Inv : (s : Sequencer Link) → Inv s → Inv (last_seq s).1
  last_seq-Inv s i = elim (Option-cases s.last_seq) [
    | inr (n, e) ↦ subst (λ r. Inv r.1) (sym (last_seq-cached s n e)) i
    | inl e ↦
        let lt = stored_last-lt s.next_seq s.rows i.positive i.ascending i.below in
        let all = stored_last-greatest s.rows i.ascending in
        subst (λ r. Inv r.1) (sym (last_seq-fresh s e))
          (record {
            positive = i.positive;
            ascending = i.ascending;
            below = i.below;
            readable = i.readable;
            cached_below = λ n h. ground (arith, lt);
            cached_last = λ n h.
                subst (λ m. All (λ (row : RepoSeqRow Link). row.seq ≤ m) s.rows) (ground arith) all;
          })
  ]

  pub delete_all_for_user-Inv :
      (s : Sequencer Link) (did : String) (excluding : List ℕ)
      → Inv s
      → Inv (delete_all_for_user did excluding s)
  unfolding delete_all_for_user
  delete_all_for_user-Inv s did excluding i = record {
    positive = i.positive;
    ascending = delete-Ascending by_seq _ 0 s.rows i.ascending;
    below = delete-All _ _ s.rows i.below;
    readable = delete-All _ _ s.rows i.readable;
    cached_below = i.cached_below;
    cached_last = λ n e. delete-All _ _ s.rows (i.cached_last n e);
  }

  -- What `sequenceEvt` writes of an event that can be read back.
  abbrev pub written :
      Timestamps → SequencerInsert Link → SeqEvt Link → Sequencer Link → Sequencer Link
  written D insert event s = record s {
    rows = s.rows ++ inserted D insert s.next_seq ∷ [];
    next_seq = suc s.next_seq;
    last_seq = some s.next_seq;
    emitted = s.emitted ++ event ∷ [];
    notified = suc s.notified;
  }

  module _ (D : Timestamps) where
    pub sequence_evt-written :
        (insert : SequencerInsert Link) (s : Sequencer Link) (event : SeqEvt Link)
        → row_to_seq_evt (inserted D insert s.next_seq) ≡ some event
        → sequence_evt D insert s ≡ (some s.next_seq, written D insert event s)
    unfolding sequence_evt
    sequence_evt-written insert s event e = ground arith

    pub written-Inv :
        (insert : SequencerInsert Link) (s : Sequencer Link) (event : SeqEvt Link)
        → row_to_seq_evt (inserted D insert s.next_seq) ≡ some event
        → Inv s
        → Inv (written D insert event s)
    written-Inv insert s event e i =
        let row = inserted D insert s.next_seq in
        record {
          positive = omega arith;
          ascending = Ascending-append by_seq 0 s.rows row i.positive i.ascending i.below;
          below =
              All-append _ s.rows (row ∷ [])
                (All-map _ (λ (r : RepoSeqRow Link). r.seq < suc s.next_seq) (λ r h. omega arith)
                  s.rows i.below)
                (omega arith, tt);
          readable = All-append _ s.rows (row ∷ []) i.readable ((event, e), tt);
          cached_below = λ n h. ground arith;
          cached_last = λ n h.
              All-append _ s.rows (row ∷ [])
                (All-map _ (λ (r : RepoSeqRow Link). r.seq ≤ n) (λ r k. ground arith) s.rows
                  i.below)
                (ground arith, tt);
        }
