-- ===== src/Sequencer/Exact.antt =====
-- `requestSeqRange` against a description of the range by propositions.
use danaus.Prelude.{
  ℕ, zero, suc, Has, All-Has, ◌≤◌, ◌<◌, ◌≡◌, ◌⊎◌, refl, sym, ap, subst, ◌∙◌, inl, inr, Bool, true,
  false, Option, none, some, List, [], ◌∷◌, All, All-map, All-zip, Bool-cases, arith, length, take,
}
use danaus.Table.{Timestamps, Ascending, select}
use danaus.Table.Rows.{select-holds, select-All}
use danaus.Table.Sorted.{select-Ascending, order_by-Ascending, All-of-Ascending}
use danaus.SeqEvent.{SeqEvt}
use danaus.Sequencer.{
  RepoSeqRow, Sequencer, SeqRangeOptions, by_seq, row_to_seq_evt, to_events, limit_to, in_range,
  request_seq_range,
}
use danaus.Sequencer.Invariant.{Readable, Inv}
use danaus.Sequencer.Range.{
  WhenGiven, evt_seq, Events, nil, cons, Events-Ascending, to_events-Events, to_events-of-Events,
  seq-row_to_seq_evt, take-All, take-Ascending, Asked, in_range→Asked, Asked→in_range,
}

All-self-more :
    {A : Type 0} (x : A) (xs ys : List A) → All (λ y. Has y xs) ys → All (λ y. Has y (x ∷ xs)) ys
All-self-more x xs ys h = All-map (λ y. Has y xs) (λ y. Has y (x ∷ xs)) (λ y k. inr k) ys h

All-self : {A : Type 0} (xs : List A) → All (λ x. Has x xs) xs
All-self [] = tt
All-self (x ∷ xs) = (inl refl, All-self-more x xs xs (All-self xs))

length-take-le {ℓ} : {A : Type ℓ} (n : ℕ) (xs : List A) → length (take n xs) ≤ n
length-take-le zero xs = omega arith
length-take-le (suc n) [] = omega arith
length-take-le (suc n) (x ∷ xs) = omega (arith, length-take-le n xs)

module _ {Link : Type 0} where
  Events-limit :
      {rows : List (RepoSeqRow Link)} {es : List (SeqEvt Link)} (l : Option ℕ)
      → Events rows es
      → Events (limit_to l rows) (limit_to l es)
  Events-limit none r = r
  Events-limit (some zero) r = nil
  Events-limit (some (suc n)) nil = nil
  Events-limit (some (suc n)) (cons p r) = cons p (Events-limit (some n) r)

  -- What is known of the rows is known of the events.
  Events-rows :
      (Q : RepoSeqRow Link → Type 0) {P : SeqEvt Link → Type 0} {rows : List (RepoSeqRow Link)}
      {es : List (SeqEvt Link)}
      → Events rows es
      → All Q rows
      → ((row : RepoSeqRow Link) (e : SeqEvt Link) → row_to_seq_evt row ≡ some e → Q row → P e)
      → All P es
  Events-rows Q nil h f = tt
  Events-rows Q (cons {row = row} {e = e} p r) h f = (f row e p h.0, Events-rows Q r h.1 f)

  -- An event is among the first, or they all come before it.
  take_split :
      (m n : ℕ) (all : List (SeqEvt Link)) (e : SeqEvt Link)
      → Ascending evt_seq m all
      → Has e all
      → Has e (take n all)
        ⊎ ((n ≡ length (take n all)) × All (λ (f : SeqEvt Link). f.seq < e.seq) (take n all))
  take_split m n [] e a k = absurd k
  take_split m zero (x ∷ all) e a k = inr (refl, tt)
  take_split m (suc n) (x ∷ all) e a (inl q) = inl (inl q)
  take_split m (suc n) (x ∷ all) e a (inr k) = elim (take_split x.seq n all e a.1 k) [
    | inl h ↦ inl (inr h)
    | inr (size, before) ↦
        let above =
          All-Has (λ (f : SeqEvt Link). x.seq < f.seq) e all
            (All-of-Ascending evt_seq x.seq all a.1) k in
        inr (omega (arith, size), (above, before))
  ]

module _ {Link : Type 0} (D : Timestamps) where
  -- A row stands among the events of a list.
  abbrev pub Shown : List (SeqEvt Link) → RepoSeqRow Link → Type 0
  Shown es row = (e : SeqEvt Link) × (row_to_seq_evt row ≡ some e) × Has e es

  Shown-cons :
      (e : SeqEvt Link) (es : List (SeqEvt Link)) (row : RepoSeqRow Link)
      → Shown es row
      → Shown (e ∷ es) row
  Shown-cons e es row (f, p, h) = (f, p, inr h)

  select-hit :
      (p : RepoSeqRow Link → Bool) (row : RepoSeqRow Link) (rows : List (RepoSeqRow Link))
      → p row ≡ true
      → select p (row ∷ rows) ≡ row ∷ select p rows
  unfolding select
  select-hit p row rows t = ground arith

  select-miss :
      (p : RepoSeqRow Link → Bool) (row : RepoSeqRow Link) (rows : List (RepoSeqRow Link))
      → p row ≡ false
      → select p (row ∷ rows) ≡ select p rows
  unfolding select
  select-miss p row rows t = ground arith

  Events-uncons :
      {row : RepoSeqRow Link} {rows : List (RepoSeqRow Link)} {es : List (SeqEvt Link)}
      → Events (row ∷ rows) es
      → (e : SeqEvt Link) × (fs : List (SeqEvt Link)) × (es ≡ e ∷ fs)
        × (row_to_seq_evt row ≡ some e)
        × Events rows fs
  Events-uncons (cons {e = e} {es = fs} p r) = (e, fs, refl, p, r)

  -- Every row that the test selects is shown.
  Events-Shown :
      (p : RepoSeqRow Link → Bool) (rows : List (RepoSeqRow Link)) (es : List (SeqEvt Link))
      → Events (select p rows) es
      → All (λ row. p row ≡ true → Shown es row) rows
  unfolding select
  Events-Shown p [] es r = tt
  Events-Shown p (row ∷ rows) es r = elim (Bool-cases (p row)) [
    | inl t ↦
        let (e, fs, eq, q, r') =
          Events-uncons (subst (λ rs. Events rs es) (select-hit p row rows t) r) in
        subst (λ gs. All (λ x. p x ≡ true → Shown gs x) (row ∷ rows)) (sym eq)
          (
            (λ _. (e, q, inl refl)),
            All-map _ (λ x. p x ≡ true → Shown (e ∷ fs) x) (λ x h k. Shown-cons e fs x (h k)) rows
                (Events-Shown p rows fs r'),
          )
    | inr f ↦ (
      (λ t. absurd (cc (t, f))),
      Events-Shown p rows es (subst (λ rs. Events rs es) (select-miss p row rows f) r),
    )
  ]

  -- The events of all rows that are asked for, of which the limit takes the first.
  request-limited :
      (o : SeqRangeOptions) (s : Sequencer Link)
      → Inv s
      → (all : List (SeqEvt Link)) × (request_seq_range D o s ≡ some (limit_to o.limit all))
        × Events (select (in_range D o) s.rows) all
  unfolding request_seq_range
  request-limited o s i =
      let visible = select (in_range D o) s.rows in
      let sorted = select-Ascending by_seq (in_range D o) 0 s.rows i.ascending in
      let (all, p, r) =
        to_events-Events visible (select-All Readable (in_range D o) s.rows i.readable) in
      (
        all,
        ap (λ rs. to_events (limit_to o.limit rs)) (order_by-Ascending by_seq 0 visible sorted)
            ∙ to_events-of-Events (Events-limit o.limit r),
        r,
      )

  -- The event is that of a row of the table that the range asks for.
  abbrev pub FromAsked : SeqRangeOptions → Sequencer Link → SeqEvt Link → Type 0
  FromAsked o s e =
      (row : RepoSeqRow Link) × Has row s.rows × (row_to_seq_evt row ≡ some e) × Asked D o row

  FromAsked-all :
      (o : SeqRangeOptions) (s : Sequencer Link) (all : List (SeqEvt Link))
      → Events (select (in_range D o) s.rows) all
      → All (FromAsked o s) all
  FromAsked-all o s all r =
      let p = in_range D o in
      let both = select-All (λ row. Has row s.rows) p s.rows (All-self s.rows) in
      let asked = All-map _ (Asked D o) (in_range→Asked D o) _ (select-holds p s.rows) in
      Events-rows (λ row. Has row s.rows × Asked D o row) r
        (All-zip (λ row. Has row s.rows) (Asked D o) (select p s.rows) both asked)
        (λ row e q h. (row, h.0, q, h.1))

  -- The list is as long as the limit, and ends before the row.
  abbrev pub CutBefore : SeqRangeOptions → List (SeqEvt Link) → RepoSeqRow Link → Type 0
  CutBefore o es row = (o.limit ≡ some (length es)) × All (λ (e : SeqEvt Link). e.seq < row.seq) es

  Shown-limited :
      (o : SeqRangeOptions) (all : List (SeqEvt Link)) (row : RepoSeqRow Link) (l : Option ℕ)
      → o.limit ≡ l
      → Ascending evt_seq 0 all
      → Shown all row
      → Shown (limit_to l all) row ⊎ CutBefore o (limit_to l all) row
  Shown-limited o all row none q a h = inl h
  Shown-limited o all row (some n) q a (e, p, k) = elim (take_split 0 n all e a k) [
    | inl m ↦ inl (e, p, m)
    | inr (size, before) ↦ inr (
      q ∙ ap some size,
      subst (λ m. All (λ (f : SeqEvt Link). f.seq < m) (take n all)) (seq-row_to_seq_evt row e p)
          before,
    )
  ]

  limit_length :
      (l : Option ℕ) (all : List (SeqEvt Link)) → WhenGiven l (λ n. length (limit_to l all) ≤ n)
  limit_length none all = tt
  limit_length (some n) all = length-take-le n all

  limited_all :
      (P : SeqEvt Link → Type 0) (l : Option ℕ) (all : List (SeqEvt Link))
      → All P all
      → All P (limit_to l all)
  limited_all P none all h = h
  limited_all P (some n) all h = take-All P n all h

  limited_rise :
      (l : Option ℕ) (all : List (SeqEvt Link))
      → Ascending evt_seq 0 all
      → Ascending evt_seq 0 (limit_to l all)
  limited_rise none all a = a
  limited_rise (some n) all a = take-Ascending evt_seq 0 n all a

  -- On a sequencer in its invariant `requestSeqRange` never throws. The events come in rising order
  -- of their sequence numbers, no more than the limit; each is that of a row of the table that is
  -- not invalidated and is within the bounds on the number and on the time; and every such row is
  -- among them, unless the limit is reached with events that all come before it.
  pub request_seq_range_exact :
      (o : SeqRangeOptions) (s : Sequencer Link)
      → Inv s
      → (es : List (SeqEvt Link)) × (request_seq_range D o s ≡ some es)
        × Ascending evt_seq 0 es
        × WhenGiven o.limit (λ n. length es ≤ n)
        × All (FromAsked o s) es
        × All (λ row. Asked D o row → Shown es row ⊎ CutBefore o es row) s.rows
  request_seq_range_exact o s i =
      let (all, p, r) = request-limited o s i in
      let rise =
        Events-Ascending 0 r (select-Ascending by_seq (in_range D o) 0 s.rows i.ascending) in
      (
        limit_to o.limit all,
        p,
        limited_rise o.limit all rise,
        limit_length o.limit all,
        limited_all (FromAsked o s) o.limit all (FromAsked-all o s all r),
        All-map (λ row. in_range D o row ≡ true → Shown all row)
            (λ row.
              Asked D o row
              → Shown (limit_to o.limit all) row ⊎ CutBefore o (limit_to o.limit all) row)
            (λ row h a. Shown-limited o all row o.limit refl rise (h (Asked→in_range D o row a)))
            s.rows (Events-Shown (in_range D o) s.rows all r),
      )
