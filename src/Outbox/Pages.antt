-- ===== src/Outbox/Pages.antt =====
-- How a page divides the rows that a cursor has not seen.
use danaus.Prelude.{
  ℕ, zero, suc, ◌≤◌, ◌<◌, ◌≡◌, refl, sym, ap, subst, ◌∙◌, fun_ext, Bool, true, ◌&&◌, Option, some,
  List, [], ◌∷◌, ◌++◌, arith, All, All-map, take, drop, get_last?, take-append-drop, ltb, ◌==◌, ◌⊎◌,
  inl, inr,
}
use mathlib.Core.Option.{some-injective}
use danaus.Table.{Timestamps, Ascending, select}
use danaus.Table.Rows.{select-holds}
use danaus.Table.Sorted.{select-Ascending}
use danaus.SeqEvent.{SeqEvt}
use danaus.Sequencer.{RepoSeqRow, Sequencer, by_seq, in_range, request_seq_range, limit_to}
use danaus.Sequencer.Invariant.{Inv}
use danaus.Sequencer.Range.{Events, nil, cons, request-Events, seq-row_to_seq_evt}
use danaus.Outbox.{after, last_of}

module _ {Link : Type 0} where
  -- The row is valid and past the cursor.
  abbrev pub unseen : ℕ → RepoSeqRow Link → Bool
  unseen cursor row = row.invalidated == 0 && ltb cursor row.seq

  abbrev pub pending_rows : ℕ → List (RepoSeqRow Link) → List (RepoSeqRow Link)
  pending_rows cursor rows = select (unseen cursor) rows

  pub in_range-after :
      (D : Timestamps) (cursor : ℕ) (limit : Option ℕ)
      → in_range D (after cursor limit) ≡ unseen cursor
  unfolding in_range
  in_range-after D cursor limit = fun_ext λ row. ground arith

  -- What a query after a cursor returns.
  pub request-pending :
      (D : Timestamps) (cursor : ℕ) (limit : Option ℕ) (s : Sequencer Link)
      → Inv s
      → (es : List (SeqEvt Link)) × (request_seq_range D (after cursor limit) s ≡ some es)
        × Events (limit_to limit (pending_rows cursor s.rows)) es
  request-pending D cursor limit s i =
      let (es, p, r) = request-Events D (after cursor limit) s i in
      (
        es,
        p,
        subst (λ test. Events (limit_to limit (select test s.rows)) es)
            (in_range-after D cursor limit) r,
      )

  -- What a later cursor has not seen, an earlier one has not seen either.
  pub pending-pending :
      (c l : ℕ) (rows : List (RepoSeqRow Link))
      → c ≤ l
      → pending_rows l (pending_rows c rows) ≡ pending_rows l rows
  unfolding select
  pending-pending c l [] h = refl
  pending-pending c l (row ∷ rows) h = ground (arith, pending-pending c l rows h)

  last-above :
      (n : ℕ) (rows : List (RepoSeqRow Link)) (t : RepoSeqRow Link)
      → Ascending by_seq n rows
      → get_last? rows ≡ some t
      → n < t.seq
  last-above n [] t a e = cc
  last-above n (x ∷ []) t a e = let p : x.seq ≡ t.seq = ground arith in omega (arith, a.0)
  last-above n (x ∷ y ∷ ys) t a e = omega (arith, a.0, last-above x.seq (y ∷ ys) t a.1 e)

  take-Ascending :
      (n k : ℕ) (rows : List (RepoSeqRow Link))
      → Ascending by_seq n rows
      → Ascending by_seq n (take k rows)
  take-Ascending n zero rows a = tt
  take-Ascending n (suc k) [] a = tt
  take-Ascending n (suc k) (x ∷ rows) a = (a.0, take-Ascending x.seq k rows a.1)

  pending-rest :
      (m n : ℕ) (rows : List (RepoSeqRow Link))
      → m ≤ n
      → Ascending by_seq n rows
      → All (λ (row : RepoSeqRow Link). row.invalidated ≡ 0) rows
      → pending_rows m rows ≡ rows
  unfolding select
  pending-rest m n [] h a v = refl
  pending-rest m n (x ∷ rows) h a v =
      ground (arith, a.0, v.0, pending-rest m x.seq rows (omega (arith, a.0)) a.1 v.1)

  miss :
      (c : ℕ) (x : RepoSeqRow Link) (rows : List (RepoSeqRow Link))
      → x.seq ≤ c
      → pending_rows c (x ∷ rows) ≡ pending_rows c rows
  unfolding select
  miss c x rows h = ground arith

  -- What is pending after the last row of a page is what the page leaves.
  pending-drop :
      (n k : ℕ) (rows : List (RepoSeqRow Link)) (t : RepoSeqRow Link)
      → Ascending by_seq n rows
      → All (λ (row : RepoSeqRow Link). row.invalidated ≡ 0) rows
      → get_last? (take k rows) ≡ some t
      → pending_rows t.seq rows ≡ drop k rows
  unfolding select
  pending-drop n zero rows t a v e = cc
  pending-drop n (suc k) [] t a v e = cc
  pending-drop n (suc zero) (x ∷ rows) t a v e =
      let p : x.seq ≡ t.seq = ground arith in
      ground (arith, p, v.0, pending-rest t.seq x.seq rows (omega (arith, p)) a.1 v.1)
  pending-drop n (suc (suc k)) (x ∷ []) t a v e =
      let p : x.seq ≡ t.seq = ground arith in ground (arith, p)
  pending-drop n (suc (suc k)) (x ∷ y ∷ rows) t a v e =
      let above =
        last-above x.seq (take (suc k) (y ∷ rows)) t (take-Ascending x.seq (suc k) (y ∷ rows) a.1)
          e in
      miss t.seq x (y ∷ rows) (omega (arith, above))
      ∙ pending-drop x.seq (suc k) (y ∷ rows) t a.1 v.1 e

  unseen-valid : (c : ℕ) (row : RepoSeqRow Link) → unseen c row ≡ true → row.invalidated ≡ 0
  unseen-valid c row h = ground arith

  unseen-above : (c : ℕ) (row : RepoSeqRow Link) → unseen c row ≡ true → c < row.seq
  unseen-above c row h = ground arith

  pub pending-Ascending :
      (c : ℕ) (rows : List (RepoSeqRow Link))
      → Ascending by_seq 0 rows
      → Ascending by_seq 0 (pending_rows c rows)
  pending-Ascending c rows a = select-Ascending by_seq (unseen c) 0 rows a

  last-All :
      (P : RepoSeqRow Link → Type 0) (rows : List (RepoSeqRow Link)) (t : RepoSeqRow Link)
      → All P rows
      → get_last? rows ≡ some t
      → P t
  last-All P [] t h e = cc
  last-All P (x ∷ []) t h e = subst P (some-injective x t e) h.0
  last-All P (x ∷ y ∷ ys) t h e = last-All P (y ∷ ys) t h.1 e

  take-All :
      (P : RepoSeqRow Link → Type 0) (k : ℕ) (rows : List (RepoSeqRow Link))
      → All P rows
      → All P (take k rows)
  take-All P zero rows h = tt
  take-All P (suc k) [] h = tt
  take-All P (suc k) (x ∷ rows) h = (h.0, take-All P k rows h.1)

  -- A page of what is pending after `c`, with last row `t`, and what is pending after `t`, are
  -- together what is pending after `c`.
  pub page_split :
      (c k : ℕ) (rows : List (RepoSeqRow Link)) (t : RepoSeqRow Link)
      → Ascending by_seq 0 rows
      → get_last? (take k (pending_rows c rows)) ≡ some t
      → (pending_rows c rows ≡ take k (pending_rows c rows) ++ pending_rows t.seq rows)
        × (c < t.seq)
  page_split c k rows t a e =
      let shown = pending_rows c rows in
      let held = select-holds (unseen c) rows in
      let above = All-map _ (λ (row : RepoSeqRow Link). c < row.seq) (unseen-above c) shown held in
      let valid =
        All-map _ (λ (row : RepoSeqRow Link). row.invalidated ≡ 0) (unseen-valid c) shown held in
      let past : c < t.seq =
        last-All (λ row. c < row.seq) (take k shown) t (take-All (λ row. c < row.seq) k shown above)
          e in
      (
        sym (take-append-drop k shown)
            ∙ ap (λ rs. take k shown ++ rs)
                (sym (pending-drop 0 k shown t (pending-Ascending c rows a) valid e)
                  ∙ pending-pending c t.seq rows (omega (arith, past))),
        past,
      )

  -- The events of a page that is not empty end with that of its last row.
  pub Events-last :
      {rows : List (RepoSeqRow Link)} {es : List (SeqEvt Link)}
      → Events rows es
      → ((rows ≡ []) × (es ≡ []))
        ⊎ ((t : RepoSeqRow Link) × (get_last? rows ≡ some t)
            × ((last : Option ℕ) → last_of es last ≡ some t.seq))
  Events-last nil = inl (refl, refl)
  Events-last (cons {row = row} {e = e} p nil) =
      inr (row, refl, λ last. ap some (seq-row_to_seq_evt row e p))
  Events-last (cons p (cons q r)) = elim (Events-last (cons q r)) [
    | inl (h, k) ↦ absurd (cc h)
    | inr (t, h, k) ↦ inr (t, h, k)
  ]
