-- ===== src/Subscription/Start.antt =====
-- packages/danaus/src/api/com.atproto/sync.subscribeRepos.ts: where the stream starts.
use mathlib.Core.Option.{some-injective}
use danaus.Prelude.{
  ℕ, ◌-◌, ◌≤◌, ◌<◌, ◌≡◌, refl, ap, subst, ◌∙◌, ◌⊎◌, inl, inr, false, Bool, none, some, List, [],
  ◌∷◌, arith, All, All-map, All-zip, leb, Bool-cases, Option-cases,
}
use danaus.Table.{Timestamps, Ascending, select, first, order_by}
use danaus.Table.Rows.{select-All, first-All, first-none}
use danaus.Table.Sorted.{All-of-Ascending}
use danaus.Sequencer.{RepoSeqRow, Sequencer, by_seq, earliest_after_time, head?}
use danaus.Sequencer.Invariant.{Inv}
use danaus.Subscription.{before}

module _ {Link : Type 0} where
  -- No row is older than one that stands before it.
  abbrev pub TimesRise : List (RepoSeqRow Link) → Type 0
  TimesRise [] = Unit
  TimesRise (x ∷ xs) =
      All (λ (y : RepoSeqRow Link). x.sequenced_at ≤ y.sequenced_at) xs × TimesRise xs

  -- The start divides the rows at the time of the limit: those that are recent enough come after it,
  -- and those that come after it are recent enough, to the precision of the stored times.
  abbrev pub Recent : Timestamps → ℕ → ℕ → RepoSeqRow Link → Type 0
  Recent D cutoff start row =
      (cutoff ≤ row.sequenced_at → start < row.seq)
      × (start < row.seq → D.stored cutoff ≤ row.sequenced_at)

  -- The rows from `k` on are those that are recent enough.
  abbrev From : ℕ → ℕ → RepoSeqRow Link → Type 0
  From cutoff k row =
      (cutoff ≤ row.sequenced_at → k ≤ row.seq) × (k ≤ row.seq → cutoff ≤ row.sequenced_at)

  order_by-TimesRise :
      (rows : List (RepoSeqRow Link))
      → TimesRise rows
      → order_by (λ (row : RepoSeqRow Link). row.sequenced_at) rows ≡ rows
  unfolding order_by
  order_by-TimesRise [] t = refl
  order_by-TimesRise (x ∷ []) t = refl
  order_by-TimesRise (x ∷ y ∷ ys) t = rw (order_by-TimesRise (y ∷ ys) t.1) (ground (arith, t.0.0))

  select-TimesRise :
      (p : RepoSeqRow Link → Bool) (rows : List (RepoSeqRow Link))
      → TimesRise rows
      → TimesRise (select p rows)
  unfolding select
  select-TimesRise p [] t = tt
  select-TimesRise p (x ∷ xs) t = elim (Bool-cases (p x)) [
    | inl e ↦
        rw e (select-All (λ y. x.sequenced_at ≤ y.sequenced_at) p xs t.0, select-TimesRise p xs t.1)
    | inr e ↦ rw e (select-TimesRise p xs t.1)
  ]

  head-select :
      (p : RepoSeqRow Link → Bool) (rows : List (RepoSeqRow Link))
      → head? (select p rows) ≡ first p rows
  unfolding select first
  head-select p [] = refl
  head-select p (x ∷ xs) = ground (arith, head-select p xs)

  -- The rows that are recent enough start with the first of them.
  first-recent :
      (cutoff n : ℕ) (rows : List (RepoSeqRow Link)) (k : RepoSeqRow Link)
      → Ascending by_seq n rows
      → first (λ (row : RepoSeqRow Link). leb cutoff row.sequenced_at) rows ≡ some k
      → TimesRise rows
      → (n < k.seq) × All (From cutoff k.seq) rows
  unfolding first
  first-recent cutoff n [] k a e t = cc
  first-recent cutoff n (x ∷ xs) k a e t = elim (Bool-cases (leb cutoff x.sequenced_at)) [
    | inl h ↦
        let same : x ≡ k = some-injective x k (ground (arith, h, e)) in
        let later =
          All-zip (λ (y : RepoSeqRow Link). x.seq < y.seq)
            (λ (y : RepoSeqRow Link). x.sequenced_at ≤ y.sequenced_at) xs
            (All-of-Ascending by_seq x.seq xs a.1) t.0 in
        subst (λ (r : RepoSeqRow Link). (n < r.seq) × All (From cutoff r.seq) (x ∷ xs)) same
          (
            a.0,
            (
              (λ _. omega arith, λ _. ground (arith, h)),
              All-map (λ (y : RepoSeqRow Link). (x.seq < y.seq) × (x.sequenced_at ≤ y.sequenced_at))
                  (From cutoff x.seq)
                  (λ y g. (λ _. omega (arith, g.0), λ _. ground (arith, h, g.1))) xs later,
            ),
          )
    | inr f ↦
        let (above, rest) = first-recent cutoff x.seq xs k a.1 (ground (arith, f, e)) t.1 in
        (
          omega (arith, a.0, above),
          ((λ h. absurd (ground (arith, f, h)), λ h. absurd (omega (arith, h, above))), rest),
        )
  ]

module _ {Link : Type 0} (D : Timestamps) where
  earliest-first :
      (cutoff : ℕ) (s : Sequencer Link)
      → TimesRise s.rows
      → earliest_after_time D cutoff s
        ≡ first (λ (row : RepoSeqRow Link). leb (D.stored cutoff) row.sequenced_at) s.rows
  unfolding earliest_after_time
  earliest-first cutoff s t =
      let p = λ (row : RepoSeqRow Link). leb (D.stored cutoff) row.sequenced_at in
      ap head? (order_by-TimesRise (select p s.rows) (select-TimesRise p s.rows t))
      ∙ head-select p s.rows

  -- The start of a stream for an outdated cursor is just before the first row that is recent enough,
  -- or at the end of the table.
  pub before-Recent :
      (cutoff : ℕ) (s : Sequencer Link)
      → Inv s
      → TimesRise s.rows
      → ((before (earliest_after_time D cutoff s) ≡ none)
          × All (Recent D cutoff (s.next_seq - 1)) s.rows)
        ⊎ ((start : ℕ) × (before (earliest_after_time D cutoff s) ≡ some start)
            × (start < s.next_seq)
            × All (Recent D cutoff start) s.rows)
  before-Recent cutoff s i t =
      let p = λ (row : RepoSeqRow Link). leb (D.stored cutoff) row.sequenced_at in
      elim (Option-cases (first p s.rows)) [
        | inl e ↦ inl (
          ap before (earliest-first cutoff s t ∙ e),
          All-map (λ (row : RepoSeqRow Link). (p row ≡ false) × (row.seq < s.next_seq))
              (Recent D cutoff (s.next_seq - 1))
              (λ row h. (
                λ recent. absurd (ground (arith, h.0, D.stored-le cutoff, recent)),
                λ after. absurd (omega (arith, h.1, after)),
              ))
              s.rows
              (All-zip (λ (row : RepoSeqRow Link). p row ≡ false)
                (λ (row : RepoSeqRow Link). row.seq < s.next_seq) s.rows (first-none p s.rows e)
                i.below),
        )
        | inr (k, e) ↦
            let (above, later) = first-recent (D.stored cutoff) 0 s.rows k i.ascending e t in
            let below =
              (first-All (λ (row : RepoSeqRow Link). row.seq < s.next_seq) p s.rows k i.below
                e).0 in
            inr (
              k.seq - 1,
              ap before (earliest-first cutoff s t ∙ e) ∙ ground (arith, above),
              omega (arith, above, below),
              All-map (From (D.stored cutoff) k.seq) (Recent D cutoff (k.seq - 1))
                  (λ row h. (
                    λ recent. omega (arith, h.0 (omega (arith, D.stored-le cutoff, recent)), above),
                    λ after. h.1 (omega (arith, after)),
                  ))
                  s.rows later,
            )
      ]
