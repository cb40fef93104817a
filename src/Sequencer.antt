-- ===== src/Sequencer.antt =====
-- packages/danaus/src/sequencer/sequencer.ts over the table `repo_seq`
-- (packages/danaus/src/sequencer/db/schema.ts): the append-only log of repository events.
-- `emitted` lists what `events.emit` was called with, `notified` counts the calls of
-- `crawlers.notifyOfUpdate`. `next_seq` is the table's AUTOINCREMENT counter.
pub mod Invariant
pub mod Range
pub mod Exact
pub mod Emission
use danaus.Prelude.{
  ℕ, suc, ◌+◌, String, ◌≡◌, Bool, true, not, ◌&&◌, ◌||◌, Option, none, some, List, [], ◌∷◌, ◌++◌,
  ◌==◌, ltb, leb, str_eq, if◌then◌else◌, take, get_last?,
}
use danaus.Table.{Timestamps, select, count, delete, order_by, any}
use danaus.SeqEvent.{
  EventType, Bytes, AccountStatus, Message, RepoCommitEvent, SequencerInsert, SeqEvt, or_throw,
  to_seq_evt, format_commit_event, format_sync_event, format_identity_event, format_account_event,
}

pub record RepoSeqRow (Link : Type 0) : Type 0 where
  pub seq : ℕ
  pub did : String
  pub event_type : EventType
  pub event : Message Link
  pub blocks : Option Bytes
  pub invalidated : ℕ
  pub sequenced_at : ℕ

pub record Sequencer (Link : Type 0) : Type 0 where
  pub rows : List (RepoSeqRow Link)
  pub next_seq : ℕ
  pub last_seq : Option ℕ
  pub emitted : List (SeqEvt Link)
  pub notified : ℕ

pub record SeqRangeOptions : Type 0 where
  pub earliest_seq : Option ℕ
  pub latest_seq : Option ℕ
  pub earliest_time : Option ℕ
  pub limit : Option ℕ

pub record Stats : Type 0 where
  pub last_seq : ℕ
  pub total_events : ℕ
  pub invalidated_events : ℕ

abbrev pub head? : {A : Type 0} → List A → Option A
head? [] = none
head? (x ∷ xs) = some x

-- A condition that is left out of the query when its option is undefined.
abbrev pub when_given : Option ℕ → (ℕ → Bool) → Bool
when_given none p = true
when_given (some n) p = p n

abbrev pub limit_to {ℓ} : {A : Type ℓ} → Option ℕ → List A → List A
limit_to none xs = xs
limit_to (some n) xs = take n xs

module _ {Link : Type 0} where
  abbrev pub by_seq : RepoSeqRow Link → ℕ
  by_seq row = row.seq

  -- The greatest sequence number in the table: ORDER BY seq DESC LIMIT 1.
  unfoldable pub stored_last : List (RepoSeqRow Link) → ℕ
  stored_last rows = elim (get_last? (order_by by_seq rows)) [ none ↦ 0 | some row ↦ row.seq ]

  -- `lastSeq()`: the cached number, or the one of the table, which is then cached.
  unfoldable pub last_seq : Sequencer Link → ℕ × Sequencer Link
  unfolding stored_last
  last_seq s = elim s.last_seq [
    | some n ↦ (n, s)
    | none ↦ (stored_last s.rows, record s { last_seq = some (stored_last s.rows) })
  ]

  unfoldable pub get_stats : Sequencer Link → Stats × Sequencer Link
  unfolding last_seq
  get_stats s =
      let (n, s') = last_seq s in
      (
        record {
          last_seq = n;
          total_events = count (λ _. true) s.rows;
          invalidated_events = count (λ (row : RepoSeqRow Link). row.invalidated == 1) s.rows;
        },
        s',
      )

  unfoldable pub next : ℕ → Sequencer Link → Option (RepoSeqRow Link)
  next cursor s = head? (order_by by_seq (select (λ row. ltb cursor row.seq) s.rows))

  unfoldable pub row_to_seq_evt : RepoSeqRow Link → Option (SeqEvt Link)
  unfolding to_seq_evt
  row_to_seq_evt row = to_seq_evt row.event_type row.seq row.sequenced_at row.event row.blocks

  -- `rows.map(rowToSeqEvt)`; `none` where a row throws.
  unfoldable pub to_events : List (RepoSeqRow Link) → Option (List (SeqEvt Link))
  to_events [] = some []
  to_events (row ∷ rows) =
      let rest = to_events rows in
      or_throw (row_to_seq_evt row) λ event. or_throw rest λ events. some (event ∷ events)

  -- `deleteAllForUser(did, excludingSeqs)`
  unfoldable pub delete_all_for_user : String → List ℕ → Sequencer Link → Sequencer Link
  delete_all_for_user did excluding s = record s {
    rows = delete (λ row. str_eq row.did did && not (any (λ n. n == row.seq) excluding)) s.rows;
  }

  module _ (D : Timestamps) where
    unfoldable pub earliest_after_time : ℕ → Sequencer Link → Option (RepoSeqRow Link)
    earliest_after_time time s = head? (
        order_by (λ (row : RepoSeqRow Link). row.sequenced_at)
          (select (λ row. leb (D.stored time) row.sequenced_at) s.rows))

    -- The WHERE clause of `requestSeqRange`.
    unfoldable pub in_range : SeqRangeOptions → RepoSeqRow Link → Bool
    in_range o row =
        row.invalidated == 0
        && when_given o.earliest_seq (λ n. ltb n row.seq)
        && when_given o.latest_seq (λ n. leb row.seq n)
        && when_given o.earliest_time (λ t. leb (D.stored t) row.sequenced_at)

    unfoldable pub request_seq_range :
        SeqRangeOptions → Sequencer Link → Option (List (SeqEvt Link))
    request_seq_range o s =
        to_events (limit_to o.limit (order_by by_seq (select (in_range o) s.rows)))

    -- The row that INSERT … RETURNING makes of an insert.
    abbrev pub inserted : SequencerInsert Link → ℕ → RepoSeqRow Link
    inserted insert seq = record {
      seq = seq;
      did = insert.did;
      event_type = insert.event_type;
      event = insert.event;
      blocks = insert.blocks;
      invalidated = 0;
      sequenced_at = D.stored insert.sequenced_at;
    }

    -- `sequenceEvt(insert)`; `none` where `toSeqEvt` throws, after the row has been written.
    unfoldable pub sequence_evt : SequencerInsert Link → Sequencer Link → Option ℕ × Sequencer Link
    unfolding row_to_seq_evt
    sequence_evt insert s =
        let row = inserted insert s.next_seq in
        let written = record s {
          rows = s.rows ++ row ∷ [];
          next_seq = suc s.next_seq;
          last_seq = some row.seq;
        } in
        elim (to_seq_evt insert.event_type row.seq row.sequenced_at insert.event insert.blocks) [
          | none ↦ (none, written)
          | some event ↦ (
            some row.seq,
            record written { emitted = s.emitted ++ event ∷ []; notified = suc s.notified },
          )
        ]

    module _ (parse_cid : String → Option Link)
        (write_car : Link → List (Link × Bytes) → Bytes) where
      -- `none` where formatting throws, and then nothing is written.
      abbrev pub sequence_formatted :
          Option (SequencerInsert Link) → Sequencer Link → Option ℕ × Sequencer Link
      sequence_formatted none s = (none, s)
      sequence_formatted (some insert) s = sequence_evt insert s

      unfoldable pub emit_commit : RepoCommitEvent → Sequencer Link → Option ℕ × Sequencer Link
      emit_commit event s = sequence_formatted (format_commit_event parse_cid write_car event) s

      unfoldable pub emit_sync :
          String
          → String
          → String
          → List (String × Bytes)
          → ℕ
          → Sequencer Link
          → Option ℕ × Sequencer Link
      emit_sync did rev commit_cid blocks now s =
          sequence_formatted (format_sync_event parse_cid write_car did rev commit_cid blocks now) s

    unfoldable pub emit_identity :
        String → Option String → ℕ → Sequencer Link → Option ℕ × Sequencer Link
    emit_identity did handle now s = sequence_evt (format_identity_event did handle now) s

    unfoldable pub emit_account :
        String → AccountStatus → ℕ → Sequencer Link → Option ℕ × Sequencer Link
    emit_account did status now s = sequence_evt (format_account_event did status now) s
