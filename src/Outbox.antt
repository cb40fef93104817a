-- ===== src/Outbox.antt =====
-- packages/danaus/src/sequencer/outbox.ts: one subscriber's stream of events, over the bounded
-- buffer of async-buffer.ts. Other code runs only while the generator is suspended, at a `yield` or
-- at the `await` of the buffer: what it does there is given as moments, one for each page of the
-- backfill, one while the catch-up events are yielded, and one after each turn of the tail. Nothing
-- is deleted meanwhile.
pub mod Growth
pub mod Pages
pub mod Coverage
pub mod Rounds
pub mod Backfill
pub mod Buffered
pub mod Tail
pub mod Complete
pub mod TooSlow
use danaus.Prelude.{
  ℕ, zero, suc, ◌+◌, ◌/◌, Bool, true, false, not, ◌&&◌, ◌||◌, Option, none, some, List, [], ◌∷◌,
  ◌++◌, ltb, leb, drop, length, get_last?, if◌then◌else◌,
}
use danaus.Table.{Timestamps}
use danaus.SeqEvent.{SequencerInsert, SeqEvt, or_throw}
use danaus.Sequencer.{Sequencer, SeqRangeOptions, last_seq, request_seq_range, sequence_evt}
use danaus.Queue.{Queue}
use danaus.Queue.Fifo.{linked_queue}
use danaus.AsyncBuffer.{
  Buffer, Outcome, pending, full, yielded, returned, new_buffer, push, close, resume,
}

abbrev pub backfill_page_size : ℕ
backfill_page_size = 500

-- `requestSeqRange({ earliestSeq, limit })`
abbrev pub after : ℕ → Option ℕ → SeqRangeOptions
after cursor limit = record {
  earliest_seq = some cursor;
  latest_seq = none;
  earliest_time = none;
  limit = limit;
}

-- `lastBackfillSeq > -1 ? lastBackfillSeq : backfillCursor`, where `none` stands for -1.
abbrev pub resume_from : ℕ → Option ℕ → ℕ
resume_from cursor none = cursor
resume_from cursor (some last) = last

-- `events.at(-1)!.seq`, and `last` if there are no events.
abbrev pub last_of : {Link : Type 0} → List (SeqEvt Link) → Option ℕ → Option ℕ
last_of es last = elim (get_last? es) [ none ↦ last | some e ↦ some e.seq ]

-- What other code does while the generator is suspended: the events that it sequences, and whether
-- the signal is aborted after them.
pub record Moment (Link : Type 0) : Type 0 where
  pub sequenced : List (SequencerInsert Link)
  pub aborts : Bool

pub record Backfilled (Link : Type 0) : Type 0 where
  pub sequencer : Sequencer Link
  pub last : Option ℕ
  pub shown : List (SeqEvt Link)
  pub aborted : Bool

-- The generator awaits the buffer, is suspended at a `yield` of the tail, throws ConsumerTooSlow,
-- throws because the signal is aborted, or returns.
pub data Ending : Type 0 where
  waiting listening consumer_too_slow throws_aborted finished : Ending

pub record Streamed (Link : Type 0) : Type 0 where
  pub sequencer : Sequencer Link
  pub shown : List (SeqEvt Link)
  pub ending : Ending

module _ {Link : Type 0} where
  -- The handler that `on` registers is called with these events.
  unfoldable pub push_all :
      List (SeqEvt Link) → Buffer (Queue (SeqEvt Link)) → Buffer (Queue (SeqEvt Link))
  unfolding push
  push_all [] b = b
  push_all (e ∷ es) b = push_all es (push linked_queue e b)

  -- The handler is called, and an aborted signal then takes it off and closes the buffer, which
  -- drops what is pushed from there on.
  abbrev pub hear :
      List (SeqEvt Link) → Bool → Buffer (Queue (SeqEvt Link)) → Buffer (Queue (SeqEvt Link))
  hear es aborts b = if aborts then close linked_queue (push_all es b) else push_all es b

  -- `!caughtUp && event.seq <= lastBackfillSeq`
  abbrev pub skips : Bool → Option ℕ → SeqEvt Link → Bool
  skips caught_up none e = false
  skips caught_up (some last) e = not caught_up && leb e.seq last

  abbrev pub passed : Bool → Option ℕ → SeqEvt Link → List (SeqEvt Link)
  passed caught_up last e = if skips caught_up last e then [] else e ∷ []

  abbrev pub caught_after : Bool → Option ℕ → Outcome (SeqEvt Link) → Bool
  caught_after caught_up last (yielded e) = caught_up || not (skips caught_up last e)
  caught_after caught_up last _ = caught_up

  abbrev pub ended : Sequencer Link → List (SeqEvt Link) → Ending → Streamed Link
  ended s es ending = record { sequencer = s; shown = es; ending = ending }

  abbrev pub behind : List (SeqEvt Link) → Streamed Link → Streamed Link
  behind es r = record r { shown = es ++ r.shown }

  -- The body of the loop, where nothing more happens after it.
  abbrev pub cut : Bool → Option ℕ → Sequencer Link → Outcome (SeqEvt Link) → Streamed Link
  cut caught_up last s pending = ended s [] waiting
  cut caught_up last s (yielded e) = ended s (passed caught_up last e) listening
  cut caught_up last s (full n) = ended s [] consumer_too_slow
  cut caught_up last s returned = ended s [] finished

  -- The body of the loop, where the rest follows unless the buffer's generator throws or returns.
  abbrev pub turn :
      Bool → Option ℕ → Sequencer Link → Outcome (SeqEvt Link) → Streamed Link → Streamed Link
  turn caught_up last s pending rest = rest
  turn caught_up last s (yielded e) rest = behind (passed caught_up last e) rest
  turn caught_up last s (full n) rest = ended s [] consumer_too_slow
  turn caught_up last s returned rest = ended s [] finished

  -- What the listener that `on` registers is handed from `s` to `s'`.
  abbrev pub heard : Sequencer Link → Sequencer Link → List (SeqEvt Link)
  heard s s' = drop (length s.emitted) s'.emitted

  abbrev pub is_empty : List (SeqEvt Link) → Bool
  is_empty [] = true
  is_empty (e ∷ es) = false

module _ {Link : Type 0} (D : Timestamps) where
  unfoldable pub sequence_all : List (SequencerInsert Link) → Sequencer Link → Sequencer Link
  sequence_all [] s = s
  sequence_all (i ∷ is) s = sequence_all is (sequence_evt D i s).1

  abbrev pub next_batch : List (Moment Link) → List (SequencerInsert Link)
  next_batch [] = []
  next_batch (m ∷ ms) = m.sequenced

  abbrev pub next_aborts : List (Moment Link) → Bool
  next_aborts [] = false
  next_aborts (m ∷ ms) = m.aborts

  abbrev pub later_batches : List (Moment Link) → List (Moment Link)
  later_batches [] = []
  later_batches (m ∷ ms) = ms

  abbrev pub prepend : List (SeqEvt Link) → Backfilled Link → Backfilled Link
  prepend es b = record b { shown = es ++ b.shown }

  -- The loop that dumps pages, up to the `throwIfAborted` behind it; `none` where the fuel is used
  -- up or a query throws. `signal` is whether the signal has been aborted.
  unfoldable pub backfill :
      ℕ → List (Moment Link) → Bool → Sequencer Link → ℕ → Option ℕ → Option (Backfilled Link)
  backfill zero ms signal s cursor last = none
  backfill (suc fuel) ms signal s cursor last =
      or_throw (request_seq_range D (after (resume_from cursor last) (some backfill_page_size)) s)
        λ events.
          let s' = sequence_all (next_batch ms) s in
          let signal' = signal || next_aborts ms in
          let (last_seq, s'') = last_seq s' in
          let reached = last_of events last in
          let rest = backfill fuel (later_batches ms) signal' s'' cursor reached in
          elim events [
            | [] ↦ some (record { sequencer = s; last = last; shown = []; aborted = signal })
            | e ∷ es ↦
                if signal'
                then some (record { sequencer = s'; last = last; shown = e ∷ es; aborted = true })
                else if ltb last_seq (resume_from cursor reached + backfill_page_size / 2)
                then some
                    (record { sequencer = s''; last = reached; shown = e ∷ es; aborted = false })
                else or_throw rest λ more. some (prepend (e ∷ es) more)
          ]

  -- The loop over the tail, one turn of the buffer's generator and what happens after it at a time:
  -- until it has caught up it omits the events that the backfill has already covered.
  unfoldable pub tail :
      List (Moment Link)
      → Bool
      → Option ℕ
      → Buffer (Queue (SeqEvt Link))
      → Sequencer Link
      → Streamed Link
  unfolding resume push_all close
  tail [] caught_up last b s = cut caught_up last s (resume linked_queue b).0
  tail (m ∷ ms) caught_up last b s =
      let (o, b') = resume linked_queue b in
      let s' = sequence_all m.sequenced s in
      let rest = tail ms (caught_after caught_up last o) last (hear (heard s s') m.aborts b') s' in
      turn caught_up last s o rest

  -- `events(backfillCursor, signal)`
  unfoldable pub events :
      ℕ
      → ℕ
      → Option ℕ
      → Bool
      → List (Moment Link)
      → Moment Link
      → List (Moment Link)
      → Sequencer Link
      → Option (Streamed Link)
  unfolding backfill tail sequence_all new_buffer push_all close
  events fuel max_size none signal pages during_catch_up during_tail s = some (
      if signal
      then ended s [] throws_aborted
      else tail during_tail true none (new_buffer linked_queue max_size) s)
  events fuel max_size (some cursor) signal pages during_catch_up during_tail s =
      or_throw (backfill fuel pages signal s cursor none) λ b.
        let caught = request_seq_range D (after (resume_from cursor b.last) none) b.sequencer in
        if b.aborted
        then some (ended b.sequencer b.shown throws_aborted)
        else or_throw caught λ es.
          let m = during_catch_up in
          let t = sequence_all m.sequenced b.sequencer in
          let buffer = hear (heard b.sequencer t) m.aborts (new_buffer linked_queue max_size) in
          some (
            if m.aborts && not (is_empty es)
            then ended t (b.shown ++ es) throws_aborted
            else behind (b.shown ++ es) (tail during_tail false (last_of es b.last) buffer t))
