-- ===== src/Subscription.antt =====
-- packages/danaus/src/api/com.atproto/sync.subscribeRepos.ts: what a subscriber is sent, from the
-- cursor that it gives. Other code runs only while the handler is suspended at a `yield`: what it
-- does while the first message is taken is one moment more than those of the outbox.
pub mod Start
pub mod Served
use danaus.Prelude.{
  ℕ, ◌-◌, ◌||◌, Bool, false, Option, none, some, List, [], ◌∷◌, ◌++◌, map, if◌then◌else◌, ltb, ◌==◌,
}
use danaus.Table.{Timestamps}
use danaus.SeqEvent.{SeqEvt}
use danaus.Sequencer.{RepoSeqRow, Sequencer, last_seq, next, earliest_after_time}
use danaus.Outbox.{Ending, Moment, Streamed, sequence_all, events}

-- A message of the stream: `#info` with the name OutdatedCursor, or one of the four kinds of event
-- under the event's own kind.
pub data Frame (Link : Type 0) : Type 0 where
  outdated_cursor : Frame Link
  message : SeqEvt Link → Frame Link

-- FutureCursor, a query that throws, or the messages, how the stream ends and the sequencer there.
pub data Answer (Link : Type 0) : Type 0 where
  future_cursor fails : Answer Link
  streams : List (Frame Link) → Ending → Sequencer Link → Answer Link

-- What other code does while the subscriber takes what it is sent.
pub record Meanwhile (Link : Type 0) : Type 0 where
  pub during_info : Moment Link
  pub pages : List (Moment Link)
  pub during_catch_up : Moment Link
  pub during_tail : List (Moment Link)

module _ {Link : Type 0} where
  -- `startEvt?.seq ? startEvt.seq - 1 : undefined`
  abbrev pub before : Option (RepoSeqRow Link) → Option ℕ
  before none = none
  before (some row) = if row.seq == 0 then none else some (row.seq - 1)

  -- Whether the first event after the cursor is older than the limit.
  abbrev pub is_outdated : ℕ → Option (RepoSeqRow Link) → Bool
  is_outdated cutoff none = false
  is_outdated cutoff (some row) = ltb row.sequenced_at cutoff

  abbrev pub answer_of : List (Frame Link) → Option (Streamed Link) → Answer Link
  answer_of info none = fails
  answer_of info (some r) = streams (info ++ map message r.shown) r.ending r.sequencer

  module _ (D : Timestamps) (fuel max_buffer : ℕ) (m : Meanwhile Link) where
    abbrev pub stream : List (Frame Link) → Bool → Option ℕ → Sequencer Link → Answer Link
    stream info signal cursor s =
        answer_of info
          (events D fuel max_buffer cursor signal m.pages m.during_catch_up m.during_tail s)

    -- The message on the outdated cursor, and the stream from the first event within the limit.
    unfoldable pub stream_recent : Bool → ℕ → Sequencer Link → Answer Link
    unfolding sequence_all earliest_after_time
    stream_recent signal cutoff s =
        let later = sequence_all D m.during_info.sequenced s in
        stream (outdated_cursor ∷ []) (signal || m.during_info.aborts)
          (before (earliest_after_time D cutoff later)) later

    -- `cutoff` is the present time less the limit on the backfill, `signal` is whether the signal
    -- has been aborted.
    unfoldable pub subscribe_repos : Option ℕ → Bool → ℕ → Sequencer Link → Answer Link
    unfolding last_seq next stream_recent events
    subscribe_repos none signal cutoff s = stream [] signal none s
    subscribe_repos (some cursor) signal cutoff s =
        let (last, s') = last_seq s in
        if ltb last cursor
        then future_cursor
        else if is_outdated cutoff (next cursor s')
        then stream_recent signal cutoff s'
        else stream [] signal (some cursor) s'
