-- ===== src/Subscription/Served.antt =====
-- packages/danaus/src/api/com.atproto/sync.subscribeRepos.ts: what a subscriber is sent, for every
-- cursor.
use danaus.Prelude.{
  ℕ, ◌+◌, ◌-◌, ◌≤◌, ◌<◌, ◌≡◌, ap, ◌⊎◌, inl, inr, true, false, none, some, List, [], ◌∷◌, ◌++◌, map,
  arith, All, ltb, Bool-cases,
}
use danaus.Table.{Timestamps, Ascending}
use danaus.SeqEvent.{SeqEvt}
use danaus.Sequencer.{Sequencer, last_seq, next, request_seq_range}
use danaus.Sequencer.Invariant.{Inv, last_seq-Inv, last_seq_bounds}
use danaus.Sequencer.Range.{evt_seq}
use danaus.Outbox.{after, Streamed, sequence_all}
use danaus.Outbox.Growth.{sequence_all-Follows}
use danaus.Outbox.Rounds.{total, Calm, AllCalm}
use danaus.Outbox.Tail.{Leaves}
use danaus.Outbox.Complete.{events_complete, events_live}
use danaus.Subscription.{
  Frame, outdated_cursor, message, Answer, future_cursor, streams, Meanwhile, is_outdated,
  answer_of, stream, stream_recent, subscribe_repos,
}
use danaus.Subscription.Start.{TimesRise, Recent, before-Recent}

module _ {Link : Type 0} (D : Timestamps) where
  -- The messages are the events after `start` of the table at the end, once and in order, behind
  -- these others, less a rest that is empty where the stream waits, no more than the buffer's size
  -- where it is suspended at a message, and more than that where it ends with ConsumerTooSlow.
  abbrev pub Sends : ℕ → Answer Link → List (Frame Link) → ℕ → Type 0
  Sends max_buffer answer info start =
      (r : Streamed Link) × (rest : List (SeqEvt Link)) × (answer
        ≡ streams (info ++ map message r.shown) r.ending r.sequencer)
      × (request_seq_range D (after start none) r.sequencer ≡ some (r.shown ++ rest))
      × Ascending evt_seq 0 (r.shown ++ rest)
      × Leaves D max_buffer r.ending rest

  -- What is sequenced meanwhile can be read back, and the signal is not aborted.
  abbrev pub CalmAll : Meanwhile Link → Type 0
  CalmAll m =
      Calm D m.during_info × AllCalm D m.pages × Calm D m.during_catch_up × AllCalm D m.during_tail

  last_seq-next_seq : (s : Sequencer Link) → (last_seq s).1.next_seq ≡ s.next_seq
  unfolding last_seq
  last_seq-next_seq s = ground arith

  module _ (fuel max_buffer : ℕ) (m : Meanwhile Link) (f : CalmAll m) where
    stream-from :
        (info : List (Frame Link)) (start : ℕ) (s : Sequencer Link)
        → Inv s
        → start < s.next_seq
        → s.next_seq + total D m.pages ≤ fuel
        → Sends max_buffer (stream D fuel max_buffer m info false (some start) s) info start
    stream-from info start s i h enough =
        let (r, e, (rest, q, a, l)) =
          events_complete D fuel max_buffer start m.pages m.during_catch_up m.during_tail s i h f.1
            f.2 f.3 (omega (arith, enough)) in
        (r, rest, ap (answer_of info) e, q, a, l)

    -- With no cursor: what is sequenced from now on.
    stream-live :
        (info : List (Frame Link)) (s : Sequencer Link)
        → Inv s
        → Sends max_buffer (stream D fuel max_buffer m info false none s) info (s.next_seq - 1)
    stream-live info s i =
        let (r, e, (rest, q, a, l)) =
          events_live D fuel max_buffer (s.next_seq - 1) m.pages m.during_catch_up m.during_tail s i
            (omega (arith, i.positive)) f.3 in
        (r, rest, ap (answer_of info) e, q, a, l)

    stream_recent-Sends :
        (cutoff : ℕ) (s : Sequencer Link)
        → Inv s
        → let later = sequence_all D m.during_info.sequenced s in
          TimesRise later.rows
          → later.next_seq + total D m.pages ≤ fuel
          → (start : ℕ) × Sends max_buffer
              (stream_recent D fuel max_buffer m false cutoff s)
              (outdated_cursor ∷ [])
              start
            × All (Recent D cutoff start) later.rows
    unfolding stream_recent
    stream_recent-Sends cutoff s i t enough =
        let later = sequence_all D m.during_info.sequenced s in
        let (j, g) = sequence_all-Follows D m.during_info.sequenced s f.0.0 i in
        elim (before-Recent D cutoff later j t) [
          | inl (e, old) ↦
              (later.next_seq - 1, rw (e, f.0.1) (stream-live (outdated_cursor ∷ []) later j), old)
          | inr (start, e, h, all) ↦ (
            start,
            rw (e, f.0.1) (stream-from (outdated_cursor ∷ []) start later j h enough),
            all,
          )
        ]

    -- A subscriber that gives a cursor beyond the last sequence number is refused. Where the first
    -- event after its cursor is older than the limit, it is told so, and then sent the events after a
    -- start that has all events within the limit after it and, to the precision of the stored times,
    -- no older ones. Otherwise it is sent the events after its cursor. Where the signal is not
    -- aborted, what is sent is each event once, in order, up to the end of the table as it is when
    -- the stream stops, whatever is sequenced meanwhile, less a rest: nothing while the stream waits,
    -- no more than the buffer's size while it is suspended at a message, and more than the buffer's
    -- size where it ends with ConsumerTooSlow.
    pub subscribe_repos-Sends :
        (cursor cutoff : ℕ) (s : Sequencer Link)
        → Inv s
        → let (last, known) = last_seq s in
          let later = sequence_all D m.during_info.sequenced known in
          TimesRise later.rows
          → later.next_seq + total D m.pages ≤ fuel
          → let answer = subscribe_repos D fuel max_buffer m (some cursor) false cutoff s in
            ((last < cursor) × (answer ≡ future_cursor))
            ⊎ ((cursor ≤ last)
                × (is_outdated cutoff (next cursor known) ≡ false)
                × Sends max_buffer answer [] cursor)
            ⊎ ((cursor ≤ last)
                × (is_outdated cutoff (next cursor known) ≡ true)
                × ((start : ℕ) × Sends max_buffer answer (outdated_cursor ∷ []) start
                    × All (Recent D cutoff start) later.rows))
    unfolding subscribe_repos
    subscribe_repos-Sends cursor cutoff s i t enough =
        let (all, below) = last_seq_bounds s i in
        let j = last_seq-Inv s i in
        let (_, g) = sequence_all-Follows D m.during_info.sequenced (last_seq s).1 f.0.0 j in
        elim (Bool-cases (ltb (last_seq s).0 cursor)) [
          | inl e ↦ inl (ground (arith, e), rw e)
          | inr e ↦ elim (Bool-cases (is_outdated cutoff (next cursor (last_seq s).1))) [
            | inl o ↦ inr (
                inr (
                  ground (arith, e),
                  o,
                  rw (e, o) (stream_recent-Sends cutoff (last_seq s).1 j t enough),
                ))
            | inr o ↦ inr (
                inl (
                  ground (arith, e),
                  o,
                  rw (e, o)
                      (stream-from [] cursor (last_seq s).1 j
                        (ground (arith, e, below, last_seq-next_seq s))
                        (omega (arith, enough, g.counter))),
                ))
          ]
        ]
