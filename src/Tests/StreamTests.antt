-- ===== src/Tests/StreamTests.antt =====
-- packages/danaus/src/sequencer at concrete inputs: CIDs are texts, and a CAR file is the bytes of
-- its blocks.
use danaus.Prelude.{
  ◌<◌, ◌*◌, ◌/◌, ◌≤◌, ◌≡◌, ◌⊎◌, refl, false, length, String, arith, Option, none, some, List, [],
  ◌∷◌, ◌++◌, All,
}
use danaus.Table.{Timestamps, Ascending, select, order_by}
use danaus.SeqEvent.{
  Bytes, RepoCommitEvent, SequencerInsert, SeqEvt, deactivated, create, format_commit_event,
  format_identity_event, format_account_event,
}
use danaus.SeqEvent.Format.{Formatted, format_identity_event-Formatted}
use danaus.Sequencer.{
  Sequencer, SeqRangeOptions, request_seq_range, sequence_evt, last_seq, delete_all_for_user,
  to_events, emit_commit, emit_identity, emit_account,
}
use danaus.Sequencer.Invariant.{init}
use danaus.Sequencer.Range.{evt_seq, Asked}
use danaus.Sequencer.Exact.{Shown, FromAsked, CutBefore, request_seq_range_exact}
use danaus.Sequencer.Emission.{
  Call, commits, identifies, changes_account, deletes_user, reads_last, restarts, run, emitted_rise,
  run-Inv,
}
use danaus.Outbox.{
  after, events, Streamed, Moment, consumer_too_slow, sequence_all, push_all, tail, backfill,
}
use danaus.Outbox.Tail.{Leaves}
use danaus.AsyncBuffer.{push, resume}
use danaus.Queue.{empty, enqueue}
use danaus.Outbox.Complete.{events_complete}
use danaus.Outbox.TooSlow.{events_too_slow}

-- Whole seconds.
abbrev pub seconds : Timestamps
seconds = record {
  stored = λ t. t / 1000 * 1000;
  stored-le = λ t. omega arith;
  lt-stored = λ t. omega arith;
  stored_mono = λ t u h. omega arith;
}

abbrev text_cid : String → Option String
text_cid cid = some cid

abbrev concat_car : String → List (String × Bytes) → Bytes
concat_car root [] = []
concat_car root ((cid, block) ∷ blocks) = block ++ concat_car root blocks

abbrev commit_event : RepoCommitEvent
commit_event = record {
  did = "did:plc:a";
  commit_cid = "c1";
  rev = "r1";
  since = none;
  prev_data = none;
  now = 1500;
  ops =
      record { action = create; path = "app.bsky.feed.post/1"; cid = some "p1"; prev = none } ∷ [];
  blocks = ("c1", 1 ∷ []) ∷ ("p1", 2 ∷ 3 ∷ []) ∷ [];
}

abbrev calls : List Call
calls =
    commits commit_event
    ∷ identifies "did:plc:b" (some "b.test") 2100
    ∷ restarts
    ∷ deletes_user "did:plc:b" []
    ∷ reads_last
    ∷ changes_account "did:plc:a" deactivated 3200
    ∷ []

abbrev sequenced : Sequencer String
sequenced = run seconds text_cid concat_car calls init

emitted_rise_example : Ascending evt_seq 0 (run seconds text_cid concat_car calls init).emitted
emitted_rise_example = emitted_rise seconds text_cid concat_car calls

abbrev recent : SeqRangeOptions
recent = record {
  earliest_seq = some 1;
  latest_seq = none;
  earliest_time = some 1999;
  limit = some 1;
}

request_seq_range_exact_example :
    (es : List (SeqEvt String)) × (request_seq_range seconds recent
        (run seconds text_cid concat_car calls init)
      ≡ some es)
    × Ascending evt_seq 0 es
    × (length es ≤ 1)
    × All (FromAsked seconds recent (run seconds text_cid concat_car calls init)) es
    × All
        (λ row. Asked seconds recent row → Shown seconds es row ⊎ CutBefore seconds recent es row)
        (run seconds text_cid concat_car calls init).rows
request_seq_range_exact_example =
    request_seq_range_exact seconds recent (run seconds text_cid concat_car calls init)
      (run-Inv seconds text_cid concat_car calls)

abbrev insert : SequencerInsert String
insert = format_identity_event "did:plc:c" none 5000

-- One event is sequenced.
abbrev pub quietly : SequencerInsert String → Moment String
quietly i = record { sequenced = i ∷ []; aborts = false }

events_complete_example :
    (r : Streamed String) × (events seconds 6 2
        (some 1)
        false
        (quietly insert ∷ [])
        (quietly insert)
        (quietly insert ∷ [])
        (run seconds text_cid concat_car calls init)
      ≡ some r)
    × ((rest : List (SeqEvt String)) × (request_seq_range seconds (after 1 none) r.sequencer
          ≡ some (r.shown ++ rest))
        × Ascending evt_seq 0 (r.shown ++ rest)
        × Leaves seconds 2 r.ending rest)
unfolding run sequence_evt delete_all_for_user last_seq format_commit_event format_identity_event
    format_account_event emit_commit emit_identity emit_account
events_complete_example =
    let one : All Formatted (insert ∷ []) =
      (format_identity_event-Formatted "did:plc:c" none 5000, tt) in
    events_complete seconds 6 2 1 (quietly insert ∷ []) (quietly insert) (quietly insert ∷ [])
      (run seconds text_cid concat_car calls init) (run-Inv seconds text_cid concat_car calls)
      (omega arith) ((one, refl), tt) (one, refl) ((one, refl), tt) (omega arith)

events_too_slow_example :
    (r : Streamed String) × (events seconds 6 1
        (some 1)
        false
        []
        (record { sequenced = insert ∷ insert ∷ []; aborts = false })
        (quietly insert ∷ [])
        (run seconds text_cid concat_car calls init)
      ≡ some r)
    × (r.ending ≡ consumer_too_slow)
    × ((rest : List (SeqEvt String)) × (request_seq_range seconds (after 1 none) r.sequencer
          ≡ some (r.shown ++ rest))
        × Ascending evt_seq 0 (r.shown ++ rest)
        × (1 < length rest))
unfolding run sequence_evt delete_all_for_user last_seq format_commit_event format_identity_event
    format_account_event emit_commit emit_identity emit_account
events_too_slow_example =
    let one = format_identity_event-Formatted {Link = String} "did:plc:c" none 5000 in
    events_too_slow seconds 6 1 1 [] (record { sequenced = insert ∷ insert ∷ []; aborts = false })
      (quietly insert ∷ []) (run seconds text_cid concat_car calls init)
      (run-Inv seconds text_cid concat_car calls) (omega arith) tt ((one, (one, tt)), refl)
      (((one, tt), refl), tt) (omega arith) (omega arith)

-- A consumer that takes nothing of three events is too slow for a buffer of two.
overflow_test :
    (events seconds 2 2
      (some 0)
      false
      []
      (record { sequenced = insert ∷ insert ∷ insert ∷ []; aborts = false })
      []
      init)
    ≡ some (record {
      sequencer = sequence_all seconds (insert ∷ insert ∷ insert ∷ []) init;
      shown = [];
      ending = consumer_too_slow;
    })
unfolding events backfill tail sequence_all sequence_evt format_identity_event select order_by
    request_seq_range push_all push resume to_events empty enqueue
overflow_test = refl
