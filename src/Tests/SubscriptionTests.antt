-- ===== src/Tests/SubscriptionTests.antt =====
-- packages/danaus/src/api/com.atproto/sync.subscribeRepos.ts at concrete inputs.
use danaus.Prelude.{
  ℕ, ◌<◌, ◌≤◌, ◌≡◌, ◌⊎◌, refl, String, true, false, none, some, [], ◌∷◌, arith, All,
}
use danaus.Table.{select, order_by}
use danaus.SeqEvent.{SequencerInsert, format_identity_event}
use danaus.SeqEvent.Format.{format_identity_event-Formatted}
use danaus.Sequencer.{Sequencer, last_seq, next, sequence_evt}
use danaus.Sequencer.Invariant.{init, init-Inv}
use danaus.Outbox.{sequence_all}
use danaus.Outbox.Growth.{sequence_all-Follows}
use danaus.Subscription.{outdated_cursor, future_cursor, Meanwhile, is_outdated, subscribe_repos}
use danaus.Subscription.Start.{Recent}
use danaus.Subscription.Served.{Sends, subscribe_repos-Sends}
use danaus.Tests.StreamTests.{seconds, quietly}

abbrev insert : ℕ → SequencerInsert String
insert now = format_identity_event "did:plc:c" none now

-- Three events, of which the second and the third are within the limit.
abbrev filled : Sequencer String
filled = sequence_all seconds (insert 1000 ∷ insert 5000 ∷ insert 6000 ∷ []) init

abbrev meanwhile : Meanwhile String
meanwhile = record {
  during_info = quietly (insert 7000);
  pages = quietly (insert 8000) ∷ [];
  during_catch_up = record { sequenced = []; aborts = false };
  during_tail = quietly (insert 9000) ∷ [];
}

outdated_test : is_outdated 4000 (next 0 filled) ≡ true
unfolding sequence_all sequence_evt format_identity_event select order_by next
outdated_test = refl

subscribe_repos-Sends_example :
    ((last_seq filled).0 < 0)
      × (subscribe_repos seconds 9 2 meanwhile (some 0) false 4000 filled ≡ future_cursor)
    ⊎ (0 ≤ (last_seq filled).0)
      × (is_outdated 4000 (next 0 (last_seq filled).1) ≡ false)
      × Sends seconds 2 (subscribe_repos seconds 9 2 meanwhile (some 0) false 4000 filled) [] 0
    ⊎ (0 ≤ (last_seq filled).0)
      × (is_outdated 4000 (next 0 (last_seq filled).1) ≡ true)
      × ((start : ℕ) × Sends seconds 2
            (subscribe_repos seconds 9 2 meanwhile (some 0) false 4000 filled)
            (outdated_cursor ∷ [])
            start
          × All
              (Recent seconds 4000 start)
              (sequence_all seconds meanwhile.during_info.sequenced (last_seq filled).1).rows)
unfolding sequence_all sequence_evt format_identity_event last_seq
subscribe_repos-Sends_example =
    let one = λ (now : ℕ). format_identity_event-Formatted {Link = String} "did:plc:c" none now in
    subscribe_repos-Sends seconds 9 2 meanwhile
      (
        ((one 7000, tt), refl),
        (((one 8000, tt), refl), tt),
        (tt, refl),
        (((one 9000, tt), refl), tt),
      )
      0 4000 filled
      (sequence_all-Follows seconds (insert 1000 ∷ insert 5000 ∷ insert 6000 ∷ []) init
        (one 1000, (one 5000, (one 6000, tt))) init-Inv).0
      (omega arith) (omega arith)
