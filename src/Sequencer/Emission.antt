-- ===== src/Sequencer/Emission.antt =====
-- What is emitted to listeners, against the table that a later reader queries.
use danaus.Prelude.{
  ℕ, ◌<◌, String, ◌≡◌, refl, sym, subst, Option, none, some, List, [], ◌∷◌, arith, All, All-append,
  All-map,
}
use danaus.Table.{Timestamps, Ascending}
use danaus.Table.Sorted.{Ascending-append}
use danaus.SeqEvent.{Bytes, AccountStatus, RepoCommitEvent, SequencerInsert, SeqEvt}
use danaus.SeqEvent.Format.{
  Formatted, format_commit_event-Formatted, format_sync_event-Formatted,
  format_identity_event-Formatted, format_account_event-Formatted,
}
use danaus.Sequencer.{
  Sequencer, last_seq, get_stats, row_to_seq_evt, delete_all_for_user, inserted, sequence_evt,
  sequence_formatted, emit_commit, emit_sync, emit_identity, emit_account,
}
use danaus.Sequencer.Invariant.{
  Inv, init, init-Inv, reopen, reopen-Inv, last_seq-Inv, delete_all_for_user-Inv, written,
  sequence_evt-written, written-Inv,
}
use danaus.Sequencer.Range.{evt_seq, seq-row_to_seq_evt}

-- The methods that change a sequencer, and the end of a process.
pub data Call : Type 0 where
  commits : RepoCommitEvent → Call
  syncs : String → String → String → List (String × Bytes) → ℕ → Call
  identifies : String → Option String → ℕ → Call
  changes_account : String → AccountStatus → ℕ → Call
  deletes_user : String → List ℕ → Call
  reads_last reads_stats restarts : Call

module _ {Link : Type 0} (D : Timestamps) (parse_cid : String → Option Link)
    (write_car : Link → List (Link × Bytes) → Bytes) where
  unfoldable pub call : Call → Sequencer Link → Sequencer Link
  call (commits event) s = (emit_commit D parse_cid write_car event s).1
  call (syncs did rev cid blocks now) s =
      (emit_sync D parse_cid write_car did rev cid blocks now s).1
  call (identifies did handle now) s = (emit_identity D did handle now s).1
  call (changes_account did status now) s = (emit_account D did status now s).1
  call (deletes_user did excluding) s = delete_all_for_user did excluding s
  call reads_last s = (last_seq s).1
  call reads_stats s = (get_stats s).1
  call restarts s = reopen s

  unfoldable pub run : List Call → Sequencer Link → Sequencer Link
  unfolding call
  run [] s = s
  run (c ∷ cs) s = run cs (call c s)

  -- The invariant, and the emitted events in rising order below the next number.
  pub record Sound (s : Sequencer Link) : Type 0 where
    pub inv : Inv s
    pub rising : Ascending evt_seq 0 s.emitted
    pub emitted_below : All (λ (e : SeqEvt Link). e.seq < s.next_seq) s.emitted

  init-Sound : Sound init
  init-Sound = record { inv = init-Inv; rising = tt; emitted_below = tt }

  written-Sound :
      (insert : SequencerInsert Link) (s : Sequencer Link) (event : SeqEvt Link)
      → row_to_seq_evt (inserted D insert s.next_seq) ≡ some event
      → Sound s
      → Sound (written D insert event s)
  written-Sound insert s event e d =
      let q : event.seq ≡ s.next_seq = seq-row_to_seq_evt (inserted D insert s.next_seq) event e in
      record {
        inv = written-Inv D insert s event e d.inv;
        rising =
            Ascending-append evt_seq 0 s.emitted event (omega (arith, q, d.inv.positive)) d.rising (
              All-map _ _ (λ x (h : x.seq < s.next_seq). omega (arith, q)) s.emitted
                d.emitted_below);
        emitted_below =
            All-append _ s.emitted (event ∷ [])
              (All-map _ _ (λ x (h : x.seq < s.next_seq). omega arith) s.emitted d.emitted_below)
              (omega (arith, q), tt);
      }

  sequence_evt-Sound :
      (insert : SequencerInsert Link) (s : Sequencer Link)
      → Formatted insert
      → Sound s
      → Sound (sequence_evt D insert s).1
  unfolding row_to_seq_evt
  sequence_evt-Sound insert s f d =
      let (event, e) = f s.next_seq (D.stored insert.sequenced_at) in
      subst (λ r. Sound r.1) (sym (sequence_evt-written D insert s event e))
        (written-Sound insert s event e d)

  sequence_formatted-Sound :
      (o : Option (SequencerInsert Link)) (s : Sequencer Link)
      → ((i : SequencerInsert Link) → o ≡ some i → Formatted i)
      → Sound s
      → Sound (sequence_formatted D parse_cid write_car o s).1
  sequence_formatted-Sound none s f d = d
  sequence_formatted-Sound (some i) s f d = sequence_evt-Sound i s (f i refl) d

  same-Sound :
      (s t : Sequencer Link)
      → Inv t
      → t.emitted ≡ s.emitted
      → t.next_seq ≡ s.next_seq
      → Sound s
      → Sound t
  same-Sound s t i e n d = record {
    inv = i;
    rising = subst (Ascending evt_seq 0) (sym e) d.rising;
    emitted_below =
        subst (λ m. All (λ (x : SeqEvt Link). x.seq < m) t.emitted) (sym n)
          (subst (All (λ (x : SeqEvt Link). x.seq < s.next_seq)) (sym e) d.emitted_below);
  }

  last_seq-Sound : (s : Sequencer Link) → Sound s → Sound (last_seq s).1
  unfolding last_seq
  last_seq-Sound s d = same-Sound s _ (last_seq-Inv s d.inv) (ground arith) (ground arith) d

  call-Sound : (c : Call) (s : Sequencer Link) → Sound s → Sound (call c s)
  unfolding call emit_commit emit_sync emit_identity emit_account get_stats delete_all_for_user
  call-Sound (commits event) s d =
      sequence_formatted-Sound _ s (format_commit_event-Formatted parse_cid write_car event) d
  call-Sound (syncs did rev cid blocks now) s d =
      sequence_formatted-Sound _ s
        (format_sync_event-Formatted parse_cid write_car did rev cid blocks now) d
  call-Sound (identifies did handle now) s d =
      sequence_evt-Sound _ s (format_identity_event-Formatted did handle now) d
  call-Sound (changes_account did status now) s d =
      sequence_evt-Sound _ s (format_account_event-Formatted did status now) d
  call-Sound (deletes_user did excluding) s d =
      same-Sound s _ (delete_all_for_user-Inv s did excluding d.inv) refl refl d
  call-Sound reads_last s d = last_seq-Sound s d
  call-Sound reads_stats s d = last_seq-Sound s d
  call-Sound restarts s d = record {
    inv = reopen-Inv s d.inv;
    rising = d.rising;
    emitted_below = d.emitted_below;
  }

  run-Sound : (cs : List Call) (s : Sequencer Link) → Sound s → Sound (run cs s)
  unfolding run
  run-Sound [] s d = d
  run-Sound (c ∷ cs) s d = run-Sound cs (call c s) (call-Sound c s d)

  -- Whatever is sequenced, deleted, read and restarted on a new sequencer, in any order, the events
  -- that are emitted to listeners have strictly rising, positive sequence numbers: none is used
  -- twice, also after its row has been deleted.
  pub emitted_rise : (cs : List Call) → Ascending evt_seq 0 (run cs init).emitted
  emitted_rise cs = (run-Sound cs init init-Sound).rising

  -- Whatever calls are made on a new sequencer, it is in its invariant: sequence numbers rise along
  -- the table and lie below the next one, every row can be read back, and the cached last number is
  -- at least every number of the table and below the next one.
  pub run-Inv : (cs : List Call) → Inv (run cs init)
  run-Inv cs = (run-Sound cs init init-Sound).inv
