-- ===== src/SeqEvent/Format.antt =====
-- What is formatted can be read back: every formatter gives a commit or a sync its blocks.
use danaus.Prelude.{ℕ, String, ◌≡◌, refl, Option, none, some, List, arith}
use danaus.SeqEvent.{
  EventType, commit, sync, identity, account, Bytes, RepoCommitEvent, SequencerInsert, SeqEvt,
  AccountStatus, to_seq_evt, or_throw, build_car, optional_link, parse_ops, format_commit_event,
  format_sync_event, format_identity_event, format_account_event,
}

or_throw-eq-some {ℓ κ} :
    {A : Type ℓ} {B : Type κ} (o : Option A) (f : A → Option B) (b : B)
    → or_throw o f ≡ some b
    → (a : A) × (o ≡ some a) × (f a ≡ some b)
or_throw-eq-some none f b h = cc
or_throw-eq-some (some a) f b h = (a, refl, h)

module _ {Link : Type 0} where
  -- The insert can be turned into an event at any number and time.
  abbrev pub Formatted : SequencerInsert Link → Type 0
  Formatted i =
      (seq at : ℕ) → (e : SeqEvt Link) × (to_seq_evt i.event_type seq at i.event i.blocks ≡ some e)

  Formatted-of_blocks : (i : SequencerInsert Link) (b : Bytes) → i.blocks ≡ some b → Formatted i
  unfolding to_seq_evt
  Formatted-of_blocks i b h seq at = split i.event_type
    where
      split : (t : EventType) → (e : SeqEvt Link) × (to_seq_evt t seq at i.event i.blocks ≡ some e)
      split commit = rw h (_, refl)
      split sync = rw h (_, refl)
      split identity = (_, refl)
      split account = (_, refl)

  pub format_identity_event-Formatted :
      (did : String) (handle : Option String) (now : ℕ)
      → Formatted (format_identity_event did handle now)
  unfolding format_identity_event to_seq_evt
  format_identity_event-Formatted did handle now seq at = (_, refl)

  pub format_account_event-Formatted :
      (did : String) (status : AccountStatus) (now : ℕ)
      → Formatted (format_account_event did status now)
  unfolding format_account_event to_seq_evt
  format_account_event-Formatted did status now seq at = (_, refl)

module _ {Link : Type 0} (parse_cid : String → Option Link)
    (write_car : Link → List (Link × Bytes) → Bytes) where
  -- A commit event is formatted only with the blocks that its CAR file has.
  pub format_commit_event-Formatted :
      (event : RepoCommitEvent) (i : SequencerInsert Link)
      → format_commit_event parse_cid write_car event ≡ some i
      → Formatted i
  unfolding format_commit_event
  format_commit_event-Formatted event i h =
      let (car, _, h₁) =
        or_throw-eq-some (build_car parse_cid write_car event.commit_cid event.blocks) _ i h in
      let (ops, _, h₂) = or_throw-eq-some (parse_ops parse_cid write_car event.ops) _ i h₁ in
      let (link, _, h₃) = or_throw-eq-some (parse_cid event.commit_cid) _ i h₂ in
      let (prev, _, h₄) =
        or_throw-eq-some (optional_link parse_cid write_car event.prev_data) _ i h₃ in
      Formatted-of_blocks i car (ground arith)

  pub format_sync_event-Formatted :
      (did rev commit_cid : String) (blocks : List (String × Bytes)) (now : ℕ)
      (i : SequencerInsert Link)
      → format_sync_event parse_cid write_car did rev commit_cid blocks now ≡ some i
      → Formatted i
  unfolding format_sync_event
  format_sync_event-Formatted did rev commit_cid blocks now i h =
      let (car, _, k) = or_throw-eq-some (build_car parse_cid write_car commit_cid blocks) _ i h in
      Formatted-of_blocks i car (ground arith)
