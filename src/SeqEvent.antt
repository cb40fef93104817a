-- ===== src/SeqEvent.antt =====
-- packages/danaus/src/sequencer/types.ts and packages/danaus/src/sequencer/events.ts: the stored
-- messages of the event stream, how each kind of event is formatted for insertion, and how a stored
-- row is turned back into an event. A time is an instant in milliseconds; its ISO text is left out.
-- CID parsing and CAR writing are third-party code, and are the section's parameters.
pub mod Format
use danaus.Prelude.{
  ℕ, String, ◌≡◌, Bool, true, false, Option, none, some, List, [], ◌∷◌, str_eq, if◌then◌else◌,
}

pub data EventType : Type 0 where
  commit sync identity account : EventType

pub data Action : Type 0 where
  create update delete : Action

pub data AccountStatus : Type 0 where
  active takendown suspended deleted deactivated : AccountStatus

abbrev pub Bytes : Type 0
Bytes = List ℕ

-- An operation of a commit, before (`Cid` is a text) and after its CIDs are parsed.
pub record Op (Cid : Type 0) : Type 0 where
  pub action : Action
  pub path : String
  pub cid : Option Cid
  pub prev : Option Cid

pub record RepoCommitEvent : Type 0 where
  pub did : String
  pub commit_cid : String
  pub rev : String
  pub since : Option String
  pub prev_data : Option String
  pub now : ℕ
  pub ops : List (Op String)
  pub blocks : List (String × Bytes)

pub record StoredCommit (Link : Type 0) : Type 0 where
  pub repo : String
  pub commit_link : Link
  pub rev : String
  pub since : Option String
  pub ops : List (Op Link)
  pub prev_data : Option Link

pub data Message (Link : Type 0) : Type 0 where
  stored_commit : StoredCommit Link → Message Link
  stored_sync : String → String → Message Link
  stored_identity : String → Option String → Message Link
  stored_account : String → Bool → Option AccountStatus → Message Link

pub record SequencerInsert (Link : Type 0) : Type 0 where
  pub did : String
  pub event_type : EventType
  pub event : Message Link
  pub blocks : Option Bytes
  pub sequenced_at : ℕ

-- `blocks` is the field of the payload of a commit or sync event; the other kinds have none.
pub record SeqEvt (Link : Type 0) : Type 0 where
  pub kind : EventType
  pub seq : ℕ
  pub time : ℕ
  pub evt : Message Link
  pub blocks : Option Bytes

-- A third-party call or a check that may throw.
abbrev pub or_throw {ℓ κ} : {A : Type ℓ} {B : Type κ} → Option A → (A → Option B) → Option B
or_throw none f = none
or_throw (some a) f = f a

-- `toSeqEvt`; `none` where `requireBlocks` throws.
unfoldable pub to_seq_evt :
    {Link : Type 0} → EventType → ℕ → ℕ → Message Link → Option Bytes → Option (SeqEvt Link)
to_seq_evt commit seq at event blocks =
    or_throw blocks
      λ b. some (record { kind = commit; seq = seq; time = at; evt = event; blocks = some b })
to_seq_evt sync seq at event blocks =
    or_throw blocks
      λ b. some (record { kind = sync; seq = seq; time = at; evt = event; blocks = some b })
to_seq_evt identity seq at event blocks =
    some (record { kind = identity; seq = seq; time = at; evt = event; blocks = none })
to_seq_evt account seq at event blocks =
    some (record { kind = account; seq = seq; time = at; evt = event; blocks = none })

module _ {Link : Type 0} (parse_cid : String → Option Link)
    (write_car : Link → List (Link × Bytes) → Bytes) where
  -- `blocks.get(cid)`
  unfoldable pub get_block : String → List (String × Bytes) → Option Bytes
  get_block cid [] = none
  get_block cid ((k, data_) ∷ blocks) = if str_eq k cid then some data_ else get_block cid blocks

  unfoldable pub parse_entries : List (String × Bytes) → Option (List (Link × Bytes))
  parse_entries [] = some []
  parse_entries ((k, data_) ∷ blocks) =
      let rest = parse_entries blocks in
      or_throw (parse_cid k) λ link. or_throw rest λ entries. some ((link, data_) ∷ entries)

  -- `buildCar(rootCid, blocks)`
  unfoldable pub build_car : String → List (String × Bytes) → Option Bytes
  unfolding get_block parse_entries
  build_car root_cid blocks = or_throw (parse_cid root_cid) λ root.
      or_throw (get_block root_cid blocks)
        λ _. or_throw (parse_entries blocks) λ entries. some (write_car root entries)

  -- `op.cid ? cidLinkFromString(op.cid) : null`; a CID is never the empty text.
  abbrev pub optional_link : Option String → Option (Option Link)
  optional_link none = some none
  optional_link (some cid) =
      if str_eq cid "" then some none else or_throw (parse_cid cid) λ link. some (some link)

  unfoldable pub parse_ops : List (Op String) → Option (List (Op Link))
  parse_ops [] = some []
  parse_ops (op ∷ ops) =
      let rest = parse_ops ops in
      or_throw (optional_link op.cid) λ cid. or_throw (optional_link op.prev) λ prev.
        or_throw rest λ parsed.
          some (record { action = op.action; path = op.path; cid = cid; prev = prev } ∷ parsed)

  unfoldable pub format_commit_event : RepoCommitEvent → Option (SequencerInsert Link)
  unfolding build_car parse_ops
  format_commit_event e = or_throw (build_car e.commit_cid e.blocks) λ blocks.
      or_throw (parse_ops e.ops) λ ops. or_throw (parse_cid e.commit_cid) λ link.
        or_throw (optional_link e.prev_data) λ prev_data. some (record {
          did = e.did;
          event_type = commit;
          event = stored_commit (record {
            repo = e.did;
            commit_link = link;
            rev = e.rev;
            since = e.since;
            ops = ops;
            prev_data = prev_data;
          });
          blocks = some blocks;
          sequenced_at = e.now;
        })

  unfoldable pub format_sync_event :
      String → String → String → List (String × Bytes) → ℕ → Option (SequencerInsert Link)
  unfolding build_car
  format_sync_event did rev commit_cid blocks now = or_throw (build_car commit_cid blocks) λ car.
      some (record {
        did = did;
        event_type = sync;
        event = stored_sync did rev;
        blocks = some car;
        sequenced_at = now;
      })

abbrev pub is_active : AccountStatus → Bool
is_active active = true
is_active _ = false

module _ {Link : Type 0} where
  -- `...(handle ? { handle } : {})`
  unfoldable pub format_identity_event : String → Option String → ℕ → SequencerInsert Link
  format_identity_event did handle now = record {
    did = did;
    event_type = identity;
    event =
        stored_identity did
          (elim handle [ none ↦ none | some h ↦ if str_eq h "" then none else some h ]);
    blocks = none;
    sequenced_at = now;
  }

  unfoldable pub format_account_event : String → AccountStatus → ℕ → SequencerInsert Link
  format_account_event did status now = record {
    did = did;
    event_type = account;
    event = stored_account did (is_active status) (if is_active status then none else some status);
    blocks = none;
    sequenced_at = now;
  }
