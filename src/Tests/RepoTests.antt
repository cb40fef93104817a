-- ===== src/Tests/RepoTests.antt =====
-- packages/danaus/src/actors/repo/transactor.ts at concrete inputs.
use Prim.Native.String as Str
use danaus.Prelude.{
  Result, fail, ok, not, String, ◌≡◌, refl, true, false, none, some, List, [], ◌∷◌, str_eq,
  if◌then◌else◌, ◌⊎◌,
}
use danaus.Table.{first, select, any}
use danaus.RecordIndex.{get_record, get_current_record_cid}
use danaus.Text.{decimal, decimal_digits}
use danaus.Repo.Reader.{get_many, has_block}
use danaus.Repo.Reader.Blocks.{get_many-get}
use danaus.Repo.{
  RepoBlockRow, map_get, Libraries, Commit, RepoDb, RepoWriteOp, create_op, update_op, delete_op,
  stored_block, overlay,
}
use danaus.Repo.Signing.{encode_commit, decode_commit}
use danaus.Repo.Blocks.{collect_deletion_proofs, add_proofs, set_all, build_commit_blocks}
use danaus.Repo.Writes.{
  RepoError, Progress, path_of, uri_of, apply_write, apply_all, record_already_exists,
}
use danaus.Repo.Apply.{
  RepoSideEffects, ApplyWritesOptions, ApplyWritesResult, data_of, with_root, plain_base,
  check_request, persist, apply_writes_internal, create_record,
}
use danaus.Repo.Tree.{MstLaws, no_paths, Honest}
use danaus.Repo.Agreement.{apply_writes_internal-Honest, recreated-is_lost}
use danaus.Repo.Creation.{create_record-outcome}
use danaus.Tests.StreamTests.{seconds}
use danaus.Tests.ToyTree.{Stands, find, write, find-Stands, write-Stands}

abbrev head : Commit
head = record { unsigned = record { did = "did:plc:a"; data_cid = ""; rev = "0" }; sig = [] }

-- Records are texts, and a record's CID is a decimal number.
abbrev toy : Libraries String
toy = record {
  find = find;
  put_record = λ store root path cid. write root path (some cid);
  delete_record = λ store root path. write root path none;
  empty_node = ("", []);
  mst_diff = λ store prev next. ([], []);
  record_diff = λ store added dropped. [];
  exclusion_proof = λ store root path. [];
  encode_record = λ value. Str.len value ∷ [];
  create_cid = λ bytes. elim bytes [ [] ↦ "none" | n ∷ ns ↦ decimal n ];
  encode_unsigned = λ u. [];
  encode_signed = λ commit. [];
  decode_signed = λ bytes. some head;
  sign = λ bytes. bytes;
  tid = λ n. decimal n;
}

abbrev toy_laws : MstLaws toy
toy_laws = record {
  Tree = λ store root m. Stands root m;
  tree_none = λ store. record { log = []; printed = refl; agrees = λ path. refl };
  find_lem = λ store root m path t. find-Stands store root m path t;
  put_lem = λ store memory root m path cid t. write-Stands root m path (some cid) t;
  delete_lem = λ store memory root m path t. write-Stands root m path none t;
  empty_lem = λ store memory m t. record { log = t.log; printed = t.printed; agrees = t.agrees };
  extend_lem = λ store store' root m h t. t;
  prune_lem = λ store store' prev next m m' old new h. new;
}

-- Side effects that succeed.
abbrev quiet : RepoSideEffects String (Unit {0})
quiet = record { apply_blobs = λ b w. some w; record_commit = λ e w. some w }

abbrev stored : RepoDb
stored = record {
  root = some (record { cid = "head"; content = []; rev = "0" });
  blocks = [];
  records = [];
}

abbrev options : ApplyWritesOptions
options = record {
  swap_commit = none;
  create_repo = false;
  validate_blobs = true;
  emit_sequencer = true;
}

abbrev value_or {ℓ} : {A : Type ℓ} → A → Result RepoError A → A
value_or d (fail e) = d
value_or d (ok a) = a

abbrev nothing : ApplyWritesResult × RepoDb × Unit {0}
nothing = (
  record {
    cid = "";
    rev = "";
    commit_event = record {
      did = "";
      commit_cid = "";
      rev = "";
      since = none;
      prev_data = none;
      now = 0;
      ops = [];
      blocks = [];
    };
    results = [];
  },
  stored,
  tt,
)

-- A post is written, replaced and followed by another.
abbrev posts : List (RepoWriteOp String)
posts =
    create_op (plain_base "post" (some "a")) "hello"
    ∷ update_op (plain_base "post" (some "a")) "hello world"
    ∷ create_op (plain_base "post" none) "next"
    ∷ []

-- A post is written, deleted and written again.
abbrev again : List (RepoWriteOp String)
again =
    create_op (plain_base "post" (some "a")) "hello"
    ∷ delete_op (plain_base "post" (some "a"))
    ∷ create_op (plain_base "post" (some "a")) "again"
    ∷ []

unfoldable call :
    List (RepoWriteOp String) → Result RepoError (ApplyWritesResult × RepoDb × Unit {0})
unfolding apply_writes_internal
call writes = apply_writes_internal toy seconds "did:plc:a" quiet writes options 5 7 stored tt

abbrev outcome : List (RepoWriteOp String) → ApplyWritesResult × RepoDb × Unit {0}
outcome writes = value_or nothing (call writes)

abbrev empty_stands : Stands (some "") no_paths
empty_stands = record { log = []; printed = refl; agrees = λ path. refl }

apply_writes_internal-Honest_example : Honest no_paths (outcome posts).0.commit_event.ops
unfolding call apply_writes_internal check_request apply_all apply_write path_of uri_of
    encode_commit decode_commit decimal decimal_digits build_commit_blocks collect_deletion_proofs
    add_proofs set_all persist first get_current_record_cid get_record
apply_writes_internal-Honest_example =
    apply_writes_internal-Honest toy toy_laws seconds quiet "did:plc:a" posts options 5 7 stored
      (outcome posts).1 tt tt (outcome posts).0 no_paths (some head) refl empty_stands refl

recreated-is_lost_example :
    (get_current_record_cid (uri_of "did:plc:a" "post/a") (outcome again).1.records ≡ none)
    × ((p : Progress String) × ((outcome again).1
          ≡ persist toy seconds "did:plc:a" (data_of (some head)) (toy.tid 7) p stored)
        × (find
              (overlay (with_root toy p).1.memory (stored_block []))
              (some (with_root toy p).0)
              "post/a"
            ≡ some "5"))
unfolding call apply_writes_internal check_request apply_all apply_write path_of uri_of
    encode_commit decode_commit decimal decimal_digits build_commit_blocks collect_deletion_proofs
    add_proofs set_all persist first get_current_record_cid get_record
recreated-is_lost_example =
    recreated-is_lost toy toy_laws seconds quiet "did:plc:a" again options 5 7 stored
      (outcome again).1 tt tt (outcome again).0 no_paths (some head) refl empty_stands refl "post/a"
      "5" (λ path. refl) refl refl

create_record-outcome_example :
    ((no_paths "post/a" ≡ none)
      × ((out : ApplyWritesResult × RepoDb × Unit {0}) × (create_record toy seconds "did:plc:a"
              quiet "post" "hello"
              (some "a")
              5
              7
              stored
              tt
            ≡ ok out)
          × (get_current_record_cid (uri_of "did:plc:a" "post/a") out.1.records ≡ some "5")))
    ⊎ ((false ≡ true)
        × (create_record toy seconds "did:plc:a" quiet "post" "hello" (some "a") 5 7 stored tt
            ≡ fail record_already_exists))
unfolding call apply_writes_internal check_request apply_all apply_write path_of uri_of
    encode_commit decode_commit decimal decimal_digits build_commit_blocks collect_deletion_proofs
    add_proofs set_all persist first get_current_record_cid get_record
create_record-outcome_example =
    create_record-outcome toy toy_laws seconds "did:plc:a" quiet "post" "a" "hello" 5 7 stored tt
      (record { cid = "head"; content = []; rev = "0" }) head no_paths refl refl empty_stands refl
      (λ b w. refl) (λ e w. refl)

abbrev two_blocks : List RepoBlockRow
two_blocks =
    record { cid = "x"; rev = "1"; content = 1 ∷ [] }
    ∷ record { cid = "y"; rev = "1"; content = 2 ∷ [] }
    ∷ []

get_many-get_example :
    ((cid : String)
      → map_get cid (get_many ("y" ∷ "z" ∷ []) two_blocks).0
        ≡ (if any (str_eq cid) ("y" ∷ "z" ∷ []) then stored_block two_blocks cid else none))
    × ((get_many ("y" ∷ "z" ∷ []) two_blocks).1
        ≡ select (λ c. not (has_block c two_blocks)) ("y" ∷ "z" ∷ []))
unfolding first
get_many-get_example = get_many-get ("y" ∷ "z" ∷ []) two_blocks (refl, (refl, tt))
