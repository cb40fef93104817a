-- ===== src/Repo/Writes.antt =====
-- packages/danaus/src/actors/repo/transactor.ts: the loop of `applyWritesInternal` over the writes.
use Prim.Native.String as Str
use danaus.Prelude.{
  Result, fail, ok, ◌>>=◌, ◌>>◌, ℕ, suc, String, Bool, true, false, not, Option, none, some, List,
  [], ◌∷◌, ◌++◌, if◌then◌else◌, str_eq, is_some,
}
use danaus.SeqEvent.{Action, create, update, delete, Op}
use danaus.RecordIndex.{RecordIndexUpsert}
use danaus.Repo.{
  BlockMap, map_set, WriteBase, RepoWriteOp, create_op, update_op, delete_op, Store, Libraries,
  overlay,
}

pub record RepoRecordWrite (Rec : Type 0) : Type 0 where
  pub action : Action
  pub uri : String
  pub collection : String
  pub rkey : String
  pub cid : String
  pub value : Rec

pub record RepoRecordDelete : Type 0 where
  pub uri : String
  pub collection : String
  pub rkey : String

pub record RepoWriteResult : Type 0 where
  pub action : Action
  pub uri : String
  pub cid : Option String

pub data RepoError : Type 0 where
  no_writes too_many_writes repo_not_found repo_already_exists invalid_swap : RepoError
  missing_record_key record_already_exists record_not_found : RepoError
  -- a library or a side effect throws
  call_failed : RepoError

-- `if (test) throw …`
abbrev pub throw_if : Bool → RepoError → Result RepoError (Unit {0})
throw_if true e = fail e
throw_if false e = ok tt

-- The variables that the loop assigns. `tids` counts the calls of `TID.now`.
pub record Progress (Rec : Type 0) : Type 0 where
  pub root : Option String
  pub memory : BlockMap
  pub record_blocks : BlockMap
  pub upserts : List RecordIndexUpsert
  pub writes : List (RepoRecordWrite Rec)
  pub deletes : List RepoRecordDelete
  pub results : List RepoWriteResult
  pub ops : List (Op String)
  pub tids : ℕ

abbrev pub base_of : {Rec : Type 0} → RepoWriteOp Rec → WriteBase
base_of (create_op base value) = base
base_of (update_op base value) = base
base_of (delete_op base) = base

-- `${collection}/${rkey}`
unfoldable pub path_of : String → String → String
path_of collection rkey = Str.◌++◌ collection (Str.◌++◌ "/" rkey)

-- `at://${did}/${path}`
unfoldable pub uri_of : String → String → String
uri_of did path = Str.◌++◌ "at://" (Str.◌++◌ did (Str.◌++◌ "/" path))

abbrev pub same_cid : Option String → Option String → Bool
same_cid none none = true
same_cid none (some b) = false
same_cid (some a) none = false
same_cid (some a) (some b) = str_eq a b

-- `swapRecord !== undefined && swapRecord !== prevCid`
abbrev pub swap_fails : Option (Option String) → Option String → Bool
swap_fails none prev = false
swap_fails (some expected) prev = not (same_cid expected prev)

-- Node blocks that a write to the tree puts into the memory store.
abbrev pub put_all : BlockMap → BlockMap → BlockMap
put_all [] memory = memory
put_all ((cid, b) ∷ blocks) memory = put_all blocks (map_set cid b memory)

module _ {Rec : Type 0} (L : Libraries Rec) where
  -- `write.rkey ?? (write.action === 'create' ? TID.now() : undefined)`, with the calls so far
  abbrev pub record_key : RepoWriteOp Rec → ℕ → Option String × ℕ
  record_key (create_op base value) tids = elim base.rkey [
    | none ↦ (some (L.tid tids), suc tids)
    | some rkey ↦ (some rkey, tids)
  ]
  record_key (update_op base value) tids = (base.rkey, tids)
  record_key (delete_op base) tids = (base.rkey, tids)

  -- `if (!rkey) throw …`
  abbrev pub require_key : Option String → Result RepoError String
  require_key none = fail missing_record_key
  require_key (some rkey) = if str_eq rkey "" then fail missing_record_key else ok rkey

  -- The condition of each action on the record that is there.
  abbrev pub check_action : RepoWriteOp Rec → Option String → Result RepoError (Unit {0})
  check_action (create_op base value) prev = throw_if (is_some prev) record_already_exists
  check_action (update_op base value) prev = throw_if (not (is_some prev)) record_not_found
  check_action (delete_op base) prev = throw_if (not (is_some prev)) record_not_found

  module _ (store : Store) (did rev : String) (now : ℕ) where
    abbrev pub removed : String → String → Option String → Progress Rec → Progress Rec
    removed collection rkey prev p =
        let path = path_of collection rkey in
        let uri = uri_of did path in
        let (root, nodes) = L.delete_record (overlay p.memory store) p.root path in
        record p {
          root = root;
          memory = put_all nodes p.memory;
          results = p.results ++ record { action = delete; uri = uri; cid = none } ∷ [];
          ops = p.ops ++ record { action = delete; path = path; cid = none; prev = prev } ∷ [];
          deletes = p.deletes ++ record { uri = uri; collection = collection; rkey = rkey } ∷ [];
        }

    -- `prev` is what the commit operation is given: the previous CID of an update only.
    abbrev pub written :
        Action → String → String → Rec → Option String → Progress Rec → Progress Rec
    written action collection rkey value prev p =
        let path = path_of collection rkey in
        let uri = uri_of did path in
        let bytes = L.encode_record value in
        let cid = L.create_cid bytes in
        let (root, nodes) = L.put_record (overlay p.memory store) p.root path cid in
        record p {
          root = root;
          memory = put_all nodes p.memory;
          record_blocks = map_set cid bytes p.record_blocks;
          results = p.results ++ record { action = action; uri = uri; cid = some cid } ∷ [];
          ops = p.ops ++ record { action = action; path = path; cid = some cid; prev = prev } ∷ [];
          upserts =
              p.upserts
              ++ record {
                uri = uri;
                collection = collection;
                rkey = rkey;
                cid = cid;
                rev = rev;
                created_at = now;
              }
                ∷ [];
          writes =
              p.writes
              ++ record {
                action = action;
                uri = uri;
                collection = collection;
                rkey = rkey;
                cid = cid;
                value = value;
              }
                ∷ [];
        }

    abbrev pub perform : RepoWriteOp Rec → String → Option String → Progress Rec → Progress Rec
    perform (create_op base value) rkey prev p = written create base.collection rkey value none p
    perform (update_op base value) rkey prev p = written update base.collection rkey value prev p
    perform (delete_op base) rkey prev p = removed base.collection rkey prev p

    -- One round of the loop.
    unfoldable pub apply_write : RepoWriteOp Rec → Progress Rec → Result RepoError (Progress Rec)
    unfolding path_of
    apply_write w p = do
      let key = record_key w p.tids
      rkey ← require_key key.0
      let prev = L.find (overlay p.memory store) p.root (path_of (base_of w).collection rkey)
      throw_if (swap_fails (base_of w).swap_record prev) invalid_swap
      check_action w prev
      ok (perform w rkey prev (record p { tids = key.1 }))

    unfoldable pub apply_all :
        List (RepoWriteOp Rec) → Progress Rec → Result RepoError (Progress Rec)
    unfolding apply_write
    apply_all [] p = ok p
    apply_all (w ∷ ws) p = do p' ← apply_write w p; apply_all ws p'
