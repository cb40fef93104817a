-- ===== src/Repo/Reader.antt =====
-- packages/danaus/src/actors/repo/reader.ts: class RepoReader, and
-- packages/danaus/src/actors/repo/block-store.ts: class SqlRepoReadonlyBlockStore. `none` stands for
-- a block that cannot be decoded, where the code throws; `null` is an inner `none`.
pub mod Blocks
use danaus.Prelude.{
  String, Bool, not, ◌&&◌, ◌==◌, Option, none, some, List, [], ◌∷◌, map, length, if◌then◌else◌,
  str_eq, is_some,
}
use danaus.Table.{select, first, any}
use danaus.SeqEvent.{Bytes, or_throw}
use danaus.RecordIndex.{RecordIndexEntry, ListRecordOptions, list_records}
use danaus.Repo.{BlockMap, map_set, map_get, RepoBlockRow, RepoDb, Commit, Libraries, stored_block}
use danaus.Repo.Signing.{decode_commit}

pub record RepoRoot : Type 0 where
  pub cid : String
  pub rev : String
  pub commit : Commit
  pub bytes : Bytes

pub record RepoRecordInfo : Type 0 where
  pub uri : String
  pub cid : String

pub record RepoRecordEntry (Rec : Type 0) : Type 0 where
  pub uri : String
  pub cid : String
  pub value : Rec

-- `map.set` for each row
abbrev pub collect : List RepoBlockRow → BlockMap → BlockMap
collect [] m = m
collect (row ∷ rows) m = collect rows (map_set row.cid row.content m)

abbrev pub among : List String → RepoBlockRow → Bool
among cids row = any (str_eq row.cid) cids

-- SELECT … WHERE cid IN (…), as a map
abbrev pub found_blocks : List String → List RepoBlockRow → BlockMap
found_blocks cids rows = collect (select (among cids) rows) []

-- `SqlRepoReadonlyBlockStore`
unfoldable pub has_block : String → List RepoBlockRow → Bool
has_block cid rows = is_some (first (among (cid ∷ [])) rows)

unfoldable pub get_many : List String → List RepoBlockRow → BlockMap × List String
get_many [] rows = ([], [])
get_many (cid ∷ cids) rows =
    let found = found_blocks (cid ∷ cids) rows in
    (found, select (λ c. not (is_some (map_get c found))) (cid ∷ cids))

unfoldable pub list_blocks : RepoDb → BlockMap
list_blocks s = collect s.blocks []

unfoldable pub read_block : String → RepoDb → Option Bytes
read_block cid s = stored_block s.blocks cid

module _ {Rec : Type 0} (L : Libraries Rec) where
  unfoldable pub get_root : RepoDb → Option (Option RepoRoot)
  get_root s = elim s.root [
    | none ↦ some none
    | some row ↦ or_throw (decode_commit L row.content) λ commit.
        some (some (record { cid = row.cid; rev = row.rev; commit = commit; bytes = row.content }))
  ]

  -- The root commit is added where it is asked for and is not among the blocks.
  abbrev pub with_root_block : List String → BlockMap → Option RepoRoot → BlockMap
  with_root_block cids blocks none = blocks
  with_root_block cids blocks (some root) =
      if any (str_eq root.cid) cids && not (is_some (map_get root.cid blocks))
      then map_set root.cid root.bytes blocks
      else blocks

  unfoldable pub get_blocks : List String → RepoDb → Option BlockMap
  unfolding get_root
  get_blocks [] s = some []
  get_blocks (cid ∷ cids) s =
      let blocks = found_blocks (cid ∷ cids) s.blocks in
      if length blocks == length (cid ∷ cids)
      then some blocks
      else or_throw (get_root s) λ root. some (with_root_block (cid ∷ cids) blocks root)

  unfoldable pub get_blocks_by_cid : List String → RepoDb → Option BlockMap
  unfolding get_blocks
  get_blocks_by_cid cids s = get_blocks cids s

  module _ (decode : Bytes → Option Rec) where
    abbrev pub entry_of : RecordIndexEntry → Option Bytes → Option (Option (RepoRecordEntry Rec))
    entry_of row none = some none
    entry_of row (some bytes) =
        or_throw (decode bytes)
          λ value. some (some (record { uri = row.uri; cid = row.cid; value = value }))

    unfoldable pub get_repo_record :
        String → String → RepoDb → Option (Option (RepoRecordEntry Rec))
    unfolding read_block
    get_repo_record collection rkey s =
        elim (first
          (λ (row : RecordIndexEntry). str_eq row.collection collection && str_eq row.rkey rkey)
          s.records) [ none ↦ some none | some row ↦ entry_of row (read_block row.cid s) ]

    -- `mapDefined`: rows whose block is missing are left out.
    abbrev pub entries : BlockMap → List RecordIndexEntry → Option (List (RepoRecordEntry Rec))
    entries blocks [] = some []
    entries blocks (row ∷ rows) = or_throw (entry_of row (map_get row.cid blocks)) λ entry.
        or_throw (entries blocks rows) λ rest. some (elim entry [ none ↦ rest | some e ↦ e ∷ rest ])

    unfoldable pub list_repo_infos : String → ListRecordOptions → RepoDb → List RepoRecordInfo
    unfolding list_records
    list_repo_infos collection o s =
        map (λ (row : RecordIndexEntry). record { uri = row.uri; cid = row.cid })
          (list_records collection o s.records)

    -- With `includeRecords`.
    unfoldable pub list_repo_records :
        String → ListRecordOptions → RepoDb → Option (List (RepoRecordEntry Rec))
    unfolding list_records get_blocks
    list_repo_records collection o s =
        let rows = list_records collection o s.records in
        or_throw (get_blocks (map (λ (row : RecordIndexEntry). row.cid) rows) s)
          λ blocks. entries blocks rows
