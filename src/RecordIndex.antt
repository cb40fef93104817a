-- ===== src/RecordIndex.antt =====
-- packages/danaus/src/actors/record: the table `record` of packages/danaus/src/actors/db/schema.ts,
-- an index of a repository's records by URI.
pub mod Lookup
use danaus.Prelude.{
  ℕ, ◌+◌, String, Bool, true, ◌&&◌, Option, none, some, List, [], ◌∷◌, ◌++◌, map, if◌then◌else◌,
  str_eq, str_ltb, take,
}
use danaus.Table.{
  Timestamps, select, first, update, delete, any, count, distinct, order_by_text,
  order_by_text_desc,
}

pub record RecordIndexEntry : Type 0 where
  pub uri : String
  pub cid : String
  pub collection : String
  pub rkey : String
  pub rev : String
  pub created_at : ℕ
  pub takedown_ref : Option String

pub record RecordIndexUpsert : Type 0 where
  pub uri : String
  pub collection : String
  pub rkey : String
  pub cid : String
  pub rev : String
  pub created_at : ℕ

pub record ListRecordOptions : Type 0 where
  pub limit : Option ℕ
  pub reverse : Bool
  pub cursor : Option String

pub record Takedown : Type 0 where
  pub applied : Bool
  pub reason : Option String

abbrev pub RecordTable : Type 0
RecordTable = List RecordIndexEntry

abbrev pub with_uri : String → RecordIndexEntry → Bool
with_uri uri row = str_eq row.uri uri

unfoldable pub record_count : RecordTable → ℕ
record_count rows = count (λ _. true) rows

unfoldable pub list_collections : RecordTable → List String
list_collections rows = distinct (map (λ (row : RecordIndexEntry). row.collection) rows)

unfoldable pub get_record : String → RecordTable → Option RecordIndexEntry
get_record uri rows = first (with_uri uri) rows

unfoldable pub get_record_takedown_status : String → RecordTable → Option Takedown
unfolding get_record
get_record_takedown_status uri rows = elim (get_record uri rows) [
  | none ↦ none
  | some row ↦ elim row.takedown_ref [
    | none ↦ none
    | some reason ↦ some (record { applied = true; reason = some reason })
  ]
]

unfoldable pub get_current_record_cid : String → RecordTable → Option String
unfolding get_record
get_current_record_cid uri rows = elim (get_record uri rows) [
  | none ↦ none
  | some row ↦ some row.cid
]

abbrev pub limit_or : Option ℕ → ℕ → ℕ
limit_or none d = d
limit_or (some n) d = n

-- A cursor that is undefined or empty is left out of the query.
abbrev pub past_cursor : Bool → Option String → String → Bool
past_cursor reverse none rkey = true
past_cursor reverse (some cursor) rkey =
    if str_eq cursor "" then true else if reverse then str_ltb rkey cursor else str_ltb cursor rkey

abbrev pub by_rkey : RecordIndexEntry → String
by_rkey row = row.rkey

-- The WHERE clause of `listRecords`.
abbrev pub listed : String → ListRecordOptions → RecordIndexEntry → Bool
listed collection o row =
    str_eq row.collection collection && past_cursor o.reverse o.cursor row.rkey

unfoldable pub list_records : String → ListRecordOptions → RecordTable → List RecordIndexEntry
list_records collection o rows =
    let found = select (listed collection o) rows in
    take (limit_or o.limit 50)
      (if o.reverse then order_by_text_desc by_rkey found else order_by_text by_rkey found)

module _ (D : Timestamps) where
  -- The row that a conflict updates keeps its `takedown_ref`.
  abbrev pub overwrite : RecordIndexUpsert → RecordIndexEntry → RecordIndexEntry
  overwrite u row = record row {
    cid = u.cid;
    collection = u.collection;
    rkey = u.rkey;
    rev = u.rev;
    created_at = D.stored u.created_at;
  }

  abbrev pub new_entry : RecordIndexUpsert → RecordIndexEntry
  new_entry u = record {
    uri = u.uri;
    cid = u.cid;
    collection = u.collection;
    rkey = u.rkey;
    rev = u.rev;
    created_at = D.stored u.created_at;
    takedown_ref = none;
  }

  -- INSERT … ON CONFLICT (uri) DO UPDATE, for one row
  unfoldable pub upsert_record : RecordIndexUpsert → RecordTable → RecordTable
  upsert_record u rows =
      if any (with_uri u.uri) rows
      then update (with_uri u.uri) (overwrite u) rows
      else rows ++ new_entry u ∷ []

  unfoldable pub upsert_records : List RecordIndexUpsert → RecordTable → RecordTable
  unfolding upsert_record
  upsert_records [] rows = rows
  upsert_records (u ∷ us) rows = upsert_records us (upsert_record u rows)

unfoldable pub delete_records : List String → RecordTable → RecordTable
delete_records uris rows =
    delete (λ (row : RecordIndexEntry). any (λ uri. str_eq row.uri uri) uris) rows

unfoldable pub update_record_takedown_status : String → Takedown → RecordTable → RecordTable
update_record_takedown_status uri takedown rows =
    let reason =
      if takedown.applied
      then some (elim takedown.reason [ none ↦ "admin" | some reason ↦ reason ])
      else none in
    update (with_uri uri) (λ (row : RecordIndexEntry). record row { takedown_ref = reason }) rows
