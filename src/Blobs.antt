-- ===== src/Blobs.antt =====
-- packages/danaus/src/actors/blobs: the tables `blob` and `record_blob` of
-- packages/danaus/src/actors/db/schema.ts, the store of the blobs' contents
-- (packages/danaus/src/actors/blob-store/types.ts) as operations on a state of its own, and
-- packages/danaus/src/actors/blobs/reader.ts. The program does not turn on SQLite's foreign keys, so
-- no row is deleted with the row that it refers to.
pub mod References
pub mod Writer
pub mod Membership
pub mod Collection
pub mod Depth
use danaus.Prelude.{
  ℕ, String, Bool, true, ◌&&◌, Option, none, some, List, ◌∷◌, map, take, if◌then◌else◌, str_eq,
  str_ltb,
}
use danaus.Table.{select, first, any, distinct, order_by_text}
use danaus.SeqEvent.{Bytes}
use danaus.RecordIndex.{RecordTable, RecordIndexEntry, Takedown, get_record}

pub record Blob : Type 0 where
  pub cid : String
  pub mime_type : String
  pub size : ℕ
  pub temp_key : Option String
  pub takedown_ref : Option String
  pub created_at : ℕ

pub record RecordBlob : Type 0 where
  pub blob_cid : String
  pub record_uri : String

pub record BlobState (Files : Type 0) : Type 0 where
  pub blobs : List Blob
  pub links : List RecordBlob
  pub files : Files

-- `none` where a call throws.
pub record BlobStore (Files : Type 0) : Type 0 where
  pub make_permanent : String → String → Files → Option Files
  pub delete_many : List String → Files → Option Files
  pub has_permanent : String → Files → Bool
  pub contents : String → Files → Option Bytes

pub record ListBlobsOptions : Type 0 where
  pub since : Option String
  pub cursor : Option String
  pub limit : ℕ

abbrev pub with_cid : String → Blob → Bool
with_cid cid row = str_eq row.cid cid

-- An undefined or empty cursor is left out of the query.
abbrev pub beyond : Option String → String → Bool
beyond none cid = true
beyond (some cursor) cid = if str_eq cursor "" then true else str_ltb cursor cid

-- GROUP BY blob_cid ORDER BY blob_cid LIMIT …
abbrev pub page_of : ℕ → List RecordBlob → List String
page_of limit links =
    take limit
      (order_by_text (λ cid. cid) (distinct (map (λ (row : RecordBlob). row.blob_cid) links)))

-- The joined record is newer than `since`.
abbrev pub newer_than : String → RecordTable → RecordBlob → Bool
newer_than since records row =
    any (λ (r : RecordIndexEntry). str_eq r.uri row.record_uri && str_ltb since r.rev) records

module _ {Files : Type 0} where
  unfoldable pub get_blob_metadata : String → BlobState Files → Option Blob
  get_blob_metadata cid s = first (with_cid cid) s.blobs

  unfoldable pub get_blob_takedown_status : String → BlobState Files → Option Takedown
  unfolding get_blob_metadata
  get_blob_takedown_status cid s = elim (get_blob_metadata cid s) [
    | none ↦ none
    | some row ↦ elim row.takedown_ref [
      | none ↦ none
      | some reason ↦ some (record { applied = true; reason = some reason })
    ]
  ]

  unfoldable pub get_blob :
      BlobStore Files → String → BlobState Files → Option (Option Bytes × Blob)
  unfolding get_blob_metadata
  get_blob store cid s = elim (get_blob_metadata cid s) [
    | none ↦ none
    | some row ↦
        if store.has_permanent cid s.files then some (store.contents cid s.files, row) else none
  ]

  unfoldable pub list_blobs : ListBlobsOptions → RecordTable → BlobState Files → List String
  list_blobs o records s =
      let all = select (λ (row : RecordBlob). beyond o.cursor row.blob_cid) s.links in
      elim o.since [
        | none ↦ page_of o.limit all
        | some since ↦
            if str_eq since ""
            then page_of o.limit all
            else page_of o.limit (select (newer_than since records) all)
      ]

  unfoldable pub get_records_for_blob : String → BlobState Files → List String
  get_records_for_blob cid s =
      map (λ (row : RecordBlob). row.record_uri)
        (select (λ (row : RecordBlob). str_eq row.blob_cid cid) s.links)

  unfoldable pub get_blobs_for_record : String → BlobState Files → List String
  get_blobs_for_record uri s =
      map (λ (row : RecordBlob). row.blob_cid)
        (select (λ (row : RecordBlob). str_eq row.record_uri uri) s.links)
