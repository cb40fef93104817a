-- ===== src/Blobs/Writer.antt =====
-- packages/danaus/src/actors/blobs/transactor.ts: class BlobTransactor. `none` stands for a call
-- that throws. Batches of a statement are one statement.
use danaus.Prelude.{
  String, Bool, true, false, not, ◌&&◌, Option, none, some, List, [], ◌∷◌, ◌++◌, map, if◌then◌else◌,
  str_eq,
}
use danaus.Table.{select, update, delete, any, distinct}
use danaus.SeqEvent.{update as updating, or_throw}
use danaus.RecordIndex.{Takedown}
use danaus.Repo.Writes.{RepoRecordWrite, RepoRecordDelete}
use danaus.Repo.Apply.{RepoBlobWriteOptions}
use danaus.Blobs.{Blob, RecordBlob, BlobState, BlobStore, with_cid}
use danaus.Blobs.References.{Value, Shapes, add_cid, find_blob_references}

abbrev pub contains : List String → String → Bool
contains cids cid = any (str_eq cid) cids

abbrev pub add_all : List String → List String → List String
add_all [] refs = refs
add_all (cid ∷ cids) refs = add_all cids (add_cid cid refs)

abbrev pub links_to : String → List String → List RecordBlob
links_to uri cids = map (λ cid. record { blob_cid = cid; record_uri = uri }) cids

abbrev pub same_link : RecordBlob → RecordBlob → Bool
same_link a b = str_eq a.blob_cid b.blob_cid && str_eq a.record_uri b.record_uri

-- INSERT … ON CONFLICT (blob_cid, record_uri) DO NOTHING
unfoldable pub insert_links : List RecordBlob → List RecordBlob → List RecordBlob
insert_links [] links = links
insert_links (row ∷ rows) links =
    insert_links rows (if any (same_link row) links then links else links ++ row ∷ [])

abbrev pub is_update : RepoRecordWrite Value → Bool
is_update w = elim w.action [ updating ↦ true | _ ↦ false ]

-- The records whose links the writes replace or remove.
abbrev pub affected_uris : RepoBlobWriteOptions Value → List String
affected_uris o =
    map (λ (d : RepoRecordDelete). d.uri) o.deletes
    ++ map (λ (w : RepoRecordWrite Value). w.uri) (select is_update o.writes)

module _ (shapes : Shapes) where
  -- The CIDs, and the links with their records.
  unfoldable pub collect_write_blob_refs :
      List (RepoRecordWrite Value) → List String → List RecordBlob → List String × List RecordBlob
  unfolding find_blob_references
  collect_write_blob_refs [] refs links = (refs, links)
  collect_write_blob_refs (w ∷ ws) refs links =
      let found = find_blob_references shapes w.value [] 0 in
      collect_write_blob_refs ws (add_all found refs) (links ++ links_to w.uri found)

module _ {Files : Type 0} where
  -- Whether every reference is to a stored blob.
  unfoldable pub valid_blob_references : List String → BlobState Files → Bool
  valid_blob_references [] s = true
  valid_blob_references (cid ∷ cids) s = any (with_cid cid) s.blobs && valid_blob_references cids s

  unfoldable pub remove_record_blob_links :
      List String → BlobState Files → List String × BlobState Files
  remove_record_blob_links uris s =
      let touched = λ (row : RecordBlob). contains uris row.record_uri in
      (
        distinct (map (λ (row : RecordBlob). row.blob_cid) (select touched s.links)),
        record s { links = delete touched s.links },
      )

  unfoldable pub insert_record_blob_links : List RecordBlob → BlobState Files → BlobState Files
  unfolding insert_links
  insert_record_blob_links rows s = record s { links = insert_links rows s.links }

  -- Of the CIDs, those that no record refers to.
  abbrev pub unreferenced : List String → BlobState Files → List String
  unreferenced cids s =
      let referenced =
        map (λ (row : RecordBlob). row.blob_cid)
          (select (λ (row : RecordBlob). contains cids row.blob_cid) s.links) in
      select (λ cid. not (contains referenced cid)) cids

  module _ (store : BlobStore Files) where
    -- The rows that were read before, one after the other.
    abbrev pub promote : List Blob → BlobState Files → Option (BlobState Files)
    promote [] s = some s
    promote (row ∷ rows) s = elim row.temp_key [
      | none ↦ promote rows s
      | some key ↦
          if str_eq key ""
          then promote rows s
          else or_throw (store.make_permanent key row.cid s.files) λ files. promote rows (record s {
            blobs = update (with_cid row.cid) (λ (b : Blob). record b { temp_key = none }) s.blobs;
            files = files;
          })
    ]

    unfoldable pub make_blobs_permanent : List String → BlobState Files → Option (BlobState Files)
    make_blobs_permanent refs s = promote (select (λ (row : Blob). contains refs row.cid) s.blobs) s

    -- An empty list of CIDs is left alone.
    abbrev pub remove_blobs : List String → BlobState Files → Option (BlobState Files)
    remove_blobs [] s = some s
    remove_blobs (cid ∷ cids) s = or_throw (store.delete_many (cid ∷ cids) s.files) λ files.
        some (record s {
          blobs = delete (λ (row : Blob). contains (cid ∷ cids) row.cid) s.blobs;
          files = files;
        })

    unfoldable pub delete_orphaned_blobs : List String → BlobState Files → Option (BlobState Files)
    delete_orphaned_blobs cids s = remove_blobs (unreferenced cids s) s

    unfoldable pub apply_blob_writes :
        Shapes → RepoBlobWriteOptions Value → BlobState Files → Option (BlobState Files)
    unfolding collect_write_blob_refs valid_blob_references remove_record_blob_links
        insert_record_blob_links make_blobs_permanent delete_orphaned_blobs
    apply_blob_writes shapes o s =
        let (refs, links) = collect_write_blob_refs shapes o.writes [] [] in
        if o.validate_blobs && not (valid_blob_references refs s)
        then none
        else let (cids, cleared) = remove_record_blob_links (affected_uris o) s in
          or_throw (make_blobs_permanent refs (insert_record_blob_links links cleared))
            λ kept. delete_orphaned_blobs cids kept

  unfoldable pub update_blob_takedown_status : String → Takedown → BlobState Files → BlobState Files
  update_blob_takedown_status cid takedown s =
      let reason =
        if takedown.applied
        then some (elim takedown.reason [ none ↦ "admin" | some reason ↦ reason ])
        else none in
      record s {
        blobs = update (with_cid cid) (λ (b : Blob). record b { takedown_ref = reason }) s.blobs;
      }
