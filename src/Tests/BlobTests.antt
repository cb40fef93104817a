-- ===== src/Tests/BlobTests.antt =====
-- packages/danaus/src/actors/blobs/transactor.ts at concrete inputs.
use danaus.Prelude.{
  arith, str_eq_comm, String, ◌≡◌, refl, true, false, not, ◌&&◌, ◌||◌, Option, none, some, List, [],
  ◌∷◌, str_eq, if◌then◌else◌,
}
use danaus.Table.{select, update, delete, any, distinct}
use danaus.SeqEvent.{update as updating}
use danaus.Repo.Apply.{RepoBlobWriteOptions}
use danaus.Blobs.{Blob, RecordBlob, BlobState, BlobStore, with_cid}
use danaus.Blobs.References.{Value, object, atom, field, end, Shapes, find_blob_references}
use danaus.Blobs.Writer.{
  contains, insert_links, collect_write_blob_refs, valid_blob_references, remove_record_blob_links,
  insert_record_blob_links, make_blobs_permanent, delete_orphaned_blobs, apply_blob_writes,
}
use danaus.Blobs.Depth.{refers_within, find_blob_references-refers}
use danaus.Blobs.Membership.{linked, writes_link}
use danaus.Blobs.Collection.{
  refers, refers_from, LinksStored, apply_blob_writes-outcome, apply_blob_writes-LinksStored,
}

-- An object is a blob if its first key is a CID of these.
abbrev shapes : Shapes
shapes = record {
  is_blob = λ fields. elim fields [
    | end ↦ none
    | field key value rest ↦ if str_eq key "b1" || str_eq key "b2" then some key else none
  ];
  is_leaf = λ fields. false;
}

-- A store that takes every call; its state is the list of the CIDs that it has.
abbrev files : BlobStore (List String)
files = record {
  make_permanent = λ key cid have. some (cid ∷ have);
  delete_many = λ cids have. some (select (λ cid. not (contains cids cid)) have);
  has_permanent = λ cid have. contains have cid;
  contents = λ cid have. some [];
}

abbrev blob : String → Option String → Blob
blob cid key = record {
  cid = cid;
  mime_type = "image/png";
  size = 3;
  temp_key = key;
  takedown_ref = none;
  created_at = 0;
}

-- The record refers to the first of two blobs, and the second was uploaded.
abbrev before : BlobState (List String)
before = record {
  blobs = blob "b1" none ∷ blob "b2" (some "key") ∷ [];
  links = record { blob_cid = "b1"; record_uri = "at://a/post/1" } ∷ [];
  files = "b1" ∷ [];
}

-- The record is replaced by one that refers to the second.
abbrev replacing : RepoBlobWriteOptions Value
replacing = record {
  did = "did:plc:a";
  rev = "2";
  now = 0;
  writes =
      record {
        action = updating;
        uri = "at://a/post/1";
        collection = "post";
        rkey = "1";
        cid = "c";
        value = object (field "embed" (object (field "b2" atom end)) end);
      }
      ∷ [];
  deletes = [];
  validate_blobs = true;
}

abbrev after : BlobState (List String)
after = record {
  blobs = blob "b2" none ∷ [];
  links = record { blob_cid = "b2"; record_uri = "at://a/post/1" } ∷ [];
  files = "b2" ∷ [];
}

apply_blob_writes-outcome_example :
    ((link : RecordBlob)
      → linked after.links link
        ≡ linked before.links link && not (contains ("at://a/post/1" ∷ []) link.record_uri)
          || writes_link shapes replacing.writes link)
    × ((cid : String)
        → any (with_cid cid) after.blobs
          ≡ any (with_cid cid) before.blobs
            && not (
                refers_from ("at://a/post/1" ∷ []) before.links cid
                && not (refers after.links cid)))
unfolding apply_blob_writes collect_write_blob_refs find_blob_references valid_blob_references
    remove_record_blob_links insert_record_blob_links insert_links make_blobs_permanent
    delete_orphaned_blobs select update delete any distinct
apply_blob_writes-outcome_example =
    apply_blob_writes-outcome files shapes replacing before after refl

apply_blob_writes-LinksStored_example : LinksStored after
unfolding apply_blob_writes collect_write_blob_refs find_blob_references valid_blob_references
    remove_record_blob_links insert_record_blob_links insert_links make_blobs_permanent
    delete_orphaned_blobs select update delete any distinct
apply_blob_writes-LinksStored_example =
    apply_blob_writes-LinksStored files shapes replacing before after refl refl
      (λ link. ground (arith, str_eq_comm link.blob_cid "b1"))

find_blob_references-refers_example :
    contains
      (find_blob_references shapes (object (field "embed" (object (field "b2" atom end)) end)) [] 0)
      "b2"
    ≡ true
unfolding refers_within
find_blob_references-refers_example =
    find_blob_references-refers shapes (object (field "embed" (object (field "b2" atom end)) end))
      "b2"
