-- ===== src/Blobs/Membership.antt =====
-- packages/danaus/src/actors/blobs/transactor.ts: which CIDs the lists and tables contain after each
-- statement.
use danaus.Prelude.{
  String, ◌≡◌, refl, sym, ap, ◌∙◌, Bool, true, not, ◌&&◌, ◌||◌, List, [], ◌∷◌, ◌++◌, map, arith,
  str_eq, str_eq→eq, Bool-cases, inl, inr,
}
use danaus.Table.{select, update, delete, any, distinct}
use danaus.Blobs.{Blob, RecordBlob, with_cid}
use danaus.RecordIndex.Lookup.{any-append}
use danaus.Repo.Writes.{RepoRecordWrite}
use danaus.Blobs.References.{Value, Shapes, add_cid, find_blob_references}
use danaus.Blobs.Writer.{
  contains, same_link, insert_links, links_to, add_all, collect_write_blob_refs,
}

pub contains-select :
    (q : String → Bool) (xs : List String) (c : String)
    → contains (select q xs) c ≡ contains xs c && q c
unfolding any select
contains-select q [] c = refl
contains-select q (x ∷ xs) c = elim (Bool-cases (str_eq c x)) [
  | inl e ↦
      let same : q x ≡ q c = ap q (sym (str_eq→eq c x e)) in
      ground (arith, e, same, contains-select q xs c)
  | inr e ↦ ground (arith, e, contains-select q xs c)
]

any-of_equal :
    (xs : List String) (c x : String) → str_eq c x ≡ true → any (str_eq x) xs ≡ any (str_eq c) xs
any-of_equal xs c x e = ap (λ t. any (str_eq t) xs) (sym (str_eq→eq c x e))

pub contains-distinct : (xs : List String) (c : String) → contains (distinct xs) c ≡ contains xs c
unfolding any distinct
contains-distinct [] c = refl
contains-distinct (x ∷ xs) c = elim (Bool-cases (str_eq c x)) [
  | inl e ↦ ground (arith, e, any-of_equal (distinct xs) c x e, contains-distinct xs c)
  | inr e ↦ ground (arith, e, contains-distinct xs c)
]

-- The CIDs of the links that meet a test.
pub contains-map-select :
    (p : RecordBlob → Bool) (links : List RecordBlob) (c : String)
    → contains (map (λ (row : RecordBlob). row.blob_cid) (select p links)) c
      ≡ any (λ (row : RecordBlob). str_eq c row.blob_cid && p row) links
unfolding any select
contains-map-select p [] c = refl
contains-map-select p (row ∷ rows) c = ground (arith, contains-map-select p rows c)

-- A test that depends on the CID only.
pub any-linked :
    (cids : List String) (links : List RecordBlob) (c : String)
    → any (λ (row : RecordBlob). str_eq c row.blob_cid && contains cids row.blob_cid) links
      ≡ contains cids c && any (λ (row : RecordBlob). str_eq c row.blob_cid) links
unfolding any
any-linked cids [] c = ground arith
any-linked cids (row ∷ rows) c = elim (Bool-cases (str_eq c row.blob_cid)) [
  | inl e ↦ ground (arith, e, any-of_equal cids c row.blob_cid e, any-linked cids rows c)
  | inr e ↦ ground (arith, e, any-linked cids rows c)
]

pub stored-delete_among :
    (cids : List String) (blobs : List Blob) (c : String)
    → any (with_cid c) (delete (λ (row : Blob). contains cids row.cid) blobs)
      ≡ any (with_cid c) blobs && not (contains cids c)
unfolding any delete
stored-delete_among cids [] c = refl
stored-delete_among cids (row ∷ rows) c = elim (Bool-cases (str_eq row.cid c)) [
  | inl e ↦ ground (arith, e, any-of_equal cids row.cid c e, stored-delete_among cids rows c)
  | inr e ↦ ground (arith, e, stored-delete_among cids rows c)
]

-- An update that keeps the CIDs.
pub stored-update :
    (p : Blob → Bool) (f : Blob → Blob) (blobs : List Blob) (c : String)
    → ((b : Blob) → (f b).cid ≡ b.cid)
    → any (with_cid c) (update p f blobs) ≡ any (with_cid c) blobs
unfolding any update
stored-update p f [] c k = refl
stored-update p f (row ∷ rows) c k = ground (arith, k row, stored-update p f rows c k)

-- A link is in the table.
abbrev pub linked : List RecordBlob → RecordBlob → Bool
linked links link = any (same_link link) links

linked-append :
    (xs : List RecordBlob) (row link : RecordBlob)
    → linked (xs ++ row ∷ []) link ≡ linked xs link || same_link link row
unfolding any
linked-append [] row link = ground arith
linked-append (x ∷ xs) row link = ground (arith, linked-append xs row link)

linked-of_same :
    (links : List RecordBlob) (a b : RecordBlob)
    → same_link a b ≡ true
    → linked links a ≡ linked links b
linked-of_same links a b e =
    let cids : a.blob_cid ≡ b.blob_cid = str_eq→eq a.blob_cid b.blob_cid (ground (arith, e)) in
    let uris : a.record_uri ≡ b.record_uri =
      str_eq→eq a.record_uri b.record_uri (ground (arith, e)) in
    ap (λ cid. linked links (record { blob_cid = cid; record_uri = a.record_uri })) cids
    ∙ ap (λ uri. linked links (record { blob_cid = b.blob_cid; record_uri = uri })) uris

pub linked-insert_links :
    (rows links : List RecordBlob) (link : RecordBlob)
    → linked (insert_links rows links) link ≡ linked links link || linked rows link
unfolding insert_links any
linked-insert_links [] links link = ground arith
linked-insert_links (row ∷ rows) links link = elim (Bool-cases (any (same_link row) links)) [
  | inl e ↦ rw e (
      linked-insert_links rows links link ∙ elim (Bool-cases (same_link link row)) [
        | inl f ↦ ground (arith, e, f, linked-of_same links link row f)
        | inr f ↦ ground (arith, f)
      ])
  | inr e ↦ rw e (
      linked-insert_links rows (links ++ row ∷ []) link
      ∙ ground (arith, linked-append links row link))
]

pub linked-delete :
    (uris : List String) (links : List RecordBlob) (link : RecordBlob)
    → linked (delete (λ (row : RecordBlob). contains uris row.record_uri) links) link
      ≡ linked links link && not (contains uris link.record_uri)
unfolding any delete
linked-delete uris [] link = refl
linked-delete uris (row ∷ rows) link = elim (Bool-cases (str_eq link.record_uri row.record_uri)) [
  | inl e ↦
      ground
        (arith, e, any-of_equal uris link.record_uri row.record_uri e, linked-delete uris rows link)
  | inr e ↦ ground (arith, e, linked-delete uris rows link)
]

pub refers-of_linked :
    (links : List RecordBlob) (link : RecordBlob)
    → linked links link ≡ true
    → any (λ (row : RecordBlob). str_eq link.blob_cid row.blob_cid) links ≡ true
unfolding any
refers-of_linked [] link h = h
refers-of_linked (row ∷ rows) link h = ground (arith, h, refers-of_linked rows link)

linked-links_to :
    (uri : String) (cids : List String) (link : RecordBlob)
    → linked (links_to uri cids) link ≡ contains cids link.blob_cid && str_eq link.record_uri uri
unfolding any
linked-links_to uri [] link = refl
linked-links_to uri (cid ∷ cids) link = ground (arith, linked-links_to uri cids link)

linked-append_all :
    (xs ys : List RecordBlob) (link : RecordBlob)
    → linked (xs ++ ys) link ≡ linked xs link || linked ys link
unfolding any
linked-append_all [] ys link = refl
linked-append_all (x ∷ xs) ys link = ground (arith, linked-append_all xs ys link)

-- A record that is written refers to the blob.
abbrev pub writes_link : Shapes → List (RepoRecordWrite Value) → RecordBlob → Bool
writes_link shapes ws link =
    any
      (λ (w : RepoRecordWrite Value).
        contains (find_blob_references shapes w.value [] 0) link.blob_cid
        && str_eq link.record_uri w.uri)
      ws

pub linked-collect :
    (shapes : Shapes) (ws : List (RepoRecordWrite Value)) (refs : List String)
    (links : List RecordBlob) (link : RecordBlob)
    → linked (collect_write_blob_refs shapes ws refs links).1 link
      ≡ linked links link || writes_link shapes ws link
unfolding collect_write_blob_refs any
linked-collect shapes [] refs links link = ground arith
linked-collect shapes (w ∷ ws) refs links link =
    let found = find_blob_references shapes w.value [] 0 in
    linked-collect shapes ws (add_all found refs) (links ++ links_to w.uri found) link
    ∙ ground (
      arith,
      linked-append_all links (links_to w.uri found) link,
      linked-links_to w.uri found link,
    )

pub contains-add :
    (cid : String) (refs : List String) (c : String)
    → contains (add_cid cid refs) c ≡ contains refs c || str_eq c cid
unfolding any
contains-add cid refs c = elim (Bool-cases (contains refs cid)) [
  | inl e ↦ elim (Bool-cases (str_eq c cid)) [
    | inl f ↦ ground (arith, e, f, any-of_equal refs c cid f)
    | inr f ↦ ground (arith, e, f)
  ]
  | inr e ↦ ground (arith, e, any-append (str_eq c) refs (cid ∷ []))
]

contains-add_all :
    (cids refs : List String) (c : String)
    → contains (add_all cids refs) c ≡ contains refs c || contains cids c
unfolding any
contains-add_all [] refs c = ground arith
contains-add_all (cid ∷ cids) refs c =
    contains-add_all cids (add_cid cid refs) c ∙ ground (arith, contains-add cid refs c)

pub contains-collect :
    (shapes : Shapes) (ws : List (RepoRecordWrite Value)) (refs : List String)
    (links : List RecordBlob) (link : RecordBlob)
    → contains refs link.blob_cid || writes_link shapes ws link ≡ true
    → contains (collect_write_blob_refs shapes ws refs links).0 link.blob_cid ≡ true
unfolding collect_write_blob_refs any
contains-collect shapes [] refs links link h = ground (arith, h)
contains-collect shapes (w ∷ ws) refs links link h =
    let found = find_blob_references shapes w.value [] 0 in
    contains-collect shapes ws (add_all found refs) (links ++ links_to w.uri found) link
      (ground (arith, h, contains-add_all found refs link.blob_cid))
