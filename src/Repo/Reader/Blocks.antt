-- ===== src/Repo/Reader/Blocks.antt =====
-- packages/danaus/src/actors/repo/block-store.ts and packages/danaus/src/actors/repo/reader.ts: what
-- the maps of blocks hold.
use danaus.Prelude.{
  String, ◌≡◌, refl, sym, ap, subst, ◌∙◌, Bool, true, false, not, Option, none, some, List, [], ◌∷◌,
  arith, if◌then◌else◌, str_eq, str_eq→eq, str_eq_refl, str_eq_comm, is_some, Bool-cases, inl, inr,
  All,
}
use danaus.Table.{select, first, any}
use danaus.SeqEvent.{Bytes}
use danaus.Repo.{BlockMap, map_set, map_get, RepoBlockRow, stored_block}
use danaus.Repo.Keys.{UniqueCids, or_else, or_else-none, stored-step}
use danaus.Repo.Reader.{collect, among, found_blocks, has_block, get_many}

-- Of a row whose CID no later row has.
collect-step :
    (row : RepoBlockRow) (rows : List RepoBlockRow) (cid : String) (old : Option Bytes)
    → stored_block rows row.cid ≡ none
    → or_else (stored_block rows cid) (if str_eq row.cid cid then some row.content else old)
      ≡ or_else (stored_block (row ∷ rows) cid) old
unfolding first
collect-step row rows cid old u = elim (Bool-cases (str_eq row.cid cid)) [
  | inl e ↦
      let absent : stored_block rows cid ≡ none =
        subst (λ c. stored_block rows c ≡ none) (str_eq→eq row.cid cid e) u in
      let found : stored_block (row ∷ rows) cid ≡ some row.content =
        stored-step row rows cid ∙ rw e refl in
      ap (λ o. or_else o (if str_eq row.cid cid then some row.content else old)) absent
      ∙ ap (λ (t : Bool). if t then some row.content else old) e
      ∙ ap (λ o. or_else o old) (sym found)
  | inr e ↦
      let found : stored_block (row ∷ rows) cid ≡ stored_block rows cid =
        stored-step row rows cid ∙ rw e refl in
      ap (λ (t : Bool). or_else (stored_block rows cid) (if t then some row.content else old)) e
      ∙ ap (λ o. or_else o old) (sym found)
]

pub map_get-map_set :
    (cid k : String) (b : Bytes) (m : BlockMap)
    → map_get cid (map_set k b m) ≡ (if str_eq k cid then some b else map_get cid m)
map_get-map_set cid k b [] = refl
map_get-map_set cid k b ((j, c) ∷ m) = elim (Bool-cases (str_eq j k)) [
  | inl e ↦
      let same : str_eq j cid ≡ str_eq k cid = ap (λ t. str_eq t cid) (str_eq→eq j k e) in
      ground (arith, e, same)
  | inr e ↦ elim (Bool-cases (str_eq j cid)) [
    | inl f ↦
        let other : str_eq k cid ≡ false =
          str_eq_comm k cid ∙ subst (λ t. str_eq t k ≡ false) (str_eq→eq j cid f) e in
        ground (arith, e, f, other)
    | inr f ↦ ground (arith, e, f, map_get-map_set cid k b m)
  ]
]

map_get-collect :
    (cid : String) (rows : List RepoBlockRow) (m : BlockMap)
    → UniqueCids rows
    → map_get cid (collect rows m) ≡ or_else (stored_block rows cid) (map_get cid m)
unfolding first
map_get-collect cid [] m u = refl
map_get-collect cid (row ∷ rows) m u =
    map_get-collect cid rows (map_set row.cid row.content m) u.1
    ∙ ap (or_else (stored_block rows cid)) (map_get-map_set cid row.cid row.content m)
    ∙ collect-step row rows cid (map_get cid m) u.0

stored-select :
    (cid : String) (cids : List String) (rows : List RepoBlockRow)
    → stored_block (select (among cids) rows) cid
      ≡ (if any (str_eq cid) cids then stored_block rows cid else none)
unfolding first select
stored-select cid cids [] = ground arith
stored-select cid cids (row ∷ rows) = elim (Bool-cases (str_eq row.cid cid)) [
  | inl e ↦
      let same : any (str_eq row.cid) cids ≡ any (str_eq cid) cids =
        ap (λ t. any (str_eq t) cids) (str_eq→eq row.cid cid e) in
      ground (arith, e, same, stored-select cid cids rows)
  | inr e ↦ ground (arith, e, stored-select cid cids rows)
]

select-UniqueCids :
    (cids : List String) (rows : List RepoBlockRow)
    → UniqueCids rows
    → UniqueCids (select (among cids) rows)
unfolding select
select-UniqueCids cids [] u = tt
select-UniqueCids cids (row ∷ rows) u = elim (Bool-cases (among cids row)) [
  | inl e ↦ rw e (
    (stored-select row.cid cids rows
        ∙ ap (λ o. if any (str_eq row.cid) cids then o else none) u.0
        ∙ ground arith),
    select-UniqueCids cids rows u.1,
  )
  | inr e ↦ rw e (select-UniqueCids cids rows u.1)
]

pub found-stored :
    (cid : String) (cids : List String) (rows : List RepoBlockRow)
    → UniqueCids rows
    → map_get cid (found_blocks cids rows)
      ≡ (if any (str_eq cid) cids then stored_block rows cid else none)
found-stored cid cids rows u =
    map_get-collect cid (select (among cids) rows) [] (select-UniqueCids cids rows u)
    ∙ or_else-none (stored_block (select (among cids) rows) cid)
    ∙ stored-select cid cids rows

has-stored :
    (cid : String) (rows : List RepoBlockRow) → has_block cid rows ≡ is_some (stored_block rows cid)
unfolding has_block first any
has-stored cid [] = refl
has-stored cid (row ∷ rows) = ground (arith, has-stored cid rows)

members :
    (xs ys : List String)
    → ((c : String) → any (str_eq c) xs ≡ true → any (str_eq c) ys ≡ true)
    → All (λ c. any (str_eq c) ys ≡ true) xs
unfolding any
members [] ys h = tt
members (x ∷ xs) ys h =
    (h x (rw (str_eq_refl x) refl), members xs ys (λ c e. h c (ground (arith, e))))

select-missing :
    (asked cids : List String) (rows : List RepoBlockRow)
    → UniqueCids rows
    → All (λ c. any (str_eq c) asked ≡ true) cids
    → select (λ c. not (is_some (map_get c (found_blocks asked rows)))) cids
      ≡ select (λ c. not (has_block c rows)) cids
unfolding select
select-missing asked [] rows u h = refl
select-missing asked (c ∷ cids) rows u h = ground (
  arith,
  found-stored c asked rows u,
  h.0,
  has-stored c rows,
  select-missing asked cids rows u h.1,
)

-- Where no two rows have the same CID, `getMany` finds the block that `get` finds of every CID it is
-- asked for, and nothing else, and the CIDs that it reports missing are those that `has` denies.
pub get_many-get :
    (cids : List String) (rows : List RepoBlockRow)
    → UniqueCids rows
    → ((cid : String)
        → map_get cid (get_many cids rows).0
          ≡ (if any (str_eq cid) cids then stored_block rows cid else none))
      × ((get_many cids rows).1 ≡ select (λ c. not (has_block c rows)) cids)
unfolding get_many any select
get_many-get [] rows u = (λ cid. refl, refl)
get_many-get (cid ∷ cids) rows u = (
  λ c. found-stored c (cid ∷ cids) rows u,
  select-missing (cid ∷ cids) (cid ∷ cids) rows u (members (cid ∷ cids) (cid ∷ cids) (λ c e. e)),
)
