-- ===== src/WebSessions/Ids.antt =====
-- packages/danaus/src/accounts/web-sessions.ts: the ids of the sessions, the table's primary key.
use danaus.Prelude.{
  ◌≡◌, ◌≢◌, refl, sym, subst, ◌∙◌, inl, inr, String, false, none, some, List, [], ◌∷◌, ◌++◌, All,
  All-append, All-map, Bool-cases, str_eq→eq, eq→str_eq, arith, Bool,
}
use mathlib.Core.Option.{some-injective}
use danaus.Table.{first, update, delete}
use danaus.Table.Rows.{delete-All, update-All, first-none, first-holds}
use danaus.WebSessions.{WebSession, with_id}

-- No two sessions have the same id.
abbrev pub UniqueIds : List WebSession → Type 0
UniqueIds [] = Unit {0}
UniqueIds (x ∷ xs) = All (λ (y : WebSession). y.id ≢ x.id) xs × UniqueIds xs

pub delete-UniqueIds :
    (p : WebSession → Bool) (rows : List WebSession) → UniqueIds rows → UniqueIds (delete p rows)
unfolding delete
delete-UniqueIds p [] u = tt
delete-UniqueIds p (x ∷ xs) u = elim (Bool-cases (p x)) [
  | inl e ↦ rw e (delete-UniqueIds p xs u.1)
  | inr e ↦ rw e (delete-All (λ y. y.id ≢ x.id) p xs u.0, delete-UniqueIds p xs u.1)
]

pub update-UniqueIds :
    (p : WebSession → Bool) (f : WebSession → WebSession) (rows : List WebSession)
    → ((x : WebSession) → (f x).id ≡ x.id)
    → UniqueIds rows
    → UniqueIds (update p f rows)
unfolding update
update-UniqueIds p f [] k u = tt
update-UniqueIds p f (x ∷ xs) k u =
    let others : (i : String)
        → All (λ (y : WebSession). y.id ≢ i) xs
        → All (λ (y : WebSession). y.id ≢ i) (update p f xs) =
      λ i. update-All (λ (y : WebSession). y.id ≢ i) p f xs (λ y _ h e. h (sym (k y) ∙ e)) in
    elim (Bool-cases (p x)) [
      | inl e ↦ rw e (
        others (f x).id (subst (λ i. All (λ (y : WebSession). y.id ≢ i) xs) (sym (k x)) u.0),
        update-UniqueIds p f xs k u.1,
      )
      | inr e ↦ rw e (others x.id u.0, update-UniqueIds p f xs k u.1)
    ]

pub append-UniqueIds :
    (rows : List WebSession) (row : WebSession)
    → first (with_id row.id) rows ≡ none
    → UniqueIds rows
    → UniqueIds (rows ++ row ∷ [])
append-UniqueIds rows row e u = grow rows (first-none (with_id row.id) rows e) u
  where
    grow :
        (xs : List WebSession)
        → All (λ (x : WebSession). with_id row.id x ≡ false) xs
        → UniqueIds xs
        → UniqueIds (xs ++ row ∷ [])
    grow [] h v = (tt, tt)
    grow (x ∷ xs) h v = (
      All-append (λ (y : WebSession). y.id ≢ x.id) xs (row ∷ []) v.0
          ((λ same. cc (eq→str_eq x.id row.id (sym same), h.0)), tt),
      grow xs h.1 v.1,
    )

-- A session of this id is of this account.
abbrev pub Belongs : String → String → WebSession → Type 0
Belongs id did row = row.id ≡ id → row.did ≡ did

-- Every session of the id of one that is found is of its account.
pub first-Belongs :
    (id : String) (rows : List WebSession) (row : WebSession)
    → UniqueIds rows
    → first (with_id id) rows ≡ some row
    → All (Belongs row.id row.did) rows
unfolding first
first-Belongs id [] row u e = tt
first-Belongs id (x ∷ xs) row u e = elim (Bool-cases (with_id id x)) [
  | inl t ↦
      let same : x ≡ row = some-injective x row (ground (arith, t, e)) in
      subst (λ (r : WebSession). All (Belongs r.id r.did) (x ∷ xs)) same
        (
          λ _. refl,
          All-map (λ (y : WebSession). y.id ≢ x.id) (Belongs x.id x.did) (λ y h k. absurd (h k)) xs
              u.0,
        )
  | inr f ↦
      let later : first (with_id id) xs ≡ some row = ground arith in
      let named : row.id ≡ id = str_eq→eq row.id id (first-holds (with_id id) xs row later) in
      ((λ same. cc (eq→str_eq x.id id (same ∙ named), f)), first-Belongs id xs row u.1 later)
]
