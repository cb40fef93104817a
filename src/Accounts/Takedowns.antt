-- ===== src/Accounts/Takedowns.antt =====
-- packages/danaus/src/accounts/manager.ts: an account after it was taken down.
use danaus.Prelude.{
  String, ◌≡◌, refl, sym, subst, Bool, true, false, ◌&&◌, Option, none, some, List, [], ◌∷◌, arith,
  if◌then◌else◌, str_eq, str_eq→eq, Bool-cases, inl, inr,
}
use danaus.Table.{select, first, update, delete, any}
use danaus.Table.Rows.{select-delete}
use danaus.SeqEvent.{takendown, deleted}
use danaus.WebSessions.{WebSession}
use danaus.Accounts.{
  Account, LegacySession, AccountDb, Texts, format_account_status, available_only, everyone,
  is_available,
}
use danaus.Accounts.Manager.{with_did, get_account, get_account_status}
use danaus.Accounts.Credentials.{takedown_reason, update_account_takedown_status}

abbrev pub legacy_of : String → LegacySession → Bool
legacy_of did row = str_eq row.did did

abbrev pub web_of : String → WebSession → Bool
web_of did row = str_eq row.did did

abbrev pub taken_down : String → Option String → AccountDb → AccountDb
taken_down did reason s =
    update_account_takedown_status did (record { applied = true; reason = reason }) s

-- The statement SET takedown_ref = reason WHERE did = did.
abbrev marked : String → String → List Account → List Account
marked did reason accounts =
    update (with_did did) (λ (a : Account). record a { takedown_ref = some reason }) accounts

marked-hidden :
    (did reason : String) (accounts : List Account)
    → first
        (λ (a : Account). with_did did a && is_available available_only a)
        (marked did reason accounts)
      ≡ none
unfolding first update
marked-hidden did reason [] = refl
marked-hidden did reason (a ∷ accounts) = ground (arith, marked-hidden did reason accounts)

marked-status :
    (did reason : String) (accounts : List Account)
    → str_eq reason "" ≡ false
    → format_account_status (
        first
          (λ (a : Account). with_did did a && is_available everyone a)
          (marked did reason accounts))
      ≡ (if any (with_did did) accounts then takendown else deleted)
unfolding first update any format_account_status
marked-status did reason [] h = refl
marked-status did reason (a ∷ accounts) h = elim (Bool-cases (str_eq a.did did)) [
  | inl e ↦ ground (arith, e, h)
  | inr e ↦ ground (arith, e, marked-status did reason accounts h)
]

no_rows_left : {A : Type 0} (p : A → Bool) (rows : List A) → any p (delete p rows) ≡ false
unfolding any delete
no_rows_left p [] = refl
no_rows_left p (row ∷ rows) = ground (arith, no_rows_left p rows)

pub status-taken_down :
    (T : Texts) (did : String) (reason : Option String) (s : AccountDb)
    → T.is_did did ≡ true
    → str_eq (takedown_reason reason) "" ≡ false
    → get_account_status T did (taken_down did reason s)
      ≡ (if any (with_did did) s.accounts then takendown else deleted)
unfolding update_account_takedown_status get_account_status get_account
status-taken_down T did reason s d r =
    rw d (marked-status did (takedown_reason reason) s.accounts r)

-- Where the reason is not the empty text, an account that is taken down has the status
-- `takendown`, or `deleted` where there is none, is not found by the calls that leave out accounts
-- that are taken down, and has no session left; the web sessions of other accounts stay.
takedown-outcome :
    (T : Texts) (did other : String) (reason : Option String) (s : AccountDb)
    → T.is_did did ≡ true
    → str_eq (takedown_reason reason) "" ≡ false
    → str_eq other did ≡ false
    → (get_account_status T did (taken_down did reason s)
        ≡ (if any (with_did did) s.accounts then takendown else deleted))
      × (get_account T did available_only (taken_down did reason s) ≡ none)
      × (any (legacy_of did) (taken_down did reason s).legacy_sessions ≡ false)
      × (any (web_of did) (taken_down did reason s).web_sessions ≡ false)
      × (select (web_of other) (taken_down did reason s).web_sessions
          ≡ select (web_of other) s.web_sessions)
unfolding update_account_takedown_status get_account_status get_account
takedown-outcome T did other reason s d r o = (
  status-taken_down T did reason s d r,
  rw d (marked-hidden did (takedown_reason reason) s.accounts),
  no_rows_left (legacy_of did) s.legacy_sessions,
  no_rows_left (web_of did) s.web_sessions,
  select-delete (web_of other) (web_of did) s.web_sessions
      (λ row e. subst (λ t. str_eq t did ≡ false) (sym (str_eq→eq row.did other e)) o),
)
