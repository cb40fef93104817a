-- ===== src/SignIn/Provenance.antt =====
-- packages/danaus/src/web/controllers/login/lib/forms.ts and the pages around it: why there is a
-- session, and why it is in sudo mode, after any sequence of requests.
use danaus.Prelude.{◌≡◌, String, some}
use danaus.Table.{first}
use danaus.WebSessions.{SessionDb, with_id}
use danaus.SignIn.Pages.{Caller, fails, unknown, known}
use danaus.SignIn.Backed.{Backed}

-- A caller who is known has a session of the tables.
abbrev IsKnown : Caller → SessionDb → Type 0
IsKnown fails w = Unit
IsKnown unknown w = Unit
IsKnown (known row) w = (id : String) × (first (with_id id) w.sessions ≡ some row)
