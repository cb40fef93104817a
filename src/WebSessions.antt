-- ===== src/WebSessions.antt =====
-- packages/danaus/src/accounts/web-sessions.ts: sessions of the web interface, sudo mode, and the
-- challenges that verify a second factor. The random ids and tokens of `nanoid` are arguments, and
-- HMAC-SHA256 and base64url are parameters. `none` stands for a query that throws: an INSERT
-- that repeats a primary key.
pub mod Lifetime
pub mod Sudo
pub mod Ids
use danaus.Prelude.{
  is_some, ℕ, ◌+◌, ◌*◌, String, Bool, false, Option, none, some, List, [], ◌∷◌, ◌++◌, if◌then◌else◌,
  ltb, leb, str_eq,
}
use danaus.SeqEvent.{Bytes}
use danaus.WebToken.{create_web_session_token}
use danaus.Table.{Timestamps, first, update, delete}

pub record WebSession : Type 0 where
  pub id : String
  pub did : String
  pub user_agent : Option String
  pub ip : Option String
  pub created_at : ℕ
  pub expires_at : ℕ
  pub sudo_at : Option ℕ

pub record VerifyChallenge : Type 0 where
  pub token : String
  pub did : String
  pub session_id : Option String
  pub remember : Bool
  pub webauthn_challenge : Option String
  pub created_at : ℕ
  pub expires_at : ℕ

pub record SessionDb : Type 0 where
  pub sessions : List WebSession
  pub challenges : List VerifyChallenge

pub record CreateWebSessionOptions : Type 0 where
  pub did : String
  pub remember : Bool
  pub user_agent : Option String
  pub ip : Option String

abbrev pub day : ℕ
day = 24 * 60 * 60 * 1000

abbrev pub web_session_ttl : ℕ
web_session_ttl = 7 * day

abbrev pub web_session_long_ttl : ℕ
web_session_long_ttl = 365 * day

abbrev pub mfa_challenge_ttl : ℕ
mfa_challenge_ttl = 5 * 60 * 1000

abbrev pub sudo_mode_ttl : ℕ
sudo_mode_ttl = 15 * 60 * 1000

abbrev pub session_ttl : Bool → ℕ
session_ttl remember = if remember then web_session_long_ttl else web_session_ttl

abbrev pub with_id : String → WebSession → Bool
with_id id row = str_eq row.id id

abbrev pub with_token : String → VerifyChallenge → Bool
with_token token row = str_eq row.token token

-- `session_id = …`, which is not true of a row without one.
abbrev pub for_session : String → VerifyChallenge → Bool
for_session id row = elim row.session_id [ none ↦ false | some session ↦ str_eq session id ]

unfoldable pub delete_web_session : String → SessionDb → SessionDb
delete_web_session id s = record s { sessions = delete (with_id id) s.sessions }

unfoldable pub get_web_session : String → ℕ → SessionDb → Option WebSession × SessionDb
unfolding delete_web_session
get_web_session id now s = elim (first (with_id id) s.sessions) [
  | none ↦ (none, s)
  | some session ↦
      if leb session.expires_at now then (none, delete_web_session id s) else (some session, s)
]

-- `now - elevatedAt < SUDO_MODE_TTL_MS`, also where the clock stands before `elevatedAt`.
unfoldable pub is_session_elevated : ℕ → WebSession → Bool
is_session_elevated now session = elim session.sudo_at [
  | none ↦ false
  | some elevated_at ↦ ltb now (elevated_at + sudo_mode_ttl)
]

unfoldable pub delete_verify_challenge : String → SessionDb → SessionDb
delete_verify_challenge token s = record s { challenges = delete (with_token token) s.challenges }

unfoldable pub get_verify_challenge : String → ℕ → SessionDb → Option VerifyChallenge × SessionDb
unfolding delete_verify_challenge
get_verify_challenge token now s = elim (first (with_token token) s.challenges) [
  | none ↦ (none, s)
  | some challenge ↦
      if leb challenge.expires_at now
      then (none, delete_verify_challenge token s)
      else (some challenge, s)
]

unfoldable pub set_verify_challenge_webauthn : String → String → SessionDb → SessionDb
set_verify_challenge_webauthn token webauthn_challenge s = record s {
  challenges =
      update (with_token token)
        (λ (row : VerifyChallenge). record row { webauthn_challenge = some webauthn_challenge })
        s.challenges;
}

module _ (D : Timestamps) where
  -- The row that the INSERT makes.
  abbrev pub new_session : CreateWebSessionOptions → String → ℕ → WebSession
  new_session o id now = record {
    id = id;
    did = o.did;
    user_agent = o.user_agent;
    ip = o.ip;
    created_at = D.stored now;
    expires_at = D.stored (now + session_ttl o.remember);
    sudo_at = none;
  }

  unfoldable pub create_web_session :
      (String → Bytes)
      → (Bytes → String)
      → CreateWebSessionOptions
      → String
      → ℕ
      → SessionDb
      → Option (WebSession × String) × SessionDb
  create_web_session hmac to_base64url o id now s =
      if is_some (first (with_id id) s.sessions) then (none, s) else (
        some (new_session o id now, create_web_session_token hmac to_base64url id),
        record s { sessions = s.sessions ++ new_session o id now ∷ [] },
      )

  abbrev pub elevate : ℕ → WebSession → WebSession
  elevate now session = record session { sudo_at = some (D.stored now) }

  unfoldable pub elevate_session : String → ℕ → SessionDb → SessionDb
  elevate_session id now s = record s { sessions = update (with_id id) (elevate now) s.sessions }

  abbrev pub new_challenge : String → String → Option String → Bool → ℕ → VerifyChallenge
  new_challenge token did session_id remember now = record {
    token = token;
    did = did;
    session_id = session_id;
    remember = remember;
    webauthn_challenge = none;
    created_at = D.stored now;
    expires_at = D.stored (now + mfa_challenge_ttl);
  }

  -- INSERT … RETURNING
  unfoldable pub insert_challenge : VerifyChallenge → SessionDb → Option VerifyChallenge × SessionDb
  insert_challenge row s =
      if is_some (first (with_token row.token) s.challenges)
      then (none, s)
      else (some row, record s { challenges = s.challenges ++ row ∷ [] })

  unfoldable pub create_verify_challenge :
      String → String → Bool → ℕ → SessionDb → Option VerifyChallenge × SessionDb
  unfolding insert_challenge
  create_verify_challenge token did remember now s =
      insert_challenge (new_challenge token did none remember now) s

  unfoldable pub get_or_create_sudo_challenge :
      String → String → String → ℕ → SessionDb → Option VerifyChallenge × SessionDb
  unfolding insert_challenge delete_verify_challenge
  get_or_create_sudo_challenge token id did now s =
      let row = new_challenge token did (some id) false now in
      elim (first (for_session id) s.challenges) [
        | none ↦ insert_challenge row s
        | some existing ↦
            if ltb now existing.expires_at
            then (some existing, s)
            else insert_challenge row (delete_verify_challenge existing.token s)
      ]

  unfoldable pub cleanup_verify_challenges : ℕ → SessionDb → SessionDb
  cleanup_verify_challenges now s = record s {
    challenges = delete (λ (row : VerifyChallenge). leb row.expires_at (D.stored now)) s.challenges;
  }
