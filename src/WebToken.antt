-- ===== src/WebToken.antt =====
-- packages/danaus/src/auth/web.ts: the signed token of a web session. HMAC-SHA256 under the server's
-- key, and base64url both ways, are parameters: they are the run-time system's.
pub mod Bytewise
pub mod RoundTrip
use Prim.Native.Char.{code}
use Prim.Native.String.{[], ◌∷◌, ◌++◌}
use danaus.Prelude.{
  ◌+◌, String, ◌&&◌, ◌||◌, Option, none, some, if◌then◌else◌, ◌==◌, str_eq, length,
}
use danaus.SeqEvent.{Bytes}
use danaus.WebToken.Bytewise.{bytes_eq}

-- What `verifyWebSessionToken` does: it returns null or the session's id, or `timingSafeEqual`
-- throws because the two signatures differ in length.
pub data Verdict : Type 0 where
  throws : Verdict
  null : Verdict
  session : String → Verdict

-- The texts before and after the first full stop.
unfoldable pub split_at_dot : String → Option (String × String)
split_at_dot [] = none
split_at_dot (c ∷ s) =
    let rest = split_at_dot s in
    if code c == 46
    then some ("", s)
    else elim rest [ none ↦ none | some (before, after) ↦ some (c ∷ before, after) ]

-- `timingSafeEqual` and what follows from it.
unfoldable pub compare_signatures : String → Bytes → Bytes → Verdict
compare_signatures id expected given =
    if length expected == length given
    then (if bytes_eq expected given then session id else null)
    else throws

module _ (hmac : String → Bytes) where
  module _ (to_base64url : Bytes → String) where
    unfoldable pub sign_web_session_id : String → String
    sign_web_session_id id = to_base64url (hmac id)

    unfoldable pub create_web_session_token : String → String
    unfolding sign_web_session_id
    create_web_session_token id = id ++ "." ++ sign_web_session_id id

  module _ (from_base64url : String → Bytes) where
    unfoldable pub verify_web_session_token : String → Verdict
    unfolding split_at_dot compare_signatures
    verify_web_session_token token = elim (split_at_dot token) [
      | none ↦ null
      | some (id, signature) ↦
          if str_eq id "" || str_eq signature ""
          then null
          else compare_signatures id (hmac id) (from_base64url signature)
    ]
