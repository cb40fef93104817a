-- ===== src/Auth/Header.antt =====
-- packages/danaus/src/auth/verifier.ts: reading the `authorization` header.
use Prim.Native.Char.{code}
use Prim.Native.String as Str
use danaus.Prelude.{ℕ, String, ◌==◌, Option, none, some, if◌then◌else◌, str_eq}
use danaus.Accounts.{Texts}

pub record Request : Type 0 where
  pub authorization : Option String
  pub url : String

pub data AuthType : Type 0 where
  unknown basic bearer dpop : AuthType

-- The texts before and after the first character of this code.
unfoldable pub split_at_code : ℕ → String → Option (String × String)
split_at_code sep Str.[] = none
split_at_code sep (Str.◌∷◌ c s) =
    let rest = split_at_code sep s in
    if code c == sep
    then some ("", s)
    else elim rest [ none ↦ none | some (before, after) ↦ some (Str.◌∷◌ c before, after) ]

module _ (T : Texts) where
  -- The scheme and the value, around the first space.
  unfoldable pub parse_auth_header : Request → Option (String × String)
  unfolding split_at_code
  parse_auth_header request = elim request.authorization [
    | none ↦ none
    | some header ↦ elim (split_at_code 32 header) [
      | none ↦ none
      | some (before, after) ↦
          if str_eq (T.trim after) "" then none else some (T.to_lower before, T.trim after)
    ]
  ]

  unfoldable pub get_auth_type : Request → AuthType
  unfolding parse_auth_header
  get_auth_type request = elim (parse_auth_header request) [
    | none ↦ unknown
    | some (scheme, value) ↦
        if str_eq scheme "dpop"
        then dpop
        else if str_eq scheme "bearer"
        then bearer
        else if str_eq scheme "basic"
        then basic
        else unknown
  ]

  unfoldable pub bearer_token_from_request : Request → Option String
  unfolding parse_auth_header
  bearer_token_from_request request = elim (parse_auth_header request) [
    | none ↦ none
    | some (scheme, value) ↦ if str_eq scheme "bearer" then some value else none
  ]

  -- The user name and the password, around the first colon.
  unfoldable pub parse_basic_auth : (String → String) → Request → Option (String × String)
  unfolding parse_auth_header split_at_code
  parse_basic_auth from_base64 request = elim (parse_auth_header request) [
    | none ↦ none
    | some (scheme, value) ↦
        if str_eq scheme "basic" then split_at_code 58 (from_base64 value) else none
  ]
