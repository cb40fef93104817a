-- ===== src/Accounts/Handles.antt =====
-- packages/danaus/src/accounts/handle.ts, and `validateHandle` of
-- packages/danaus/src/accounts/manager.ts. The handle resolver is a parameter.
use Prim.Native.Char.{code}
use Prim.Native.String as Str
use danaus.Prelude.{
  Result, fail, ok, String, Bool, true, false, not, ◌==◌, Option, none, some, List, [], ◌∷◌,
  if◌then◌else◌, str_eq, ltb,
}
use danaus.Table.{any, first}
use danaus.Accounts.{Texts, AccountError, invalid_handle, unsupported_domain, upstream_failure}

-- `s.endsWith(suffix)`
unfoldable pub ends_with : String → String → Bool
ends_with Str.[] suffix = str_eq suffix ""
ends_with (Str.◌∷◌ c s) suffix =
    let rest = ends_with s suffix in if str_eq (Str.◌∷◌ c s) suffix then true else rest

-- `s.slice(0, s.length - suffix.length)`, where `s` ends with `suffix`
unfoldable pub before_suffix : String → String → String
before_suffix Str.[] suffix = ""
before_suffix (Str.◌∷◌ c s) suffix =
    let rest = before_suffix s suffix in if str_eq (Str.◌∷◌ c s) suffix then "" else Str.◌∷◌ c rest

-- `s.includes('.')`
unfoldable pub has_dot : String → Bool
has_dot Str.[] = false
has_dot (Str.◌∷◌ c s) = let rest = has_dot s in if code c == 46 then true else rest

abbrev pub disallowed_tlds : List String
disallowed_tlds =
    ".local" ∷ ".arpa" ∷ ".invalid" ∷ ".localhost" ∷ ".internal" ∷ ".example" ∷ ".alt" ∷ ".onion"
    ∷ []

unfoldable pub ends_with_any : String → List String → Bool
unfolding ends_with
ends_with_any s suffixes = any (ends_with s) suffixes

unfoldable pub is_service_domain : String → List String → Bool
unfolding ends_with_any
is_service_domain handle domains = ends_with_any handle domains

unfoldable pub is_valid_tld : String → Bool
unfolding ends_with_any
is_valid_tld handle = not (ends_with_any handle disallowed_tlds)

-- What the resolver does with a handle.
pub data Resolution : Type 0 where
  resolved : String → Resolution
  not_found invalid_resolved failed : Resolution

-- The label before a domain of the service.
abbrev pub check_front : Texts → String → String → Result AccountError String
check_front T handle suffix =
    let front = before_suffix handle suffix in
    if has_dot front
    then fail invalid_handle
    else if ltb (T.units front) 1
    then fail invalid_handle
    else if ltb 63 (T.units front)
    then fail invalid_handle
    else ok handle

-- A handle of another domain: a handle that is not found passes.
abbrev pub check_resolved : String → String → Resolution → Result AccountError String
check_resolved handle did (resolved other) =
    if str_eq other did then ok handle else fail invalid_handle
check_resolved handle did not_found = ok handle
check_resolved handle did invalid_resolved = fail upstream_failure
check_resolved handle did failed = fail upstream_failure

module _ (T : Texts) (domains : List String) (resolve : String → Resolution) where
  unfoldable pub validate_handle : String → Option String → Result AccountError String
  unfolding is_valid_tld is_service_domain ends_with before_suffix has_dot
  validate_handle raw did =
      let handle = T.to_lower raw in
      if not (is_valid_tld handle)
      then fail invalid_handle
      else if is_service_domain handle domains
      then elim (first (ends_with handle) domains) [
        | none ↦ fail invalid_handle
        | some suffix ↦ check_front T handle suffix
      ]
      else elim did [
        | none ↦ fail unsupported_domain
        | some d ↦ check_resolved handle d (resolve handle)
      ]
