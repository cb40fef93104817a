-- ===== src/Accounts/Cursors.antt =====
-- packages/danaus/src/utils/keyset.ts: class TimeKeyset. A time is an instant in milliseconds.
use Prim.Native.Char.{code}
use Prim.Native.String as Str
use danaus.Prelude.{
  Result, fail, ok, ℕ, String, Bool, ◌&&◌, ◌==◌, Option, none, some, if◌then◌else◌,
}
use danaus.Text.{decimal}
use danaus.Accounts.{AccountError, Texts, invalid_cursor}

-- The text before the first `::`, and the text after it.
unfoldable pub split_at_separator : String → Option (String × String)
split_at_separator Str.[] = none
split_at_separator (Str.◌∷◌ c Str.[]) = none
split_at_separator (Str.◌∷◌ c (Str.◌∷◌ d s)) =
    let rest = split_at_separator (Str.◌∷◌ d s) in
    if code c == 58 && code d == 58
    then some ("", s)
    else elim rest [ none ↦ none | some (before, after) ↦ some (Str.◌∷◌ c before, after) ]

unfoldable pub pack : ℕ → String → String
unfolding decimal
pack time key = Str.◌++◌ (decimal time) (Str.◌++◌ "::" key)

module _ (T : Texts) (validate_key : String → Bool) where
  unfoldable pub unpack : String → Result AccountError (ℕ × String)
  unfolding split_at_separator
  unpack cursor = elim (split_at_separator cursor) [
    | none ↦ fail invalid_cursor
    | some (before, key) ↦ elim (T.safe_integer before) [
      | none ↦ fail invalid_cursor
      | some time ↦ if validate_key key then ok (time, key) else fail invalid_cursor
    ]
  ]

  unfoldable pub unpack_optional : Option String → Result AccountError (Option (ℕ × String))
  unfolding unpack
  unpack_optional none = ok none
  unpack_optional (some cursor) = elim (unpack cursor) [ fail e ↦ fail e | ok at ↦ ok (some at) ]
