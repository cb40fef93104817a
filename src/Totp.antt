-- ===== src/Totp.antt =====
-- packages/danaus/src/accounts/totp.ts: one-time codes (RFC 4226 and RFC 6238) and recovery codes.
-- HMAC-SHA1 (`crypto.subtle`) and the random generator of raw recovery codes (`nanoid`) are
-- parameters. The clock is in milliseconds, and stands at thirty seconds after the epoch or later,
-- where the counter before the current one is a natural number.
use Prim.Native.Char.{Char, code}
use Prim.Native.String as Str
use danaus.Prelude.{
  ℕ, zero, suc, ◌+◌, ◌-◌, ◌*◌, ◌/◌, ◌%◌, ◌^◌, String, Bool, false, not, ◌&&◌, ◌||◌, Option, none,
  some, List, [], ◌∷◌, ◌++◌, if◌then◌else◌, leb, ◌==◌, str_eq, length,
}
use danaus.SeqEvent.{Bytes}
use danaus.Text.{all_digits, decimal, pad_start}

abbrev pub totp_code_length : ℕ
totp_code_length = 6

abbrev pub time_step : ℕ
time_step = 30

abbrev pub max_totp_credentials : ℕ
max_totp_credentials = 5

abbrev pub recovery_code_count : ℕ
recovery_code_count = 10

-- `/^\d{6}$/`
unfoldable pub is_totp_code : String → Bool
unfolding all_digits
is_totp_code s = all_digits s && Str.count s == totp_code_length

-- The eight bytes of a counter, the highest first.
unfoldable counter_bytes : ℕ → ℕ → Bytes
counter_bytes zero counter = []
counter_bytes (suc n) counter = counter_bytes n (counter / 256) ++ (counter % 256) ∷ []

-- `bytes[i]`, where what is missing counts as 0 in the operations on bits.
unfoldable byte_at : Bytes → ℕ → ℕ
byte_at [] i = 0
byte_at (b ∷ bytes) zero = b
byte_at (b ∷ bytes) (suc i) = byte_at bytes i

-- A counter that was already used is passed over.
unfoldable pub is_used : Option ℕ → ℕ → Bool
is_used none counter = false
is_used (some last_used) counter = leb counter last_used

unfoldable pub current_counter : ℕ → ℕ
current_counter now = now / 1000 / time_step

module _ (hmac : Bytes → Bytes → Bytes) where
  unfoldable pub generate_hotp : Bytes → ℕ → String
  unfolding counter_bytes byte_at decimal pad_start
  generate_hotp secret counter =
      let hash = hmac secret (counter_bytes 8 counter) in
      let offset = byte_at hash (length hash - 1) % 16 in
      let binary =
        byte_at hash offset % 128 * 2 ^ 24
        + byte_at hash (offset + 1) % 256 * 2 ^ 16
        + byte_at hash (offset + 2) % 256 * 2 ^ 8
        + byte_at hash (offset + 3) % 256 in
      pad_start totp_code_length "0" (decimal (binary % 10 ^ totp_code_length))

  -- The loop over the counters of the time window.
  unfoldable pub match_counter : Bytes → String → Option ℕ → List ℕ → Option ℕ
  unfolding is_used
  match_counter secret code last_used [] = none
  match_counter secret code last_used (counter ∷ counters) =
      let rest = match_counter secret code last_used counters in
      if is_used last_used counter
      then rest
      else if str_eq code (generate_hotp secret counter)
      then some counter
      else rest

  unfoldable pub verify_totp_code : ℕ → Bytes → String → Option ℕ → Option ℕ
  unfolding is_totp_code match_counter current_counter
  verify_totp_code now secret code last_used =
      let counter = current_counter now in
      if not (is_totp_code code)
      then none
      else match_counter secret code last_used ((counter - 1) ∷ counter ∷ (counter + 1) ∷ [])

-- `raw.slice(0, 4) + '-' + raw.slice(4)` of a raw code of eight characters of one byte.
unfoldable pub backup_code : String → String
backup_code raw = Str.◌++◌ (Str.slice raw 0 4) (Str.◌++◌ "-" (Str.slice raw 4 (Str.len raw)))

-- The loop from round `i` on, `rounds` of them; the random generator draws `draw i` in round `i`.
unfoldable draw_codes : (ℕ → String) → ℕ → ℕ → List String
unfolding backup_code
draw_codes draw i zero = []
draw_codes draw i (suc rounds) = backup_code (draw i) ∷ draw_codes draw (suc i) rounds

unfoldable pub generate_backup_codes : (ℕ → String) → List String
unfolding draw_codes
generate_backup_codes draw = draw_codes draw 0 recovery_code_count

-- `[a-zA-Z\d]`
is_alphanumeric : Char → Bool
is_alphanumeric c =
    let n = code c in leb 48 n && leb n 57 || leb 65 n && leb n 90 || leb 97 n && leb n 122

-- Of so many characters of the class, what follows them.
unfoldable after_alphanumerics : ℕ → String → Option String
unfolding is_alphanumeric
after_alphanumerics zero s = some s
after_alphanumerics (suc n) Str.[] = none
after_alphanumerics (suc n) (Str.◌∷◌ c s) =
    let rest = after_alphanumerics n s in if is_alphanumeric c then rest else none

unfoldable optional_dash : String → String
optional_dash Str.[] = Str.[]
optional_dash (Str.◌∷◌ c s) = if code c == 45 then s else Str.◌∷◌ c s

-- `/^[a-zA-Z\d]{4}-?[a-zA-Z\d]{4}$/`
unfoldable pub is_recovery_code : String → Bool
unfolding after_alphanumerics optional_dash
is_recovery_code s = elim (after_alphanumerics 4 s) [
  | none ↦ false
  | some rest ↦ elim (after_alphanumerics 4 (optional_dash rest)) [
    | none ↦ false
    | some end ↦ str_eq end ""
  ]
]
