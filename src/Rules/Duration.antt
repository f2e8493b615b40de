-- ===== src/Rules/Duration.antt =====
-- `ParseDuration` and `canonicalDurationString` of internal/rules/types.go. A duration is an int64
-- number of nanoseconds.
pub mod RoundTrip
use assembled_watchtower.Base.{
  ℕ, ◌*◌, ◌/◌, ◌%◌, [], ◌∷◌, ◌++◌, Option, none, some, Bool, true, false, not, ◌&&◌, ◌||◌, ◌==◌,
  ltb, leb, if◌then◌else◌, Str, codes, ℤ, pos, negsuc, is_empty, ◌⊎◌, inl, inr,
}
use assembled_watchtower.Ids.{format_uint}
use assembled_watchtower.Json.Numbers.{is_digit, all_digits, max_int64}
use assembled_watchtower.Ids.Decimal.{value_from}

-- `time.Second`, and `365*24*time.Hour`.
abbrev pub second : ℕ
second = 1000000000

abbrev pub minute : ℕ
minute = 60000000000

abbrev pub hour : ℕ
hour = 3600000000000

abbrev pub year : ℕ
year = 31536000000000000

pub data DurationError : Type 0 where
  malformed : DurationError
  too_large : DurationError
  over_a_year : DurationError

-- `0|[1-9][0-9]*`
unfoldable pub is_decimal : Str → Bool
unfolding all_digits
is_decimal [] = false
is_decimal (c ∷ cs) = if c == b'0' then is_empty cs else is_digit c && all_digits cs

-- The text before the last byte, and that byte.
unfoldable pub split_last : Str → Option (Str × ℕ)
split_last [] = none
split_last (c ∷ []) = some ([], c)
split_last (c ∷ d ∷ cs) = elim (split_last (d ∷ cs)) [
  | none ↦ none
  | some (front, u) ↦ some (c ∷ front, u)
]

-- `s|m|h`, as the number of nanoseconds.
unfoldable pub unit_of : ℕ → Option ℕ
unit_of c =
    if c == b's'
    then some second
    else if c == b'm'
    then some minute
    else if c == b'h'
    then some hour
    else none

-- The range tests on a number of units.
unfoldable pub scale : ℕ → ℕ → DurationError ⊎ ℤ
scale n unit =
    if ltb max_int64 n
    then inl too_large
    else if ltb (year / unit) n
    then inl over_a_year
    else inr (pos (n * unit))

unfoldable pub parse_units : Str → ℕ → DurationError ⊎ ℤ
parse_units digits u = elim (unit_of u) [
  | none ↦ inl malformed
  | some unit ↦ if is_decimal digits then scale (value_from 0 digits) unit else inl malformed
]

unfoldable pub parse_duration : Str → DurationError ⊎ ℤ
parse_duration s = elim (split_last s) [
  | none ↦ inl malformed
  | some (digits, u) ↦ parse_units digits u
]

-- The text of a whole number of seconds: hours, minutes, or seconds.
unfoldable pub duration_text : ℕ → Str
duration_text d =
    if ltb 0 (d / hour) && (d % hour == 0)
    then format_uint (d / hour) ++ codes "h"
    else if ltb 0 (d / minute) && (d % minute == 0)
    then format_uint (d / minute) ++ codes "m"
    else format_uint (d / second) ++ codes "s"

-- `none` is the error.
unfoldable pub canonical_duration_string : ℤ → Option Str
canonical_duration_string (negsuc n) = none
canonical_duration_string (pos d) =
    if ltb year d || not (d % second == 0) then none else some (duration_text d)
