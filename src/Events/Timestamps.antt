-- ===== src/Events/Timestamps.antt =====
-- `strictTimestamp` and the test of the offset in `timeVal`. `[0-9]` is an ASCII digit.
use assembled_watchtower.Base.{
  ℕ, zero, suc, ◌+◌, ◌*◌, ◌-◌, [], ◌∷◌, Option, none, some, Bool, false, ◌&&◌, ◌||◌, ◌==◌, leb,
  if◌then◌else◌, Str,
}
use assembled_watchtower.Base.Do.{◌>>=◌}
use assembled_watchtower.Json.Numbers.{is_digit}

-- The text behind a byte that is expected.
unfoldable pub take_byte : ℕ → Str → Option Str
take_byte c [] = none
take_byte c (d ∷ s) = if d == c then some s else none

-- The text behind `n` digits.
unfoldable pub take_digits : ℕ → Str → Option Str
take_digits zero s = some s
take_digits (suc n) [] = none
take_digits (suc n) (d ∷ s) = let rest = take_digits n s in if is_digit d then rest else none

unfoldable pub drop_digits : Str → Str
drop_digits [] = []
drop_digits (d ∷ s) = let rest = drop_digits s in if is_digit d then rest else d ∷ s

-- `(\.[0-9]+)?`
unfoldable pub take_fraction : Str → Option Str
take_fraction [] = some []
take_fraction (c ∷ s) =
    if c == b'.' then (do rest ← take_digits 1 s; some (drop_digits rest)) else some (c ∷ s)

-- The number of two digits.
unfoldable pub two_digits : ℕ → ℕ → ℕ
two_digits a b = (a - b'0') * 10 + (b - b'0')

-- `Z|[+-][0-9]{2}:[0-9]{2}` at the end, with the ranges of `timeVal`.
unfoldable pub zone : Str → Bool
zone (z ∷ []) = z == b'Z'
zone (sign ∷ h ∷ i ∷ colon ∷ m ∷ n ∷ []) =
    (sign == b'+' || sign == b'-')
    && (is_digit h && is_digit i)
    && (colon == b':')
    && (is_digit m && is_digit n)
    && (leb (two_digits h i) 23 && leb (two_digits m n) 59)
zone _ = false

-- The fields of a date and a time, and a byte before each but the first.
unfoldable pub take_date_time : Str → Option Str
take_date_time s = do
  year ← take_digits 4 s
  dash ← take_byte b'-' year
  month ← take_digits 2 dash
  dash' ← take_byte b'-' month
  day ← take_digits 2 dash'
  t ← take_byte b'T' day
  hour ← take_digits 2 t
  colon ← take_byte b':' hour
  minute ← take_digits 2 colon
  colon' ← take_byte b':' minute
  take_digits 2 colon'

unfoldable pub strict_timestamp : Str → Bool
strict_timestamp s = elim (take_date_time s >>= take_fraction) [
  | none ↦ false
  | some rest ↦ zone rest
]
