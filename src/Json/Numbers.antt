-- ===== src/Json/Numbers.antt =====
-- `strconv.ParseUint` and `strconv.ParseInt` in base ten, and that they read what is printed.
use assembled_watchtower.Base.{
  ℕ, zero, suc, ◌≤◌, ◌≡◌, refl, [], ◌∷◌, Option, none, some, Bool, true, not, ◌&&◌, ◌||◌, ◌==◌, ltb,
  leb, if◌then◌else◌, Str, ℤ, pos, negsuc, arith, is_empty, All,
}
use assembled_watchtower.Ids.{format_uint, format_int}
use assembled_watchtower.Ids.Decimal.{
  value_from, IsDigit, format_uint-IsDigit, value-format_uint, format_uint_filled,
}

unfoldable pub is_digit : ℕ → Bool
is_digit c = leb b'0' c && leb c b'9'

unfoldable pub all_digits : Str → Bool
unfolding is_digit
all_digits [] = true
all_digits (c ∷ cs) = is_digit c && all_digits cs

abbrev pub max_u64 : ℕ
max_u64 = 18446744073709551615

abbrev pub max_int64 : ℕ
max_int64 = 9223372036854775807

-- The value of a text of digits that is not above a limit.
unfoldable pub parse_digits : ℕ → Str → Option ℕ
unfolding all_digits
parse_digits limit s =
    if is_empty s || not (all_digits s) || ltb limit (value_from 0 s)
    then none
    else some (value_from 0 s)

unfoldable pub parse_uint : Str → Option ℕ
unfolding parse_digits
parse_uint s = parse_digits max_u64 s

-- Minus a number of at most 2^63.
unfoldable pub negate : ℕ → ℤ
negate zero = pos 0
negate (suc k) = negsuc k

unfoldable pub parse_int : Str → Option ℤ
unfolding parse_digits negate
parse_int [] = none
parse_int (c ∷ cs) =
    if c == b'-'
    then (elim (parse_digits (suc max_int64) cs) [ none ↦ none | some n ↦ some (negate n) ])
    else if c == b'+'
    then (elim (parse_digits max_int64 cs) [ none ↦ none | some n ↦ some (pos n) ])
    else (elim (parse_digits max_int64 (c ∷ cs)) [ none ↦ none | some n ↦ some (pos n) ])

pub all_digits-IsDigit : (s : Str) → All IsDigit s → all_digits s ≡ true
unfolding all_digits
all_digits-IsDigit [] h = refl
all_digits-IsDigit (c ∷ s) h = ground (arith, all_digits-IsDigit s h.1)

parse_digits-format_uint : (limit n : ℕ) → n ≤ limit → parse_digits limit (format_uint n) ≡ some n
unfolding parse_digits
parse_digits-format_uint limit n h = ground (
  arith,
  all_digits-IsDigit (format_uint n) (format_uint-IsDigit n),
  value-format_uint n,
  format_uint_filled n,
)

-- Every uint64 is read back from its decimal text.
pub parse_uint-format_uint : (n : ℕ) → n ≤ max_u64 → parse_uint (format_uint n) ≡ some n
unfolding parse_uint
parse_uint-format_uint n h = parse_digits-format_uint max_u64 n h

-- Every nonnegative int64 is read back from its decimal text.
pub parse_int-format_int : (n : ℕ) → n ≤ max_int64 → parse_int (format_int (pos n)) ≡ some (pos n)
unfolding format_int
parse_int-format_int n h =
    parse_int_unsigned (format_uint n) (format_uint-IsDigit n)
      (parse_digits-format_uint max_int64 n h)
  where
    parse_int_unsigned :
        (s : Str) → All IsDigit s → parse_digits max_int64 s ≡ some n → parse_int s ≡ some (pos n)
    parse_int_unsigned [] a e = unfold parse_digits in cc
    parse_int_unsigned (c ∷ s) a e = unfold parse_int in ground (arith, e)
