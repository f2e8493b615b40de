-- ===== src/Rules/Duration/RoundTrip.antt =====
-- The canonical text of a duration is read back as the duration, and what is read is in range.
use assembled_watchtower.Base.{
  ℕ, zero, suc, ◌*◌, ◌+◌, ◌/◌, ◌%◌, ◌<◌, ◌≤◌, ◌≡◌, refl, ap, ◌∙◌, [], ◌∷◌, ◌++◌, some, true, false,
  ◌==◌, ltb, Str, codes, ℤ, pos, negsuc, ◌⊎◌, inl, inr, arith, All, Bool-cases, Option-cases,
}
use assembled_watchtower.Ids.{decimal, format_uint}
use assembled_watchtower.Ids.Decimal.{value_from, IsDigit, value-format_uint}
use assembled_watchtower.Json.Numbers.{is_digit, all_digits-IsDigit}
use assembled_watchtower.Rules.Catalog.{time_duration_invalid}
use assembled_watchtower.Rules.Duration.{
  second, minute, hour, year, is_decimal, split_last, unit_of, scale, parse_units, parse_duration,
  duration_text, canonical_duration_string,
}

split_last-append : (s : Str) (u : ℕ) → split_last (s ++ u ∷ []) ≡ some (s, u)
unfolding split_last
split_last-append [] u = refl
split_last-append (c ∷ []) u = refl
split_last-append (c ∷ d ∷ s) u = rw (split_last-append (d ∷ s) u, split_last)

-- Formatting puts no zero in front of other digits.
decimal-is_decimal :
    (fuel n : ℕ) (acc : Str)
    → n < fuel
    → All IsDigit acc
    → 0 < n
    → is_decimal (decimal fuel n acc) ≡ true
unfolding decimal is_decimal is_digit
decimal-is_decimal zero n acc h a p = absurd (omega arith)
decimal-is_decimal (suc fuel) n acc h a p = elim (Bool-cases (ltb n 10)) [
  | inl small ↦ rw small (ground (arith, all_digits-IsDigit acc a))
  | inr large ↦ rw large (
      decimal-is_decimal fuel (n / 10) ((b'0' + n % 10) ∷ acc) (ground arith)
        ((omega arith, omega arith), a) (ground arith))
]

format_uint-is_decimal : (n : ℕ) → is_decimal (format_uint n) ≡ true
unfolding format_uint
format_uint-is_decimal zero = unfold is_decimal decimal in refl
format_uint-is_decimal (suc n) =
    decimal-is_decimal (suc (suc n)) (suc n) [] (omega arith) tt (omega arith)

-- A number of units that is in range is read back.
parse-units :
    (n u unit : ℕ)
    → unit_of u ≡ some unit
    → scale n unit ≡ inr (pos (n * unit))
    → parse_duration (format_uint n ++ u ∷ []) ≡ inr (pos (n * unit))
unfolding parse_duration parse_units
parse-units n u unit e h =
    let front = split_last-append (format_uint n) u in
    ground (arith, front, e, format_uint-is_decimal n, value-format_uint n, h)

module _ (d : ℕ) (whole : d % second ≡ 0) (within : d ≤ year) where
  text-hours : d % hour ≡ 0 → parse_duration (format_uint (d / hour) ++ codes "h") ≡ inr (pos d)
  unfolding scale unit_of
  text-hours m =
      parse-units (d / hour) b'h' hour refl (ground arith) ∙ ap (λ n. inr (pos n)) (omega arith)

  text-minutes :
      d % minute ≡ 0 → parse_duration (format_uint (d / minute) ++ codes "m") ≡ inr (pos d)
  unfolding scale unit_of
  text-minutes m =
      parse-units (d / minute) b'm' minute refl (ground arith) ∙ ap (λ n. inr (pos n)) (omega arith)

  text-seconds : parse_duration (format_uint (d / second) ++ codes "s") ≡ inr (pos d)
  unfolding scale unit_of
  text-seconds =
      parse-units (d / second) b's' second refl (ground arith) ∙ ap (λ n. inr (pos n)) (omega arith)

  parse-duration_text : parse_duration (duration_text d) ≡ inr (pos d)
  unfolding duration_text
  parse-duration_text = ground (arith, text-hours, text-minutes, text-seconds)

-- A duration that validation takes, not negative, a whole number of seconds, and at most 365 days,
-- has a canonical text, and the text is read back as the duration.
pub parse-canonical_duration :
    (d : ℤ)
    → time_duration_invalid d ≡ false
    → (s : Str) × (canonical_duration_string d ≡ some s) × (parse_duration s ≡ inr d)
unfolding canonical_duration_string time_duration_invalid
parse-canonical_duration (negsuc n) h = cc
parse-canonical_duration (pos d) h =
    (duration_text d, ground arith, parse-duration_text d (ground arith) (ground arith))

scale_bounds :
    (n unit : ℕ) (d : ℤ) → scale n unit ≡ inr d → (d ≡ pos (n * unit)) × (n ≤ year / unit)
unfolding scale
scale_bounds n unit d h = (ground (arith, h), ground (arith, h))

unit_of-cases :
    (u unit : ℕ) → unit_of u ≡ some unit → (unit ≡ second) ⊎ (unit ≡ minute) ⊎ (unit ≡ hour)
unfolding unit_of
unit_of-cases u unit h = elim (Bool-cases (u == b's')) [
  | inl e ↦ inl (ground (arith, h, e))
  | inr e ↦ elim (Bool-cases (u == b'm')) [
    | inl e' ↦ inr (inl (ground (arith, h, e, e')))
    | inr e' ↦ inr (inr (ground (arith, h, e, e')))
  ]
]

scale-valid :
    (n u unit : ℕ) (d : ℤ)
    → unit_of u ≡ some unit
    → scale n unit ≡ inr d
    → time_duration_invalid d ≡ false
unfolding time_duration_invalid
scale-valid n u unit d k h =
    let (e, b) = scale_bounds n unit d h in
    elim (unit_of-cases u unit k) [
      | inl s ↦ rw e (valid_product (ground (arith, s)) (ground (arith, s, b)))
      | inr (inl s) ↦ rw e (valid_product (ground (arith, s)) (ground (arith, s, b)))
      | inr (inr s) ↦ rw e (valid_product (ground (arith, s)) (ground (arith, s, b)))
    ]
  where
    valid_product :
        (n * unit) % second ≡ 0 → n * unit ≤ year → time_duration_invalid (pos (n * unit)) ≡ false
    valid_product m p = ground arith

-- A text that `ParseDuration` accepts is a duration in range: not negative, a whole number of
-- seconds, and at most 365 days, so that no product wraps around.
pub parse_duration-bounds :
    (s : Str) (d : ℤ) → parse_duration s ≡ inr d → time_duration_invalid d ≡ false
unfolding parse_duration parse_units
parse_duration-bounds s d h = elim (Option-cases (split_last s)) [
  | inl e ↦ absurd (ground (arith, h, e))
  | inr ((digits, u), e) ↦ elim (Option-cases (unit_of u)) [
    | inl k ↦ absurd (ground (arith, h, e, k))
    | inr (unit, k) ↦ scale-valid (value_from 0 digits) u unit d k (ground (arith, h, e, k))
  ]
]
