-- ===== src/Ids/Decimal.antt =====
-- Decimal notation determines the number, and is made of digits.
use assembled_watchtower.Base.{
  ℕ, zero, suc, ◌+◌, ◌-◌, ◌*◌, ◌/◌, ◌%◌, ◌≤◌, ◌<◌, ◌≡◌, sym, ap, ◌∙◌, inl, inr, [], ◌∷◌, Str, arith,
  ltb, Bool-cases, All, is_empty, refl, false, ℤ, pos, negsuc, ◌≢◌,
}
use assembled_watchtower.Ids.{decimal, format_uint, format_int}

abbrev pub IsDigit : ℕ → Type 0
IsDigit c = (b'0' ≤ c) × (c < b':')

-- The number that digits stand for, read after those of `v`.
unfoldable pub value_from : ℕ → Str → ℕ
value_from v [] = v
value_from v (c ∷ cs) = value_from (v * 10 + (c - b'0')) cs

pub value_from-decimal :
    (fuel n : ℕ) (acc : Str) → n < fuel → value_from 0 (decimal fuel n acc) ≡ value_from n acc
unfolding decimal value_from
value_from-decimal zero n acc h = absurd (omega arith)
value_from-decimal (suc fuel) n acc h = elim (Bool-cases (ltb n 10)) [
  | inl small ↦ rw small (ap (λ v. value_from v acc) (omega arith))
  | inr large ↦ rw large (
      value_from-decimal fuel (n / 10) ((b'0' + n % 10) ∷ acc) (ground arith)
      ∙ ap (λ v. value_from v acc) (omega arith))
]

pub format_uint-injective : (m n : ℕ) → format_uint m ≡ format_uint n → m ≡ n
unfolding format_uint value_from
format_uint-injective m n h =
    sym (value_from-decimal (suc m) m [] (omega arith))
    ∙ ap (value_from 0) h
    ∙ value_from-decimal (suc n) n [] (omega arith)

pub decimal-IsDigit :
    (fuel n : ℕ) (acc : Str) → n < fuel → All IsDigit acc → All IsDigit (decimal fuel n acc)
unfolding decimal
decimal-IsDigit zero n acc h a = a
decimal-IsDigit (suc fuel) n acc h a = elim (Bool-cases (ltb n 10)) [
  | inl small ↦ rw small ((ground arith, ground arith), a)
  | inr large ↦ rw large (
      decimal-IsDigit fuel (n / 10) ((b'0' + n % 10) ∷ acc) (ground arith)
        ((omega arith, omega arith), a))
]

pub format_uint-IsDigit : (n : ℕ) → All IsDigit (format_uint n)
unfolding format_uint value_from
format_uint-IsDigit n = decimal-IsDigit (suc n) n [] (omega arith) tt

pub value-format_uint : (n : ℕ) → value_from 0 (format_uint n) ≡ n
unfolding format_uint value_from
value-format_uint n = value_from-decimal (suc n) n [] (omega arith)

decimal_filled : (fuel n : ℕ) (acc : Str) → n < fuel → is_empty (decimal fuel n acc) ≡ false
unfolding decimal
decimal_filled zero n acc h = absurd (omega arith)
decimal_filled (suc fuel) n acc h = elim (Bool-cases (ltb n 10)) [
  | inl small ↦ rw small refl
  | inr large ↦ rw large (decimal_filled fuel (n / 10) ((b'0' + n % 10) ∷ acc) (ground arith))
]

pub format_uint_filled : (n : ℕ) → is_empty (format_uint n) ≡ false
unfolding format_uint
format_uint_filled n = decimal_filled (suc n) n [] (omega arith)

minus-ne-format_uint : (m n : ℕ) → format_uint m ≢ b'-' ∷ format_uint n
minus-ne-format_uint m n h = first_not_minus (format_uint m) (format_uint-IsDigit m) h
  where
    first_not_minus : (s : Str) → All IsDigit s → s ≢ b'-' ∷ format_uint n
    first_not_minus [] a e = cc
    first_not_minus (c ∷ s) a e = ground arith

pub format_int-injective : (m n : ℤ) → format_int m ≡ format_int n → m ≡ n
unfolding format_int
format_int-injective (pos m) (pos n) h = ap pos (format_uint-injective m n h)
format_int-injective (pos m) (negsuc n) h = absurd (minus-ne-format_uint m (suc n) h)
format_int-injective (negsuc m) (pos n) h = absurd (minus-ne-format_uint n (suc m) (sym h))
format_int-injective (negsuc m) (negsuc n) h =
    let e : suc m ≡ suc n = format_uint-injective (suc m) (suc n) (cc) in ap negsuc (omega arith)
