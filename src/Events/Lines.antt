-- ===== src/Events/Lines.antt =====
-- `splitPhysicalLine`, which bufio's scanner calls on what it has buffered.
use assembled_watchtower.Base.{
  ℕ, zero, suc, ◌+◌, ◌≤◌, ◌<◌, [], ◌∷◌, Option, none, some, Bool, true, false, not, ◌&&◌, ◌==◌,
  if◌then◌else◌, Str, is_empty, length, arith, ◌≡◌, refl, Option-cases, inl, inr,
}

-- `bytes.IndexByte(data, '\n')`
unfoldable pub index_newline : Str → Option ℕ
index_newline [] = none
index_newline (c ∷ s) =
    if c == 10 then some 0 else (elim (index_newline s) [ none ↦ none | some i ↦ some (suc i) ])

unfoldable pub take : ℕ → Str → Str
take n [] = []
take zero (c ∷ s) = []
take (suc n) (c ∷ s) = c ∷ take n s

-- A text without a carriage return at its end.
unfoldable pub drop_return : Str → Str
drop_return [] = []
drop_return (c ∷ []) = if c == 13 then [] else c ∷ []
drop_return (c ∷ d ∷ s) = c ∷ drop_return (d ∷ s)

-- The number of bytes to advance by, and the token, if there is one.
unfoldable pub split_physical_line : Str → Bool → ℕ × Option Str
split_physical_line bytes at_eof = elim (index_newline bytes) [
  | some i ↦ (i + 1, some (drop_return (take i bytes)))
  | none ↦ if at_eof && not (is_empty bytes) then (length bytes, some bytes) else (0, none)
]

index_newline-lt : (s : Str) (i : ℕ) → index_newline s ≡ some i → i < length s
unfolding index_newline
index_newline-lt [] i h = cc
index_newline-lt (c ∷ s) i h = elim (Option-cases (index_newline s)) [
  | inl e ↦ ground (arith, h, e)
  | inr (j, e) ↦ ground (arith, h, e, index_newline-lt s j e)
]

drop_return-le : (s : Str) → length (drop_return s) ≤ length s
unfolding drop_return
drop_return-le [] = omega arith
drop_return-le (c ∷ []) = ground arith
drop_return-le (c ∷ d ∷ s) = omega (arith, drop_return-le (d ∷ s))

length-take-le : (n : ℕ) (s : Str) → length (take n s) ≤ n
unfolding take
length-take-le n [] = omega arith
length-take-le zero (c ∷ s) = omega arith
length-take-le (suc n) (c ∷ s) = omega (arith, length-take-le n s)

-- The answer for a given index of the first newline.
split_at : Str → Bool → Option ℕ → ℕ × Option Str
split_at bytes at_eof i = elim i [
  | some i ↦ (i + 1, some (drop_return (take i bytes)))
  | none ↦ if at_eof && not (is_empty bytes) then (length bytes, some bytes) else (0, none)
]

-- What bufio's scanner asks of an answer.
pub record IsSplit (bytes : Str) (at_eof : Bool) (p : ℕ × Option Str) : Type 0 where
  pub advance : p.0 ≤ length bytes
  pub token : (t : Str) → p.1 ≡ some t → (0 < p.0) × (length t ≤ p.0)
  pub at_end : 0 < length bytes → at_eof ≡ true → (t : Str) × (p.1 ≡ some t)

token_bounds :
    (t u : Str) (n : ℕ) → 0 < n → length u ≤ n → some u ≡ some t → (0 < n) × (length t ≤ n)
token_bounds t u n h k e = (h, ground (arith, e, k))

split_at-IsSplit :
    (bytes : Str) (at_eof : Bool) (i : Option ℕ)
    → index_newline bytes ≡ i
    → IsSplit bytes at_eof (split_at bytes at_eof i)
unfolding split_at
split_at-IsSplit bytes at_eof (some i) e = record {
  advance = omega (arith, index_newline-lt bytes i e);
  token = λ t h.
      token_bounds t (drop_return (take i bytes)) (i + 1) (omega arith)
        (omega (arith, drop_return-le (take i bytes), length-take-le i bytes)) h;
  at_end = λ h k. (drop_return (take i bytes), refl);
}
split_at-IsSplit [] true none e = record {
  advance = omega arith;
  token = λ t h. cc;
  at_end = λ h k. absurd (omega arith);
}
split_at-IsSplit (c ∷ s) true none e = record {
  advance = omega arith;
  token = λ t h. token_bounds t (c ∷ s) (length (c ∷ s)) (omega arith) (omega arith) h;
  at_end = λ h k. (c ∷ s, refl);
}
split_at-IsSplit bytes false none e = record {
  advance = omega arith;
  token = λ t h. cc;
  at_end = λ h k. cc;
}

-- What bufio's scanner asks of its split function, on any buffered bytes: it never advances past
-- them; a token comes with an advance of at least one byte, and is not longer than the advance; and
-- at the end of the input nothing that is buffered is held back.
pub split_physical_line-IsSplit :
    (bytes : Str) (at_eof : Bool) → IsSplit bytes at_eof (split_physical_line bytes at_eof)
unfolding split_physical_line split_at
split_physical_line-IsSplit bytes at_eof = split_at-IsSplit bytes at_eof (index_newline bytes) refl
