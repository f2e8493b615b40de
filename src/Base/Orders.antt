-- ===== src/Base/Orders.antt =====
-- The orders of the Go code on strings, integers and times are strict and total.
use mathlib.Core.Path.{◌≡◌, refl}
use mathlib.Core.Bool.{true, false}
use mathlib.Core.List.{[], ◌∷◌}
use native.Mathlib.Omega.{arith}
use assembled_watchtower.Base.Tests.{ltb, ◌==◌}
use assembled_watchtower.Base.Int.{ℤ, pos, negsuc, ltb_ℤ}
use assembled_watchtower.Base.Bytes.{Str, str_ltb}
use assembled_watchtower.Base.Sort.{IsTotal, IsEqb}

pub ltb-IsTotal : IsTotal ltb
ltb-IsTotal = record {
  irrefl = λ a. ground arith;
  trans = λ a b c h k. ground arith;
  cotrans = λ a b c h k. ground arith;
  tie = λ a b h k. ground arith;
}

pub ==-IsEqb : IsEqb ◌==◌
==-IsEqb = record { sound = λ a b h. ground arith; complete = λ a. ground arith }

ltb_ℤ-tie : (a b : ℤ) → ltb_ℤ a b ≡ false → ltb_ℤ b a ≡ false → a ≡ b
ltb_ℤ-tie (pos a) (pos b) h k = ground arith
ltb_ℤ-tie (pos a) (negsuc b) h k = absurd (ground arith)
ltb_ℤ-tie (negsuc a) (pos b) h k = absurd (ground arith)
ltb_ℤ-tie (negsuc a) (negsuc b) h k = ground arith

pub ltb_ℤ-IsTotal : IsTotal ltb_ℤ
ltb_ℤ-IsTotal = record {
  irrefl = λ a. ground arith;
  trans = λ a b c h k. ground arith;
  cotrans = λ a b c h k. ground arith;
  tie = ltb_ℤ-tie;
}

str_ltb_irrefl : (s : Str) → str_ltb s s ≡ false
unfolding str_ltb
str_ltb_irrefl [] = refl
str_ltb_irrefl (x ∷ s) = ground (arith, str_ltb_irrefl s)

str_ltb_trans : (s t u : Str) → str_ltb s t ≡ true → str_ltb t u ≡ true → str_ltb s u ≡ true
unfolding str_ltb
str_ltb_trans [] [] u h k = k
str_ltb_trans [] (y ∷ t) [] h k = k
str_ltb_trans [] (y ∷ t) (z ∷ u) h k = refl
str_ltb_trans (x ∷ s) [] u h k = cc
str_ltb_trans (x ∷ s) (y ∷ t) [] h k = cc
str_ltb_trans (x ∷ s) (y ∷ t) (z ∷ u) h k = ground (arith, str_ltb_trans s t u)

str_ltb-cotrans : (s t u : Str) → str_ltb s u ≡ true → str_ltb s t ≡ false → str_ltb t u ≡ true
unfolding str_ltb
str_ltb-cotrans [] [] u h k = h
str_ltb-cotrans [] (y ∷ t) u h k = cc
str_ltb-cotrans (x ∷ s) t [] h k = cc
str_ltb-cotrans (x ∷ s) [] (z ∷ u) h k = refl
str_ltb-cotrans (x ∷ s) (y ∷ t) (z ∷ u) h k = ground (arith, str_ltb-cotrans s t u)

str_ltb-tie : (s t : Str) → str_ltb s t ≡ false → str_ltb t s ≡ false → s ≡ t
unfolding str_ltb
str_ltb-tie [] [] h k = refl
str_ltb-tie [] (y ∷ t) h k = cc
str_ltb-tie (x ∷ s) [] h k = cc
str_ltb-tie (x ∷ s) (y ∷ t) h k = ground (arith, str_ltb-tie s t)

pub str_ltb-IsTotal : IsTotal str_ltb
str_ltb-IsTotal = record {
  irrefl = str_ltb_irrefl;
  trans = str_ltb_trans;
  cotrans = str_ltb-cotrans;
  tie = str_ltb-tie;
}
