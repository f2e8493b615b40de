-- ===== src/Ids/Parts.antt =====
-- Identifiers determine the parts that they are built from: `canonicalParts` is a prefix code
-- over the lengths, and hexadecimal text determines its bytes.
use assembled_watchtower.Base.{
  ℕ, ◌/◌, ◌%◌, ◌≡◌, refl, sym, List, [], ◌∷◌, ◌++◌, Str, arith, All, length, ◌≢◌,
}
use assembled_watchtower.Ids.{format_uint, canonical_parts, hex_digit, hex_encode, stable_id}
use assembled_watchtower.Ids.Decimal.{IsDigit, format_uint-injective, format_uint-IsDigit}

-- Digits end at the first colon.
split-colon :
    (s t u v : Str)
    → All IsDigit s
    → All IsDigit t
    → s ++ b':' ∷ u ≡ t ++ b':' ∷ v
    → (s ≡ t) × (u ≡ v)
split-colon [] [] u v a b h = (refl, ground arith)
split-colon [] (d ∷ t) u v a b h = absurd (ground arith)
split-colon (c ∷ s) [] u v a b h = absurd (ground arith)
split-colon (c ∷ s) (d ∷ t) u v a b h =
    let rest = split-colon s t u v a.1 b.1 (ground arith) in (ground arith, rest.1)

split-length : (s t u v : Str) → length s ≡ length t → s ++ u ≡ t ++ v → (s ≡ t) × (u ≡ v)
split-length [] [] u v l h = (refl, h)
split-length [] (d ∷ t) u v l h = absurd (omega arith)
split-length (c ∷ s) [] u v l h = absurd (omega arith)
split-length (c ∷ s) (d ∷ t) u v l h =
    let rest = split-length s t u v (omega arith) (ground arith) in (ground arith, rest.1)

nil-ne-part : (s t : Str) → [] ≢ s ++ b':' ∷ t
nil-ne-part [] t h = cc
nil-ne-part (c ∷ s) t h = cc

pub canonical_parts-injective :
    (ps qs : List Str) → canonical_parts ps ≡ canonical_parts qs → ps ≡ qs
unfolding canonical_parts
canonical_parts-injective [] [] h = refl
canonical_parts-injective [] (q ∷ qs) h = absurd (nil-ne-part _ _ h)
canonical_parts-injective (p ∷ ps) [] h = absurd (nil-ne-part _ _ (sym h))
canonical_parts-injective (p ∷ ps) (q ∷ qs) h =
    let head =
      split-colon (format_uint (length p)) (format_uint (length q)) (p ++ canonical_parts ps)
        (q ++ canonical_parts qs) (format_uint-IsDigit (length p)) (format_uint-IsDigit (length q))
        h in
    let body =
      split-length p q (canonical_parts ps) (canonical_parts qs) (format_uint-injective _ _ head.0)
        head.1 in
    let tail = canonical_parts-injective ps qs body.1 in cc (body.0, tail)

hex_digit-injective : (m n : ℕ) → hex_digit m ≡ hex_digit n → m ≡ n
unfolding hex_digit
hex_digit-injective m n h = ground arith

pub hex_encode-injective : (s t : Str) → hex_encode s ≡ hex_encode t → s ≡ t
unfolding hex_encode
hex_encode-injective [] [] h = refl
hex_encode-injective [] (d ∷ t) h = cc
hex_encode-injective (c ∷ s) [] h = cc
hex_encode-injective (c ∷ s) (d ∷ t) h =
    let high = hex_digit-injective (c / 16) (d / 16) (cc) in
    let low = hex_digit-injective (c % 16) (d % 16) (cc) in
    let byte : c ≡ d = omega arith in let rest = hex_encode-injective s t (cc) in cc (byte, rest)

append-left-cancel : (s u v : Str) → s ++ u ≡ s ++ v → u ≡ v
append-left-cancel [] u v h = h
append-left-cancel (c ∷ s) u v h = append-left-cancel s u v (cc)

-- Two identifiers with the same prefix are equal only if they were built from the same parts, in
-- the same order: no two lists of parts collide, whatever bytes the parts hold.
pub stable_id-injective :
    (prefix : Str) (ps qs : List Str)
    → stable_id prefix (canonical_parts ps) ≡ stable_id prefix (canonical_parts qs)
    → ps ≡ qs
unfolding stable_id
stable_id-injective prefix ps qs h =
    let hex = append-left-cancel prefix _ _ h in
    canonical_parts-injective ps qs (hex_encode-injective _ _ (cc))
