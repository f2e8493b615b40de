-- ===== src/Rules/Size.antt =====
-- Which predicates validation accepts: `walk` counts nodes on its way, and a conjunction by value
-- twice, once as a value and once as a pointer.
use assembled_watchtower.Base.{
  ℕ, suc, ◌+◌, ◌≡◌, ◌≤◌, ◌↔◌, refl, List, [], ◌∷◌, ◌++◌, arith, Str, codes,
}
use assembled_watchtower.Ids.{format_uint}
use assembled_watchtower.Rules.Types.{
  Expression, Conditions, ValidationError, compare, all, all_pointer, nil_compare, nil_all, nil,
  no_more, also,
}
use assembled_watchtower.Rules.Validate.{
  validate_compare, validate_expression, validate_all, walk_each, walk_nested, error, ptr,
}

unfoldable pub count_conditions : Conditions → ℕ
count_conditions no_more = 0
count_conditions (also x xs) = suc (count_conditions xs)

-- Comparisons without errors, each at the path of its index from `i` on.
abbrev pub AreValid : Str → Str → ℕ → Conditions → Type 0
AreValid path subject i no_more = Unit
AreValid path subject i (also (compare c) xs) =
    (validate_compare c (ptr path (format_uint i)) subject ≡ []) × AreValid path subject (suc i) xs
AreValid path subject i (also _ xs) = ⊥

-- A comparison, or from one up to a number of comparisons.
abbrev pub IsAcceptable : Str → Str → Expression → Type 0
IsAcceptable path subject (compare c) = validate_compare c path subject ≡ []
IsAcceptable path subject (all cs) =
    AreValid (ptr path (codes "conditions")) subject 0 cs
    × (1 ≤ count_conditions cs)
    × (count_conditions cs ≤ 30)
IsAcceptable path subject (all_pointer cs) =
    AreValid (ptr path (codes "conditions")) subject 0 cs
    × (1 ≤ count_conditions cs)
    × (count_conditions cs ≤ 31)
IsAcceptable path subject _ = ⊥

walk_nested-empty :
    (count : ℕ) (path : Str) (es : List ValidationError)
    → (walk_nested count path es ≡ []) ↔ ((count ≤ 32) × (es ≡ []))
unfolding walk_nested error
walk_nested-empty count path es =
    ((λ h. (ground (arith, h), ground (arith, h))), λ (b, e). ground (arith, b, e))

append-empty : (xs ys : List ValidationError) → (xs ++ ys ≡ []) ↔ ((xs ≡ []) × (ys ≡ []))
append-empty [] ys = ((λ h. (refl, h)), λ (e, h). h)
append-empty (x ∷ xs) ys = ((λ h. absurd (ground (arith, h))), λ (e, h). absurd (ground (arith, e)))

walk_each-empty :
    (cs : Conditions) (i count : ℕ) (path subject : Str)
    → count ≤ 32
    → (walk_each cs i count path subject ≡ [])
      ↔ (AreValid path subject i cs × (count + count_conditions cs ≤ 32))
unfolding walk_each count_conditions error
walk_each-empty no_more i count path subject few = ((λ h. (tt, omega arith)), λ h. refl)
walk_each-empty (also (compare c) xs) i count path subject few = (
  λ h.
      let (first, rest) = (append-empty _ (walk_each xs (suc i) (suc count) path subject)).0 h in
      let (fits, valid) = (walk_nested-empty (suc count) _ _).0 first in
      let (others, below) = (walk_each-empty xs (suc i) (suc count) path subject fits).0 rest in
      ((valid, others), omega (arith, below)),
  λ ((valid, others), below).
      let fits : suc count ≤ 32 = omega (arith, below) in
      (append-empty _ _).1 (
        (walk_nested-empty (suc count) _ _).1 (fits, valid),
        (walk_each-empty xs (suc i) (suc count) path subject fits).1 (others, omega (arith, below)),
      ),
)
walk_each-empty (also nil_compare xs) i count path subject few = (
  λ h.
      let here = ptr path (format_uint i) in
      let refused =
        error (codes "unsupported_expression") here (codes "expression cannot be nil") in
      let (first, rest) =
        (append-empty (walk_nested (suc count) here refused)
            (walk_each xs (suc i) (suc count) path subject)).0
          h in
      let empty : refused ≡ [] = ((walk_nested-empty (suc count) here refused).0 first).1 in
      absurd (ground (arith, empty)),
  λ (v, b). elim v [ ],
)
walk_each-empty (also (all cs) xs) i count path subject few =
    ((λ h. absurd (ground (arith, h))), λ (v, b). elim v [ ])
walk_each-empty (also (all_pointer cs) xs) i count path subject few =
    ((λ h. absurd (ground (arith, h))), λ (v, b). elim v [ ])
walk_each-empty (also nil_all xs) i count path subject few =
    ((λ h. absurd (ground (arith, h))), λ (v, b). elim v [ ])
walk_each-empty (also nil xs) i count path subject few =
    ((λ h. absurd (ground (arith, h))), λ (v, b). elim v [ ])

each :
    (x : Expression) (xs : Conditions) (path subject : Str) (count : ℕ)
    → count ≤ 32
    → (walk_each (also x xs) 0 count (ptr path (codes "conditions")) subject ≡ []) ↔ (
        AreValid (ptr path (codes "conditions")) subject 0 (also x xs)
        × (count + suc (count_conditions xs) ≤ 32))
unfolding count_conditions
each x xs path subject count few =
    walk_each-empty (also x xs) 0 count (ptr path (codes "conditions")) subject few

-- Validation accepts a predicate exactly if it is a comparison without errors, or a conjunction
-- whose conditions are comparisons without errors, 1 to 31 of them in one by pointer, and 1 to 30 in
-- one by value.
pub validate_expression-accepts_iff :
    (x : Expression) (path subject : Str)
    → (validate_expression x path subject ≡ []) ↔ IsAcceptable path subject x
unfolding validate_expression validate_all error count_conditions
validate_expression-accepts_iff (compare c) path subject = ((λ h. h), λ h. h)
validate_expression-accepts_iff (all no_more) path subject =
    ((λ h. absurd (ground (arith, h))), λ (v, b, c). absurd (omega arith))
validate_expression-accepts_iff (all (also x xs)) path subject = (
  λ h.
      let (valid, below) = (each x xs path subject 2 (omega arith)).0 h in
      (valid, omega (arith), omega (arith, below)),
  λ (valid, some_, below). (each x xs path subject 2 (omega arith)).1 (valid, omega (arith, below)),
)
validate_expression-accepts_iff (all_pointer no_more) path subject =
    ((λ h. absurd (ground (arith, h))), λ (v, b, c). absurd (omega arith))
validate_expression-accepts_iff (all_pointer (also x xs)) path subject = (
  λ h.
      let (valid, below) = (each x xs path subject 1 (omega arith)).0 h in
      (valid, omega (arith), omega (arith, below)),
  λ (valid, some_, below). (each x xs path subject 1 (omega arith)).1 (valid, omega (arith, below)),
)
validate_expression-accepts_iff nil_compare path subject =
    ((λ h. absurd (ground (arith, h))), λ b. elim b [ ])
validate_expression-accepts_iff nil_all path subject =
    ((λ h. absurd (ground (arith, h))), λ b. elim b [ ])
validate_expression-accepts_iff nil path subject =
    ((λ h. absurd (ground (arith, h))), λ b. elim b [ ])
