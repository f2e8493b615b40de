-- ===== src/Rules/Soundness.antt =====
-- A predicate that validation accepts is decided by complete evidence: the types that it checks are
-- the ones that evaluation compares.
use assembled_watchtower.Base.{
  ℕ, suc, ◌≡◌, ◌≢◌, refl, inl, inr, List, [], ◌∷◌, ◌++◌, some, true, false, arith, All, same, Str,
  codes, Str-discrete, Option-cases, Bool-cases, if◌then◌else◌, is_empty, same→eq,
}
use assembled_watchtower.Ids.{format_uint}
use assembled_watchtower.Rules.Types.{
  Operand, CompareExpression, Expression, Conditions, FieldSpec, ValidationError, operand_field,
  operand_integer, type_count, compare, all, all_pointer, nil_compare, nil_all, nil, no_more, also,
}
use assembled_watchtower.Rules.Catalog.{field}
use assembled_watchtower.Rules.Evaluate.{
  unknown, FieldLookup, Relation, resolve_field, resolve_operand, is_literal, relation, decide,
  truth, valid_field_value, evaluate_values, evaluate_comparison, evaluate_all, flatten,
  flatten_each,
}
use assembled_watchtower.Rules.Conjunction.{evaluate_all-known}
use assembled_watchtower.Rules.Validate.{
  validate_field, validate_operand, validate_types, validate_compare, validate_expression,
  validate_all, walk_each, walk_nested, allowed_operator_type, contains, error, ptr,
}

-- The kind of the values of a type: the two enumerations differ in the name of integers only.
abbrev kind_of : Str → Str
kind_of t = if same Str-discrete t type_count then operand_integer else t

-- A value of a type.
abbrev HasType : Str → Operand → Type 0
HasType t v = (v.kind ≡ kind_of t) × (is_literal v ≡ true)

-- The lookup knows every field of the subject, with a value of the field's type.
abbrev pub Knows : FieldLookup → Str → Type 0
Knows find subject =
    (name : Str) (f : FieldSpec)
    → field name ≡ some f
    → f.subject ≡ subject
    → (v : Operand) × (find f ≡ some v) × (valid_field_value v f.type ≡ true)

valid_field_value-HasType : (v : Operand) (t : Str) → valid_field_value v t ≡ true → HasType t v
unfolding valid_field_value is_literal
valid_field_value-HasType v t h = (ground (arith, h), ground (arith, h))

valid_field_value_typed :
    (v : Operand) (t : Str) → valid_field_value v t ≡ true → is_empty t ≡ false
unfolding valid_field_value
valid_field_value_typed v [] h = ground (arith, h)
valid_field_value_typed v (c ∷ t) h = refl

relation-some : (l r : Operand) → is_literal l ≡ true → (x : Relation) × (relation l r ≡ some x)
unfolding is_literal relation
relation-some l r h = elim (Option-cases (relation l r)) [
  | inl e ↦ absurd (ground (arith, h, e))
  | inr k ↦ k
]

decide_known :
    (t op : Str) (x : Relation) → allowed_operator_type t op ≡ true → decide op x ≢ unknown
unfolding allowed_operator_type contains decide truth
decide_known t op x h e = ground (arith, h, e)

append_nil : {A : Type 0} (xs ys : List A) → xs ++ ys ≡ [] → (xs ≡ []) × (ys ≡ [])
append_nil [] ys h = (refl, h)
append_nil (x ∷ xs) ys h = ground (arith, h)

-- An operand without errors has a type, and a value of that type.
operand-HasType :
    (o : Operand) (path subject : Str) (find : FieldLookup)
    → Knows find subject
    → (validate_operand o path subject).0 ≡ []
    → (v : Operand) × (resolve_operand o find ≡ some v)
      × HasType (validate_operand o path subject).1 v
      × (is_empty (validate_operand o path subject).1 ≡ false)
unfolding validate_operand validate_field resolve_operand resolve_field error is_literal
operand-HasType o path subject find k h =
    elim (Bool-cases (same Str-discrete o.kind operand_field)) [
      | inr literal ↦ (
        o,
        ground (arith, h, literal),
        (ground (arith, h, literal), ground (arith, h, literal)),
        ground (arith, h, literal),
      )
      | inl e ↦ elim (Option-cases (field o.field)) [
        | inl n ↦ absurd (ground (arith, h, e, n))
        | inr (f, n) ↦ elim (Bool-cases (same Str-discrete f.subject subject)) [
          | inr other ↦ absurd (ground (arith, h, e, n, other))
          | inl own ↦
              let (v, m, w) = k o.field f n (same→eq Str-discrete f.subject subject own) in
              let typed : (validate_operand o path subject).1 ≡ f.type =
                ground (arith, e, n, own) in
              (
                v,
                ground (arith, e, n, m, w),
                rw typed (valid_field_value-HasType v f.type w),
                rw typed (valid_field_value_typed v f.type w),
              )
        ]
      ]
    ]

types_agree :
    (left right operator path : Str)
    → is_empty left ≡ false
    → is_empty right ≡ false
    → validate_types left right operator path ≡ []
    → (left ≡ right) × (allowed_operator_type left operator ≡ true)
unfolding validate_types error
types_agree left right operator path l r h = (ground (arith, l, r, h), ground (arith, l, r, h))

compare_decided :
    (c : CompareExpression) (path subject : Str) (find : FieldLookup)
    → Knows find subject
    → validate_compare c path subject ≡ []
    → evaluate_comparison c find ≢ unknown
unfolding validate_compare validate_types evaluate_comparison evaluate_values error
compare_decided c path subject find k h =
    let left_path = ptr path (codes "left") in
    let right_path = ptr path (codes "right") in
    let left = validate_operand c.left left_path subject in
    let right = validate_operand c.right right_path subject in
    let types = validate_types left.1 right.1 c.operator path in
    let (h', ht) = append_nil (left.0 ++ right.0) types h in
    let (hl, hr) = append_nil left.0 right.0 h' in
    let (l, el, (kl, vl), nl) = operand-HasType c.left left_path subject find k hl in
    let (r, er, (kr, vr), nr) = operand-HasType c.right right_path subject find k hr in
    let (same_type, allowed) = types_agree left.1 right.1 c.operator path nl nr ht in
    let same_kind : l.kind ≡ r.kind = ground (arith, kl, kr, same_type) in
    let (x, ex) = relation-some l r vl in
    λ u. decide_known left.1 c.operator x allowed (ground (arith, u, el, er, same_kind, ex))

abbrev Decided : FieldLookup → CompareExpression → Type 0
Decided find c = evaluate_comparison c find ≢ unknown

walk_nested-inner :
    (count : ℕ) (path : Str) (es : List ValidationError) → walk_nested count path es ≡ [] → es ≡ []
unfolding walk_nested error
walk_nested-inner count path es h = ground (arith, h)

-- The comparisons of a conjunction without errors.
each-Decided :
    (cs : Conditions) (i count : ℕ) (path subject : Str) (find : FieldLookup)
    → Knows find subject
    → walk_each cs i count path subject ≡ []
    → All (Decided find) (flatten_each cs)
unfolding walk_each flatten flatten_each error walk_nested
each-Decided no_more i count path subject find k h = tt
each-Decided (also (compare c) xs) i count path subject find k h =
    let here = ptr path (format_uint i) in
    let (first, rest) =
      append_nil (walk_nested (suc count) here (validate_compare c here subject))
        (walk_each xs (suc i) (suc count) path subject) h in
    let inner = walk_nested-inner (suc count) here (validate_compare c here subject) first in
    (
      compare_decided c here subject find k inner,
      each-Decided xs (suc i) (suc count) path subject find k rest,
    )
each-Decided (also nil_compare xs) i count path subject find k h =
    each-Decided xs (suc i) (suc count) path subject find k
      (append_nil _ (walk_each xs (suc i) (suc count) path subject) h).1
each-Decided (also (all cs) xs) i count path subject find k h = absurd (ground (arith, h))
each-Decided (also (all_pointer cs) xs) i count path subject find k h = absurd (ground (arith, h))
each-Decided (also nil_all xs) i count path subject find k h = absurd (ground (arith, h))
each-Decided (also nil xs) i count path subject find k h = absurd (ground (arith, h))

expression-Decided :
    (x : Expression) (path subject : Str) (find : FieldLookup)
    → Knows find subject
    → validate_expression x path subject ≡ []
    → All (Decided find) (flatten x)
unfolding validate_expression validate_all flatten flatten_each error
expression-Decided (compare c) path subject find k h = (compare_decided c path subject find k h, tt)
expression-Decided (all no_more) path subject find k h = absurd (ground (arith, h))
expression-Decided (all (also x xs)) path subject find k h =
    each-Decided (also x xs) 0 2 (ptr path (codes "conditions")) subject find k h
expression-Decided (all_pointer no_more) path subject find k h = absurd (ground (arith, h))
expression-Decided (all_pointer (also x xs)) path subject find k h =
    each-Decided (also x xs) 0 1 (ptr path (codes "conditions")) subject find k h
expression-Decided nil_compare path subject find k h = absurd (ground (arith, h))
expression-Decided nil_all path subject find k h = absurd (ground (arith, h))
expression-Decided nil path subject find k h = absurd (ground (arith, h))

-- A predicate that validation accepts for a subject is never unknown when every field of that
-- subject is known with a value of its type: all of its operands have values of one type, and its
-- operators are defined on them.
pub validated-decided :
    (x : Expression) (path subject : Str) (find : FieldLookup)
    → Knows find subject
    → validate_expression x path subject ≡ []
    → evaluate_all (flatten x) find ≢ unknown
validated-decided x path subject find k h =
    evaluate_all-known (flatten x) find (expression-Decided x path subject find k h)
