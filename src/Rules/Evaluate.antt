-- ===== src/Rules/Evaluate.antt =====
-- internal/rules/evaluate.go: the three-valued evaluation of a compiled predicate, and `flatten` of
-- internal/rules/compile.go, which compiles it. A lookup that is nil answers as one that knows no
-- field does. A compiled comparison has the fields of the expression it is compiled from.
use assembled_watchtower.Base.{
  List, [], ◌∷◌, ◌++◌, Option, none, some, Bool, true, false, not, ◌&&◌, ◌||◌, if◌then◌else◌, same,
  Str, codes, Str-discrete, str_ltb, ltb_ℤ, ℤ, pos,
}
use assembled_watchtower.Rules.Types.{
  Operand, CompareExpression, Expression, Conditions, FieldSpec, operand_field, operand_integer,
  operand_duration, operand_boolean, operand_agent_state, type_duration, type_count, type_boolean,
  type_agent_state, compare, all, all_pointer, nil_compare, nil_all, nil, no_more, also,
}
use assembled_watchtower.Rules.Catalog.{field, valid_agent_state, time_duration_invalid}

-- A uint8 that names no constant does not occur: only these are returned.
pub data PredicateResult : Type 0 where
  unknown : PredicateResult
  refuted : PredicateResult
  holds : PredicateResult

-- `none` is a field that is not known.
abbrev pub FieldLookup : Type 0
FieldLookup = FieldSpec → Option Operand

-- The sign of a Go comparison.
pub data Relation : Type 0 where
  below : Relation
  equal : Relation
  above : Relation

unfoldable pub relation_of : Bool → Bool → Relation
relation_of less greater = if less then below else if greater then above else equal

unfoldable pub compare_int : ℤ → ℤ → Relation
compare_int l r = relation_of (ltb_ℤ l r) (ltb_ℤ r l)

unfoldable pub compare_bool : Bool → Bool → Relation
compare_bool true true = equal
compare_bool false false = equal
compare_bool false true = below
compare_bool true false = above

unfoldable pub compare_string : Str → Str → Relation
compare_string l r = relation_of (str_ltb l r) (str_ltb r l)

unfoldable pub truth : Bool → PredicateResult
truth b = if b then holds else refuted

abbrev is_kind : Operand → Str → Bool
is_kind o k = same Str-discrete o.kind k

-- The comparison of two operands of one kind; `none` for a kind that has no values.
unfoldable pub relation : Operand → Operand → Option Relation
relation l r =
    if is_kind l operand_integer
    then some (compare_int l.integer r.integer)
    else if is_kind l operand_duration
    then some (compare_int l.duration r.duration)
    else if is_kind l operand_boolean
    then some (compare_bool l.boolean r.boolean)
    else if is_kind l operand_agent_state
    then some (compare_string l.agent_state r.agent_state)
    else none

abbrev pub is_below : Relation → Bool
is_below below = true
is_below _ = false

abbrev pub is_equal : Relation → Bool
is_equal equal = true
is_equal _ = false

abbrev pub is_above : Relation → Bool
is_above above = true
is_above _ = false

unfoldable pub decide : Str → Relation → PredicateResult
decide op r =
    if same Str-discrete op (codes "eq")
    then truth (is_equal r)
    else if same Str-discrete op (codes "ne")
    then truth (not (is_equal r))
    else if same Str-discrete op (codes "gt")
    then truth (is_above r)
    else if same Str-discrete op (codes "gte")
    then truth (not (is_below r))
    else if same Str-discrete op (codes "lt")
    then truth (is_below r)
    else if same Str-discrete op (codes "lte")
    then truth (not (is_above r))
    else unknown

unfoldable pub valid_field_value : Operand → Str → Bool
valid_field_value v t =
    if same Str-discrete t type_count
    then is_kind v operand_integer && not (ltb_ℤ v.integer (pos 0))
    else if same Str-discrete t type_duration
    then is_kind v operand_duration && not (time_duration_invalid v.duration)
    else if same Str-discrete t type_boolean
    then is_kind v operand_boolean
    else if same Str-discrete t type_agent_state
    then is_kind v operand_agent_state && valid_agent_state v.agent_state
    else false

-- A field's value, if it is known and of the field's type.
unfoldable pub resolve_field : FieldLookup → FieldSpec → Option Operand
resolve_field find f = elim (find f) [
  | none ↦ none
  | some v ↦ if valid_field_value v f.type then some v else none
]

unfoldable pub is_literal : Operand → Bool
is_literal o =
    is_kind o operand_integer
    || is_kind o operand_duration
    || is_kind o operand_boolean
    || is_kind o operand_agent_state

unfoldable pub resolve_operand : Operand → FieldLookup → Option Operand
resolve_operand o find =
    if not (is_kind o operand_field)
    then (if is_literal o then some o else none)
    else (elim (field o.field) [ none ↦ none | some f ↦ resolve_field find f ])

-- The comparison of resolved operands.
unfoldable pub evaluate_values : Str → Operand → Operand → PredicateResult
evaluate_values op l r =
    if not (same Str-discrete l.kind r.kind)
    then unknown
    else (elim (relation l r) [ none ↦ unknown | some c ↦ decide op c ])

unfoldable pub evaluate_comparison : CompareExpression → FieldLookup → PredicateResult
evaluate_comparison c find = elim (resolve_operand c.left find) [
  | none ↦ unknown
  | some l ↦ elim (resolve_operand c.right find) [
    | none ↦ unknown
    | some r ↦ evaluate_values c.operator l r
  ]
]

-- One round of the loop of `evaluateAll` and its rest: `seen_unknown` is the variable `unknown`.
unfoldable pub evaluate_from : Bool → List CompareExpression → FieldLookup → PredicateResult
evaluate_from seen_unknown [] find = if seen_unknown then unknown else holds
evaluate_from seen_unknown (c ∷ cs) find = elim (evaluate_comparison c find) [
  | refuted ↦ refuted
  | unknown ↦ evaluate_from true cs find
  | holds ↦ evaluate_from seen_unknown cs find
]

unfoldable pub evaluate_all : List CompareExpression → FieldLookup → PredicateResult
evaluate_all cs find = evaluate_from false cs find

unfoldable mutual
  pub flatten : Expression → List CompareExpression
  flatten (compare c) = c ∷ []
  flatten (all cs) = flatten_each cs
  flatten (all_pointer cs) = flatten_each cs
  flatten nil_compare = []
  flatten nil_all = []
  flatten nil = []

  pub flatten_each : Conditions → List CompareExpression
  flatten_each no_more = []
  flatten_each (also x xs) = flatten x ++ flatten_each xs
