-- ===== src/Rules/Validate.antt =====
-- The validation of predicates in internal/rules/validate.go: `validateExpression`,
-- `validateCompare` and `validateOperand`. A function returns the errors that it adds, in order.
use assembled_watchtower.Base.{
  ℕ, suc, List, [], ◌∷◌, ◌++◌, Option, none, some, Bool, false, not, ◌||◌, ltb, if◌then◌else◌, same,
  Str, codes, Str-discrete, ltb_ℤ, pos, is_empty, ◌==◌,
}
use assembled_watchtower.Ids.{format_uint}
use assembled_watchtower.Rules.Types.{
  Operand, CompareExpression, Expression, Conditions, FieldSpec, ValidationError, operand_field,
  operand_integer, operand_duration, operand_boolean, operand_agent_state, type_duration,
  type_count, type_boolean, type_agent_state, compare, all, all_pointer, nil_compare, nil_all, nil,
  no_more, also,
}
use assembled_watchtower.Rules.Catalog.{
  field, valid_agent_state, time_duration_invalid, all_operators,
}

-- `strings.ReplaceAll` of one byte.
unfoldable pub replace_byte : ℕ → Str → Str → Str
replace_byte old by [] = []
replace_byte old by (c ∷ cs) = (if c == old then by else c ∷ []) ++ replace_byte old by cs

-- A step of a JSON pointer: `~` is escaped first, then `/`.
unfoldable pub ptr : Str → Str → Str
ptr base part =
    base ++ codes "/" ++ replace_byte 47 (codes "~1") (replace_byte 126 (codes "~0") part)

-- `add`, as the list of the one error added.
unfoldable pub error : Str → Str → Str → List ValidationError
error code path message = record { code = code; path = path; message = message } ∷ []

unfoldable pub contains : List Str → Str → Bool
contains [] x = false
contains (v ∷ vs) x = same Str-discrete x v || contains vs x

unfoldable pub allowed_operator_type : Str → Str → Bool
allowed_operator_type t op =
    if same Str-discrete t type_duration || same Str-discrete t type_count
    then contains all_operators op
    else if same Str-discrete t type_boolean || same Str-discrete t type_agent_state
    then same Str-discrete op (codes "eq") || same Str-discrete op (codes "ne")
    else false

-- A field must be in the catalog and apply to the subject.
unfoldable pub validate_field : Option FieldSpec → Str → Str → List ValidationError × Str
validate_field none path subject =
    (error (codes "unknown_field_name") (ptr path (codes "name")) (codes "unknown field"), [])
validate_field (some f) path subject =
    if same Str-discrete f.subject subject then ([], f.type) else (
      error (codes "subject_mismatch") (ptr path (codes "name"))
          (codes "field does not apply to target subject"),
      [],
    )

-- The errors of an operand and its type, which is empty if it has none.
unfoldable pub validate_operand : Operand → Str → Str → List ValidationError × Str
validate_operand o path subject =
    if same Str-discrete o.kind operand_field
    then validate_field (field o.field) path subject
    else if same Str-discrete o.kind operand_integer
    then (
      if ltb_ℤ o.integer (pos 0)
          then error (codes "invalid_value") (ptr path (codes "value"))
              (codes "count/integer cannot be negative")
          else [],
      type_count,
    )
    else if same Str-discrete o.kind operand_duration
    then (
      if time_duration_invalid o.duration
          then error (codes "invalid_duration") (ptr path (codes "value"))
              (codes "invalid duration")
          else [],
      type_duration,
    )
    else if same Str-discrete o.kind operand_boolean
    then ([], type_boolean)
    else if same Str-discrete o.kind operand_agent_state
    then (
      if not (valid_agent_state o.agent_state)
          then error (codes "invalid_value") (ptr path (codes "value"))
              (codes "unknown agent state")
          else [],
      type_agent_state,
    )
    else (error (codes "unsupported_operand") path (codes "unsupported operand kind"), [])

-- The tests of `validateCompare` on the types of its operands.
unfoldable pub validate_types : Str → Str → Str → Str → List ValidationError
validate_types left right operator path =
    if is_empty left || is_empty right
    then []
    else if not (same Str-discrete left right)
    then error (codes "operand_type_mismatch") path
        (codes "comparison operands must have compatible types")
    else if not (allowed_operator_type left operator)
    then error (codes "invalid_operator") (ptr path (codes "op"))
        (codes "operator is not allowed for this type")
    else []

unfoldable pub validate_compare : CompareExpression → Str → Str → List ValidationError
validate_compare e path subject =
    let (left_errors, left) = validate_operand e.left (ptr path (codes "left")) subject in
    let (right_errors, right) = validate_operand e.right (ptr path (codes "right")) subject in
    left_errors ++ right_errors ++ validate_types left right e.operator path

-- `MaxExpressionNodes`
abbrev pub max_expression_nodes : ℕ
max_expression_nodes = 32

-- A node below a conjunction: `walk` counts it, and looks at no more than 32 nodes.
unfoldable pub walk_nested : ℕ → Str → List ValidationError → List ValidationError
walk_nested count path errors =
    if ltb max_expression_nodes count
    then error (codes "size_limit") path (codes "expression exceeds maximum node count")
    else errors

nil_error : Str → List ValidationError
nil_error path = error (codes "unsupported_expression") path (codes "expression cannot be nil")

not_a_compare : Str → List ValidationError
not_a_compare path =
    error (codes "unsupported_expression") path (codes "all may contain compare expressions only")

-- The loop of `walk` over a conjunction: `i` is the index, `count` counts the nodes so far.
unfoldable pub walk_each : Conditions → ℕ → ℕ → Str → Str → List ValidationError
unfolding nil_error not_a_compare
walk_each no_more i count path subject = []
walk_each (also (compare c) xs) i count path subject =
    walk_nested (suc count) (ptr path (format_uint i))
      (validate_compare c (ptr path (format_uint i)) subject)
    ++ walk_each xs (suc i) (suc count) path subject
walk_each (also nil_compare xs) i count path subject =
    walk_nested (suc count) (ptr path (format_uint i)) (nil_error (ptr path (format_uint i)))
    ++ walk_each xs (suc i) (suc count) path subject
walk_each (also (all cs) xs) i count path subject =
    not_a_compare (ptr path (format_uint i)) ++ walk_each xs (suc i) count path subject
walk_each (also (all_pointer cs) xs) i count path subject =
    not_a_compare (ptr path (format_uint i)) ++ walk_each xs (suc i) count path subject
walk_each (also nil_all xs) i count path subject =
    not_a_compare (ptr path (format_uint i)) ++ walk_each xs (suc i) count path subject
walk_each (also nil xs) i count path subject =
    not_a_compare (ptr path (format_uint i)) ++ walk_each xs (suc i) count path subject

-- A conjunction by pointer at the root, where `count` nodes have been counted. One without conditions
-- is refused.
unfoldable pub validate_all : Conditions → ℕ → Str → Str → List ValidationError
validate_all no_more count path subject =
    error (codes "unsupported_expression") (ptr path (codes "conditions"))
      (codes "all requires at least one condition")
validate_all (also x xs) count path subject =
    walk_each (also x xs) 0 count (ptr path (codes "conditions")) subject

-- `walk` at the root, which is the first node. A conjunction by value is walked again by pointer, and
-- so counted twice.
unfoldable pub validate_expression : Expression → Str → Str → List ValidationError
unfolding nil_error
validate_expression (compare c) path subject = validate_compare c path subject
validate_expression (all cs) path subject = validate_all cs 2 path subject
validate_expression (all_pointer cs) path subject = validate_all cs 1 path subject
validate_expression nil_compare path subject = nil_error path
validate_expression nil_all path subject = nil_error path
validate_expression nil path subject =
    error (codes "unsupported_expression") path (codes "unsupported expression")
