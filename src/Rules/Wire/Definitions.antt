-- ===== src/Rules/Wire/Definitions.antt =====
-- The `UnmarshalJSON` methods of internal/rules/json.go for expressions and definitions, and
-- `DecodeRuleDefinition` of internal/rules/decode.go.
use assembled_watchtower.Base.{
  ℕ, suc, ◌+◌, [], ◌∷◌, Option, none, some, not, ◌&&◌, ltb, if◌then◌else◌, same, Str, codes,
  Str-discrete,
}
use assembled_watchtower.Base.Do.{◌>>=◌, ◌>>◌, guard}
use assembled_watchtower.Json.{
  Json, Items, Fields, array, no_items, item, last_field, read_text, read_boolean,
}
use assembled_watchtower.Json.Numbers.{parse_int}
use assembled_watchtower.Rules.Types.{
  CompareExpression, Expression, Conditions, compare, all_pointer, no_more, also,
}
use assembled_watchtower.Rules.Definition.{
  Targets, Condition, NotificationPolicy, RuleDefinition, is_valid,
}
use assembled_watchtower.Rules.Validate.{max_expression_nodes}
use assembled_watchtower.Rules.Wire.Decode.{
  raw, string, bool, strings, duration, Schema, strict_object, member, missing, read_number,
  read_strings, decode_duration, decode_operand,
}

-- `expressionEnvelope`
unfoldable pub expression_schema : Schema
expression_schema =
    (codes "kind", string)
    ∷ (codes "left", raw)
    ∷ (codes "op", raw)
    ∷ (codes "right", raw)
    ∷ (codes "conditions", raw)
    ∷ []

unfoldable pub decode_compare : Fields → Option CompareExpression
decode_compare fs = do
  guard (missing (codes "conditions") fs)
  left ← member (codes "left") fs
  op ← member (codes "op") fs
  right ← member (codes "right") fs
  operator ← read_text op
  l ← decode_operand left
  r ← decode_operand right
  some (record { left = l; operator = operator; right = r })

-- An envelope and its kind.
unfoldable pub decode_envelope : Json → Option (Str × Fields)
decode_envelope j = do
  fs ← strict_object expression_schema j
  kind ← member (codes "kind") fs
  k ← read_text kind
  some (k, fs)

-- An entry of a conjunction: a conjunction there is decoded and then refused, so that a
-- comparison is all that remains.
unfoldable pub decode_condition_entry : Json → Option Expression
decode_condition_entry j = do
  (k, fs) ← decode_envelope j
  guard (same Str-discrete k (codes "compare"))
  c ← decode_compare fs
  some (compare c)

unfoldable pub decode_conditions : Items → Option Conditions
decode_conditions no_items = some no_more
decode_conditions (item j js) = do
  x ← decode_condition_entry j
  xs ← decode_conditions js
  some (also x xs)

unfoldable pub count_items : Items → ℕ
count_items no_items = 0
count_items (item j js) = suc (count_items js)

unfoldable pub read_items : Json → Option Items
read_items (array xs) = some xs
read_items _ = none

unfoldable pub decode_all : Fields → Option Conditions
decode_all fs = do
  guard (missing (codes "left") fs && missing (codes "op") fs && missing (codes "right") fs)
  conditions ← member (codes "conditions") fs
  items ← read_items conditions
  guard (ltb 0 (count_items items) && not (ltb max_expression_nodes (count_items items + 1)))
  decode_conditions items

unfoldable pub decode_expression_kind : Str → Fields → Option Expression
decode_expression_kind k fs =
    if same Str-discrete k (codes "compare")
    then (do c ← decode_compare fs; some (compare c))
    else if same Str-discrete k (codes "all")
    then (do cs ← decode_all fs; some (all_pointer cs))
    else none

unfoldable pub decode_expression : Json → Option Expression
decode_expression j = do (k, fs) ← decode_envelope j; decode_expression_kind k fs

unfoldable pub targets_schema : Schema
targets_schema = (codes "kind", string) ∷ (codes "ids", strings) ∷ (codes "group_ids", strings) ∷ []

unfoldable pub decode_targets : Json → Option Targets
decode_targets j = do
  fs ← strict_object targets_schema j
  kind ← member (codes "kind") fs
  k ← read_text kind
  ids ← member (codes "ids") fs
  group_ids ← member (codes "group_ids") fs
  is ← read_strings ids
  gs ← read_strings group_ids
  some (record { kind = k; ids = is; group_ids = gs })

unfoldable pub condition_schema : Schema
condition_schema = (codes "predicate", raw) ∷ (codes "for", duration) ∷ []

unfoldable pub decode_condition : Json → Option Condition
decode_condition j = do
  fs ← strict_object condition_schema j
  predicate ← member (codes "predicate") fs
  held ← member (codes "for") fs
  x ← decode_expression predicate
  d ← decode_duration held
  some (record { predicate = x; duration = d })

unfoldable pub notifications_schema : Schema
notifications_schema =
    (codes "on_open", bool) ∷ (codes "on_recovery", bool) ∷ (codes "audience", string) ∷ []

unfoldable pub decode_notifications : Json → Option NotificationPolicy
decode_notifications j = do
  fs ← strict_object notifications_schema j
  on_open ← member (codes "on_open") fs
  on_recovery ← member (codes "on_recovery") fs
  audience ← member (codes "audience") fs
  o ← read_boolean on_open
  r ← read_boolean on_recovery
  a ← read_text audience
  some (record { on_open = o; on_recovery = r; audience = a })

unfoldable pub definition_schema : Schema
definition_schema =
    (codes "schema_version", raw)
    ∷ (codes "name", raw)
    ∷ (codes "description", raw)
    ∷ (codes "targets", raw)
    ∷ (codes "trigger", raw)
    ∷ (codes "clear", raw)
    ∷ (codes "notifications", raw)
    ∷ []

-- The description may be missing, but not null.
unfoldable pub decode_description : Option Json → Option Str
decode_description none = some []
decode_description (some j) = read_text j

unfoldable pub decode_definition : Json → Option RuleDefinition
decode_definition j = do
  fs ← strict_object definition_schema j
  version ← member (codes "schema_version") fs
  name ← member (codes "name") fs
  targets ← member (codes "targets") fs
  trigger ← member (codes "trigger") fs
  clear ← member (codes "clear") fs
  notifications ← member (codes "notifications") fs
  digits ← read_number version
  v ← parse_int digits
  n ← read_text name
  t ← decode_targets targets
  on ← decode_condition trigger
  off ← decode_condition clear
  policy ← decode_notifications notifications
  d ← decode_description (last_field (codes "description") fs)
  some (record {
    schema_version = v;
    name = n;
    description = d;
    targets = t;
    trigger = on;
    clear = off;
    notifications = policy;
  })

-- `DecodeRuleDefinition`: decoding, then validation.
unfoldable pub decode_rule_definition : Json → Option RuleDefinition
decode_rule_definition j = do r ← decode_definition j; guard (is_valid r); some r
