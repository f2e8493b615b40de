-- ===== src/Rules/Wire/Encode.antt =====
-- The `MarshalJSON` methods of internal/rules/json.go, and the encoding that encoding/json gives to
-- the structs without one. `none` is an error.
use assembled_watchtower.Base.{
  Option, none, some, if◌then◌else◌, same, Str, codes, Str-discrete, ℤ, is_empty,
}
use assembled_watchtower.Base.Do.{◌>>=◌}
use assembled_watchtower.Ids.{format_int}
use assembled_watchtower.Json.{
  Json, Items, Fields, null, boolean, number, text, array, object, no_items, item, no_fields, field,
  texts,
}
use assembled_watchtower.Rules.Types.{
  Operand, CompareExpression, Expression, Conditions, operand_field, operand_integer,
  operand_duration, operand_boolean, operand_agent_state, compare, all, all_pointer, nil_compare,
  nil_all, nil, no_more, also,
}
use assembled_watchtower.Rules.Duration.{canonical_duration_string}
use assembled_watchtower.Rules.Definition.{Targets, Condition, NotificationPolicy, RuleDefinition}

-- `MarshalJSON` of a duration.
unfoldable pub encode_duration : ℤ → Option Json
encode_duration d = do s ← canonical_duration_string d; some (text s)

-- An operand's kind, and its name or value under a key.
unfoldable pub kinded : Str → Str → Json → Json
kinded kind key value = object (field (codes "kind") (text kind) (field key value no_fields))

unfoldable pub encode_operand : Operand → Option Json
unfolding kinded
encode_operand o =
    if same Str-discrete o.kind operand_field
    then some (kinded o.kind (codes "name") (text o.field))
    else if same Str-discrete o.kind operand_integer
    then some (kinded o.kind (codes "value") (number (format_int o.integer)))
    else if same Str-discrete o.kind operand_duration
    then (do d ← encode_duration o.duration; some (kinded o.kind (codes "value") d))
    else if same Str-discrete o.kind operand_boolean
    then some (kinded o.kind (codes "value") (boolean o.boolean))
    else if same Str-discrete o.kind operand_agent_state
    then some (kinded o.kind (codes "value") (text o.agent_state))
    else none

unfoldable pub encode_compare : CompareExpression → Option Json
encode_compare c = do
  left ← encode_operand c.left
  right ← encode_operand c.right
  some (
      object (
        field (codes "kind") (text (codes "compare")) (
          field (codes "left") left
            (field (codes "op") (text c.operator) (field (codes "right") right no_fields)))))

-- `MarshalJSON` of a conjunction, given its encoded conditions.
unfoldable pub encode_all : Items → Json
encode_all items =
    object (
      field (codes "kind") (text (codes "all"))
        (field (codes "conditions") (array items) no_fields))

-- A nil pointer and the nil interface are null.
unfoldable mutual
  pub encode_expression : Expression → Option Json
  encode_expression (compare c) = encode_compare c
  encode_expression (all cs) = do items ← encode_conditions cs; some (encode_all items)
  encode_expression (all_pointer cs) = do items ← encode_conditions cs; some (encode_all items)
  encode_expression nil_compare = some null
  encode_expression nil_all = some null
  encode_expression nil = some null

  pub encode_conditions : Conditions → Option Items
  encode_conditions no_more = some no_items
  encode_conditions (also x xs) = do
    j ← encode_expression x
    js ← encode_conditions xs
    some (item j js)

unfoldable pub encode_targets : Targets → Json
encode_targets t = object (
    field (codes "kind") (text t.kind) (
      field (codes "ids") (array (texts t.ids))
        (field (codes "group_ids") (array (texts t.group_ids)) no_fields)))

unfoldable pub encode_condition : Condition → Option Json
encode_condition c = do
  predicate ← encode_expression c.predicate
  duration ← encode_duration c.duration
  some (object (field (codes "predicate") predicate (field (codes "for") duration no_fields)))

unfoldable pub encode_notifications : NotificationPolicy → Json
encode_notifications n = object (
    field (codes "on_open") (boolean n.on_open) (
      field (codes "on_recovery") (boolean n.on_recovery)
        (field (codes "audience") (text n.audience) no_fields)))

-- `omitempty`
unfoldable pub described : Str → Fields → Fields
described d fs = if is_empty d then fs else field (codes "description") (text d) fs

unfoldable pub encode_definition : RuleDefinition → Option Json
encode_definition r = do
  trigger ← encode_condition r.trigger
  clear ← encode_condition r.clear
  some (
      object (
        field (codes "schema_version") (number (format_int r.schema_version)) (
          field (codes "name") (text r.name) (
            described r.description (
              field (codes "targets") (encode_targets r.targets) (
                field (codes "trigger") trigger (
                  field (codes "clear") clear (
                    field (codes "notifications") (encode_notifications r.notifications)
                      no_fields))))))))
