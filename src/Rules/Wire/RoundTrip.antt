-- ===== src/Rules/Wire/RoundTrip.antt =====
-- A rule definition in range has a JSON encoding, and decoding reads it back.
use assembled_watchtower.Base.{
  ℕ, suc, ◌≡◌, refl, sym, ◌∙◌, ap, Option, [], ◌∷◌, some, false, Str, codes, Str-discrete, pos,
  arith, ◌≤◌, ◌<◌, lookup, ℕ_discrete,
}
use assembled_watchtower.Ids.{format_int}
use assembled_watchtower.Json.{
  Json, Items, Fields, number, text, array, object, no_items, item, no_fields, field, lower,
  folds_to, last_field, read_text, read_boolean, read-texts,
}
use assembled_watchtower.Json.Numbers.{parse_int-format_int, max_int64}
use assembled_watchtower.Rules.Types.{
  CompareExpression, Expression, Conditions, compare, all, all_pointer, nil_compare, nil_all, nil,
  no_more, also,
}
use assembled_watchtower.Rules.Definition.{Targets, Condition, NotificationPolicy, RuleDefinition}
use assembled_watchtower.Rules.Catalog.{time_duration_invalid}
use assembled_watchtower.Rules.Size.{count_conditions}
use assembled_watchtower.Rules.Wire.Encode.{
  encode_compare, encode_all, encode_expression, encode_conditions, encode_targets,
  encode_condition, encode_notifications, described, encode_definition,
}
use assembled_watchtower.Rules.Wire.Decode.{
  strict_object, takes_all, takes, fits, present, member, missing, operand_schema, read_number,
  read_strings,
}
use assembled_watchtower.Rules.Wire.Definitions.{
  expression_schema, decode_compare, decode_envelope, decode_condition_entry, decode_conditions,
  count_items, read_items, decode_all, decode_expression_kind, decode_expression, targets_schema,
  decode_targets, condition_schema, decode_condition, notifications_schema, decode_notifications,
  definition_schema, decode_description, decode_definition,
}
use assembled_watchtower.Rules.Wire.Operands.{IsCanonicalOperand, operand_read, duration_read}

program : Unit {0}
unfolding lower folds_to last_field lookup strict_object takes_all takes fits present member missing
    operand_schema Str-discrete ℕ_discrete
program = tt

-- A comparison of operands in range.
abbrev pub IsCanonicalCompare : CompareExpression → Type 0
IsCanonicalCompare c = IsCanonicalOperand c.left × IsCanonicalOperand c.right

compare_fields : CompareExpression → Fields → Fields → Fields
compare_fields c ls rs = field (codes "kind") (text (codes "compare")) (
    field (codes "left") (object ls)
      (field (codes "op") (text c.operator) (field (codes "right") (object rs) no_fields)))

all_fields : Items → Fields
all_fields js =
    field (codes "kind") (text (codes "all")) (field (codes "conditions") (array js) no_fields)

compare_read :
    (c : CompareExpression)
    → IsCanonicalCompare c
    → (fs : Fields) × (encode_compare c ≡ some (object fs))
      × (decode_envelope (object fs) ≡ some (codes "compare", fs))
      × (decode_compare fs ≡ some c)
unfolding program encode_compare decode_envelope expression_schema decode_compare read_text
    compare_fields
compare_read c (l, r) =
    let (ls, el, dl) = operand_read c.left l in
    let (rs, er, dr) = operand_read c.right r in
    (compare_fields c ls rs, rw (el, er) refl, refl, rw (dl, dr) refl)

-- What a conjunction may hold: comparisons.
abbrev pub AreCanonical : Conditions → Type 0
AreCanonical no_more = Unit
AreCanonical (also (compare c) xs) = IsCanonicalCompare c × AreCanonical xs
AreCanonical (also _ xs) = ⊥

conditions_read :
    (cs : Conditions)
    → AreCanonical cs
    → (js : Items) × (encode_conditions cs ≡ some js)
      × (decode_conditions js ≡ some cs)
      × (count_items js ≡ count_conditions cs)
unfolding program encode_expression encode_conditions decode_conditions count_items
    decode_condition_entry count_conditions
conditions_read no_more h = (no_items, refl, refl, refl)
conditions_read (also (compare c) xs) (h, hs) =
    let (fs, e, envelope, d) = compare_read c h in
    let (js, es, ds, n) = conditions_read xs hs in
    (item (object fs) js, rw (e, es) refl, rw (envelope, d, ds) refl, ap suc n)
conditions_read (also (all _) xs) h = elim h [ ]
conditions_read (also (all_pointer _) xs) h = elim h [ ]
conditions_read (also nil_compare xs) h = elim h [ ]
conditions_read (also nil_all xs) h = elim h [ ]
conditions_read (also nil xs) h = elim h [ ]

-- A comparison, or a conjunction of at least one and fewer than 32.
abbrev pub IsCanonicalExpression : Expression → Type 0
IsCanonicalExpression (compare c) = IsCanonicalCompare c
IsCanonicalExpression (all cs) =
    AreCanonical cs × (0 < count_conditions cs) × (count_conditions cs < 32)
IsCanonicalExpression (all_pointer cs) =
    AreCanonical cs × (0 < count_conditions cs) × (count_conditions cs < 32)
IsCanonicalExpression _ = ⊥

-- The decoder gives conjunctions by pointer.
unfoldable pub pointed : Expression → Expression
pointed (all cs) = all_pointer cs
pointed x = x

-- A value has an encoding, an object, that is decoded to another value.
abbrev pub IsReadAs : {A : Type 0} → (A → Option Json) → (Json → Option A) → A → A → Type 0
IsReadAs encode decode a b =
    (fs : Fields) × (encode a ≡ some (object fs)) × (decode (object fs) ≡ some b)

expression-IsRead :
    (x : Expression)
    → IsCanonicalExpression x
    → IsReadAs encode_expression decode_expression x (pointed x)
unfolding program pointed encode_all encode_expression decode_expression decode_expression_kind
    decode_envelope expression_schema decode_all read_items read_text all_fields
expression-IsRead (compare c) h =
    let (fs, e, envelope, d) = compare_read c h in (fs, e, rw (envelope, d) refl)
expression-IsRead (all cs) (h, some_, few) =
    let (js, e, d, n) = conditions_read cs h in (all_fields js, rw e refl, ground (arith, d, n))
expression-IsRead (all_pointer cs) (h, some_, few) =
    let (js, e, d, n) = conditions_read cs h in (all_fields js, rw e refl, ground (arith, d, n))
expression-IsRead nil_compare h = elim h [ ]
expression-IsRead nil_all h = elim h [ ]
expression-IsRead nil h = elim h [ ]

targets_read : (t : Targets) → decode_targets (encode_targets t) ≡ some t
unfolding program encode_targets decode_targets targets_schema read_text read_strings
targets_read t = ground (arith, read-texts t.ids, read-texts t.group_ids)

notifications_read :
    (p : NotificationPolicy) → decode_notifications (encode_notifications p) ≡ some p
unfolding program encode_notifications decode_notifications notifications_schema read_text
    read_boolean
notifications_read p = refl

abbrev pub IsCanonicalCondition : Condition → Type 0
IsCanonicalCondition c =
    IsCanonicalExpression c.predicate × (time_duration_invalid c.duration ≡ false)

-- A condition with its predicate by pointer.
abbrev pub pointed_condition : Condition → Condition
pointed_condition c = record c { predicate = pointed c.predicate }

condition-IsRead :
    (c : Condition)
    → IsCanonicalCondition c
    → IsReadAs encode_condition decode_condition c (pointed_condition c)
unfolding program encode_condition decode_condition condition_schema
condition-IsRead c (p, v) =
    let (xs, ex, dx) = expression-IsRead c.predicate p in
    let (t, et, dt) = duration_read c.duration v in
    (
      field (codes "predicate") (object xs) (field (codes "for") (text t) no_fields),
      rw (ex, et) refl,
      ground (arith, dx, dt),
    )

definition_fields : Str → ℕ → Str → Targets → Fields → Fields → NotificationPolicy → Fields
definition_fields description version name targets trigger clear notifications =
    field (codes "schema_version") (number (format_int (pos version))) (
      field (codes "name") (text name) (
        described description (
          field (codes "targets") (encode_targets targets) (
            field (codes "trigger") (object trigger) (
              field (codes "clear") (object clear)
                (field (codes "notifications") (encode_notifications notifications) no_fields))))))

-- What the encodings of the parts are decoded to makes the definition.
fields_read :
    (d : Str) (v : ℕ) (n : Str) (t : Targets) (ons offs : Fields) (on off : Condition)
    (p : NotificationPolicy)
    → v ≤ max_int64
    → decode_condition (object ons) ≡ some on
    → decode_condition (object offs) ≡ some off
    → decode_definition (object (definition_fields d v n t ons offs p))
      ≡ some (record {
        schema_version = pos v;
        name = n;
        description = d;
        targets = t;
        trigger = on;
        clear = off;
        notifications = p;
      })
unfolding program definition_fields described decode_definition definition_schema read_text
    read_number decode_description encode_targets encode_notifications
fields_read [] v n t ons offs on off p h eon eoff =
    ground (arith, parse_int-format_int v h, targets_read t, notifications_read p, eon, eoff)
fields_read (c ∷ d) v n t ons offs on off p h eon eoff =
    ground (arith, parse_int-format_int v h, targets_read t, notifications_read p, eon, eoff)

-- A definition whose numbers are in range, and whose operands use one field each.
pub record IsCanonical (r : RuleDefinition) : Type 0 where
  pub version : (n : ℕ) × (n ≤ max_int64) × (r.schema_version ≡ pos n)
  pub trigger : IsCanonicalCondition r.trigger
  pub clear : IsCanonicalCondition r.clear

-- A definition with its predicates by pointer.
abbrev pub pointed_definition : RuleDefinition → RuleDefinition
pointed_definition r = record r {
  trigger = pointed_condition r.trigger;
  clear = pointed_condition r.clear;
}

-- A rule definition whose version is a nonnegative int64, whose durations and operands are in range,
-- and whose predicates are comparisons or conjunctions, by value or by pointer, of 1 to 31
-- comparisons, each operand using the field of its kind only, has a JSON encoding, which is decoded
-- to the definition, with a pointer for a conjunction by value and all else as it was.
pub decode-encode_definition :
    (r : RuleDefinition)
    → IsCanonical r
    → (j : Json) × (encode_definition r ≡ some j)
      × (decode_definition j ≡ some (pointed_definition r))
unfolding encode_definition
decode-encode_definition r c =
    let (v, h, e) = c.version in
    let (ons, eon, don) = condition-IsRead r.trigger c.trigger in
    let (offs, eoff, doff) = condition-IsRead r.clear c.clear in
    (
      object (definition_fields r.description v r.name r.targets ons offs r.notifications),
      unfold definition_fields in rw (e, eon, eoff) refl,
      fields_read r.description v r.name r.targets ons offs (pointed_condition r.trigger)
            (pointed_condition r.clear) r.notifications h don doff
          ∙ ap (λ z. some (record (pointed_definition r) { schema_version = z })) (sym e),
    )
