-- ===== src/Rules/Wire/Examples.antt =====
-- A rule definition, its JSON text and its durations at concrete inputs: tests by evaluation, and
-- the theorems at an input.
use assembled_watchtower.Base.{
  ◌≡◌, refl, [], ◌∷◌, inl, inr, some, true, false, Str, codes, Str-discrete, ℕ_discrete, pos, arith,
}
use assembled_watchtower.Json.{
  Json, object, text, boolean, field, no_fields, lower, folds_to, last_field, read_text,
  read_boolean,
}
use assembled_watchtower.Rules.Types.{
  CompareExpression, subject_queue, operand_field, operand_integer, compare,
}
use assembled_watchtower.Rules.Catalog.{time_duration_invalid}
use assembled_watchtower.Rules.Definition.{RuleDefinition}
use assembled_watchtower.Rules.Duration.{
  parse_duration, parse_units, is_decimal, split_last, unit_of, scale, canonical_duration_string,
}
use assembled_watchtower.Rules.Duration.RoundTrip.{parse-canonical_duration, parse_duration-bounds}
use assembled_watchtower.Ids.Decimal.{value_from}
use assembled_watchtower.Rules.Wire.Encode.{encode_definition}
use assembled_watchtower.Rules.Wire.Decode.{
  blank_operand, strict_object, takes_all, takes, fits, member, present,
}
use assembled_watchtower.Rules.Wire.Definitions.{
  decode_definition, decode_notifications, notifications_schema,
}
use assembled_watchtower.Rules.Wire.RoundTrip.{
  IsCanonical, pointed_definition, decode-encode_definition,
}

abbrev waiting : Str → CompareExpression
waiting op = record {
  left = record (blank_operand operand_field) { field = codes "queue.tickets_waiting" };
  operator = op;
  right = record (blank_operand operand_integer) { integer = pos 5 };
}

-- More than five tickets waiting for a minute.
abbrev pub waiting_rule : RuleDefinition
waiting_rule = record {
  schema_version = pos 1;
  name = codes "n";
  description = [];
  targets = record { kind = subject_queue; ids = codes "billing" ∷ []; group_ids = [] };
  trigger = record { predicate = compare (waiting (codes "gt")); duration = pos 60000000000 };
  clear = record { predicate = compare (waiting (codes "lte")); duration = pos 0 };
  notifications = record { on_open = true; on_recovery = false; audience = codes "x" };
}

waiting_rule-IsCanonical : IsCanonical waiting_rule
unfolding time_duration_invalid blank_operand
waiting_rule-IsCanonical = record {
  version = (1, omega arith, refl);
  trigger = ((inl refl, inr (inl (5, omega arith, refl))), refl);
  clear = ((inl refl, inr (inl (5, omega arith, refl))), refl);
}

decode-encode_definition_example :
    (j : Json) × (encode_definition waiting_rule ≡ some j)
    × (decode_definition j ≡ some (pointed_definition waiting_rule))
decode-encode_definition_example = decode-encode_definition waiting_rule waiting_rule-IsCanonical

in_range : time_duration_invalid (pos 5400000000000) ≡ false
unfolding time_duration_invalid
in_range = refl

parse-canonical_duration_example :
    (s : Str) × (canonical_duration_string (pos 5400000000000) ≡ some s)
    × (parse_duration s ≡ inr (pos 5400000000000))
parse-canonical_duration_example = parse-canonical_duration (pos 5400000000000) in_range

ninety_minutes : parse_duration (codes "90m") ≡ inr (pos 5400000000000)
unfolding parse_duration parse_units is_decimal split_last unit_of scale value_from
ninety_minutes = refl

parse_duration-bounds_example : time_duration_invalid (pos 5400000000000) ≡ false
parse_duration-bounds_example =
    parse_duration-bounds (codes "90m") (pos 5400000000000) ninety_minutes

-- A field that stands twice, the second time in capitals: the last value counts.
said_twice :
    decode_notifications (
      object (
        field (codes "on_open") (boolean true) (
          field (codes "on_recovery") (boolean false) (
            field
              (codes "audience")
              (text (codes "x"))
              (field (codes "ON_OPEN") (boolean false) no_fields)))))
    ≡ some (record { on_open = false; on_recovery = false; audience = codes "x" })
unfolding decode_notifications strict_object takes_all takes fits member present
    notifications_schema folds_to lower last_field read_text read_boolean Str-discrete ℕ_discrete
said_twice = refl
