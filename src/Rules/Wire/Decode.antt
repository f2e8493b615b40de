-- ===== src/Rules/Wire/Decode.antt =====
-- The `UnmarshalJSON` methods of internal/rules/json.go, and `DecodeRuleDefinition` of
-- internal/rules/decode.go. `none` is an error; its text is left out. A struct's field that stands
-- in an object more than once has its last value, each of its values being of the field's type.
use assembled_watchtower.Base.{
  [], ◌∷◌, List, Option, none, some, Bool, true, false, ◌&&◌, if◌then◌else◌, same, Str, codes,
  Str-discrete, ℤ, pos, inl, inr,
}
use assembled_watchtower.Base.Do.{◌>>=◌, ◌>>◌, guard}
use assembled_watchtower.Json.{
  Json, Fields, null, number, array, object, no_fields, field, folds_to, last_field, read_texts,
  read_text, read_boolean,
}
use assembled_watchtower.Json.Numbers.{parse_int}
use assembled_watchtower.Rules.Types.{
  Operand, operand_field, operand_integer, operand_duration, operand_boolean, operand_agent_state,
}
use assembled_watchtower.Rules.Duration.{parse_duration}

-- The type of a struct's field: `json.RawMessage`, or a pointer to one of the others.
pub data Slot : Type 0 where
  raw string bool strings duration : Slot

unfoldable pub decode_duration : Json → Option ℤ
decode_duration j = do s ← read_text j; elim (parse_duration s) [ inl e ↦ none | inr d ↦ some d ]

unfoldable pub read_strings : Json → Option (List Str)
read_strings (array xs) = read_texts xs
read_strings _ = none

is_some : {A : Type 0} → Option A → Bool
is_some none = false
is_some (some a) = true

-- Whether a value fits a field. A pointer also takes null.
unfoldable pub fits : Slot → Json → Bool
unfolding is_some
fits raw j = true
fits _ null = true
fits string j = is_some (read_text j)
fits bool j = is_some (read_boolean j)
fits strings j = is_some (read_strings j)
fits duration j = is_some (decode_duration j)

abbrev pub Schema : Type 0
Schema = List (Str × Slot)

-- Whether a field of an object is one of the struct's, and fits it.
unfoldable pub takes : Schema → Str → Json → Bool
takes [] key v = false
takes ((name, slot) ∷ rest) key v = if folds_to key name then fits slot v else takes rest key v

unfoldable pub takes_all : Schema → Fields → Bool
takes_all schema no_fields = true
takes_all schema (field k v fs) = takes schema k v && takes_all schema fs

-- `strictObject`: null leaves all fields of the struct as they are.
unfoldable pub strict_object : Schema → Json → Option Fields
strict_object schema null = some no_fields
strict_object schema (object fs) = if takes_all schema fs then some fs else none
strict_object schema _ = none

-- A pointer's field: null is nil.
unfoldable pub present : Option Json → Option Json
present (some null) = none
present o = o

-- A field that is a pointer, or that must be neither missing nor null.
unfoldable pub member : Str → Fields → Option Json
unfolding present
member name fs = present (last_field name fs)

-- A field that must be missing.
unfoldable pub missing : Str → Fields → Bool
missing name fs = elim (last_field name fs) [ none ↦ true | some j ↦ false ]

unfoldable pub blank_operand : Str → Operand
blank_operand kind = record {
  kind = kind;
  field = [];
  integer = pos 0;
  duration = pos 0;
  boolean = false;
  agent_state = [];
}

unfoldable pub operand_schema : Schema
operand_schema = (codes "kind", string) ∷ (codes "name", raw) ∷ (codes "value", raw) ∷ []

unfoldable pub read_number : Json → Option Str
read_number (number s) = some s
read_number _ = none

-- The operands with a value.
unfoldable pub decode_value : Str → Option Json → Option Operand
decode_value kind value =
    if same Str-discrete kind operand_integer
    then (do
      v ← value
      s ← read_number v
      n ← parse_int s
      some (record (blank_operand kind) { integer = n }))
    else if same Str-discrete kind operand_duration
    then (do v ← value; d ← decode_duration v; some (record (blank_operand kind) { duration = d }))
    else if same Str-discrete kind operand_boolean
    then (do v ← value; b ← read_boolean v; some (record (blank_operand kind) { boolean = b }))
    else if same Str-discrete kind operand_agent_state
    then (do v ← value; s ← read_text v; some (record (blank_operand kind) { agent_state = s }))
    else none

-- The switch on the kind, with the fields.
unfoldable pub decode_kind : Str → Fields → Option Operand
decode_kind kind fs =
    if same Str-discrete kind operand_field
    then (do
      name ← member (codes "name") fs
      guard (missing (codes "value") fs)
      s ← read_text name
      some (record (blank_operand kind) { field = s }))
    else (do guard (missing (codes "name") fs); decode_value kind (member (codes "value") fs))

unfoldable pub decode_operand : Json → Option Operand
decode_operand j = do
  fs ← strict_object operand_schema j
  kind ← member (codes "kind") fs
  k ← read_text kind
  decode_kind k fs
