-- ===== src/Rules/Wire/Operands.antt =====
-- An operand whose value is in range has a JSON encoding, and decoding reads it back.
use assembled_watchtower.Base.{
  ℕ, ◌≡◌, refl, sym, subst, Option, some, Bool, false, Str, codes, Str-discrete, ℤ, pos, arith, ◌≤◌,
  lookup, ℕ_discrete, ◌⊎◌, inl, inr,
}
use assembled_watchtower.Json.{
  Json, Fields, text, object, no_fields, field, lower, folds_to, last_field, read_text,
  read_boolean,
}
use assembled_watchtower.Json.Numbers.{parse_int-format_int, max_int64}
use assembled_watchtower.Rules.Types.{
  Operand, operand_field, operand_integer, operand_duration, operand_boolean, operand_agent_state,
}
use assembled_watchtower.Rules.Catalog.{time_duration_invalid}
use assembled_watchtower.Rules.Duration.RoundTrip.{parse-canonical_duration}
use assembled_watchtower.Rules.Wire.Encode.{encode_duration, encode_operand}
use assembled_watchtower.Rules.Wire.Decode.{
  strict_object, takes_all, takes, fits, present, member, missing, operand_schema, blank_operand,
  decode_value, decode_kind, decode_operand, read_number, decode_duration,
}

program : Unit {0}
unfolding lower folds_to last_field lookup strict_object takes_all takes fits present member missing
    operand_schema Str-discrete ℕ_discrete
program = tt

pub duration_read :
    (d : ℤ)
    → time_duration_invalid d ≡ false
    → (t : Str) × (encode_duration d ≡ some (text t)) × (decode_duration (text t) ≡ some d)
unfolding encode_duration decode_duration read_text
duration_read d h =
    let (t, e, p) = parse-canonical_duration d h in (t, ground (arith, e), ground (arith, p))

-- The fields that its kind does not use are the zero values, and its value is in range.
abbrev pub IsCanonicalOperand : Operand → Type 0
IsCanonicalOperand o =
    (o ≡ record (blank_operand operand_field) { field = o.field })
    ⊎ ((n : ℕ) × (n ≤ max_int64) × (o ≡ record (blank_operand operand_integer) { integer = pos n }))
    ⊎ ((time_duration_invalid o.duration ≡ false)
        × (o ≡ record (blank_operand operand_duration) { duration = o.duration }))
    ⊎ (o ≡ record (blank_operand operand_boolean) { boolean = o.boolean })
    ⊎ (o ≡ record (blank_operand operand_agent_state) { agent_state = o.agent_state })

-- The encoding is an object, and decoding it gives the value.
abbrev pub IsRead {ℓ} : {A : Type ℓ} → (A → Option Json) → (Json → Option A) → A → Type ℓ
IsRead encode decode a =
    (fs : Fields) × (encode a ≡ some (object fs)) × (decode (object fs) ≡ some a)

abbrev pub OperandIsRead : Operand → Type 0
OperandIsRead = IsRead encode_operand decode_operand

field_read : (s : Str) → OperandIsRead (record (blank_operand operand_field) { field = s })
unfolding program encode_operand decode_operand decode_kind blank_operand read_text
field_read s = (_, refl, refl)

integer_read :
    (n : ℕ)
    → n ≤ max_int64
    → OperandIsRead (record (blank_operand operand_integer) { integer = pos n })
unfolding program encode_operand decode_operand decode_kind decode_value blank_operand read_text
    read_number
integer_read n h = (_, refl, rw (parse_int-format_int n h) refl)

span_read :
    (d : ℤ)
    → time_duration_invalid d ≡ false
    → OperandIsRead (record (blank_operand operand_duration) { duration = d })
unfolding program encode_operand decode_operand decode_kind decode_value blank_operand read_text
span_read d h =
    let (t, e, p) = duration_read d h in
    (
      field (codes "kind") (text operand_duration) (field (codes "value") (text t) no_fields),
      rw e refl,
      rw p refl,
    )

boolean_read : (b : Bool) → OperandIsRead (record (blank_operand operand_boolean) { boolean = b })
unfolding program encode_operand decode_operand decode_kind decode_value blank_operand read_text
    read_boolean
boolean_read b = (_, refl, refl)

agent_state_read :
    (s : Str) → OperandIsRead (record (blank_operand operand_agent_state) { agent_state = s })
unfolding program encode_operand decode_operand decode_kind decode_value blank_operand read_text
agent_state_read s = (_, refl, refl)

pub operand_read : (o : Operand) → IsCanonicalOperand o → OperandIsRead o
operand_read o (inl e) = subst OperandIsRead (sym e) (field_read o.field)
operand_read o (inr (inl (n, h, e))) = subst OperandIsRead (sym e) (integer_read n h)
operand_read o (inr (inr (inl (h, e)))) = subst OperandIsRead (sym e) (span_read o.duration h)
operand_read o (inr (inr (inr (inl e)))) = subst OperandIsRead (sym e) (boolean_read o.boolean)
operand_read o (inr (inr (inr (inr e)))) =
    subst OperandIsRead (sym e) (agent_state_read o.agent_state)
