-- ===== src/Rules/Types.antt =====
-- The data of internal/rules/types.go that predicates are made of. The kinds, operators and agent
-- states are strings, as in the source, which does not rule out other ones.
use assembled_watchtower.Base.{List, Bool, Str, codes, ℤ}

-- `SubjectKind`
abbrev pub subject_queue : Str
subject_queue = codes "queue"

abbrev pub subject_agent : Str
subject_agent = codes "agent"

-- `OperandKind`
abbrev pub operand_field : Str
operand_field = codes "field"

abbrev pub operand_integer : Str
operand_integer = codes "integer"

abbrev pub operand_duration : Str
operand_duration = codes "duration"

abbrev pub operand_boolean : Str
operand_boolean = codes "boolean"

abbrev pub operand_agent_state : Str
operand_agent_state = codes "agent_state"

-- `FieldType`
abbrev pub type_duration : Str
type_duration = codes "duration"

abbrev pub type_count : Str
type_count = codes "count"

abbrev pub type_boolean : Str
type_boolean = codes "boolean"

abbrev pub type_agent_state : Str
type_agent_state = codes "agent_state"

-- Integers and durations are int64, the latter in nanoseconds.
pub record Operand : Type 0 where
  pub kind : Str
  pub field : Str
  pub integer : ℤ
  pub duration : ℤ
  pub boolean : Bool
  pub agent_state : Str

pub record CompareExpression : Type 0 where
  pub left : Operand
  pub operator : Str
  pub right : Operand

-- The dynamic values of the interface `Expression`: a comparison, by value or by pointer, which
-- internal/rules treats alike; a conjunction by value and one by pointer, which validation counts
-- differently; the nil pointers to them; and the nil interface.
mutual
  pub data Expression : Type 0 where
    compare : CompareExpression → Expression
    all : Conditions → Expression
    all_pointer : Conditions → Expression
    nil_compare : Expression
    nil_all : Expression
    nil : Expression

  -- The slice in a conjunction.
  pub data Conditions : Type 0 where
    no_more : Conditions
    also : Expression → Conditions → Conditions

pub record FieldSpec : Type 0 where
  pub name : Str
  pub subject : Str
  pub type : Str
  pub operators : List Str
  pub source_projection : Str
  pub dependency : Str

pub record ValidationError : Type 0 where
  pub code : Str
  pub path : Str
  pub message : Str
