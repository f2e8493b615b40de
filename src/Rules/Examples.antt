-- ===== src/Rules/Examples.antt =====
-- Predicates on concrete inputs: tests by evaluation, and the theorems at an input.
use assembled_watchtower.Base.{
  ℕ, zero, suc, map, false, ◌&&◌, ◌||◌, inr, str_ltb, ℤ-discrete, lookup-All, ◌≡◌, ◌≢◌, ◌↔◌, refl,
  [], ◌∷◌, some, none, true, Str, codes, Str-discrete, ℕ_discrete, lookup, has, same, if◌then◌else◌,
  pos, arith, All, Any,
}
use assembled_watchtower.Rules.Types.{
  Operand, CompareExpression, Expression, FieldSpec, ValidationError, subject_queue, operand_field,
  operand_integer, operand_duration, operand_boolean, operand_agent_state, type_count,
  type_duration, type_boolean, Conditions, compare, all, all_pointer, no_more, also,
}
use assembled_watchtower.Rules.Catalog.{
  field, field_catalog, valid_agent_state, time_duration_invalid,
}
use assembled_watchtower.Rules.Evaluate.{
  unknown, refuted, holds, FieldLookup, relation_of, compare_int, compare_bool, compare_string,
  truth, relation, decide, valid_field_value, resolve_field, is_literal, resolve_operand,
  evaluate_values, evaluate_comparison, evaluate_from, evaluate_all, flatten,
}
use assembled_watchtower.Rules.Validate.{
  replace_byte, ptr, error, contains, allowed_operator_type, validate_field, validate_operand,
  validate_types, validate_compare, walk_nested, walk_each, validate_all, validate_expression,
}
use assembled_watchtower.Rules.Conjunction.{Extends, evaluate_all-decided, evaluate_all-monotone}
use assembled_watchtower.Rules.Definition.{
  RuleDefinition, is_valid, validation_errors, validate_text, validate_targets, validate_selectors,
  validate_predicate, validate_duration,
}
use assembled_watchtower.Rules.Compile.{
  GroupResolver, PinnedGroup, compile, resolved_groups, pin_groups, pin_group, canonical_ids,
  distinct, drop_repeats, plan_of, all_members, has_target,
}
use assembled_watchtower.Rules.Targets.{listed, any_member, compile-has_target}
use assembled_watchtower.Base.Sort.{sort, insert_sorted}
use assembled_watchtower.Rules.Soundness.{Knows, validated-decided}
use assembled_watchtower.Rules.Size.{IsAcceptable, validate_expression-accepts_iff}

abbrev operand : Str → Operand
operand kind = record {
  kind = kind;
  field = [];
  integer = pos 5;
  duration = pos 60000000000;
  boolean = true;
  agent_state = codes "on_call";
}

abbrev field_operand : Str → Operand
field_operand name = record (operand operand_field) { field = name }

-- queue.tickets_waiting > 5
abbrev many_waiting : CompareExpression
many_waiting = record {
  left = field_operand (codes "queue.tickets_waiting");
  operator = codes "gt";
  right = operand operand_integer;
}

-- queue.longest_wait >= queue.sla_target
abbrev late : CompareExpression
late = record {
  left = field_operand (codes "queue.longest_wait");
  operator = codes "gte";
  right = field_operand (codes "queue.sla_target");
}

abbrev both : Expression
both = all (also (compare many_waiting) (also (compare late) no_more))

-- Five for a count, a minute for a duration.
abbrev constant : FieldLookup
constant f = some (
    operand (
      if same Str-discrete f.type type_count
      then operand_integer
      else if same Str-discrete f.type type_duration
      then operand_duration
      else if same Str-discrete f.type type_boolean
      then operand_boolean
      else operand_agent_state))

abbrev nothing : FieldLookup
nothing f = none

program : Unit {0}
unfolding lookup has Str-discrete ℕ_discrete field field_catalog valid_agent_state
    time_duration_invalid relation_of compare_int compare_bool compare_string truth relation decide
    valid_field_value resolve_field is_literal resolve_operand evaluate_values evaluate_comparison
    evaluate_from evaluate_all flatten replace_byte ptr error contains allowed_operator_type
    validate_field validate_operand validate_types validate_compare walk_nested walk_each
    validate_all validate_expression
program = tt

both_is_valid : validate_expression both [] subject_queue ≡ []
unfolding program
both_is_valid = refl

five_is_not_many : evaluate_all (flatten both) constant ≡ refuted
unfolding program
five_is_not_many = refl

late_holds : evaluate_all (late ∷ []) constant ≡ holds
unfolding program
late_holds = refl

nothing_known : evaluate_all (flatten both) nothing ≡ unknown
unfolding program
nothing_known = refl

-- A field that `constant` knows with a value of its type.
abbrev Answers : FieldSpec → Type 0
Answers f = (v : Operand) × (constant f ≡ some v) × (valid_field_value v f.type ≡ true)

answers : All (λ (e : Str × FieldSpec). Answers e.1) field_catalog
unfolding program
answers = (
  (_, refl, refl),
  (
    (_, refl, refl),
    (
      (_, refl, refl),
      (
        (_, refl, refl),
        (
          (_, refl, refl),
          ((_, refl, refl), ((_, refl, refl), ((_, refl, refl), ((_, refl, refl), tt)))),
        ),
      ),
    ),
  ),
)

constant-Knows : Knows constant subject_queue
constant-Knows name f h s =
    lookup-All Str-discrete Answers name f field_catalog answers (unfold field in h)

evaluate_all-decided_example :
    ((evaluate_all (flatten both) constant ≡ refuted)
      ↔ Any (λ c. evaluate_comparison c constant ≡ refuted) (flatten both))
    × ((evaluate_all (flatten both) constant ≡ holds)
        ↔ All (λ c. evaluate_comparison c constant ≡ holds) (flatten both))
evaluate_all-decided_example = evaluate_all-decided (flatten both) constant

-- What `constant` answers for durations, and no more.
abbrev durations : FieldLookup
durations f = if same Str-discrete f.type type_duration then constant f else none

durations-Extends : Extends durations constant
durations-Extends f v h = ground (arith, h)

evaluate_all-monotone_example :
    evaluate_all (late ∷ []) constant ≡ evaluate_all (late ∷ []) durations
unfolding program
evaluate_all-monotone_example =
    evaluate_all-monotone (late ∷ []) durations constant durations-Extends
      (λ (e : holds ≡ unknown). ground (arith, e))

validated-decided_example : evaluate_all (flatten both) constant ≢ unknown
validated-decided_example =
    validated-decided both [] subject_queue constant constant-Knows both_is_valid

validate_expression-accepts_iff_example :
    (validate_expression both [] subject_queue ≡ []) ↔ IsAcceptable [] subject_queue both
validate_expression-accepts_iff_example = validate_expression-accepts_iff both [] subject_queue

-- Some comparisons of the waiting tickets.
abbrev many : ℕ → Conditions
many zero = no_more
many (suc n) = also (compare many_waiting) (many n)

thirty_by_value : validate_expression (all (many 30)) [] subject_queue ≡ []
unfolding program
thirty_by_value = refl

-- The node count is above its maximum at the last comparison.
one_too_many_by_value :
    map (λ (e : ValidationError). e.code) (validate_expression (all (many 31)) [] subject_queue)
    ≡ codes "size_limit" ∷ []
unfolding program
one_too_many_by_value = refl

as_many_by_pointer : validate_expression (all_pointer (many 31)) [] subject_queue ≡ []
unfolding program
as_many_by_pointer = refl

-- Queue a by its ID, and the members b and c of a group.
abbrev definition : RuleDefinition
definition = record {
  schema_version = pos 1;
  name = codes "n";
  description = [];
  targets = record { kind = subject_queue; ids = codes "a" ∷ []; group_ids = codes "g" ∷ [] };
  trigger = record { predicate = both; duration = pos 60000000000 };
  clear = record { predicate = compare late; duration = pos 0 };
  notifications = record { on_open = true; on_recovery = false; audience = codes "x" };
}

abbrev groups : GroupResolver
groups kind id =
    some
      (record { kind = kind; revision = pos 2; members = codes "c" ∷ codes "b" ∷ codes "c" ∷ [] })

compiling : Unit {0}
unfolding program compile is_valid validation_errors validate_text validate_targets
    validate_selectors validate_predicate validate_duration resolved_groups pin_groups pin_group
    canonical_ids distinct drop_repeats sort insert_sorted str_ltb plan_of all_members has_target
    ℤ-discrete
compiling = tt

abbrev group : PinnedGroup
group = record { id = codes "g"; revision = pos 2; members = codes "b" ∷ codes "c" ∷ [] }

compiles : compile definition (some groups) ≡ inr (plan_of definition (group ∷ []))
unfolding compiling
compiles = refl

compile-has_target_example :
    has_target (plan_of definition (group ∷ [])) subject_queue (codes "c") ≡ (
      same Str-discrete subject_queue subject_queue
      && (listed (codes "c") (codes "a" ∷ [])
          || any_member (some groups) subject_queue (codes "c") (codes "g" ∷ [])))
compile-has_target_example =
    compile-has_target definition (some groups) (plan_of definition (group ∷ [])) subject_queue
      (codes "c") compiles
