-- ===== src/Evaluation/Examples.antt =====
-- The runtime with two rules on concrete inputs: tests by evaluation, and the theorems at an input.
use assembled_watchtower.Base.{
  ℕ, ◌+◌, ◌*◌, ◌≡◌, refl, List, [], ◌∷◌, none, some, inr, true, Str, codes, pos, Str-discrete,
  str_ltb, ℤ-discrete, ℕ_discrete, lookup, insert, has, Unique, map, arith,
}
use assembled_watchtower.Base.Sort.{sort, insert_sorted}
use assembled_watchtower.Base.Time.{Time, zero_time}
use assembled_watchtower.Ids.{canonical_parts, hex_encode, format_int}
use assembled_watchtower.Json.{Json}
use assembled_watchtower.Rules.Types.{subject_queue, operand_integer}
use assembled_watchtower.Rules.Catalog.{
  field, field_catalog, valid_agent_state, time_duration_invalid,
}
use assembled_watchtower.Rules.Evaluate.{
  relation_of, compare_int, truth, relation, decide, valid_field_value, resolve_field, is_literal,
  resolve_operand, evaluate_values, evaluate_comparison, evaluate_from, evaluate_all, flatten,
}
use assembled_watchtower.Rules.Validate.{
  replace_byte, ptr, error, contains, allowed_operator_type, validate_field, validate_operand,
  validate_types, validate_compare, walk_nested, walk_each, validate_all, validate_expression,
}
use assembled_watchtower.Rules.Definition.{
  is_valid, validation_errors, validate_text, validate_targets, validate_selectors,
  validate_predicate, validate_duration,
}
use assembled_watchtower.Rules.Compile.{
  CompiledPlan, compile, resolved_groups, canonical_ids, distinct, drop_repeats, plan_of,
  all_members, has_target,
}
use assembled_watchtower.Rules.Duration.{canonical_duration_string, duration_text}
use assembled_watchtower.Rules.Wire.Encode.{
  encode_definition, encode_condition, encode_expression, encode_compare, encode_operand,
  encode_duration, encode_targets, encode_notifications, described,
}
use assembled_watchtower.Rules.Wire.Decode.{blank_operand}
use assembled_watchtower.Rules.Wire.Examples.{waiting_rule}
use assembled_watchtower.Events.Types.{Event, queue_snapshot, common_of, get_event_id}
use assembled_watchtower.App.Occurrence.{validate, validate_event, event_effective_at}
use assembled_watchtower.Conditions.Enums.{
  Result, Direction, Result-discrete, Direction-discrete, Phase-discrete,
}
use assembled_watchtower.Conditions.Types.{
  ConditionKey-discrete, Observation, Transition, direction_for, phase_for, direction_string,
}
use assembled_watchtower.Conditions.Timers.{
  timers, pending_timers, timer_of, duration_for, is_pending, less_timer, less_key,
}
use assembled_watchtower.Conditions.Reducer.{
  new, apply, advance, advance_loop, commit, commit_timer, choose, matches, tracker, put, settled,
  committed, observe, start, withdraw, refresh, ignored, fire, fires, other_revision, is_direction,
  is_result, is_trigger, is_clear, already_seen, mark_seen, processing_time, with_effective,
  interval_start, timer_observation, record_episode, opened, tick,
}
use assembled_watchtower.App.Request.{
  ActiveRule, EvaluationRequest, EvaluationResult, less_rule, same_rule, repeats, validate_rule,
  validate_rules, validate_times, new_evaluation_request, is_active, validate_observation,
  direction_number, less_observation, validate_observations, new_evaluation_result,
}
use assembled_watchtower.Evaluation.Types.{RuleKey, RuleKey-discrete, Activation, Runtime}
use assembled_watchtower.Evaluation.Activate.{
  activate, activate_rules, activate_rule, key_of, config_of, definition_signature,
}
use assembled_watchtower.Evaluation.Clock.{
  beats, scan_timers, scan_entries, next_due, fire_at, fire_loop, synchronize, all_timers,
  advance_runtime,
}
use assembled_watchtower.Evaluation.Observe.{
  EvidenceProvider, occurrence_target, condition_subject, condition_result, observation_id,
  observation, evidence_for, observe_rule, observe_rules, match_rule, match_rules, validate_request,
  evaluate_target, evaluate,
}
use assembled_watchtower.Evaluation.Apply.{
  rule_of, out_of_order, validate_entry, validate_next, validate_from, validate_result, apply_at,
  apply_each, apply_result,
}
use assembled_watchtower.Evaluation.Merge.{IsAdvanced}
use assembled_watchtower.Evaluation.Acceptance.{evaluate-validate_result}
use assembled_watchtower.Evaluation.Runs.{
  IsHealthy, pins, RuntimeCall, advances_to, applies_result, runtime_step, runtime_run,
}
use assembled_watchtower.Evaluation.Activation.{runtime_run-IsHealthy, runtime_run-IsAdvanced}

-- The text of every definition is the same here.
abbrev render : Json → Str
render j = codes "{}"

abbrev rule : Str → ActiveRule
rule id = record { id = id; revision = pos 1; definition = waiting_rule }

abbrev rules : List ActiveRule
rules = rule (codes "s") ∷ rule (codes "r") ∷ []

plan : CompiledPlan
plan = plan_of waiting_rule []

abbrev entry : Str → RuleKey × Activation
entry id = (
  record { id = id; revision = pos 1 },
  record {
    signature = codes "{}";
    plan = plan;
    reducer = record {
      config = record {
        rule_id = id;
        revision = pos 1;
        trigger_duration = pos 60000000000;
        clear_duration = pos 0;
      };
      states = [];
      seen_occurrences = [];
      episodes = [];
      transitions = [];
      logical = zero_time;
    };
  },
)

abbrev started : Runtime
started = record { active = entry (codes "r") ∷ entry (codes "s") ∷ []; logical = zero_time }

compiling : Unit {0}
unfolding lookup has Str-discrete ℕ_discrete field field_catalog valid_agent_state
    time_duration_invalid flatten replace_byte ptr error contains allowed_operator_type
    validate_field validate_operand validate_types validate_compare walk_nested walk_each
    validate_all validate_expression compile is_valid validation_errors validate_text
    validate_targets validate_selectors validate_predicate validate_duration resolved_groups
    canonical_ids distinct drop_repeats sort insert_sorted str_ltb plan_of all_members has_target
    ℤ-discrete plan blank_operand
compiling = tt

encoding : Unit {0}
unfolding canonical_duration_string duration_text encode_definition encode_condition
    encode_expression encode_compare encode_operand encode_duration encode_targets
    encode_notifications described compiling activate activate_rules activate_rule key_of config_of
    definition_signature less_rule same_rule repeats new
encoding = tt

-- The rules are activated in the order of their IDs.
activates : activate render rules none ≡ inr started
unfolding encoding
activates = refl

abbrev seconds : ℕ → Time
seconds n = zero_time + n * 1000000000

-- Nine tickets wait in queue billing.
abbrev event : Event
event = queue_snapshot (record {
  common = record { event_id = codes "e"; timestamp = seconds 100; type = codes "queue_snapshot" };
  queue_id = codes "billing";
  tickets_waiting = 9;
  longest_wait_sec = 0;
  sla_target_sec = 0;
  agents_available = 0;
  agents_on_call = 0;
  volume_last15m = 0;
  volume_forecast_next15m = none;
})

abbrev request : EvaluationRequest
request = record {
  occurrence = record {
    id = codes "o";
    source = codes "f";
    idempotency_key = codes "k";
    ingest_position = 1;
    source_event_id = codes "e";
    effective_at = seconds 100;
    event = some event;
    raw = codes "{}";
  };
  logical_time = seconds 100;
  active_rules = rules;
}

abbrev nine_waiting : EvidenceProvider
nine_waiting t = (
  record {
    lookup = λ f. some (record (blank_operand operand_integer) { integer = pos 9 });
    true_since = zero_time;
    clear_true_since = zero_time;
    reason = codes "w";
  },
  true,
)

-- What the rule `id` observes.
abbrev seen_by : Str → Direction → Result → Observation
seen_by id dir result =
    observation request
      (record {
        rule_id = id;
        revision = pos 1;
        subject = record { kind = subject_queue; id = codes "billing" };
      })
      dir result zero_time (codes "w")

abbrev result : EvaluationResult
result = record {
  observations =
      seen_by (codes "r") Direction.trigger Result.true
      ∷ seen_by (codes "r") Direction.clear Result.false
      ∷ seen_by (codes "s") Direction.trigger Result.true
      ∷ seen_by (codes "s") Direction.clear Result.false
      ∷ [];
}

abbrev at_hundred : Runtime
at_hundred = record started { logical = seconds 100 }

evaluating : Unit {0}
unfolding encoding relation_of compare_int truth relation decide valid_field_value resolve_field
    is_literal resolve_operand evaluate_values evaluate_comparison evaluate_from evaluate_all
    common_of get_event_id validate validate_event event_effective_at validate_rule validate_rules
    validate_times new_evaluation_request is_active validate_observation direction_number
    less_observation less_key validate_observations new_evaluation_result occurrence_target
    condition_subject condition_result observation_id observation evidence_for observe_rule
    observe_rules match_rule match_rules validate_request evaluate_target evaluate is_direction
    is_result is_trigger is_clear Direction-discrete RuleKey-discrete
evaluating = tt

evaluates : evaluate render at_hundred request (some nine_waiting) ≡ inr result
unfolding evaluating hex_encode canonical_parts format_int direction_string
evaluates = refl

keys_differ : Unique RuleKey-discrete at_hundred.active
unfolding lookup RuleKey-discrete ℕ_discrete
keys_differ = (refl, (refl, tt))

evaluate-validate_result_example : validate_result at_hundred result ≡ none
evaluate-validate_result_example =
    evaluate-validate_result render at_hundred request (some nine_waiting) result keys_differ
      evaluates

-- The clock is advanced, and the result applied: the timers of both rules are pending.
abbrev calls : List RuntimeCall
calls = advances_to (seconds 100) ∷ applies_result result ∷ []

running : Unit {0}
unfolding evaluating hex_encode canonical_parts format_int direction_string beats scan_timers
    scan_entries next_due fire_at fire_loop synchronize all_timers advance_runtime rule_of
    out_of_order validate_entry validate_next validate_from validate_result apply_at apply_each
    apply_result runtime_step runtime_run timers pending_timers timer_of duration_for is_pending
    less_timer apply advance advance_loop commit commit_timer choose matches tracker put settled
    committed observe start withdraw refresh ignored fire fires other_revision already_seen
    mark_seen processing_time with_effective interval_start timer_observation record_episode opened
    tick insert direction_for phase_for Result-discrete Phase-discrete ConditionKey-discrete
running = tt

clock_of_calls : (runtime_run started calls).logical ≡ seconds 100
unfolding running
clock_of_calls = refl

runtime_run-IsHealthy_example :
    (pins (runtime_run started calls).active ≡ pins started.active)
    × Unique RuleKey-discrete (runtime_run started calls).active
    × IsHealthy (runtime_run started calls).logical (runtime_run started calls).active
runtime_run-IsHealthy_example = runtime_run-IsHealthy render none rules started calls activates

runtime_run-IsAdvanced_example :
    (rt' : Runtime) × (out : List Transition) × (advance_runtime
        (runtime_run started calls)
        (seconds 200)
      ≡ inr (rt', out))
    × IsAdvanced (runtime_run started calls) (seconds 200) rt' out
runtime_run-IsAdvanced_example =
    runtime_run-IsAdvanced render none rules started calls (seconds 200) activates (omega arith)
      (omega (arith, clock_of_calls))

abbrev fired_rules : List Transition → List Str
fired_rules out = map (λ (t : Transition). t.key.rule_id) out

-- Both timers fire, in the order of the rules' IDs.
both_fire :
    (rt' : Runtime) × (out : List Transition) × (advance_runtime
        (runtime_run started calls)
        (seconds 200)
      ≡ inr (rt', out))
    × (fired_rules out ≡ codes "r" ∷ codes "s" ∷ [])
unfolding running
both_fire = (_, _, refl, refl)
