-- ===== src/Evaluation/Apply.antt =====
-- `Apply` of the runtime: the tests on a result, and its observations' way into the reducers.
use assembled_watchtower.Base.{
  List, [], ◌∷◌, ◌++◌, Option, none, some, Bool, false, not, ◌||◌, ◌==◌, ltb, if◌then◌else◌, ◌⊎◌,
  inl, inr, same, Str, Str-discrete, lookup, has, is_empty,
}
use assembled_watchtower.Base.Time.{Time, is_zero}
use assembled_watchtower.Rules.Compile.{has_target}
use assembled_watchtower.Conditions.Types.{Observation, Transition}
use assembled_watchtower.Conditions.Reducer.{apply, is_direction, is_result}
use assembled_watchtower.App.Request.{EvaluationResult, less_observation}
use assembled_watchtower.Evaluation.Types.{RuleKey, RuleKey-discrete, Activation, Runtime}

pub data ApplyError : Type 0 where
  unactivated_rule : ApplyError
  unselected_subject : ApplyError
  observation_id_missing : ApplyError
  duplicate_observation : ApplyError
  clock_mismatch : ApplyError
  invalid_effective_time : ApplyError
  invalid_direction : ApplyError
  invalid_result : ApplyError
  not_in_order : ApplyError

unfoldable pub rule_of : Observation → RuleKey
rule_of o = record { id = o.key.rule_id; revision = o.key.revision }

-- An observation below the one before it.
unfoldable pub out_of_order : Option Observation → Observation → Bool
out_of_order none o = false
out_of_order (some p) o = less_observation o p

-- The tests of one round behind the lookup of the rule.
unfoldable pub validate_entry :
    Time → List Str → Option Observation → Observation → Activation → Option ApplyError
validate_entry logical seen before o a =
    if not (has_target a.plan o.key.subject.kind o.key.subject.id)
    then some unselected_subject
    else if is_empty o.observation_id
    then some observation_id_missing
    else if has Str-discrete o.observation_id seen
    then some duplicate_observation
    else if not (o.processing_at == logical)
    then some clock_mismatch
    else if is_zero o.effective_at || ltb o.processing_at o.effective_at
    then some invalid_effective_time
    else if not (is_direction o.direction)
    then some invalid_direction
    else if not (is_result o.result)
    then some invalid_result
    else if out_of_order before o
    then some not_in_order
    else none

-- One round of the loop of `validateResult`.
unfoldable pub validate_next :
    Runtime → List Str → Option Observation → Observation → Option ApplyError
validate_next rt seen before o = elim (lookup RuleKey-discrete (rule_of o) rt.active) [
  | none ↦ some unactivated_rule
  | some a ↦ validate_entry rt.logical seen before o a
]

-- The loop, with the IDs seen and the observation before.
unfoldable pub validate_from :
    Runtime → List Str → Option Observation → List Observation → Option ApplyError
validate_from rt seen before [] = none
validate_from rt seen before (o ∷ os) =
    let rest = validate_from rt (o.observation_id ∷ seen) (some o) os in
    elim (validate_next rt seen before o) [ some e ↦ some e | none ↦ rest ]

unfoldable pub validate_result : Runtime → EvaluationResult → Option ApplyError
validate_result rt result = validate_from rt [] none result.observations

-- `Apply` of the reducer of the observation's rule, which the tests have found.
unfoldable pub apply_at :
    Observation → List (RuleKey × Activation) → List (RuleKey × Activation) × List Transition
apply_at o [] = ([], [])
apply_at o ((k, a) ∷ es) =
    let (rest, later) = apply_at o es in
    let (r, out) = apply a.reducer o in
    if same RuleKey-discrete k (rule_of o)
    then ((k, record a { reducer = r }) ∷ es, out)
    else ((k, a) ∷ rest, later)

-- The loop of `Apply`.
unfoldable pub apply_each :
    List Observation → List (RuleKey × Activation) → List (RuleKey × Activation) × List Transition
apply_each [] es = (es, [])
apply_each (o ∷ os) es =
    let (es', out) = apply_at o es in let (es'', more) = apply_each os es' in (es'', out ++ more)

unfoldable pub apply_result : Runtime → EvaluationResult → ApplyError ⊎ (Runtime × List Transition)
apply_result rt result = elim (validate_result rt result) [
  | some e ↦ inl e
  | none ↦
      let (es, out) = apply_each result.observations rt.active in
      inr (record rt { active = es }, out)
]
