-- ===== src/App/Request.antt =====
-- `ActiveRule`, `NewEvaluationRequest`, `NewEvaluationResult` and what they call, of
-- internal/app/contracts.go. The sorts of `sort.Slice` leave entries that tie in any order; a tie is
-- refused by the loop that follows, so the order does not show in a result.
use assembled_watchtower.Base.{
  ℕ, List, [], ◌∷◌, Option, none, some, Bool, false, not, ◌&&◌, ◌||◌, ◌==◌, ltb, if◌then◌else◌,
  same, Str, Str-discrete, str_ltb, ℤ, ℤ-discrete, ltb_ℤ, pos, has, is_empty, ◌⊎◌, inl, inr,
}
use assembled_watchtower.Base.Sort.{sort}
use assembled_watchtower.Base.Time.{Time, is_zero}
use assembled_watchtower.App.Occurrence.{AcceptedOccurrence, OccurrenceError, validate}
use assembled_watchtower.Conditions.Enums.{Direction}
use assembled_watchtower.Conditions.Types.{Observation}
use assembled_watchtower.Conditions.Timers.{less_key}
use assembled_watchtower.Conditions.Reducer.{is_direction, is_result}
use assembled_watchtower.Rules.Types.{subject_queue, subject_agent}
use assembled_watchtower.Rules.Definition.{RuleDefinition, is_valid}

pub record ActiveRule : Type 0 where
  pub id : Str
  pub revision : ℤ
  pub definition : RuleDefinition

pub data RuleError : Type 0 where
  rule_id_missing : RuleError
  revision_not_positive : RuleError
  invalid_definition : RuleError

unfoldable pub validate_rule : ActiveRule → Option RuleError
validate_rule r =
    if is_empty r.id
    then some rule_id_missing
    else if not (ltb_ℤ (pos 0) r.revision)
    then some revision_not_positive
    else if not (is_valid r.definition)
    then some invalid_definition
    else none

pub record EvaluationRequest : Type 0 where
  pub occurrence : AcceptedOccurrence
  pub logical_time : Time
  pub active_rules : List ActiveRule

pub data RequestError : Type 0 where
  invalid_occurrence : OccurrenceError → RequestError
  logical_time_missing : RequestError
  logical_time_early : RequestError
  invalid_rule : RuleError → RequestError
  duplicate_rule : Str → ℤ → RequestError

-- By ID, then by revision.
unfoldable pub less_rule : ActiveRule → ActiveRule → Bool
less_rule a b =
    if same Str-discrete a.id b.id then ltb_ℤ a.revision b.revision else str_ltb a.id b.id

unfoldable pub same_rule : ActiveRule → ActiveRule → Bool
same_rule a b = same Str-discrete a.id b.id && same ℤ-discrete a.revision b.revision

-- A rule that repeats the one before it.
unfoldable pub repeats : Option ActiveRule → ActiveRule → Bool
repeats none r = false
repeats (some p) r = same_rule p r

-- The loop over the sorted rules, with the rule before.
unfoldable pub validate_rules : Option ActiveRule → List ActiveRule → Option RequestError
validate_rules before [] = none
validate_rules before (r ∷ rs) = elim (validate_rule r) [
  | some e ↦ some (invalid_rule e)
  | none ↦
      let rest = validate_rules (some r) rs in
      if repeats before r then some (duplicate_rule r.id r.revision) else rest
]

-- The tests on the occurrence and the time, and then `rest`.
unfoldable pub validate_times :
    AcceptedOccurrence → Time → Option RequestError → Option RequestError
validate_times o logical rest = elim (validate o) [
  | some e ↦ some (invalid_occurrence e)
  | none ↦
      if is_zero logical
      then some logical_time_missing
      else if ltb logical o.effective_at
      then some logical_time_early
      else rest
]

unfoldable pub new_evaluation_request :
    AcceptedOccurrence → Time → List ActiveRule → RequestError ⊎ EvaluationRequest
new_evaluation_request o logical rules =
    elim (validate_times o logical (validate_rules none (sort less_rule rules))) [
      | some e ↦ inl e
      | none ↦
          inr
            (record { occurrence = o; logical_time = logical; active_rules = sort less_rule rules })
    ]

pub record EvaluationResult : Type 0 where
  pub observations : List Observation

pub data ObservationError : Type 0 where
  observation_id_missing : ObservationError
  observation_id_is_source_event_id : ObservationError
  inactive_rule : ObservationError
  invalid_subject : ObservationError
  invalid_direction : ObservationError
  invalid_result : ObservationError
  times_missing : ObservationError
  processing_time_mismatch : ObservationError
  effective_time_late : ObservationError
  duplicate_observation : Str → ObservationError

pub data ResultError : Type 0 where
  invalid_request : RequestError → ResultError
  invalid_observation : ObservationError → ResultError

-- Whether an ID and a revision are those of an active rule.
unfoldable pub is_active : List ActiveRule → Str → ℤ → Bool
is_active [] id revision = false
is_active (r ∷ rs) id revision =
    (same Str-discrete r.id id && same ℤ-discrete r.revision revision) || is_active rs id revision

unfoldable pub validate_observation : EvaluationRequest → Observation → Option ObservationError
validate_observation request o =
    if is_empty o.observation_id
    then some observation_id_missing
    else if same Str-discrete o.observation_id request.occurrence.source_event_id
    then some observation_id_is_source_event_id
    else if not (is_active request.active_rules o.key.rule_id o.key.revision)
    then some inactive_rule
    else if (not (same Str-discrete o.key.subject.kind subject_queue)
          && not (same Str-discrete o.key.subject.kind subject_agent))
        || is_empty o.key.subject.id
    then some invalid_subject
    else if not (is_direction o.direction)
    then some invalid_direction
    else if not (is_result o.result)
    then some invalid_result
    else if is_zero o.effective_at || is_zero o.processing_at
    then some times_missing
    else if not (o.processing_at == request.logical_time)
    then some processing_time_mismatch
    else if ltb o.processing_at o.effective_at
    then some effective_time_late
    else none

-- The numbers behind the constants of `Direction`.
unfoldable pub direction_number : Direction → ℕ
direction_number Direction.trigger = 0
direction_number Direction.clear = 1
direction_number (Direction.other n) = n

unfoldable pub less_observation : Observation → Observation → Bool
less_observation a b = less_key a.key b.key (
    if direction_number a.direction == direction_number b.direction
    then str_ltb a.observation_id b.observation_id
    else ltb (direction_number a.direction) (direction_number b.direction))

-- The loop over the sorted observations, with the IDs seen.
unfoldable pub validate_observations :
    EvaluationRequest → List Str → List Observation → Option ObservationError
validate_observations request seen [] = none
validate_observations request seen (o ∷ os) = elim (validate_observation request o) [
  | some e ↦ some e
  | none ↦
      let rest = validate_observations request (o.observation_id ∷ seen) os in
      if has Str-discrete o.observation_id seen
      then some (duplicate_observation o.observation_id)
      else rest
]

-- The request's own tests are made again first.
unfoldable pub new_evaluation_result :
    EvaluationRequest → List Observation → ResultError ⊎ EvaluationResult
new_evaluation_result request observations =
    elim (new_evaluation_request request.occurrence request.logical_time request.active_rules) [
      | inl e ↦ inl (invalid_request e)
      | inr again ↦ elim (validate_observations request [] (sort less_observation observations)) [
        | some e ↦ inl (invalid_observation e)
        | none ↦ inr (record { observations = sort less_observation observations })
      ]
    ]
