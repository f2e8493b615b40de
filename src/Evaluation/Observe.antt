-- ===== src/Evaluation/Observe.antt =====
-- `Evaluate` and `Apply` of the runtime: the observations that an occurrence gives the active
-- rules, and their way into the reducers. `lessObservation` is that of internal/app/contracts.go,
-- which has the same body.
use assembled_watchtower.Base.{
  List, [], ◌∷◌, ◌++◌, Option, none, some, Bool, false, not, ◌==◌, if◌then◌else◌, ◌⊎◌, inl, inr,
  same, Str, Str-discrete, codes, lookup, length,
}
use assembled_watchtower.Base.Time.{Time, zero_time}
use assembled_watchtower.Ids.{canonical_parts, format_int, hex_encode}
use assembled_watchtower.Json.{Json}
use assembled_watchtower.Events.Types.{Event, queue_snapshot, agent_state_change, adherence_check}
use assembled_watchtower.Rules.Types.{subject_queue, subject_agent}
use assembled_watchtower.Rules.Compile.{has_target}
use assembled_watchtower.Rules.Evaluate.{PredicateResult, unknown, refuted, holds, evaluate_all}
use assembled_watchtower.Conditions.Enums.{Result, Direction}
use assembled_watchtower.Conditions.Types.{SubjectKey, ConditionKey, Observation, direction_string}
use assembled_watchtower.App.Request.{
  ActiveRule, EvaluationRequest, RequestError, new_evaluation_request, EvaluationResult,
  ResultError, new_evaluation_result,
}
use assembled_watchtower.Evaluation.Types.{
  RuleKey, RuleKey-discrete, Activation, Runtime, ResolvedTarget, Evidence,
}
use assembled_watchtower.Evaluation.Activate.{definition_signature, key_of}

unfoldable pub occurrence_target : Option Event → Option ResolvedTarget
occurrence_target none = none
occurrence_target (some (queue_snapshot q)) =
    some (record { kind = subject_queue; id = q.queue_id })
occurrence_target (some (agent_state_change a)) =
    some (record { kind = subject_agent; id = a.agent_id })
occurrence_target (some (adherence_check c)) =
    some (record { kind = subject_agent; id = c.agent_id })

unfoldable pub condition_subject : ResolvedTarget → SubjectKey
condition_subject t = record { kind = t.kind; id = t.id }

unfoldable pub condition_result : PredicateResult → Result
condition_result holds = Result.true
condition_result refuted = Result.false
condition_result unknown = Result.unknown

unfoldable pub observation_id : Str → ConditionKey → Direction → Str
observation_id occurrence k dir =
    codes "evaluation_"
    ++ hex_encode (
        canonical_parts (
          occurrence
          ∷ k.rule_id
          ∷ format_int k.revision
          ∷ k.subject.kind
          ∷ k.subject.id
          ∷ direction_string dir
          ∷ []))

unfoldable pub observation :
    EvaluationRequest → ConditionKey → Direction → Result → Time → Str → Observation
observation request k dir result since reason = record {
  key = k;
  direction = dir;
  result = result;
  effective_at = request.occurrence.effective_at;
  processing_at = request.logical_time;
  evidence_at = request.occurrence.effective_at;
  true_since = since;
  observation_id = observation_id request.occurrence.id k dir;
  reason = reason;
}

-- `EvidenceFor`, whose second result says whether the evidence is available.
abbrev pub EvidenceProvider : Type 0
EvidenceProvider = ResolvedTarget → Evidence × Bool

-- What a nil provider leaves.
abbrev no_evidence : Evidence
no_evidence = record {
  lookup = λ f. none;
  true_since = zero_time;
  clear_true_since = zero_time;
  reason = [];
}

unfoldable pub evidence_for : Option EvidenceProvider → ResolvedTarget → Evidence × Bool
evidence_for none t = (no_evidence, false)
evidence_for (some provider) t = provider t

abbrev pub condition_key : RuleKey → ResolvedTarget → ConditionKey
condition_key k t = record { rule_id = k.id; revision = k.revision; subject = condition_subject t }

-- The two observations of a rule that has the target.
unfoldable pub observe_rule :
    EvaluationRequest → ResolvedTarget → Evidence × Bool → RuleKey → Activation → List Observation
observe_rule request t (e, available) k a =
    let trigger =
      if available
      then condition_result (evaluate_all a.plan.trigger e.lookup)
      else Result.unknown in
    let clear =
      if available then condition_result (evaluate_all a.plan.clear e.lookup) else Result.unknown in
    observation request (condition_key k t) Direction.trigger trigger e.true_since e.reason
    ∷ observation request (condition_key k t) Direction.clear clear e.clear_true_since e.reason
    ∷ []

-- The loop of `Evaluate`.
unfoldable pub observe_rules :
    EvaluationRequest
    → ResolvedTarget
    → Evidence × Bool
    → List (RuleKey × Activation)
    → List Observation
observe_rules request t evidence [] = []
observe_rules request t evidence ((k, a) ∷ es) =
    let rest = observe_rules request t evidence es in
    if has_target a.plan t.kind t.id then observe_rule request t evidence k a ++ rest else rest

pub data EvaluateError : Type 0 where
  invalid_request : RequestError → EvaluateError
  clock_mismatch : EvaluateError
  active_mismatch : EvaluateError
  unactivated_rule : EvaluateError
  signature_failed : EvaluateError
  definition_differs : EvaluateError
  unsupported_event : EvaluateError
  invalid_result : ResultError → EvaluateError

module _ (render : Json → Str) where
  unfoldable pub match_rule : List (RuleKey × Activation) → ActiveRule → Option EvaluateError
  match_rule es r = elim (lookup RuleKey-discrete (key_of r) es) [
    | none ↦ some unactivated_rule
    | some a ↦ elim (definition_signature render r.definition) [
      | none ↦ some signature_failed
      | some text ↦ if same Str-discrete text a.signature then none else some definition_differs
    ]
  ]

  -- The loop over the request's rules.
  unfoldable pub match_rules : List (RuleKey × Activation) → List ActiveRule → Option EvaluateError
  match_rules es [] = none
  match_rules es (r ∷ rs) =
      let rest = match_rules es rs in elim (match_rule es r) [ some e ↦ some e | none ↦ rest ]

  unfoldable pub validate_request : Runtime → EvaluationRequest → Option EvaluateError
  validate_request rt request =
      elim (new_evaluation_request request.occurrence request.logical_time request.active_rules) [
        | inl e ↦ some (invalid_request e)
        | inr validated ↦
            if not (rt.logical == validated.logical_time)
            then some clock_mismatch
            else if not (length validated.active_rules == length rt.active)
            then some active_mismatch
            else match_rules rt.active validated.active_rules
      ]

  -- The part of `Evaluate` behind the tests of the request.
  unfoldable pub evaluate_target :
      Runtime
      → EvaluationRequest
      → Option EvidenceProvider
      → ResolvedTarget
      → EvaluateError ⊎ EvaluationResult
  evaluate_target rt request provider t =
      elim (new_evaluation_result request
        (observe_rules request t (evidence_for provider t) rt.active)) [
          | inl e ↦ inl (invalid_result e)
          | inr result ↦ inr result
        ]

  unfoldable pub evaluate :
      Runtime → EvaluationRequest → Option EvidenceProvider → EvaluateError ⊎ EvaluationResult
  evaluate rt request provider = elim (validate_request rt request) [
    | some e ↦ inl e
    | none ↦ elim (occurrence_target request.occurrence.event) [
      | none ↦ inl unsupported_event
      | some t ↦ evaluate_target rt request provider t
    ]
  ]
