-- ===== src/Evaluation/Acceptance.antt =====
-- What `Evaluate` returns, `Apply` takes: the result passes every test of `validateResult`.
use assembled_watchtower.Base.{
  List, [], ◌∷◌, Option, none, some, Bool, true, false, ◌==◌, ltb, if◌then◌else◌, inl, inr, Str,
  Str-discrete, str_ltb, lookup, lookup_here, has, All, All-map, All-append, Unique, arith, ◌≡◌,
  refl, Bool-cases, Option-cases,
}
use assembled_watchtower.Base.Sort.{sort, Sorted, sort-Sorted, sort-All, IsLess, lex-IsLess}
use assembled_watchtower.Base.Orders.{ltb-IsTotal, ==-IsEqb, str_ltb-IsTotal}
use assembled_watchtower.Json.{Json}
use assembled_watchtower.Rules.Compile.{has_target}
use assembled_watchtower.Conditions.Types.{Observation}
use assembled_watchtower.Conditions.Order.{less_key-IsLess}
use assembled_watchtower.App.Request.{
  EvaluationRequest, EvaluationResult, validate_observation, validate_observations,
  new_evaluation_result, new_evaluation_request, less_observation, direction_number,
}
use assembled_watchtower.Evaluation.Types.{
  RuleKey, RuleKey-discrete, Activation, Runtime, ResolvedTarget, Evidence,
}
use assembled_watchtower.Evaluation.Observe.{
  EvidenceProvider, observation, observe_rule, observe_rules, occurrence_target, evidence_for,
  evaluate_target, evaluate, validate_request, condition_subject,
}
use assembled_watchtower.Evaluation.Apply.{
  rule_of, out_of_order, validate_entry, validate_next, validate_from, validate_result,
}

-- Observations in the canonical order: by key, direction and ID.
less_observation-IsLess :
    IsLess
      (λ (a b : Observation).
        (a.key ≡ b.key)
        × ((direction_number a.direction ≡ direction_number b.direction)
            × (a.observation_id ≡ b.observation_id)))
      less_observation
unfolding less_observation
less_observation-IsLess =
    less_key-IsLess (λ (o : Observation). o.key)
      (λ a b.
        if direction_number a.direction == direction_number b.direction
        then str_ltb a.observation_id b.observation_id
        else ltb (direction_number a.direction) (direction_number b.direction))
      (lex-IsLess (λ (o : Observation). direction_number o.direction) ◌==◌ ltb
        (λ a b. str_ltb a.observation_id b.observation_id) ==-IsEqb ltb-IsTotal
        (record {
          irrefl = λ a. str_ltb-IsTotal.irrefl a.observation_id;
          trans = λ a b c. str_ltb-IsTotal.trans a.observation_id b.observation_id c.observation_id;
          cotrans =
              λ a b c. str_ltb-IsTotal.cotrans a.observation_id b.observation_id c.observation_id;
          tie = λ a b. str_ltb-IsTotal.tie a.observation_id b.observation_id;
        }))

-- An observation of an active rule that has its subject.
Selected : List (RuleKey × Activation) → Observation → Type 0
Selected es o =
    (a : Activation) × (lookup RuleKey-discrete (rule_of o) es ≡ some a)
    × (has_target a.plan o.key.subject.kind o.key.subject.id ≡ true)

-- A rule in front with another key does not hide an entry.
Selected-cons :
    (k : RuleKey) (a : Activation) (es : List (RuleKey × Activation)) (o : Observation)
    → lookup RuleKey-discrete k es ≡ none
    → Selected es o
    → Selected ((k, a) ∷ es) o
unfolding Selected lookup
Selected-cons k a es o h (b, found, target) = (b, ground (arith, h, found), target)

observe_rule-Selected :
    (request : EvaluationRequest) (t : ResolvedTarget) (evidence : Evidence × Bool) (k : RuleKey)
    (a : Activation) (es : List (RuleKey × Activation))
    → has_target a.plan t.kind t.id ≡ true
    → All (Selected ((k, a) ∷ es)) (observe_rule request t evidence k a)
unfolding Selected observe_rule observation rule_of condition_subject
observe_rule-Selected request t (e, available) k a es h =
    ((a, lookup_here RuleKey-discrete k a es, h), ((a, lookup_here RuleKey-discrete k a es, h), tt))

observe_rules-Selected :
    (request : EvaluationRequest) (t : ResolvedTarget) (evidence : Evidence × Bool)
    (es : List (RuleKey × Activation))
    → Unique RuleKey-discrete es
    → All (Selected es) (observe_rules request t evidence es)
unfolding observe_rules
observe_rules-Selected request t evidence [] u = tt
observe_rules-Selected request t evidence ((k, a) ∷ es) u =
    let rest : All (Selected ((k, a) ∷ es)) (observe_rules request t evidence es) =
      All-map (Selected es) (Selected ((k, a) ∷ es)) (observe_rules request t evidence es)
        (λ o h. Selected-cons k a es o u.0 h) (observe_rules-Selected request t evidence es u.1) in
    elim (Bool-cases (has_target a.plan t.kind t.id)) [
      | inl e ↦ rw e (
          All-append (Selected ((k, a) ∷ es)) (observe_rule request t evidence k a)
            (observe_rules request t evidence es)
            (observe_rule-Selected request t evidence k a es e) rest)
      | inr e ↦ rw e rest
    ]

-- One observation.
validate_next-accepts :
    (rt : Runtime) (request : EvaluationRequest) (seen : List Str) (before : Option Observation)
    (o : Observation)
    → rt.logical ≡ request.logical_time
    → validate_observation request o ≡ none
    → has Str-discrete o.observation_id seen ≡ false
    → out_of_order before o ≡ false
    → Selected rt.active o
    → validate_next rt seen before o ≡ none
unfolding validate_next validate_entry Selected validate_observation
validate_next-accepts rt request seen before o clock valid fresh ordered (a, found, target) =
    ground (arith, clock, found, target, fresh, ordered)

validate_observations-head :
    (request : EvaluationRequest) (seen : List Str) (o : Observation) (os : List Observation)
    → validate_observations request seen (o ∷ os) ≡ none
    → (validate_observation request o ≡ none)
      × (has Str-discrete o.observation_id seen ≡ false)
      × (validate_observations request (o.observation_id ∷ seen) os ≡ none)
unfolding validate_observations
validate_observations-head request seen o os h = (ground arith, ground arith, ground arith)

-- The observations of a result, behind those seen.
validate_from-accepts :
    (rt : Runtime) (request : EvaluationRequest) (seen : List Str) (before : Option Observation)
    (os : List Observation)
    → rt.logical ≡ request.logical_time
    → validate_observations request seen os ≡ none
    → All (λ o. out_of_order before o ≡ false) os
    → Sorted less_observation less_observation-IsLess os
    → All (Selected rt.active) os
    → validate_from rt seen before os ≡ none
unfolding validate_from out_of_order
validate_from-accepts rt request seen before [] clock v b s a = refl
validate_from-accepts rt request seen before (o ∷ os) clock v b s a =
    let (valid, fresh, rest) = validate_observations-head request seen o os v in
    rw (validate_next-accepts rt request seen before o clock valid fresh b.0 a.0, validate_from)
      (validate_from-accepts rt request (o.observation_id ∷ seen) (some o) os clock rest s.0 s.1
        a.1)

new_evaluation_result-observations :
    (request : EvaluationRequest) (os : List Observation) (result : EvaluationResult)
    → new_evaluation_result request os ≡ inr result
    → (result.observations ≡ sort less_observation os)
      × (validate_observations request [] (sort less_observation os) ≡ none)
unfolding new_evaluation_result
new_evaluation_result-observations request os result h = (ground (arith, h), ground (arith, h))

module _ (render : Json → Str) where
  -- What a request that passes its tests tells of the clock.
  validate_request-clock :
      (rt : Runtime) (request : EvaluationRequest)
      → validate_request render rt request ≡ none
      → rt.logical ≡ request.logical_time
  unfolding validate_request new_evaluation_request
  validate_request-clock rt request h = ground (arith, h)

  evaluate-parts :
      (rt : Runtime) (request : EvaluationRequest) (provider : Option EvidenceProvider)
      (result : EvaluationResult)
      → evaluate render rt request provider ≡ inr result
      → (validate_request render rt request ≡ none)
        × (t : ResolvedTarget) × (new_evaluation_result request
              (observe_rules request t (evidence_for provider t) rt.active)
            ≡ inr result)
  unfolding evaluate evaluate_target
  evaluate-parts rt request provider result h =
      elim (Option-cases (validate_request render rt request)) [
        | inl e ↦ elim (Option-cases (occurrence_target request.occurrence.event)) [
          | inl f ↦ absurd (ground (arith, h, e, f))
          | inr (t, f) ↦ (e, t, ground (arith, h, e, f))
        ]
        | inr (x, e) ↦ absurd (ground (arith, h, e))
      ]

  -- `Apply` refuses no result that `Evaluate` of the same runtime returns, for any occurrence and
  -- any evidence, where no two active rules have the same key: each of its observations is of an
  -- active rule that has the subject, carries an ID of its own, the runtime's clock, an effective
  -- time not after it and a valid direction and result, and stands in the canonical order.
  pub evaluate-validate_result :
      (rt : Runtime) (request : EvaluationRequest) (provider : Option EvidenceProvider)
      (result : EvaluationResult)
      → Unique RuleKey-discrete rt.active
      → evaluate render rt request provider ≡ inr result
      → validate_result rt result ≡ none
  unfolding validate_result out_of_order
  evaluate-validate_result rt request provider result u h =
      let (admitted, t, built) = evaluate-parts rt request provider result h in
      let os = observe_rules request t (evidence_for provider t) rt.active in
      let (sorted, valid) = new_evaluation_result-observations request os result built in
      rw sorted (
        validate_from-accepts rt request [] none (sort less_observation os)
          (validate_request-clock rt request admitted) valid
          (none_before (sort less_observation os))
          (sort-Sorted less_observation less_observation-IsLess os)
          (sort-All less_observation less_observation-IsLess (Selected rt.active) os
            (observe_rules-Selected request t (evidence_for provider t) rt.active u)))
    where
      none_before : (os : List Observation) → All (λ o. out_of_order none o ≡ false) os
      none_before [] = tt
      none_before (o ∷ os) = (refl, none_before os)
