-- ===== src/Evaluation/Runs.antt =====
-- Sequences of calls on an activated runtime.
use assembled_watchtower.Base.{
  ◌≤◌, List, [], ◌∷◌, Option, none, some, not, ◌&&◌, ltb, ◌⊎◌, inl, inr, length, max, All, arith,
  ◌≡◌, refl, ◌∙◌, Bool-cases, Option-cases, Str,
}
use assembled_watchtower.Base.Time.{Time, zero_time, is_zero}
use assembled_watchtower.Rules.Compile.{CompiledPlan}
use assembled_watchtower.Conditions.Types.{Observation, Transition}
use assembled_watchtower.Conditions.Lifecycle.{IsCoherent}
use assembled_watchtower.Conditions.Reducer.{processing_time}
use assembled_watchtower.App.Request.{EvaluationResult}
use assembled_watchtower.Evaluation.Types.{RuleKey, Activation, Runtime}
use assembled_watchtower.Evaluation.Clock.{fire_loop, synchronize, all_timers, advance_runtime}
use assembled_watchtower.Evaluation.Apply.{
  apply_each, apply_result, validate_result, validate_from, validate_next, validate_entry,
}
use assembled_watchtower.Evaluation.Following.{
  Follows, Follows-trans, fire_loop-Follows, synchronize-Follows, apply_each-Follows,
}

-- What an activation pins: the key, the plan and the signature of every entry.
abbrev pub pins : List (RuleKey × Activation) → List (RuleKey × (Str × CompiledPlan))
pins [] = []
pins ((k, a) ∷ es) = (k, (a.signature, a.plan)) ∷ pins es

-- Every reducer is coherent, and none is ahead of the runtime.
pub record IsHealthy (logical : Time) (es : List (RuleKey × Activation)) : Type 0 where
  pub coherent : All (λ (e : RuleKey × Activation). IsCoherent e.1.reducer) es
  pub clocks : All (λ (e : RuleKey × Activation). e.1.reducer.logical ≤ max logical zero_time) es

Follows-pins :
    (now : Time) (es fs : List (RuleKey × Activation)) → Follows now es fs → pins fs ≡ pins es
Follows-pins now [] [] f = refl
Follows-pins now [] (x ∷ fs) f = absurd f
Follows-pins now (e ∷ es) [] f = absurd f
Follows-pins now ((k, a) ∷ es) ((j, b) ∷ fs) (p, q, r, m, f) =
    rw (p, q, r, Follows-pins now es fs f) refl

Follows-IsHealthy :
    (now logical logical' : Time) (es fs : List (RuleKey × Activation))
    → now ≤ max logical' zero_time
    → logical ≤ max logical' zero_time
    → Follows now es fs
    → IsHealthy logical es
    → IsHealthy logical' fs
Follows-IsHealthy now logical logical' [] [] le le' f h = record { coherent = tt; clocks = tt }
Follows-IsHealthy now logical logical' [] (x ∷ fs) le le' f h = absurd f
Follows-IsHealthy now logical logical' (e ∷ es) [] le le' f h = absurd f
Follows-IsHealthy now logical logical' ((k, a) ∷ es) ((j, b) ∷ fs) le le' (p, q, r, m, f) h =
    let rest =
      Follows-IsHealthy now logical logical' es fs le le' f
        (record { coherent = h.coherent.1; clocks = h.clocks.1 }) in
    record {
      coherent = (m.coherent h.coherent.0, rest.coherent);
      clocks = (omega (arith, m.clock, h.clocks.0), rest.clocks);
    }

-- A runtime after a call that keeps it healthy and its pins unchanged.
pub record Keeps (rt rt' : Runtime) : Type 0 where
  pub healthy : IsHealthy rt.logical rt.active → IsHealthy rt'.logical rt'.active
  pub pinned : pins rt'.active ≡ pins rt.active

Keeps-refl : (rt : Runtime) → Keeps rt rt
Keeps-refl rt = record { healthy = λ h. h; pinned = refl }

-- The runtime that a call leaves: an error changes nothing.
abbrev pub after : {E : Type 0} → Runtime → E ⊎ (Runtime × List Transition) → Runtime
after rt (inl e) = rt
after rt (inr p) = p.0

advance_runtime-Keeps : (rt : Runtime) (now : Time) → Keeps rt (after rt (advance_runtime rt now))
unfolding advance_runtime
advance_runtime-Keeps rt now = elim (Bool-cases (is_zero now)) [
  | inl z ↦ rw z (Keeps-refl rt)
  | inr z ↦ elim (Bool-cases (not (is_zero rt.logical) && ltb now rt.logical)) [
    | inl e ↦ rw (z, e) (Keeps-refl rt)
    | inr e ↦
        let fired = (fire_loop (length (all_timers rt.active)) now rt.active).0 in
        let follows =
          Follows-trans now rt.active fired (synchronize now fired).0
            (fire_loop-Follows (length (all_timers rt.active)) now rt.active)
            (synchronize-Follows now fired) in
        let later : rt.logical ≤ max now zero_time = ground (arith, e) in
        rw (z, e)
          (record {
            healthy = λ h.
                Follows-IsHealthy now rt.logical now rt.active (synchronize now fired).0
                  (omega arith) later follows h;
            pinned = Follows-pins now rt.active (synchronize now fired).0 follows;
          })
  ]
]

-- What the tests of a result say of its times.
validate_next-time :
    (rt : Runtime) (seen : List Str) (before : Option Observation) (o : Observation)
    → validate_next rt seen before o ≡ none
    → processing_time o ≤ rt.logical
unfolding validate_next validate_entry processing_time
validate_next-time rt seen before o h = ground (arith, h)

validate_from-times :
    (rt : Runtime) (seen : List Str) (before : Option Observation) (os : List Observation)
    → validate_from rt seen before os ≡ none
    → All (λ o. processing_time o ≤ rt.logical) os
unfolding validate_from
validate_from-times rt seen before [] h = tt
validate_from-times rt seen before (o ∷ os) h = (
  validate_next-time rt seen before o (ground (arith, h)),
  validate_from-times rt (o.observation_id ∷ seen) (some o) os (ground (arith, h)),
)

apply_result-Keeps :
    (rt : Runtime) (result : EvaluationResult) → Keeps rt (after rt (apply_result rt result))
unfolding apply_result
apply_result-Keeps rt result = elim (Option-cases (validate_result rt result)) [
  | inl e ↦
      let follows =
        apply_each-Follows rt.logical result.observations rt.active
          (validate_from-times rt [] none result.observations (unfold validate_result in e)) in
      rw (e, after)
        (record {
          healthy = λ h.
              Follows-IsHealthy rt.logical rt.logical rt.logical rt.active
                (apply_each result.observations rt.active).0 (omega arith) (omega arith) follows h;
          pinned =
              Follows-pins rt.logical rt.active (apply_each result.observations rt.active).0
                follows;
        })
  | inr (x, e) ↦ rw (e, after) (Keeps-refl rt)
]

-- The calls that change a runtime; `Evaluate` reads it only.
pub data RuntimeCall : Type 0 where
  advances_to : Time → RuntimeCall
  applies_result : EvaluationResult → RuntimeCall

unfoldable pub runtime_step : Runtime → RuntimeCall → Runtime
runtime_step rt (advances_to now) = after rt (advance_runtime rt now)
runtime_step rt (applies_result result) = after rt (apply_result rt result)

unfoldable pub runtime_run : Runtime → List RuntimeCall → Runtime
runtime_run rt [] = rt
runtime_run rt (c ∷ cs) = runtime_run (runtime_step rt c) cs

runtime_step-Keeps : (rt : Runtime) (c : RuntimeCall) → Keeps rt (runtime_step rt c)
unfolding runtime_step
runtime_step-Keeps rt (advances_to now) = advance_runtime-Keeps rt now
runtime_step-Keeps rt (applies_result result) = apply_result-Keeps rt result

pub runtime_run-Keeps : (rt : Runtime) (cs : List RuntimeCall) → Keeps rt (runtime_run rt cs)
unfolding runtime_run
runtime_run-Keeps rt [] = Keeps-refl rt
runtime_run-Keeps rt (c ∷ cs) =
    let first = runtime_step-Keeps rt c in
    let rest = runtime_run-Keeps (runtime_step rt c) cs in
    record { healthy = λ h. rest.healthy (first.healthy h); pinned = rest.pinned ∙ first.pinned }
