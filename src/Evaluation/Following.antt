-- ===== src/Evaluation/Following.antt =====
-- How the operations of the runtime move its reducers.
use assembled_watchtower.Base.{
  ℕ, zero, suc, ◌≤◌, List, [], ◌∷◌, inl, inr, same, max, All, arith, ◌≡◌, refl, ◌∙◌, Bool-cases,
  Option-cases,
}
use assembled_watchtower.Base.Time.{Time}
use assembled_watchtower.Conditions.Types.{Timer, Reducer, Observation}
use assembled_watchtower.Conditions.Lifecycle.{IsCoherent}
use assembled_watchtower.Conditions.Reducer.{advance, fire, apply, processing_time}
use assembled_watchtower.Conditions.Coherence.{
  step-IsCoherent, step, applies, advances, fires_timer,
}
use assembled_watchtower.Conditions.Runs.{apply-clock_bound, fire-clock_bound, advance-clock_bound}
use assembled_watchtower.Evaluation.Types.{RuleKey, RuleKey-discrete, Activation}
use assembled_watchtower.Evaluation.Clock.{fire_at, fire_loop, synchronize, next_due}
use assembled_watchtower.Evaluation.Apply.{apply_at, apply_each, rule_of}

-- A reducer after calls at times up to `now`.
pub record Moves (now : Time) (r r' : Reducer) : Type 0 where
  pub coherent : IsCoherent r → IsCoherent r'
  pub clock : r'.logical ≤ max r.logical now

Moves-refl : (now : Time) (r : Reducer) → Moves now r r
Moves-refl now r = record { coherent = λ c. c; clock = omega arith }

fire-Moves : (now : Time) (r : Reducer) (t : Timer) → Moves now r (fire r t now).0
fire-Moves now r t = record {
  coherent = λ c. unfold step in step-IsCoherent r (fires_timer t now) c;
  clock = fire-clock_bound r t now;
}

advance-Moves : (now : Time) (r : Reducer) → Moves now r (advance r now).0
advance-Moves now r = record {
  coherent = λ c. unfold step in step-IsCoherent r (advances now) c;
  clock = advance-clock_bound r now;
}

apply-Moves :
    (now : Time) (r : Reducer) (o : Observation)
    → processing_time o ≤ now
    → Moves now r (apply r o).0
apply-Moves now r o h = record {
  coherent = λ c. unfold step in step-IsCoherent r (applies o) c;
  clock = omega (arith, apply-clock_bound r o, h);
}

-- The same entries with the same plans, with reducers after calls at times up to `now`.
abbrev pub Follows : Time → List (RuleKey × Activation) → List (RuleKey × Activation) → Type 0
Follows now [] [] = Unit
Follows now ((k, a) ∷ es) ((j, b) ∷ fs) =
    (j ≡ k)
    × (b.signature ≡ a.signature)
    × (b.plan ≡ a.plan)
    × Moves now a.reducer b.reducer
    × Follows now es fs
Follows now [] (f ∷ fs) = ⊥
Follows now (e ∷ es) [] = ⊥

Follows-refl : (now : Time) (es : List (RuleKey × Activation)) → Follows now es es
Follows-refl now [] = tt
Follows-refl now ((k, a) ∷ es) = (refl, refl, refl, Moves-refl now a.reducer, Follows-refl now es)

pub Follows-trans :
    (now : Time) (es fs gs : List (RuleKey × Activation))
    → Follows now es fs
    → Follows now fs gs
    → Follows now es gs
Follows-trans now [] [] gs f g = g
Follows-trans now [] (x ∷ fs) gs f g = absurd f
Follows-trans now (e ∷ es) [] gs f g = absurd f
Follows-trans now (e ∷ es) (x ∷ fs) [] f g = absurd g
Follows-trans now ((k, a) ∷ es) ((j, b) ∷ fs) ((i, c) ∷ gs) (p, q, r, m, f) (p', q', r', m', g) = (
  p' ∙ p,
  q' ∙ q,
  r' ∙ r,
  record { coherent = λ h. m'.coherent (m.coherent h); clock = omega (arith, m.clock, m'.clock) },
  Follows-trans now es fs gs f g,
)

fire_at-Follows :
    (i : ℕ) (t : Timer) (now : Time) (es : List (RuleKey × Activation))
    → Follows now es (fire_at i t now es).0
unfolding fire_at
fire_at-Follows i t now [] = tt
fire_at-Follows zero t now ((k, a) ∷ es) =
    (refl, refl, refl, fire-Moves now a.reducer t, Follows-refl now es)
fire_at-Follows (suc i) t now ((k, a) ∷ es) =
    (refl, refl, refl, Moves-refl now a.reducer, fire_at-Follows i t now es)

pub fire_loop-Follows :
    (fuel : ℕ) (now : Time) (es : List (RuleKey × Activation))
    → Follows now es (fire_loop fuel now es).0
unfolding fire_loop
fire_loop-Follows zero now es = Follows-refl now es
fire_loop-Follows (suc fuel) now es = elim (Option-cases (next_due now es)) [
  | inl e ↦ rw (e, fire_loop) (Follows-refl now es)
  | inr ((i, t), e) ↦
      rw (e, fire_loop)
        (Follows-trans now es (fire_at i t now es).0 (fire_loop fuel now (fire_at i t now es).0).0
          (fire_at-Follows i t now es) (fire_loop-Follows fuel now (fire_at i t now es).0))
]

pub synchronize-Follows :
    (now : Time) (es : List (RuleKey × Activation)) → Follows now es (synchronize now es).0
unfolding synchronize
synchronize-Follows now [] = tt
synchronize-Follows now ((k, a) ∷ es) =
    (refl, refl, refl, advance-Moves now a.reducer, synchronize-Follows now es)

apply_at-Follows :
    (now : Time) (o : Observation) (es : List (RuleKey × Activation))
    → processing_time o ≤ now
    → Follows now es (apply_at o es).0
unfolding apply_at
apply_at-Follows now o [] h = tt
apply_at-Follows now o ((k, a) ∷ es) h = elim (Bool-cases (same RuleKey-discrete k (rule_of o))) [
  | inl e ↦ rw e (refl, refl, refl, apply-Moves now a.reducer o h, Follows-refl now es)
  | inr e ↦ rw e (refl, refl, refl, Moves-refl now a.reducer, apply_at-Follows now o es h)
]

pub apply_each-Follows :
    (now : Time) (os : List Observation) (es : List (RuleKey × Activation))
    → All (λ o. processing_time o ≤ now) os
    → Follows now es (apply_each os es).0
unfolding apply_each
apply_each-Follows now [] es h = Follows-refl now es
apply_each-Follows now (o ∷ os) es h =
    Follows-trans now es (apply_at o es).0 (apply_each os (apply_at o es).0).0
      (apply_at-Follows now o es h.0) (apply_each-Follows now os (apply_at o es).0 h.1)
