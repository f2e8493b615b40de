-- ===== src/Evaluation/Activation.antt =====
-- What `Activate` returns: no key twice, and new reducers.
use assembled_watchtower.Base.{
  ◌≤◌, ◌<◌, List, [], ◌∷◌, Option, none, some, true, false, inl, inr, Sum-cases, Option-cases, same,
  Str, Str-discrete, str_ltb, ltb_ℤ, max, All, All-map, Unique, lookup, arith, ◌≡◌, ◌≢◌, refl, ap,
  Bool-cases, if_neg,
}
use assembled_watchtower.Base.Sort.{sort, Sorted, sort-Sorted, IsLess, lex-IsLess, same-IsEqb}
use assembled_watchtower.Base.Orders.{ltb_ℤ-IsTotal, str_ltb-IsTotal}
use assembled_watchtower.Base.Time.{Time, zero_time}
use assembled_watchtower.Json.{Json}
use assembled_watchtower.Rules.Compile.{GroupResolver, compile}
use assembled_watchtower.Conditions.Types.{Reducer, RuleConfig}
use assembled_watchtower.Conditions.Reducer.{new}
use assembled_watchtower.Conditions.Coherence.{new-IsCoherent}
use assembled_watchtower.App.Request.{ActiveRule, less_rule, same_rule, repeats}
use assembled_watchtower.Evaluation.Types.{RuleKey, RuleKey-discrete, Activation, Runtime}
use assembled_watchtower.Evaluation.Activate.{
  key_of, config_of, definition_signature, activate_rule, activate_rules, activate,
}
use assembled_watchtower.Conditions.Types.{Transition}
use assembled_watchtower.Evaluation.Clock.{advance_runtime}
use assembled_watchtower.Evaluation.Firing.{IsKept}
use assembled_watchtower.Evaluation.Merge.{IsAdvanced, advance_runtime-IsAdvanced}
use assembled_watchtower.Evaluation.Runs.{
  IsHealthy, pins, RuntimeCall, runtime_run, runtime_run-Keeps,
}

less_rule-IsLess :
    IsLess (λ (a b : ActiveRule). (a.id ≡ b.id) × (a.revision ≡ b.revision)) less_rule
unfolding less_rule
less_rule-IsLess =
    lex-IsLess (λ (r : ActiveRule). r.id) (same Str-discrete) str_ltb
      (λ a b. ltb_ℤ a.revision b.revision) (same-IsEqb Str-discrete) str_ltb-IsTotal
      (record {
        irrefl = λ a. ltb_ℤ-IsTotal.irrefl a.revision;
        trans = λ a b c. ltb_ℤ-IsTotal.trans a.revision b.revision c.revision;
        cotrans = λ a b c. ltb_ℤ-IsTotal.cotrans a.revision b.revision c.revision;
        tie = λ a b. ltb_ℤ-IsTotal.tie a.revision b.revision;
      })

-- A rule that is not below another nor repeats it is above it.
above : (p r : ActiveRule) → less_rule r p ≡ false → same_rule p r ≡ false → less_rule p r ≡ true
unfolding same_rule
above p r h k = elim (Bool-cases (less_rule p r)) [
  | inl e ↦ e
  | inr e ↦
      let (id, revision) = less_rule-IsLess.tie p r e h in absurd (ground (arith, id, revision, k))
]

-- Two rules of which one is below the other have different keys.
below_apart : (p r : ActiveRule) → less_rule p r ≡ true → key_of r ≢ key_of p
unfolding less_rule key_of
below_apart p r h e = ground (
  arith,
  ap (λ (k : RuleKey). k.id) e,
  ap (λ (k : RuleKey). k.revision) e,
  ltb_ℤ-IsTotal.irrefl p.revision,
  h,
)

new-logical : (cfg : RuleConfig) (r : Reducer) → new cfg ≡ some r → r.logical ≡ zero_time
unfolding new
new-logical cfg r h = ground arith

module _ (render : Json → Str) (resolver : Option GroupResolver) where
  -- An activated rule has a reducer from `New`.
  activate_rule-new :
      (r : ActiveRule) (a : Activation)
      → activate_rule render resolver r ≡ inr a
      → (cfg : RuleConfig) × (new cfg ≡ some a.reducer)
  unfolding activate_rule
  activate_rule-new r a h = elim (Sum-cases (compile r.definition resolver)) [
    | inl (e, p) ↦ absurd (ground (arith, h, p))
    | inr (plan, p) ↦ elim (Option-cases (definition_signature render r.definition)) [
      | inl q ↦ absurd (ground (arith, h, p, q))
      | inr (text, q) ↦ elim (Option-cases (new (config_of r plan))) [
        | inl n ↦ absurd (ground (arith, h, p, q, n))
        | inr (reducer, n) ↦ (config_of r plan, ground (arith, h, p, q, n))
      ]
    ]
  ]

  -- One rule, and the rules behind it.
  activate_rules-parts :
      (before : Option ActiveRule) (r : ActiveRule) (rs : List ActiveRule)
      (es : List (RuleKey × Activation))
      → activate_rules render resolver before (r ∷ rs) ≡ inr es
      → (a : Activation) × (fs : List (RuleKey × Activation)) × (repeats before r ≡ false)
        × (activate_rule render resolver r ≡ inr a)
        × (activate_rules render resolver (some r) rs ≡ inr fs)
        × (es ≡ (key_of r, a) ∷ fs)
  unfolding activate_rules
  activate_rules-parts before r rs es h = elim (Sum-cases (activate_rule render resolver r)) [
    | inl (e, p) ↦ absurd (ground (arith, h, p))
    | inr (a, p) ↦ elim (Sum-cases (activate_rules render resolver (some r) rs)) [
      | inl (e, q) ↦ absurd (ground (arith, h, p, q))
      | inr (fs, q) ↦ (a, fs, ground (arith, h), p, q, ground (arith, h, p, q))
    ]
  ]

  -- The rules behind one are all above it.
  above_rest :
      (p : ActiveRule) (rs : List ActiveRule) (es : List (RuleKey × Activation))
      → activate_rules render resolver (some p) rs ≡ inr es
      → Sorted less_rule less_rule-IsLess rs
      → All (λ r. less_rule r p ≡ false) rs
      → All (λ r. less_rule p r ≡ true) rs
  unfolding repeats
  above_rest p [] es h s b = tt
  above_rest p (r ∷ rs) es h s b =
      let (a, fs, fresh, here, rest, split) = activate_rules-parts (some p) r rs es h in
      let first = above p r b.0 fresh in
      (
        first,
        All-map (λ x. less_rule r x ≡ true) (λ x. less_rule p x ≡ true) rs
            (λ x l. less_rule-IsLess.trans p r x first l) (above_rest r rs fs rest s.1 s.0),
      )

  -- A key that no rule has is not activated.
  activate_rules-lookup :
      (k : RuleKey) (before : Option ActiveRule) (rs : List ActiveRule)
      (es : List (RuleKey × Activation))
      → activate_rules render resolver before rs ≡ inr es
      → All (λ r. key_of r ≢ k) rs
      → lookup RuleKey-discrete k es ≡ none
  unfolding lookup activate_rules
  activate_rules-lookup k before [] es h n = ground (arith, h)
  activate_rules-lookup k before (r ∷ rs) es h n =
      let (a, fs, fresh, here, rest, split) = activate_rules-parts before r rs es h in
      rw (split, lookup, if_neg (RuleKey-discrete (key_of r) k) n.0)
        (activate_rules-lookup k (some r) rs fs rest n.1)

  activate_rules_none :
      (before : Option ActiveRule) (es : List (RuleKey × Activation))
      → activate_rules render resolver before [] ≡ inr es
      → es ≡ []
  unfolding activate_rules
  activate_rules_none before es h = ground (arith, h)

  activate_rules-Unique :
      (before : Option ActiveRule) (rs : List ActiveRule) (es : List (RuleKey × Activation))
      → activate_rules render resolver before rs ≡ inr es
      → Sorted less_rule less_rule-IsLess rs
      → Unique RuleKey-discrete es × IsHealthy zero_time es
  activate_rules-Unique before [] es h s =
      rw (activate_rules_none before es h) (tt, record { coherent = tt; clocks = tt })
  activate_rules-Unique before (r ∷ rs) es h s =
      let (a, fs, fresh, here, rest, split) = activate_rules-parts before r rs es h in
      let (unique, healthy) = activate_rules-Unique (some r) rs fs rest s.1 in
      let (cfg, made) = activate_rule-new r a here in
      rw split (
        (
          activate_rules-lookup (key_of r) (some r) rs fs rest (
              All-map (λ x. less_rule r x ≡ true) (λ x. key_of x ≢ key_of r) rs
                (λ x l. below_apart r x l) (above_rest r rs fs rest s.1 s.0)),
          unique,
        ),
        record {
          coherent = (new-IsCoherent cfg a.reducer made, healthy.coherent);
          clocks = (omega (arith, new-logical cfg a.reducer made), healthy.clocks);
        },
      )

  activate-parts :
      (rules : List ActiveRule) (rt : Runtime)
      → activate render rules resolver ≡ inr rt
      → Unique RuleKey-discrete rt.active × IsHealthy rt.logical rt.active
  unfolding activate
  activate-parts rules rt h =
      elim (Sum-cases (activate_rules render resolver none (sort less_rule rules))) [
        | inl (e, p) ↦ absurd (ground (arith, h, p))
        | inr (es, p) ↦
            let active : rt.active ≡ es = ground (arith, h, p) in
            let clock : rt.logical ≡ zero_time = ground (arith, h, p) in
            rw (active, clock)
              (activate_rules-Unique none (sort less_rule rules) es p
                (sort-Sorted less_rule less_rule-IsLess rules))
      ]

-- The keys of entries with the same pins.
pins-lookup :
    (k : RuleKey) (es fs : List (RuleKey × Activation))
    → pins fs ≡ pins es
    → lookup RuleKey-discrete k es ≡ none
    → lookup RuleKey-discrete k fs ≡ none
unfolding lookup
pins-lookup k [] [] p h = refl
pins-lookup k [] (f ∷ fs) p h = cc
pins-lookup k (e ∷ es) [] p h = refl
pins-lookup k (e ∷ es) (f ∷ fs) p h = ground (arith, p, h, pins-lookup k es fs (ground (arith, p)))

pins-Unique :
    (es fs : List (RuleKey × Activation))
    → pins fs ≡ pins es
    → Unique RuleKey-discrete es
    → Unique RuleKey-discrete fs
pins-Unique [] [] p u = tt
pins-Unique [] (f ∷ fs) p u = cc
pins-Unique (e ∷ es) [] p u = tt
pins-Unique (e ∷ es) (f ∷ fs) p u =
    let same_key : f.0 ≡ e.0 = ground (arith, p) in
    let rest : pins fs ≡ pins es = ground (arith, p) in
    (rw same_key (pins-lookup e.0 es fs rest u.0), pins-Unique es fs rest u.1)

-- After any calls on an activated runtime, errors included: the keys, plans and signatures of its
-- entries are those that `Activate` pinned; no key stands twice; every reducer is coherent; and no
-- reducer's clock is ahead of the runtime's, or of the zero time where that is later.
pub runtime_run-IsHealthy :
    (render : Json → Str) (resolver : Option GroupResolver) (rules : List ActiveRule) (rt : Runtime)
    (cs : List RuntimeCall)
    → activate render rules resolver ≡ inr rt
    → (pins (runtime_run rt cs).active ≡ pins rt.active)
      × Unique RuleKey-discrete (runtime_run rt cs).active
      × IsHealthy (runtime_run rt cs).logical (runtime_run rt cs).active
runtime_run-IsHealthy render resolver rules rt cs h =
    let (unique, healthy) = activate-parts render resolver rules rt h in
    let keeps = runtime_run-Keeps rt cs in
    (
      keeps.pinned,
      pins-Unique rt.active (runtime_run rt cs).active keeps.pinned unique,
      keeps.healthy healthy,
    )

IsHealthy-IsKept :
    (logical now : Time) (es : List (RuleKey × Activation))
    → max logical zero_time ≤ now
    → IsHealthy logical es
    → All (IsKept now) es
IsHealthy-IsKept logical now [] le h = tt
IsHealthy-IsKept logical now (e ∷ es) le h = (
  (h.coherent.0.unique, omega (arith, h.clocks.0)),
  IsHealthy-IsKept logical now es le (record { coherent = h.coherent.1; clocks = h.clocks.1 }),
)

-- After any calls on an activated runtime, `Advance` to a time after the zero time and not before
-- the runtime's clock always succeeds, and has the whole effect of `IsAdvanced`: the due timers of
-- all rules fire in one canonical order, the others stay, and none that is due is left.
pub runtime_run-IsAdvanced :
    (render : Json → Str) (resolver : Option GroupResolver) (rules : List ActiveRule) (rt : Runtime)
    (cs : List RuntimeCall) (now : Time)
    → activate render rules resolver ≡ inr rt
    → zero_time < now
    → (runtime_run rt cs).logical ≤ now
    → (rt' : Runtime) × (out : List Transition) × (advance_runtime (runtime_run rt cs) now
        ≡ inr (rt', out))
      × IsAdvanced (runtime_run rt cs) now rt' out
runtime_run-IsAdvanced render resolver rules rt cs now h later le =
    let (pinned, unique, healthy) = runtime_run-IsHealthy render resolver rules rt cs h in
    advance_runtime-IsAdvanced (runtime_run rt cs) now
      (IsHealthy-IsKept (runtime_run rt cs).logical now (runtime_run rt cs).active (omega arith)
        healthy)
      le (ground arith)
