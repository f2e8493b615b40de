-- ===== src/Notifications/History.antt =====
-- What `Planner` is by the calls that it has had: the intents are those of the first asking call for
-- each intent ID.
use assembled_watchtower.Base.{
  ◌≡◌, refl, List, [], ◌∷◌, Option, none, some, Bool, true, false, ◌&&◌, ◌||◌, if◌then◌else◌, same,
  Str, Str-discrete, arith, lookup, lookup-insert,
}
use mathlib.Core.Option
use assembled_watchtower.Alerts.Types.{Transition, TransitionKind, TransitionKind-discrete}
use assembled_watchtower.Notifications.Planner.{
  Policy, Intent, Planner, new, no_intent, intent_id, intent_of, wanted, plan, plan_all,
}

-- The policy asks for an intent of an opening or of a recovery; for other kinds there is none.
unfoldable pub asks : Transition × Policy → Bool
asks (t, policy) =
    (same TransitionKind-discrete t.kind TransitionKind.opened && policy.on_open)
    || (same TransitionKind-discrete t.kind TransitionKind.recovery && policy.on_recovery)

-- The transition's own data, for the policy's audience.
abbrev pub asked_for : Transition × Policy → Intent
asked_for (t, policy) = record {
  id = intent_id t;
  alert_transition_id = t.id;
  series_id = t.series_id;
  generation = t.generation;
  kind = t.kind;
  audience = policy.audience;
  at = t.at;
  effective_at = t.effective_at;
  evidence_at = t.evidence_at;
}

-- The intent that the first asking call for an intent ID asked for.
unfoldable pub first_asked : Str → List (Transition × Policy) → Option Intent
first_asked j [] = none
first_asked j (call ∷ calls) =
    if asks call && same Str-discrete (intent_id call.0) j
    then some (asked_for call)
    else first_asked j calls

wanted-asks : (t : Transition) (policy : Policy) → wanted t policy ≡ asks (t, policy)
unfolding wanted asks TransitionKind-discrete
wanted-asks t policy =
    elim t.kind
      as (λ kind.
        wanted (record t { kind = kind }) policy ≡ asks (record t { kind = kind }, policy)) [
          | TransitionKind.opened ↦ ground arith
          | TransitionKind.recovery ↦ refl
          | TransitionKind.other n ↦ refl
        ]

-- What is stored, or else what is to come.
plan_all-lookup :
    (p : Planner) (calls : List (Transition × Policy)) (j : Str)
    → lookup Str-discrete j (plan_all p calls).intents
      ≡ (elim (lookup Str-discrete j p.intents) [ none ↦ first_asked j calls | some i ↦ some i ])
unfolding plan_all plan first_asked intent_of
plan_all-lookup p [] j = ground arith
plan_all-lookup p ((t, policy) ∷ calls) j = ground (
  arith,
  plan_all-lookup (plan p t policy).0 calls j,
  wanted-asks t policy,
  lookup-insert Str-discrete (intent_id t) j (asked_for (t, policy)) p.intents,
)

-- After any planning calls on a new planner, the intent stored under an ID is the one that the first
-- asking call for this ID asked for, with the transition's data and the policy's audience, and there
-- is none without such a call. The next call reports a new intent exactly if its policy asks for one
-- and no call asked for its ID before. If its policy asks for one, it returns the intent first asked
-- for under its ID, or its own if there is none, and else the zero intent.
pub plan_all-first_asked :
    (calls : List (Transition × Policy)) (t : Transition) (policy : Policy)
    → let p = plan_all new calls in
      let first = first_asked (intent_id t) calls in
      ((j : Str) → lookup Str-discrete j p.intents ≡ first_asked j calls)
      × ((plan p t policy).2 ≡ (asks (t, policy) && (elim first [ none ↦ true | some i ↦ false ])))
      × ((plan p t policy).1
          ≡ (if asks (t, policy) then Option.get_or first (asked_for (t, policy)) else no_intent))
unfolding plan intent_of
plan_all-first_asked calls t policy = (
  stored,
  ground (arith, stored (intent_id t), wanted-asks t policy),
  ground (arith, stored (intent_id t), wanted-asks t policy),
)
  where
    stored : (j : Str) → lookup Str-discrete j (plan_all new calls).intents ≡ first_asked j calls
    stored j = unfold lookup in plan_all-lookup new calls j
