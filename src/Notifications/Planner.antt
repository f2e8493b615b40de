-- ===== src/Notifications/Planner.antt =====
-- `Planner`: its data, `Plan`, `PlanTransition` and `IntentID`, and what they promise.
use assembled_watchtower.Base.{
  ℕ, ◌≡◌, List, [], ◌∷◌, none, some, Bool, true, false, not, if◌then◌else◌, Str, codes,
  Str-discrete, arith, lookup, insert, lookup-insert,
}
use assembled_watchtower.Base.Time.{Time, zero_time}
use assembled_watchtower.Ids.{format_uint, canonical_parts, stable_id}
use assembled_watchtower.Ids.Decimal.{format_uint-injective}
use assembled_watchtower.Ids.Parts.{stable_id-injective}
use assembled_watchtower.Alerts.Types.{Transition, TransitionKind, kind_number}

pub record Policy : Type 0 where
  pub on_open : Bool
  pub on_recovery : Bool
  pub audience : Str

pub record Intent : Type 0 where
  pub id : Str
  pub alert_transition_id : Str
  pub series_id : Str
  pub generation : ℕ
  pub kind : TransitionKind
  pub audience : Str
  pub at : Time
  pub effective_at : Time
  pub evidence_at : Time

pub record Planner : Type 0 where
  pub intents : List (Str × Intent)

abbrev pub new : Planner
new = record { intents = [] }

-- `IntentID`
unfoldable pub intent_id : Transition → Str
intent_id t =
    stable_id (codes "notification-intent")
      (canonical_parts (t.id ∷ format_uint t.generation ∷ format_uint (kind_number t.kind) ∷ []))

-- The zero value of `Intent`.
abbrev pub no_intent : Intent
no_intent = record {
  id = [];
  alert_transition_id = [];
  series_id = [];
  generation = 0;
  kind = TransitionKind.opened;
  audience = [];
  at = zero_time;
  effective_at = zero_time;
  evidence_at = zero_time;
}

unfoldable pub intent_of : Transition → Policy → Intent
intent_of t policy = record {
  id = intent_id t;
  alert_transition_id = t.id;
  series_id = t.series_id;
  generation = t.generation;
  kind = t.kind;
  audience = policy.audience;
  at = t.at;
  effective_at = t.effective_at;
  evidence_at = t.evidence_at;
}

-- The two tests at the head of `Plan`: the kind is known, and the policy asks for it.
unfoldable pub wanted : Transition → Policy → Bool
wanted t policy = elim t.kind [
  | TransitionKind.opened ↦ policy.on_open
  | TransitionKind.recovery ↦ policy.on_recovery
  | TransitionKind.other n ↦ false
]

-- The planner after the call, the intent, and whether it was created.
unfoldable pub plan : Planner → Transition → Policy → Planner × Intent × Bool
plan p t policy =
    if not (wanted t policy)
    then (p, no_intent, false)
    else (elim (lookup Str-discrete (intent_id t) p.intents) [
      | some existing ↦ (p, existing, false)
      | none ↦ (
        record p { intents = insert Str-discrete (intent_id t) (intent_of t policy) p.intents },
        intent_of t policy,
        true,
      )
    ])

unfoldable pub plan_transition : Transition → Policy → Intent × Bool
plan_transition t policy = let (p, i, created) = plan new t policy in (i, created)

-- The planned transitions, in order, on one planner.
unfoldable pub plan_all : Planner → List (Transition × Policy) → Planner
plan_all p [] = p
plan_all p ((t, policy) ∷ ts) = plan_all (plan p t policy).0 ts

-- Equal intent IDs come from transitions of the same ID, generation and kind.
pub intent_id-injective :
    (t u : Transition)
    → intent_id t ≡ intent_id u
    → (t.id ≡ u.id) × (t.generation ≡ u.generation) × (kind_number t.kind ≡ kind_number u.kind)
unfolding intent_id
intent_id-injective t u h =
    let parts = stable_id-injective (codes "notification-intent") _ _ h in
    (
      cc parts,
      format_uint-injective t.generation u.generation (cc parts),
      format_uint-injective (kind_number t.kind) (kind_number u.kind) (cc parts),
    )

plan-keeps :
    (p : Planner) (t : Transition) (policy : Policy) (id : Str) (i : Intent)
    → lookup Str-discrete id p.intents ≡ some i
    → lookup Str-discrete id (plan p t policy).0.intents ≡ some i
unfolding plan
plan-keeps p t policy id i h =
    ground (arith, lookup-insert Str-discrete (intent_id t) id (intent_of t policy) p.intents)

plan_all-keeps :
    (p : Planner) (ts : List (Transition × Policy)) (id : Str) (i : Intent)
    → lookup Str-discrete id p.intents ≡ some i
    → lookup Str-discrete id (plan_all p ts).intents ≡ some i
unfolding plan_all
plan_all-keeps p [] id i h = h
plan_all-keeps p ((t, policy) ∷ ts) id i h =
    plan_all-keeps (plan p t policy).0 ts id i (plan-keeps p t policy id i h)

-- Planning is idempotent: once `Plan` has created an intent for a transition, then after any further
-- planning a call for that transition, under any policy that wants its kind, returns the first
-- intent, reports that nothing was created, and leaves the planner as it was.
pub plan-replayed :
    (p : Planner) (t : Transition) (policy later : Policy) (ts : List (Transition × Policy))
    → (plan p t policy).2 ≡ true
    → wanted t later ≡ true
    → let p' = plan_all (plan p t policy).0 ts in plan p' t later ≡ (p', intent_of t policy, false)
plan-replayed p t policy later ts created wants =
    let stored : lookup Str-discrete (intent_id t) (plan p t policy).0.intents
        ≡ some (intent_of t policy) =
      unfold plan in
      ground (
        arith,
        lookup-insert Str-discrete (intent_id t) (intent_id t) (intent_of t policy) p.intents,
      ) in
    let kept = plan_all-keeps (plan p t policy).0 ts (intent_id t) (intent_of t policy) stored in
    unfold plan in ground (arith, kept)
