-- ===== src/Notifications/Examples.antt =====
-- Intents and deliveries on concrete inputs: tests by evaluation, and the theorems at an input.
use assembled_watchtower.Base.{
  ℕ, ◌≡◌, refl, List, [], ◌∷◌, some, none, true, false, Str, codes, pos, Str-discrete, ℕ_discrete,
  lookup, insert, map, if◌then◌else◌, ◌&&◌, arith,
}
use assembled_watchtower.Base.Time.{zero_time}
use assembled_watchtower.Ids.{canonical_parts, stable_id}
use assembled_watchtower.Alerts.Types.{TransitionKind, Transition, kind_number}
use assembled_watchtower.Notifications.Planner.{
  Policy, Intent, Planner, intent_id, intent_of, wanted, plan, plan_all, plan-replayed,
  intent_id-injective, no_intent,
}
use assembled_watchtower.Notifications.History.{asks, asked_for, first_asked, plan_all-first_asked}
use mathlib.Core.Option
use assembled_watchtower.Notifications.Planner as Plans
use assembled_watchtower.Notifications.Delivery.{
  DeliveryStatus, DeliveryStatus-discrete, Delivery, DeliveryAttempt, DeliveryReducer, new, find,
  put, ensure, claim_token, claim, begin, finish_last, error_after, finish, complete, fail,
}
use assembled_watchtower.Notifications.Fencing.{IsCoherent}
use assembled_watchtower.Notifications.Runs.{
  Call, ensures, begins, fails, run, step, delivery_run-IsCoherent, stale_token_refused,
  delivered_for_good,
}

abbrev opening : Transition
opening = record {
  id = codes "t";
  series = record { rule_id = codes "r"; subject_kind = codes "queue"; subject_id = codes "q" };
  series_id = codes "s";
  generation = 1;
  kind = TransitionKind.opened;
  at = 5;
  effective_at = 5;
  evidence_at = 5;
  episode_id = codes "e";
  revision = pos 1;
}

abbrev policy : Policy
policy = record { on_open = true; on_recovery = false; audience = codes "leads" }

program : Unit {0}
unfolding lookup insert Str-discrete ℕ_discrete intent_id intent_of wanted plan plan_all find put
    ensure claim_token claim begin finish_last error_after finish complete fail run step
    DeliveryStatus-discrete stable_id canonical_parts kind_number
program = tt

opened_once : (plan Plans.new opening policy).2 ≡ true
unfolding program
opened_once = refl

recovery_unwanted :
    (plan Plans.new (record opening { kind = TransitionKind.recovery }) policy).2 ≡ false
unfolding program
recovery_unwanted = refl

-- Claim, fail, claim again, and complete with the second token.
abbrev retried : List Call
retried =
    ensures (intent_of opening policy)
    ∷ begins (intent_id opening) 10
    ∷ fails (intent_id opening) (claim_token (intent_id opening) 1) 11 (some (codes "down"))
    ∷ begins (intent_id opening) 12
    ∷ []

abbrev finished : DeliveryReducer
finished = (complete (run new retried) (intent_id opening) (claim_token (intent_id opening) 2) 13).0

abbrev attempt : ℕ → DeliveryStatus → ℕ → ℕ → Str → DeliveryAttempt
attempt n status started ended error = record {
  number = n;
  token = claim_token (intent_id opening) n;
  status = status;
  started_at = started;
  finished_at = ended;
  error = error;
}

abbrev delivered : Delivery
delivered = record {
  intent_id = intent_id opening;
  status = DeliveryStatus.delivered;
  claim_token = [];
  attempts =
      attempt 1 DeliveryStatus.failed 10 11 (codes "down")
      ∷ attempt 2 DeliveryStatus.delivered 12 13 []
      ∷ [];
}

finished_delivery : find finished (intent_id opening) ≡ some delivered
unfolding program
finished_delivery = refl

intent_id-injective_example :
    (opening.id ≡ opening.id)
    × (opening.generation ≡ opening.generation)
    × (kind_number opening.kind ≡ kind_number opening.kind)
intent_id-injective_example = intent_id-injective opening opening refl

plan-replayed_example :
    let p = plan_all (plan Plans.new opening policy).0 ((opening, policy) ∷ []) in
    plan p opening policy ≡ (p, intent_of opening policy, false)
unfolding wanted
plan-replayed_example =
    plan-replayed Plans.new opening policy policy ((opening, policy) ∷ []) opened_once refl

-- The opening for one audience, its recovery, which no policy asks for, and the opening again.
abbrev recovery : Transition
recovery = record opening { kind = TransitionKind.recovery }

abbrev loud : Policy
loud = record { on_open = true; on_recovery = true; audience = codes "all" }

abbrev planned : List (Transition × Policy)
planned = (opening, policy) ∷ (recovery, policy) ∷ (opening, loud) ∷ []

plan_all-first_asked_example :
    let p = plan_all Plans.new planned in
    let first = first_asked (intent_id recovery) planned in
    ((j : Str) → lookup Str-discrete j p.intents ≡ first_asked j planned)
    × ((plan p recovery loud).2
        ≡ (asks (recovery, loud) && (elim first [ none ↦ true | some i ↦ false ])))
    × ((plan p recovery loud).1 ≡ (
        if asks (recovery, loud)
        then Option.get_or first (asked_for (recovery, loud))
        else no_intent))
plan_all-first_asked_example = plan_all-first_asked planned recovery loud

only_the_opening :
    map (λ (e : Str × Intent). e.1) (plan_all Plans.new planned).intents
    ≡ asked_for (opening, policy) ∷ []
unfolding program
only_the_opening = refl

delivery_run-IsCoherent_example : IsCoherent (run new retried)
delivery_run-IsCoherent_example = delivery_run-IsCoherent retried

abbrev claimed_again : Delivery
claimed_again = record delivered {
  status = DeliveryStatus.claimed;
  claim_token = claim_token (intent_id opening) 2;
  attempts =
      attempt 1 DeliveryStatus.failed 10 11 (codes "down")
      ∷ attempt 2 DeliveryStatus.claimed 12 zero_time []
      ∷ [];
}

claimed_again_found : find (run new retried) (intent_id opening) ≡ some claimed_again
unfolding program
claimed_again_found = refl

stale_token_refused_example :
    (complete (run new retried) (intent_id opening) (claim_token (intent_id opening) 1) 20
      ≡ (run new retried, none))
    × (fail (run new retried) (intent_id opening) (claim_token (intent_id opening) 1) 20 none
        ≡ (run new retried, none))
stale_token_refused_example =
    stale_token_refused (run new retried) (intent_id opening) claimed_again 1 20 none
      (delivery_run-IsCoherent retried) claimed_again_found (omega arith)

delivered_for_good_example :
    let r = run finished retried in
    (find r (intent_id opening) ≡ some delivered)
    × (begin r (intent_id opening) 20 ≡ (r, none))
    × (complete r (intent_id opening) (codes "x") 20 ≡ (r, none))
    × (fail r (intent_id opening) (codes "x") 20 none ≡ (r, none))
delivered_for_good_example =
    delivered_for_good finished (intent_id opening) delivered retried (codes "x") 20 none
      finished_delivery refl
