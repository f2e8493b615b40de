-- ===== src/App/Examples.antt =====
-- A semantic commit on concrete inputs.
use assembled_watchtower.Base.{
  ◌≡◌, ◌↔◌, refl, [], ◌∷◌, some, none, codes, Str-discrete, ℕ_discrete, has, inr,
}
use assembled_watchtower.Events.Types.{QueueSnapshot, queue_snapshot, common_of, get_event_id}
use assembled_watchtower.App.Occurrence.{
  AcceptedOccurrence, validate, validate_event, event_effective_at,
}
use assembled_watchtower.App.Commit.{
  condition_transition_ids, alert_transition_ids, notification_intent_ids, unique_from, unique_ids,
  validate_ids, validate_commit, new_semantic_commit, duplicate_id,
}
use assembled_watchtower.App.Unique.{IsTimely, Distinct, new_semantic_commit-made}

abbrev snapshot : QueueSnapshot
snapshot = record {
  common = record { event_id = codes "e"; timestamp = 500; type = codes "queue_snapshot" };
  queue_id = codes "q";
  tickets_waiting = 3;
  longest_wait_sec = 30;
  sla_target_sec = 60;
  agents_available = 2;
  agents_on_call = 1;
  volume_last15m = 9;
  volume_forecast_next15m = none;
}

abbrev occurrence : AcceptedOccurrence
occurrence = record {
  id = codes "o";
  source = codes "file";
  idempotency_key = codes "k";
  ingest_position = 1;
  source_event_id = codes "e";
  effective_at = 500;
  event = some (queue_snapshot snapshot);
  raw = codes "{}";
}

program : Unit {0}
unfolding has Str-discrete ℕ_discrete common_of get_event_id validate validate_event
    event_effective_at unique_from unique_ids validate_ids validate_commit new_semantic_commit
program = tt

occurrence_is_valid : validate occurrence ≡ none
unfolding program
occurrence_is_valid = refl

twice_is_refused :
    unique_ids (codes "i" ∷ codes "j" ∷ codes "i" ∷ []) ≡ some (duplicate_id (codes "i"))
unfolding program
twice_is_refused = refl

new_semantic_commit-made_example :
    (new_semantic_commit occurrence 600 [] [] []
      ≡ inr (record {
        occurrence = occurrence;
        logical_time = 600;
        condition_transitions = [];
        alert_transitions = [];
        notification_intents = [];
      }))
    ↔ (IsTimely occurrence 600
        × Distinct (condition_transition_ids [])
        × Distinct (alert_transition_ids [])
        × Distinct (notification_intent_ids []))
new_semantic_commit-made_example = new_semantic_commit-made occurrence 600 [] [] []
