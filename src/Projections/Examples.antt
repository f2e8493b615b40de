-- ===== src/Projections/Examples.antt =====
-- The builder on concrete inputs: tests by evaluation, and the theorems at an input.
use assembled_watchtower.Base.{
  ℕ, ◌≡◌, ◌≢◌, refl, [], ◌∷◌, some, none, true, false, Str, codes, Str-discrete, ℕ_discrete, lookup,
  insert, ◌<◌,
}
use assembled_watchtower.Base.Time.{Time}
use assembled_watchtower.Events.Types.{
  QueueSnapshot, AdherenceCheck, Event-discrete, queue_snapshot, adherence_check, common_of,
  get_event_id,
}
use assembled_watchtower.App.Occurrence.{
  AcceptedOccurrence, validate, validate_event, event_effective_at,
}
use assembled_watchtower.Projections.Types.{Change, AdmissionKey-discrete}
use assembled_watchtower.Projections.Live.{
  provenance, newer, logged, log, replaces, held, current_after, queue_candidate, build_queue,
  continued_since, known_since, adherence_candidate, build_adherence,
}
use assembled_watchtower.Projections.Builder.{
  new, identity_of, same_identity, build, build_valid, build_new, build_again, build_event,
  duplicate, accept, admission_key, built,
}
use assembled_watchtower.Projections.Coherence.{IsCoherent, run, is_new, builder_run-IsCoherent}
use assembled_watchtower.Projections.Replay.{
  IsLater, current_changed, live_never_regresses, build-replayed, admitted_once,
}

-- A snapshot of queue `q` at a time, with a number of tickets.
abbrev snapshot : Str → Time → ℕ → QueueSnapshot
snapshot event_id at tickets = record {
  common = record { event_id = event_id; timestamp = at; type = codes "queue_snapshot" };
  queue_id = codes "q";
  tickets_waiting = tickets;
  longest_wait_sec = 30;
  sla_target_sec = 60;
  agents_available = 2;
  agents_on_call = 1;
  volume_last15m = 9;
  volume_forecast_next15m = none;
}

abbrev check : Str → Time → AdherenceCheck
check event_id at = record {
  common = record { event_id = event_id; timestamp = at; type = codes "adherence_check" };
  agent_id = codes "a";
  scheduled_state = codes "available";
  actual_state = codes "on_break";
  in_violation = true;
  violation_started_at = none;
  queue_ids = [];
}

abbrev occurrence : Str → Str → ℕ → Time → AcceptedOccurrence
occurrence id event_id position at = record {
  id = id;
  source = codes "file";
  idempotency_key = id;
  ingest_position = position;
  source_event_id = event_id;
  effective_at = at;
  event = some (queue_snapshot (snapshot event_id at position));
  raw = codes "{}";
}

abbrev first : AcceptedOccurrence
first = occurrence (codes "o1") (codes "e1") 1 500

-- Earlier than `first`, but read after it.
abbrev late : AcceptedOccurrence
late = occurrence (codes "o2") (codes "e2") 2 400

abbrev third : AcceptedOccurrence
third = occurrence (codes "o3") (codes "e3") 3 600

abbrev violation : AcceptedOccurrence
violation = record (occurrence (codes "o4") (codes "e4") 4 700) {
  event = some (adherence_check (check (codes "e4") 700));
}

program : Unit {0}
unfolding lookup insert Str-discrete ℕ_discrete Event-discrete common_of get_event_id validate
    validate_event event_effective_at AdmissionKey-discrete provenance newer logged log replaces
    held current_after queue_candidate build_queue continued_since known_since adherence_candidate
    build_adherence new identity_of same_identity build build_valid build_new build_again
    build_event duplicate accept admission_key run
program = tt

late_is_accepted : is_new (build (build new first).0 late).1 ≡ true
unfolding program
late_is_accepted = refl

late_leaves_live : (run new (first ∷ late ∷ [])).queues ≡ (run new (first ∷ [])).queues
unfolding program
late_leaves_live = refl

builder_run-IsCoherent_example :
    IsCoherent (run new (first ∷ late ∷ third ∷ violation ∷ first ∷ []))
builder_run-IsCoherent_example =
    builder_run-IsCoherent (first ∷ late ∷ third ∷ violation ∷ first ∷ [])

live_never_regresses_example :
    IsLater (run new (first ∷ [])) (run (run new (first ∷ [])) (late ∷ []))
live_never_regresses_example = live_never_regresses (run new (first ∷ [])) (late ∷ [])

build-replayed_example :
    let r = run (build new first).0 (late ∷ third ∷ []) in
    (c : Change) × (build r first ≡ (r, built (record { duplicate = true; change = c })))
    × (current_changed c ≡ false)
unfolding program
build-replayed_example = build-replayed new first (late ∷ third ∷ []) refl

admitted_once_example :
    (first.id ≢ third.id)
    × (admission_key first ≢ admission_key third)
    × (first.ingest_position < third.ingest_position)
unfolding program
admitted_once_example = admitted_once new first (late ∷ []) third refl refl
