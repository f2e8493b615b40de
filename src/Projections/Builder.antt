-- ===== src/Projections/Builder.antt =====
-- `Builder`: `NewBuilder`, `Build` and `duplicate`. Two events that differ only in the location of
-- a time are the same here.
use assembled_watchtower.Base.{
  [], Option, none, some, Bool, true, false, not, ◌&&◌, ◌==◌, leb, if◌then◌else◌, same, Str,
  Str-discrete, lookup, insert,
}
use assembled_watchtower.Events.Types.{
  Event, Event-discrete, queue_snapshot, agent_state_change, adherence_check,
}
use assembled_watchtower.App.Occurrence.{AcceptedOccurrence, OccurrenceError, validate}
use assembled_watchtower.Projections.Types.{
  Change, Update, AdmissionKey, AdmissionKey-discrete, AcceptedIdentity, Builder,
}
use assembled_watchtower.Projections.Live.{
  provenance, build_queue, build_agent_state, build_adherence,
}

unfoldable pub new : Builder
new = record {
  queues = [];
  agents = [];
  adherence = [];
  queue_history = [];
  agent_history = [];
  adherence_history = [];
  occurrences = [];
  admissions = [];
  last_position = 0;
}

unfoldable pub identity_of : AcceptedOccurrence → Event → AcceptedIdentity
identity_of o e = record {
  source = o.source;
  idempotency_key = o.idempotency_key;
  source_event_id = o.source_event_id;
  ingest_position = o.ingest_position;
  effective_at = o.effective_at;
  event = e;
  raw = o.raw;
}

unfoldable pub same_identity : AcceptedIdentity → AcceptedIdentity → Bool
same_identity a b =
    same Str-discrete a.source b.source
    && same Str-discrete a.idempotency_key b.idempotency_key
    && same Str-discrete a.source_event_id b.source_event_id
    && (a.ingest_position == b.ingest_position)
    && (a.effective_at == b.effective_at)
    && same Event-discrete a.event b.event
    && same Str-discrete a.raw b.raw

-- The switch of `Build`.
unfoldable pub build_event : Builder → AcceptedOccurrence → Event → Builder × Change
build_event b o (queue_snapshot s) = let (b', u) = build_queue b o s in (b', Change.queue u)
build_event b o (agent_state_change c) =
    let (b', u) = build_agent_state b o c in (b', Change.agent_state u)
build_event b o (adherence_check c) =
    let (b', u) = build_adherence b o c in (b', Change.adherence u)

-- The update of `duplicate`; `none` is its error, that there is no live state.
unfoldable pub duplicate : Builder → AcceptedOccurrence → Event → Option Change
duplicate b o (queue_snapshot s) = elim (lookup Str-discrete s.queue_id b.queues) [
  | none ↦ none
  | some x ↦ some (
      Change.queue (record {
        observation = record { provenance = provenance o; snapshot = s };
        current = x;
        current_changed = false;
      }))
]
duplicate b o (agent_state_change c) = elim (lookup Str-discrete c.agent_id b.agents) [
  | none ↦ none
  | some x ↦ some (
      Change.agent_state (record {
        observation = record { provenance = provenance o; change = c };
        current = x;
        current_changed = false;
      }))
]
duplicate b o (adherence_check c) = elim (lookup Str-discrete c.agent_id b.adherence) [
  | none ↦ none
  | some x ↦ some (
      Change.adherence (record {
        observation = record { provenance = provenance o; check = c };
        current = x;
        current_changed = false;
      }))
]

-- The results of `Build`: an update, or one of its errors. The error on an event of another type
-- needs a nil event, which `Validate` has refused.
pub data Outcome : Type 0 where
  built : Update → Outcome
  invalid : OccurrenceError → Outcome
  conflicting : Outcome
  readmitted : Str → Outcome
  out_of_order : Outcome
  no_live_state : Outcome

unfoldable pub admission_key : AcceptedOccurrence → AdmissionKey
admission_key o = record { source = o.source; key = o.idempotency_key }

-- An occurrence whose ID was accepted before.
unfoldable pub build_again :
    Builder → AcceptedOccurrence → Event → AcceptedIdentity → Builder × Outcome
build_again b o e prior =
    if not (same_identity prior (identity_of o e))
    then (b, conflicting)
    else (elim (duplicate b o e) [
      | none ↦ (b, no_live_state)
      | some c ↦ (b, built (record { duplicate = true; change = c }))
    ])

-- The builder after an occurrence that was accepted.
unfoldable pub accept : Builder → AcceptedOccurrence → Event → Builder
accept b o e =
    let b' = (build_event b o e).0 in
    record b' {
      occurrences = insert Str-discrete o.id (identity_of o e) b.occurrences;
      admissions = insert AdmissionKey-discrete (admission_key o) o.id b.admissions;
      last_position = o.ingest_position;
    }

-- An occurrence whose ID is new.
unfoldable pub build_new : Builder → AcceptedOccurrence → Event → Builder × Outcome
build_new b o e = elim (lookup AdmissionKey-discrete (admission_key o) b.admissions) [
  | some prior_id ↦ (b, readmitted prior_id)
  | none ↦
      if leb o.ingest_position b.last_position
      then (b, out_of_order)
      else (accept b o e, built (record { duplicate = false; change = (build_event b o e).1 }))
]

unfoldable pub build_valid : Builder → AcceptedOccurrence → Event → Builder × Outcome
build_valid b o e = elim (lookup Str-discrete o.id b.occurrences) [
  | some prior ↦ build_again b o e prior
  | none ↦ build_new b o e
]

unfoldable pub build : Builder → AcceptedOccurrence → Builder × Outcome
build b o = elim (validate o) [
  | some e ↦ (b, invalid e)
  | none ↦ elim o.event [
    | none ↦ (b, invalid OccurrenceError.event_missing)
    | some e ↦ build_valid b o e
  ]
]
