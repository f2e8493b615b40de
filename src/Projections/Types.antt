-- ===== src/Projections/Types.antt =====
-- The data of internal/projections/projections.go.
use assembled_watchtower.Base.{ℕ, List, Option, Bool, Str, ℕ_discrete}
use assembled_watchtower.Base.Time.{Time}
use assembled_watchtower.Events.Types.{
  State, QueueSnapshot, AgentStateChange, AdherenceCheck, Event,
}

pub record Provenance : Type 0 where
  pub occurrence_id : Str
  pub source : Str
  pub idempotency_key : Str
  pub ingest_position : ℕ
  pub source_event_id : Str
  pub effective_at : Time

pub record QueueObservation : Type 0 where
  pub provenance : Provenance
  pub snapshot : QueueSnapshot

pub record AgentStateObservation : Type 0 where
  pub provenance : Provenance
  pub change : AgentStateChange

pub record AdherenceObservation : Type 0 where
  pub provenance : Provenance
  pub check : AdherenceCheck

pub record QueueState : Type 0 where
  pub queue_id : Str
  pub tickets_waiting : ℕ
  pub longest_wait_sec : ℕ
  pub sla_target_sec : ℕ
  pub agents_available : ℕ
  pub agents_on_call : ℕ
  pub volume_last15m : ℕ
  pub volume_forecast_next15m : Option ℕ
  pub provenance : Provenance

pub record AgentState : Type 0 where
  pub agent_id : Str
  pub current : State
  pub provenance : Provenance

pub record AdherenceState : Type 0 where
  pub agent_id : Str
  pub scheduled_state : State
  pub actual_state : State
  pub in_violation : Bool
  pub violation_started_at : Option Time
  pub known_violation_since : Time
  pub provenance : Provenance

pub record QueueUpdate : Type 0 where
  pub observation : QueueObservation
  pub current : QueueState
  pub current_changed : Bool

pub record AgentStateUpdate : Type 0 where
  pub observation : AgentStateObservation
  pub current : AgentState
  pub current_changed : Bool

pub record AdherenceUpdate : Type 0 where
  pub observation : AdherenceObservation
  pub current : AdherenceState
  pub current_changed : Bool

-- The one update that `Update` holds: one of its three pointers is not nil.
pub data Change : Type 0 where
  queue : QueueUpdate → Change
  agent_state : AgentStateUpdate → Change
  adherence : AdherenceUpdate → Change

pub record Update : Type 0 where
  pub duplicate : Bool
  pub change : Change

pub record AdmissionKey : Type 0 where
  pub source : Str
  pub key : Str

unfoldable pub AdmissionKey-discrete : Discrete AdmissionKey
AdmissionKey-discrete = hlevel ℕ_discrete

-- `acceptedIdentity`
pub record AcceptedIdentity : Type 0 where
  pub source : Str
  pub idempotency_key : Str
  pub source_event_id : Str
  pub ingest_position : ℕ
  pub effective_at : Time
  pub event : Event
  pub raw : Str

-- All fields but the last are maps. A history that is missing reads as the empty one.
pub record Builder : Type 0 where
  pub queues : List (Str × QueueState)
  pub agents : List (Str × AgentState)
  pub adherence : List (Str × AdherenceState)
  pub queue_history : List (Str × List QueueObservation)
  pub agent_history : List (Str × List AgentStateObservation)
  pub adherence_history : List (Str × List AdherenceObservation)
  pub occurrences : List (Str × AcceptedIdentity)
  pub admissions : List (AdmissionKey × Str)
  pub last_position : ℕ
