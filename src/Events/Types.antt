-- ===== src/Events/Types.antt =====
-- The data of internal/events/events.go. A pointer is an option, and an `Event` is one of the three
-- values that the decoder returns; the nil interface is `none` where the code allows it.
use assembled_watchtower.Base.{ℕ, List, Option, Bool, Str, ℕ_discrete}
use assembled_watchtower.Base.Time.{Time}

-- `State`, a string.
abbrev pub State : Type 0
State = Str

pub record Common : Type 0 where
  pub event_id : Str
  pub timestamp : Time
  pub type : Str

pub record QueueSnapshot : Type 0 where
  pub common : Common
  pub queue_id : Str
  pub tickets_waiting : ℕ
  pub longest_wait_sec : ℕ
  pub sla_target_sec : ℕ
  pub agents_available : ℕ
  pub agents_on_call : ℕ
  pub volume_last15m : ℕ
  pub volume_forecast_next15m : Option ℕ

pub record AgentStateChange : Type 0 where
  pub common : Common
  pub agent_id : Str
  pub previous_state : Option State
  pub new_state : State
  pub previous_state_duration_sec : Option ℕ
  pub queue_ids : List Str

pub record AdherenceCheck : Type 0 where
  pub common : Common
  pub agent_id : Str
  pub scheduled_state : State
  pub actual_state : State
  pub in_violation : Bool
  pub violation_started_at : Option Time
  pub queue_ids : List Str

pub data Event : Type 0 where
  queue_snapshot : QueueSnapshot → Event
  agent_state_change : AgentStateChange → Event
  adherence_check : AdherenceCheck → Event

unfoldable pub Event-discrete : Discrete Event
Event-discrete = hlevel ℕ_discrete

-- The embedded fields.
unfoldable pub common_of : Event → Common
common_of (queue_snapshot q) = q.common
common_of (agent_state_change a) = a.common
common_of (adherence_check c) = c.common

-- `GetEventID`
unfoldable pub get_event_id : Event → Str
get_event_id e = (common_of e).event_id
