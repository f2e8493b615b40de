-- ===== src/Events/Decode.antt =====
-- `Decode`: the events of JSON objects. `none` is an error; which of several unknown or missing
-- fields an error names depends on the order of a Go map and is left out.
use assembled_watchtower.Base.{
  List, [], ◌∷◌, ◌++◌, Option, none, some, Bool, true, false, ◌&&◌, if◌then◌else◌, same, Str, codes,
  Str-discrete, has,
}
use assembled_watchtower.Base.Do.{◌>>=◌, ◌>>◌, guard}
use assembled_watchtower.Base.Time.{Time}
use assembled_watchtower.Json.{Json, Fields, null, object, no_fields, field}
use assembled_watchtower.Events.Types.{
  Common, QueueSnapshot, AgentStateChange, AdherenceCheck, Event, queue_snapshot,
  agent_state_change, adherence_check,
}
use assembled_watchtower.Events.Fields.{
  get, walk_json, str, uint, uint_ptr, state, state_ptr, boolean_of, strings_arr, time_val,
  time_ptr,
}

abbrev common_fields : List Str
common_fields = codes "event_id" ∷ codes "ts" ∷ codes "type" ∷ []

-- `schemas`; `none` is an unknown type.
unfoldable pub schema : Str → Option (List Str)
schema t =
    if same Str-discrete t (codes "queue_snapshot")
    then some (
        common_fields
        ++ codes "queue_id"
          ∷ codes "tickets_waiting"
          ∷ codes "longest_wait_sec"
          ∷ codes "sla_target_sec"
          ∷ codes "agents_available"
          ∷ codes "agents_on_call"
          ∷ codes "volume_last_15m"
          ∷ codes "volume_forecast_next_15m"
          ∷ [])
    else if same Str-discrete t (codes "agent_state_change")
    then some (
        common_fields
        ++ codes "agent_id"
          ∷ codes "previous_state"
          ∷ codes "previous_state_duration_sec"
          ∷ codes "new_state"
          ∷ codes "queue_ids"
          ∷ [])
    else if same Str-discrete t (codes "adherence_check")
    then some (
        common_fields
        ++ codes "agent_id"
          ∷ codes "scheduled_state"
          ∷ codes "actual_state"
          ∷ codes "in_violation"
          ∷ codes "violation_started_at"
          ∷ codes "queue_ids"
          ∷ [])
    else none

-- The loop over the object's keys.
unfoldable pub all_allowed : List Str → Fields → Bool
all_allowed allowed no_fields = true
all_allowed allowed (field k v fs) = has Str-discrete k allowed && all_allowed allowed fs

-- `requireFields`
unfoldable pub require_fields : Fields → List Str → Bool
require_fields o [] = true
require_fields o (k ∷ ks) = elim (get k o) [ none ↦ false | some v ↦ require_fields o ks ]

-- The map of an object; null leaves the map nil.
unfoldable pub fields_of : Json → Option Fields
fields_of (object fs) = some fs
fields_of null = some no_fields
fields_of _ = none

unfoldable pub decode_queue_snapshot : Fields → Common → Option QueueSnapshot
decode_queue_snapshot o c = do
  queue ← str o (codes "queue_id")
  waiting ← uint o (codes "tickets_waiting")
  longest ← uint o (codes "longest_wait_sec")
  sla ← uint o (codes "sla_target_sec")
  available ← uint o (codes "agents_available")
  on_call ← uint o (codes "agents_on_call")
  volume ← uint o (codes "volume_last_15m")
  forecast ← uint_ptr o (codes "volume_forecast_next_15m")
  some (record {
    common = c;
    queue_id = queue;
    tickets_waiting = waiting;
    longest_wait_sec = longest;
    sla_target_sec = sla;
    agents_available = available;
    agents_on_call = on_call;
    volume_last15m = volume;
    volume_forecast_next15m = forecast;
  })

unfoldable pub decode_agent_state_change : Fields → Common → Option AgentStateChange
decode_agent_state_change o c = do
  agent ← str o (codes "agent_id")
  previous ← state_ptr o (codes "previous_state")
  new ← state o (codes "new_state")
  lasted ← uint_ptr o (codes "previous_state_duration_sec")
  queues ← strings_arr o (codes "queue_ids") true
  some (record {
    common = c;
    agent_id = agent;
    previous_state = previous;
    new_state = new;
    previous_state_duration_sec = lasted;
    queue_ids = queues;
  })

module _ (parse : Str → Option Time) where
  unfoldable pub common : Fields → Str → Option Common
  common o t = do
    id ← str o (codes "event_id")
    ts ← time_val parse o (codes "ts")
    some (record { event_id = id; timestamp = ts; type = t })

  unfoldable pub decode_adherence_check : Fields → Common → Option AdherenceCheck
  decode_adherence_check o c = do
    agent ← str o (codes "agent_id")
    scheduled ← state o (codes "scheduled_state")
    actual ← state o (codes "actual_state")
    violation ← boolean_of o (codes "in_violation")
    started ← time_ptr parse o (codes "violation_started_at")
    queues ← strings_arr o (codes "queue_ids") false
    some (record {
      common = c;
      agent_id = agent;
      scheduled_state = scheduled;
      actual_state = actual;
      in_violation = violation;
      violation_started_at = started;
      queue_ids = queues;
    })

  -- The switch over the type.
  unfoldable pub decode_type : Str → Fields → Common → Option Event
  decode_type t o c =
      if same Str-discrete t (codes "queue_snapshot")
      then (do q ← decode_queue_snapshot o c; some (queue_snapshot q))
      else if same Str-discrete t (codes "agent_state_change")
      then (do a ← decode_agent_state_change o c; some (agent_state_change a))
      else (do a ← decode_adherence_check o c; some (adherence_check a))

  unfoldable pub decode : Json → Option Event
  decode j = do
    guard (walk_json j)
    o ← fields_of j
    t ← str o (codes "type")
    allowed ← schema t
    guard (all_allowed allowed o)
    guard (require_fields o allowed)
    c ← common o t
    decode_type t o c
