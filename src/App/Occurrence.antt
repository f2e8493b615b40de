-- ===== src/App/Occurrence.antt =====
-- `AcceptedOccurrence` and its `Validate`, which every part behind admission calls first.
use assembled_watchtower.Base.{
  ℕ, Option, none, some, not, ◌==◌, Str, Str-discrete, same, is_empty, if◌then◌else◌,
}
use assembled_watchtower.Base.Time.{Time, is_zero}
use assembled_watchtower.Events.Types.{Event, common_of, get_event_id}

-- `event` is `none` for the nil interface.
pub record AcceptedOccurrence : Type 0 where
  pub id : Str
  pub source : Str
  pub idempotency_key : Str
  pub ingest_position : ℕ
  pub source_event_id : Str
  pub effective_at : Time
  pub event : Option Event
  pub raw : Str

-- The errors of `Validate`, in the order of its tests.
pub data OccurrenceError : Type 0 where
  id_missing : OccurrenceError
  source_missing : OccurrenceError
  idempotency_key_missing : OccurrenceError
  position_missing : OccurrenceError
  source_event_id_missing : OccurrenceError
  id_is_source_event_id : OccurrenceError
  key_is_source_event_id : OccurrenceError
  effective_time_missing : OccurrenceError
  event_missing : OccurrenceError
  event_id_mismatch : OccurrenceError
  effective_time_mismatch : OccurrenceError
  raw_missing : OccurrenceError

unfoldable pub event_effective_at : Event → Time
event_effective_at e = (common_of e).timestamp

-- The tests of `Validate` that follow the one for a nil event.
unfoldable pub validate_event : AcceptedOccurrence → Event → Option OccurrenceError
validate_event o e =
    if not (same Str-discrete (get_event_id e) o.source_event_id)
    then some event_id_mismatch
    else if not (event_effective_at e == o.effective_at)
    then some effective_time_mismatch
    else if is_empty o.raw
    then some raw_missing
    else none

-- `none` is the nil error.
unfoldable pub validate : AcceptedOccurrence → Option OccurrenceError
validate o =
    if is_empty o.id
    then some id_missing
    else if is_empty o.source
    then some source_missing
    else if is_empty o.idempotency_key
    then some idempotency_key_missing
    else if o.ingest_position == 0
    then some position_missing
    else if is_empty o.source_event_id
    then some source_event_id_missing
    else if same Str-discrete o.id o.source_event_id
    then some id_is_source_event_id
    else if same Str-discrete o.idempotency_key o.source_event_id
    then some key_is_source_event_id
    else if is_zero o.effective_at
    then some effective_time_missing
    else elim o.event [ none ↦ some event_missing | some e ↦ validate_event o e ]
