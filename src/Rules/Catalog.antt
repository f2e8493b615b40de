-- ===== src/Rules/Catalog.antt =====
-- The field catalog of internal/rules/types.go, the agent states, and the durations that
-- internal/rules/validate.go takes as valid.
use assembled_watchtower.Base.{
  List, [], ◌∷◌, Option, Bool, true, not, ◌||◌, ◌%◌, ltb, ◌==◌, Str, codes, Str-discrete, lookup,
  has, ℤ, pos, negsuc,
}
use assembled_watchtower.Rules.Types.{
  FieldSpec, subject_queue, subject_agent, type_duration, type_count, type_boolean,
  type_agent_state,
}

abbrev pub all_operators : List Str
all_operators = codes "eq" ∷ codes "ne" ∷ codes "gt" ∷ codes "gte" ∷ codes "lt" ∷ codes "lte" ∷ []

abbrev pub equality_operators : List Str
equality_operators = codes "eq" ∷ codes "ne" ∷ []

-- An entry for a queue, read from its snapshots.
abbrev queue_field : Str → Str → Str → Str × FieldSpec
queue_field name type source = (
  name,
  record {
    name = name;
    subject = subject_queue;
    type = type;
    operators = all_operators;
    source_projection = source;
    dependency = codes "queue_snapshot";
  },
)

unfoldable pub field_catalog : List (Str × FieldSpec)
field_catalog =
    queue_field (codes "queue.longest_wait") type_duration (codes "longest_wait_sec")
    ∷ queue_field (codes "queue.sla_target") type_duration (codes "sla_target_sec")
    ∷ queue_field (codes "queue.tickets_waiting") type_count (codes "tickets_waiting")
    ∷ queue_field (codes "queue.agents_available") type_count (codes "agents_available")
    ∷ queue_field (codes "queue.agents_on_call") type_count (codes "agents_on_call")
    ∷ queue_field (codes "queue.volume_last_15m") type_count (codes "volume_last_15m")
    ∷ queue_field (codes "queue.volume_forecast_next_15m") type_count
        (codes "volume_forecast_next_15m")
    ∷ (
      codes "adherence.violation",
      record {
        name = codes "adherence.violation";
        subject = subject_agent;
        type = type_boolean;
        operators = equality_operators;
        source_projection = codes "in_violation";
        dependency = codes "adherence";
      },
    )
    ∷ (
      codes "agent.current_state",
      record {
        name = codes "agent.current_state";
        subject = subject_agent;
        type = type_agent_state;
        operators = equality_operators;
        source_projection = codes "new_state";
        dependency = codes "agent_state";
      },
    )
    ∷ []

-- `field`
unfoldable pub field : Str → Option FieldSpec
field name = lookup Str-discrete name field_catalog

unfoldable pub valid_agent_state : Str → Bool
valid_agent_state s =
    has Str-discrete s
      (codes "available" ∷ codes "on_call" ∷ codes "on_break" ∷ codes "in_meeting" ∷ [])

-- Negative, not a whole number of seconds, or more than 365 days.
unfoldable pub time_duration_invalid : ℤ → Bool
time_duration_invalid (negsuc n) = true
time_duration_invalid (pos n) = not (n % 1000000000 == 0) || ltb 31536000000000000 n
