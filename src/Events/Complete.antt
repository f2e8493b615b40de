-- ===== src/Events/Complete.antt =====
-- The decoder accepts every well-formed event, written with the names of the fields' JSON tags.
use assembled_watchtower.Base.{
  ℕ, Option, none, some, true, false, if◌then◌else◌, same, Str, codes, Str-discrete, ℕ_discrete,
  has, inl, inr, arith, ◌≡◌, refl, ap,
}
use assembled_watchtower.Base.Time.{Time}
use assembled_watchtower.Json.{Json, text}
use assembled_watchtower.Json.Numbers.{parse_uint-format_uint}
use assembled_watchtower.Events.Types.{
  State, QueueSnapshot, AgentStateChange, AdherenceCheck, Event, queue_snapshot, agent_state_change,
  adherence_check,
}
use assembled_watchtower.Events.Timestamps.{strict_timestamp}
use assembled_watchtower.Events.Fields.{
  get, walk_json, str_value, str, uint_value, uint, pointer, uint_ptr, valid, state, state_ptr,
  boolean_value, boolean_of, strings_arr, time_value, time_val, time_ptr,
}
use assembled_watchtower.Events.Decode.{
  schema, all_allowed, require_fields, fields_of, common, decode_queue_snapshot,
  decode_agent_state_change, decode_adherence_check, decode_type, decode,
}
use assembled_watchtower.Events.Readers.{
  IfSome, IsId, IsState, IsUint64, IsWellFormed, IsId-bounded, IsState-valid,
}
use assembled_watchtower.Events.Encoding.{
  nullable, uint_json, common_json, queue_fields, agent_fields, adherence_fields, event_json,
  walk-texts, strings_value-texts,
}

lookups : Unit {0}
unfolding get has Str-discrete ℕ_discrete
lookups = tt

uint_value-json : (n : ℕ) → IsUint64 n → uint_value (some (uint_json n)) ≡ some n
unfolding uint_value
uint_value-json n h = parse_uint-format_uint n h

str_value-text : (s : Str) → IsId s → str_value (some (text s)) ≡ some s
unfolding str_value
str_value-text s h = rw (IsId-bounded s h) refl

uint_pointer :
    (n : Option ℕ)
    → IfSome IsUint64 n
    → pointer (some (nullable uint_json n)) (uint_value (some (nullable uint_json n))) ≡ some n
unfolding pointer
uint_pointer none h = refl
uint_pointer (some n) h = rw (uint_value-json n h) refl

-- What a field is read from: its value, as a state.
state_of : Option Json → Option State
state_of j = elim (str_value j) [ none ↦ none | some s ↦ if valid s then some s else none ]

state_of-text : (s : Str) → IsId s → IsState s → state_of (some (text s)) ≡ some s
unfolding state_of
state_of-text s h k = rw (state_of, str_value-text s h, IsState-valid s k) refl

-- A state is an identifier.
IsState-IsId : (s : Str) → IsState s → IsId s
IsState-IsId s (inl e) = rw e (omega arith, omega arith)
IsState-IsId s (inr (inl e)) = rw e (omega arith, omega arith)
IsState-IsId s (inr (inr (inl e))) = rw e (omega arith, omega arith)
IsState-IsId s (inr (inr (inr e))) = rw e (omega arith, omega arith)

state_pointer :
    (s : Option State)
    → IfSome IsState s
    → pointer (some (nullable text s)) (state_of (some (nullable text s))) ≡ some s
unfolding pointer
state_pointer none h = refl
state_pointer (some s) h = rw (state_of-text s (IsState-IsId s h) h) refl

walk-uint : (n : Option ℕ) → walk_json (nullable uint_json n) ≡ true
unfolding walk_json
walk-uint none = refl
walk-uint (some n) = refl

walk-text :
    {A : Type 0} (f : A → Str) (s : Option A) → walk_json (nullable (λ a. text (f a)) s) ≡ true
unfolding walk_json
walk-text f none = refl
walk-text f (some s) = refl

queue_read :
    (q : QueueSnapshot) (print : Time → Str)
    → IsWellFormed (queue_snapshot q)
    → decode_queue_snapshot (common_json print q.common (queue_fields q)) q.common ≡ some q
unfolding decode_queue_snapshot IsWellFormed str uint uint_ptr lookups
queue_read q print (known, id, h0, h1, h2, h3, h4, h5, h6) =
    rw
      (
        str_value-text q.queue_id id,
        uint_value-json q.tickets_waiting h0,
        uint_value-json q.longest_wait_sec h1,
        uint_value-json q.sla_target_sec h2,
        uint_value-json q.agents_available h3,
        uint_value-json q.agents_on_call h4,
        uint_value-json q.volume_last15m h5,
        uint_pointer q.volume_forecast_next15m h6,
      )
      refl

agent_read :
    (a : AgentStateChange) (print : Time → Str)
    → IsWellFormed (agent_state_change a)
    → decode_agent_state_change (common_json print a.common (agent_fields a)) a.common ≡ some a
unfolding decode_agent_state_change IsWellFormed str uint uint_ptr state state_ptr state_of
    strings_arr lookups
agent_read a print (known, id, h0, h1, h2, h3) =
    rw
      (
        str_value-text a.agent_id id,
        state_pointer a.previous_state h0,
        state_of-text a.new_state (IsState-IsId a.new_state h1) h1,
        uint_pointer a.previous_state_duration_sec h2,
        strings_value-texts true a.queue_ids h3,
      )
      refl

module _ (parse : Str → Option Time) (print : Time → Str) where
  -- The parser reads what was printed for a time, in the strict form.
  abbrev pub IsPrinted : Time → Type 0
  IsPrinted t = (strict_timestamp (print t) ≡ true) × (parse (print t) ≡ some t)

  time_value-print : (t : Time) → IsPrinted t → time_value parse (some (text (print t))) ≡ some t
  unfolding time_value
  time_value-print t h = rw (h.0, h.1) refl

  time_pointer :
      (t : Option Time)
      → IfSome IsPrinted t
      → pointer
          (some (nullable (λ t. text (print t)) t))
          (time_value parse (some (nullable (λ t. text (print t)) t)))
        ≡ some t
  unfolding pointer
  time_pointer none h = refl
  time_pointer (some t) h = rw (time_value-print t h) refl

  adherence_read :
      (c : AdherenceCheck)
      → IsWellFormed (adherence_check c)
      → IfSome IsPrinted c.violation_started_at
      → decode_adherence_check parse
          (common_json print c.common (adherence_fields print c))
          c.common
        ≡ some c
  unfolding decode_adherence_check IsWellFormed str state state_of boolean_of boolean_value time_ptr
      time_val strings_arr lookups
  adherence_read c (known, id, h0, h1, h2) t =
      rw
        (
          str_value-text c.agent_id id,
          state_of-text c.scheduled_state (IsState-IsId c.scheduled_state h0) h0,
          state_of-text c.actual_state (IsState-IsId c.actual_state h1) h1,
          time_pointer c.violation_started_at t,
          strings_value-texts false c.queue_ids h2,
        )
        refl

  queue_decoded :
      (q : QueueSnapshot)
      → IsWellFormed (queue_snapshot q)
      → IsPrinted q.common.timestamp
      → decode parse (event_json print (queue_snapshot q)) ≡ some (queue_snapshot q)
  unfolding decode decode_type fields_of walk_json all_allowed require_fields str common time_val
      IsWellFormed lookups
  queue_decoded q w p =
      let known : q.common.type ≡ codes "queue_snapshot" = w.0.1 in
      let named : IsId q.common.type = rw known (omega arith, omega arith) in
      let listed : schema q.common.type ≡ schema (codes "queue_snapshot") = ap schema known in
      let first : same Str-discrete q.common.type (codes "queue_snapshot") ≡ true = rw known refl in
      rw
        (
          walk-uint q.volume_forecast_next15m,
          str_value-text q.common.type named,
          str_value-text q.common.event_id w.0.0,
          time_value-print q.common.timestamp p,
          listed,
          first,
          queue_read q print w,
        )
        (unfold schema in refl)

  agent_decoded :
      (a : AgentStateChange)
      → IsWellFormed (agent_state_change a)
      → IsPrinted a.common.timestamp
      → decode parse (event_json print (agent_state_change a)) ≡ some (agent_state_change a)
  unfolding decode decode_type fields_of walk_json all_allowed require_fields str common time_val
      IsWellFormed lookups
  agent_decoded a w p =
      let known : a.common.type ≡ codes "agent_state_change" = w.0.1 in
      let named : IsId a.common.type = rw known (omega arith, omega arith) in
      let listed : schema a.common.type ≡ schema (codes "agent_state_change") = ap schema known in
      let first : same Str-discrete a.common.type (codes "queue_snapshot") ≡ false =
        rw known refl in
      let second : same Str-discrete a.common.type (codes "agent_state_change") ≡ true =
        rw known refl in
      rw
        (
          walk-text (λ s. s) a.previous_state,
          walk-uint a.previous_state_duration_sec,
          walk-texts a.queue_ids,
          str_value-text a.common.type named,
          str_value-text a.common.event_id w.0.0,
          time_value-print a.common.timestamp p,
          listed,
          first,
          second,
          agent_read a print w,
        )
        (unfold schema in refl)

  adherence_decoded :
      (c : AdherenceCheck)
      → IsWellFormed (adherence_check c)
      → IsPrinted c.common.timestamp
      → IfSome IsPrinted c.violation_started_at
      → decode parse (event_json print (adherence_check c)) ≡ some (adherence_check c)
  unfolding decode decode_type fields_of walk_json all_allowed require_fields str common time_val
      IsWellFormed lookups
  adherence_decoded c w p v =
      let known : c.common.type ≡ codes "adherence_check" = w.0.1 in
      let named : IsId c.common.type = rw known (omega arith, omega arith) in
      let listed : schema c.common.type ≡ schema (codes "adherence_check") = ap schema known in
      let first : same Str-discrete c.common.type (codes "queue_snapshot") ≡ false =
        rw known refl in
      let second : same Str-discrete c.common.type (codes "agent_state_change") ≡ false =
        rw known refl in
      rw
        (
          walk-text print c.violation_started_at,
          walk-texts c.queue_ids,
          str_value-text c.common.type named,
          str_value-text c.common.event_id w.0.0,
          time_value-print c.common.timestamp p,
          listed,
          first,
          second,
          adherence_read c w v,
        )
        (unfold schema in refl)

  -- The times of an event are printed so that the parser reads them.
  unfoldable pub AreTimesPrinted : Event → Type 0
  AreTimesPrinted (queue_snapshot q) = IsPrinted q.common.timestamp
  AreTimesPrinted (agent_state_change a) = IsPrinted a.common.timestamp
  AreTimesPrinted (adherence_check c) =
      IsPrinted c.common.timestamp × IfSome IsPrinted c.violation_started_at

  -- A well-formed event whose times are printed in the strict form and read back by the parser,
  -- written as the JSON object of its fields, is decoded to the event.
  pub decode-event_json :
      (e : Event) → IsWellFormed e → AreTimesPrinted e → decode parse (event_json print e) ≡ some e
  unfolding AreTimesPrinted
  decode-event_json (queue_snapshot q) w p = queue_decoded q w p
  decode-event_json (agent_state_change a) w p = agent_decoded a w p
  decode-event_json (adherence_check c) w p = adherence_decoded c w p.0 p.1
