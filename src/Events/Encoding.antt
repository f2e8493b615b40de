-- ===== src/Events/Encoding.antt =====
-- Events as JSON, with the names of the fields' tags, and what the decoder reads of lists of texts.
use assembled_watchtower.Base.{
  ℕ, List, [], ◌∷◌, Option, none, some, Bool, true, false, Str, codes, Str-discrete, has, All,
  arith, ◌≡◌, ◌≢◌, refl,
}
use assembled_watchtower.Base.Time.{Time}
use assembled_watchtower.Ids.{format_uint}
use assembled_watchtower.Json.{
  Json, Fields, null, boolean, number, text, array, object, no_fields, field, texts, read-texts,
}
use assembled_watchtower.Events.Types.{
  Common, QueueSnapshot, AgentStateChange, AdherenceCheck, Event, queue_snapshot,
  agent_state_change, adherence_check,
}
use assembled_watchtower.Events.Fields.{walk_items, all_new, strings_value}
use assembled_watchtower.Events.Readers.{AreDistinct, IsId, IsId-bounded, AreQueues, has-cons}

has-apart :
    (x s : Str) (seen : List Str)
    → s ≢ x
    → has Str-discrete x seen ≡ false
    → has Str-discrete x (s ∷ seen) ≡ false
unfolding has
has-apart x s seen apart h = ground (arith, h, λ (e : s ≡ x). apart e)

-- Distinct identifiers that were not seen pass the loop.
all_new_complete :
    (seen ss : List Str)
    → All IsId ss
    → AreDistinct ss
    → All (λ s. has Str-discrete s seen ≡ false) ss
    → all_new seen ss ≡ true
unfolding all_new
all_new_complete seen [] b d n = refl
all_new_complete seen (s ∷ ss) b d n =
    let rest = all_new_complete (s ∷ seen) ss b.1 d.1 (unseen ss d.0 n.1) in
    rw (IsId-bounded s b.0, n.0, rest) refl
  where
    unseen :
        (xs : List Str)
        → has Str-discrete s xs ≡ false
        → All (λ x. has Str-discrete x seen ≡ false) xs
        → All (λ x. has Str-discrete x (s ∷ seen) ≡ false) xs
    unseen [] h k = tt
    unseen (x ∷ xs) h k =
        let (apart, rest) = has-cons s x xs h in (has-apart x s seen apart k.0, unseen xs rest k.1)

pub walk-texts : (ss : List Str) → walk_items (texts ss) ≡ true
unfolding walk_items texts
walk-texts [] = refl
walk-texts (s ∷ ss) = ground (arith, walk-texts ss)

pub strings_value-texts :
    (nullable : Bool) (ss : List Str)
    → AreQueues ss
    → strings_value nullable (some (array (texts ss))) ≡ some ss
unfolding strings_value
strings_value-texts nullable ss q =
    ground (arith, read-texts ss, all_new_complete [] ss q.0 q.1 (none_seen ss))
  where
    none_seen : (ss : List Str) → All (λ s. has Str-discrete s [] ≡ false) ss
    none_seen [] = tt
    none_seen (s ∷ ss) = (unfold has in refl, none_seen ss)

abbrev pub uint_json : ℕ → Json
uint_json n = number (format_uint n)

abbrev pub nullable : {A : Type 0} → (A → Json) → Option A → Json
nullable f none = null
nullable f (some a) = f a

abbrev pub common_json : (Time → Str) → Common → Fields → Fields
common_json print c rest =
    field (codes "event_id") (text c.event_id)
      (field (codes "ts") (text (print c.timestamp)) (field (codes "type") (text c.type) rest))

abbrev pub queue_fields : QueueSnapshot → Fields
queue_fields q = field (codes "queue_id") (text q.queue_id) (
    field (codes "tickets_waiting") (uint_json q.tickets_waiting) (
      field (codes "longest_wait_sec") (uint_json q.longest_wait_sec) (
        field (codes "sla_target_sec") (uint_json q.sla_target_sec) (
          field (codes "agents_available") (uint_json q.agents_available) (
            field (codes "agents_on_call") (uint_json q.agents_on_call) (
              field (codes "volume_last_15m") (uint_json q.volume_last15m) (
                field (codes "volume_forecast_next_15m")
                  (nullable uint_json q.volume_forecast_next15m) no_fields)))))))

abbrev pub agent_fields : AgentStateChange → Fields
agent_fields a = field (codes "agent_id") (text a.agent_id) (
    field (codes "previous_state") (nullable text a.previous_state) (
      field (codes "new_state") (text a.new_state) (
        field (codes "previous_state_duration_sec")
          (nullable uint_json a.previous_state_duration_sec)
          (field (codes "queue_ids") (array (texts a.queue_ids)) no_fields))))

abbrev pub adherence_fields : (Time → Str) → AdherenceCheck → Fields
adherence_fields print c = field (codes "agent_id") (text c.agent_id) (
    field (codes "scheduled_state") (text c.scheduled_state) (
      field (codes "actual_state") (text c.actual_state) (
        field (codes "in_violation") (boolean c.in_violation) (
          field (codes "violation_started_at")
            (nullable (λ t. text (print t)) c.violation_started_at)
            (field (codes "queue_ids") (array (texts c.queue_ids)) no_fields)))))

-- An event as JSON.
abbrev pub event_json : (Time → Str) → Event → Json
event_json print (queue_snapshot q) = object (common_json print q.common (queue_fields q))
event_json print (agent_state_change a) = object (common_json print a.common (agent_fields a))
event_json print (adherence_check c) =
    object (common_json print c.common (adherence_fields print c))
