-- ===== src/Events/WellFormed.antt =====
-- What the decoder promises of every event that it returns.
use assembled_watchtower.Base.{
  List, Option, some, true, false, same, same→eq, Str, codes, Str-discrete, arith, ◌≡◌, refl, ◌∙◌,
  Bool-cases, inl, inr,
}
use assembled_watchtower.Base.Time.{Time}
use assembled_watchtower.Json.{Json, Fields}
use assembled_watchtower.Events.Types.{
  Common, QueueSnapshot, AgentStateChange, AdherenceCheck, Event, queue_snapshot,
  agent_state_change, adherence_check,
}
use assembled_watchtower.Events.Fields.{
  walk_json, str, uint, uint_ptr, state, state_ptr, boolean_of, strings_arr, time_val, time_ptr,
}
use assembled_watchtower.Events.Decode.{
  schema, all_allowed, require_fields, fields_of, common, decode_queue_snapshot,
  decode_agent_state_change, decode_adherence_check, decode_type, decode,
}
use assembled_watchtower.Events.Readers.{
  uint-IsUint64, IfSome, IsId, IsState, IsUint64, AreQueues, IsCommon, IsWellFormed, bind-IfSome,
  read, guard-IfSome, str-IsId, state-IsState, pointer-IfSome, strings_arr-AreQueues, Anything,
  uint_ptr-IfSome,
}

queue_snapshot-IsWellFormed :
    (o : Fields) (c : Common)
    → IsCommon c (codes "queue_snapshot")
    → IfSome (λ q. IsWellFormed (queue_snapshot q)) (decode_queue_snapshot o c)
unfolding decode_queue_snapshot IsWellFormed
queue_snapshot-IsWellFormed o c known =
    bind-IfSome IsId P (str o (codes "queue_id")) _ (str-IsId o _) (λ queue id.
      bind-IfSome IsUint64 P (uint o (codes "tickets_waiting")) _ (uint-IsUint64 o _) (λ waiting h0.
        bind-IfSome IsUint64 P (uint o (codes "longest_wait_sec")) _ (uint-IsUint64 o _)
          (λ longest h1.
            bind-IfSome IsUint64 P (uint o (codes "sla_target_sec")) _ (uint-IsUint64 o _)
              (λ sla h2.
                bind-IfSome IsUint64 P (uint o (codes "agents_available")) _ (uint-IsUint64 o _)
                  (λ free h3.
                    bind-IfSome IsUint64 P (uint o (codes "agents_on_call")) _ (uint-IsUint64 o _)
                      (λ busy h4.
                        bind-IfSome IsUint64 P (uint o (codes "volume_last_15m")) _
                          (uint-IsUint64 o _)
                          (λ volume h5.
                            bind-IfSome (IfSome IsUint64) P
                              (uint_ptr o (codes "volume_forecast_next_15m")) _
                              (uint_ptr-IfSome o _)
                              (λ forecast h6. (known, id, h0, h1, h2, h3, h4, h5, h6)))))))))
  where
    P : QueueSnapshot → Type 0
    P q = IsWellFormed (queue_snapshot q)

agent_state_change-IsWellFormed :
    (o : Fields) (c : Common)
    → IsCommon c (codes "agent_state_change")
    → IfSome (λ a. IsWellFormed (agent_state_change a)) (decode_agent_state_change o c)
unfolding decode_agent_state_change IsWellFormed state_ptr
agent_state_change-IsWellFormed o c known =
    bind-IfSome IsId P (str o (codes "agent_id")) _ (str-IsId o _) (λ agent id.
      bind-IfSome (IfSome IsState) P (state_ptr o (codes "previous_state")) _
        (λ p h. pointer-IfSome IsState _ (state o _) p (state-IsState o _) h)
        (λ previous h0.
          bind-IfSome IsState P (state o (codes "new_state")) _ (state-IsState o _) (λ new h1.
            bind-IfSome (IfSome IsUint64) P (uint_ptr o (codes "previous_state_duration_sec")) _
              (uint_ptr-IfSome o _)
              (λ lasted h2.
                bind-IfSome AreQueues P (strings_arr o (codes "queue_ids") true) _
                  (strings_arr-AreQueues o _ true) (λ queues h3. (known, id, h0, h1, h2, h3))))))
  where
    P : AgentStateChange → Type 0
    P a = IsWellFormed (agent_state_change a)

module _ (parse : Str → Option Time) where
  adherence_check-IsWellFormed :
      (o : Fields) (c : Common)
      → IsCommon c (codes "adherence_check")
      → IfSome (λ a. IsWellFormed (adherence_check a)) (decode_adherence_check parse o c)
  unfolding decode_adherence_check IsWellFormed
  adherence_check-IsWellFormed o c known =
      bind-IfSome IsId P (str o (codes "agent_id")) _ (str-IsId o _) (λ agent id.
        bind-IfSome IsState P (state o (codes "scheduled_state")) _ (state-IsState o _) (λ due h0.
          bind-IfSome IsState P (state o (codes "actual_state")) _ (state-IsState o _) (λ actual h1.
            bind-IfSome Anything P (boolean_of o (codes "in_violation")) _ (λ b h. tt)
              (λ violation u.
                bind-IfSome Anything P (time_ptr parse o (codes "violation_started_at")) _
                  (λ t h. tt)
                  (λ t v.
                    bind-IfSome AreQueues P (strings_arr o (codes "queue_ids") false) _
                      (strings_arr-AreQueues o _ false) (λ queues h2. (known, id, h0, h1, h2)))))))
    where
      P : AdherenceCheck → Type 0
      P a = IsWellFormed (adherence_check a)

  common-IsCommon : (o : Fields) (t : Str) → IfSome (λ c. IsCommon c t) (common parse o t)
  unfolding common
  common-IsCommon o t =
      bind-IfSome IsId (λ c. IsCommon c t) (str o (codes "event_id")) _ (str-IsId o _)
        (λ id h.
          bind-IfSome Anything (λ c. IsCommon c t) (time_val parse o (codes "ts")) _ (λ a e. tt)
            (λ ts u. (h, refl)))

  -- The switch, behind the lookup of the schema.
  decode_type-IsWellFormed :
      (t : Str) (allowed : List Str) (o : Fields) (c : Common)
      → schema t ≡ some allowed
      → IsCommon c t
      → IfSome IsWellFormed (decode_type parse t o c)
  unfolding decode_type schema
  decode_type-IsWellFormed t allowed o c h known =
      elim (Bool-cases (same Str-discrete t (codes "queue_snapshot"))) [
        | inl e ↦ rw e (
            bind-IfSome (λ q. IsWellFormed (queue_snapshot q)) IsWellFormed
              (decode_queue_snapshot o c) _
              (read _
                (queue_snapshot-IsWellFormed o c (known.0, known.1 ∙ same→eq Str-discrete t _ e)))
              (λ q w. w))
        | inr e ↦ elim (Bool-cases (same Str-discrete t (codes "agent_state_change"))) [
          | inl f ↦
              rw (e, f)
                (bind-IfSome (λ a. IsWellFormed (agent_state_change a)) IsWellFormed
                  (decode_agent_state_change o c) _
                  (read _ (
                    agent_state_change-IsWellFormed o c
                      (known.0, known.1 ∙ same→eq Str-discrete t _ f)))
                  (λ a w. w))
          | inr f ↦
              let last : same Str-discrete t (codes "adherence_check") ≡ true =
                ground (arith, h, e, f) in
              rw (e, f)
                (bind-IfSome (λ a. IsWellFormed (adherence_check a)) IsWellFormed
                  (decode_adherence_check parse o c) _
                  (read _ (
                    adherence_check-IsWellFormed o c
                      (known.0, known.1 ∙ same→eq Str-discrete t _ last)))
                  (λ a w. w))
        ]
      ]

  decode-IfSome : (j : Json) → IfSome IsWellFormed (decode parse j)
  unfolding decode
  decode-IfSome j = guard-IfSome IsWellFormed (walk_json j) _ (
      bind-IfSome Anything IsWellFormed (fields_of j) _ (λ o e. tt)
        (λ o u.
          bind-IfSome Anything IsWellFormed (str o (codes "type")) _ (λ t e. tt)
            (λ t v.
              bind-IfSome (λ allowed. schema t ≡ some allowed) IsWellFormed (schema t) _
                (λ allowed e. e)
                (λ allowed h. guard-IfSome IsWellFormed (all_allowed allowed o) _ (
                  guard-IfSome IsWellFormed (require_fields o allowed) _ (
                    bind-IfSome (λ c. IsCommon c t) IsWellFormed (common parse o t) _
                      (read _ (common-IsCommon o t))
                      (λ c known. decode_type-IsWellFormed t allowed o c h known)))))))

-- Every event that the decoder returns, whatever the parser of times, is well formed: its ID, its
-- subject's ID and its queue IDs have 1 to 256 bytes, no queue ID stands twice, its type is that of
-- its kind, its counts are in the range of uint64, and its states are among the four.
pub decode-IsWellFormed :
    (parse : Str → Option Time) (j : Json) (e : Event) → decode parse j ≡ some e → IsWellFormed e
decode-IsWellFormed parse j e h = read IsWellFormed (decode-IfSome parse j) e h
