-- ===== src/Projections/Live.antt =====
-- The live states of the three projections: `newer`, and what `buildQueue`, `buildAgentState` and
-- `buildAdherence` do with an observation. An operation returns the builder after it and its update.
--
-- The copies that the `clone` functions make keep the builder's values apart from the caller's; the
-- values here are immutable.
use mathlib.Core.Option
use assembled_watchtower.Base.{
  List, [], ◌∷◌, ◌++◌, Option, none, some, Bool, true, not, ◌&&◌, ◌||◌, ◌==◌, ltb, if◌then◌else◌,
  Str, Str-discrete, lookup, insert,
}
use assembled_watchtower.Base.Time.{Time, zero_time, is_zero}
use assembled_watchtower.Events.Types.{QueueSnapshot, AgentStateChange, AdherenceCheck}
use assembled_watchtower.App.Occurrence.{AcceptedOccurrence}
use assembled_watchtower.Projections.Types.{
  Provenance, QueueObservation, AgentStateObservation, AdherenceObservation, QueueState, AgentState,
  AdherenceState, QueueUpdate, AgentStateUpdate, AdherenceUpdate, Builder,
}

unfoldable pub provenance : AcceptedOccurrence → Provenance
provenance o = record {
  occurrence_id = o.id;
  source = o.source;
  idempotency_key = o.idempotency_key;
  ingest_position = o.ingest_position;
  source_event_id = o.source_event_id;
  effective_at = o.effective_at;
}

unfoldable pub newer : Provenance → Provenance → Bool
newer candidate current =
    ltb current.effective_at candidate.effective_at
    || ((candidate.effective_at == current.effective_at)
        && ltb current.ingest_position candidate.ingest_position)

-- `history[id]`
unfoldable pub logged : {O : Type 0} → Str → List (Str × List O) → List O
logged id m = Option.get_or (lookup Str-discrete id m) []

-- `history[id] = append(history[id], observation)`
unfoldable pub log : {O : Type 0} → Str → O → List (Str × List O) → List (Str × List O)
log id o m = insert Str-discrete id (logged id m ++ o ∷ []) m

module _ {V : Type 0} (evidence : V → Provenance) where
  -- The test before a live state is replaced: there is none, or the candidate is newer.
  unfoldable pub replaces : V → Option V → Bool
  replaces candidate none = true
  replaces candidate (some current) = newer (evidence candidate) (evidence current)

  -- The live states after a candidate.
  unfoldable pub held : Str → V → List (Str × V) → List (Str × V)
  held id candidate m =
      if replaces candidate (lookup Str-discrete id m)
      then insert Str-discrete id candidate m
      else m

  -- The live state after a candidate.
  unfoldable pub current_after : V → Option V → V
  current_after candidate prior =
      if replaces candidate prior then candidate else Option.get_or prior candidate

unfoldable pub queue_candidate : AcceptedOccurrence → QueueSnapshot → QueueState
queue_candidate o s = record {
  queue_id = s.queue_id;
  tickets_waiting = s.tickets_waiting;
  longest_wait_sec = s.longest_wait_sec;
  sla_target_sec = s.sla_target_sec;
  agents_available = s.agents_available;
  agents_on_call = s.agents_on_call;
  volume_last15m = s.volume_last15m;
  volume_forecast_next15m = s.volume_forecast_next15m;
  provenance = provenance o;
}

unfoldable pub build_queue : Builder → AcceptedOccurrence → QueueSnapshot → Builder × QueueUpdate
build_queue b o s =
    let observation : QueueObservation = record { provenance = provenance o; snapshot = s } in
    let prior = lookup Str-discrete s.queue_id b.queues in
    let candidate = queue_candidate o s in
    (
      record b {
        queue_history = log s.queue_id observation b.queue_history;
        queues = held (λ (x : QueueState). x.provenance) s.queue_id candidate b.queues;
      },
      record {
        observation = observation;
        current = current_after (λ (x : QueueState). x.provenance) candidate prior;
        current_changed = replaces (λ (x : QueueState). x.provenance) candidate prior;
      },
    )

unfoldable pub agent_candidate : AcceptedOccurrence → AgentStateChange → AgentState
agent_candidate o c = record {
  agent_id = c.agent_id;
  current = c.new_state;
  provenance = provenance o;
}

unfoldable pub build_agent_state :
    Builder → AcceptedOccurrence → AgentStateChange → Builder × AgentStateUpdate
build_agent_state b o c =
    let observation : AgentStateObservation = record { provenance = provenance o; change = c } in
    let prior = lookup Str-discrete c.agent_id b.agents in
    let candidate = agent_candidate o c in
    (
      record b {
        agent_history = log c.agent_id observation b.agent_history;
        agents = held (λ (x : AgentState). x.provenance) c.agent_id candidate b.agents;
      },
      record {
        observation = observation;
        current = current_after (λ (x : AgentState). x.provenance) candidate prior;
        current_changed = replaces (λ (x : AgentState). x.provenance) candidate prior;
      },
    )

-- Since when a violation without an explicit onset is known.
unfoldable pub continued_since : AcceptedOccurrence → Option AdherenceState → Time
continued_since o none = o.effective_at
continued_since o (some prior) =
    if prior.in_violation && not (is_zero prior.known_violation_since)
    then prior.known_violation_since
    else o.effective_at

unfoldable pub known_since : AcceptedOccurrence → AdherenceCheck → Option AdherenceState → Time
known_since o c prior =
    if c.in_violation
    then (elim c.violation_started_at [ some t ↦ t | none ↦ continued_since o prior ])
    else zero_time

unfoldable pub adherence_candidate :
    AcceptedOccurrence → AdherenceCheck → Option AdherenceState → AdherenceState
adherence_candidate o c prior = record {
  agent_id = c.agent_id;
  scheduled_state = c.scheduled_state;
  actual_state = c.actual_state;
  in_violation = c.in_violation;
  violation_started_at = c.violation_started_at;
  known_violation_since = known_since o c prior;
  provenance = provenance o;
}

unfoldable pub build_adherence :
    Builder → AcceptedOccurrence → AdherenceCheck → Builder × AdherenceUpdate
build_adherence b o c =
    let observation : AdherenceObservation = record { provenance = provenance o; check = c } in
    let prior = lookup Str-discrete c.agent_id b.adherence in
    let candidate = adherence_candidate o c prior in
    (
      record b {
        adherence_history = log c.agent_id observation b.adherence_history;
        adherence = held (λ (x : AdherenceState). x.provenance) c.agent_id candidate b.adherence;
      },
      record {
        observation = observation;
        current = current_after (λ (x : AdherenceState). x.provenance) candidate prior;
        current_changed = replaces (λ (x : AdherenceState). x.provenance) candidate prior;
      },
    )
