-- ===== src/Projections/Coherence.antt =====
-- Every call of `Build` keeps the live states the newest of their histories.
use assembled_watchtower.Base.{
  ◌≡◌, refl, ◌⊎◌, inl, inr, List, [], ◌∷◌, Option, none, some, Bool, false, Str, Str-discrete,
  lookup, insert, not, arith, Bool-cases, Option-cases, leb, subst,
}
use assembled_watchtower.Base.Time.{zero_time}
use assembled_watchtower.Events.Types.{
  Event, AdherenceCheck, queue_snapshot, agent_state_change, adherence_check,
}
use assembled_watchtower.App.Occurrence.{AcceptedOccurrence, validate}
use assembled_watchtower.Projections.Types.{
  QueueObservation, AgentStateObservation, AdherenceObservation, QueueState, AgentState,
  AdherenceState, Builder, AcceptedIdentity, AdmissionKey-discrete,
}
use assembled_watchtower.Projections.Live.{
  held, current_after, replaces, known_since, adherence_candidate, build_queue, build_agent_state,
  build_adherence, logged, log, queue_candidate, agent_candidate,
}
use assembled_watchtower.Projections.Builder.{
  new, build, build_valid, build_new, build_again, build_event, duplicate, accept, admission_key,
  Outcome, built,
}
use assembled_watchtower.Projections.Newest.{IsLive, held-IsLive, lookup-held}

-- A violation is known since some time only while it lasts.
abbrev pub IsOnset : AdherenceState → Type 0
IsOnset s = s.in_violation ≡ false → s.known_violation_since ≡ zero_time

pub record IsCoherent (b : Builder) : Type 0 where
  pub queues :
      IsLive
        (λ (s : QueueState). s.provenance)
        (λ (o : QueueObservation). o.provenance)
        b.queue_history
        b.queues
  pub agents :
      IsLive
        (λ (s : AgentState). s.provenance)
        (λ (o : AgentStateObservation). o.provenance)
        b.agent_history
        b.agents
  pub adherence :
      IsLive
        (λ (s : AdherenceState). s.provenance)
        (λ (o : AdherenceObservation). o.provenance)
        b.adherence_history
        b.adherence
  pub onsets :
      (id : Str) (s : AdherenceState) → lookup Str-discrete id b.adherence ≡ some s → IsOnset s

new-IsCoherent : IsCoherent new
unfolding new lookup logged
new-IsCoherent = record {
  queues = λ id. refl;
  agents = λ id. refl;
  adherence = λ id. refl;
  onsets = λ id s h. ground arith;
}

-- The state after a candidate is the candidate or the state before it.
current_after-IsOnset :
    (c : AdherenceState) (prior : Option AdherenceState)
    → IsOnset c
    → ((s : AdherenceState) → prior ≡ some s → IsOnset s)
    → IsOnset (current_after (λ (x : AdherenceState). x.provenance) c prior)
unfolding current_after replaces
current_after-IsOnset c none f g = f
current_after-IsOnset c (some s) f g =
    elim (Bool-cases (replaces (λ (x : AdherenceState). x.provenance) c (some s))) [
      | inl e ↦ rw e f
      | inr e ↦ rw e (g s refl)
    ]

held-IsOnset :
    (id j : Str) (c : AdherenceState) (m : List (Str × AdherenceState))
    → IsOnset c
    → ((k : Str) (s : AdherenceState) → lookup Str-discrete k m ≡ some s → IsOnset s)
    → (s : AdherenceState)
    → lookup Str-discrete j (held (λ (x : AdherenceState). x.provenance) id c m) ≡ some s
    → IsOnset s
held-IsOnset id j c m f g s h =
    let after = current_after (λ (x : AdherenceState). x.provenance) c (lookup Str-discrete id m) in
    elim (Str-discrete id j) [
      | no ne ↦
          g j s (ground (arith, h, ne, lookup-held (λ (x : AdherenceState). x.provenance) id j c m))
      | yes p ↦
          let found : after ≡ s =
            ground (arith, h, p, lookup-held (λ (x : AdherenceState). x.provenance) id j c m) in
          subst IsOnset found (current_after-IsOnset c (lookup Str-discrete id m) f (g id))
    ]

adherence_candidate-IsOnset :
    (o : AcceptedOccurrence) (c : AdherenceCheck) (prior : Option AdherenceState)
    → IsOnset (adherence_candidate o c prior)
unfolding adherence_candidate known_since
adherence_candidate-IsOnset o c prior h = ground (arith, h)

accept-IsCoherent :
    (b : Builder) (o : AcceptedOccurrence) (e : Event) → IsCoherent b → IsCoherent (accept b o e)
unfolding accept build_event build_queue build_agent_state build_adherence adherence_candidate log
    held insert queue_candidate agent_candidate
accept-IsCoherent b o (queue_snapshot s) c = record {
  queues = held-IsLive _ _ s.queue_id _ _ b.queue_history b.queues refl c.queues;
  agents = c.agents;
  adherence = c.adherence;
  onsets = c.onsets;
}
accept-IsCoherent b o (agent_state_change s) c = record {
  queues = c.queues;
  agents = held-IsLive _ _ s.agent_id _ _ b.agent_history b.agents refl c.agents;
  adherence = c.adherence;
  onsets = c.onsets;
}
accept-IsCoherent b o (adherence_check s) c = record {
  queues = c.queues;
  agents = c.agents;
  adherence = held-IsLive _ _ s.agent_id _ _ b.adherence_history b.adherence refl c.adherence;
  onsets = λ id x h.
      held-IsOnset s.agent_id id _ b.adherence
        (adherence_candidate-IsOnset o s (lookup Str-discrete s.agent_id b.adherence)) c.onsets x h;
}

-- An occurrence that `Build` accepts as new.
pub record IsAccepted (b : Builder) (o : AcceptedOccurrence) (e : Event) : Type 0 where
  pub valid : validate o ≡ none
  pub event : o.event ≡ some e
  pub new_id : lookup Str-discrete o.id b.occurrences ≡ none
  pub new_key : lookup AdmissionKey-discrete (admission_key o) b.admissions ≡ none
  pub in_order : leb o.ingest_position b.last_position ≡ false
  pub result :
      build b o
      ≡ (accept b o e, built (record { duplicate = false; change = (build_event b o e).1 }))

-- The outcome of an occurrence that was accepted as new.
abbrev pub is_new : Outcome → Bool
is_new (built u) = not u.duplicate
is_new _ = false

-- `Build` leaves the builder, with an error or the update of a duplicate, or accepts.
abbrev BuildCases : Builder → AcceptedOccurrence → Type 0
BuildCases b o =
    (((build b o).0 ≡ b) × (is_new (build b o).1 ≡ false)) ⊎ ((e : Event) × IsAccepted b o e)

build_again-unchanged :
    (b : Builder) (o : AcceptedOccurrence) (e : Event) (prior : AcceptedIdentity)
    → ((build_again b o e prior).0 ≡ b) × (is_new (build_again b o e prior).1 ≡ false)
unfolding build_again
build_again-unchanged b o e prior = elim (Option-cases (duplicate b o e)) [
  | inl h ↦ (ground (arith, h), ground (arith, h))
  | inr (c, h) ↦ (ground (arith, h), ground (arith, h))
]

build_new-cases :
    (b : Builder) (o : AcceptedOccurrence) (e : Event)
    → validate o ≡ none
    → o.event ≡ some e
    → lookup Str-discrete o.id b.occurrences ≡ none
    → BuildCases b o
unfolding build build_valid build_new
build_new-cases b o e v event new_id =
    elim (Option-cases (lookup AdmissionKey-discrete (admission_key o) b.admissions)) [
      | inr (p, h) ↦ inl (ground (arith, v, event, new_id, h), ground (arith, v, event, new_id, h))
      | inl h ↦ elim (Bool-cases (leb o.ingest_position b.last_position)) [
        | inl late ↦
            inl
              (ground (arith, v, event, new_id, h, late), ground (arith, v, event, new_id, h, late))
        | inr in_order ↦ inr (
          e,
          record {
            valid = v;
            event = event;
            new_id = new_id;
            new_key = h;
            in_order = in_order;
            result = ground (arith, v, event, new_id, h, in_order);
          },
        )
      ]
    ]

pub build-cases : (b : Builder) (o : AcceptedOccurrence) → BuildCases b o
unfolding build build_valid
build-cases b o = elim (Option-cases (validate o)) [
  | inr (e, v) ↦ inl (ground (arith, v), ground (arith, v))
  | inl v ↦ elim (Option-cases o.event) [
    | inl h ↦ inl (ground (arith, v, h), ground (arith, v, h))
    | inr (e, h) ↦ elim (Option-cases (lookup Str-discrete o.id b.occurrences)) [
      | inl new_id ↦ build_new-cases b o e v h new_id
      | inr (prior, known) ↦ inl (
        ground (arith, v, h, known, build_again-unchanged b o e prior),
        ground (arith, v, h, known, build_again-unchanged b o e prior),
      )
    ]
  ]
]

pub build-IsCoherent :
    (b : Builder) (o : AcceptedOccurrence) → IsCoherent b → IsCoherent (build b o).0
build-IsCoherent b o c = elim (build-cases b o) [
  | inl e ↦ rw e.0 c
  | inr (e, h) ↦ rw h.result (accept-IsCoherent b o e c)
]

unfoldable pub run : Builder → List AcceptedOccurrence → Builder
run b [] = b
run b (o ∷ os) = run (build b o).0 os

run-IsCoherent : (b : Builder) (os : List AcceptedOccurrence) → IsCoherent b → IsCoherent (run b os)
unfolding run
run-IsCoherent b [] c = c
run-IsCoherent b (o ∷ os) c = run-IsCoherent (build b o).0 os (build-IsCoherent b o c)

-- After any calls of `Build` on a new builder, accepted or not, the live state of each queue and
-- agent carries the provenance of an observation in its history than which none is newer, by
-- effective time and then by ingestion position; a subject without a live state has no history; and
-- an adherence state without a violation has no known onset.
pub builder_run-IsCoherent : (os : List AcceptedOccurrence) → IsCoherent (run new os)
builder_run-IsCoherent os = run-IsCoherent new os new-IsCoherent
