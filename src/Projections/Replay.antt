-- ===== src/Projections/Replay.antt =====
-- Accepted occurrences count once: building one again changes nothing, its ID and its admission key
-- are never accepted again, and live states never go back to older evidence.
use assembled_watchtower.Base.{
  ◌≡◌, ◌≢◌, refl, inl, inr, List, [], ◌∷◌, none, some, Bool, true, false, Str-discrete, lookup,
  lookup-insert, lookup-insert_self, arith, ◌≤◌, ◌<◌,
}
use assembled_watchtower.Events.Types.{Event, queue_snapshot, agent_state_change, adherence_check}
use assembled_watchtower.App.Occurrence.{AcceptedOccurrence, validate}
use assembled_watchtower.Projections.Types.{
  QueueState, AgentState, AdherenceState, Builder, AdmissionKey-discrete, Change, queue,
  agent_state, adherence,
}
use assembled_watchtower.Projections.Live.{build_queue, build_agent_state, build_adherence}
use assembled_watchtower.Projections.Builder.{
  build, build_valid, build_again, build_event, duplicate, accept, admission_key, same_identity,
  identity_of, built,
}
use assembled_watchtower.Projections.Newest.{
  Keeps, Keeps-self, Keeps-trans, held-Keeps, lookup-held_self,
}
use assembled_watchtower.Projections.Coherence.{IsAccepted, build-cases, is_new, run}

-- No live state of the first builder is lost or newer than the one in the second.
pub record IsLater (b b' : Builder) : Type 0 where
  pub queues : Keeps (λ (s : QueueState). s.provenance) b.queues b'.queues
  pub agents : Keeps (λ (s : AgentState). s.provenance) b.agents b'.agents
  pub adherence : Keeps (λ (s : AdherenceState). s.provenance) b.adherence b'.adherence

IsLater-self : (b : Builder) → IsLater b b
IsLater-self b = record {
  queues = Keeps-self _ b.queues;
  agents = Keeps-self _ b.agents;
  adherence = Keeps-self _ b.adherence;
}

IsLater-trans : (b b' b'' : Builder) → IsLater b b' → IsLater b' b'' → IsLater b b''
IsLater-trans b b' b'' f g = record {
  queues = Keeps-trans _ b.queues b'.queues b''.queues f.queues g.queues;
  agents = Keeps-trans _ b.agents b'.agents b''.agents f.agents g.agents;
  adherence = Keeps-trans _ b.adherence b'.adherence b''.adherence f.adherence g.adherence;
}

accept-IsLater : (b : Builder) (o : AcceptedOccurrence) (e : Event) → IsLater b (accept b o e)
unfolding accept build_event build_queue build_agent_state build_adherence
accept-IsLater b o (queue_snapshot s) = record {
  queues = held-Keeps _ s.queue_id _ b.queues;
  agents = Keeps-self _ b.agents;
  adherence = Keeps-self _ b.adherence;
}
accept-IsLater b o (agent_state_change s) = record {
  queues = Keeps-self _ b.queues;
  agents = held-Keeps _ s.agent_id _ b.agents;
  adherence = Keeps-self _ b.adherence;
}
accept-IsLater b o (adherence_check s) = record {
  queues = Keeps-self _ b.queues;
  agents = Keeps-self _ b.agents;
  adherence = held-Keeps _ s.agent_id _ b.adherence;
}

build-IsLater : (b : Builder) (o : AcceptedOccurrence) → IsLater b (build b o).0
build-IsLater b o = elim (build-cases b o) [
  | inl h ↦ rw h.0 (IsLater-self b)
  | inr (e, h) ↦ rw h.result (accept-IsLater b o e)
]

-- Whatever is built after a builder, each of its live states is still there or has given way to
-- one whose evidence is not older, for queues, agents and adherence alike.
pub live_never_regresses : (b : Builder) (os : List AcceptedOccurrence) → IsLater b (run b os)
unfolding run
live_never_regresses b [] = IsLater-self b
live_never_regresses b (o ∷ os) =
    IsLater-trans b (build b o).0 (run (build b o).0 os) (build-IsLater b o)
      (live_never_regresses (build b o).0 os)

-- The subject of an event has a live state.
abbrev HasLive : Builder → Event → Type 0
HasLive b (queue_snapshot s) = (x : QueueState) × (lookup Str-discrete s.queue_id b.queues ≡ some x)
HasLive b (agent_state_change s) =
    (x : AgentState) × (lookup Str-discrete s.agent_id b.agents ≡ some x)
HasLive b (adherence_check s) =
    (x : AdherenceState) × (lookup Str-discrete s.agent_id b.adherence ≡ some x)

IsLater-HasLive : (b b' : Builder) (e : Event) → IsLater b b' → HasLive b e → HasLive b' e
IsLater-HasLive b b' (queue_snapshot s) l (x, h) = let (y, k, _) = l.queues s.queue_id x h in (y, k)
IsLater-HasLive b b' (agent_state_change s) l (x, h) =
    let (y, k, _) = l.agents s.agent_id x h in (y, k)
IsLater-HasLive b b' (adherence_check s) l (x, h) =
    let (y, k, _) = l.adherence s.agent_id x h in (y, k)

accept-HasLive : (b : Builder) (o : AcceptedOccurrence) (e : Event) → HasLive (accept b o e) e
unfolding accept build_event build_queue build_agent_state build_adherence
accept-HasLive b o (queue_snapshot s) = (_, lookup-held_self _ s.queue_id _ b.queues)
accept-HasLive b o (agent_state_change s) = (_, lookup-held_self _ s.agent_id _ b.agents)
accept-HasLive b o (adherence_check s) = (_, lookup-held_self _ s.agent_id _ b.adherence)

-- What a builder remembers of an accepted occurrence.
record IsKnown (o : AcceptedOccurrence) (e : Event) (b : Builder) : Type 0 where
  occurrence : lookup Str-discrete o.id b.occurrences ≡ some (identity_of o e)
  admission : lookup AdmissionKey-discrete (admission_key o) b.admissions ≡ some o.id
  position : o.ingest_position ≤ b.last_position
  live : HasLive b e

accept-IsKnown : (b : Builder) (o : AcceptedOccurrence) (e : Event) → IsKnown o e (accept b o e)
unfolding accept
accept-IsKnown b o e = record {
  occurrence = lookup-insert_self Str-discrete o.id (identity_of o e) b.occurrences;
  admission = lookup-insert_self AdmissionKey-discrete (admission_key o) o.id b.admissions;
  position = ground arith;
  live = accept-HasLive b o e;
}

build-IsKnown :
    (o : AcceptedOccurrence) (e : Event) (b : Builder) (p : AcceptedOccurrence)
    → IsKnown o e b
    → IsKnown o e (build b p).0
build-IsKnown o e b p k = elim (build-cases b p) [
  | inl h ↦ rw h.0 k
  | inr (f, h) ↦ rw h.result (record {
    occurrence =
        unfold accept in
        ground (
          arith,
          k.occurrence,
          h.new_id,
          lookup-insert Str-discrete p.id o.id (identity_of p f) b.occurrences,
        );
    admission =
        unfold accept in
        ground (
          arith,
          k.admission,
          h.new_key,
          lookup-insert AdmissionKey-discrete (admission_key p) (admission_key o) p.id b.admissions,
        );
    position = unfold accept in ground (arith, k.position, h.in_order);
    live = IsLater-HasLive b (accept b p f) e (accept-IsLater b p f) k.live;
  })
]

run-IsKnown :
    (o : AcceptedOccurrence) (e : Event) (b : Builder) (os : List AcceptedOccurrence)
    → IsKnown o e b
    → IsKnown o e (run b os)
unfolding run
run-IsKnown o e b [] k = k
run-IsKnown o e b (p ∷ os) k = run-IsKnown o e (build b p).0 os (build-IsKnown o e b p k)

-- `CurrentChanged` of an update.
abbrev pub current_changed : Change → Bool
current_changed (queue u) = u.current_changed
current_changed (agent_state u) = u.current_changed
current_changed (adherence u) = u.current_changed

duplicate-current :
    (b : Builder) (o : AcceptedOccurrence) (e : Event)
    → HasLive b e
    → (c : Change) × (duplicate b o e ≡ some c) × (current_changed c ≡ false)
unfolding duplicate
duplicate-current b o (queue_snapshot s) (x, h) = rw (h, duplicate) (_, refl, refl)
duplicate-current b o (agent_state_change s) (x, h) = rw (h, duplicate) (_, refl, refl)
duplicate-current b o (adherence_check s) (x, h) = rw (h, duplicate) (_, refl, refl)

same_identity_self :
    (o : AcceptedOccurrence) (e : Event) → same_identity (identity_of o e) (identity_of o e) ≡ true
unfolding same_identity identity_of
same_identity_self o e = ground arith

known-duplicate :
    (b : Builder) (o : AcceptedOccurrence) (e : Event)
    → validate o ≡ none
    → o.event ≡ some e
    → IsKnown o e b
    → (c : Change) × (build b o ≡ (b, built (record { duplicate = true; change = c })))
      × (current_changed c ≡ false)
unfolding build build_valid build_again
known-duplicate b o e v event k =
    let (c, d, unchanged) = duplicate-current b o e k.live in
    (c, ground (arith, v, event, k.occurrence, same_identity_self o e, d), unchanged)

-- The event of an occurrence that `Build` accepts as new, and what the builder knows after it.
new-IsKnown :
    (b : Builder) (o : AcceptedOccurrence)
    → is_new (build b o).1 ≡ true
    → (e : Event) × IsAccepted b o e × IsKnown o e (build b o).0
new-IsKnown b o h = elim (build-cases b o) [
  | inl k ↦ absurd (ground (arith, h, k.1))
  | inr (e, a) ↦ (e, a, rw a.result (accept-IsKnown b o e))
]

-- An occurrence that was accepted as new is a duplicate ever after: whatever is built in between,
-- building it again succeeds, leaves the builder as it is, and reports an unchanged live state.
pub build-replayed :
    (b : Builder) (o : AcceptedOccurrence) (os : List AcceptedOccurrence)
    → is_new (build b o).1 ≡ true
    → let r = run (build b o).0 os in
      (c : Change) × (build r o ≡ (r, built (record { duplicate = true; change = c })))
      × (current_changed c ≡ false)
build-replayed b o os h =
    let (e, a, k) = new-IsKnown b o h in
    known-duplicate (run (build b o).0 os) o e a.valid a.event (run-IsKnown o e (build b o).0 os k)

-- Of two occurrences that are accepted as new, with any calls in between, the later one has another
-- ID, another pair of source and idempotency key, and a greater ingestion position.
pub admitted_once :
    (b : Builder) (o : AcceptedOccurrence) (os : List AcceptedOccurrence) (p : AcceptedOccurrence)
    → is_new (build b o).1 ≡ true
    → is_new (build (run (build b o).0 os) p).1 ≡ true
    → (o.id ≢ p.id) × (admission_key o ≢ admission_key p) × (o.ingest_position < p.ingest_position)
admitted_once b o os p h g =
    let (e, a, start) = new-IsKnown b o h in
    let k = run-IsKnown o e (build b o).0 os start in
    let (f, late, _) = new-IsKnown (run (build b o).0 os) p g in
    (
      λ s. absurd (ground (arith, k.occurrence, late.new_id, s)),
      λ s. absurd (ground (arith, k.admission, late.new_key, s)),
      ground (arith, k.position, late.in_order),
    )
