-- ===== src/Conditions/Reducer.antt =====
-- The operations of the condition reducer: `New`, `Apply`, `Advance`, `Fire`, `start`, `commit`,
-- and the queries. An operation returns the reducer after it and the transitions that it emits.
use mathlib.Core.Option
use assembled_watchtower.Base.{
  ℕ, zero, suc, List, [], ◌∷◌, ◌++◌, Option, none, some, Bool, true, false, not, ◌&&◌, ◌||◌, ◌==◌,
  ltb, leb, if◌then◌else◌, same, Str, Str-discrete, ℤ-discrete, ℤ, pos, negsuc, lookup, insert, has,
  is_empty, length, inc_u64, codes,
}
use assembled_watchtower.Base.Time.{Time, zero_time, is_zero, add}
use assembled_watchtower.Ids.{format_uint, format_int, canonical_parts, stable_id}
use assembled_watchtower.Conditions.Enums.{
  Result, Direction, Phase, VisiblePhase, Result-discrete, Direction-discrete, Phase-discrete,
}
use assembled_watchtower.Conditions.Types.{
  ConditionKey, ConditionKey-discrete, Observation, Transition, Episode, RuleConfig, TrackerState,
  Timer, Reducer, empty_tracker, direction_string, phase_for,
}
use assembled_watchtower.Conditions.Timers.{timers, duration_for}

is_negative : ℤ → Bool
is_negative (pos n) = false
is_negative (negsuc n) = true

-- `none` stands for the panic on a negative duration.
unfoldable pub new : RuleConfig → Option Reducer
unfolding is_negative
new config =
    if is_negative config.trigger_duration || is_negative config.clear_duration
    then none
    else some (record {
      config = config;
      states = [];
      seen_occurrences = [];
      episodes = [];
      transitions = [];
      logical = zero_time;
    })

-- The tracker of a key, or a fresh one.
unfoldable pub tracker : Reducer → ConditionKey → TrackerState
tracker r k = Option.get_or (lookup ConditionKey-discrete k r.states) empty_tracker

-- A write through the tracker's pointer.
unfoldable pub put : Reducer → ConditionKey → TrackerState → Reducer
put r k s = record r { states = insert ConditionKey-discrete k s r.states }

subject_parts : ConditionKey → List Str → List Str
subject_parts k rest = k.rule_id ∷ format_int k.revision ∷ k.subject.kind ∷ k.subject.id ∷ rest

unfoldable pub transition_id : ConditionKey → Direction → ℕ → Str
unfolding subject_parts
transition_id k dir sequence =
    stable_id (codes "condition-transition")
      (canonical_parts (subject_parts k (direction_string dir ∷ format_uint sequence ∷ [])))

unfoldable pub new_episode_id : ConditionKey → ℕ → Str
unfolding subject_parts
new_episode_id k sequence =
    stable_id (codes "condition-episode")
      (canonical_parts (subject_parts k (format_uint sequence ∷ [])))

unfoldable pub is_clear : Direction → Bool
is_clear d = same Direction-discrete d Direction.clear

unfoldable pub is_trigger : Direction → Bool
is_trigger d = same Direction-discrete d Direction.trigger

-- The transition that `commit` builds; `s` is the tracker before it.
unfoldable pub committed :
    ConditionKey → Direction → TrackerState → Time → Time → Time → Observation → Transition
committed k dir s at due processing o = record {
  id = transition_id k dir (inc_u64 s.sequence);
  episode_id = if is_trigger dir then new_episode_id k (inc_u64 s.sequence) else s.episode_id;
  key = k;
  direction = dir;
  at = at;
  times = record {
    effective_at = if is_zero o.effective_at then at else o.effective_at;
    due_at = due;
    processing_at = processing;
    evidence_at = if is_zero o.evidence_at then s.evidence_at else o.evidence_at;
  };
  reason = o.reason;
  attempt = s.attempt;
}

unfoldable pub opened : Transition → Episode
opened t = record {
  id = t.episode_id;
  key = t.key;
  trigger = t;
  clear = none;
  opened_at = t.at;
  closed_at = zero_time;
}

-- The map of episodes after a transition.
unfoldable pub record_episode : Transition → List (Str × Episode) → List (Str × Episode)
record_episode t episodes =
    if is_trigger t.direction
    then insert Str-discrete t.episode_id (opened t) episodes
    else if is_empty t.episode_id
    then episodes
    else (elim (lookup Str-discrete t.episode_id episodes) [
      | none ↦ episodes
      | some e ↦
          insert Str-discrete t.episode_id (record e { clear = some t; closed_at = t.at }) episodes
    ])

-- The tracker after a transition.
unfoldable pub settled : Direction → TrackerState → Transition → TrackerState
settled dir s t = record s {
  phase = if is_clear dir then Phase.inactive else Phase.active;
  sequence = inc_u64 s.sequence;
  episode_id = if is_trigger dir then t.episode_id else [];
}

unfoldable pub commit :
    Reducer
    → ConditionKey
    → Direction
    → TrackerState
    → Time
    → Time
    → Time
    → Observation
    → Reducer × List Transition
commit r k dir s at due processing o =
    let t = committed k dir s at due processing o in
    let r' = put r k (settled dir s t) in
    (
      record r' { episodes = record_episode t r.episodes; transitions = r.transitions ++ t ∷ [] },
      t ∷ [],
    )

-- The observation that a timer stands for.
unfoldable pub timer_observation : Timer → TrackerState → Observation
timer_observation t s = record {
  key = t.key;
  direction = t.direction;
  result = Result.true;
  effective_at = s.effective_at;
  processing_at = zero_time;
  evidence_at = s.evidence_at;
  true_since = zero_time;
  observation_id = [];
  reason = s.reason;
}

-- The timer's attempt and direction are those of the tracker.
unfoldable pub matches : Reducer → Timer → Bool
matches r t = elim (lookup ConditionKey-discrete t.key r.states) [
  | none ↦ false
  | some s ↦ (s.attempt == t.attempt) && same Phase-discrete s.phase (phase_for t.direction)
]

-- The inner loop of `Advance`: the first due timer that matches its tracker.
unfoldable pub choose : Reducer → Time → List Timer → Option Timer
choose r now [] = none
choose r now (t ∷ ts) =
    if ltb now t.due_at then none else if matches r t then some t else choose r now ts

unfoldable pub commit_timer : Reducer → Timer → Time → Reducer × List Transition
commit_timer r t now =
    let s = tracker r t.key in
    commit r t.key t.direction s t.due_at t.due_at now (timer_observation t s)

-- The outer loop of `Advance`, on fuel.
unfoldable pub advance_loop : ℕ → Time → Reducer → Reducer × List Transition
advance_loop zero now r = (r, [])
advance_loop (suc fuel) now r = elim (choose r now (timers r)) [
  | none ↦ (r, [])
  | some t ↦
      let (r', out) = commit_timer r t now in
      let (r'', more) = advance_loop fuel now r' in (r'', out ++ more)
]

-- Each round commits a pending tracker, so there are at most as many rounds as trackers.
unfoldable pub advance : Reducer → Time → Reducer × List Transition
advance r now =
    if is_zero now
    then (r, [])
    else (let now' = if ltb now r.logical then r.logical else now in
        advance_loop (length r.states) now' (record r { logical = now' }))

-- Where the interval of an observation begins.
unfoldable pub interval_start : Observation → Time → Time
interval_start o processing =
    let start =
      if not (is_zero o.true_since) && leb o.true_since o.effective_at
      then o.true_since
      else o.effective_at in
    if is_zero start then processing else start

unfoldable pub start :
    Reducer
    → ConditionKey
    → Direction
    → TrackerState
    → ℤ
    → Observation
    → Time
    → Reducer × List Transition
start r k dir s duration o processing =
    let began = interval_start o processing in
    let s' = record s { started_at = began; phase = phase_for dir; attempt = inc_u64 s.attempt } in
    let due = add began duration in
    if ltb r.logical due
    then (put r k s', [])
    else commit r k dir s' (if ltb due r.logical then r.logical else due) due processing o

-- What an observation stores in the tracker before the phases are looked at.
unfoldable pub refresh : TrackerState → Observation → TrackerState
refresh s o = record s {
  effective_at = o.effective_at;
  evidence_at = if is_zero o.evidence_at then o.effective_at else o.evidence_at;
  reason = o.reason;
}

-- Withdraws a pending phase.
unfoldable pub withdraw : Reducer → ConditionKey → TrackerState → Phase → Reducer × List Transition
withdraw r k s phase = (put r k (record s { phase = phase; attempt = inc_u64 s.attempt }), [])

-- The part of `Apply` behind the advance: `o` has its effective time.
unfoldable pub observe : Reducer → Observation → Reducer × List Transition
observe r o =
    let s = refresh (tracker r o.key) o in
    let r' = put r o.key s in
    let now_true = same Result-discrete o.result Result.true in
    if is_trigger o.direction
    then (if now_true && same Phase-discrete s.phase Phase.inactive
        then start r' o.key Direction.trigger s r.config.trigger_duration o r.logical
        else if not now_true && same Phase-discrete s.phase Phase.triggering
        then withdraw r' o.key s Phase.inactive
        else (r', []))
    else if now_true && same Phase-discrete s.phase Phase.active
    then start r' o.key Direction.clear s r.config.clear_duration o r.logical
    else if not now_true && same Phase-discrete s.phase Phase.clearing
    then withdraw r' o.key s Phase.active
    else (r', [])

unfoldable pub other_revision : RuleConfig → ConditionKey → Bool
other_revision cfg k =
    not (is_empty cfg.rule_id)
    && (not (same Str-discrete k.rule_id cfg.rule_id)
        || not (same ℤ-discrete k.revision cfg.revision))

unfoldable pub is_direction : Direction → Bool
is_direction d = is_trigger d || is_clear d

unfoldable pub is_result : Result → Bool
is_result Result.unknown = true
is_result Result.false = true
is_result Result.true = true
is_result (Result.other n) = false

-- The processing time that `Apply` uses.
unfoldable pub processing_time : Observation → Time
processing_time o = if is_zero o.processing_at then o.effective_at else o.processing_at

unfoldable pub already_seen : Reducer → Str → Bool
already_seen r id = not (is_empty id) && has Str-discrete id r.seen_occurrences

unfoldable pub mark_seen : Reducer → Str → Reducer
mark_seen r id = if is_empty id then r else record r { seen_occurrences = id ∷ r.seen_occurrences }

unfoldable pub with_effective : Observation → Time → Observation
with_effective o processing =
    if is_zero o.effective_at then record o { effective_at = processing } else o

-- An observation that `Apply` returns on at once, with no effect.
unfoldable pub ignored : Reducer → Observation → Bool
ignored r o =
    other_revision r.config o.key
    || not (is_direction o.direction)
    || not (is_result o.result)
    || is_zero (processing_time o)
    || already_seen r o.observation_id

unfoldable pub apply : Reducer → Observation → Reducer × List Transition
apply r o =
    if ignored r o
    then (r, [])
    else (let processing = processing_time o in
        let (r', out) = advance (mark_seen r o.observation_id) processing in
        let (r'', more) = observe r' (with_effective o processing) in (r'', out ++ more))

-- The logical time after a callback at `now`.
unfoldable pub tick : Reducer → Time → Reducer
tick r now = if ltb now r.logical then r else record r { logical = now }

-- The tests of `Fire` after the clock has moved.
unfoldable pub fires : Reducer → Timer → Bool
fires r t =
    is_direction t.direction
    && not (ltb r.logical t.due_at)
    && matches r t
    && (t.due_at == add (tracker r t.key).started_at (duration_for r.config t.direction))

unfoldable pub fire : Reducer → Timer → Time → Reducer × List Transition
fire r t now =
    if is_zero now
    then (r, [])
    else (let r' = tick r now in if fires r' t then commit_timer r' t r'.logical else (r', []))

unfoldable pub visible_phase : Phase → VisiblePhase
visible_phase Phase.inactive = VisiblePhase.inactive
visible_phase Phase.triggering = VisiblePhase.pending_trigger
visible_phase Phase.active = VisiblePhase.active
visible_phase Phase.clearing = VisiblePhase.pending_clear
