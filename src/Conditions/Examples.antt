-- ===== src/Conditions/Examples.antt =====
-- The condition reducer on concrete inputs: tests by evaluation, and the theorems at an input.
use assembled_watchtower.Base.{
  ℕ, ◌+◌, ◌<◌, ◌≤◌, ◌≡◌, refl, List, [], ◌∷◌, false, Str, codes, pos, Str-discrete, ℤ-discrete,
  ℕ_discrete, lookup, insert, has, Unique, All, map,
}
use assembled_watchtower.Base.Sort.{sort, insert_sorted}
use assembled_watchtower.Base.Time.{Time, zero_time}
use assembled_watchtower.Conditions.Enums.{
  Result, Direction, Phase, Result-discrete, Direction-discrete, Phase-discrete,
}
use assembled_watchtower.Conditions.Types.{
  ConditionKey, ConditionKey-discrete, Observation, RuleConfig, Reducer, Transition, empty_tracker,
  direction_for, phase_for,
}
use assembled_watchtower.Conditions.Timers.{
  timers, pending_timers, timer_of, duration_for, is_pending, less_timer, less_key,
}
use assembled_watchtower.Conditions.Reducer.{
  new, apply, advance, advance_loop, commit, commit_timer, choose, matches, tracker, put, settled,
  committed, observe, start, withdraw, refresh, ignored, fire, fires, other_revision, is_direction,
  is_result, is_trigger, is_clear, already_seen, mark_seen, processing_time, with_effective,
  interval_start, timer_observation, record_episode, opened, tick,
}
use assembled_watchtower.Conditions.Settling.{
  stamp, due_stamp, due_through, due_after, clock_at, advance-due_timers, advance_settles,
}
use assembled_watchtower.Conditions.Lifecycle.{IsCoherent}
use assembled_watchtower.Conditions.Coherence.{
  Call, applies, advances, run, step, reducer_run-IsCoherent,
}
use assembled_watchtower.Conditions.Runs.{run-clock, apply-replayed}

abbrev config : RuleConfig
config = record {
  rule_id = codes "r";
  revision = pos 1;
  trigger_duration = pos 300;
  clear_duration = pos 0;
}

abbrev fresh : Reducer
fresh = record {
  config = config;
  states = [];
  seen_occurrences = [];
  episodes = [];
  transitions = [];
  logical = zero_time;
}

abbrev billing : ConditionKey
billing = record {
  rule_id = codes "r";
  revision = pos 1;
  subject = record { kind = codes "queue"; id = codes "billing" };
}

-- Seconds of the day, as far as the tests go.
abbrev clock : ℕ → Time
clock n = zero_time + n

abbrev observation : Direction → Result → ℕ → Str → Observation
observation d result at id = record {
  key = billing;
  direction = d;
  result = result;
  effective_at = clock at;
  processing_at = clock at;
  evidence_at = clock at;
  true_since = zero_time;
  observation_id = id;
  reason = [];
}

abbrev breach : Observation
breach = observation Direction.trigger Result.true 100 (codes "o1")

abbrev calls : List Call
calls = applies breach ∷ advances (clock 500) ∷ []

-- What the tests evaluate.
program : Unit {0}
unfolding new lookup insert has ConditionKey-discrete Str-discrete ℤ-discrete ℕ_discrete
    Direction-discrete Phase-discrete Result-discrete sort insert_sorted timers pending_timers
    timer_of duration_for is_pending less_timer less_key apply advance advance_loop commit
    commit_timer choose matches tracker put settled committed observe start withdraw refresh ignored
    fire fires other_revision is_direction is_result is_trigger is_clear already_seen mark_seen
    processing_time with_effective interval_start timer_observation record_episode opened tick run
    step direction_for phase_for
program = tt

abbrev summary : Reducer → List (Direction × Time)
summary r = map (λ (t : Transition). (t.direction, t.at)) r.transitions

-- A breach at 100 that lasts 300 opens at 400, and clears at once when it ends.
run_opens :
    summary (
      run fresh (
        applies breach
        ∷ advances (clock 399)
        ∷ advances (clock 500)
        ∷ applies (observation Direction.clear Result.true 600 (codes "o2"))
        ∷ []))
    ≡ (Direction.trigger, clock 400) ∷ (Direction.clear, clock 600) ∷ []
unfolding program
run_opens = refl

abbrev pending : Reducer
pending = record fresh {
  states =
      (
        billing,
        record empty_tracker { phase = Phase.triggering; started_at = clock 100; attempt = 1 },
      )
      ∷ [];
  logical = clock 100;
}

pending-Unique : Unique ConditionKey-discrete pending.states
unfolding lookup
pending-Unique = (refl, tt)

advance-due_timers_example :
    (map stamp (advance pending (clock 500)).1
      ≡ map due_stamp (due_through (clock_at pending (clock 500)) (timers pending)))
    × (timers (advance pending (clock 500)).0
        ≡ due_after (clock_at pending (clock 500)) (timers pending))
    × ((advance pending (clock 500)).0.logical ≡ clock_at pending (clock 500))
advance-due_timers_example = advance-due_timers pending (clock 500) pending-Unique refl

advance_settles_example :
    All
      (λ t. (advance pending (clock 500)).0.logical < t.due_at)
      (timers (advance pending (clock 500)).0)
advance_settles_example = advance_settles pending (clock 500) pending-Unique refl

reducer_run-IsCoherent_example : IsCoherent (run fresh calls)
unfolding new
reducer_run-IsCoherent_example = reducer_run-IsCoherent config fresh calls refl

run-clock_example : pending.logical ≤ (run pending calls).logical
run-clock_example = run-clock pending calls

fresh_not_ignored : ignored fresh breach ≡ false
unfolding program
fresh_not_ignored = refl

apply-replayed_example :
    apply (run (apply fresh breach).0 calls) breach ≡ (run (apply fresh breach).0 calls, [])
apply-replayed_example = apply-replayed fresh breach calls refl fresh_not_ignored
