-- ===== src/Conditions/Timers.antt =====
-- The pending timers of a reducer in the canonical order: `timers` and the order it sorts by.
use assembled_watchtower.Base.{
  List, [], ◌∷◌, Bool, true, false, ◌==◌, ltb, if◌then◌else◌, same, str_ltb, ltb_ℤ, Str-discrete,
  ℤ-discrete, ℤ,
}
use assembled_watchtower.Base.Sort.{sort}
use assembled_watchtower.Base.Time.{add}
use assembled_watchtower.Conditions.Enums.{Direction, Phase}
use assembled_watchtower.Conditions.Types.{
  ConditionKey, RuleConfig, TrackerState, Timer, Reducer, direction_for,
}

-- A pending tracker has a timer.
unfoldable pub is_pending : Phase → Bool
is_pending Phase.triggering = true
is_pending Phase.clearing = true
is_pending _ = false

unfoldable pub duration_for : RuleConfig → Direction → ℤ
duration_for cfg Direction.clear = cfg.clear_duration
duration_for cfg _ = cfg.trigger_duration

unfoldable pub timer_of : RuleConfig → ConditionKey → TrackerState → Timer
timer_of cfg k s = record {
  key = k;
  direction = direction_for s.phase;
  due_at = add s.started_at (duration_for cfg (direction_for s.phase));
  attempt = s.attempt;
}

-- The loop over the map of trackers.
unfoldable pub pending_timers : RuleConfig → List (ConditionKey × TrackerState) → List Timer
pending_timers cfg [] = []
pending_timers cfg ((k, s) ∷ m) =
    if is_pending s.phase then timer_of cfg k s ∷ pending_timers cfg m else pending_timers cfg m

-- The order on keys: rule ID, revision, subject kind, subject ID; then `rest` decides.
unfoldable pub less_key : ConditionKey → ConditionKey → Bool → Bool
less_key a b rest =
    if same Str-discrete a.rule_id b.rule_id
    then (if same ℤ-discrete a.revision b.revision
        then (if same Str-discrete a.subject.kind b.subject.kind
            then (if same Str-discrete a.subject.id b.subject.id
                then rest
                else str_ltb a.subject.id b.subject.id)
            else str_ltb a.subject.kind b.subject.kind)
        else ltb_ℤ a.revision b.revision)
    else str_ltb a.rule_id b.rule_id

unfoldable pub less_timer : Timer → Timer → Bool
less_timer a b =
    if a.due_at == b.due_at
    then less_key a.key b.key (ltb a.attempt b.attempt)
    else ltb a.due_at b.due_at

unfoldable pub timers : Reducer → List Timer
timers r = sort less_timer (pending_timers r.config r.states)
