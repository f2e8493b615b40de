-- ===== src/Evaluation/Firing.antt =====
-- What one firing does to a reducer, and the timers of all the entries together.
use assembled_watchtower.Base.{
  ◌≤◌, List, [], ◌∷◌, ◌++◌, append_assoc, map, true, false, ltb, All, All-append, arith, ◌≡◌, refl,
  sym, ap, subst, Unique,
}
use assembled_watchtower.Base.Time.{Time, is_zero, add}
use assembled_watchtower.Conditions.Enums.{Phase, Direction-discrete}
use assembled_watchtower.Conditions.Types.{ConditionKey-discrete, Timer, Reducer, direction_for}
use assembled_watchtower.Conditions.Timers.{timers, timer_of, duration_for}
use assembled_watchtower.Conditions.Tracking.{Tracked}
use assembled_watchtower.Conditions.Reducer.{
  fire, fires, tick, commit_timer, is_direction, is_trigger, is_clear,
}
use assembled_watchtower.Conditions.Settling.{
  stamp, due_stamp, timers-Tracked, timers-commit_timer, commit_timer-stamp, commit_timer_frame,
  matches-Tracked, tracker-Tracked,
}
use assembled_watchtower.Evaluation.Types.{RuleKey, Activation}
use assembled_watchtower.Evaluation.Clock.{all_timers}
use assembled_watchtower.Evaluation.Selection.{EachTimer}

-- A reducer that the runtime keeps at or before a time, with one tracker for each key.
abbrev pub IsKept : Time → RuleKey × Activation → Type 0
IsKept now e = Unique ConditionKey-discrete e.1.reducer.states × (e.1.reducer.logical ≤ now)

pub all_timers-append :
    (xs ys : List (RuleKey × Activation)) → all_timers (xs ++ ys) ≡ all_timers xs ++ all_timers ys
unfolding all_timers
all_timers-append [] ys = refl
all_timers-append ((k, a) ∷ xs) ys =
    rw (all_timers-append xs ys)
      (sym (append_assoc (timers a.reducer) (all_timers xs) (all_timers ys)))

pub all_timers-All :
    (P : Timer → Type 0) (es : List (RuleKey × Activation)) → EachTimer P es → All P (all_timers es)
unfolding all_timers
all_timers-All P [] h = tt
all_timers-All P ((k, a) ∷ es) h =
    All-append P (timers a.reducer) (all_timers es) h.0 (all_timers-All P es h.1)

pub all_timers-Each :
    (P : Timer → Type 0) (es : List (RuleKey × Activation)) → All P (all_timers es) → EachTimer P es
unfolding all_timers
all_timers-Each P [] h = tt
all_timers-Each P ((k, a) ∷ es) h =
    let parts = split_all (timers a.reducer) h in (parts.0, all_timers-Each P es parts.1)
  where
    split_all : (xs : List Timer) → All P (xs ++ all_timers es) → All P xs × All P (all_timers es)
    split_all [] h = (tt, h)
    split_all (x ∷ xs) h = let rest = split_all xs h.1 in ((h.0, rest.0), rest.1)

-- The direction of a tracker's timer is one of the two.
direction_for-is_direction : (p : Phase) → is_direction (direction_for p) ≡ true
unfolding is_direction is_trigger is_clear direction_for Direction-discrete
direction_for-is_direction Phase.inactive = refl
direction_for-is_direction Phase.triggering = refl
direction_for-is_direction Phase.active = refl
direction_for-is_direction Phase.clearing = refl

-- A due timer that is pending passes the tests of `Fire`.
fires-Tracked :
    (r : Reducer) (t : Timer)
    → Tracked r.config r.states t
    → ltb r.logical t.due_at ≡ false
    → fires r t ≡ true
unfolding fires timer_of
fires-Tracked r t (s, found, p, e) due =
    let same_direction : t.direction ≡ direction_for s.phase = ap (λ (t : Timer). t.direction) e in
    let same_due : t.due_at ≡ add s.started_at (duration_for r.config (direction_for s.phase)) =
      ap (λ (t : Timer). t.due_at) e in
    let known : is_direction t.direction ≡ true =
      rw same_direction (direction_for-is_direction s.phase) in
    rw (known, due, matches-Tracked r t (s, found, p, e), tracker-Tracked r t (s, found, p, e))
      (rw same_direction (ground (arith, same_due)))

-- The reducer at a later time.
abbrev pub at_time : Reducer → Time → Reducer
at_time r now = record r { logical = now }

fire-commit_timer :
    (r : Reducer) (t : Timer) (now : Time)
    → Tracked r.config r.states t
    → ltb now t.due_at ≡ false
    → is_zero now ≡ false
    → r.logical ≤ now
    → fire r t now ≡ commit_timer (at_time r now) t now
unfolding fire tick
fire-commit_timer r t now d due h l =
    let clock : ltb now r.logical ≡ false = ground arith in
    rw (h, clock, fires-Tracked (at_time r now) t d due) refl

-- What one firing does.
pub record Fired (now : Time) (r : Reducer) (t : Timer) (ts : List Timer) : Type 0 where
  pub emitted : map stamp (fire r t now).1 ≡ due_stamp t ∷ []
  pub left : timers (fire r t now).0 ≡ ts
  pub unique : Unique ConditionKey-discrete (fire r t now).0.states
  pub kept : (fire r t now).0.logical ≤ now

pub fire-Fired :
    (r : Reducer) (t : Timer) (ts : List Timer) (now : Time)
    → timers r ≡ t ∷ ts
    → ltb now t.due_at ≡ false
    → is_zero now ≡ false
    → Unique ConditionKey-discrete r.states
    → r.logical ≤ now
    → Fired now r t ts
fire-Fired r t ts now h due z u l =
    let d : Tracked r.config r.states t =
      (subst (All (Tracked r.config r.states)) h (timers-Tracked r u)).0 in
    let e = fire-commit_timer r t now d due z l in
    let (one, config, clock) = commit_timer_frame (at_time r now) t now u in
    record {
      emitted = rw e (commit_timer-stamp (at_time r now) t now d);
      left = rw e (timers-commit_timer (at_time r now) t ts now (unfold timers in h) d);
      unique = rw e one;
      kept = rw (e, clock) (omega arith);
    }
