-- ===== src/Evaluation/Merge.antt =====
-- What `Advance` of the runtime does: the reducers together commit their due timers in one
-- canonical order.
use assembled_watchtower.Base.{
  ◌≤◌, ◌<◌, List, [], ◌∷◌, ◌++◌, append-nil, map, false, not, ◌&&◌, ltb, inr, length, All, arith,
  ◌≡◌, refl,
}
use assembled_watchtower.Base.Sort.{sort, sort-inside, sort-Sorted}
use assembled_watchtower.Base.Time.{Time, is_zero}
use assembled_watchtower.Conditions.Types.{Timer, Transition}
use assembled_watchtower.Conditions.Timers.{less_timer}
use assembled_watchtower.Conditions.Order.{less_timer-IsLess}
use assembled_watchtower.Conditions.Settling.{
  due_through, due_after, due_after-All, stamp, due_stamp,
}
use assembled_watchtower.Evaluation.Types.{RuleKey, Activation, Runtime}
use assembled_watchtower.Evaluation.Clock.{fire_loop, synchronize, all_timers, advance_runtime}
use assembled_watchtower.Evaluation.Selection.{EachTimer}
use assembled_watchtower.Evaluation.Firing.{IsKept, all_timers-Each}
use assembled_watchtower.Evaluation.Draining.{Drained, fire_loop-Drained, advance-Idle}

-- What the second loop does when no timer is due.
record Synchronized (now : Time) (es : List (RuleKey × Activation))
    (p : List (RuleKey × Activation) × List Transition) : Type 0 where
  silent : p.1 ≡ []
  same_timers : all_timers p.0 ≡ all_timers es
  kept : All (IsKept now) p.0
  clocks : All (λ (e : RuleKey × Activation). e.1.reducer.logical ≡ now) p.0

synchronize-Synchronized :
    (now : Time) (es : List (RuleKey × Activation))
    → is_zero now ≡ false
    → All (IsKept now) es
    → EachTimer (λ t. now < t.due_at) es
    → Synchronized now es (synchronize now es)
unfolding synchronize all_timers
synchronize-Synchronized now [] z kept late = record {
  silent = refl;
  same_timers = refl;
  kept = tt;
  clocks = tt;
}
synchronize-Synchronized now ((k, a) ∷ es) z kept late =
    let (silent, left, here, clock) = advance-Idle now (k, a) z kept.0 late.0 in
    let rest = synchronize-Synchronized now es z kept.1 late.1 in
    record {
      silent = rw (silent, rest.silent) refl;
      same_timers = rw (left, rest.same_timers) refl;
      kept = (here, rest.kept);
      clocks = (clock, rest.clocks);
    }

-- The canonical list of the timers of all the reducers.
abbrev pub pending : Runtime → List Timer
pending rt = sort less_timer (all_timers rt.active)

-- What a successful `Advance` has done.
pub record IsAdvanced (rt : Runtime) (now : Time) (rt' : Runtime) (out : List Transition)
    : Type 0 where
  pub emitted : map stamp out ≡ map due_stamp (due_through now (pending rt))
  pub left : pending rt' ≡ due_after now (pending rt)
  pub none_due : All (λ t. now < t.due_at) (pending rt')
  pub clocks : All (λ (e : RuleKey × Activation). e.1.reducer.logical ≡ now) rt'.active
  pub kept : All (IsKept rt'.logical) rt'.active
  pub logical : rt'.logical ≡ now

-- `Advance` of a runtime to a time that is not the zero time nor before its clock, where no
-- reducer's clock is ahead of that time and each reducer has one tracker for each key, succeeds. The transitions
-- are those of the timers of all the rules that are due through that time, each at its due time,
-- in the one canonical order of all of them; the timers left are exactly the others, all later
-- than that time; and every reducer's clock, and the runtime's, is that time.
pub advance_runtime-IsAdvanced :
    (rt : Runtime) (now : Time)
    → All (IsKept now) rt.active
    → rt.logical ≤ now
    → is_zero now ≡ false
    → (rt' : Runtime) × (out : List Transition) × (advance_runtime rt now ≡ inr (rt', out))
      × IsAdvanced rt now rt' out
unfolding advance_runtime
advance_runtime-IsAdvanced rt now kept later z =
    let before : ltb now rt.logical ≡ false = ground arith in
    let in_time : (not (is_zero rt.logical) && ltb now rt.logical) ≡ false =
      ground (arith, before) in
    (_, _, rw (z, in_time) refl, result)
  where
    fired : List (RuleKey × Activation) × List Transition
    fired = fire_loop (length (all_timers rt.active)) now rt.active

    drained : Drained now rt.active fired
    drained = fire_loop-Drained (length (all_timers rt.active)) now rt.active z kept (omega arith)

    late : All (λ t. now < t.due_at) (sort less_timer (all_timers fired.0))
    late = rw drained.left (
        due_after-All now (pending rt)
          (sort-Sorted less_timer less_timer-IsLess (all_timers rt.active)))

    synced : Synchronized now fired.0 (synchronize now fired.0)
    synced = synchronize-Synchronized now fired.0 z drained.kept (
        all_timers-Each (λ t. now < t.due_at) fired.0
          (sort-inside less_timer less_timer-IsLess (λ t. now < t.due_at) (all_timers fired.0)
            late))

    result :
        IsAdvanced rt now
          (record { active = (synchronize now fired.0).0; logical = now })
          (fired.1 ++ (synchronize now fired.0).1)
    result = record {
      emitted = rw (synced.silent, append-nil fired.1) drained.emitted;
      left = rw synced.same_timers drained.left;
      none_due = rw synced.same_timers late;
      clocks = synced.clocks;
      kept = synced.kept;
      logical = refl;
    }
