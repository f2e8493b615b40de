-- ===== src/Conditions/Settling.antt =====
-- What `Advance` does: it commits the due timers in canonical order, and leaves the others.
use assembled_watchtower.Base.{
  ℕ, zero, suc, ◌≤◌, ◌<◌, ◌≡◌, refl, sym, ◌∙◌, ap, inl, inr, List, [], ◌∷◌, ◌++◌, true, false,
  arith, if◌then◌else◌, ltb, Bool-cases, insert, Unique, insert-Unique, All, All-map, length, max,
  map, map-append, subst,
}
use assembled_watchtower.Base.Sort.{
  sort, insert_sorted, Sorted, sort-Sorted, sort-All, insert_cancel,
}
use assembled_watchtower.Base.Time.{Time, is_zero}
use assembled_watchtower.Conditions.Enums.{Direction, Phase}
use assembled_watchtower.Conditions.Types.{
  ConditionKey, ConditionKey-discrete, Timer, TrackerState, Reducer, Transition, direction_for,
  phase_for,
}
use assembled_watchtower.Conditions.Timers.{
  is_pending, timer_of, pending_timers, less_timer, timers,
}
use assembled_watchtower.Conditions.Order.{less_timer-IsLess}
use assembled_watchtower.Conditions.Tracking.{
  Tracked, pending_timers-insert, pending_timers-Tracked, length-timers-le,
}
use assembled_watchtower.Conditions.Reducer.{
  tracker, put, commit, committed, settled, matches, choose, commit_timer, advance_loop, advance,
  timer_observation,
}

-- The due timers at the head of a list, and the rest.
unfoldable pub due_through : Time → List Timer → List Timer
due_through now [] = []
due_through now (t ∷ ts) = if ltb now t.due_at then [] else t ∷ due_through now ts

unfoldable pub due_after : Time → List Timer → List Timer
due_after now [] = []
due_after now (t ∷ ts) = if ltb now t.due_at then t ∷ ts else due_after now ts

-- What a transition shows of the timer that it commits.
pub record Stamp : Type 0 where
  pub key : ConditionKey
  pub direction : Direction
  pub at : Time
  pub due_at : Time
  pub attempt : ℕ

abbrev pub stamp : Transition → Stamp
stamp t = record {
  key = t.key;
  direction = t.direction;
  at = t.at;
  due_at = t.times.due_at;
  attempt = t.attempt;
}

abbrev pub due_stamp : Timer → Stamp
due_stamp t = record {
  key = t.key;
  direction = t.direction;
  at = t.due_at;
  due_at = t.due_at;
  attempt = t.attempt;
}

pub timers-Tracked :
    (r : Reducer)
    → Unique ConditionKey-discrete r.states
    → All (Tracked r.config r.states) (timers r)
unfolding timers
timers-Tracked r u =
    sort-All less_timer less_timer-IsLess (Tracked r.config r.states)
      (pending_timers r.config r.states) (pending_timers-Tracked r.config r.states u)

phase_for-direction_for : (p : Phase) → is_pending p ≡ true → phase_for (direction_for p) ≡ p
unfolding phase_for direction_for is_pending
phase_for-direction_for Phase.triggering h = refl
phase_for-direction_for Phase.clearing h = refl
phase_for-direction_for Phase.inactive h = cc
phase_for-direction_for Phase.active h = cc

pub matches-Tracked : (r : Reducer) (t : Timer) → Tracked r.config r.states t → matches r t ≡ true
unfolding matches timer_of
matches-Tracked r t (s, found, p, e) = ground (
  arith,
  phase_for-direction_for s.phase p,
  ap (λ (t : Timer). t.attempt) e,
  ap (λ (t : Timer). t.direction) e,
)

pub tracker-Tracked :
    (r : Reducer) (t : Timer) (d : Tracked r.config r.states t) → tracker r t.key ≡ d.0
unfolding tracker
tracker-Tracked r t (s, found, p, e) = ground arith

settled_not_pending :
    (dir : Direction) (s : TrackerState) (t : Transition)
    → is_pending (settled dir s t).phase ≡ false
unfolding is_pending settled
settled_not_pending dir s t = ground arith

-- To commit the first timer leaves the others.
pub timers-commit_timer :
    (r : Reducer) (t : Timer) (ts : List Timer) (now : Time)
    → timers r ≡ t ∷ ts
    → Tracked r.config r.states t
    → timers (commit_timer r t now).0 ≡ ts
unfolding timers commit_timer commit put
timers-commit_timer r t ts now h (s, found, p, e) =
    insert_cancel less_timer less_timer-IsLess t _ ts (sym split ∙ h)
  where
    s' : TrackerState
    s' = settled t.direction (tracker r t.key) (
        committed t.key t.direction (tracker r t.key) t.due_at t.due_at now
          (timer_observation t (tracker r t.key)))

    split :
        sort less_timer (pending_timers r.config r.states)
        ≡ insert_sorted less_timer t (
            sort less_timer
              (pending_timers r.config (insert ConditionKey-discrete t.key s' r.states)))
    split =
        pending_timers-insert r.config t.key s s' r.states found p
          (settled_not_pending t.direction (tracker r t.key) _)
        ∙ ap
            (λ x. insert_sorted less_timer x (
              sort less_timer
                (pending_timers r.config (insert ConditionKey-discrete t.key s' r.states))))
            (sym e)

-- Committing keeps one tracker for each key, the configuration and the clock.
pub commit_timer_frame :
    (r : Reducer) (t : Timer) (now : Time)
    → Unique ConditionKey-discrete r.states
    → Unique ConditionKey-discrete (commit_timer r t now).0.states
      × ((commit_timer r t now).0.config ≡ r.config)
      × ((commit_timer r t now).0.logical ≡ r.logical)
unfolding commit_timer commit put
commit_timer_frame r t now u = (insert-Unique ConditionKey-discrete t.key _ r.states u, refl, refl)

pub commit_timer-stamp :
    (r : Reducer) (t : Timer) (now : Time)
    → Tracked r.config r.states t
    → map stamp (commit_timer r t now).1 ≡ due_stamp t ∷ []
unfolding commit_timer commit committed timer_of
commit_timer-stamp r t now (s, found, p, e) =
    let same_tracker : tracker r t.key ≡ s = tracker-Tracked r t (s, found, p, e) in
    let same_attempt : (tracker r t.key).attempt ≡ t.attempt =
      ap (λ (s : TrackerState). s.attempt) same_tracker ∙ sym (ap (λ (t : Timer). t.attempt) e) in
    ap
      (λ a.
        record {
          key = t.key;
          direction = t.direction;
          at = t.due_at;
          due_at = t.due_at;
          attempt = a;
        }
        ∷ [])
      same_attempt

-- What a run of the loop has done when no due timer is left.
pub record Advanced (now : Time) (r : Reducer) (p : Reducer × List Transition) : Type 0 where
  pub emitted : map stamp p.1 ≡ map due_stamp (due_through now (timers r))
  pub left : timers p.0 ≡ due_after now (timers r)
  pub unique : Unique ConditionKey-discrete p.0.states
  pub config : p.0.config ≡ r.config
  pub logical : p.0.logical ≡ r.logical

Advanced-here :
    (now : Time) (r : Reducer)
    → Unique ConditionKey-discrete r.states
    → due_through now (timers r) ≡ []
    → due_after now (timers r) ≡ timers r
    → Advanced now r (r, [])
Advanced-here now r u none_due all_left = record {
  emitted = ap (map due_stamp) (sym none_due);
  left = sym all_left;
  unique = u;
  config = refl;
  logical = refl;
}

Advanced-next :
    (now : Time) (r : Reducer) (t : Timer) (ts : List Timer) (p : Reducer × List Transition)
    → timers r ≡ t ∷ ts
    → ltb now t.due_at ≡ false
    → Tracked r.config r.states t
    → timers (commit_timer r t now).0 ≡ ts
    → Advanced now (commit_timer r t now).0 p
    → Advanced now r (p.0, (commit_timer r t now).1 ++ p.1)
unfolding due_through due_after
Advanced-next now r t ts p h due d rest a = record {
  emitted =
      map-append stamp (commit_timer r t now).1 p.1
      ∙ rw (commit_timer-stamp r t now d, a.emitted, rest, h, due) refl;
  left = a.left ∙ rw (rest, h, due) refl;
  unique = a.unique;
  config = a.config ∙ unfold commit_timer commit put in refl;
  logical = a.logical ∙ unfold commit_timer commit put in refl;
}

advance_loop_lem :
    (fuel : ℕ) (now : Time) (r : Reducer) (ts : List Timer)
    → timers r ≡ ts
    → length ts ≤ fuel
    → Unique ConditionKey-discrete r.states
    → Advanced now r (advance_loop fuel now r)
unfolding advance_loop choose due_through due_after
advance_loop_lem zero now r [] h b u = Advanced-here now r u (rw h refl) (rw h refl)
advance_loop_lem zero now r (t ∷ ts) h b u = absurd (omega arith)
advance_loop_lem (suc fuel) now r [] h b u =
    rw (h, advance_loop) (Advanced-here now r u (rw h refl) (rw h refl))
advance_loop_lem (suc fuel) now r (t ∷ ts) h b u =
    let d : Tracked r.config r.states t =
      (subst (All (Tracked r.config r.states)) h (timers-Tracked r u)).0 in
    elim (Bool-cases (ltb now t.due_at)) [
      | inl late ↦
          rw (h, advance_loop, late) (Advanced-here now r u (rw (h, late) refl) (rw (h, late) refl))
      | inr due ↦
          let rest = timers-commit_timer r t ts now h d in
          rw (h, advance_loop, due, matches-Tracked r t d)
            (Advanced-next now r t ts _ h due d rest (
              advance_loop_lem fuel now (commit_timer r t now).0 ts rest (omega arith)
                (commit_timer_frame r t now u).0))
    ]

-- The later of the reducer's clock and a given time.
abbrev pub clock_at : Reducer → Time → Time
clock_at r now = max r.logical now

pub advance-Advanced :
    (r : Reducer) (now : Time)
    → Unique ConditionKey-discrete r.states
    → is_zero now ≡ false
    → Advanced (clock_at r now) (record r { logical = clock_at r now }) (advance r now)
unfolding advance
advance-Advanced r now u h =
    let clock : (if ltb now r.logical then r.logical else now) ≡ clock_at r now = ground arith in
    rw (h, clock)
      (advance_loop_lem (length r.states) (clock_at r now) (record r { logical = clock_at r now })
        (timers (record r { logical = clock_at r now })) refl
        (unfold timers in length-timers-le r.config r.states) u)

-- `Advance` to a time that is not the zero time, on a reducer with one tracker for each key: the
-- transitions emitted are exactly those of the timers due through the new clock, each at its due
-- time and in the canonical order of the timers; the timers that stay pending are exactly the
-- others; and the clock is the later of its old value and the given time.
pub advance-due_timers :
    (r : Reducer) (now : Time)
    → Unique ConditionKey-discrete r.states
    → is_zero now ≡ false
    → (map stamp (advance r now).1 ≡ map due_stamp (due_through (clock_at r now) (timers r)))
      × (timers (advance r now).0 ≡ due_after (clock_at r now) (timers r))
      × ((advance r now).0.logical ≡ clock_at r now)
unfolding timers
advance-due_timers r now u h = let a = advance-Advanced r now u h in (a.emitted, a.left, a.logical)

pub less_timer-due : (a b : Timer) → less_timer a b ≡ false → b.due_at ≤ a.due_at
unfolding less_timer
less_timer-due a b h = ground arith

pub due_after-All :
    (now : Time) (ts : List Timer)
    → Sorted less_timer less_timer-IsLess ts
    → All (λ t. now < t.due_at) (due_after now ts)
unfolding due_after
due_after-All now [] s = tt
due_after-All now (t ∷ ts) s = elim (Bool-cases (ltb now t.due_at)) [
  | inl late ↦
      let here : now < t.due_at = ground arith in
      rw late (
        here,
        All-map (λ x. less_timer x t ≡ false) (λ x. now < x.due_at) ts
            (λ x h. omega (arith, less_timer-due x t h, here)) s.0,
      )
  | inr due ↦ rw due (due_after-All now ts s.1)
]

-- After `Advance` to a time that is not the zero time no timer is left that is due at or before the
-- clock: the loop has fuel enough to end by its own test.
pub advance_settles :
    (r : Reducer) (now : Time)
    → Unique ConditionKey-discrete r.states
    → is_zero now ≡ false
    → All (λ t. (advance r now).0.logical < t.due_at) (timers (advance r now).0)
advance_settles r now u h =
    let (emitted, left, clock) = advance-due_timers r now u h in
    rw (left, clock)
      (due_after-All (clock_at r now) (timers r) (
        unfold timers in
        sort-Sorted less_timer less_timer-IsLess (pending_timers r.config r.states)))
