-- ===== src/Conditions/Coherence.antt =====
-- Every operation of the reducer keeps it coherent, and none turns its clock back.
use assembled_watchtower.Base.{
  ℕ, zero, suc, ◌≡◌, refl, ◌⊎◌, inl, inr, List, [], ◌∷◌, Bool, true, not, ◌&&◌, arith,
  if◌then◌else◌, ltb, Bool-cases, some, lookup, length, Option-cases, same, Str, All, ℤ, inc_u64,
  if_elim, is_empty,
}
use assembled_watchtower.Base.Time.{Time, is_zero, add}
use assembled_watchtower.Base.Sort.{sort-All}
use assembled_watchtower.Conditions.Enums.{
  Direction, Phase, Result, Phase-discrete, Result-discrete,
}
use assembled_watchtower.Conditions.Types.{
  ConditionKey, Timer, RuleConfig, TrackerState, Reducer, Transition, Observation, direction_for,
  phase_for,
}
use assembled_watchtower.Conditions.Timers.{timers, pending_timers, timer_of, less_timer}
use assembled_watchtower.Conditions.Order.{less_timer-IsLess}
use assembled_watchtower.Conditions.Reducer.{
  tracker, put, matches, choose, commit_timer, advance_loop, advance, timer_observation, is_clear,
  is_trigger, start, observe, withdraw, refresh, apply, fire, fires, tick, mark_seen, is_direction,
  ignored, new, interval_start,
}
use assembled_watchtower.Conditions.Lifecycle.{
  IsCoherent, held, is_engaged, open_after, Opposes, put-IsCoherent, commit-IsCoherent, tracker-put,
}

-- A new reducer, where the durations allow one.
pub new-IsCoherent : (cfg : RuleConfig) (r : Reducer) → new cfg ≡ some r → IsCoherent r
unfolding new open_after tracker lookup held is_engaged
new-IsCoherent cfg r h = ground arith

matches-phase :
    (r : Reducer) (t : Timer) → matches r t ≡ true → (tracker r t.key).phase ≡ phase_for t.direction
unfolding matches tracker
matches-phase r t h = ground arith

commit_timer-IsCoherent :
    (r : Reducer) (t : Timer) (now : Time)
    → matches r t ≡ true
    → is_direction t.direction ≡ true
    → IsCoherent r
    → IsCoherent (commit_timer r t now).0
unfolding commit_timer
commit_timer-IsCoherent r t now m d c =
    commit-IsCoherent r t.key t.direction (tracker r t.key) t.due_at t.due_at now
      (timer_observation t (tracker r t.key)) opposes c
  where
    opposes : Opposes t.direction (tracker r t.key) (tracker r t.key)
    opposes =
        unfold phase_for is_engaged is_direction is_trigger is_clear in
        ground (arith, matches-phase r t m)

choose-matches :
    (r : Reducer) (now : Time) (t : Timer) (ts : List Timer)
    → All (λ x. is_direction x.direction ≡ true) ts
    → choose r now ts ≡ some t
    → (matches r t ≡ true) × (is_direction t.direction ≡ true)
unfolding choose
choose-matches r now t [] a h = cc
choose-matches r now t (x ∷ ts) a h = ground (arith, choose-matches r now t ts a.1)

pending_timers-All :
    (cfg : RuleConfig) (m : List (ConditionKey × TrackerState))
    → All (λ t. is_direction t.direction ≡ true) (pending_timers cfg m)
unfolding pending_timers timer_of is_direction is_trigger is_clear direction_for
pending_timers-All cfg [] = tt
pending_timers-All cfg ((k, s) ∷ m) = ground (arith, pending_timers-All cfg m)

timers-All : (r : Reducer) → All (λ t. is_direction t.direction ≡ true) (timers r)
unfolding timers
timers-All r =
    sort-All less_timer less_timer-IsLess (λ t. is_direction t.direction ≡ true)
      (pending_timers r.config r.states) (pending_timers-All r.config r.states)

advance_loop-IsCoherent :
    (fuel : ℕ) (now : Time) (r : Reducer) → IsCoherent r → IsCoherent (advance_loop fuel now r).0
unfolding advance_loop
advance_loop-IsCoherent zero now r c = c
advance_loop-IsCoherent (suc fuel) now r c = elim (Option-cases (choose r now (timers r))) [
  | inl e ↦ rw (e, advance_loop) c
  | inr (t, e) ↦
      let (m, d) = choose-matches r now t (timers r) (timers-All r) e in
      rw (e, advance_loop)
        (advance_loop-IsCoherent fuel now (commit_timer r t now).0
          (commit_timer-IsCoherent r t now m d c))
]

-- The clock does not bear on coherence, nor do the seen occurrences.
Coherent_clock : (r : Reducer) (now : Time) → IsCoherent r → IsCoherent (record r { logical = now })
unfolding tracker
Coherent_clock r now c = record { unique = c.unique; journal = c.journal }

Coherent_seen :
    (r : Reducer) (ids : List Str) → IsCoherent r → IsCoherent (record r { seen_occurrences = ids })
unfolding tracker
Coherent_seen r ids c = record { unique = c.unique; journal = c.journal }

advance-IsCoherent : (r : Reducer) (now : Time) → IsCoherent r → IsCoherent (advance r now).0
unfolding advance
advance-IsCoherent r now c = elim (Bool-cases (is_zero now)) [
  | inl e ↦ rw e c
  | inr e ↦ rw e (
      advance_loop-IsCoherent (length r.states) (if ltb now r.logical then r.logical else now) _
        (Coherent_clock r _ c))
]

-- An operation's result whose reducer is coherent.
record Keeps (p : Reducer × List Transition) : Type 0 where
  coherent : IsCoherent p.0

-- `start` is called on an inactive tracker to trigger, and on an active one to clear.
abbrev Startable : Direction → TrackerState → Type 0
Startable dir s =
    ((dir ≡ Direction.trigger) × (s.phase ≡ Phase.inactive))
    ⊎ ((dir ≡ Direction.clear) × (s.phase ≡ Phase.active))

module _ (r : Reducer) (k : ConditionKey) (s : TrackerState) (here : tracker r k ≡ s) where
  start-IsCoherent :
      (dir : Direction) (duration : ℤ) (o : Observation) (processing : Time)
      → Startable dir s
      → IsCoherent r
      → Keeps (start r k dir s duration o processing)
  unfolding start
  start-IsCoherent dir duration o processing st c =
      if_elim Keeps (ltb r.logical (add (interval_start o processing) duration))
        (λ _. record { coherent = put-IsCoherent r k _ same_held c })
        (λ _. record { coherent = commit-IsCoherent r k dir _ _ _ processing o opposes c })
    where
      same_held :
          held (record s {
            started_at = interval_start o processing;
            phase = phase_for dir;
            attempt = inc_u64 s.attempt;
          })
          ≡ held (tracker r k)
      same_held = unfold held is_engaged phase_for in ground (arith, here, st)

      opposes :
          Opposes dir
            (record s {
              started_at = interval_start o processing;
              phase = phase_for dir;
              attempt = inc_u64 s.attempt;
            })
            (tracker r k)
      opposes = unfold is_engaged in ground (arith, here, st)

  withdraw-IsCoherent :
      (phase : Phase)
      → is_engaged phase ≡ is_engaged s.phase
      → IsCoherent r
      → Keeps (withdraw r k s phase)
  unfolding withdraw held
  withdraw-IsCoherent phase h c = record {
    coherent = put-IsCoherent r k _ (ground (arith, here, h)) c;
  }

observe-IsCoherent : (r : Reducer) (o : Observation) → IsCoherent r → Keeps (observe r o)
unfolding observe
observe-IsCoherent r o c =
    if_elim Keeps (is_trigger o.direction)
      (λ _.
        if_elim Keeps (now_true && same Phase-discrete s.phase Phase.inactive)
          (λ h.
            start-IsCoherent r' o.key s here Direction.trigger _ o _ (inl (refl, inactive h)) c')
          (λ _.
            if_elim Keeps (not now_true && same Phase-discrete s.phase Phase.triggering)
              (λ h. withdraw-IsCoherent r' o.key s here Phase.inactive (pending h) c')
              (λ _. record { coherent = c' })))
      (λ _.
        if_elim Keeps (now_true && same Phase-discrete s.phase Phase.active)
          (λ h. start-IsCoherent r' o.key s here Direction.clear _ o _ (inr (refl, active h)) c')
          (λ _.
            if_elim Keeps (not now_true && same Phase-discrete s.phase Phase.clearing)
              (λ h. withdraw-IsCoherent r' o.key s here Phase.active (clearing h) c')
              (λ _. record { coherent = c' })))
  where
    s : TrackerState
    s = refresh (tracker r o.key) o

    r' : Reducer
    r' = put r o.key s

    here : tracker r' o.key ≡ s
    here = ground (arith, tracker-put r o.key o.key s)

    c' : IsCoherent r'
    c' = put-IsCoherent r o.key s (unfold held refresh in refl) c

    now_true : Bool
    now_true = same Result-discrete o.result Result.true

    inactive :
        (now_true && same Phase-discrete s.phase Phase.inactive) ≡ true → s.phase ≡ Phase.inactive
    inactive h = ground arith

    active : (now_true && same Phase-discrete s.phase Phase.active) ≡ true → s.phase ≡ Phase.active
    active h = ground arith

    pending :
        (not now_true && same Phase-discrete s.phase Phase.triggering) ≡ true
        → is_engaged Phase.inactive ≡ is_engaged s.phase
    pending h = unfold is_engaged in ground arith

    clearing :
        (not now_true && same Phase-discrete s.phase Phase.clearing) ≡ true
        → is_engaged Phase.active ≡ is_engaged s.phase
    clearing h = unfold is_engaged in ground arith

mark_seen-IsCoherent : (r : Reducer) (id : Str) → IsCoherent r → IsCoherent (mark_seen r id)
unfolding mark_seen
mark_seen-IsCoherent r id c = elim (Bool-cases (is_empty id)) [
  | inl e ↦ rw e c
  | inr e ↦ rw e (Coherent_seen r (id ∷ r.seen_occurrences) c)
]

apply-IsCoherent : (r : Reducer) (o : Observation) → IsCoherent r → IsCoherent (apply r o).0
unfolding apply
apply-IsCoherent r o c = elim (Bool-cases (ignored r o)) [
  | inl e ↦ rw e c
  | inr e ↦
      rw e
        (observe-IsCoherent _ _
          (advance-IsCoherent _ _ (mark_seen-IsCoherent r o.observation_id c))).coherent
]

fire-IsCoherent :
    (r : Reducer) (t : Timer) (now : Time) → IsCoherent r → IsCoherent (fire r t now).0
unfolding fire tick fires
fire-IsCoherent r t now c = elim (Bool-cases (is_zero now)) [
  | inl e ↦ rw e c
  | inr e ↦ rw e (after_tick (tick r now) ticked)
]
  where
    ticked : IsCoherent (tick r now)
    ticked = elim (Bool-cases (ltb now r.logical)) [
      | inl e ↦ rw e c
      | inr e ↦ rw e (Coherent_clock r now c)
    ]

    after_tick :
        (r' : Reducer)
        → IsCoherent r'
        → IsCoherent (if fires r' t then commit_timer r' t r'.logical else (r', [])).0
    after_tick r' c' = elim (Bool-cases (fires r' t)) [
      | inl e ↦ rw e (commit_timer-IsCoherent r' t r'.logical (ground arith) (ground arith) c')
      | inr e ↦ rw e c'
    ]

-- The calls that change a reducer.
pub data Call : Type 0 where
  applies : Observation → Call
  advances : Time → Call
  fires_timer : Timer → Time → Call

unfoldable pub step : Reducer → Call → Reducer
step r (applies o) = (apply r o).0
step r (advances now) = (advance r now).0
step r (fires_timer t now) = (fire r t now).0

unfoldable pub run : Reducer → List Call → Reducer
run r [] = r
run r (c ∷ cs) = run (step r c) cs

pub step-IsCoherent : (r : Reducer) (c : Call) → IsCoherent r → IsCoherent (step r c)
unfolding step
step-IsCoherent r (applies o) h = apply-IsCoherent r o h
step-IsCoherent r (advances now) h = advance-IsCoherent r now h
step-IsCoherent r (fires_timer t now) h = fire-IsCoherent r t now h

run-IsCoherent : (r : Reducer) (cs : List Call) → IsCoherent r → IsCoherent (run r cs)
unfolding run
run-IsCoherent r [] h = h
run-IsCoherent r (c ∷ cs) h = run-IsCoherent (step r c) cs (step-IsCoherent r c h)

-- After any calls on a reducer from `New`, the reducer is coherent: it holds one tracker for each
-- key, and for every key the journal of transitions alternates between triggers and clears,
-- beginning with a trigger, every clear carries the episode of the trigger before it, and the
-- episode left open is the one that the key's tracker holds while it is active or clearing.
pub reducer_run-IsCoherent :
    (cfg : RuleConfig) (r : Reducer) (cs : List Call) → new cfg ≡ some r → IsCoherent (run r cs)
reducer_run-IsCoherent cfg r cs h = run-IsCoherent r cs (new-IsCoherent cfg r h)
