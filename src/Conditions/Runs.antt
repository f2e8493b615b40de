-- ===== src/Conditions/Runs.antt =====
-- Sequences of calls: the clock never goes back, and an observation counts once.
use assembled_watchtower.Base.{
  ℕ, zero, suc, ◌≤◌, ◌≡◌, refl, ◌∙◌, inl, inr, List, [], ◌∷◌, true, false, arith, if◌then◌else◌,
  Bool-cases, Option-cases, Str, Str-discrete, has, is_empty, max,
}
use assembled_watchtower.Base.Time.{Time, is_zero}
use assembled_watchtower.Conditions.Types.{Timer, Reducer, Observation}
use assembled_watchtower.Conditions.Timers.{timers}
use assembled_watchtower.Conditions.Reducer.{
  put, commit, choose, commit_timer, advance_loop, advance, start, observe, withdraw, apply, fire,
  tick, mark_seen, ignored, already_seen, processing_time, with_effective,
}
use assembled_watchtower.Conditions.Coherence.{Call, applies, advances, fires_timer, step, run}

-- The parts of a reducer that transitions leave alone.
record Frame (r r' : Reducer) : Type 0 where
  config : r'.config ≡ r.config
  seen : r'.seen_occurrences ≡ r.seen_occurrences
  clock : r'.logical ≡ r.logical

Frame-refl : (r : Reducer) → Frame r r
Frame-refl r = record { config = refl; seen = refl; clock = refl }

Frame-trans : {a b c : Reducer} → Frame a b → Frame b c → Frame a c
Frame-trans f g = record {
  config = g.config ∙ f.config;
  seen = g.seen ∙ f.seen;
  clock = g.clock ∙ f.clock;
}

commit_timer-Frame : (r : Reducer) (t : Timer) (now : Time) → Frame r (commit_timer r t now).0
unfolding commit_timer commit put
commit_timer-Frame r t now = record { config = refl; seen = refl; clock = refl }

advance_loop-Frame : (fuel : ℕ) (now : Time) (r : Reducer) → Frame r (advance_loop fuel now r).0
unfolding advance_loop
advance_loop-Frame zero now r = Frame-refl r
advance_loop-Frame (suc fuel) now r = elim (Option-cases (choose r now (timers r))) [
  | inl e ↦ rw (e, advance_loop) (Frame-refl r)
  | inr (t, e) ↦
      rw (e, advance_loop)
        (Frame-trans (commit_timer-Frame r t now)
          (advance_loop-Frame fuel now (commit_timer r t now).0))
]

observe-Frame : (r : Reducer) (o : Observation) → Frame r (observe r o).0
unfolding observe start commit put withdraw
observe-Frame r o = record { config = ground arith; seen = ground arith; clock = ground arith }

advance-seen : (r : Reducer) (now : Time) → (advance r now).0.seen_occurrences ≡ r.seen_occurrences
unfolding advance
advance-seen r now = elim (Bool-cases (is_zero now)) [
  | inl e ↦ rw e
  | inr e ↦ rw e (advance_loop-Frame _ _ (record r { logical = _ })).seen
]

advance-clock :
    (r : Reducer) (now : Time)
    → (advance r now).0.logical ≡ (if is_zero now then r.logical else max r.logical now)
unfolding advance
advance-clock r now = elim (Bool-cases (is_zero now)) [
  | inl e ↦ rw e
  | inr e ↦ rw e ((advance_loop-Frame _ _ (record r { logical = _ })).clock ∙ ground arith)
]

mark_seen-clock : (r : Reducer) (id : Str) → (mark_seen r id).logical ≡ r.logical
unfolding mark_seen
mark_seen-clock r id = ground arith

apply-clock : (r : Reducer) (o : Observation) → r.logical ≤ (apply r o).0.logical
unfolding apply
apply-clock r o = elim (Bool-cases (ignored r o)) [
  | inl e ↦ rw e (omega arith)
  | inr e ↦
      let marked = mark_seen r o.observation_id in
      let advanced = (advance marked (processing_time o)).0 in
      let observed = observe-Frame advanced (with_effective o (processing_time o)) in
      rw e (
        ground (
          arith,
          observed.clock,
          advance-clock marked (processing_time o),
          mark_seen-clock r o.observation_id,
        ))
]

fire-clock : (r : Reducer) (t : Timer) (now : Time) → r.logical ≤ (fire r t now).0.logical
unfolding fire tick
fire-clock r t now = ground (
  arith,
  (commit_timer-Frame r t r.logical).clock,
  (commit_timer-Frame (record r { logical = now }) t now).clock,
)

-- `Apply` and `Fire` move the clock at most to the time that they are called at.
pub apply-clock_bound :
    (r : Reducer) (o : Observation) → (apply r o).0.logical ≤ max r.logical (processing_time o)
unfolding apply
apply-clock_bound r o = elim (Bool-cases (ignored r o)) [
  | inl e ↦ rw e (omega arith)
  | inr e ↦
      let marked = mark_seen r o.observation_id in
      let advanced = (advance marked (processing_time o)).0 in
      let observed = observe-Frame advanced (with_effective o (processing_time o)) in
      rw e (
        ground (
          arith,
          observed.clock,
          advance-clock marked (processing_time o),
          mark_seen-clock r o.observation_id,
        ))
]

pub fire-clock_bound :
    (r : Reducer) (t : Timer) (now : Time) → (fire r t now).0.logical ≤ max r.logical now
unfolding fire tick
fire-clock_bound r t now = ground (
  arith,
  (commit_timer-Frame r t r.logical).clock,
  (commit_timer-Frame (record r { logical = now }) t now).clock,
)

pub advance-clock_bound : (r : Reducer) (now : Time) → (advance r now).0.logical ≤ max r.logical now
advance-clock_bound r now = ground (arith, advance-clock r now)

step-clock : (r : Reducer) (c : Call) → r.logical ≤ (step r c).logical
unfolding step
step-clock r (applies o) = apply-clock r o
step-clock r (advances now) = ground (arith, advance-clock r now)
step-clock r (fires_timer t now) = fire-clock r t now

-- No sequence of calls turns the logical clock of a reducer back.
pub run-clock : (r : Reducer) (cs : List Call) → r.logical ≤ (run r cs).logical
unfolding run
run-clock r [] = omega arith
run-clock r (c ∷ cs) = omega (arith, step-clock r c, run-clock (step r c) cs)

abbrev Knows : Str → Reducer → Type 0
Knows id r = has Str-discrete id r.seen_occurrences ≡ true

mark_seen-Knows : (id : Str) (r : Reducer) (other : Str) → Knows id r → Knows id (mark_seen r other)
unfolding mark_seen has
mark_seen-Knows id r other h = ground arith

mark_seen_self : (id : Str) (r : Reducer) → is_empty id ≡ false → Knows id (mark_seen r id)
unfolding mark_seen has
mark_seen_self id r h = ground arith

-- What `Apply` leaves behind when it does not ignore the observation.
apply-seen :
    (r : Reducer) (o : Observation)
    → ignored r o ≡ false
    → (apply r o).0.seen_occurrences ≡ (mark_seen r o.observation_id).seen_occurrences
unfolding apply
apply-seen r o e = rw e (
    (observe-Frame _ (with_effective o (processing_time o))).seen
    ∙ advance-seen (mark_seen r o.observation_id) (processing_time o))

apply-Knows : (id : Str) (r : Reducer) (o : Observation) → Knows id r → Knows id (apply r o).0
apply-Knows id r o h = elim (Bool-cases (ignored r o)) [
  | inl e ↦ unfold apply in rw e h
  | inr e ↦ rw (apply-seen r o e) (mark_seen-Knows id r o.observation_id h)
]

fire-Knows :
    (id : Str) (r : Reducer) (t : Timer) (now : Time) → Knows id r → Knows id (fire r t now).0
unfolding fire tick
fire-Knows id r t now h = ground (
  arith,
  (commit_timer-Frame r t r.logical).seen,
  (commit_timer-Frame (record r { logical = now }) t now).seen,
)

step-Knows : (id : Str) (r : Reducer) (c : Call) → Knows id r → Knows id (step r c)
unfolding step
step-Knows id r (applies o) h = apply-Knows id r o h
step-Knows id r (advances now) h = rw (advance-seen r now) h
step-Knows id r (fires_timer t now) h = fire-Knows id r t now h

run-Knows : (id : Str) (r : Reducer) (cs : List Call) → Knows id r → Knows id (run r cs)
unfolding run
run-Knows id r [] h = h
run-Knows id r (c ∷ cs) h = run-Knows id (step r c) cs (step-Knows id r c h)

-- An observation with an ID that `Apply` did not ignore is a no-op when it comes again, whatever
-- calls stand between: the reducer is unchanged, and no transition is emitted.
pub apply-replayed :
    (r : Reducer) (o : Observation) (cs : List Call)
    → is_empty o.observation_id ≡ false
    → ignored r o ≡ false
    → apply (run (apply r o).0 cs) o ≡ (run (apply r o).0 cs, [])
apply-replayed r o cs named fresh =
    let known : Knows o.observation_id (run (apply r o).0 cs) =
      run-Knows o.observation_id (apply r o).0 cs
        (rw (apply-seen r o fresh) (mark_seen_self o.observation_id r named)) in
    unfold apply ignored already_seen in ground (arith, known)
