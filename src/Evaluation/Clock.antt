-- ===== src/Evaluation/Clock.antt =====
-- The runtime's clock: `Advance`, `nextDue`, and the firing of a selected timer.
use assembled_watchtower.Base.{
  ℕ, zero, suc, List, [], ◌∷◌, ◌++◌, Option, none, some, Bool, true, not, ◌&&◌, ltb, if◌then◌else◌,
  ◌⊎◌, inl, inr, length,
}
use assembled_watchtower.Base.Time.{Time, is_zero}
use assembled_watchtower.Conditions.Types.{Timer, Transition}
use assembled_watchtower.Conditions.Timers.{timers, less_timer}
use assembled_watchtower.Conditions.Reducer.{advance, fire}
use assembled_watchtower.Evaluation.Types.{RuleKey, Activation, Runtime}

-- A selected entry, by its index, and its timer.
abbrev pub Selected : Type 0
Selected = ℕ × Timer

-- `selected == nil || lessTimer(timer, selectedTimer)`
unfoldable pub beats : Timer → Option Selected → Bool
beats t none = true
beats t (some (i, u)) = less_timer t u

-- The inner loop of `nextDue`, over the timers of the entry at `i`.
unfoldable pub scan_timers : Time → ℕ → Option Selected → List Timer → Option Selected
scan_timers now i best [] = best
scan_timers now i best (t ∷ ts) =
    if ltb now t.due_at
    then best
    else scan_timers now i (if beats t best then some (i, t) else best) ts

-- The outer loop, from the entry at `i` on.
unfoldable pub scan_entries :
    Time → ℕ → Option Selected → List (RuleKey × Activation) → Option Selected
scan_entries now i best [] = best
scan_entries now i best ((k, a) ∷ es) =
    scan_entries now (suc i) (scan_timers now i best (timers a.reducer)) es

unfoldable pub next_due : Time → List (RuleKey × Activation) → Option Selected
next_due now es = scan_entries now 0 none es

-- `Fire` through the pointer to the entry at an index.
unfoldable pub fire_at :
    ℕ → Timer → Time → List (RuleKey × Activation) → List (RuleKey × Activation) × List Transition
fire_at i t now [] = ([], [])
fire_at zero t now ((k, a) ∷ es) =
    let (r, out) = fire a.reducer t now in ((k, record a { reducer = r }) ∷ es, out)
fire_at (suc i) t now (e ∷ es) = let (rest, out) = fire_at i t now es in (e ∷ rest, out)

-- The loop of `Advance`, on fuel.
unfoldable pub fire_loop :
    ℕ → Time → List (RuleKey × Activation) → List (RuleKey × Activation) × List Transition
fire_loop zero now es = (es, [])
fire_loop (suc fuel) now es = elim (next_due now es) [
  | none ↦ (es, [])
  | some (i, t) ↦
      let (es', out) = fire_at i t now es in
      let (es'', more) = fire_loop fuel now es' in (es'', out ++ more)
]

-- The second loop of `Advance`.
unfoldable pub synchronize :
    Time → List (RuleKey × Activation) → List (RuleKey × Activation) × List Transition
synchronize now [] = ([], [])
synchronize now ((k, a) ∷ es) =
    let (r, out) = advance a.reducer now in
    let (rest, more) = synchronize now es in ((k, record a { reducer = r }) ∷ rest, out ++ more)

-- The timers of all the entries.
unfoldable pub all_timers : List (RuleKey × Activation) → List Timer
all_timers [] = []
all_timers ((k, a) ∷ es) = timers a.reducer ++ all_timers es

pub data ClockError : Type 0 where
  time_missing : ClockError
  time_early : ClockError

-- Each round takes a timer away, so there are at most es many rounds es timers.
unfoldable pub advance_runtime : Runtime → Time → ClockError ⊎ (Runtime × List Transition)
advance_runtime rt now =
    if is_zero now
    then inl time_missing
    else if not (is_zero rt.logical) && ltb now rt.logical
    then inl time_early
    else (let (fired, out) = fire_loop (length (all_timers rt.active)) now rt.active in
        let (synced, more) = synchronize now fired in
        inr (record { active = synced; logical = now }, out ++ more))
