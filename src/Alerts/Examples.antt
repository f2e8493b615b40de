-- ===== src/Alerts/Examples.antt =====
-- The alert reducer on concrete inputs: tests by evaluation, and the theorems at an input.
use assembled_watchtower.Base.{
  ℕ, ◌≡◌, refl, List, [], ◌∷◌, ◌++◌, some, true, false, Str, codes, pos, Str-discrete, ℕ_discrete,
  lookup, insert, delete, has, map, if◌then◌else◌,
}
use assembled_watchtower.Alerts.Types.{
  SeriesKey, SeriesKey-discrete, Episode, TransitionKind, Transition, Reducer,
}
use assembled_watchtower.Alerts.Reducer.{
  new, new_series, series_of, put, is_known, contribute, apply_start, withdraw, apply_clear,
  open_transition, recovery_transition,
}
use assembled_watchtower.Alerts.Coherence.{IsCoherent, generation_after}
use assembled_watchtower.Alerts.Runs.{
  Call, starts, clears, run, step, alert_run-IsCoherent, closed_episode_fenced,
}
use assembled_watchtower.Alerts.Origins.{Called}
use assembled_watchtower.Alerts.Recovery.{any_other, recovery_of, clear_recovers}
use assembled_watchtower.Base.Time.{zero_time}

abbrev billing : SeriesKey
billing = record { rule_id = codes "r"; subject_kind = codes "queue"; subject_id = codes "billing" }

abbrev episode : Str → ℕ → Episode
episode id at = record {
  id = id;
  series = billing;
  revision = pos 1;
  opened = true;
  at = at;
  effective_at = at;
  evidence_at = at;
}

abbrev calls : List Call
calls =
    starts (episode (codes "a") 5)
    ∷ starts (episode (codes "b") 6)
    ∷ clears (codes "a") billing 7 7 7
    ∷ clears (codes "b") billing 8 8 8
    ∷ starts (episode (codes "a") 9)
    ∷ starts (episode (codes "c") 9)
    ∷ []

program : Unit {0}
unfolding lookup insert delete has Str-discrete SeriesKey-discrete ℕ_discrete new_series series_of
    put is_known contribute apply_start withdraw apply_clear open_transition recovery_transition run
    step
program = tt

abbrev summary : Reducer → List (TransitionKind × ℕ)
summary r = map (λ (t : Transition). (t.kind, t.generation)) r.transitions

-- Two contributors make one generation, which the last of them ends; the third opens the next.
run_generations :
    summary (run new calls)
    ≡ (TransitionKind.opened, 1) ∷ (TransitionKind.recovery, 1) ∷ (TransitionKind.opened, 2) ∷ []
unfolding program
run_generations = refl

abbrev one_open : Reducer
one_open = run new (starts (episode (codes "a") 5) ∷ [])

alert_run-IsCoherent_example : IsCoherent (run new calls)
alert_run-IsCoherent_example = alert_run-IsCoherent calls

closed_episode_fenced_example :
    let r = run (apply_clear one_open (codes "a") billing 7 7 7).0 calls in
    (apply_start r (episode (codes "a") 20) ≡ (r, []))
    × (apply_clear r (codes "a") billing 30 30 30 ≡ (r, []))
unfolding program
closed_episode_fenced_example =
    closed_episode_fenced one_open (codes "a") billing 7 7 7 calls (episode (codes "a") 20) billing
      30 30 30 refl refl refl refl

-- Episode a has gone, and b alone contributes.
abbrev one_left : List Call
one_left =
    starts (episode (codes "a") 5)
    ∷ starts (episode (codes "b") 6)
    ∷ clears (codes "a") billing 7 7 7
    ∷ []

clear_recovers_example :
    let r = run new one_left in
    let shared = any_other (codes "b") (series_of r billing).contributors in
    let (r', out) = apply_clear r (codes "b") billing 8 8 zero_time in
    (e : Episode) × (g : ℕ) × Called one_left (starts e)
    × (e.id ≡ codes "b")
    × (e.series ≡ billing)
    × (generation_after billing (some (0, false)) r.transitions ≡ some (g, true))
    × (out ≡ (if shared then [] else recovery_of billing g e 8 8 zero_time ∷ []))
    × (r'.transitions ≡ r.transitions ++ out)
    × (generation_after billing (some (0, false)) r'.transitions ≡ some (g, shared))
    × (r'.closed ≡ codes "b" ∷ r.closed)
unfolding program
clear_recovers_example = clear_recovers one_left (codes "b") billing 8 8 zero_time refl refl refl

not_shared : any_other (codes "b") (series_of (run new one_left) billing).contributors ≡ false
unfolding program any_other
not_shared = refl
