-- ===== src/Alerts/Runs.antt =====
-- Sequences of calls on the alert reducer: coherence, and the fence of closed episodes.
use assembled_watchtower.Base.{
  ◌≡◌, List, [], ◌∷◌, true, false, Str, Str-discrete, arith, has, is_empty,
}
use assembled_watchtower.Base.Time.{Time}
use assembled_watchtower.Alerts.Types.{SeriesKey, Episode, Reducer}
use assembled_watchtower.Alerts.Reducer.{
  new, series_of, put, is_known, contribute, apply_start, withdraw, apply_clear,
}
use assembled_watchtower.Alerts.Coherence.{
  IsCoherent, new-IsCoherent, apply_start-IsCoherent, apply_clear-IsCoherent,
}

pub data Call : Type 0 where
  starts : Episode → Call
  clears : Str → SeriesKey → Time → Time → Time → Call

unfoldable pub step : Reducer → Call → Reducer
step r (starts e) = (apply_start r e).0
step r (clears id k at effective_at evidence_at) =
    (apply_clear r id k at effective_at evidence_at).0

unfoldable pub run : Reducer → List Call → Reducer
run r [] = r
run r (c ∷ cs) = run (step r c) cs

pub step-IsCoherent : (r : Reducer) (c : Call) → IsCoherent r → IsCoherent (step r c)
unfolding step
step-IsCoherent r (starts e) c = apply_start-IsCoherent r e c
step-IsCoherent r (clears id k at effective_at evidence_at) c =
    apply_clear-IsCoherent r id k at effective_at evidence_at c

run-IsCoherent : (r : Reducer) (cs : List Call) → IsCoherent r → IsCoherent (run r cs)
unfolding run
run-IsCoherent r [] c = c
run-IsCoherent r (call ∷ cs) c = run-IsCoherent (step r call) cs (step-IsCoherent r call c)

-- After any calls on a new alert reducer it is coherent: each series is under its own key and
-- identity and is open exactly while it has contributors, and for every series the journal
-- alternates between an opening, of the generation one above the last, and a recovery of the open
-- generation, and ends in the generation and the openness that the series holds.
pub alert_run-IsCoherent : (cs : List Call) → IsCoherent (run new cs)
alert_run-IsCoherent cs = run-IsCoherent new cs new-IsCoherent

abbrev Closed : Str → Reducer → Type 0
Closed id r = has Str-discrete id r.closed ≡ true

apply_start-closed : (r : Reducer) (e : Episode) → (apply_start r e).0.closed ≡ r.closed
unfolding apply_start contribute put
apply_start-closed r e = ground arith

apply_clear-Closed :
    (id : Str) (r : Reducer) (other : Str) (k : SeriesKey) (at effective_at evidence_at : Time)
    → Closed id r
    → Closed id (apply_clear r other k at effective_at evidence_at).0
unfolding apply_clear withdraw put has
apply_clear-Closed id r other k at effective_at evidence_at h = ground arith

step-Closed : (id : Str) (r : Reducer) (c : Call) → Closed id r → Closed id (step r c)
unfolding step
step-Closed id r (starts e) h = rw (apply_start-closed r e) h
step-Closed id r (clears other k at effective_at evidence_at) h =
    apply_clear-Closed id r other k at effective_at evidence_at h

run-Closed : (id : Str) (r : Reducer) (cs : List Call) → Closed id r → Closed id (run r cs)
unfolding run
run-Closed id r [] h = h
run-Closed id r (c ∷ cs) h = run-Closed id (step r c) cs (step-Closed id r c h)

-- A clear that finds the episode among the contributors of its series closes it for good: after any
-- further calls, neither a start nor a clear of that episode, in whatever series, changes the
-- reducer or emits a transition.
pub closed_episode_fenced :
    (r : Reducer) (id : Str) (k : SeriesKey) (at effective_at evidence_at : Time) (cs : List Call)
    (e : Episode) (j : SeriesKey) (at' effective_at' evidence_at' : Time)
    → is_empty id ≡ false
    → has Str-discrete id r.closed ≡ false
    → is_known id (series_of r k).contributors ≡ true
    → e.id ≡ id
    → let r' = run (apply_clear r id k at effective_at evidence_at).0 cs in
      (apply_start r' e ≡ (r', []))
      × (apply_clear r' id j at' effective_at' evidence_at' ≡ (r', []))
closed_episode_fenced r id k at effective_at evidence_at cs e j at' effective_at' evidence_at' named
      fresh known same_id =
    let closed : Closed id (run (apply_clear r id k at effective_at evidence_at).0 cs) =
      run-Closed id _ cs (closes known) in
    (
      unfold apply_start in ground (arith, closed, same_id),
      unfold apply_clear in ground (arith, closed),
    )
  where
    closes :
        is_known id (series_of r k).contributors ≡ true
        → Closed id (apply_clear r id k at effective_at evidence_at).0
    closes h = unfold apply_clear withdraw has is_known in ground (arith, named, fresh)
