-- ===== src/Alerts/Recovery.antt =====
-- What a clear of the alert reducer promises after any calls: the recovery of the generation that
-- the journal has open, by the episode whose start call made the contributor.
use assembled_watchtower.Base.{
  ℕ, ◌≡◌, refl, ap, ◌∙◌, inl, inr, List, [], ◌∷◌, ◌++◌, append-nil, some, none, Bool, true, false,
  not, ◌||◌, if◌then◌else◌, Str, Str-discrete, arith, lookup, delete, has, is_empty, same, Unique,
  Option-cases, Bool-cases, same_self,
}
use assembled_watchtower.Base.Time.{Time, is_zero}
use assembled_watchtower.Alerts.Types.{
  SeriesKey, SeriesKey-discrete, Contributor, Episode, TransitionKind, Transition, SeriesState,
  Reducer,
}
use assembled_watchtower.Alerts.Reducer.{
  new, series_of, series_id, transition_id, is_known, contributor, withdraw, apply_clear,
  recovery_transition,
}
use assembled_watchtower.Alerts.Coherence.{
  IsCoherent, generation_after, series_of-put, apply_clear-IsCoherent,
}
use assembled_watchtower.Alerts.Origins.{Called, run-new-Started}
use assembled_watchtower.Alerts.Runs.{Call, starts, run, alert_run-IsCoherent}

-- Whether a map has a key besides this one.
unfoldable pub any_other : {V : Type 0} → Str → List (Str × V) → Bool
any_other id [] = false
any_other id ((j, v) ∷ m) = not (same Str-discrete j id) || any_other id m

any_other-missing :
    {V : Type 0} (id : Str) (m : List (Str × V))
    → lookup Str-discrete id m ≡ none
    → is_empty m ≡ not (any_other id m)
unfolding lookup any_other
any_other-missing id [] h = refl
any_other-missing id ((j, v) ∷ m) h = ground (arith, h)

is_empty-delete :
    {V : Type 0} (id : Str) (m : List (Str × V))
    → Unique Str-discrete m
    → is_empty (delete Str-discrete id m) ≡ not (any_other id m)
unfolding delete any_other
is_empty-delete id [] u = refl
is_empty-delete id ((j, v) ∷ m) u = ground (arith, any_other-missing id m, u.0)

-- The recovery of a generation of a series, by the episode whose start made the last contributor.
abbrev pub recovery_of : SeriesKey → ℕ → Episode → Time → Time → Time → Transition
recovery_of k g e at effective_at evidence_at = record {
  id = transition_id (series_id k) g TransitionKind.recovery;
  series = k;
  series_id = series_id k;
  generation = g;
  kind = TransitionKind.recovery;
  at = at;
  effective_at = if is_zero effective_at then at else effective_at;
  evidence_at = if is_zero evidence_at then e.evidence_at else evidence_at;
  episode_id = e.id;
  revision = e.revision;
}

known_some :
    {V : Type 0} (id : Str) (m : List (Str × V))
    → is_known id m ≡ true
    → (v : V) × (lookup Str-discrete id m ≡ some v)
unfolding is_known
known_some id m h = elim (Option-cases (lookup Str-discrete id m)) [
  | inl e ↦ absurd (ground (arith, h, e))
  | inr k ↦ k
]

lookup-not_empty :
    {V : Type 0} (id : Str) (v : V) (m : List (Str × V))
    → lookup Str-discrete id m ≡ some v
    → is_empty m ≡ false
unfolding lookup
lookup-not_empty id v [] h = ground (arith, h)
lookup-not_empty id v (e ∷ m) h = refl

module _ (r : Reducer) (id : Str) (k : SeriesKey) (at effective_at evidence_at : Time)
    (c : Contributor) where
  recovery_transition-recovery_of :
      (e : Episode)
      → IsCoherent r
      → e.id ≡ id
      → c ≡ contributor e
      → recovery_transition (series_of r k) c id at effective_at evidence_at
        ≡ recovery_of k (series_of r k).generation e at effective_at evidence_at
  unfolding recovery_transition contributor
  recovery_transition-recovery_of e coherent same_id made =
      ground (arith, (coherent.sound k).key, (coherent.sound k).id)

  abbrev cleared : Reducer × List Transition
  cleared = apply_clear r id k at effective_at evidence_at

  clear-emits :
      (e : Episode)
      → IsCoherent r
      → is_empty id ≡ false
      → has Str-discrete id r.closed ≡ false
      → lookup Str-discrete id (series_of r k).contributors ≡ some c
      → e.id ≡ id
      → c ≡ contributor e
      → (cleared.1 ≡ (
          if any_other id (series_of r k).contributors
          then []
          else recovery_of k (series_of r k).generation e at effective_at evidence_at ∷ []))
        × (cleared.0.transitions ≡ r.transitions ++ cleared.1)
        × (cleared.0.closed ≡ id ∷ r.closed)
  unfolding apply_clear withdraw
  clear-emits e coherent named fresh found same_id made =
      let open_before = (coherent.sound k).contributed in
      let nonempty = lookup-not_empty id c (series_of r k).contributors found in
      let left = is_empty-delete id (series_of r k).contributors (coherent.sound k).unique in
      let emitted = recovery_transition-recovery_of e coherent same_id made in
      (
        ground (arith, named, fresh, found, open_before, nonempty, left, emitted),
        ground (arith, named, fresh, found, append-nil r.transitions),
        ground (arith, named, fresh, found),
      )

  clear-leaves :
      IsCoherent r
      → is_empty id ≡ false
      → has Str-discrete id r.closed ≡ false
      → lookup Str-discrete id (series_of r k).contributors ≡ some c
      → ((series_of cleared.0 k).generation ≡ (series_of r k).generation)
        × ((series_of cleared.0 k).is_open ≡ any_other id (series_of r k).contributors)
  unfolding apply_clear withdraw
  clear-leaves coherent named fresh found =
      let s : SeriesState = record (series_of r k) {
        contributors = delete Str-discrete id (series_of r k).contributors;
      } in
      let ended : SeriesState = record s { is_open = false } in
      let ts =
        r.transitions
        ++ recovery_transition (series_of r k) c id at effective_at evidence_at ∷ [] in
      let open_before = (coherent.sound k).contributed in
      let nonempty = lookup-not_empty id c (series_of r k).contributors found in
      let left = is_empty-delete id (series_of r k).contributors (coherent.sound k).unique in
      let here = same_self SeriesKey-discrete k in
      let kept = series_of-put r k k s (id ∷ r.closed) r.transitions in
      let put_ended = series_of-put r k k ended (id ∷ r.closed) ts in
      elim (Bool-cases (any_other id (series_of r k).contributors)) [
        | inl f ↦ (
          ground (arith, named, fresh, found, open_before, nonempty, left, here, kept, f),
          ground (arith, named, fresh, found, open_before, nonempty, left, here, kept, f),
        )
        | inr f ↦ (
          ground (arith, named, fresh, found, open_before, nonempty, left, here, put_ended, f),
          ground (arith, named, fresh, found, open_before, nonempty, left, here, put_ended, f),
        )
      ]

-- After any calls on a new alert reducer, a clear of an episode that contributes to a series, is
-- named and not closed: a start call of that episode in that series was among the calls; the journal
-- has the series open at some generation; the clear emits nothing if another episode contributes,
-- and else exactly one transition, the recovery of that generation under the series' key and
-- identity, with the start's revision and episode ID, the clear's time, its effective time or else
-- its time, and its evidence time or else the start's; the transition joins the journal, by which
-- the series is then open at that generation exactly if another episode contributes; and the
-- episode is closed.
pub clear_recovers :
    (cs : List Call) (id : Str) (k : SeriesKey) (at effective_at evidence_at : Time)
    → is_empty id ≡ false
    → has Str-discrete id (run new cs).closed ≡ false
    → is_known id (series_of (run new cs) k).contributors ≡ true
    → let r = run new cs in
      let shared = any_other id (series_of r k).contributors in
      let (r', out) = apply_clear r id k at effective_at evidence_at in
      (e : Episode) × (g : ℕ) × Called cs (starts e)
      × (e.id ≡ id)
      × (e.series ≡ k)
      × (generation_after k (some (0, false)) r.transitions ≡ some (g, true))
      × (out ≡ (if shared then [] else recovery_of k g e at effective_at evidence_at ∷ []))
      × (r'.transitions ≡ r.transitions ++ out)
      × (generation_after k (some (0, false)) r'.transitions ≡ some (g, shared))
      × (r'.closed ≡ id ∷ r.closed)
clear_recovers cs id k at effective_at evidence_at named fresh known =
    let r = run new cs in
    let coherent = alert_run-IsCoherent cs in
    let after = apply_clear-IsCoherent r id k at effective_at evidence_at coherent in
    let (c, found) = known_some id (series_of r k).contributors known in
    let (e, called, same_id, same_series, made) = run-new-Started cs k id c found in
    let (emitted, joined, closed) =
      clear-emits r id k at effective_at evidence_at c e coherent named fresh found same_id made in
    let (generation, shared) =
      clear-leaves r id k at effective_at evidence_at c coherent named fresh found in
    let was_open : (series_of r k).is_open ≡ true =
      (coherent.sound k).contributed
      ∙ ap not (lookup-not_empty id c (series_of r k).contributors found) in
    (
      e,
      (series_of r k).generation,
      called,
      same_id,
      same_series,
      rw (coherent.journal k, was_open) refl,
      emitted,
      joined,
      rw (after.journal k, generation, shared) refl,
      closed,
    )
