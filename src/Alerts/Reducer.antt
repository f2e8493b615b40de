-- ===== src/Alerts/Reducer.antt =====
-- The operations of the alert reducer. Each returns the reducer after it and the transitions that
-- it emits.
use mathlib.Core.Option
use assembled_watchtower.Base.{
  ℕ, List, [], ◌∷◌, ◌++◌, none, some, Bool, true, false, not, ◌||◌, if◌then◌else◌, Str, codes,
  Str-discrete, lookup, insert, delete, has, is_empty, inc_u64,
}
use assembled_watchtower.Base.Time.{Time, is_zero}
use assembled_watchtower.Ids.{format_uint, canonical_parts, stable_id}
use assembled_watchtower.Conditions
use assembled_watchtower.Alerts.Types.{
  SeriesKey, SeriesKey-discrete, Contributor, Episode, TransitionKind, Transition, SeriesState,
  Reducer, kind_number,
}

-- `SeriesID`
unfoldable pub series_id : SeriesKey → Str
series_id k =
    stable_id (codes "alert-series")
      (canonical_parts (k.rule_id ∷ k.subject_kind ∷ k.subject_id ∷ []))

-- `stableID("alert-transition", fmt.Sprintf("%s|%d|%d", …))`
unfoldable pub transition_id : Str → ℕ → TransitionKind → Str
transition_id series generation kind =
    stable_id (codes "alert-transition")
      (series ++ (b'|' ∷ (format_uint generation ++ (b'|' ∷ format_uint (kind_number kind)))))

abbrev pub new : Reducer
new = record { series = []; closed = []; transitions = [] }

unfoldable pub new_series : SeriesKey → SeriesState
new_series k = record {
  key = k;
  id = series_id k;
  generation = 0;
  is_open = false;
  contributors = [];
}

-- The state that `get` returns.
unfoldable pub series_of : Reducer → SeriesKey → SeriesState
series_of r k = Option.get_or (lookup SeriesKey-discrete k r.series) (new_series k)

-- A write through the pointer that `get` returns, or the entry that `get` makes.
unfoldable pub put : Reducer → SeriesKey → SeriesState → Reducer
put r k s = record r { series = insert SeriesKey-discrete k s r.series }

-- The first of three times that is not the zero time, or the last.
first_time : Time → Time → Time → Time
first_time a b c = if is_zero a then (if is_zero b then c else b) else a

unfoldable pub is_known : {V : Type 0} → Str → List (Str × V) → Bool
is_known id m = elim (lookup Str-discrete id m) [ none ↦ false | some v ↦ true ]

unfoldable pub open_transition : SeriesState → Episode → Transition
unfolding first_time
open_transition s e = record {
  id = transition_id s.id (inc_u64 s.generation) TransitionKind.opened;
  series = s.key;
  series_id = s.id;
  generation = inc_u64 s.generation;
  kind = TransitionKind.opened;
  at = e.at;
  effective_at = first_time e.effective_at e.at e.evidence_at;
  evidence_at = e.evidence_at;
  episode_id = e.id;
  revision = e.revision;
}

unfoldable pub contributor : Episode → Contributor
contributor e = record {
  episode_id = e.id;
  revision = e.revision;
  opened_at = e.at;
  evidence_at = e.evidence_at;
}

-- An episode that becomes a contributor of its series.
unfoldable pub contribute : Reducer → SeriesState → Episode → Reducer × List Transition
unfolding contributor
contribute r s e =
    let s' = record s { contributors = insert Str-discrete e.id (contributor e) s.contributors } in
    let t = open_transition s e in
    if s.is_open then (put r e.series s', []) else (
      record r {
        series =
            insert SeriesKey-discrete e.series
              (record s' { is_open = true; generation = inc_u64 s.generation }) r.series;
        transitions = r.transitions ++ t ∷ [];
      },
      t ∷ [],
    )

unfoldable pub apply_start : Reducer → Episode → Reducer × List Transition
apply_start r e =
    let s = series_of r e.series in
    if is_empty e.id || has Str-discrete e.id r.closed
    then (r, [])
    else if is_known e.id s.contributors
    then (put r e.series s, [])
    else contribute r s e

unfoldable pub recovery_transition :
    SeriesState → Contributor → Str → Time → Time → Time → Transition
recovery_transition s c episode_id at effective_at evidence_at = record {
  id = transition_id s.id s.generation TransitionKind.recovery;
  series = s.key;
  series_id = s.id;
  generation = s.generation;
  kind = TransitionKind.recovery;
  at = at;
  effective_at = if is_zero effective_at then at else effective_at;
  evidence_at = if is_zero evidence_at then c.evidence_at else evidence_at;
  episode_id = episode_id;
  revision = c.revision;
}

-- The removal of a contributor `c` from its series.
unfoldable pub withdraw :
    Reducer
    → SeriesKey
    → SeriesState
    → Contributor
    → Str
    → Time
    → Time
    → Time
    → Reducer × List Transition
withdraw r key s c episode_id at effective_at evidence_at =
    let s' = record s { contributors = delete Str-discrete episode_id s.contributors } in
    let t = recovery_transition s c episode_id at effective_at evidence_at in
    if not (is_empty s'.contributors) || not s.is_open
    then (
      record r {
        series = insert SeriesKey-discrete key s' r.series;
        closed = episode_id ∷ r.closed;
      },
      [],
    )
    else (
      record r {
        series = insert SeriesKey-discrete key (record s' { is_open = false }) r.series;
        closed = episode_id ∷ r.closed;
        transitions = r.transitions ++ t ∷ [];
      },
      t ∷ [],
    )

unfoldable pub apply_clear :
    Reducer → Str → SeriesKey → Time → Time → Time → Reducer × List Transition
apply_clear r episode_id key at effective_at evidence_at =
    let s = series_of r key in
    if is_empty episode_id || has Str-discrete episode_id r.closed
    then (r, [])
    else (elim (lookup Str-discrete episode_id s.contributors) [
      | none ↦ (put r key s, [])
      | some c ↦ withdraw r key s c episode_id at effective_at evidence_at
    ])

-- `ApplyEpisode`: the opening contribution, and the clearing one if the episode is closed.
unfoldable pub apply_episode : Reducer → Conditions.Types.Episode → Reducer × List Transition
apply_episode r e =
    let key : SeriesKey = record {
      rule_id = e.key.rule_id;
      subject_kind = e.key.subject.kind;
      subject_id = e.key.subject.id;
    } in
    let (r', out) = apply_start r (record {
      id = e.id;
      series = key;
      revision = e.key.revision;
      opened = true;
      at = e.trigger.at;
      effective_at = e.trigger.times.effective_at;
      evidence_at = e.trigger.times.evidence_at;
    }) in
    elim e.clear [
      | none ↦ (r', out)
      | some c ↦
          let (r'', more) = apply_clear r' e.id key c.at c.times.effective_at c.times.evidence_at in
          (r'', out ++ more)
    ]
