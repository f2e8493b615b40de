-- ===== src/Alerts/Origins.antt =====
-- After any calls on the alert reducer, every contributor was made by a start call of its episode in
-- its series.
use assembled_watchtower.Base.{
  ◌≡◌, refl, ◌⊎◌, inl, inr, List, [], ◌∷◌, ◌++◌, some, true, false, not, ◌||◌, if◌then◌else◌, Str,
  Str-discrete, arith, lookup, insert, delete, has, is_empty, same, All, Any, Unique, lookup-insert,
  lookup-delete, Option-cases, Bool-cases, if_pos, if_neg, ite, inc_u64,
}
use assembled_watchtower.Base.Time.{Time}
use assembled_watchtower.Alerts.Types.{
  SeriesKey, SeriesKey-discrete, Contributor, Episode, Transition, SeriesState, Reducer,
}
use assembled_watchtower.Alerts.Reducer.{
  new, new_series, series_of, put, is_known, contributor, contribute, apply_start, withdraw,
  apply_clear, open_transition, recovery_transition,
}
use assembled_watchtower.Alerts.Coherence.{IsCoherent, series_of-put, new-IsCoherent}
use assembled_watchtower.Alerts.Runs.{Call, starts, clears, step, run, step-IsCoherent}

-- Every contributor was made by a start call that `P` holds of, of its episode and in its series.
abbrev pub Started : (Call → Type 0) → Reducer → Type 0
Started P r =
    (k : SeriesKey) (id : Str) (c : Contributor)
    → lookup Str-discrete id (series_of r k).contributors ≡ some c
    → (e : Episode) × P (starts e) × (e.id ≡ id) × (e.series ≡ k) × (c ≡ contributor e)

-- The contributors after a write of the series `k`.
module _ (r : Reducer) (k j : SeriesKey) (s : SeriesState) (closed : List Str)
    (ts : List Transition) (id : Str) where
  written-contributors :
      lookup Str-discrete id
        (series_of
          (record {
            series = insert SeriesKey-discrete k s r.series;
            closed = closed;
            transitions = ts;
          })
          j).contributors
      ≡ (if same SeriesKey-discrete k j
          then lookup Str-discrete id s.contributors
          else lookup Str-discrete id (series_of r j).contributors)
  written-contributors =
      rw (series_of-put r k j s closed ts) (elim (SeriesKey-discrete k j) [
        | yes e ↦ rw (if_pos _ e) refl
        | no e ↦ rw (if_neg _ e) refl
      ])

  -- A write that adds no contributor.
  kept-contributor :
      (c : Contributor)
      → (lookup Str-discrete id s.contributors ≡ some c
          → lookup Str-discrete id (series_of r k).contributors ≡ some c)
      → lookup Str-discrete id
          (series_of
            (record {
              series = insert SeriesKey-discrete k s r.series;
              closed = closed;
              transitions = ts;
            })
            j).contributors
        ≡ some c
      → lookup Str-discrete id (series_of r j).contributors ≡ some c
  kept-contributor c old h = ground (arith, h, old, written-contributors)

-- A write that adds the contributor of an episode.
contributed :
    (r : Reducer) (e : Episode) (k : SeriesKey) (id : Str) (c : Contributor) (s : SeriesState)
    → lookup Str-discrete id s.contributors
      ≡ ite
          (Str-discrete e.id id)
          (some (contributor e))
          (lookup Str-discrete id (series_of r e.series).contributors)
    → (closed : List Str) (ts : List Transition)
    → lookup Str-discrete id
        (series_of
          (record {
            series = insert SeriesKey-discrete e.series s r.series;
            closed = closed;
            transitions = ts;
          })
          k).contributors
      ≡ some c
    → (lookup Str-discrete id (series_of r k).contributors ≡ some c)
      ⊎ ((e.id ≡ id) × (e.series ≡ k) × (c ≡ contributor e))
contributed r e k id c s inserted closed ts h =
    let w = written-contributors r e.series k s closed ts id in
    elim (SeriesKey-discrete e.series k) [
      | no other ↦ inl (ground (arith, h, w))
      | yes own ↦ elim (Str-discrete e.id id) [
        | no new ↦ inl (ground (arith, h, w, inserted))
        | yes it ↦ inr (it, own, ground (arith, h, w, inserted))
      ]
    ]

contribute-contributor :
    (r : Reducer) (e : Episode) (k : SeriesKey) (id : Str) (c : Contributor)
    → lookup Str-discrete id (series_of (contribute r (series_of r e.series) e).0 k).contributors
      ≡ some c
    → (lookup Str-discrete id (series_of r k).contributors ≡ some c)
      ⊎ ((e.id ≡ id) × (e.series ≡ k) × (c ≡ contributor e))
unfolding contribute put
contribute-contributor r e k id c h =
    let made : SeriesState = record (series_of r e.series) {
      contributors = insert Str-discrete e.id (contributor e) (series_of r e.series).contributors;
    } in
    let inserted =
      lookup-insert Str-discrete e.id id (contributor e) (series_of r e.series).contributors in
    elim (Bool-cases (series_of r e.series).is_open) [
      | inl f ↦ contributed r e k id c made inserted r.closed r.transitions (ground (arith, h, f))
      | inr f ↦
          contributed r e k id c
            (record made { is_open = true; generation = inc_u64 made.generation }) inserted r.closed
            (r.transitions ++ open_transition (series_of r e.series) e ∷ []) (ground (arith, h, f))
    ]

apply_start-contributor :
    (r : Reducer) (e : Episode) (k : SeriesKey) (id : Str) (c : Contributor)
    → lookup Str-discrete id (series_of (apply_start r e).0 k).contributors ≡ some c
    → (lookup Str-discrete id (series_of r k).contributors ≡ some c)
      ⊎ ((e.id ≡ id) × (e.series ≡ k) × (c ≡ contributor e))
unfolding apply_start put
apply_start-contributor r e k id c h =
    elim (Bool-cases (is_empty e.id || has Str-discrete e.id r.closed)) [
      | inl f ↦ inl (ground (arith, h, f))
      | inr f ↦ elim (Bool-cases (is_known e.id (series_of r e.series).contributors)) [
        | inl g ↦ inl (
            kept-contributor r e.series k (series_of r e.series) r.closed r.transitions id c
              (λ x. x) (ground (arith, h, f, g)))
        | inr g ↦ contribute-contributor r e k id c (ground (arith, h, f, g))
      ]
    ]

deleted_before :
    {V : Type 0} (i id : Str) (v : V) (m : List (Str × V))
    → Unique Str-discrete m
    → lookup Str-discrete id (delete Str-discrete i m) ≡ some v
    → lookup Str-discrete id m ≡ some v
deleted_before i id v m u h = ground (arith, h, lookup-delete Str-discrete i id m u)

withdraw-contributor :
    (r : Reducer) (j : SeriesKey) (d : Contributor) (i : Str) (at effective_at evidence_at : Time)
    (k : SeriesKey) (id : Str) (c : Contributor)
    → IsCoherent r
    → lookup Str-discrete id
        (series_of (withdraw r j (series_of r j) d i at effective_at evidence_at).0 k).contributors
      ≡ some c
    → lookup Str-discrete id (series_of r k).contributors ≡ some c
unfolding withdraw
withdraw-contributor r j d i at effective_at evidence_at k id c coherent h =
    let left : SeriesState = record (series_of r j) {
      contributors = delete Str-discrete i (series_of r j).contributors;
    } in
    let before = deleted_before i id c (series_of r j).contributors (coherent.sound j).unique in
    elim (Bool-cases (not (is_empty left.contributors) || not left.is_open)) [
      | inl f ↦
          kept-contributor r j k left (i ∷ r.closed) r.transitions id c before
            (ground (arith, h, f))
      | inr f ↦
          kept-contributor r j k (record left { is_open = false }) (i ∷ r.closed)
            (r.transitions
              ++ recovery_transition (series_of r j) d i at effective_at evidence_at ∷ [])
            id c before (ground (arith, h, f))
    ]

apply_clear-contributor :
    (r : Reducer) (i : Str) (j : SeriesKey) (at effective_at evidence_at : Time) (k : SeriesKey)
    (id : Str) (c : Contributor)
    → IsCoherent r
    → lookup Str-discrete id
        (series_of (apply_clear r i j at effective_at evidence_at).0 k).contributors
      ≡ some c
    → lookup Str-discrete id (series_of r k).contributors ≡ some c
unfolding apply_clear withdraw put
apply_clear-contributor r i j at effective_at evidence_at k id c coherent h =
    elim (Bool-cases (is_empty i || has Str-discrete i r.closed)) [
      | inl f ↦ ground (arith, h, f)
      | inr f ↦ elim (Option-cases (lookup Str-discrete i (series_of r j).contributors)) [
        | inl g ↦
            kept-contributor r j k (series_of r j) r.closed r.transitions id c (λ x. x)
              (ground (arith, h, f, g))
        | inr (d, g) ↦
            withdraw-contributor r j d i at effective_at evidence_at k id c coherent
              (ground (arith, h, f, g))
      ]
    ]

step-Started :
    (P : Call → Type 0) (r : Reducer) (c : Call)
    → P c
    → IsCoherent r
    → Started P r
    → Started P (step r c)
unfolding step
step-Started P r (starts e) p coherent s k id c h = elim (apply_start-contributor r e k id c h) [
  | inl before ↦ s k id c before
  | inr (i, j, made) ↦ (e, p, i, j, made)
]
step-Started P r (clears i j at effective_at evidence_at) p coherent s k id c h =
    s k id c (apply_clear-contributor r i j at effective_at evidence_at k id c coherent h)

run-Started :
    (P : Call → Type 0) (r : Reducer) (cs : List Call)
    → All P cs
    → IsCoherent r
    → Started P r
    → Started P (run r cs)
unfolding run
run-Started P r [] ps coherent s = s
run-Started P r (c ∷ cs) (p, ps) coherent s =
    run-Started P (step r c) cs ps (step-IsCoherent r c coherent) (step-Started P r c p coherent s)

-- A call is one of these.
abbrev pub Called : List Call → Call → Type 0
Called cs c = Any (λ d. d ≡ c) cs

All-Called : (Q : Call → Type 0) (cs : List Call) → ((c : Call) → Called cs c → Q c) → All Q cs
All-Called Q [] f = tt
All-Called Q (c ∷ cs) f = (f c (inl refl), All-Called Q cs (λ d h. f d (inr h)))

pub run-new-Started : (cs : List Call) → Started (Called cs) (run new cs)
run-new-Started cs =
    run-Started (Called cs) new cs (All-Called (Called cs) cs (λ c h. h)) new-IsCoherent
      (λ k id c (h : lookup Str-discrete id (series_of new k).contributors ≡ some c).
        absurd (none_yet k id c h))
  where
    none_yet :
        (k : SeriesKey) (id : Str) (c : Contributor)
        → lookup Str-discrete id (series_of new k).contributors ≡ some c
        → ⊥
    none_yet k id c h = unfold series_of new_series lookup in ground (arith, h)
