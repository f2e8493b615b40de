-- ===== src/Alerts/Coherence.antt =====
-- A series is open exactly while it has contributors, its journal alternates between openings of
-- the next generation and recoveries of the open one, and a closed episode stays closed.
use assembled_watchtower.Base.{
  ℕ, ◌≡◌, ◌≢◌, refl, sym, ◌∙◌, ap, inl, inr, List, [], ◌∷◌, ◌++◌, Option, none, some, Bool, true,
  false, not, ◌&&◌, ◌||◌, ◌==◌, if◌then◌else◌, Str, Str-discrete, arith, Bool-cases, Option-cases,
  lookup, insert, delete, has, is_empty, inc_u64, Unique, insert-Unique, delete-Unique,
  lookup-insert, same, if_pos, if_neg,
}
use assembled_watchtower.Base.Time.{Time}
use assembled_watchtower.Alerts.Types.{
  SeriesKey, SeriesKey-discrete, Contributor, Episode, TransitionKind, Transition, SeriesState,
  Reducer,
}
use assembled_watchtower.Alerts.Reducer.{
  new, new_series, series_of, series_id, put, is_known, open_transition, contribute, apply_start,
  recovery_transition, withdraw, apply_clear,
}

-- The generation of a series and whether it is open; the outer `none` is a violation: an opening
-- while it is open or of any generation but the next, or a recovery while it is not open or of any
-- generation but the open one.
unfoldable pub next_generation : SeriesKey → ℕ × Bool → Transition → Option (ℕ × Bool)
next_generation k (g, is_open) t = elim (SeriesKey-discrete t.series k) [
  | no other ↦ some (g, is_open)
  | yes e ↦ (elim t.kind [
    | TransitionKind.opened ↦
        if not is_open && (t.generation == inc_u64 g) then some (t.generation, true) else none
    | TransitionKind.recovery ↦ if is_open && (t.generation == g) then some (g, false) else none
    | TransitionKind.other n ↦ none
  ])
]

abbrev then_generation : SeriesKey → Option (ℕ × Bool) → Transition → Option (ℕ × Bool)
then_generation k none t = none
then_generation k (some g) t = next_generation k g t

unfoldable pub generation_after :
    SeriesKey → Option (ℕ × Bool) → List Transition → Option (ℕ × Bool)
generation_after k o [] = o
generation_after k o (t ∷ ts) = generation_after k (then_generation k o t) ts

generation_after-append :
    (k : SeriesKey) (o : Option (ℕ × Bool)) (ts us : List Transition)
    → generation_after k o (ts ++ us) ≡ generation_after k (generation_after k o ts) us
unfolding generation_after
generation_after-append k o [] us = refl
generation_after-append k o (t ∷ ts) us = generation_after-append k (then_generation k o t) ts us

-- A series under its key: its identity, and its contributors, which are there exactly while it is
-- open.
pub record IsSound (k : SeriesKey) (s : SeriesState) : Type 0 where
  pub key : s.key ≡ k
  pub id : s.id ≡ series_id k
  pub unique : Unique Str-discrete s.contributors
  pub contributed : s.is_open ≡ not (is_empty s.contributors)

pub record IsCoherent (r : Reducer) : Type 0 where
  pub unique : Unique SeriesKey-discrete r.series
  pub sound : (k : SeriesKey) → IsSound k (series_of r k)
  pub journal :
      (k : SeriesKey)
      → generation_after k (some (0, false)) r.transitions
        ≡ some ((series_of r k).generation, (series_of r k).is_open)

pub new-IsCoherent : IsCoherent new
unfolding series_of lookup generation_after new_series
new-IsCoherent = record {
  unique = tt;
  sound = λ k. record { key = refl; id = refl; unique = tt; contributed = refl };
  journal = λ k. refl;
}

pub series_of-put :
    (r : Reducer) (k j : SeriesKey) (s : SeriesState) (closed : List Str) (ts : List Transition)
    → series_of
        (record {
          series = insert SeriesKey-discrete k s r.series;
          closed = closed;
          transitions = ts;
        })
        j
      ≡ (if same SeriesKey-discrete k j then s else series_of r j)
unfolding series_of
series_of-put r k j s closed ts = ground (arith, lookup-insert SeriesKey-discrete k j s r.series)

-- A reducer whose series `k` has become `s`, with the transitions `out` at the end of its journal.
abbrev updated : Reducer → SeriesKey → SeriesState → List Str → List Transition → Reducer
updated r k s closed out = record {
  series = insert SeriesKey-discrete k s r.series;
  closed = closed;
  transitions = r.transitions ++ out;
}

module _ (r : Reducer) (c : IsCoherent r) (k : SeriesKey) (s : SeriesState)
    (closed : List Str) where
  updated-IsSound :
      IsSound k s
      → (out : List Transition) (j : SeriesKey) → IsSound j (series_of (updated r k s closed out) j)
  updated-IsSound h out j =
      rw (series_of-put r k j s closed (r.transitions ++ out)) (elim (SeriesKey-discrete k j) [
        | yes e ↦ rw (if_pos _ e, ← e) h
        | no e ↦ rw (if_neg _ e) (c.sound j)
      ])

  -- An update that emits nothing and leaves the generation as it was.
  quiet-IsCoherent :
      IsSound k s
      → s.generation ≡ (series_of r k).generation
      → s.is_open ≡ (series_of r k).is_open
      → IsCoherent (record r { series = insert SeriesKey-discrete k s r.series; closed = closed })
  quiet-IsCoherent h g o = record {
    unique = insert-Unique SeriesKey-discrete k s r.series c.unique;
    sound = λ j. unfold series_of in updated-IsSound h [] j;
    journal = λ j. ground (arith, c.journal j, series_of-put r k j s closed r.transitions);
  }

  -- An update that emits the transition which takes the old generation to the new one.
  loud-IsCoherent :
      (t : Transition)
      → IsSound k s
      → t.series ≡ k
      → next_generation k ((series_of r k).generation, (series_of r k).is_open) t
        ≡ some (s.generation, s.is_open)
      → IsCoherent (updated r k s closed (t ∷ []))
  unfolding generation_after
  loud-IsCoherent t h e next = record {
    unique = insert-Unique SeriesKey-discrete k s r.series c.unique;
    sound = updated-IsSound h (t ∷ []);
    journal = λ j.
        generation_after-append j (some (0, false)) r.transitions (t ∷ [])
        ∙ rw (c.journal j, series_of-put r k j s closed (r.transitions ++ t ∷ []))
            (elim (SeriesKey-discrete k j) [
              | yes p ↦ rw (if_pos _ p, ← p) next
              | no p ↦ rw (if_neg _ p) (quiet_elsewhere j p)
            ]);
  }
    where
      quiet_elsewhere :
          (j : SeriesKey)
          → k ≢ j
          → next_generation j ((series_of r j).generation, (series_of r j).is_open) t
            ≡ some ((series_of r j).generation, (series_of r j).is_open)
      quiet_elsewhere j p = unfold next_generation in ground (arith, e)

insert-not_empty :
    {V : Type 0} (id : Str) (v : V) (m : List (Str × V))
    → is_empty (insert Str-discrete id v m) ≡ false
unfolding insert
insert-not_empty id v [] = refl
insert-not_empty id v ((j, w) ∷ m) = ground arith

put-IsCoherent : (r : Reducer) (k : SeriesKey) → IsCoherent r → IsCoherent (put r k (series_of r k))
unfolding put
put-IsCoherent r k c = quiet-IsCoherent r c k (series_of r k) r.closed (c.sound k) refl refl

contribute-IsCoherent :
    (r : Reducer) (e : Episode)
    → IsCoherent r
    → IsCoherent (contribute r (series_of r e.series) e).0
unfolding contribute put open_transition next_generation
contribute-IsCoherent r e c = elim (Bool-cases (series_of r e.series).is_open) [
  | inl h ↦ rw h (
      quiet-IsCoherent r c e.series _ r.closed
        (record {
          key = (c.sound e.series).key;
          id = (c.sound e.series).id;
          unique = insert-Unique Str-discrete e.id _ _ (c.sound e.series).unique;
          contributed = rw (insert-not_empty e.id _ (series_of r e.series).contributors) refl;
        })
        refl (sym h))
  | inr h ↦ rw h (
      loud-IsCoherent r c e.series _ r.closed _
        (record {
          key = (c.sound e.series).key;
          id = (c.sound e.series).id;
          unique = insert-Unique Str-discrete e.id _ _ (c.sound e.series).unique;
          contributed = rw (insert-not_empty e.id _ (series_of r e.series).contributors) refl;
        })
        (c.sound e.series).key (ground (arith, (c.sound e.series).key, h)))
]

pub apply_start-IsCoherent :
    (r : Reducer) (e : Episode) → IsCoherent r → IsCoherent (apply_start r e).0
unfolding apply_start
apply_start-IsCoherent r e c = elim (Bool-cases (is_empty e.id || has Str-discrete e.id r.closed)) [
  | inl h ↦ rw h c
  | inr h ↦ rw h (elim (Bool-cases (is_known e.id (series_of r e.series).contributors)) [
    | inl k ↦ rw k (put-IsCoherent r e.series c)
    | inr k ↦ rw k (contribute-IsCoherent r e c)
  ])
]

withdraw-IsCoherent :
    (r : Reducer) (k : SeriesKey) (e : Contributor) (id : Str) (at effective_at evidence_at : Time)
    → IsCoherent r
    → (is_empty (series_of r k).contributors ≡ false)
    → IsCoherent (withdraw r k (series_of r k) e id at effective_at evidence_at).0
unfolding withdraw recovery_transition next_generation
withdraw-IsCoherent r k e id at effective_at evidence_at c some_left =
    elim (Bool-cases (is_empty rest)) [
      | inl h ↦
          rw (h, was_open)
            (loud-IsCoherent r c k _ (id ∷ r.closed) _
              (record {
                key = (c.sound k).key;
                id = (c.sound k).id;
                unique = rest_unique;
                contributed = rw h refl;
              })
              (c.sound k).key (ground (arith, (c.sound k).key, was_open)))
      | inr h ↦ rw h (
          quiet-IsCoherent r c k _ (id ∷ r.closed)
            (record {
              key = (c.sound k).key;
              id = (c.sound k).id;
              unique = rest_unique;
              contributed = rw h was_open;
            })
            refl refl)
    ]
  where
    rest : List (Str × Contributor)
    rest = delete Str-discrete id (series_of r k).contributors

    rest_unique : Unique Str-discrete rest
    rest_unique = delete-Unique Str-discrete id (series_of r k).contributors (c.sound k).unique

    was_open : (series_of r k).is_open ≡ true
    was_open = (c.sound k).contributed ∙ ap not some_left

known-not_empty :
    {V : Type 0} (id : Str) (v : V) (m : List (Str × V))
    → lookup Str-discrete id m ≡ some v
    → is_empty m ≡ false
unfolding lookup
known-not_empty id v [] h = cc
known-not_empty id v (e ∷ m) h = refl

pub apply_clear-IsCoherent :
    (r : Reducer) (id : Str) (k : SeriesKey) (at effective_at evidence_at : Time)
    → IsCoherent r
    → IsCoherent (apply_clear r id k at effective_at evidence_at).0
unfolding apply_clear
apply_clear-IsCoherent r id k at effective_at evidence_at c =
    elim (Bool-cases (is_empty id || has Str-discrete id r.closed)) [
      | inl h ↦ rw h c
      | inr h ↦ rw h (elim (Option-cases (lookup Str-discrete id (series_of r k).contributors)) [
        | inl missing ↦ rw missing (put-IsCoherent r k c)
        | inr (e, found) ↦ rw found (
            withdraw-IsCoherent r k e id at effective_at evidence_at c
              (known-not_empty id e (series_of r k).contributors found))
      ])
    ]
