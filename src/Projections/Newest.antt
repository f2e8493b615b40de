-- ===== src/Projections/Newest.antt =====
-- A live state is the newest evidence of its history.
use assembled_watchtower.Base.{
  ◌≡◌, ◌<◌, ◌≤◌, ◌⊎◌, dec_lt, refl, ◌∙◌, ap, inl, inr, List, [], ◌∷◌, ◌++◌, Option, none, some,
  true, false, map, map-append, Str, Str-discrete, lookup, lookup-insert, lookup-insert_self, arith,
  Bool-cases, Option-cases, All, All-append, subst, ite, Any, Any-append, All-map, if◌then◌else◌,
}
use mathlib.Core.Option
use assembled_watchtower.Projections.Types.{Provenance}
use assembled_watchtower.Projections.Live.{newer, logged, log, replaces, held, current_after}

-- Evidence `p` is no newer than `q`: of an earlier effective time, or of the same one and no later
-- ingestion position.
unfoldable pub IsUpTo : Provenance → Provenance → Type 0
IsUpTo p q =
    (p.effective_at < q.effective_at)
    ⊎ ((p.effective_at ≡ q.effective_at) × (p.ingest_position ≤ q.ingest_position))

-- The provenance is that of an entry of the history, and no entry is newer.
abbrev pub IsNewest : List Provenance → Option Provenance → Type 0
IsNewest ps none = ps ≡ []
IsNewest ps (some p) = Any (λ q. q ≡ p) ps × All (λ q. IsUpTo q p) ps

IsUpTo-newer : (p q : Provenance) → newer p q ≡ false → IsUpTo p q
unfolding newer IsUpTo
IsUpTo-newer p q h = elim (dec_lt p.effective_at q.effective_at) [
  | yes e ↦ inl e
  | no n ↦ inr (ground (arith, h, n), ground (arith, h, n))
]

newer-IsUpTo : (p q : Provenance) → IsUpTo p q → newer p q ≡ false
unfolding newer IsUpTo
newer-IsUpTo p q (inl h) = ground (arith, h)
newer-IsUpTo p q (inr (e, h)) = ground (arith, e, h)

pub IsUpTo-self : (p : Provenance) → IsUpTo p p
IsUpTo-self p = IsUpTo-newer p p (unfold newer in ground arith)

pub newer_after : (p q : Provenance) → newer p q ≡ true → IsUpTo q p
newer_after p q h = IsUpTo-newer q p (unfold newer in ground (arith, h))

pub IsUpTo-trans : (p q r : Provenance) → IsUpTo p q → IsUpTo q r → IsUpTo p r
IsUpTo-trans p q r h g =
    let h' = newer-IsUpTo p q h in
    let g' = newer-IsUpTo q r g in IsUpTo-newer p r (unfold newer in ground (arith, h', g'))

-- The newest of a history after one more entry.
pick : Provenance → Option Provenance → Provenance
pick q none = q
pick q (some p) = if newer q p then q else p

IsNewest-append :
    (ps : List Provenance) (m : Option Provenance) (q : Provenance)
    → IsNewest ps m
    → IsNewest (ps ++ q ∷ []) (some (pick q m))
unfolding pick
IsNewest-append ps none q h = rw h (inl refl, (IsUpTo-self q, tt))
IsNewest-append ps (some p) q h = elim (Bool-cases (newer q p)) [
  | inl e ↦ rw e (
    Any-append (λ r. r ≡ q) ps (q ∷ []) (inr (inl refl)),
    All-append (λ r. IsUpTo r q) ps (q ∷ [])
        (All-map (λ r. IsUpTo r p) (λ r. IsUpTo r q) ps
          (λ r g. IsUpTo-trans r p q g (newer_after q p e)) h.1)
        (IsUpTo-self q, tt),
  )
  | inr e ↦ rw e (
    Any-append (λ r. r ≡ p) ps (q ∷ []) (inl h.0),
    All-append (λ r. IsUpTo r p) ps (q ∷ []) h.1 (IsUpTo-newer q p e, tt),
  )
]

logged-log :
    {O : Type 0} (id : Str) (o : O) (m : List (Str × List O))
    → logged id (log id o m) ≡ logged id m ++ o ∷ []
unfolding log logged
logged-log id o m = ground (arith, lookup-insert_self Str-discrete id (logged id m ++ o ∷ []) m)

module _ {V : Type 0} (evidence : V → Provenance) where
  pub lookup-held :
      (id j : Str) (c : V) (m : List (Str × V))
      → lookup Str-discrete j (held evidence id c m)
        ≡ ite
            (Str-discrete id j)
            (some (current_after evidence c (lookup Str-discrete id m)))
            (lookup Str-discrete j m)
  unfolding held current_after replaces
  lookup-held id j c m = elim (Option-cases (lookup Str-discrete id m)) [
    | inl e ↦ ground (arith, e, lookup-insert Str-discrete id j c m)
    | inr (x, e) ↦ ground (arith, e, lookup-insert Str-discrete id j c m)
  ]

  pub lookup-held_self :
      (id : Str) (c : V) (m : List (Str × V))
      → lookup Str-discrete id (held evidence id c m)
        ≡ some (current_after evidence c (lookup Str-discrete id m))
  lookup-held_self id c m = ground (arith, lookup-held id id c m)

  evidence-current_after :
      (c : V) (prior : Option V)
      → evidence (current_after evidence c prior) ≡ pick (evidence c) (Option.map evidence prior)
  unfolding current_after replaces pick
  evidence-current_after c none = refl
  evidence-current_after c (some x) = ground arith

  -- A live state of the first map is one of the second, and is not newer there.
  abbrev pub Keeps : List (Str × V) → List (Str × V) → Type 0
  Keeps m m' =
      (id : Str) (x : V)
      → lookup Str-discrete id m ≡ some x
      → (y : V) × (lookup Str-discrete id m' ≡ some y) × IsUpTo (evidence x) (evidence y)

  pub Keeps-self : (m : List (Str × V)) → Keeps m m
  Keeps-self m id x h = (x, h, IsUpTo-self (evidence x))

  pub Keeps-trans : (m m' m'' : List (Str × V)) → Keeps m m' → Keeps m' m'' → Keeps m m''
  Keeps-trans m m' m'' f g id x h =
      let (y, k, e) = f id x h in
      let (z, l, e') = g id y k in (z, l, IsUpTo-trans (evidence x) (evidence y) (evidence z) e e')

  pub held-Keeps : (id : Str) (c : V) (m : List (Str × V)) → Keeps m (held evidence id c m)
  unfolding held current_after replaces
  held-Keeps id c m j x h = elim (Str-discrete id j) [
    | no ne ↦ (x, ground (arith, h, ne, lookup-held id j c m), IsUpTo-self (evidence x))
    | yes p ↦
        let found : lookup Str-discrete id m ≡ some x = ground (arith, h, p) in
        elim (Bool-cases (newer (evidence c) (evidence x))) [
          | inl e ↦ (
            c,
            ground (arith, found, p, e, lookup-held id j c m),
            newer_after (evidence c) (evidence x) e,
          )
          | inr e ↦ (x, ground (arith, found, p, e, lookup-held id j c m), IsUpTo-self (evidence x))
        ]
  ]

module _ {V O : Type 0} (evidence : V → Provenance) (source : O → Provenance) where
  -- Each live state is the newest evidence of its history, and a history without one is empty.
  abbrev pub IsLive : List (Str × List O) → List (Str × V) → Type 0
  IsLive history live =
      (id : Str)
      → IsNewest (map source (logged id history))
          (Option.map evidence (lookup Str-discrete id live))

  -- The history and the live states of the subject that the observation is about.
  held-IsNewest :
      (id : Str) (o : O) (c : V) (history : List (Str × List O)) (live : List (Str × V))
      → evidence c ≡ source o
      → IsNewest
          (map source (logged id history))
          (Option.map evidence (lookup Str-discrete id live))
      → IsNewest
          (map source (logged id (log id o history)))
          (Option.map evidence (lookup Str-discrete id (held evidence id c live)))
  unfolding log
  held-IsNewest id o c history live s h =
      let longer : map source (logged id (log id o history))
          ≡ map source (logged id history) ++ source o ∷ [] =
        ap (map source) (logged-log id o history)
        ∙ map-append source (logged id history) (o ∷ []) in
      let later : Option.map evidence (lookup Str-discrete id (held evidence id c live))
          ≡ some (pick (source o) (Option.map evidence (lookup Str-discrete id live))) =
        ap (Option.map evidence) (lookup-held evidence id id c live)
        ∙ ground (arith, evidence-current_after evidence c (lookup Str-discrete id live), s) in
      rw (longer, later) (IsNewest-append _ _ (source o) h)

  pub held-IsLive :
      (id : Str) (o : O) (c : V) (history : List (Str × List O)) (live : List (Str × V))
      → evidence c ≡ source o
      → IsLive history live
      → IsLive (log id o history) (held evidence id c live)
  unfolding log logged
  held-IsLive id o c history live s h j = elim (Str-discrete id j) [
    | yes p ↦
        subst
          (λ k.
            IsNewest (map source (logged k (log id o history)))
              (Option.map evidence (lookup Str-discrete k (held evidence id c live))))
          p (held-IsNewest id o c history live s (h id))
    | no ne ↦ ground (
      arith,
      lookup-held evidence id j c live,
      ne,
      h j,
      lookup-insert Str-discrete id j (logged id history ++ o ∷ []) history,
    )
  ]
