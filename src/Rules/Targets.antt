-- ===== src/Rules/Targets.antt =====
-- The targets of a compiled rule are the explicit IDs and the members of the groups, as sets.
use assembled_watchtower.Base.{
  ◌≡◌, refl, ◌∙◌, ap, ◌⊎◌, inl, inr, List, [], ◌∷◌, ◌++◌, Option, none, some, Bool, false, ◌&&◌,
  ◌||◌, arith, same, Str, Str-discrete, str_ltb, has, Bool-cases, Option-cases, is_empty,
}
use assembled_watchtower.Base.Sort.{sort, insert_sorted}
use assembled_watchtower.Rules.Definition.{RuleDefinition, is_valid}
use assembled_watchtower.Rules.Compile.{
  GroupResolver, PinnedGroup, CompiledPlan, drop_repeats, distinct, canonical_ids, pin_group,
  pin_groups, all_members, plan_of, resolved_groups, compile, has_target,
}

-- Whether an entry passes a test.
unfoldable pub any_of : (Str → Bool) → List Str → Bool
any_of f [] = false
any_of f (x ∷ xs) = f x || any_of f xs

module _ (f : Str → Bool) where
  any_of-append : (xs ys : List Str) → any_of f (xs ++ ys) ≡ (any_of f xs || any_of f ys)
  unfolding any_of
  any_of-append [] ys = refl
  any_of-append (x ∷ xs) ys = ground (arith, any_of-append xs ys)

  any_of-insert_sorted :
      (x : Str) (xs : List Str) → any_of f (insert_sorted str_ltb x xs) ≡ any_of f (x ∷ xs)
  unfolding any_of insert_sorted
  any_of-insert_sorted x [] = refl
  any_of-insert_sorted x (y ∷ xs) = ground (arith, any_of-insert_sorted x xs)

  any_of-sort : (xs : List Str) → any_of f (sort str_ltb xs) ≡ any_of f xs
  unfolding any_of sort
  any_of-sort [] = refl
  any_of-sort (x ∷ xs) = ground (arith, any_of-sort xs, any_of-insert_sorted x (sort str_ltb xs))

  any_of-drop_repeats :
      (x : Str) (xs : List Str) → any_of f (x ∷ drop_repeats x xs) ≡ any_of f (x ∷ xs)
  unfolding any_of drop_repeats
  any_of-drop_repeats x [] = refl
  any_of-drop_repeats x (y ∷ xs) = ground (arith, any_of-drop_repeats y xs)

  any_of-distinct : (xs : List Str) → any_of f (distinct xs) ≡ any_of f xs
  unfolding distinct
  any_of-distinct [] = refl
  any_of-distinct (x ∷ xs) = any_of-drop_repeats x xs

  any_of-canonical_ids : (xs : List Str) → any_of f (canonical_ids xs) ≡ any_of f xs
  unfolding canonical_ids
  any_of-canonical_ids xs = any_of-distinct (sort str_ltb xs) ∙ any_of-sort xs

-- Whether a list has an entry.
abbrev pub listed : Str → List Str → Bool
listed id xs = any_of (λ x. same Str-discrete x id) xs

has-listed : (id : Str) (xs : List Str) → has Str-discrete id xs ≡ listed id xs
unfolding has any_of
has-listed id [] = refl
has-listed id (x ∷ xs) = ground (arith, has-listed id xs)

-- Whether a subject is a member of a group, as the resolver answers.
unfoldable pub is_member : GroupResolver → Str → Str → Str → Bool
is_member resolve kind id group = elim (resolve kind group) [
  | none ↦ false
  | some s ↦ listed id s.members
]

pin_group-member :
    (resolve : GroupResolver) (kind id group : Str) (g : PinnedGroup)
    → pin_group resolve kind group ≡ inr g
    → listed id g.members ≡ is_member resolve kind id group
unfolding pin_group is_member
pin_group-member resolve kind id group g h = elim (Option-cases (resolve kind group)) [
  | inl e ↦ absurd (ground (arith, h, e))
  | inr (s, e) ↦
      let canonical = any_of-canonical_ids (λ x. same Str-discrete x id) s.members in
      ground (arith, h, e, canonical)
]

⊎-cases : {A B : Type 0} (s : A ⊎ B) → ((a : A) × (s ≡ inl a)) ⊎ ((b : B) × (s ≡ inr b))
⊎-cases (inl a) = inl (a, refl)
⊎-cases (inr b) = inr (b, refl)

-- The first group and the others of a list that resolves.
pin_groups-inv :
    (resolve : GroupResolver) (kind group : Str) (ids : List Str) (gs : List PinnedGroup)
    → pin_groups resolve kind (group ∷ ids) ≡ inr gs
    → (p : PinnedGroup) × (ps : List PinnedGroup) × (gs ≡ p ∷ ps)
      × (pin_group resolve kind group ≡ inr p)
      × (pin_groups resolve kind ids ≡ inr ps)
unfolding pin_groups
pin_groups-inv resolve kind group ids gs h = elim (⊎-cases (pin_group resolve kind group)) [
  | inl (e, k) ↦ absurd (ground (arith, h, k))
  | inr (p, k) ↦ elim (⊎-cases (pin_groups resolve kind ids)) [
    | inl (e, l) ↦ absurd (ground (arith, h, k, l))
    | inr (ps, l) ↦ (p, ps, ground (arith, h, k, l), k, l)
  ]
]

pin_groups-member :
    (resolve : GroupResolver) (kind id : Str) (ids : List Str) (gs : List PinnedGroup)
    → pin_groups resolve kind ids ≡ inr gs
    → listed id (all_members gs) ≡ any_of (is_member resolve kind id) ids
unfolding pin_groups all_members any_of
pin_groups-member resolve kind id [] gs h = ground (arith, h)
pin_groups-member resolve kind id (group ∷ ids) gs h =
    let (p, ps, e, k, l) = pin_groups-inv resolve kind group ids gs h in
    let rest = pin_groups-member resolve kind id ids ps l in
    let here = pin_group-member resolve kind id group p k in
    let whole = any_of-append (λ x. same Str-discrete x id) p.members (all_members ps) in
    ground (arith, e, rest, here, whole)

-- The groups that a resolver, if there is one, has for a subject.
abbrev pub any_member : Option GroupResolver → Str → Str → List Str → Bool
any_member none kind id groups = false
any_member (some resolve) kind id groups = any_of (is_member resolve kind id) groups

resolved_groups-member :
    (r : RuleDefinition) (resolver : Option GroupResolver) (id : Str) (gs : List PinnedGroup)
    → resolved_groups r resolver ≡ inr gs
    → listed id (all_members gs) ≡ any_member resolver r.targets.kind id r.targets.group_ids
unfolding resolved_groups all_members any_of
resolved_groups-member r none id gs h = elim (Bool-cases (is_empty r.targets.group_ids)) [
  | inl e ↦ ground (arith, h, e)
  | inr e ↦ absurd (ground (arith, h, e))
]
resolved_groups-member r (some resolve) id gs h =
    pin_groups-member resolve r.targets.kind id (canonical_ids r.targets.group_ids) gs h
    ∙ any_of-canonical_ids (is_member resolve r.targets.kind id) r.targets.group_ids

pinned-listed :
    (id : Str) (ids : List Str) (gs : List PinnedGroup)
    → has Str-discrete id (canonical_ids (canonical_ids ids ++ all_members gs))
      ≡ (listed id ids || listed id (all_members gs))
pinned-listed id ids gs =
    let f : Str → Bool = λ x. same Str-discrete x id in
    has-listed id (canonical_ids (canonical_ids ids ++ all_members gs))
    ∙ any_of-canonical_ids f (canonical_ids ids ++ all_members gs)
    ∙ any_of-append f (canonical_ids ids) (all_members gs)
    ∙ ap (λ b. b || listed id (all_members gs)) (any_of-canonical_ids f ids)

-- A subject is a target of a compiled rule exactly if it is of the rule's kind and its ID is one of
-- the explicit IDs, or a member that the resolver answers for one of the configured groups: sorting
-- and removing repeats neither adds a target nor loses one.
pub compile-has_target :
    (r : RuleDefinition) (resolver : Option GroupResolver) (p : CompiledPlan) (kind id : Str)
    → compile r resolver ≡ inr p
    → has_target p kind id ≡ (
        same Str-discrete r.targets.kind kind
        && (listed id r.targets.ids || any_member resolver r.targets.kind id r.targets.group_ids))
unfolding compile has_target plan_of
compile-has_target r resolver p kind id h = elim (Bool-cases (is_valid r)) [
  | inr e ↦ absurd (ground (arith, h, e))
  | inl e ↦ elim (⊎-cases (resolved_groups r resolver)) [
    | inl (x, k) ↦ absurd (ground (arith, h, e, k))
    | inr (gs, k) ↦
        let is_plan : p ≡ plan_of r gs = ground (arith, h, e, k) in
        let pinned = pinned-listed id r.targets.ids gs in
        let members = resolved_groups-member r resolver id gs k in
        rw (is_plan, pinned, members) refl
  ]
]
