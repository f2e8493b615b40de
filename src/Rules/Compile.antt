-- ===== src/Rules/Compile.antt =====
-- `Compile` of internal/rules/compile.go: the targets of a rule, fixed when it is activated.
use assembled_watchtower.Base.{
  List, [], ◌∷◌, ◌++◌, Option, none, some, Bool, not, ◌&&◌, ◌⊎◌, inl, inr, if◌then◌else◌, same, Str,
  Str-discrete, str_ltb, ltb_ℤ, ℤ, pos, is_empty, has,
}
use assembled_watchtower.Base.Sort.{sort}
use assembled_watchtower.Rules.Types.{CompareExpression}
use assembled_watchtower.Rules.Definition.{RuleDefinition, NotificationPolicy, is_valid}
use assembled_watchtower.Rules.Evaluate.{flatten}

pub record GroupSnapshot : Type 0 where
  pub kind : Str
  pub revision : ℤ
  pub members : List Str

-- `ResolveGroup` of a kind and a group's ID; `none` is an error.
abbrev pub GroupResolver : Type 0
GroupResolver = Str → Str → Option GroupSnapshot

pub record PinnedGroup : Type 0 where
  pub id : Str
  pub revision : ℤ
  pub members : List Str

-- The entries of a sorted list that differ from the one before them.
unfoldable pub drop_repeats : Str → List Str → List Str
drop_repeats last [] = []
drop_repeats last (x ∷ xs) =
    let rest = drop_repeats x xs in if same Str-discrete last x then rest else x ∷ rest

unfoldable pub distinct : List Str → List Str
distinct [] = []
distinct (x ∷ xs) = x ∷ drop_repeats x xs

unfoldable pub canonical_ids : List Str → List Str
canonical_ids ids = distinct (sort str_ltb ids)

-- `targetIndex` is the set of `pinned_target_ids`.
pub record CompiledPlan : Type 0 where
  pub subject : Str
  pub explicit_ids : List Str
  pub group_ids : List Str
  pub pinned_groups : List PinnedGroup
  pub pinned_target_ids : List Str
  pub trigger : List CompareExpression
  pub clear : List CompareExpression
  pub trigger_for : ℤ
  pub clear_for : ℤ
  pub notifications : NotificationPolicy

pub data CompileError : Type 0 where
  invalid : CompileError
  resolver_missing : CompileError
  unresolved : Str → CompileError
  wrong_kind : Str → CompileError
  invalid_revision : Str → CompileError

-- One round of the loop over the groups.
unfoldable pub pin_group : GroupResolver → Str → Str → CompileError ⊎ PinnedGroup
pin_group resolve kind id = elim (resolve kind id) [
  | none ↦ inl (unresolved id)
  | some s ↦
      if not (same Str-discrete s.kind kind)
      then inl (wrong_kind id)
      else if not (ltb_ℤ (pos 0) s.revision)
      then inl (invalid_revision id)
      else inr (record { id = id; revision = s.revision; members = canonical_ids s.members })
]

unfoldable pub pin_groups : GroupResolver → Str → List Str → CompileError ⊎ List PinnedGroup
pin_groups resolve kind [] = inr []
pin_groups resolve kind (id ∷ ids) =
    let rest = pin_groups resolve kind ids in
    elim (pin_group resolve kind id) [
      | inl e ↦ inl e
      | inr g ↦ elim rest [ inl e ↦ inl e | inr gs ↦ inr (g ∷ gs) ]
    ]

unfoldable pub all_members : List PinnedGroup → List Str
all_members [] = []
all_members (g ∷ gs) = g.members ++ all_members gs

unfoldable pub plan_of : RuleDefinition → List PinnedGroup → CompiledPlan
plan_of r groups = record {
  subject = r.targets.kind;
  explicit_ids = canonical_ids r.targets.ids;
  group_ids = canonical_ids r.targets.group_ids;
  pinned_groups = groups;
  pinned_target_ids = canonical_ids (canonical_ids r.targets.ids ++ all_members groups);
  trigger = flatten r.trigger.predicate;
  clear = flatten r.clear.predicate;
  trigger_for = r.trigger.duration;
  clear_for = r.clear.duration;
  notifications = r.notifications;
}

-- The groups of a definition: without a resolver there must be none.
unfoldable pub resolved_groups :
    RuleDefinition → Option GroupResolver → CompileError ⊎ List PinnedGroup
resolved_groups r none = if is_empty r.targets.group_ids then inr [] else inl resolver_missing
resolved_groups r (some resolve) =
    pin_groups resolve r.targets.kind (canonical_ids r.targets.group_ids)

-- `none` is no resolver; more than one is a mistake of the caller that the types rule out.
unfoldable pub compile : RuleDefinition → Option GroupResolver → CompileError ⊎ CompiledPlan
compile r resolver =
    if not (is_valid r)
    then inl invalid
    else (elim (resolved_groups r resolver) [ inl e ↦ inl e | inr gs ↦ inr (plan_of r gs) ])

unfoldable pub has_target : CompiledPlan → Str → Str → Bool
has_target p kind id = same Str-discrete p.subject kind && has Str-discrete id p.pinned_target_ids
