-- ===== src/Rules/Definition.antt =====
-- A rule definition and its validation, `validationErrors` of internal/rules/validate.go. The
-- fields that only the JSON decoder sets are left out. `Validate` sorts the errors, and refuses a
-- definition exactly if there is one.
use assembled_watchtower.Base.{
  ℕ, suc, List, [], ◌∷◌, ◌++◌, none, some, Bool, not, ◌&&◌, ltb, if◌then◌else◌, same, Str, codes,
  Str-discrete, ℤ, pos, ℤ-discrete, is_empty, length, lookup,
}
use assembled_watchtower.Ids.{format_uint}
use assembled_watchtower.Rules.Types.{
  Expression, ValidationError, subject_queue, subject_agent, nil,
}
use assembled_watchtower.Rules.Catalog.{time_duration_invalid}
use assembled_watchtower.Rules.Validate.{ptr, error, validate_expression}

pub record Targets : Type 0 where
  pub kind : Str
  pub ids : List Str
  pub group_ids : List Str

pub record Condition : Type 0 where
  pub predicate : Expression
  pub duration : ℤ

pub record NotificationPolicy : Type 0 where
  pub on_open : Bool
  pub on_recovery : Bool
  pub audience : Str

pub record RuleDefinition : Type 0 where
  pub schema_version : ℤ
  pub name : Str
  pub description : Str
  pub targets : Targets
  pub trigger : Condition
  pub clear : Condition
  pub notifications : NotificationPolicy

-- A text that is required and bounded, in bytes.
unfoldable pub validate_text : Str → ℕ → Str → Str → Str → List ValidationError
validate_text text limit path required too_long =
    if is_empty text
    then error (codes "required") path required
    else if ltb limit (length text)
    then error (codes "size_limit") path too_long
    else []

-- The loop over the selectors of one kind: `i` is the index, `seen` maps a selector to the path
-- where it stood first.
unfoldable pub validate_selectors :
    List Str → ℕ → List (Str × Str) → Str → Str → Str → List ValidationError
validate_selectors [] i seen base empty duplicates = []
validate_selectors (id ∷ ids) i seen base empty duplicates =
    let path = ptr base (format_uint i) in
    let blank = if is_empty id then error (codes "invalid_selector") path empty else [] in
    blank
    ++ elim (lookup Str-discrete id seen) [
      | some first ↦ error (codes "duplicate_selector") path (duplicates ++ first)
      | none ↦ []
    ]
    ++ validate_selectors ids (suc i)
        (elim (lookup Str-discrete id seen) [ some first ↦ seen | none ↦ (id, path) ∷ seen ]) base
        empty duplicates

-- A nil predicate is missing; any other is validated for the subject.
unfoldable pub validate_predicate : Expression → Str → Str → Str → List ValidationError
validate_predicate nil path subject required = error (codes "required") path required
validate_predicate x path subject required = validate_expression x path subject

unfoldable pub validate_duration : ℤ → Str → List ValidationError
validate_duration d path =
    if time_duration_invalid d
    then error (codes "invalid_duration") path (codes "duration must be non-negative whole seconds")
    else []

unfoldable pub validate_targets : Targets → List ValidationError
validate_targets t =
    (if not (same Str-discrete t.kind subject_queue) && not (same Str-discrete t.kind subject_agent)
      then error (codes "invalid_subject_kind") (codes "/targets/kind")
          (codes "kind must be queue or agent")
      else [])
    ++ (if is_empty t.ids && is_empty t.group_ids
        then error (codes "empty_targets") (codes "/targets")
            (codes "at least one explicit ID or group ID is required")
        else [])
    ++ validate_selectors t.ids 0 [] (codes "/targets/ids") (codes "selector ID cannot be empty")
        (codes "selector duplicates ")
    ++ validate_selectors t.group_ids 0 [] (codes "/targets/group_ids")
        (codes "group ID cannot be empty") (codes "group ID duplicates ")

-- The errors in the order in which they are added.
unfoldable pub validation_errors : RuleDefinition → List ValidationError
validation_errors r =
    (if not (same ℤ-discrete r.schema_version (pos 1))
      then error (codes "invalid_schema_version") (codes "/schema_version")
          (codes "schema_version must be 1")
      else [])
    ++ validate_text r.name 200 (codes "/name") (codes "name is required")
        (codes "name must be at most 200 characters")
    ++ (if ltb 2000 (length r.description)
        then error (codes "size_limit") (codes "/description")
            (codes "description must be at most 2000 characters")
        else [])
    ++ validate_targets r.targets
    ++ validate_predicate r.trigger.predicate (codes "/trigger/predicate") r.targets.kind
        (codes "trigger predicate is required")
    ++ validate_duration r.trigger.duration (codes "/trigger/for")
    ++ validate_predicate r.clear.predicate (codes "/clear/predicate") r.targets.kind
        (codes "clear predicate is required")
    ++ validate_duration r.clear.duration (codes "/clear/for")
    ++ validate_text r.notifications.audience 200 (codes "/notifications/audience")
        (codes "audience is required") (codes "audience must be at most 200 characters")

-- Whether `Validate` returns nil.
unfoldable pub is_valid : RuleDefinition → Bool
is_valid r = is_empty (validation_errors r)
