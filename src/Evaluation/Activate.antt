-- ===== src/Evaluation/Activate.antt =====
-- `Activate`: compiles the active rules in canonical order and gives each a new reducer. The text
-- of a JSON value, which encoding/json writes, is a parameter.
use assembled_watchtower.Base.{
  List, [], ◌∷◌, Option, none, some, not, ltb_ℤ, pos, if◌then◌else◌, ◌⊎◌, inl, inr, Str, is_empty,
}
use assembled_watchtower.Base.Sort.{sort}
use assembled_watchtower.Base.Time.{zero_time}
use assembled_watchtower.Json.{Json}
use assembled_watchtower.Rules.Definition.{RuleDefinition}
use assembled_watchtower.Rules.Compile.{GroupResolver, CompileError, CompiledPlan, compile}
use assembled_watchtower.Rules.Wire.Encode.{encode_definition}
use assembled_watchtower.Conditions.Types.{RuleConfig}
use assembled_watchtower.Conditions.Reducer.{new}
use assembled_watchtower.App.Request.{ActiveRule, less_rule, repeats}
use assembled_watchtower.Evaluation.Types.{RuleKey, Activation, Runtime}

pub data ActivateError : Type 0 where
  id_missing : ActivateError
  revision_not_positive : ActivateError
  duplicate_revision : ActivateError
  compile_failed : CompileError → ActivateError
  signature_failed : ActivateError
  -- The panic of a reducer on a negative duration.
  reducer_panics : ActivateError

unfoldable pub key_of : ActiveRule → RuleKey
key_of r = record { id = r.id; revision = r.revision }

unfoldable pub config_of : ActiveRule → CompiledPlan → RuleConfig
config_of r plan = record {
  rule_id = r.id;
  revision = r.revision;
  trigger_duration = plan.trigger_for;
  clear_duration = plan.clear_for;
}

module _ (render : Json → Str) where
  unfoldable pub definition_signature : RuleDefinition → Option Str
  definition_signature d = elim (encode_definition d) [ none ↦ none | some j ↦ some (render j) ]

  -- One round of the loop, behind the tests on the rule's ID and revision.
  unfoldable pub activate_rule : Option GroupResolver → ActiveRule → ActivateError ⊎ Activation
  activate_rule resolver r = elim (compile r.definition resolver) [
    | inl e ↦ inl (compile_failed e)
    | inr plan ↦ elim (definition_signature r.definition) [
      | none ↦ inl signature_failed
      | some text ↦ elim (new (config_of r plan)) [
        | none ↦ inl reducer_panics
        | some reducer ↦ inr (record { signature = text; plan = plan; reducer = reducer })
      ]
    ]
  ]

  -- The loop over the sorted rules, with the rule before.
  unfoldable pub activate_rules :
      Option GroupResolver
      → Option ActiveRule
      → List ActiveRule
      → ActivateError ⊎ List (RuleKey × Activation)
  activate_rules resolver before [] = inr []
  activate_rules resolver before (r ∷ rs) =
      let rest = activate_rules resolver (some r) rs in
      if is_empty r.id
      then inl id_missing
      else if not (ltb_ℤ (pos 0) r.revision)
      then inl revision_not_positive
      else if repeats before r
      then inl duplicate_revision
      else (elim (activate_rule resolver r) [
        | inl e ↦ inl e
        | inr a ↦ elim rest [ inl e ↦ inl e | inr es ↦ inr ((key_of r, a) ∷ es) ]
      ])

  unfoldable pub activate : List ActiveRule → Option GroupResolver → ActivateError ⊎ Runtime
  activate rules resolver = elim (activate_rules resolver none (sort less_rule rules)) [
    | inl e ↦ inl e
    | inr es ↦ inr (record { active = es; logical = zero_time })
  ]
