-- ===== src/Evaluation/Types.antt =====
-- The runtime's data, of internal/evaluation/runtime.go. The slice of activations and the map from
-- a rule's key to the index in it are one association list in the slice's order. A runtime is
-- not nil here.
use assembled_watchtower.Base.{List, Str, ℤ, ℕ_discrete}
use assembled_watchtower.Base.Time.{Time}
use assembled_watchtower.Rules.Compile.{CompiledPlan}
use assembled_watchtower.Rules.Evaluate.{FieldLookup}
use assembled_watchtower.Conditions.Types.{Reducer}

pub record RuleKey : Type 0 where
  pub id : Str
  pub revision : ℤ

unfoldable pub RuleKey-discrete : Discrete RuleKey
RuleKey-discrete = hlevel ℕ_discrete

pub record Activation : Type 0 where
  pub signature : Str
  pub plan : CompiledPlan
  pub reducer : Reducer

pub record Runtime : Type 0 where
  pub active : List (RuleKey × Activation)
  pub logical : Time

pub record ResolvedTarget : Type 0 where
  pub kind : Str
  pub id : Str

pub record Evidence : Type 0 where
  pub lookup : FieldLookup
  pub true_since : Time
  pub clear_true_since : Time
  pub reason : Str
