-- ===== src/Conditions/Enums.antt =====
-- The enumerations of internal/conditions/conditions.go. A uint8 that names no constant is `other` in
-- the two that callers give; only the reducer sets the phases.
use Prim.Native.Nat.{ℕ}
use native.Mathlib.Decide.{ℕ_discrete}

pub data Result : Type 0 where
  unknown false true : Result
  other : ℕ → Result

pub data Direction : Type 0 where
  trigger clear : Direction
  other : ℕ → Direction

-- The reducer's own `phase`, with the source's names.
pub data Phase : Type 0 where
  inactive triggering active clearing : Phase

-- The externally visible `Phase`.
pub data VisiblePhase : Type 0 where
  inactive pending_trigger active pending_clear : VisiblePhase

unfoldable pub Result-discrete : Discrete Result
Result-discrete = hlevel ℕ_discrete

unfoldable pub Direction-discrete : Discrete Direction
Direction-discrete = hlevel ℕ_discrete

unfoldable pub Phase-discrete : Discrete Phase
Phase-discrete = hlevel
