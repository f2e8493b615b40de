-- ===== src/Conditions/Types.antt =====
-- The data of internal/conditions/conditions.go: keys, observations, transitions, episodes, the
-- reducer's configuration and its state for each key.
use assembled_watchtower.Base.{
  ℕ, List, [], Option, none, some, Bool, true, false, Str, codes, ℤ, ℕ_discrete,
}
use assembled_watchtower.Base.Time.{Time, zero_time}
use assembled_watchtower.Conditions.Enums.{Result, Direction, Phase}

pub record SubjectKey : Type 0 where
  pub kind : Str
  pub id : Str

pub record ConditionKey : Type 0 where
  pub rule_id : Str
  pub revision : ℤ
  pub subject : SubjectKey

unfoldable pub ConditionKey-discrete : Discrete ConditionKey
ConditionKey-discrete = hlevel ℕ_discrete

pub record Times : Type 0 where
  pub effective_at : Time
  pub due_at : Time
  pub processing_at : Time
  pub evidence_at : Time

pub record Observation : Type 0 where
  pub key : ConditionKey
  pub direction : Direction
  pub result : Result
  pub effective_at : Time
  pub processing_at : Time
  pub evidence_at : Time
  pub true_since : Time
  pub observation_id : Str
  pub reason : Str

pub record Transition : Type 0 where
  pub id : Str
  pub episode_id : Str
  pub key : ConditionKey
  pub direction : Direction
  pub at : Time
  pub times : Times
  pub reason : Str
  pub attempt : ℕ

pub record Episode : Type 0 where
  pub id : Str
  pub key : ConditionKey
  pub trigger : Transition
  pub clear : Option Transition
  pub opened_at : Time
  pub closed_at : Time

-- `Episode.Open`
pub is_open : Episode → Bool
is_open e = elim e.clear [ none ↦ true | some c ↦ false ]

pub record RuleConfig : Type 0 where
  pub rule_id : Str
  pub revision : ℤ
  pub trigger_duration : ℤ
  pub clear_duration : ℤ

pub record TrackerState : Type 0 where
  pub phase : Phase
  pub attempt : ℕ
  pub started_at : Time
  pub effective_at : Time
  pub evidence_at : Time
  pub reason : Str
  pub episode_id : Str
  pub sequence : ℕ

-- `&trackerState{}`
abbrev pub empty_tracker : TrackerState
empty_tracker = record {
  phase = Phase.inactive;
  attempt = 0;
  started_at = zero_time;
  effective_at = zero_time;
  evidence_at = zero_time;
  reason = [];
  episode_id = [];
  sequence = 0;
}

pub record Timer : Type 0 where
  pub key : ConditionKey
  pub direction : Direction
  pub due_at : Time
  pub attempt : ℕ

-- `states` and `episodes` are maps, `seen_occurrences` is a set.
pub record Reducer : Type 0 where
  pub config : RuleConfig
  pub states : List (ConditionKey × TrackerState)
  pub seen_occurrences : List Str
  pub episodes : List (Str × Episode)
  pub transitions : List Transition
  pub logical : Time

-- `Direction.String`
unfoldable pub direction_string : Direction → Str
direction_string Direction.clear = codes "clear"
direction_string _ = codes "trigger"

unfoldable pub phase_for : Direction → Phase
phase_for Direction.clear = Phase.clearing
phase_for _ = Phase.triggering

unfoldable pub direction_for : Phase → Direction
direction_for Phase.clearing = Direction.clear
direction_for _ = Direction.trigger
