-- ===== src/Alerts/Types.antt =====
-- The data of internal/alerts/alerts.go.
use assembled_watchtower.Base.{ℕ, ◌+◌, List, Bool, Str, codes, ℤ, ℕ_discrete}
use assembled_watchtower.Base.Time.{Time}

pub record SeriesKey : Type 0 where
  pub rule_id : Str
  pub subject_kind : Str
  pub subject_id : Str

unfoldable pub SeriesKey-discrete : Discrete SeriesKey
SeriesKey-discrete = hlevel ℕ_discrete

pub record Contributor : Type 0 where
  pub episode_id : Str
  pub revision : ℤ
  pub opened_at : Time
  pub evidence_at : Time

pub record Episode : Type 0 where
  pub id : Str
  pub series : SeriesKey
  pub revision : ℤ
  pub opened : Bool
  pub at : Time
  pub effective_at : Time
  pub evidence_at : Time

-- `Open` is `opened`; `other n` is the uint8 n + 2, which names no constant.
pub data TransitionKind : Type 0 where
  opened recovery : TransitionKind
  other : ℕ → TransitionKind

unfoldable pub TransitionKind-discrete : Discrete TransitionKind
TransitionKind-discrete = hlevel ℕ_discrete

-- `TransitionKind.String`
unfoldable pub kind_string : TransitionKind → Str
kind_string TransitionKind.recovery = codes "recovery"
kind_string _ = codes "open"

-- The uint8 itself, as `%d` prints it.
unfoldable pub kind_number : TransitionKind → ℕ
kind_number TransitionKind.opened = 0
kind_number TransitionKind.recovery = 1
kind_number (TransitionKind.other n) = n + 2

pub record Transition : Type 0 where
  pub id : Str
  pub series : SeriesKey
  pub series_id : Str
  pub generation : ℕ
  pub kind : TransitionKind
  pub at : Time
  pub effective_at : Time
  pub evidence_at : Time
  pub episode_id : Str
  pub revision : ℤ

-- `seriesState`: the fields of `Series` that it keeps, and the map of contributors. (The list of
-- contributors inside its `Series` is nil; `copySeries` fills it in.)
pub record SeriesState : Type 0 where
  pub key : SeriesKey
  pub id : Str
  pub generation : ℕ
  pub is_open : Bool
  pub contributors : List (Str × Contributor)

pub record Reducer : Type 0 where
  pub series : List (SeriesKey × SeriesState)
  pub closed : List Str
  pub transitions : List Transition
