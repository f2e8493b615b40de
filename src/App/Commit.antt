-- ===== src/App/Commit.antt =====
-- `NewSemanticCommit` and `uniqueIDs` of internal/app/contracts.go. The result copies its slices;
-- the lists here are immutable.
use assembled_watchtower.Base.{
  List, [], ◌∷◌, map, Option, none, some, ltb, if◌then◌else◌, Str, Str-discrete, has, is_empty, ◌⊎◌,
  inl, inr,
}
use assembled_watchtower.Base.Time.{Time, is_zero}
use assembled_watchtower.App.Occurrence.{AcceptedOccurrence, OccurrenceError, validate}
use assembled_watchtower.Conditions.Types as Conditions
use assembled_watchtower.Alerts.Types as Alerts
use assembled_watchtower.Notifications.Planner as Notifications

pub record SemanticCommit : Type 0 where
  pub occurrence : AcceptedOccurrence
  pub logical_time : Time
  pub condition_transitions : List Conditions.Transition
  pub alert_transitions : List Alerts.Transition
  pub notification_intents : List Notifications.Intent

-- What `uniqueIDs` reports.
pub data IdError : Type 0 where
  id_missing : IdError
  duplicate_id : Str → IdError

pub data CommitError : Type 0 where
  invalid_occurrence : OccurrenceError → CommitError
  logical_time_missing : CommitError
  logical_time_early : CommitError
  condition_ids : IdError → CommitError
  alert_ids : IdError → CommitError
  intent_ids : IdError → CommitError

-- The loop of `uniqueIDs`, with the IDs it has seen.
unfoldable pub unique_from : List Str → List Str → Option IdError
unique_from seen [] = none
unique_from seen (id ∷ ids) =
    let rest = unique_from (id ∷ seen) ids in
    if is_empty id
    then some id_missing
    else if has Str-discrete id seen
    then some (duplicate_id id)
    else rest

unfoldable pub unique_ids : List Str → Option IdError
unique_ids ids = unique_from [] ids

abbrev pub condition_transition_ids : List Conditions.Transition → List Str
condition_transition_ids ts = map (λ (t : Conditions.Transition). t.id) ts

abbrev pub alert_transition_ids : List Alerts.Transition → List Str
alert_transition_ids ts = map (λ (t : Alerts.Transition). t.id) ts

abbrev pub notification_intent_ids : List Notifications.Intent → List Str
notification_intent_ids ts = map (λ (i : Notifications.Intent). i.id) ts

-- The tests on the IDs, in order.
unfoldable pub validate_ids :
    List Conditions.Transition
    → List Alerts.Transition
    → List Notifications.Intent
    → Option CommitError
validate_ids conditions alerts intents = elim (unique_ids (condition_transition_ids conditions)) [
  | some e ↦ some (condition_ids e)
  | none ↦ elim (unique_ids (alert_transition_ids alerts)) [
    | some e ↦ some (alert_ids e)
    | none ↦ elim (unique_ids (notification_intent_ids intents)) [
      | some e ↦ some (intent_ids e)
      | none ↦ none
    ]
  ]
]

unfoldable pub validate_commit : AcceptedOccurrence → Time → Option CommitError → Option CommitError
validate_commit o logical rest = elim (validate o) [
  | some e ↦ some (invalid_occurrence e)
  | none ↦
      if is_zero logical
      then some logical_time_missing
      else if ltb logical o.effective_at
      then some logical_time_early
      else rest
]

unfoldable pub new_semantic_commit :
    AcceptedOccurrence
    → Time
    → List Conditions.Transition
    → List Alerts.Transition
    → List Notifications.Intent
    → CommitError ⊎ SemanticCommit
new_semantic_commit o logical conditions alerts intents =
    elim (validate_commit o logical (validate_ids conditions alerts intents)) [
      | some e ↦ inl e
      | none ↦ inr (record {
        occurrence = o;
        logical_time = logical;
        condition_transitions = conditions;
        alert_transitions = alerts;
        notification_intents = intents;
      })
    ]
