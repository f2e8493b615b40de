-- ===== src/App/Unique.antt =====
-- When a semantic commit is made: `uniqueIDs` tests that IDs are there and distinct.
use assembled_watchtower.Base.{
  ◌≡◌, ◌≢◌, ◌↔◌, refl, List, [], ◌∷◌, Option, none, false, ltb, Str, Str-discrete, has, is_empty,
  arith, All, All-map, inl, inr, Option-cases,
}
use assembled_watchtower.Base.Time.{Time, is_zero}
use assembled_watchtower.App.Occurrence.{AcceptedOccurrence, validate}
use assembled_watchtower.Conditions.Types as Conditions
use assembled_watchtower.Alerts.Types as Alerts
use assembled_watchtower.Notifications.Planner as Notifications
use assembled_watchtower.App.Commit.{
  CommitError, unique_from, unique_ids, condition_transition_ids, alert_transition_ids,
  notification_intent_ids, validate_ids, validate_commit, new_semantic_commit,
}

-- IDs that are there, each once.
abbrev pub Distinct : List Str → Type 0
Distinct [] = Unit
Distinct (id ∷ ids) = (is_empty id ≡ false) × All (λ j. id ≢ j) ids × Distinct ids

unique_from-Distinct :
    (seen ids : List Str)
    → unique_from seen ids ≡ none
    → Distinct ids × All (λ i. has Str-discrete i seen ≡ false) ids
unfolding unique_from has
unique_from-Distinct seen [] h = (tt, tt)
unique_from-Distinct seen (id ∷ ids) h =
    let rest : unique_from (id ∷ seen) ids ≡ none = ground (arith, h) in
    let (distinct, fresh) = unique_from-Distinct (id ∷ seen) ids rest in
    (
      (
        ground (arith, h),
        All-map _ (λ j. id ≢ j) ids (λ j k e. ground (arith, k, e)) fresh,
        distinct,
      ),
      (ground (arith, h), All-map _ _ ids (λ j k. ground (arith, k)) fresh),
    )

has-other :
    (id : Str) (seen ids : List Str)
    → All (λ j. id ≢ j) ids
    → All (λ i. has Str-discrete i seen ≡ false) ids
    → All (λ i. has Str-discrete i (id ∷ seen) ≡ false) ids
unfolding has
has-other id seen [] others f = tt
has-other id seen (j ∷ ids) (other, others) (fresh, f) =
    (ground (arith, other, fresh), has-other id seen ids others f)

Distinct-unique_from :
    (seen ids : List Str)
    → Distinct ids
    → All (λ i. has Str-discrete i seen ≡ false) ids
    → unique_from seen ids ≡ none
unfolding unique_from has
Distinct-unique_from seen [] d f = refl
Distinct-unique_from seen (id ∷ ids) (named, others, d) (fresh, f) =
    let rest = Distinct-unique_from (id ∷ seen) ids d (has-other id seen ids others f) in
    ground (arith, named, fresh, rest)

unique_ids-Distinct : (ids : List Str) → (unique_ids ids ≡ none) ↔ Distinct ids
unfolding unique_ids has
unique_ids-Distinct ids =
    (λ h. (unique_from-Distinct [] ids h).0, λ d. Distinct-unique_from [] ids d (none-has ids))
  where
    none-has : (js : List Str) → All (λ j. has Str-discrete j [] ≡ false) js
    none-has [] = tt
    none-has (j ∷ js) = (refl, none-has js)

-- The occurrence is valid, and the logical time is set and not before it.
abbrev pub IsTimely : AcceptedOccurrence → Time → Type 0
IsTimely o logical =
    (validate o ≡ none) × (is_zero logical ≡ false) × (ltb logical o.effective_at ≡ false)

validate_commit-Timely :
    (o : AcceptedOccurrence) (logical : Time) (rest : Option CommitError)
    → (validate_commit o logical rest ≡ none) ↔ (IsTimely o logical × (rest ≡ none))
unfolding validate_commit
validate_commit-Timely o logical rest = elim (Option-cases (validate o)) [
  | inr (e, k) ↦ (λ h. absurd (ground (arith, h, k)), λ h. absurd (ground (arith, (h.0).0, k)))
  | inl k ↦ (
    λ h. ((k, ground (arith, h, k), ground (arith, h, k)), ground (arith, h, k)),
    λ h. ground (arith, (h.0).1, (h.0).2, h.1, k),
  )
]

validate_ids-Distinct :
    (conditions : List Conditions.Transition) (alerts : List Alerts.Transition)
    (intents : List Notifications.Intent)
    → (validate_ids conditions alerts intents ≡ none) ↔ (
        Distinct (condition_transition_ids conditions)
        × Distinct (alert_transition_ids alerts)
        × Distinct (notification_intent_ids intents))
unfolding validate_ids
validate_ids-Distinct conditions alerts intents =
    let (c, c') = unique_ids-Distinct (condition_transition_ids conditions) in
    let (a, a') = unique_ids-Distinct (alert_transition_ids alerts) in
    let (i, i') = unique_ids-Distinct (notification_intent_ids intents) in
    (
      λ h. (c (ground (arith, h)), a (ground (arith, h)), i (ground (arith, h))),
      λ d. ground (arith, c' d.0, a' d.1, i' d.2),
    )

-- A commit is made exactly if its occurrence is valid, its logical time is set and not before the
-- occurrence, and the IDs of its condition transitions, of its alert transitions and of its
-- notification intents are not empty and distinct, kind by kind; it then holds what was passed.
pub new_semantic_commit-made :
    (o : AcceptedOccurrence) (logical : Time) (conditions : List Conditions.Transition)
    (alerts : List Alerts.Transition) (intents : List Notifications.Intent)
    → (new_semantic_commit o logical conditions alerts intents
        ≡ inr (record {
          occurrence = o;
          logical_time = logical;
          condition_transitions = conditions;
          alert_transitions = alerts;
          notification_intents = intents;
        }))
      ↔ (IsTimely o logical
          × Distinct (condition_transition_ids conditions)
          × Distinct (alert_transition_ids alerts)
          × Distinct (notification_intent_ids intents))
unfolding new_semantic_commit
new_semantic_commit-made o logical conditions alerts intents =
    let ids = validate_ids conditions alerts intents in
    let (d, d') = validate_ids-Distinct conditions alerts intents in
    let (t, t') = validate_commit-Timely o logical ids in
    elim (Option-cases (validate_commit o logical ids)) [
      | inl e ↦ (
        λ h. let (timely, unique) = t e in let (c, a, i) = d unique in (timely, c, a, i),
        λ h. ground (arith, e),
      )
      | inr (x, e) ↦ (
        λ h. absurd (ground (arith, h, e)),
        λ h. absurd (ground (arith, t' (h.0, d' (h.1, h.2, h.3)), e)),
      )
    ]
