-- ===== src/Notifications/Delivery.antt =====
-- `DeliveryReducer`: its data, `Ensure`, `Begin`, `Complete` and `Fail`. Each call takes the mutex
-- for its whole body, so calls are steps. A call returns the reducer after it and its results; the
-- zero `Delivery` with `false` is `none`.
use assembled_watchtower.Base.{
  ℕ, ◌+◌, List, [], ◌∷◌, ◌++◌, Option, none, some, Bool, not, ◌&&◌, ◌||◌, if◌then◌else◌, same, Str,
  codes, Str-discrete, ℕ_discrete, lookup, insert, length,
}
use assembled_watchtower.Base.Time.{Time, zero_time}
use assembled_watchtower.Ids.{format_uint, canonical_parts, stable_id}
use assembled_watchtower.Notifications.Planner.{Intent}

-- `other n` is the uint8 n + 4, which names no constant.
pub data DeliveryStatus : Type 0 where
  pending claimed delivered failed : DeliveryStatus
  other : ℕ → DeliveryStatus

unfoldable pub DeliveryStatus-discrete : Discrete DeliveryStatus
DeliveryStatus-discrete = hlevel ℕ_discrete

pub record DeliveryAttempt : Type 0 where
  pub number : ℕ
  pub token : Str
  pub status : DeliveryStatus
  pub started_at : Time
  pub finished_at : Time
  pub error : Str

pub record Delivery : Type 0 where
  pub intent_id : Str
  pub status : DeliveryStatus
  pub claim_token : Str
  pub attempts : List DeliveryAttempt

pub record DeliveryReducer : Type 0 where
  pub deliveries : List (Str × Delivery)

abbrev pub new : DeliveryReducer
new = record { deliveries = [] }

unfoldable pub find : DeliveryReducer → Str → Option Delivery
find r id = lookup Str-discrete id r.deliveries

unfoldable pub put : DeliveryReducer → Str → Delivery → DeliveryReducer
put r id d = record { deliveries = insert Str-discrete id d r.deliveries }

abbrev pub new_delivery : Str → Delivery
new_delivery id = record {
  intent_id = id;
  status = DeliveryStatus.pending;
  claim_token = [];
  attempts = [];
}

unfoldable pub ensure : DeliveryReducer → Intent → DeliveryReducer × Delivery
ensure r i = elim (find r i.id) [
  | some d ↦ (r, d)
  | none ↦ (put r i.id (new_delivery i.id), new_delivery i.id)
]

-- The token of an attempt.
unfoldable pub claim_token : Str → ℕ → Str
claim_token id n = stable_id (codes "delivery-claim") (canonical_parts (id ∷ format_uint n ∷ []))

abbrev pub is_status : DeliveryStatus → DeliveryStatus → Bool
is_status s t = same DeliveryStatus-discrete s t

-- The delivery after a new claim.
unfoldable pub claim : Str → Delivery → Time → Delivery
claim id d at =
    let n = length d.attempts + 1 in
    record d {
      status = DeliveryStatus.claimed;
      claim_token = claim_token id n;
      attempts =
          d.attempts
          ++ (record {
            number = n;
            token = claim_token id n;
            status = DeliveryStatus.claimed;
            started_at = at;
            finished_at = zero_time;
            error = [];
          })
            ∷ [];
    }

unfoldable pub begin : DeliveryReducer → Str → Time → DeliveryReducer × Option Delivery
begin r id at = elim (find r id) [
  | none ↦ (r, none)
  | some d ↦
      if is_status d.status DeliveryStatus.delivered || is_status d.status DeliveryStatus.claimed
      then (r, none)
      else (put r id (claim id d at), some (claim id d at))
]

-- `nil` leaves an attempt's text as it is.
unfoldable pub error_after : Option Str → Str → Str
error_after none text = text
error_after (some e) text = e

-- A write to the last attempt: `none` if there is none, or if it is not claimed under the token.
unfoldable pub finish_last :
    DeliveryStatus → Time → Option Str → Str → List DeliveryAttempt → Option (List DeliveryAttempt)
finish_last status at error token [] = none
finish_last status at error token (a ∷ []) =
    if is_status a.status DeliveryStatus.claimed && same Str-discrete a.token token
    then some
        (record a { status = status; finished_at = at; error = error_after error a.error } ∷ [])
    else none
finish_last status at error token (a ∷ b ∷ rest) =
    elim (finish_last status at error token (b ∷ rest)) [
      | none ↦ none
      | some written ↦ some (a ∷ written)
    ]

-- What `Complete` and `Fail` share: the tests of the claim, and the writes.
unfoldable pub finish :
    DeliveryStatus
    → Option Str
    → DeliveryReducer
    → Str
    → Str
    → Time
    → DeliveryReducer × Option Delivery
finish status error r id token at = elim (find r id) [
  | none ↦ (r, none)
  | some d ↦
      if not (is_status d.status DeliveryStatus.claimed)
        || not (same Str-discrete d.claim_token token)
      then (r, none)
      else (elim (finish_last status at error token d.attempts) [
        | none ↦ (r, none)
        | some written ↦
            let d' : Delivery = record d {
              status = status;
              claim_token = [];
              attempts = written;
            } in
            (put r id d', some d')
      ])
]

unfoldable pub complete : DeliveryReducer → Str → Str → Time → DeliveryReducer × Option Delivery
complete = finish DeliveryStatus.delivered none

-- `none` is the nil error.
unfoldable pub fail :
    DeliveryReducer → Str → Str → Time → Option Str → DeliveryReducer × Option Delivery
fail r id token at error = finish DeliveryStatus.failed error r id token at
