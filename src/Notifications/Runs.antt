-- ===== src/Notifications/Runs.antt =====
-- Sequences of calls on the delivery reducer: deliveries stay fenced, a stale token finishes
-- nothing, and a delivered intent is delivered for good.
use assembled_watchtower.Base.{
  ℕ, ◌≡◌, ◌≢◌, refl, sym, ◌∙◌, ap, ◌⊎◌, inl, inr, List, [], ◌∷◌, Option, none, some, false, not,
  ◌||◌, same, Str, codes, Str-discrete, arith, lookup-insert, Bool-cases, Option-cases, length,
  subst,
}
use assembled_watchtower.Base.Time.{Time}
use assembled_watchtower.Ids.Decimal.{format_uint-injective}
use assembled_watchtower.Ids.Parts.{stable_id-injective}
use assembled_watchtower.Notifications.Planner.{Intent}
use assembled_watchtower.Notifications.Delivery.{
  DeliveryStatus, Delivery, DeliveryReducer, new, find, put, new_delivery, ensure, claim_token,
  is_status, claim, begin, finish_last, finish, complete, fail,
}
use assembled_watchtower.Notifications.Fencing.{
  claimed, IsFenced, IsCoherent, new-IsCoherent, ensure-IsCoherent, begin-IsCoherent,
  put-IsCoherent, finish_last-Finished, LastClaimed,
}

-- A call that finishes is refused, or is made with the token of the open claim.
finish-cases :
    (status : DeliveryStatus) (error : Option Str) (r : DeliveryReducer) (id token : Str)
    (at : Time)
    → (finish status error r id token at ≡ (r, none))
      ⊎ ((d : Delivery) × (find r id ≡ some d) × (d.status ≡ claimed) × (d.claim_token ≡ token))
unfolding finish
finish-cases status error r id token at = elim (Option-cases (find r id)) [
  | inl e ↦ inl (rw (e, finish) refl)
  | inr (d, e) ↦
      elim (Bool-cases
        (not (is_status d.status claimed) || not (same Str-discrete d.claim_token token))) [
          | inl refused ↦ inl (rw (e, finish, refused) refl)
          | inr open_claim ↦ inr (d, e, ground arith, ground arith)
        ]
]

finish-IsCoherent :
    (status : DeliveryStatus) (error : Option Str) (r : DeliveryReducer) (id token : Str)
    (at : Time)
    → is_status status claimed ≡ false
    → IsCoherent r
    → IsCoherent (finish status error r id token at).0
unfolding finish
finish-IsCoherent status error r id token at s c = elim (finish-cases status error r id token at) [
  | inl e ↦ rw e c
  | inr (d, e, held, same_token) ↦ elim (c.fenced id d e).held [
    | inr (free, _, _) ↦ absurd (ground (arith, free, held))
    | inl (_, current, last) ↦
        let f = c.fenced id d e in
        let (written, w, done) =
          finish_last-Finished id token error status at 1 d.attempts s f.numbered
            (subst (λ x. LastClaimed x d.attempts) same_token last) in
        let d' : Delivery = record d { status = status; claim_token = []; attempts = written } in
        let fenced : IsFenced id d' = record {
          numbered = done.kept;
          held = inr (s, refl, done.free);
          delivered_once = done.count ∙ ground (arith, f.delivered_once, held);
        } in
        subst IsCoherent (sym (ground (arith, e, held, same_token, w)))
          (put-IsCoherent r id d' fenced c)
  ]
]

pub data Call : Type 0 where
  ensures : Intent → Call
  begins : Str → Time → Call
  completes : Str → Str → Time → Call
  fails : Str → Str → Time → Option Str → Call

unfoldable pub step : DeliveryReducer → Call → DeliveryReducer
step r (ensures i) = (ensure r i).0
step r (begins id at) = (begin r id at).0
step r (completes id token at) = (complete r id token at).0
step r (fails id token at error) = (fail r id token at error).0

unfoldable pub run : DeliveryReducer → List Call → DeliveryReducer
run r [] = r
run r (c ∷ cs) = run (step r c) cs

step-IsCoherent : (r : DeliveryReducer) (c : Call) → IsCoherent r → IsCoherent (step r c)
unfolding step complete fail
step-IsCoherent r (ensures i) c = ensure-IsCoherent r i c
step-IsCoherent r (begins id at) c = begin-IsCoherent r id at c
step-IsCoherent r (completes id token at) c =
    finish-IsCoherent DeliveryStatus.delivered none r id token at (ground arith) c
step-IsCoherent r (fails id token at error) c =
    finish-IsCoherent DeliveryStatus.failed error r id token at (ground arith) c

run-IsCoherent : (r : DeliveryReducer) (cs : List Call) → IsCoherent r → IsCoherent (run r cs)
unfolding run
run-IsCoherent r [] c = c
run-IsCoherent r (call ∷ cs) c = run-IsCoherent (step r call) cs (step-IsCoherent r call c)

-- After any calls on a new delivery reducer every delivery is fenced: its attempts are numbered from
-- one and carry the tokens of their numbers; it is claimed exactly while its last attempt is, under
-- that attempt's token, and no earlier attempt is ever claimed; and the attempts that delivered it
-- are one if it is delivered and none otherwise.
pub delivery_run-IsCoherent : (cs : List Call) → IsCoherent (run new cs)
delivery_run-IsCoherent cs = run-IsCoherent new cs new-IsCoherent

claim_token-injective : (id : Str) (m n : ℕ) → claim_token id m ≡ claim_token id n → m ≡ n
unfolding claim_token
claim_token-injective id m n h =
    format_uint-injective m n (cc (stable_id-injective (codes "delivery-claim") _ _ h))

stale_refused :
    (status : DeliveryStatus) (error : Option Str) (r : DeliveryReducer) (id : Str) (d : Delivery)
    (n : ℕ) (at : Time)
    → IsCoherent r
    → find r id ≡ some d
    → n ≢ length d.attempts
    → finish status error r id (claim_token id n) at ≡ (r, none)
stale_refused status error r id d n at c found stale =
    elim (finish-cases status error r id (claim_token id n) at) [
      | inl e ↦ e
      | inr (d', e, held, token) ↦
          let same_delivery : d' ≡ d = ground arith in
          elim (c.fenced id d found).held [
            | inr (free, _, _) ↦ absurd (ground (arith, free, held, same_delivery))
            | inl (_, current, last) ↦ absurd (
                stale (
                  claim_token-injective id n (length d.attempts)
                    (sym token ∙ ap (λ (x : Delivery). x.claim_token) same_delivery ∙ current)))
          ]
    ]

-- In a reducer whose deliveries are fenced, the token of any attempt but the last finishes nothing:
-- neither `Complete` nor `Fail` with it has an effect.
pub stale_token_refused :
    (r : DeliveryReducer) (id : Str) (d : Delivery) (n : ℕ) (at : Time) (error : Option Str)
    → IsCoherent r
    → find r id ≡ some d
    → n ≢ length d.attempts
    → (complete r id (claim_token id n) at ≡ (r, none))
      × (fail r id (claim_token id n) at error ≡ (r, none))
unfolding complete fail
stale_token_refused r id d n at error c found stale = (
  stale_refused DeliveryStatus.delivered none r id d n at c found stale,
  stale_refused DeliveryStatus.failed error r id d n at c found stale,
)

-- The delivery of an intent is this one, and is delivered.
abbrev Settled : Str → Delivery → DeliveryReducer → Type 0
Settled id d r = (find r id ≡ some d) × (d.status ≡ DeliveryStatus.delivered)

begin-Settled :
    (id : Str) (d : Delivery) (r : DeliveryReducer) (other : Str) (at : Time)
    → Settled id d r
    → Settled id d (begin r other at).0
unfolding begin put find
begin-Settled id d r other at h = elim (Option-cases (find r other)) [
  | inl e ↦ ground (arith, h.0, h.1, e)
  | inr (o, e) ↦
      ground
        (arith, h.0, h.1, e, lookup-insert Str-discrete other id (claim other o at) r.deliveries)
]

finish-Settled :
    (id : Str) (d : Delivery) (r : DeliveryReducer) (status : DeliveryStatus) (error : Option Str)
    (other token : Str) (at : Time)
    → Settled id d r
    → Settled id d (finish status error r other token at).0
finish-Settled id d r status error other token at h =
    elim (finish-cases status error r other token at) [
      | inl e ↦ rw e h
      | inr (o, e, held, same_token) ↦
          elim (Option-cases (finish_last status at error token o.attempts)) [
            | inl w ↦ unfold finish put find in ground (arith, h.0, h.1, e, held, same_token, w)
            | inr (written, w) ↦
                unfold finish put find in
                ground (
                  arith,
                  h.0,
                  h.1,
                  e,
                  held,
                  same_token,
                  w,
                  lookup-insert Str-discrete other id
                      (record o { status = status; claim_token = []; attempts = written })
                      r.deliveries,
                )
          ]
    ]

ensure-Settled :
    (id : Str) (d : Delivery) (r : DeliveryReducer) (i : Intent)
    → Settled id d r
    → Settled id d (ensure r i).0
unfolding ensure put find
ensure-Settled id d r i h =
    ground (arith, h.0, h.1, lookup-insert Str-discrete i.id id (new_delivery i.id) r.deliveries)

step-Settled :
    (id : Str) (d : Delivery) (r : DeliveryReducer) (c : Call)
    → Settled id d r
    → Settled id d (step r c)
unfolding step complete fail
step-Settled id d r (ensures i) h = ensure-Settled id d r i h
step-Settled id d r (begins other at) h = begin-Settled id d r other at h
step-Settled id d r (completes other token at) h =
    finish-Settled id d r DeliveryStatus.delivered none other token at h
step-Settled id d r (fails other token at error) h =
    finish-Settled id d r DeliveryStatus.failed error other token at h

run-Settled :
    (id : Str) (d : Delivery) (r : DeliveryReducer) (cs : List Call)
    → Settled id d r
    → Settled id d (run r cs)
unfolding run
run-Settled id d r [] h = h
run-Settled id d r (c ∷ cs) h = run-Settled id d (step r c) cs (step-Settled id d r c h)

-- A delivered intent stays as it is: after any further calls its delivery is the same, and no call
-- of `Begin`, `Complete` or `Fail` for it has an effect.
pub delivered_for_good :
    (r : DeliveryReducer) (id : Str) (d : Delivery) (cs : List Call) (token : Str) (at : Time)
    (error : Option Str)
    → find r id ≡ some d
    → d.status ≡ DeliveryStatus.delivered
    → let r' = run r cs in
      (find r' id ≡ some d)
      × (begin r' id at ≡ (r', none))
      × (complete r' id token at ≡ (r', none))
      × (fail r' id token at error ≡ (r', none))
delivered_for_good r id d cs token at error found done =
    let h = run-Settled id d r cs (found, done) in
    (
      h.0,
      unfold begin in ground (arith, h.0, done),
      unfold complete finish in ground (arith, h.0, done),
      unfold fail finish in ground (arith, h.0, done),
    )
