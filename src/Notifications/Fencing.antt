-- ===== src/Notifications/Fencing.antt =====
-- Claims fence one another: at most one is open, only its own token finishes it, and an intent is
-- delivered at most once.
use assembled_watchtower.Base.{
  ℕ, suc, ◌+◌, ◌≡◌, refl, ◌∙◌, ap, ◌⊎◌, inl, inr, List, [], ◌∷◌, ◌++◌, Option, some, false, ◌||◌,
  if◌then◌else◌, Str, Str-discrete, arith, lookup, lookup-insert, Bool-cases, Option-cases, All,
  length, length-append, subst,
}
use assembled_watchtower.Base.Time.{Time, zero_time}
use assembled_watchtower.Notifications.Planner.{Intent}
use assembled_watchtower.Notifications.Delivery.{
  DeliveryStatus, DeliveryAttempt, Delivery, DeliveryReducer, new, find, put, new_delivery, ensure,
  claim_token, is_status, claim, begin, error_after, finish_last,
}

abbrev pub claimed : DeliveryStatus
claimed = DeliveryStatus.claimed

-- The attempts from number `n` on, each under the token of its number.
abbrev pub Numbered : Str → ℕ → List DeliveryAttempt → Type 0
Numbered id n [] = Unit
Numbered id n (a ∷ rest) = (a.number ≡ n) × (a.token ≡ claim_token id n) × Numbered id (suc n) rest

-- The last attempt is claimed under the token, and no attempt before it is.
abbrev pub LastClaimed : Str → List DeliveryAttempt → Type 0
LastClaimed token [] = ⊥
LastClaimed token (a ∷ []) = (a.status ≡ claimed) × (a.token ≡ token)
LastClaimed token (a ∷ b ∷ rest) =
    (is_status a.status claimed ≡ false) × LastClaimed token (b ∷ rest)

abbrev pub NoneClaimed : List DeliveryAttempt → Type 0
NoneClaimed = All (λ a. is_status a.status claimed ≡ false)

-- How many attempts delivered the intent.
abbrev pub deliveries : List DeliveryAttempt → ℕ
deliveries [] = 0
deliveries (a ∷ rest) =
    if is_status a.status DeliveryStatus.delivered then suc (deliveries rest) else deliveries rest

pub record IsFenced (id : Str) (d : Delivery) : Type 0 where
  pub numbered : Numbered id 1 d.attempts
  pub held :
      ((d.status ≡ claimed)
        × (d.claim_token ≡ claim_token id (length d.attempts))
        × LastClaimed d.claim_token d.attempts)
      ⊎ ((is_status d.status claimed ≡ false) × (d.claim_token ≡ []) × NoneClaimed d.attempts)
  pub delivered_once :
      deliveries d.attempts ≡ (if is_status d.status DeliveryStatus.delivered then 1 else 0)

Numbered-append :
    (id : Str) (n : ℕ) (l : List DeliveryAttempt) (a : DeliveryAttempt)
    → Numbered id n l
    → a.number ≡ n + length l
    → a.token ≡ claim_token id (n + length l)
    → Numbered id n (l ++ a ∷ [])
Numbered-append id n [] a h number token =
    let e : n + 0 ≡ n = omega arith in (number ∙ e, token ∙ ap (claim_token id) e, tt)
Numbered-append id n (x ∷ l) a h number token =
    let e : n + suc (length l) ≡ suc n + length l = omega arith in
    (h.0, h.1, Numbered-append id (suc n) l a h.2 (number ∙ e) (token ∙ ap (claim_token id) e))

LastClaimed-append :
    (token : Str) (l : List DeliveryAttempt) (a : DeliveryAttempt)
    → NoneClaimed l
    → a.status ≡ claimed
    → a.token ≡ token
    → LastClaimed token (l ++ a ∷ [])
LastClaimed-append token [] a h s t = (s, t)
LastClaimed-append token (x ∷ []) a h s t = (h.0, (s, t))
LastClaimed-append token (x ∷ y ∷ l) a h s t = (h.0, LastClaimed-append token (y ∷ l) a h.1 s t)

deliveries-append :
    (l : List DeliveryAttempt) (a : DeliveryAttempt)
    → deliveries (l ++ a ∷ [])
      ≡ deliveries l + (if is_status a.status DeliveryStatus.delivered then 1 else 0)
deliveries-append [] a = ground arith
deliveries-append (x ∷ l) a = ground (arith, deliveries-append l a)

claim-IsFenced :
    (id : Str) (d : Delivery) (at : Time)
    → is_status d.status DeliveryStatus.delivered ≡ false
    → is_status d.status claimed ≡ false
    → IsFenced id d
    → IsFenced id (claim id d at)
unfolding claim
claim-IsFenced id d at open_yet free f = record {
  numbered =
      Numbered-append id 1 d.attempts _ f.numbered (omega arith)
        (ap (claim_token id) (omega arith));
  held = inl (
    refl,
    ap (claim_token id) (omega (arith, length-append {0} d.attempts (attempt ∷ []))),
    LastClaimed-append _ d.attempts _ none_claimed refl refl,
  );
  delivered_once = deliveries-append d.attempts _ ∙ ground (arith, f.delivered_once, open_yet);
}
  where
    attempt : DeliveryAttempt
    attempt = record {
      number = length d.attempts + 1;
      token = claim_token id (length d.attempts + 1);
      status = claimed;
      started_at = at;
      finished_at = zero_time;
      error = [];
    }

    none_claimed : NoneClaimed d.attempts
    none_claimed = elim f.held [ inl h ↦ absurd (ground (arith, h.0, free)) | inr h ↦ h.2 ]

-- What a successful write to the last attempt leaves.
pub record Finished (id token : Str) (status : DeliveryStatus) (n : ℕ)
    (l written : List DeliveryAttempt) : Type 0 where
  pub kept : Numbered id n written
  pub free : NoneClaimed written
  pub count :
      deliveries written
      ≡ deliveries l + (if is_status status DeliveryStatus.delivered then 1 else 0)
  pub size : length written ≡ length l

pub finish_last-Finished :
    (id token : Str) (error : Option Str) (status : DeliveryStatus) (at : Time) (n : ℕ)
    (l : List DeliveryAttempt)
    → is_status status claimed ≡ false
    → Numbered id n l
    → LastClaimed token l
    → (written : List DeliveryAttempt) × (finish_last status at error token l ≡ some written)
      × Finished id token status n l written
unfolding finish_last
finish_last-Finished id token error status at n [] s h c = absurd c
finish_last-Finished id token error status at n (a ∷ []) s h c = (
  record a { status = status; finished_at = at; error = error_after error a.error } ∷ [],
  ground (arith, c.0, c.1),
  record { kept = (h.0, h.1, tt); free = (s, tt); count = ground (arith, c.0); size = refl },
)
finish_last-Finished id token error status at n (a ∷ b ∷ rest) s h c =
    let (written, e, f) =
      finish_last-Finished id token error status at (suc n) (b ∷ rest) s h.2 c.1 in
    (
      a ∷ written,
      rw e refl,
      record {
        kept = (h.0, h.1, f.kept);
        free = (c.0, f.free);
        count = ground (arith, f.count);
        size = ap suc f.size;
      },
    )

-- Every delivery of the reducer is fenced.
pub record IsCoherent (r : DeliveryReducer) : Type 0 where
  pub fenced : (id : Str) (d : Delivery) → find r id ≡ some d → IsFenced id d

pub put-IsCoherent :
    (r : DeliveryReducer) (id : Str) (d : Delivery)
    → IsFenced id d
    → IsCoherent r
    → IsCoherent (put r id d)
put-IsCoherent r id d f c = record {
  fenced = λ j e h.
      unfold put find in
      elim (Str-discrete id j) [
        | yes same_id ↦
            let found : d ≡ e =
              unfold put find in
              ground (arith, h, lookup-insert Str-discrete id j d r.deliveries) in
            subst (λ x. IsFenced x e) same_id (subst (IsFenced id) found f)
        | no other ↦
            c.fenced j e
              (unfold put find in ground (arith, h, lookup-insert Str-discrete id j d r.deliveries))
      ];
}

pub new-IsCoherent : IsCoherent new
unfolding find lookup
new-IsCoherent = record { fenced = λ id d h. cc }

pub ensure-IsCoherent :
    (r : DeliveryReducer) (i : Intent) → IsCoherent r → IsCoherent (ensure r i).0
unfolding ensure
ensure-IsCoherent r i c = elim (Option-cases (find r i.id)) [
  | inl e ↦
      rw (e, ensure)
        (put-IsCoherent r i.id (new_delivery i.id)
          (record {
            numbered = tt;
            held = inr (ground arith, refl, tt);
            delivered_once = ground arith;
          })
          c)
  | inr (d, e) ↦ rw (e, ensure) c
]

pub begin-IsCoherent :
    (r : DeliveryReducer) (id : Str) (at : Time) → IsCoherent r → IsCoherent (begin r id at).0
unfolding begin
begin-IsCoherent r id at c = elim (Option-cases (find r id)) [
  | inl e ↦ rw (e, begin) c
  | inr (d, e) ↦
      rw (e, begin)
        (elim (Bool-cases
          (is_status d.status DeliveryStatus.delivered || is_status d.status claimed)) [
            | inl busy ↦ rw busy c
            | inr free ↦ rw free (
                put-IsCoherent r id (claim id d at)
                  (claim-IsFenced id d at (ground arith) (ground arith) (c.fenced id d e)) c)
          ])
]
