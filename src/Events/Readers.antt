-- ===== src/Events/Readers.antt =====
-- What the readers of fields promise, and what a well-formed event is.
use assembled_watchtower.Base.{
  ℕ, ◌≤◌, length, List, [], ◌∷◌, Option, none, some, Bool, true, false, Str, codes, Str-discrete,
  ℕ_discrete, has, All, All-map, arith, ◌≡◌, refl, sym, subst, Bool-cases, ◌⊎◌, inl, inr, ◌≢◌,
}
use assembled_watchtower.Base.Do.{◌>>=◌, ◌>>◌, guard}
use assembled_watchtower.Json.{Json, Fields}
use assembled_watchtower.Json.Numbers.{parse_uint, parse_digits, max_u64}
use assembled_watchtower.Events.Types.{
  State, Common, Event, queue_snapshot, agent_state_change, adherence_check,
}
use assembled_watchtower.Events.Fields.{
  get, bounded, str_value, str, uint_value, uint, pointer, uint_ptr, valid, state, all_new,
  strings_value, strings_arr,
}

-- `P` holds of the value, if there is one.
abbrev pub IfSome : {A : Type 0} → (A → Type 0) → Option A → Type 0
IfSome P none = Unit
IfSome P (some a) = P a

abbrev pub AreDistinct : List Str → Type 0
AreDistinct [] = Unit
AreDistinct (s ∷ ss) = (has Str-discrete s ss ≡ false) × AreDistinct ss

-- An identifier of 1 to 256 bytes.
abbrev pub IsId : Str → Type 0
IsId s = (1 ≤ length s) × (length s ≤ 256)

abbrev pub IsState : State → Type 0
IsState s =
    (s ≡ codes "available")
    ⊎ (s ≡ codes "on_call")
    ⊎ (s ≡ codes "on_break")
    ⊎ (s ≡ codes "in_meeting")

bounded-IsId : (s : Str) → bounded s ≡ true → IsId s
unfolding bounded
bounded-IsId [] h = absurd (ground (arith, h))
bounded-IsId (c ∷ s) h = (ground (arith, h), ground (arith, h))

pub IsId-bounded : (s : Str) → IsId s → bounded s ≡ true
unfolding bounded
IsId-bounded [] h = absurd (omega (arith, h.0))
IsId-bounded (c ∷ s) h = ground (arith, h.1)

valid-IsState : (s : Str) → valid s ≡ true → IsState s
unfolding valid
valid-IsState s h = elim (Str-discrete s (codes "available")) [
  | yes e ↦ inl e
  | no a ↦ elim (Str-discrete s (codes "on_call")) [
    | yes e ↦ inr (inl e)
    | no b ↦ elim (Str-discrete s (codes "on_break")) [
      | yes e ↦ inr (inr (inl e))
      | no c ↦ inr (inr (inr (ground (arith, h, a, b, c))))
    ]
  ]
]

pub IsState-valid : (s : Str) → IsState s → valid s ≡ true
unfolding valid Str-discrete ℕ_discrete
IsState-valid s (inl e) = rw e refl
IsState-valid s (inr (inl e)) = rw e refl
IsState-valid s (inr (inr (inl e))) = rw e refl
IsState-valid s (inr (inr (inr e))) = rw e refl

abbrev pub IsUint64 : ℕ → Type 0
IsUint64 n = n ≤ max_u64

abbrev pub AreQueues : List Str → Type 0
AreQueues ss = All IsId ss × AreDistinct ss

abbrev pub IsCommon : Common → Str → Type 0
IsCommon c t = IsId c.event_id × (c.type ≡ t)

unfoldable pub IsWellFormed : Event → Type 0
IsWellFormed (queue_snapshot q) =
    IsCommon q.common (codes "queue_snapshot")
    × IsId q.queue_id
    × IsUint64 q.tickets_waiting
    × IsUint64 q.longest_wait_sec
    × IsUint64 q.sla_target_sec
    × IsUint64 q.agents_available
    × IsUint64 q.agents_on_call
    × IsUint64 q.volume_last15m
    × IfSome IsUint64 q.volume_forecast_next15m
IsWellFormed (agent_state_change a) =
    IsCommon a.common (codes "agent_state_change")
    × IsId a.agent_id
    × IfSome IsState a.previous_state
    × IsState a.new_state
    × IfSome IsUint64 a.previous_state_duration_sec
    × AreQueues a.queue_ids
IsWellFormed (adherence_check c) =
    IsCommon c.common (codes "adherence_check")
    × IsId c.agent_id
    × IsState c.scheduled_state
    × IsState c.actual_state
    × AreQueues c.queue_ids

-- What is known of a value that is read, and of what is made from it.
pub bind-IfSome :
    {A B : Type 0} (Q : A → Type 0) (P : B → Type 0) (m : Option A) (f : A → Option B)
    → ((a : A) → m ≡ some a → Q a)
    → ((a : A) → Q a → IfSome P (f a))
    → IfSome P (m >>= f)
bind-IfSome Q P none f q g = tt
bind-IfSome Q P (some a) f q g = g a (q a refl)

pub read : {A : Type 0} (P : A → Type 0) {m : Option A} → IfSome P m → (a : A) → m ≡ some a → P a
read P {m} h a e = subst (IfSome P) e h

pub guard-IfSome :
    {B : Type 0} (P : B → Type 0) (c : Bool) (k : Option B) → IfSome P k → IfSome P (guard c >> k)
guard-IfSome P true k h = h
guard-IfSome P false k h = tt

pub str-IsId : (o : Fields) (k s : Str) → str o k ≡ some s → IsId s
unfolding str
str-IsId o k s h = go (get k o) h
  where
    go : (j : Option Json) → str_value j ≡ some s → IsId s
    go j h = bounded-IsId s (unfold str_value in ground (arith, h))

pub uint-IsUint64 : (o : Fields) (k : Str) (n : ℕ) → uint o k ≡ some n → IsUint64 n
unfolding uint uint_value parse_uint parse_digits
uint-IsUint64 o k n h = go (get k o) h
  where
    go : (j : Option Json) → uint_value j ≡ some n → IsUint64 n
    go j h = ground (arith, h)

pub state-IsState : (o : Fields) (k s : Str) → state o k ≡ some s → IsState s
unfolding state
state-IsState o k s h = valid-IsState s (ground (arith, h))

-- A pointer is nil, or holds what was read.
pub pointer-IfSome :
    {A : Type 0} (P : A → Type 0) (j : Option Json) (read : Option A) (p : Option A)
    → ((a : A) → read ≡ some a → P a)
    → pointer j read ≡ some p
    → IfSome P p
unfolding pointer
pointer-IfSome P j read none f h = tt
pointer-IfSome P j read (some a) f h = f a (go j read h)
  where
    go : (j : Option Json) (read : Option _) → pointer j read ≡ some (some a) → read ≡ some a
    go j read h = ground (arith, h)

pub has-cons :
    (x s : Str) (seen : List Str)
    → has Str-discrete x (s ∷ seen) ≡ false
    → (x ≢ s) × (has Str-discrete x seen ≡ false)
unfolding has
has-cons x s seen h = (λ e. ground (arith, h, e), ground (arith, h))

has-none : (s : Str) (ss : List Str) → All (λ x. x ≢ s) ss → has Str-discrete s ss ≡ false
unfolding has
has-none s [] h = refl
has-none s (x ∷ ss) h = ground (arith, λ (e : s ≡ x). h.0 (sym e), has-none s ss h.1)

-- The loop accepts distinct identifiers that were not seen.
all_new-AreDistinct :
    (seen ss : List Str)
    → all_new seen ss ≡ true
    → All (λ s. IsId s × (has Str-discrete s seen ≡ false)) ss × AreDistinct ss
unfolding all_new
all_new-AreDistinct seen [] h = (tt, tt)
all_new-AreDistinct seen (s ∷ ss) h =
    let rest = all_new-AreDistinct (s ∷ seen) ss (ground (arith, h)) in
    (
      (
        (bounded-IsId s (ground (arith, h)), ground (arith, h)),
        All-map (λ x. IsId x × (has Str-discrete x (s ∷ seen) ≡ false))
            (λ x. IsId x × (has Str-discrete x seen ≡ false)) ss
            (λ x p. (p.0, (has-cons x s seen p.1).1)) rest.0,
      ),
      (
        has-none s ss (
            All-map (λ x. IsId x × (has Str-discrete x (s ∷ seen) ≡ false)) (λ x. x ≢ s) ss
              (λ x p. (has-cons x s seen p.1).0) rest.0),
        rest.1,
      ),
    )

queues_of :
    (nullable : Bool) (j : Option Json) (ss : List Str)
    → strings_value nullable j ≡ some ss
    → (ss ≡ []) ⊎ (all_new [] ss ≡ true)
unfolding strings_value
queues_of nullable j ss h = elim (Bool-cases (all_new [] ss)) [
  | inl e ↦ inr e
  | inr e ↦ inl (ground (arith, h, e))
]

pub strings_arr-AreQueues :
    (o : Fields) (k : Str) (nullable : Bool) (ss : List Str)
    → strings_arr o k nullable ≡ some ss
    → AreQueues ss
unfolding strings_arr
strings_arr-AreQueues o k nullable ss h = go (get k o) h
  where
    accepted : all_new [] ss ≡ true → AreQueues ss
    accepted e =
        let new = all_new-AreDistinct [] ss e in
        (All-map (λ s. IsId s × (has Str-discrete s [] ≡ false)) IsId ss (λ s p. p.0) new.0, new.1)

    go : (j : Option Json) → strings_value nullable j ≡ some ss → AreQueues ss
    go j h = elim (queues_of nullable j ss h) [ inl e ↦ rw e (tt, tt) | inr e ↦ accepted e ]

abbrev pub Anything : {A : Type 0} → A → Type 0
Anything a = Unit

pub uint_ptr-IfSome :
    (o : Fields) (k : Str) (p : Option ℕ) → uint_ptr o k ≡ some p → IfSome IsUint64 p
unfolding uint_ptr
uint_ptr-IfSome o k p h = pointer-IfSome IsUint64 (get k o) (uint o k) p (uint-IsUint64 o k) h
