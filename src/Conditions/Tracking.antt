-- ===== src/Conditions/Tracking.antt =====
-- How the pending timers of a reducer follow its trackers.
use assembled_watchtower.Base.{
  suc, ◌≤◌, ◌≡◌, ◌≢◌, refl, ◌∙◌, ap, ◌⊎◌, inl, inr, List, [], ◌∷◌, true, false, arith, if_pos,
  if_neg, Bool-cases, some, none, lookup, lookup_here, insert, Unique, All, All-map, length,
}
use assembled_watchtower.Base.Sort.{sort, insert_sorted, insert_comm}
use assembled_watchtower.Conditions.Types.{
  ConditionKey, ConditionKey-discrete, Timer, RuleConfig, TrackerState,
}
use assembled_watchtower.Conditions.Timers.{is_pending, timer_of, pending_timers, less_timer}
use assembled_watchtower.Conditions.Order.{less_timer-IsLess}

less_timer_apart : (a b : Timer) → a.key ≢ b.key → (less_timer a b ≡ true) ⊎ (less_timer b a ≡ true)
less_timer_apart a b h = elim (Bool-cases (less_timer a b)) [
  | inl e ↦ inl e
  | inr e ↦ elim (Bool-cases (less_timer b a)) [
    | inl e' ↦ inr e'
    | inr e' ↦ absurd (h (less_timer-IsLess.tie a b e e').1.0)
  ]
]

-- To settle a pending tracker takes its timer, and no other, out of the sorted timers.
pub pending_timers-insert :
    (cfg : RuleConfig) (k : ConditionKey) (s s' : TrackerState)
    (m : List (ConditionKey × TrackerState))
    → lookup ConditionKey-discrete k m ≡ some s
    → is_pending s.phase ≡ true
    → is_pending s'.phase ≡ false
    → sort less_timer (pending_timers cfg m)
      ≡ insert_sorted less_timer
          (timer_of cfg k s)
          (sort less_timer (pending_timers cfg (insert ConditionKey-discrete k s' m)))
unfolding lookup insert pending_timers sort
pending_timers-insert cfg k s s' [] h p q = cc
pending_timers-insert cfg k s s' ((j, u) ∷ m) h p q = elim (ConditionKey-discrete j k) [
  | yes e ↦
      let same_state : u ≡ s = ground arith in
      rw (if_pos (ConditionKey-discrete j k) e) (rw (same_state, p, q, e) refl)
  | no e ↦
      let rest = pending_timers-insert cfg k s s' m (ground arith) p q in
      rw (if_neg (ConditionKey-discrete j k) e) (elim (Bool-cases (is_pending u.phase)) [
        | inl w ↦ rw w (
            ap (insert_sorted less_timer (timer_of cfg j u)) rest
            ∙ insert_comm less_timer less_timer-IsLess (timer_of cfg j u) (timer_of cfg k s)
                (sort less_timer (pending_timers cfg (insert ConditionKey-discrete k s' m)))
                (less_timer_apart (timer_of cfg j u) (timer_of cfg k s) (unfold timer_of in e)))
        | inr w ↦ rw w rest
      ])
]

-- A timer belongs to the tracker that the map holds for its key.
abbrev pub Tracked : RuleConfig → List (ConditionKey × TrackerState) → Timer → Type 0
Tracked cfg m t =
    (s : TrackerState) × (lookup ConditionKey-discrete t.key m ≡ some s)
    × (is_pending s.phase ≡ true)
    × (t ≡ timer_of cfg t.key s)

Tracked-cons :
    (cfg : RuleConfig) (j : ConditionKey) (u : TrackerState)
    (m : List (ConditionKey × TrackerState))
    → lookup ConditionKey-discrete j m ≡ none
    → (t : Timer) → Tracked cfg m t
    → Tracked cfg ((j, u) ∷ m) t
unfolding lookup
Tracked-cons cfg j u m absent t (s, found, p, e) = (s, ground arith, p, e)

pub pending_timers-Tracked :
    (cfg : RuleConfig) (m : List (ConditionKey × TrackerState))
    → Unique ConditionKey-discrete m
    → All (Tracked cfg m) (pending_timers cfg m)
unfolding pending_timers timer_of
pending_timers-Tracked cfg [] u = tt
pending_timers-Tracked cfg ((j, s) ∷ m) u =
    let rest =
      All-map (Tracked cfg m) (Tracked cfg ((j, s) ∷ m)) (pending_timers cfg m)
        (Tracked-cons cfg j s m u.0) (pending_timers-Tracked cfg m u.1) in
    elim (Bool-cases (is_pending s.phase)) [
      | inl w ↦ rw w ((s, lookup_here ConditionKey-discrete j s m, w, refl), rest)
      | inr w ↦ rw w rest
    ]

length-insert_sorted :
    (t : Timer) (ts : List Timer) → length (insert_sorted less_timer t ts) ≡ suc (length ts)
unfolding insert_sorted
length-insert_sorted t [] = refl
length-insert_sorted t (x ∷ ts) = ground (arith, length-insert_sorted t ts)

-- There are at most as many timers as trackers.
pub length-timers-le :
    (cfg : RuleConfig) (m : List (ConditionKey × TrackerState))
    → length (sort less_timer (pending_timers cfg m)) ≤ length m
unfolding pending_timers sort
length-timers-le cfg [] = omega arith
length-timers-le cfg ((j, s) ∷ m) = ground (
  arith,
  length-timers-le cfg m,
  length-insert_sorted (timer_of cfg j s) (sort less_timer (pending_timers cfg m)),
)
