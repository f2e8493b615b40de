-- ===== src/Conditions/Lifecycle.antt =====
-- The journal of transitions, key by key: triggers and clears alternate, and a clear carries the
-- episode that the trigger before it opened.
use assembled_watchtower.Base.{
  ◌≡◌, ◌≢◌, refl, ◌∙◌, ◌⊎◌, List, [], ◌∷◌, ◌++◌, Bool, true, false, ◌&&◌, arith, if◌then◌else◌,
  Option, some, none, Unique, insert-Unique, lookup-insert, if_pos, if_neg, same, Str, Str-discrete,
}
use assembled_watchtower.Base.Time.{Time}
use assembled_watchtower.Conditions.Enums.{Direction, Phase}
use assembled_watchtower.Conditions.Types.{
  ConditionKey, ConditionKey-discrete, TrackerState, Reducer, Transition, Observation,
}
use assembled_watchtower.Conditions.Reducer.{
  tracker, put, commit, committed, settled, is_clear, is_trigger,
}

-- What one more transition makes of the open episode of a key; the outer `none` is a violation: a
-- trigger while an episode is open, or a clear that does not carry the open episode.
unfoldable pub next_open : ConditionKey → Option Str → Transition → Option (Option Str)
next_open k (some e) t =
    if same ConditionKey-discrete t.key k
    then (if is_clear t.direction && same Str-discrete t.episode_id e then some none else none)
    else some (some e)
next_open k none t =
    if same ConditionKey-discrete t.key k
    then (if is_trigger t.direction then some (some t.episode_id) else none)
    else some none

abbrev then_open : ConditionKey → Option (Option Str) → Transition → Option (Option Str)
then_open k none t = none
then_open k (some e) t = next_open k e t

-- The open episode of a key after a journal.
unfoldable pub open_after :
    ConditionKey → Option (Option Str) → List Transition → Option (Option Str)
open_after k o [] = o
open_after k o (t ∷ ts) = open_after k (then_open k o t) ts

open_after-append :
    (k : ConditionKey) (o : Option (Option Str)) (ts us : List Transition)
    → open_after k o (ts ++ us) ≡ open_after k (open_after k o ts) us
unfolding open_after
open_after-append k o [] us = refl
open_after-append k o (t ∷ ts) us = open_after-append k (then_open k o t) ts us

-- The phases that have an open episode.
unfoldable pub is_engaged : Phase → Bool
is_engaged Phase.active = true
is_engaged Phase.clearing = true
is_engaged _ = false

-- The episode that a tracker holds open.
unfoldable pub held : TrackerState → Option Str
held s = if is_engaged s.phase then some s.episode_id else none

-- One tracker for each key, and the journal of each key alternates and ends in its tracker's phase.
pub record IsCoherent (r : Reducer) : Type 0 where
  pub unique : Unique ConditionKey-discrete r.states
  pub journal :
      (k : ConditionKey) → open_after k (some none) r.transitions ≡ some (held (tracker r k))

pub tracker-put :
    (r : Reducer) (k j : ConditionKey) (s : TrackerState)
    → tracker (put r k s) j ≡ (if same ConditionKey-discrete k j then s else tracker r j)
unfolding tracker put
tracker-put r k j s = ground (arith, lookup-insert ConditionKey-discrete k j s r.states)

pub put-IsCoherent :
    (r : Reducer) (k : ConditionKey) (s : TrackerState)
    → held s ≡ held (tracker r k)
    → IsCoherent r
    → IsCoherent (put r k s)
unfolding put
put-IsCoherent r k s h c = record {
  unique = insert-Unique ConditionKey-discrete k s r.states c.unique;
  journal = λ j. ground (arith, c.journal j, tracker-put r k j s);
}

-- A trigger is committed for a key with no open episode, a clear for the key that holds it.
abbrev pub Opposes : Direction → TrackerState → TrackerState → Type 0
Opposes dir s held_state =
    ((dir ≡ Direction.trigger) × (is_engaged held_state.phase ≡ false))
    ⊎ ((dir ≡ Direction.clear)
        × (is_engaged held_state.phase ≡ true)
        × (s.episode_id ≡ held_state.episode_id))

next_open_other :
    (j : ConditionKey) (e : Option Str) (t : Transition) → t.key ≢ j → next_open j e t ≡ some e
unfolding next_open
next_open_other j none t h = ground arith
next_open_other j (some e) t h = ground arith

module _ (k : ConditionKey) (s h : TrackerState) (at due processing : Time) (o : Observation) where
  next_open-committed :
      (dir : Direction)
      → Opposes dir s h
      → next_open k (held h) (committed k dir s at due processing o)
        ≡ some (held (settled dir s (committed k dir s at due processing o)))
  unfolding next_open held committed settled is_engaged is_clear is_trigger
  next_open-committed Direction.trigger op = ground arith
  next_open-committed Direction.clear op = ground arith
  next_open-committed (Direction.other n) op = ground arith

commit-journal :
    (r : Reducer) (k : ConditionKey) (dir : Direction) (s : TrackerState) (at due processing : Time)
    (o : Observation) (j : ConditionKey)
    → Opposes dir s (tracker r k)
    → open_after j (some none) r.transitions ≡ some (held (tracker r j))
    → open_after j (some none) (commit r k dir s at due processing o).0.transitions
      ≡ some (held (tracker (put r k (settled dir s (committed k dir s at due processing o))) j))
unfolding commit open_after
commit-journal r k dir s at due processing o j op h =
    open_after-append j (some none) r.transitions (t ∷ [])
    ∙ rw (h, tracker-put r k j (settled dir s t))
        (elim (ConditionKey-discrete k j) [
          | yes e ↦
              rw (if_pos _ e, ← e)
                (next_open-committed k s (tracker r k) at due processing o dir op)
          | no e ↦
              rw (if_neg _ e) (next_open_other j (held (tracker r j)) t (unfold committed in e))
        ])
  where
    t : Transition
    t = committed k dir s at due processing o

pub commit-IsCoherent :
    (r : Reducer) (k : ConditionKey) (dir : Direction) (s : TrackerState) (at due processing : Time)
    (o : Observation)
    → Opposes dir s (tracker r k)
    → IsCoherent r
    → IsCoherent (commit r k dir s at due processing o).0
unfolding commit tracker put
commit-IsCoherent r k dir s at due processing o op c = record {
  unique = insert-Unique ConditionKey-discrete k _ r.states c.unique;
  journal = λ j. commit-journal r k dir s at due processing o j op (c.journal j);
}
