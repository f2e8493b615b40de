-- ===== src/Evaluation/Draining.antt =====
-- What the first loop of the runtime's Advance does: it fires all due timers in order.
use assembled_watchtower.Base.{
  ℕ, zero, suc, ◌≤◌, ◌<◌, List, [], ◌∷◌, ◌++◌, map, map-append, true, false, ltb, inl, inr, length,
  length-append, All, All-append, arith, ◌≡◌, refl, sym, ◌∙◌, ap, Option-cases, subst,
}
use assembled_watchtower.Base.Sort.{sort, sort_first, sort-All}
use assembled_watchtower.Base.Time.{Time, is_zero}
use assembled_watchtower.Conditions.Types.{Timer, Transition}
use assembled_watchtower.Conditions.Timers.{timers, less_timer}
use assembled_watchtower.Conditions.Order.{less_timer-IsLess}
use assembled_watchtower.Conditions.Reducer.{advance, fire}
use assembled_watchtower.Conditions.Settling.{
  due_through, due_after, stamp, due_stamp, advance-Advanced, Advanced, clock_at,
}
use assembled_watchtower.Evaluation.Types.{RuleKey, Activation}
use assembled_watchtower.Evaluation.Clock.{next_due, fire_at, fire_loop, all_timers}
use assembled_watchtower.Evaluation.Selection.{Best, Chosen, next_due-Best, rest_above}
use assembled_watchtower.Evaluation.Firing.{
  IsKept, all_timers-append, all_timers-All, at_time, Fired, fire-Fired,
}

-- The entries after the selected timer has fired.
record FiredAt (now : Time) (es : List (RuleKey × Activation)) (i : ℕ) (t : Timer) : Type 0 where
  emitted : map stamp (fire_at i t now es).1 ≡ due_stamp t ∷ []
  sorted : sort less_timer (all_timers es) ≡ t ∷ sort less_timer (all_timers (fire_at i t now es).0)
  count : length (all_timers es) ≡ suc (length (all_timers (fire_at i t now es).0))
  kept : All (IsKept now) (fire_at i t now es).0

fire_at-skip :
    (pre post : List (RuleKey × Activation)) (k : RuleKey) (a : Activation) (t : Timer) (now : Time)
    → fire_at (length pre) t now (pre ++ (k, a) ∷ post) ≡ (
      pre ++ (k, record a { reducer = (fire a.reducer t now).0 }) ∷ post,
      (fire a.reducer t now).1,
    )
unfolding fire_at
fire_at-skip [] post k a t now = refl
fire_at-skip (e ∷ pre) post k a t now = rw (fire_at-skip pre post k a t now) refl

All-middle :
    (P : RuleKey × Activation → Type 0) (pre post : List (RuleKey × Activation))
    (e e' : RuleKey × Activation)
    → (P e → P e')
    → All P (pre ++ e ∷ post)
    → P e × All P (pre ++ e' ∷ post)
All-middle P [] post e e' f h = (h.0, (f h.0, h.1))
All-middle P (x ∷ pre) post e e' f h =
    let rest = All-middle P pre post e e' f h.1 in (rest.0, (h.0, rest.1))

-- The timers of entries of which one has its timers written out.
all_timers-middle :
    (pre post : List (RuleKey × Activation)) (k : RuleKey) (a : Activation) (ts : List Timer)
    → timers a.reducer ≡ ts
    → all_timers (pre ++ (k, a) ∷ post) ≡ all_timers pre ++ (ts ++ all_timers post)
unfolding all_timers
all_timers-middle pre post k a ts h = rw (all_timers-append pre ((k, a) ∷ post), h) refl

fire_at-FiredAt :
    (now : Time) (es : List (RuleKey × Activation)) (i : ℕ) (t : Timer)
    → is_zero now ≡ false
    → All (IsKept now) es
    → Chosen now es i t
    → FiredAt now es i t
fire_at-FiredAt now es i t z kept c =
    let both =
      All-middle (IsKept now) c.pre c.post (c.key, c.activation) (c.key, after)
        (λ h. let d = fired h in (d.unique, d.kept)) (subst (All (IsKept now)) c.split kept) in
    let d = fired both.0 in
    let old : all_timers es ≡ all_timers c.pre ++ t ∷ (c.ts ++ all_timers c.post) =
      rw c.split (all_timers-middle c.pre c.post c.key c.activation (t ∷ c.ts) c.here) in
    let new : all_timers (fire_at i t now es).0 ≡ all_timers c.pre ++ (c.ts ++ all_timers c.post) =
      rw run (all_timers-middle c.pre c.post c.key after c.ts d.left) in
    record {
      emitted = rw run d.emitted;
      sorted =
          rw (old, new)
            (sort_first less_timer less_timer-IsLess t (all_timers c.pre)
              (c.ts ++ all_timers c.post)
              (all_timers-All (λ x. less_timer t x ≡ true) c.pre c.before)
              (All-append (λ y. less_timer y t ≡ false) c.ts (all_timers c.post)
                (rest_above c.activation.reducer t c.ts c.here)
                (all_timers-All (λ y. less_timer y t ≡ false) c.post c.after)));
      count =
          rw (old, new)
            (omega (
              arith,
              length-append (all_timers c.pre) (t ∷ (c.ts ++ all_timers c.post)),
              length-append (all_timers c.pre) (c.ts ++ all_timers c.post),
            ));
      kept = rw run both.1;
    }
  where
    after : Activation
    after = record c.activation { reducer = (fire c.activation.reducer t now).0 }

    fired : IsKept now (c.key, c.activation) → Fired now c.activation.reducer t c.ts
    fired h = fire-Fired c.activation.reducer t c.ts now c.here c.due z h.0 h.1

    run :
        fire_at i t now es ≡ (c.pre ++ (c.key, after) ∷ c.post, (fire c.activation.reducer t now).1)
    run = rw (sym c.index, c.split) (fire_at-skip c.pre c.post c.key c.activation t now)

-- What a run of the loop has done when no due timer is left.
pub record Drained (now : Time) (es : List (RuleKey × Activation))
    (p : List (RuleKey × Activation) × List Transition) : Type 0 where
  pub emitted : map stamp p.1 ≡ map due_stamp (due_through now (sort less_timer (all_timers es)))
  pub left : sort less_timer (all_timers p.0) ≡ due_after now (sort less_timer (all_timers es))
  pub kept : All (IsKept now) p.0

due_none :
    (now : Time) (ts : List Timer)
    → All (λ t. now < t.due_at) ts
    → (due_through now ts ≡ []) × (due_after now ts ≡ ts)
unfolding due_through due_after
due_none now [] h = (refl, refl)
due_none now (t ∷ ts) h =
    let late : ltb now t.due_at ≡ true = ground (arith, h.0) in (rw late refl, rw late refl)

Drained-here :
    (now : Time) (es : List (RuleKey × Activation))
    → All (IsKept now) es
    → All (λ t. now < t.due_at) (all_timers es)
    → Drained now es (es, [])
Drained-here now es kept late =
    let none =
      due_none now (sort less_timer (all_timers es))
        (sort-All less_timer less_timer-IsLess (λ t. now < t.due_at) (all_timers es) late) in
    record { emitted = ap (map due_stamp) (sym none.0); left = sym none.1; kept = kept }

Drained-next :
    (now : Time) (es es' : List (RuleKey × Activation)) (t : Timer) (out : List Transition)
    (p : List (RuleKey × Activation) × List Transition)
    → ltb now t.due_at ≡ false
    → map stamp out ≡ due_stamp t ∷ []
    → sort less_timer (all_timers es) ≡ t ∷ sort less_timer (all_timers es')
    → Drained now es' p
    → Drained now es (p.0, out ++ p.1)
unfolding due_through due_after
Drained-next now es es' t out p due e s d = record {
  emitted = map-append stamp out p.1 ∙ rw (e, d.emitted, s, due) refl;
  left = rw (d.left, s, due) refl;
  kept = d.kept;
}

pub fire_loop-Drained :
    (fuel : ℕ) (now : Time) (es : List (RuleKey × Activation))
    → is_zero now ≡ false
    → All (IsKept now) es
    → length (all_timers es) ≤ fuel
    → Drained now es (fire_loop fuel now es)
unfolding fire_loop
fire_loop-Drained zero now es z kept b = Drained-here now es kept (none_left (all_timers es) b)
  where
    none_left : (ts : List Timer) → length ts ≤ 0 → All (λ t. now < t.due_at) ts
    none_left [] b = tt
    none_left (t ∷ ts) b = absurd (omega arith)
fire_loop-Drained (suc fuel) now es z kept b = elim (Option-cases (next_due now es)) [
  | inl e ↦
      let late = subst (Best now es) e (next_due-Best now es) in
      rw (e, fire_loop) (Drained-here now es kept (all_timers-All (λ t. now < t.due_at) es late))
  | inr ((i, t), e) ↦
      let c : Chosen now es i t = subst (Best now es) e (next_due-Best now es) in
      let f = fire_at-FiredAt now es i t z kept c in
      rw (e, fire_loop)
        (Drained-next now es (fire_at i t now es).0 t (fire_at i t now es).1 _ c.due f.emitted
          f.sorted
          (fire_loop-Drained fuel now (fire_at i t now es).0 z f.kept (omega (arith, f.count))))
]

-- A reducer without due timers only moves its clock.
pub advance-Idle :
    (now : Time) (e : RuleKey × Activation)
    → is_zero now ≡ false
    → IsKept now e
    → All (λ t. now < t.due_at) (timers e.1.reducer)
    → ((advance e.1.reducer now).1 ≡ [])
      × (timers (advance e.1.reducer now).0 ≡ timers e.1.reducer)
      × IsKept now (e.0, record e.1 { reducer = (advance e.1.reducer now).0 })
      × ((advance e.1.reducer now).0.logical ≡ now)
advance-Idle now (k, a) z kept late =
    let clock : clock_at a.reducer now ≡ now = omega (arith, kept.1) in
    let d : Advanced now (at_time a.reducer now) (advance a.reducer now) =
      rw clock at (advance-Advanced a.reducer now kept.0 z) in
    let same_timers : timers (at_time a.reducer now) ≡ timers a.reducer = unfold timers in refl in
    let none = due_none now (timers a.reducer) late in
    let silent : map stamp (advance a.reducer now).1 ≡ [] =
      d.emitted ∙ rw (same_timers, none.0) refl in
    (
      no_transitions (advance a.reducer now).1 silent,
      d.left ∙ rw (same_timers, none.1) refl,
      (d.unique, omega (arith, d.logical)),
      d.logical,
    )
  where
    no_transitions : (ts : List Transition) → map stamp ts ≡ [] → ts ≡ []
    no_transitions [] h = refl
    no_transitions (t ∷ ts) h = cc
