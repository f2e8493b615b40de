-- ===== src/Evaluation/Selection.antt =====
-- What `nextDue` selects: the first of the least due timers of all the entries, which is the first
-- timer of its own reducer.
use assembled_watchtower.Base.{
  ℕ, suc, ◌<◌, List, [], ◌∷◌, ◌++◌, append_assoc, append-nil, Option, none, some, true, false, ltb,
  inl, inr, length, length-append, All, All-map, All-append, arith, ◌≡◌, refl, sym, Bool-cases,
  subst,
}
use assembled_watchtower.Base.Sort.{Sorted, sort-Sorted}
use assembled_watchtower.Base.Time.{Time}
use assembled_watchtower.Conditions.Types.{Timer, Reducer}
use assembled_watchtower.Conditions.Timers.{timers, less_timer, pending_timers}
use assembled_watchtower.Conditions.Order.{less_timer-IsLess}
use assembled_watchtower.Conditions.Settling.{less_timer-due}
use assembled_watchtower.Evaluation.Types.{RuleKey, Activation}
use assembled_watchtower.Evaluation.Clock.{Selected, beats, scan_timers, scan_entries, next_due}

-- `P` holds of the timers of all the entries.
abbrev pub EachTimer : (Timer → Type 0) → List (RuleKey × Activation) → Type 0
EachTimer P es = All (λ (e : RuleKey × Activation). All P (timers e.1.reducer)) es

EachTimer-map :
    (P Q : Timer → Type 0) (es : List (RuleKey × Activation))
    → ((t : Timer) → P t → Q t)
    → EachTimer P es
    → EachTimer Q es
EachTimer-map P Q es f h =
    All-map (λ e. All P (timers e.1.reducer)) (λ e. All Q (timers e.1.reducer)) es
      (λ e a. All-map P Q (timers e.1.reducer) f a) h

pub record Chosen (now : Time) (es : List (RuleKey × Activation)) (i : ℕ) (t : Timer) : Type 0 where
  pub pre : List (RuleKey × Activation)
  pub post : List (RuleKey × Activation)
  pub key : RuleKey
  pub activation : Activation
  pub ts : List Timer
  pub index : length pre ≡ i
  pub split : es ≡ pre ++ (key, activation) ∷ post
  pub here : timers activation.reducer ≡ t ∷ ts
  pub due : ltb now t.due_at ≡ false
  pub before : EachTimer (λ x. less_timer t x ≡ true) pre
  pub after : EachTimer (λ y. less_timer y t ≡ false) post

-- What the variable `selected` tells of the entries looked at.
abbrev pub Best : Time → List (RuleKey × Activation) → Option Selected → Type 0
Best now es none = EachTimer (λ t. now < t.due_at) es
Best now es (some (i, t)) = Chosen now es i t

timers-Sorted : (r : Reducer) → Sorted less_timer less_timer-IsLess (timers r)
unfolding timers
timers-Sorted r = sort-Sorted less_timer less_timer-IsLess (pending_timers r.config r.states)

-- The other timers of the reducer are not below its first.
pub rest_above :
    (r : Reducer) (t : Timer) (ts : List Timer)
    → timers r ≡ t ∷ ts
    → All (λ y. less_timer y t ≡ false) ts
rest_above r t ts h = (subst (Sorted less_timer less_timer-IsLess) h (timers-Sorted r)).0

-- A timer that is late is above one that is due.
late_above :
    (now : Time) (t x : Timer) → ltb now t.due_at ≡ false → now < x.due_at → less_timer t x ≡ true
unfolding less_timer
late_above now t x h k = ground arith

above_trans :
    (t u x : Timer) → less_timer t u ≡ true → less_timer x u ≡ false → less_timer t x ≡ true
above_trans t u x h k = elim (Bool-cases (less_timer t x)) [
  | inl e ↦ e
  | inr e ↦ absurd (ground (arith, less_timer-IsLess.cotrans t x u h e))
]

not_below_trans :
    (y t u : Timer) → less_timer y t ≡ false → less_timer t u ≡ false → less_timer y u ≡ false
not_below_trans y t u h k = elim (Bool-cases (less_timer y u)) [
  | inl e ↦ absurd (ground (arith, less_timer-IsLess.cotrans y t u e h))
  | inr e ↦ e
]

-- A selection that no later timer is below is kept.
scan_keeps :
    (now : Time) (i j : ℕ) (u : Timer) (ts : List Timer)
    → All (λ y. less_timer y u ≡ false) ts
    → scan_timers now i (some (j, u)) ts ≡ some (j, u)
unfolding scan_timers beats
scan_keeps now i j u [] h = refl
scan_keeps now i j u (t ∷ ts) h = elim (Bool-cases (ltb now t.due_at)) [
  | inl e ↦ rw e refl
  | inr e ↦ rw (e, h.0) (scan_keeps now i j u ts h.1)
]

-- The timers behind a late one are late.
late_rest :
    (now : Time) (r : Reducer) (t : Timer) (ts : List Timer)
    → timers r ≡ t ∷ ts
    → ltb now t.due_at ≡ true
    → All (λ x. now < x.due_at) (t ∷ ts)
late_rest now r t ts h e =
    let here : now < t.due_at = ground arith in
    (
      here,
      All-map (λ y. less_timer y t ≡ false) (λ y. now < y.due_at) ts
          (λ y k. omega (arith, less_timer-due y t k, here)) (rest_above r t ts h),
    )

-- The entry at hand leaves the selection.
Best-kept :
    (now : Time) (done : List (RuleKey × Activation)) (e : RuleKey × Activation) (i : ℕ) (u : Timer)
    → Chosen now done i u
    → All (λ y. less_timer y u ≡ false) (timers e.1.reducer)
    → Chosen now (done ++ e ∷ []) i u
Best-kept now done e i u c h = record {
  pre = c.pre;
  post = c.post ++ e ∷ [];
  key = c.key;
  activation = c.activation;
  ts = c.ts;
  index = c.index;
  split = rw c.split (append_assoc c.pre ((c.key, c.activation) ∷ c.post) (e ∷ []));
  here = c.here;
  due = c.due;
  before = c.before;
  after =
      All-append
        (λ (e : RuleKey × Activation). All (λ y. less_timer y u ≡ false) (timers e.1.reducer))
        c.post (e ∷ []) c.after (h, tt);
}

-- The entry at hand takes the selection.
Best-taken :
    (now : Time) (done : List (RuleKey × Activation)) (k : RuleKey) (a : Activation) (t : Timer)
    (ts : List Timer)
    → timers a.reducer ≡ t ∷ ts
    → ltb now t.due_at ≡ false
    → EachTimer (λ x. less_timer t x ≡ true) done
    → Chosen now (done ++ (k, a) ∷ []) (length done) t
Best-taken now done k a t ts h due b = record {
  pre = done;
  post = [];
  key = k;
  activation = a;
  ts = ts;
  index = refl;
  split = refl;
  here = h;
  due = due;
  before = b;
  after = tt;
}

-- A timer below the selected one is below all the timers looked at.
Chosen-above :
    (now : Time) (done : List (RuleKey × Activation)) (i : ℕ) (t u : Timer)
    → Chosen now done i u
    → less_timer t u ≡ true
    → EachTimer (λ x. less_timer t x ≡ true) done
Chosen-above now done i t u c h =
    let trans : (x : Timer) → less_timer x u ≡ false → less_timer t x ≡ true =
      λ x k. above_trans t u x h k in
    rw c.split (
      All-append
        (λ (e : RuleKey × Activation). All (λ x. less_timer t x ≡ true) (timers e.1.reducer)) c.pre
        ((c.key, c.activation) ∷ c.post)
        (EachTimer-map (λ x. less_timer u x ≡ true) (λ x. less_timer t x ≡ true) c.pre
          (λ x k. less_timer-IsLess.trans t u x h k) c.before)
        (
          subst (All (λ x. less_timer t x ≡ true)) (sym c.here) (
            h,
            All-map (λ x. less_timer x u ≡ false) (λ x. less_timer t x ≡ true) c.ts trans
                (rest_above c.activation.reducer u c.ts c.here),
          ),
          EachTimer-map (λ x. less_timer x u ≡ false) (λ x. less_timer t x ≡ true) c.post trans
              c.after,
        ))

-- One entry more.
Best-step :
    (now : Time) (done : List (RuleKey × Activation)) (k : RuleKey) (a : Activation)
    (best : Option Selected) (ts : List Timer)
    → timers a.reducer ≡ ts
    → Best now done best
    → Best now (done ++ (k, a) ∷ []) (scan_timers now (length done) best ts)
unfolding scan_timers beats
Best-step now done k a none [] h b =
    All-append (λ (e : RuleKey × Activation). All (λ t. now < t.due_at) (timers e.1.reducer)) done
      ((k, a) ∷ []) b (rw h tt, tt)
Best-step now done k a none (t ∷ ts) h b = elim (Bool-cases (ltb now t.due_at)) [
  | inl e ↦ rw e (
      All-append (λ (e : RuleKey × Activation). All (λ t. now < t.due_at) (timers e.1.reducer)) done
        ((k, a) ∷ []) b
        (subst (All (λ t. now < t.due_at)) (sym h) (late_rest now a.reducer t ts h e), tt))
  | inr e ↦
      rw (e, scan_keeps now (length done) (length done) t ts (rest_above a.reducer t ts h))
        (Best-taken now done k a t ts h e (
          EachTimer-map (λ x. now < x.due_at) (λ x. less_timer t x ≡ true) done
            (λ x l. late_above now t x e l) b))
]
Best-step now done k a (some (i, u)) [] h b = Best-kept now done (k, a) i u b (rw h tt)
Best-step now done k a (some (i, u)) (t ∷ ts) h b = elim (Bool-cases (ltb now t.due_at)) [
  | inl e ↦ rw e (
      Best-kept now done (k, a) i u b
        (subst (All (λ y. less_timer y u ≡ false)) (sym h) (
          All-map (λ y. now < y.due_at) (λ y. less_timer y u ≡ false) (t ∷ ts)
            (λ y l. ground (
              arith,
              less_timer-IsLess.trans u y u (late_above now u y b.due l),
              less_timer-IsLess.irrefl u,
            ))
            (late_rest now a.reducer t ts h e))))
  | inr e ↦ elim (Bool-cases (less_timer t u)) [
    | inl l ↦
        rw (e, l, scan_keeps now (length done) (length done) t ts (rest_above a.reducer t ts h))
          (Best-taken now done k a t ts h e (Chosen-above now done i t u b l))
    | inr l ↦
        let above =
          All-map (λ y. less_timer y t ≡ false) (λ y. less_timer y u ≡ false) ts
            (λ y m. not_below_trans y t u m l) (rest_above a.reducer t ts h) in
        rw (e, l, scan_keeps now (length done) i u ts above)
          (Best-kept now done (k, a) i u b
            (subst (All (λ y. less_timer y u ≡ false)) (sym h) (l, above)))
  ]
]

Best-entries :
    (now : Time) (done es : List (RuleKey × Activation)) (best : Option Selected)
    → Best now done best
    → Best now (done ++ es) (scan_entries now (length done) best es)
unfolding scan_entries
Best-entries now done [] best b = rw (append-nil done) b
Best-entries now done ((k, a) ∷ es) best b =
    let next =
      Best-entries now (done ++ (k, a) ∷ []) es
        (scan_timers now (length done) best (timers a.reducer))
        (Best-step now done k a best (timers a.reducer) refl b) in
    let count : length (done ++ (k, a) ∷ []) ≡ suc (length done) =
      omega (arith, length-append done ((k, a) ∷ [])) in
    rw (count, append_assoc done ((k, a) ∷ []) es) at next

pub next_due-Best : (now : Time) (es : List (RuleKey × Activation)) → Best now es (next_due now es)
unfolding next_due
next_due-Best now es = Best-entries now [] es none tt
