-- ===== src/Rules/Conjunction.antt =====
-- `evaluateAll` is the three-valued conjunction: false as soon as one comparison is, true only if
-- all are, and more evidence decides more without changing what was decided.
use assembled_watchtower.Base.{
  ◌≡◌, ◌≢◌, refl, sym, ◌∙◌, ◌↔◌, ◌⊎◌, inl, inr, List, [], ◌∷◌, map, some, true, false, arith, All,
  Any, Any-map, All-map, same, Str-discrete, Option-cases, Bool-cases,
}
use assembled_watchtower.Rules.Types.{Operand, CompareExpression, FieldSpec, operand_field}
use assembled_watchtower.Rules.Catalog.{field}
use assembled_watchtower.Rules.Evaluate.{
  PredicateResult, unknown, refuted, holds, FieldLookup, resolve_field, resolve_operand,
  evaluate_comparison, evaluate_from, evaluate_all,
}

abbrev Refuted : FieldLookup → CompareExpression → Type 0
Refuted find c = evaluate_comparison c find ≡ refuted

abbrev Holds : FieldLookup → CompareExpression → Type 0
Holds find c = evaluate_comparison c find ≡ holds

PredicateResult-cases : (r : PredicateResult) → (r ≡ unknown) ⊎ (r ≡ refuted) ⊎ (r ≡ holds)
PredicateResult-cases unknown = inl refl
PredicateResult-cases refuted = inr (inl refl)
PredicateResult-cases holds = inr (inr refl)

-- Three-valued conjunction.
unfoldable pub conj : PredicateResult → PredicateResult → PredicateResult
conj refuted r = refuted
conj holds r = r
conj unknown refuted = refuted
conj unknown _ = unknown

unfoldable pub conj_all : List PredicateResult → PredicateResult
conj_all [] = holds
conj_all (r ∷ rs) = conj r (conj_all rs)

conj_unknown : (r : PredicateResult) → conj unknown (conj unknown r) ≡ conj unknown r
unfolding conj
conj_unknown unknown = refl
conj_unknown refuted = refl
conj_unknown holds = refl

abbrev results : List CompareExpression → FieldLookup → List PredicateResult
results cs find = map (λ c. evaluate_comparison c find) cs

-- The loop with its flag, and without.
evaluate_from_lem :
    (cs : List CompareExpression) (find : FieldLookup)
    → (evaluate_from true cs find ≡ conj unknown (conj_all (results cs find)))
      × (evaluate_from false cs find ≡ conj_all (results cs find))
unfolding evaluate_from conj conj_all
evaluate_from_lem [] find = (refl, refl)
evaluate_from_lem (c ∷ cs) find =
    let (flagged, plain) = evaluate_from_lem cs find in
    elim (PredicateResult-cases (evaluate_comparison c find)) [
      | inl e ↦ (
        rw (e, evaluate_from, flagged) (sym (conj_unknown (conj_all (results cs find)))),
        rw (e, evaluate_from, flagged) refl,
      )
      | inr (inl e) ↦ (rw (e, evaluate_from) refl, rw (e, evaluate_from) refl)
      | inr (inr e) ↦ (rw (e, evaluate_from, flagged) refl, rw (e, evaluate_from, plain) refl)
    ]

-- `evaluateAll` is the conjunction of the results of its comparisons.
evaluate_all-conj_all :
    (cs : List CompareExpression) (find : FieldLookup)
    → evaluate_all cs find ≡ conj_all (results cs find)
unfolding evaluate_all
evaluate_all-conj_all cs find = (evaluate_from_lem cs find).1

conj-refuted : (r s : PredicateResult) → (conj r s ≡ refuted) → (r ≡ refuted) ⊎ (s ≡ refuted)
unfolding conj
conj-refuted unknown unknown h = inl h
conj-refuted unknown refuted h = inr refl
conj-refuted unknown holds h = inl h
conj-refuted refuted s h = inl refl
conj-refuted holds s h = inr h

conj_right : (r : PredicateResult) → conj r refuted ≡ refuted
unfolding conj
conj_right unknown = refl
conj_right refuted = refl
conj_right holds = refl

conj-holds : (r s : PredicateResult) → conj r s ≡ holds → (r ≡ holds) × (s ≡ holds)
unfolding conj
conj-holds unknown unknown h = ground (arith, h)
conj-holds unknown refuted h = ground (arith, h)
conj-holds unknown holds h = ground (arith, h)
conj-holds refuted s h = ground (arith, h)
conj-holds holds s h = (refl, h)

refuted_iff :
    (cs : List CompareExpression) (find : FieldLookup)
    → (conj_all (results cs find) ≡ refuted) ↔ Any (Refuted find) cs
unfolding conj_all
refuted_iff [] find = (λ h. ground (arith, h), λ h. absurd h)
refuted_iff (c ∷ cs) find =
    let (to, from) = refuted_iff cs find in
    (
      λ h. elim (conj-refuted (evaluate_comparison c find) (conj_all (results cs find)) h) [
        | inl e ↦ inl e
        | inr e ↦ inr (to e)
      ],
      λ h. elim h [
        | inl e ↦ unfold conj in rw e refl
        | inr k ↦ rw (from k) (conj_right (evaluate_comparison c find))
      ],
    )

holds_iff :
    (cs : List CompareExpression) (find : FieldLookup)
    → (conj_all (results cs find) ≡ holds) ↔ All (Holds find) cs
unfolding conj_all conj
holds_iff [] find = (λ h. tt, λ h. refl)
holds_iff (c ∷ cs) find =
    let (to, from) = holds_iff cs find in
    (
      λ h.
          let (e, k) = conj-holds (evaluate_comparison c find) (conj_all (results cs find)) h in
          (e, to k),
      λ h. rw (h.0, from h.1) refl,
    )

-- The three-valued conjunction: the result of a list of comparisons is false exactly if one of them
-- is false, whatever is unknown, and true exactly if all of them are true.
pub evaluate_all-decided :
    (cs : List CompareExpression) (find : FieldLookup)
    → ((evaluate_all cs find ≡ refuted) ↔ Any (λ c. evaluate_comparison c find ≡ refuted) cs)
      × ((evaluate_all cs find ≡ holds) ↔ All (λ c. evaluate_comparison c find ≡ holds) cs)
evaluate_all-decided cs find =
    rw (evaluate_all-conj_all cs find) (refuted_iff cs find, holds_iff cs find)

-- The second lookup answers as the first where the first knows a field.
abbrev pub Extends : FieldLookup → FieldLookup → Type 0
Extends find find' = (f : FieldSpec) (v : Operand) → find f ≡ some v → find' f ≡ some v

resolve_operand-Extends :
    (o : Operand) (find find' : FieldLookup)
    → Extends find find'
    → (v : Operand) → resolve_operand o find ≡ some v
    → resolve_operand o find' ≡ some v
unfolding resolve_operand resolve_field
resolve_operand-Extends o find find' x v h =
    elim (Bool-cases (same Str-discrete o.kind operand_field)) [
      | inr e ↦ ground (arith, h, e)
      | inl e ↦ elim (Option-cases (field o.field)) [
        | inl n ↦ ground (arith, h, e, n)
        | inr (f, n) ↦ elim (Option-cases (find f)) [
          | inl m ↦ ground (arith, h, e, n, m)
          | inr (w, m) ↦ ground (arith, h, e, n, m, x f w m)
        ]
      ]
    ]

-- A comparison that is decided has both of its operands.
evaluate_comparison-Extends :
    (c : CompareExpression) (find find' : FieldLookup)
    → Extends find find'
    → evaluate_comparison c find ≢ unknown
    → evaluate_comparison c find' ≡ evaluate_comparison c find
unfolding evaluate_comparison
evaluate_comparison-Extends c find find' x h = elim (Option-cases (resolve_operand c.left find)) [
  | inl e ↦ absurd (h (rw (e, evaluate_comparison) refl))
  | inr (l, e) ↦ elim (Option-cases (resolve_operand c.right find)) [
    | inl e' ↦ absurd (h (rw (e, e', evaluate_comparison) refl))
    | inr (r, e') ↦
        rw
          (
            evaluate_comparison,
            e,
            e',
            resolve_operand-Extends c.left find find' x l e,
            resolve_operand-Extends c.right find find' x r e',
          )
          refl
  ]
]

known : (r : PredicateResult) → r ≢ unknown → (r ≡ refuted) ⊎ (r ≡ holds)
known r h = elim (PredicateResult-cases r) [ inl e ↦ absurd (h e) | inr k ↦ k ]

decided-Extends :
    (find find' : FieldLookup) (r : PredicateResult)
    → Extends find find'
    → r ≢ unknown
    → (c : CompareExpression) → evaluate_comparison c find ≡ r
    → evaluate_comparison c find' ≡ r
decided-Extends find find' r x n c h =
    evaluate_comparison-Extends c find find' x (λ e. n (sym h ∙ e)) ∙ h

-- More evidence never changes a decision: if a lookup knows what another one does, a list of
-- comparisons that is true or false for the latter is the same for the former.
pub evaluate_all-monotone :
    (cs : List CompareExpression) (find find' : FieldLookup)
    → Extends find find'
    → evaluate_all cs find ≢ unknown
    → evaluate_all cs find' ≡ evaluate_all cs find
evaluate_all-monotone cs find find' x h =
    let (is_refuted, is_true) = evaluate_all-decided cs find in
    let (is_refuted', is_true') = evaluate_all-decided cs find' in
    elim (known (evaluate_all cs find) h) [
      | inl e ↦
          let more =
            Any-map _ _ cs (decided-Extends find find' refuted x (λ k. ground (arith, k)))
              (is_refuted.0 e) in
          is_refuted'.1 more ∙ sym e
      | inr e ↦
          let more =
            All-map _ _ cs (decided-Extends find find' holds x (λ k. ground (arith, k)))
              (is_true.0 e) in
          is_true'.1 more ∙ sym e
    ]

conj-known : (r s : PredicateResult) → r ≢ unknown → s ≢ unknown → conj r s ≢ unknown
unfolding conj
conj-known unknown s h k = absurd (h refl)
conj-known refuted s h k = h
conj-known holds s h k = k

conj_all-known :
    (cs : List CompareExpression) (find : FieldLookup)
    → All (λ c. evaluate_comparison c find ≢ unknown) cs
    → conj_all (results cs find) ≢ unknown
unfolding conj_all
conj_all-known [] find h = λ e. ground (arith, e)
conj_all-known (c ∷ cs) find h =
    conj-known (evaluate_comparison c find) (conj_all (results cs find)) h.0
      (conj_all-known cs find h.1)

-- A conjunction of decided comparisons is decided.
pub evaluate_all-known :
    (cs : List CompareExpression) (find : FieldLookup)
    → All (λ c. evaluate_comparison c find ≢ unknown) cs
    → evaluate_all cs find ≢ unknown
evaluate_all-known cs find h = rw (evaluate_all-conj_all cs find) (conj_all-known cs find h)
