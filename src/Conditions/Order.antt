-- ===== src/Conditions/Order.antt =====
-- The canonical order of timers is strict and total, so a set of timers has one sorted list.
use assembled_watchtower.Base.{◌≡◌, Bool, ltb, ◌==◌, same, str_ltb, ltb_ℤ, Str-discrete, ℤ-discrete}
use assembled_watchtower.Base.Sort.{IsLess, lex-IsLess, same-IsEqb}
use assembled_watchtower.Base.Orders.{ltb-IsTotal, ==-IsEqb, ltb_ℤ-IsTotal, str_ltb-IsTotal}
use assembled_watchtower.Conditions.Types.{ConditionKey, Timer}
use assembled_watchtower.Conditions.Timers.{less_key, less_timer}

same_key :
    {a b : ConditionKey}
    → a.rule_id ≡ b.rule_id
    → a.revision ≡ b.revision
    → a.subject.kind ≡ b.subject.kind
    → a.subject.id ≡ b.subject.id
    → a ≡ b
same_key rule revision kind id = λ i. record {
  rule_id = rule i;
  revision = revision i;
  subject = record { kind = kind i; id = id i };
}

-- Two entries tie in `less_key` only if their keys are equal and the rest ties.
pub less_key-IsLess :
    {A : Type 0} {E : A → A → Type 0} (key : A → ConditionKey) (rest : A → A → Bool)
    → IsLess E rest
    → IsLess (λ a b. (key a ≡ key b) × E a b) (λ a b. less_key (key a) (key b) (rest a b))
unfolding less_key
less_key-IsLess {A} {E} key rest l =
    let by_id =
      lex-IsLess (λ (a : A). (key a).subject.id) (same Str-discrete) str_ltb rest
        (same-IsEqb Str-discrete) str_ltb-IsTotal l in
    let by_kind =
      lex-IsLess (λ (a : A). (key a).subject.kind) (same Str-discrete) str_ltb _
        (same-IsEqb Str-discrete) str_ltb-IsTotal by_id in
    let by_revision =
      lex-IsLess (λ (a : A). (key a).revision) (same ℤ-discrete) ltb_ℤ _ (same-IsEqb ℤ-discrete)
        ltb_ℤ-IsTotal by_kind in
    let by_rule =
      lex-IsLess (λ (a : A). (key a).rule_id) (same Str-discrete) str_ltb _
        (same-IsEqb Str-discrete) str_ltb-IsTotal by_revision in
    record {
      irrefl = by_rule.irrefl;
      trans = by_rule.trans;
      cotrans = by_rule.cotrans;
      tie = λ a b h k.
          let e = by_rule.tie a b h k in (same_key e.0 e.1.0 e.1.1.0 e.1.1.1.0, e.1.1.1.1);
    }

-- Up to the direction, which the due timers of one tracker share, the order of timers is total.
pub less_timer-IsLess :
    IsLess
      (λ (a b : Timer). (a.due_at ≡ b.due_at) × ((a.key ≡ b.key) × (a.attempt ≡ b.attempt)))
      less_timer
unfolding less_timer
less_timer-IsLess =
    lex-IsLess (λ (a : Timer). a.due_at) ◌==◌ ltb _ ==-IsEqb ltb-IsTotal
      (less_key-IsLess (λ (a : Timer). a.key) (λ a b. ltb a.attempt b.attempt)
        (record {
          irrefl = λ a. ltb-IsTotal.irrefl a.attempt;
          trans = λ a b c. ltb-IsTotal.trans a.attempt b.attempt c.attempt;
          cotrans = λ a b c. ltb-IsTotal.cotrans a.attempt b.attempt c.attempt;
          tie = λ a b. ltb-IsTotal.tie a.attempt b.attempt;
        }))
