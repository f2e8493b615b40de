-- ===== src/Base/Sort.antt =====
-- `sort.Slice` with a strict total order: insertion sort, whose result does not depend on the
-- order of the input.
use assembled_watchtower.Base.Lists.{All, All-map}
use assembled_watchtower.Base.Tests.{if◌then◌else◌, same, same→eq, same_self, Bool-cases}
use mathlib.Core.Logic.{◌⊎◌, inl, inr}
use mathlib.Core.Path.{◌≡◌, refl}
use mathlib.Core.Bool.{Bool, true, false}
use mathlib.Core.List.{List, [], ◌∷◌, ◌++◌}
use native.Mathlib.Omega.{arith}

-- A strict order in which two entries that are not ordered are related by `E`.
pub record IsLess {ℓ κ} {A : Type ℓ} (E : A → A → Type κ) (lt : A → A → Bool) : Type (ℓ ⊔ κ) where
  pub irrefl : (a : A) → lt a a ≡ false
  pub trans : (a b c : A) → lt a b ≡ true → lt b c ≡ true → lt a c ≡ true
  pub cotrans : (a b c : A) → lt a c ≡ true → lt a b ≡ false → lt b c ≡ true
  pub tie : (a b : A) → lt a b ≡ false → lt b a ≡ false → E a b

module _ {ℓ} {A : Type ℓ} (lt : A → A → Bool) where
  unfoldable pub insert_sorted : A → List A → List A
  insert_sorted x [] = x ∷ []
  insert_sorted x (y ∷ ys) = if lt y x then y ∷ insert_sorted x ys else x ∷ y ∷ ys

  unfoldable pub sort : List A → List A
  sort [] = []
  sort (x ∷ xs) = insert_sorted x (sort xs)

-- The laws of a strict total order.
abbrev pub IsTotal {ℓ} : {A : Type ℓ} → (A → A → Bool) → Type ℓ
IsTotal lt = IsLess ◌≡◌ lt

-- A Boolean test of equality.
pub record IsEqb {ℓ} {A : Type ℓ} (eqb : A → A → Bool) : Type ℓ where
  pub sound : (a b : A) → eqb a b ≡ true → a ≡ b
  pub complete : (a : A) → eqb a a ≡ true

pub same-IsEqb {ℓ} : {A : Type ℓ} (dec : Discrete A) → IsEqb (same dec)
same-IsEqb dec = record { sound = λ a b. same→eq dec a b; complete = λ a. same_self dec a }

module _ {ℓ} {A F : Type ℓ} (f : A → F) (eqb lt : F → F → Bool) (less : A → A → Bool) where
  -- Compare one component first, and go on where it is equal.
  abbrev pub lex : A → A → Bool
  lex a b = if eqb (f a) (f b) then less a b else lt (f a) (f b)

  pub lex-IsLess :
      {E : A → A → Type ℓ}
      → IsEqb eqb
      → IsTotal lt
      → IsLess E less
      → IsLess (λ a b. (f a ≡ f b) × E a b) lex
  lex-IsLess {E} q t l = record {
    irrefl = λ a. rw (q.complete (f a)) (l.irrefl a);
    trans = λ a b c h k. lex-trans a b c h k;
    cotrans = λ a b c h k. lex-cotrans a b c h k;
    tie = λ a b h k. lex-tie a b h k;
  }
    where
      lex-trans : (a b c : A) → lex a b ≡ true → lex b c ≡ true → lex a c ≡ true
      lex-trans a b c h k = ground (
        arith,
        q.sound (f a) (f b),
        q.sound (f b) (f c),
        q.sound (f a) (f c),
        q.complete (f a),
        q.complete (f b),
        t.trans (f a) (f b) (f c),
        t.irrefl (f a),
        t.irrefl (f b),
        t.trans (f b) (f a) (f b),
        l.trans a b c,
      )

      lex-cotrans : (a b c : A) → lex a c ≡ true → lex a b ≡ false → lex b c ≡ true
      lex-cotrans a b c h k = ground (
        arith,
        q.sound (f a) (f b),
        q.sound (f b) (f c),
        q.sound (f a) (f c),
        q.complete (f a),
        q.complete (f b),
        q.complete (f c),
        t.cotrans (f a) (f b) (f c),
        t.tie (f b) (f c),
        t.irrefl (f a),
        t.irrefl (f b),
        l.cotrans a b c,
      )

      lex-tie : (a b : A) → lex a b ≡ false → lex b a ≡ false → (f a ≡ f b) × E a b
      lex-tie a b h k = elim (Bool-cases (eqb (f a) (f b))) [
        | inl e ↦
            let p = q.sound (f a) (f b) e in
            let e' : eqb (f b) (f a) ≡ true = cc (p, q.complete (f a)) in
            (p, l.tie a b (rw e at h) (rw e' at k))
        | inr e ↦
            let e' : eqb (f b) (f a) ≡ false =
              ground (arith, q.sound (f b) (f a), q.complete (f a)) in
            absurd (ground (arith, t.tie (f a) (f b) (rw e at h) (rw e' at k), q.complete (f a)))
      ]

module _ {ℓ} {A : Type ℓ} {E : A → A → Type ℓ} (lt : A → A → Bool) (t : IsLess E lt) where
  -- Entries that are ordered one way or the other may be inserted in either order.
  pub insert_comm :
      (x y : A) (l : List A)
      → (lt x y ≡ true) ⊎ (lt y x ≡ true)
      → insert_sorted lt x (insert_sorted lt y l) ≡ insert_sorted lt y (insert_sorted lt x l)
  unfolding insert_sorted
  insert_comm x y [] h = ground (arith, t.trans x y x, t.irrefl x)
  insert_comm x y (z ∷ l) h =
      ground (arith, t.trans x y x, t.irrefl x, t.trans z x y, t.trans z y x, insert_comm x y l)

  pub insert_cancel : (x : A) (l ts : List A) → insert_sorted lt x l ≡ x ∷ ts → l ≡ ts
  unfolding insert_sorted
  insert_cancel x [] ts h = cc
  insert_cancel x (y ∷ l) ts h = ground (arith, t.irrefl x)

  -- No entry is below one that stands before it.
  abbrev pub Sorted : List A → Type ℓ
  Sorted [] = Unit
  Sorted (x ∷ xs) = All (λ y. lt y x ≡ false) xs × Sorted xs

  pub insert_sorted-All {κ} :
      (P : A → Type κ) (x : A) (l : List A) → P x → All P l → All P (insert_sorted lt x l)
  unfolding insert_sorted
  insert_sorted-All P x [] p a = (p, tt)
  insert_sorted-All P x (y ∷ l) p a = elim (Bool-cases (lt y x)) [
    | inl e ↦ rw e (a.0, insert_sorted-All P x l p a.1)
    | inr e ↦ rw e (p, a)
  ]

  pub sort-All {κ} : (P : A → Type κ) (l : List A) → All P l → All P (sort lt l)
  unfolding sort
  sort-All P [] a = tt
  sort-All P (x ∷ l) a = insert_sorted-All P x (sort lt l) a.0 (sort-All P l a.1)

  insert_sorted-Sorted : (x : A) (l : List A) → Sorted l → Sorted (insert_sorted lt x l)
  unfolding insert_sorted
  insert_sorted-Sorted x [] s = (tt, tt)
  insert_sorted-Sorted x (y ∷ l) s = elim (Bool-cases (lt y x)) [
    | inl e ↦ rw e (
      insert_sorted-All (λ z. lt z y ≡ false) x l (ground (arith, t.trans y x y, t.irrefl y)) s.0,
      insert_sorted-Sorted x l s.1,
    )
    | inr e ↦ rw e (
      (
        e,
        All-map (λ z. lt z y ≡ false) (λ z. lt z x ≡ false) l
            (λ z h. ground (arith, t.cotrans z y x)) s.0,
      ),
      s,
    )
  ]

  pub sort-Sorted : (l : List A) → Sorted (sort lt l)
  unfolding sort
  sort-Sorted [] = tt
  sort-Sorted (x ∷ l) = insert_sorted-Sorted x (sort lt l) (sort-Sorted l)

  insert_first : (x : A) (l : List A) → All (λ y. lt y x ≡ false) l → insert_sorted lt x l ≡ x ∷ l
  unfolding insert_sorted
  insert_first x [] h = refl
  insert_first x (y ∷ l) h = rw h.0 refl

  -- The first of the least entries comes first in the sorted list, and leaves the others sorted.
  pub sort_first :
      (x : A) (xs ys : List A)
      → All (λ y. lt x y ≡ true) xs
      → All (λ y. lt y x ≡ false) ys
      → sort lt (xs ++ x ∷ ys) ≡ x ∷ sort lt (xs ++ ys)
  unfolding sort insert_sorted
  sort_first x [] ys h k = insert_first x (sort lt ys) (sort-All (λ y. lt y x ≡ false) ys k)
  sort_first x (y ∷ xs) ys h k = rw (sort_first x xs ys h.1 k, h.0) refl

  insert_sorted-inside {κ} :
      (P : A → Type κ) (x : A) (l : List A) → All P (insert_sorted lt x l) → P x × All P l
  unfolding insert_sorted
  insert_sorted-inside P x [] a = a
  insert_sorted-inside P x (y ∷ l) a = elim (Bool-cases (lt y x)) [
    | inl e ↦
        let b : All P (y ∷ insert_sorted lt x l) = rw e at a in
        let rest = insert_sorted-inside P x l b.1 in (rest.0, (b.0, rest.1))
    | inr e ↦ rw e at a
  ]

  -- What holds of all entries of a sorted list holds of those sorted.
  pub sort-inside {κ} : (P : A → Type κ) (l : List A) → All P (sort lt l) → All P l
  unfolding sort
  sort-inside P [] a = tt
  sort-inside P (x ∷ l) a =
      let b = insert_sorted-inside P x (sort lt l) a in (b.0, sort-inside P l b.1)
