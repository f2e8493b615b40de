-- ===== src/Base/Assoc.antt =====
-- Go maps as association lists with one entry for each key.
use mathlib.Core.Path.{◌≡◌, refl, subst}
use mathlib.Core.Bool.{Bool, true, false}
use mathlib.Core.List.{List, [], ◌∷◌}
use mathlib.Core.Logic.{◌≢◌, ite}
use mathlib.Core.Option.{Option, none, some}
use native.Mathlib.Omega.{arith}
use assembled_watchtower.Base.Lists.{All}

module _ {ℓ} {K V : Type ℓ} (dec : Discrete K) where
  -- `m[k]`, with the second result of the two-value form.
  unfoldable pub lookup : K → List (K × V) → Option V
  lookup k [] = none
  lookup k ((j, v) ∷ m) = ite (dec j k) (some v) (lookup k m)

  -- `m[k] = v`
  unfoldable pub insert : K → V → List (K × V) → List (K × V)
  insert k v [] = (k, v) ∷ []
  insert k v ((j, w) ∷ m) = ite (dec j k) ((k, v) ∷ m) ((j, w) ∷ insert k v m)

  -- `delete(m, k)`
  unfoldable pub delete : K → List (K × V) → List (K × V)
  delete k [] = []
  delete k ((j, v) ∷ m) = ite (dec j k) m ((j, v) ∷ delete k m)

  -- No key stands in two entries.
  abbrev pub Unique : List (K × V) → Type ℓ
  Unique [] = Unit
  Unique ((j, v) ∷ m) = (lookup j m ≡ none) × Unique m

  pub lookup_here : (k : K) (v : V) (m : List (K × V)) → lookup k ((k, v) ∷ m) ≡ some v
  unfolding lookup
  lookup_here k v m = ground arith

  pub lookup-insert :
      (k j : K) (v : V) (m : List (K × V))
      → lookup j (insert k v m) ≡ ite (dec k j) (some v) (lookup j m)
  unfolding lookup insert
  lookup-insert k j v [] = refl
  lookup-insert k j v ((i, w) ∷ m) = ground (arith, lookup-insert k j v m)

  pub lookup-insert_self : (k : K) (v : V) (m : List (K × V)) → lookup k (insert k v m) ≡ some v
  lookup-insert_self k v m = ground (arith, lookup-insert k k v m)

  pub lookup-insert_ne :
      (k j : K) (v : V) (m : List (K × V)) → k ≢ j → lookup j (insert k v m) ≡ lookup j m
  lookup-insert_ne k j v m h = ground (arith, lookup-insert k j v m)

  pub insert-Unique : (k : K) (v : V) (m : List (K × V)) → Unique m → Unique (insert k v m)
  unfolding lookup insert
  insert-Unique k v [] u = (refl, tt)
  insert-Unique k v ((i, w) ∷ m) u = ground (arith, insert-Unique k v m u.1, lookup-insert k i v m)

  pub lookup-delete :
      (k j : K) (m : List (K × V))
      → Unique m
      → lookup j (delete k m) ≡ ite (dec k j) none (lookup j m)
  unfolding lookup delete
  lookup-delete k j [] u = ground arith
  lookup-delete k j ((i, w) ∷ m) u = ground (arith, lookup-delete k j m u.1)

  pub delete-Unique : (k : K) (m : List (K × V)) → Unique m → Unique (delete k m)
  unfolding lookup delete
  delete-Unique k [] u = tt
  delete-Unique k ((i, w) ∷ m) u = ground (arith, delete-Unique k m u.1, lookup-delete k i m u.1)

  pub lookup-All {κ} :
      (P : V → Type κ) (k : K) (v : V) (m : List (K × V))
      → All (λ (e : K × V). P e.1) m
      → lookup k m ≡ some v
      → P v
  unfolding lookup
  lookup-All P k v [] h e = ground (arith, e)
  lookup-All P k v ((j, w) ∷ m) h e =
      elim (dec j k) as (λ d. ite d (some w) (lookup k m) ≡ some v → P v) [
        | yes p ↦ λ e'. let same_value : w ≡ v = ground (arith, e') in subst P same_value h.0
        | no ne ↦ λ e'. lookup-All P k v m h.1 e'
      ]
        e

-- Go sets, `map[K]struct{}`, as lists.
module _ {ℓ} {K : Type ℓ} (dec : Discrete K) where
  unfoldable pub has : K → List K → Bool
  has k [] = false
  has k (j ∷ m) = ite (dec j k) true (has k m)
