-- ===== src/Ids/Examples.antt =====
-- The theorems on identifiers at an input.
use assembled_watchtower.Base.{◌≡◌, refl, [], ◌∷◌, codes}
use assembled_watchtower.Ids.Parts.{stable_id-injective}

stable_id-injective_example : ◌≡◌ (codes "a" ∷ codes "b" ∷ []) (codes "a" ∷ codes "b" ∷ [])
stable_id-injective_example =
    stable_id-injective (codes "alert-series") (codes "a" ∷ codes "b" ∷ [])
      (codes "a" ∷ codes "b" ∷ []) refl
