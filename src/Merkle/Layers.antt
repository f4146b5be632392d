-- ===== src/Merkle/Layers.antt =====
-- The Merkle root by layers: what the loops are to compute.
use lotus_sdk.Common.{ℕ, ◌+◌, ◌/◌, ◌%◌, ◌≡◌, refl, ap, List, [], ◌∷◌, ◌++◌, length, arith}
use lotus_sdk.ScriptNum.{Buffer}
use lotus_sdk.Merkle.{null_hash}

module _ (hash : Buffer → Buffer) where
  -- A layer's nodes hashed in pairs, the last one with the null hash where it has no partner.
  unfoldable pub next_layer : List Buffer → List Buffer
  next_layer [] = []
  next_layer (x ∷ []) = hash (x ++ null_hash) ∷ []
  next_layer (x ∷ y ∷ layer) = hash (x ++ y) ∷ next_layer layer

  -- The root of a tree over a layer, and the number of its layers.
  pub data IsRoot : List Buffer → Buffer → ℕ → Type 0 where
    single : (x : Buffer) → IsRoot (x ∷ []) x 1
    layer_up :
        (x y : Buffer) (layer : List Buffer) {root : Buffer} {height : ℕ}
        → IsRoot (next_layer (x ∷ y ∷ layer)) root height
        → IsRoot (x ∷ y ∷ layer) root (height + 1)

  pub length-next_layer : (layer : List Buffer) → length (next_layer layer) ≡ (length layer + 1) / 2
  unfolding next_layer
  length-next_layer [] = omega arith
  length-next_layer (x ∷ []) = omega arith
  length-next_layer (x ∷ y ∷ layer) = omega (arith, length-next_layer layer)

  -- Padding an odd layer with the null hash does not change the next one.
  pub next_layer-padded :
      (layer : List Buffer)
      → length layer % 2 ≡ 1
      → next_layer (layer ++ (null_hash ∷ [])) ≡ next_layer layer
  unfolding next_layer
  next_layer-padded [] h = absurd (omega arith)
  next_layer-padded (x ∷ []) h = refl
  next_layer-padded (x ∷ y ∷ layer) h =
      ap (λ (t : List Buffer). hash (x ++ y) ∷ t) (next_layer-padded layer (omega arith))
