-- ===== src/Sighash/Lotus/Root.antt =====
-- `getMerkleRoot` of sighash.ts and `_computeMerkleRoot` of transaction.ts.
use lotus_sdk.Common.{ℕ, zero, suc, ◌+◌, List, [], ◌∷◌, length, ◌≤◌, ◌≡◌, refl, sym, ap, ◌∙◌, arith}
use lotus_sdk.ScriptNum.{Buffer}
use lotus_sdk.Errors.{ok}
use lotus_sdk.Merkle.{compute_merkle_root}
use lotus_sdk.Merkle.Layers.{length-next_layer, IsRoot, single, layer_up}
use lotus_sdk.Merkle.Loop.{compute_merkle_root-IsRoot}
use lotus_sdk.Sighash.Lotus.{merkle_loop, get_merkle_root}

module _ (hash : Buffer → Buffer) where
  merkle_loop-IsRoot :
      {hashes : List Buffer} {root : Buffer} {levels : ℕ} (fuel height : ℕ)
      → length hashes ≤ fuel
      → IsRoot hash hashes root levels
      → merkle_loop hash fuel hashes (height + 1) ≡ ok (root, height + levels)
  unfolding merkle_loop
  merkle_loop-IsRoot fuel height h (single x) = refl
  merkle_loop-IsRoot zero height h (layer_up a b layer r) = absurd (omega arith)
  merkle_loop-IsRoot {root = root} (suc fuel) height h (layer_up a b layer {height = levels} r) =
      merkle_loop-IsRoot fuel (height + 1) (omega (arith, length-next_layer hash (a ∷ b ∷ layer))) r
      ∙ ap (λ (n : ℕ). ok (root, n)) (omega arith)

  -- The two loops compute the same root and the same number of layers, or null for no hashes.
  pub get_merkle_root-compute_merkle_root :
      (hashes : List Buffer) → get_merkle_root hash hashes ≡ compute_merkle_root hash hashes
  unfolding get_merkle_root
  get_merkle_root-compute_merkle_root [] = unfold compute_merkle_root in refl
  get_merkle_root-compute_merkle_root (a ∷ hashes) =
      let (root, height, computed, _, tree) = compute_merkle_root-IsRoot hash (a ∷ hashes) (cc) in
      merkle_loop-IsRoot (length (a ∷ hashes)) 0 (omega arith) tree
      ∙ ap (λ (n : ℕ). ok (root, n)) (omega arith)
      ∙ sym computed
