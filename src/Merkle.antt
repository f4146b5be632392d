-- ===== src/Merkle.antt =====
-- The Merkle trees of a transaction's inputs and outputs and of a block's transactions
-- (`_computeMerkleRoot` of lib/bitcore/transaction/transaction.ts, `getMerkleTree` and
-- `getMerkleRoot` of lib/bitcore/block/block.ts). Both keep all layers in one array and read the
-- layer from `j` on while they push the next one. The hash function is a parameter.
pub mod Layers
pub mod Loop
pub mod Binding
pub mod Tests
use lotus_sdk.Common.{
  ℕ, zero, suc, ◌+◌, ◌-◌, ◌/◌, ◌%◌, List, [], ◌∷◌, ◌++◌, length, replicate, ltb, ◌==◌,
  if◌then◌else◌,
}
use lotus_sdk.ScriptNum.{Buffer}
use lotus_sdk.Errors.{Result, ok, throws, type_error, range_error, ◌>>=◌}

abbrev pub null_hash : Buffer
null_hash = replicate 32 0

-- `hashes[i]`, where `Buffer.concat` throws a TypeError for `undefined`.
unfoldable pub element_at : List Buffer → ℕ → Result Buffer
element_at [] i = throws type_error
element_at (b ∷ hashes) zero = ok b
element_at (b ∷ hashes) (suc i) = element_at hashes i

-- The array and the size of a layer with an even number of nodes.
unfoldable pub pad_layer : List Buffer → ℕ → List Buffer × ℕ
pad_layer hashes size =
    if size % 2 == 1 then (hashes ++ (null_hash ∷ []), size + 1) else (hashes, size)

module _ (hash : Buffer → Buffer) where
  -- The inner loop, of so many rounds, from index `k` on.
  unfoldable pub hash_pairs : ℕ → List Buffer → ℕ → Result (List Buffer)
  hash_pairs zero hashes k = ok hashes
  hash_pairs (suc rounds) hashes k = do
    left ← element_at hashes k
    right ← element_at hashes (k + 1)
    hash_pairs rounds (hashes ++ (hash (left ++ right) ∷ [])) (k + 2)

  -- The outer loop, one layer to a unit of fuel; without fuel it would stop with an error.
  unfoldable pub root_loop : ℕ → List Buffer → ℕ → ℕ → ℕ → Result (List Buffer × ℕ)
  root_loop zero hashes j size height =
      if ltb 1 size then throws range_error else ok (hashes, height)
  root_loop (suc fuel) hashes j size height =
      if ltb 1 size
      then (do
        let (padded, even) = pad_layer hashes size
        hashed ← hash_pairs (even / 2) padded j
        root_loop fuel hashed (j + even) (even / 2) (height + 1))
      else ok (hashes, height)

  unfoldable pub compute_merkle_root : List Buffer → Result (Buffer × ℕ)
  compute_merkle_root [] = ok (null_hash, 0)
  compute_merkle_root (b ∷ bs) = do
    (hashes, height) ← root_loop (length (b ∷ bs)) (b ∷ bs) 0 (length (b ∷ bs)) 1
    root ← element_at hashes (length hashes - 1)
    ok (root, height)

  -- The loop of `getMerkleTree`.
  unfoldable pub tree_loop : ℕ → List Buffer → ℕ → ℕ → Result (List Buffer)
  tree_loop zero tree j size = if ltb 1 size then throws range_error else ok tree
  tree_loop (suc fuel) tree j size =
      if ltb 1 size
      then (do
        let (padded, even) = pad_layer tree size
        hashed ← hash_pairs (even / 2) padded j
        tree_loop fuel hashed (j + even) (even / 2))
      else ok tree

  -- `getMerkleTree` behind `getTransactionHashes`.
  unfoldable pub merkle_tree : List Buffer → Result (List Buffer)
  merkle_tree hashes = tree_loop (length hashes) hashes 0 (length hashes)

  unfoldable pub tree_root : List Buffer → Result Buffer
  tree_root hashes = do tree ← merkle_tree hashes; element_at tree (length tree - 1)
