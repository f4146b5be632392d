-- ===== src/Merkle/Tests.antt =====
-- Trees of three nodes.
use lotus_sdk.Common.{ℕ, ◌+◌, ◌*◌, ◌%◌, ◌≡◌, refl, List, [], ◌∷◌, replicate, arith}
use lotus_sdk.ScriptNum.{Buffer}
use lotus_sdk.Errors.{ok}
use lotus_sdk.Merkle.{compute_merkle_root, tree_root}
use lotus_sdk.Merkle.Layers.{IsRoot}
use lotus_sdk.Merkle.Loop.{compute_merkle_root-IsRoot}
use lotus_sdk.Merkle.Binding.{IsHash, replicate-IsByte}

-- A hash function of 32 bytes that is quickly computed.
abbrev sum : Buffer → ℕ
sum [] = 0
sum (b ∷ bytes) = b + 3 * sum bytes

abbrev pub checksum : Buffer → Buffer
checksum bytes = sum bytes % 256 ∷ replicate 31 0

pub checksum-IsHash : (b : Buffer) → IsHash (checksum b)
checksum-IsHash b = (refl, (omega arith, replicate-IsByte 31))

abbrev three : List Buffer
three = (1 ∷ []) ∷ (2 ∷ []) ∷ (3 ∷ []) ∷ []

compute_merkle_root-IsRoot_example :
    (root : Buffer) × (height : ℕ) × (compute_merkle_root checksum three ≡ ok (root, height))
    × (tree_root checksum three ≡ ok root)
    × IsRoot checksum three root height
compute_merkle_root-IsRoot_example = compute_merkle_root-IsRoot checksum three (cc)
