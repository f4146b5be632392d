-- ===== src/Transaction/Total.antt =====
-- The identifier of a transaction is computed without an error.
use lotus_sdk.Common.{
  ℕ, zero, suc, ◌+◌, ◌-◌, ◌^◌, ◌<◌, ◌≤◌, ◌≡◌, inl, inr, refl, ap, List, [], ◌∷◌, ◌++◌, reverse, All,
  length, ltb, ltb→lt, Bool-cases, arith, All-map,
}
use lotus_sdk.ScriptNum.{Buffer}
use lotus_sdk.Errors.{Result, ok, ◌>>=◌}
use lotus_sdk.Script.{write_uint8, write_uint32_le}
use lotus_sdk.Encoding.{write_int32_le}
use lotus_sdk.Encoding.RoundTrip.{write_uint32_le-Rereads, write_int32_le-Rereads}
use lotus_sdk.Merkle.{null_hash, compute_merkle_root}
use lotus_sdk.Merkle.Layers.{IsRoot}
use lotus_sdk.Merkle.Loop.{compute_merkle_root-IsRoot}
use lotus_sdk.Merkle.Binding.{IsHash, null_hash-IsHash, IsRoot-height}
use lotus_sdk.Transaction.{
  Transaction, input_leaf, write_output, leaf_hashes, hashes_or_null, get_tx_input_hashes,
  get_tx_output_hashes, get_txid,
}
use lotus_sdk.Transaction.Inputs.{Input}
use lotus_sdk.Transaction.Outputs.{Output}
use lotus_sdk.Transaction.RoundTrip.{ValidInput, ValidOutput, ValidTransaction, output-Rereads}

-- Powers of two beyond the length of an array.
power_large : (m : ℕ) → 18014398509481984 ≤ 2 ^ (54 + m)
power_large zero = omega arith
power_large (suc m) =
    let step : 54 + suc m ≡ suc (54 + m) = omega arith in rw step (omega (arith, power_large m))

level_bound : (k : ℕ) → 2 ^ k < 18014398509481984 → k < 54
level_bound k h = elim (Bool-cases (ltb k 54)) [
  | inl p ↦ ltb→lt k 54 p
  | inr p ↦
      let whole : 54 + (k - 54) ≡ k = ground arith in
      absurd (omega (arith, power_large (k - 54), ap (λ (n : ℕ). 2 ^ n) whole, h))
]

module _ (hash : Buffer → Buffer) where
  -- The hashes of leaves that are all written.
  leaf_hashes-ok :
      {A : Type 0} (leaf : A → Result Buffer) (items : List A)
      → ((b : Buffer) → IsHash (hash b))
      → All (λ a. (bytes : Buffer) × (leaf a ≡ ok bytes)) items
      → (hashes : List Buffer) × (leaf_hashes hash leaf items ≡ ok hashes)
        × (length hashes ≡ length items)
        × All IsHash hashes
  unfolding leaf_hashes
  leaf_hashes-ok leaf [] out h = ([], refl, refl, tt)
  leaf_hashes-ok leaf (a ∷ items) out ((bytes, written), hs) =
      let (hashes, done, count, all) = leaf_hashes-ok leaf items out hs in
      (hash bytes ∷ hashes, rw (written, done) refl, ap suc count, (out bytes, all))

  -- What `_getTxid` computes of one list of items.
  abbrev pub Tree : {A : Type 0} → (A → Result Buffer) → List A → Type 0
  Tree leaf items =
      (hashes : List Buffer) × (root : Buffer) × (k : ℕ) × (hashes_or_null hash leaf items
        ≡ ok hashes)
      × (compute_merkle_root hash hashes ≡ ok (root, suc k))
      × IsRoot hash hashes root (suc k)
      × All IsHash hashes
      × (k < 54)

  tree_over :
      {A : Type 0} (leaf : A → Result Buffer) (items : List A) (hashes : List Buffer)
      → hashes_or_null hash leaf items ≡ ok hashes
      → 0 < length hashes
      → length hashes ≤ 9007199254740992
      → All IsHash hashes
      → Tree leaf items
  tree_over leaf items hashes done some_hash fits all =
      let (root, height, computed, _, is_root) =
        compute_merkle_root-IsRoot hash hashes
          (λ e. absurd (omega (arith, ap length e, some_hash))) in
      let (k, e, low, high) = IsRoot-height hash is_root in
      (hashes, root, k, done, rw (← e) computed, rw (← e) is_root, all, level_bound k (omega arith))

  pub tree :
      {A : Type 0} (leaf : A → Result Buffer) (items : List A)
      → ((b : Buffer) → IsHash (hash b))
      → All (λ a. (bytes : Buffer) × (leaf a ≡ ok bytes)) items
      → length items ≤ 9007199254740992
      → Tree leaf items
  unfolding hashes_or_null
  tree leaf [] out h fits =
      tree_over leaf [] (null_hash ∷ []) refl (omega arith) (omega arith) (null_hash-IsHash, tt)
  tree leaf (a ∷ items) out h fits =
      let (hashes, done, count, all) = leaf_hashes-ok leaf (a ∷ items) out h in
      tree_over leaf (a ∷ items) hashes done (omega arith) (omega arith) all

  -- The bytes whose hash is a transaction's identifier.
  unfoldable pub txid_bytes : Transaction → Result Buffer
  txid_bytes tx = do
    version ← write_int32_le tx.version
    input_hashes ← get_tx_input_hashes hash tx.inputs
    output_hashes ← get_tx_output_hashes hash tx.outputs
    (input_root, input_height) ← compute_merkle_root hash input_hashes
    (output_root, output_height) ← compute_merkle_root hash output_hashes
    input_layers ← write_uint8 input_height
    output_layers ← write_uint8 output_height
    lock_time ← write_uint32_le tx.n_lock_time
    ok (version ++ (input_root ++ (input_layers ++ (output_root ++ (output_layers ++ lock_time)))))

  -- A transaction's identifier, with what it is computed from.
  pub record Identified (tx : Transaction) : Type 0 where
    pub version : Buffer
    pub lock_time : Buffer
    pub ins : Tree input_leaf tx.inputs
    pub outs : Tree write_output tx.outputs
    pub version_written : write_int32_le tx.version ≡ ok version
    pub lock_time_written : write_uint32_le tx.n_lock_time ≡ ok lock_time
    pub bytes_made :
        txid_bytes tx
        ≡ ok (version ++ (ins.1 ++ (suc ins.2 ∷ [] ++ (outs.1 ++ (suc outs.2 ∷ [] ++ lock_time)))))
    pub computed :
        get_txid hash tx
        ≡ ok (
            hash (
              version ++ (ins.1 ++ (suc ins.2 ∷ [] ++ (outs.1 ++ (suc outs.2 ∷ [] ++ lock_time))))))

  input_leaf-ok :
      (input : Input) → ValidInput input → (bytes : Buffer) × (input_leaf input ≡ ok bytes)
  unfolding input_leaf
  input_leaf-ok input v =
      let (index, index_written, _) = write_uint32_le-Rereads input.output_index v.index_fits in
      let (sequence, sequence_written, _) =
        write_uint32_le-Rereads input.sequence_number v.sequence_fits in
      (reverse input.prev_tx_id ++ (index ++ sequence), rw (index_written, sequence_written) refl)

  output-ok :
      (output : Output) → ValidOutput output → (bytes : Buffer) × (write_output output ≡ ok bytes)
  output-ok output v = let (bytes, written, _) = output-Rereads output v in (bytes, written)

  byte : (n : ℕ) → n < 256 → write_uint8 n ≡ ok (n ∷ [])
  unfolding write_uint8
  byte n h = ground arith

  -- Where the hash function returns 32 bytes, `_getTxid` returns for every valid transaction: the
  -- numbers of layers are at most 54 and fit a byte.
  pub get_txid-ok :
      (tx : Transaction) → ((b : Buffer) → IsHash (hash b)) → ValidTransaction tx → Identified tx
  unfolding get_txid txid_bytes get_tx_input_hashes get_tx_output_hashes write_uint8
  get_txid-ok tx out v =
      let (version, version_written, _) = write_int32_le-Rereads tx.version v.version_fits in
      let (lock_time, lock_time_written, _) =
        write_uint32_le-Rereads tx.n_lock_time v.lock_time_fits in
      let ins =
        tree input_leaf tx.inputs out (All-map input_leaf-ok tx.inputs v.inputs_valid)
          v.inputs_fit in
      let outs =
        tree write_output tx.outputs out (All-map output-ok tx.outputs v.outputs_valid)
          v.outputs_fit in
      record {
        version = version;
        lock_time = lock_time;
        ins = ins;
        outs = outs;
        version_written = version_written;
        lock_time_written = lock_time_written;
        bytes_made =
            rw
              (
                version_written,
                ins.3,
                outs.3,
                ins.4,
                outs.4,
                lock_time_written,
                byte (suc ins.2) (omega (arith, ins.7)),
                byte (suc outs.2) (omega (arith, outs.7)),
              )
              refl;
        computed =
            rw
              (
                version_written,
                ins.3,
                outs.3,
                ins.4,
                outs.4,
                lock_time_written,
                byte (suc ins.2) (omega (arith, ins.7)),
                byte (suc outs.2) (omega (arith, outs.7)),
              )
              refl;
      }
