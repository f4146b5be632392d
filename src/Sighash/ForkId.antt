-- ===== src/Sighash/ForkId.antt =====
-- The hash that a signature of type FORKID signs (`sighashForForkId` and the functions it calls in
-- lib/bitcore/transaction/sighash.ts).
pub mod Parts
pub mod Fields
pub mod Rows
pub mod Hashes
pub mod Commits
pub mod Independent
use lotus_sdk.Common.{
  ℕ, not, ◌&&◌, Option, none, some, List, ◌++◌, reverse, length, take, ltb, if◌then◌else◌,
}
use lotus_sdk.ScriptNum.{Buffer}
use lotus_sdk.Errors.{Result, ok, throws, invalid_argument, ◌>>=◌, ◌>>◌}
use lotus_sdk.Script.{Chunk, write_uint32_le, to_buffer}
use lotus_sdk.Encoding.{◌followed_by◌, write_varint_num, write_uint64_le_bn, write_all}
use lotus_sdk.Merkle.{null_hash}
use lotus_sdk.Transaction.{Transaction}
use lotus_sdk.Transaction.Inputs.{Input}
use lotus_sdk.Transaction.Outputs
use lotus_sdk.Sighash.Types.{is_anyonecanpay, is_single, is_none, element, write_version}

unfoldable pub write_prevout : Input → Result Buffer
write_prevout input = ok (reverse input.prev_tx_id) followed_by write_uint32_le input.output_index

-- What is hashed, behind the three hashes.
unfoldable pub preimage :
    Transaction → ℕ → ℕ → List Chunk → ℕ → Buffer → Buffer → Buffer → Result Buffer
preimage tx sighash_type i subscript satoshis hash_prevouts hash_sequence hash_outputs = do
  version ← write_version tx.version
  input ← element tx.inputs i
  prevout ← write_prevout input
  script ← to_buffer subscript
  size ← write_varint_num (length script)
  amount ← write_uint64_le_bn satoshis
  sequence ← write_uint32_le input.sequence_number
  lock_time ← write_uint32_le tx.n_lock_time
  hash_type ← write_uint32_le sighash_type
  ok (
      version
      ++ (hash_prevouts
          ++ (hash_sequence
              ++ (prevout
                  ++ (size
                      ++ (script
                          ++ (amount
                              ++ (sequence ++ (hash_outputs ++ (lock_time ++ hash_type))))))))))

module _ (sha256sha256 : Buffer → Buffer) where
  unfoldable pub hash_all {ℓ} : {A : Type ℓ} → (A → Result Buffer) → List A → Result Buffer
  hash_all writer items = do bytes ← write_all writer items; ok (sha256sha256 bytes)

  unfoldable pub get_prevout_hash : Transaction → Result Buffer
  get_prevout_hash tx = hash_all write_prevout tx.inputs

  unfoldable pub get_sequence_hash : Transaction → Result Buffer
  get_sequence_hash tx =
      hash_all (λ (input : Input). write_uint32_le input.sequence_number) tx.inputs

  -- `GetOutputsHash`, without and with the number of an output.
  unfoldable pub get_outputs_hash : Transaction → Result Buffer
  get_outputs_hash tx = hash_all Outputs.to_buffer_writer tx.outputs

  unfoldable pub get_output_hash : Transaction → ℕ → Result Buffer
  get_output_hash tx n = do
    output ← element tx.outputs n
    bytes ← Outputs.to_buffer_writer output
    ok (sha256sha256 bytes)

  unfoldable pub prevouts_part : Transaction → ℕ → Result Buffer
  prevouts_part tx sighash_type =
      if is_anyonecanpay sighash_type then ok null_hash else get_prevout_hash tx

  unfoldable pub sequence_part : Transaction → ℕ → Result Buffer
  sequence_part tx sighash_type =
      if not (is_anyonecanpay sighash_type)
        && not (is_single sighash_type)
        && not (is_none sighash_type)
      then get_sequence_hash tx
      else ok null_hash

  unfoldable pub outputs_part : Transaction → ℕ → ℕ → Result Buffer
  outputs_part tx sighash_type i =
      if not (is_single sighash_type) && not (is_none sighash_type)
      then get_outputs_hash tx
      else if is_single sighash_type && ltb i (length tx.outputs)
      then get_output_hash tx i
      else ok null_hash

  -- `BufferReader.read(32)` of the hash.
  unfoldable pub sighash_for_fork_id : Transaction → ℕ → ℕ → List Chunk → Option ℕ → Result Buffer
  sighash_for_fork_id tx sighash_type i subscript none = throws invalid_argument
  sighash_for_fork_id tx sighash_type i subscript (some satoshis) = do
    hash_prevouts ← prevouts_part tx sighash_type
    hash_sequence ← sequence_part tx sighash_type
    hash_outputs ← outputs_part tx sighash_type i
    bytes ← preimage tx sighash_type i subscript satoshis hash_prevouts hash_sequence hash_outputs
    ok (take 32 (sha256sha256 bytes))
