-- ===== src/Transaction.antt =====
-- Transactions on the wire and their identifiers (lib/bitcore/transaction/transaction.ts). The
-- double SHA-256 is a parameter.
pub mod Inputs
pub mod Outputs
pub mod RoundTrip
pub mod Size
pub mod Scripts
pub mod Total
pub mod Commits
pub mod Tests
use lotus_sdk.Common.{ℕ, List, [], ◌∷◌, ◌++◌, reverse, length, ltb, ◌==◌, if◌then◌else◌}
use lotus_sdk.Common.Ints.{ℤ}
use lotus_sdk.ScriptNum.{Buffer}
use lotus_sdk.Errors.{Result, ok, throws, bn_assertion, no_data, ◌>>=◌}
use lotus_sdk.Script.{read_uint32_le, write_uint8, write_uint32_le}
use lotus_sdk.Encoding.{
  ◌followed_by◌, read_int32_le, write_int32_le, read_varint_num, write_varint_num,
  write_uint64_le_bn, write_var_length_buffer, read_times, write_all,
}
use lotus_sdk.Merkle.{null_hash, compute_merkle_root}
use lotus_sdk.Transaction.Inputs
use lotus_sdk.Transaction.Inputs.{Input}
use lotus_sdk.Transaction.Outputs
use lotus_sdk.Transaction.Outputs.{Output}

pub record Transaction : Type 0 where
  pub version : ℤ
  pub inputs : List Input
  pub outputs : List Output
  pub n_lock_time : ℕ

-- `new BN(output.satoshis)`: bn.js asserts that a number it is made of is below 2^53. Rounding to
-- the double `satoshis` does not carry a number over this bound, in either direction.
unfoldable pub satoshis_of : Output → Result ℕ
satoshis_of output =
    if ltb output.satoshis_bn 9007199254740992 then ok output.satoshis_bn else throws bn_assertion

-- `writeUInt64LEBN(new BN(output.satoshis))` and `writeVarLengthBuffer(output.scriptBuffer)`
unfoldable pub write_output : Output → Result Buffer
write_output output = do
  satoshis ← satoshis_of output
  write_uint64_le_bn satoshis followed_by write_var_length_buffer output.script_buffer

unfoldable pub to_buffer_writer : Transaction → Result Buffer
to_buffer_writer tx =
    write_int32_le tx.version
    followed_by write_varint_num (length tx.inputs)
    followed_by write_all Inputs.to_buffer_writer tx.inputs
    followed_by write_varint_num (length tx.outputs)
    followed_by write_all write_output tx.outputs
    followed_by write_uint32_le tx.n_lock_time

-- `fromBufferReader` of a new transaction, which has no inputs and no outputs yet.
unfoldable pub from_buffer_reader : Buffer → Result (Transaction × Buffer)
from_buffer_reader reader = if length reader == 0 then throws no_data else (do
  (version, after_version) ← read_int32_le reader
  (size_tx_ins, at_inputs) ← read_varint_num after_version
  (inputs, after_inputs) ← read_times Inputs.from_buffer_reader size_tx_ins at_inputs
  (size_tx_outs, at_outputs) ← read_varint_num after_inputs
  (outputs, after_outputs) ← read_times Outputs.from_buffer_reader size_tx_outs at_outputs
  (n_lock_time, rest) ← read_uint32_le after_outputs
  ok (
    record { version = version; inputs = inputs; outputs = outputs; n_lock_time = n_lock_time },
    rest,
  ))

-- The bytes that stand for an input in the tree of `_getTxInputHashes`.
unfoldable pub input_leaf : Input → Result Buffer
input_leaf input =
    ok (reverse input.prev_tx_id)
    followed_by write_uint32_le input.output_index
    followed_by write_uint32_le input.sequence_number

module _ (sha256sha256 : Buffer → Buffer) where
  -- `_getHash`
  unfoldable pub get_hash : Transaction → Result Buffer
  get_hash tx = do bytes ← to_buffer_writer tx; ok (sha256sha256 bytes)

  -- The hashes of the leaves, in the order of the items, where the null hash stands for no items.
  unfoldable pub leaf_hashes {ℓ} :
      {A : Type ℓ} → (A → Result Buffer) → List A → Result (List Buffer)
  leaf_hashes leaf [] = ok []
  leaf_hashes leaf (a ∷ items) = do
    bytes ← leaf a
    more ← leaf_hashes leaf items
    ok (sha256sha256 bytes ∷ more)

  unfoldable pub hashes_or_null {ℓ} :
      {A : Type ℓ} → (A → Result Buffer) → List A → Result (List Buffer)
  hashes_or_null leaf [] = ok (null_hash ∷ [])
  hashes_or_null leaf (a ∷ items) = leaf_hashes leaf (a ∷ items)

  unfoldable pub get_tx_input_hashes : List Input → Result (List Buffer)
  get_tx_input_hashes inputs = hashes_or_null input_leaf inputs

  unfoldable pub get_tx_output_hashes : List Output → Result (List Buffer)
  get_tx_output_hashes outputs = hashes_or_null write_output outputs

  -- `_getTxid`
  unfoldable pub get_txid : Transaction → Result Buffer
  get_txid tx = do
    version ← write_int32_le tx.version
    input_hashes ← get_tx_input_hashes tx.inputs
    output_hashes ← get_tx_output_hashes tx.outputs
    (input_root, input_height) ← compute_merkle_root sha256sha256 input_hashes
    (output_root, output_height) ← compute_merkle_root sha256sha256 output_hashes
    input_layers ← write_uint8 input_height
    output_layers ← write_uint8 output_height
    lock_time ← write_uint32_le tx.n_lock_time
    ok (
        sha256sha256 (
          version
          ++ (input_root ++ (input_layers ++ (output_root ++ (output_layers ++ lock_time))))))
