-- ===== src/Sighash/Lotus.antt =====
-- The hash that a signature of type LOTUS signs (`sighashForLotus` and `getMerkleRoot` in
-- lib/bitcore/transaction/sighash.ts).
pub mod Root
use lotus_sdk.Common.{
  ℕ, zero, suc, ◌+◌, bit_and, Bool, true, false, not, ◌||◌, Option, none, some, List, [], ◌∷◌, ◌++◌,
  reverse, length, ltb, leb, ◌==◌, if◌then◌else◌,
}
use lotus_sdk.ScriptNum.{Buffer}
use lotus_sdk.Errors.{
  Result, ok, throws, range_error, type_error, bn_assertion, invalid_argument, invalid_sighash_type,
  no_corresponding_output, ◌>>=◌, ◌>>◌,
}
use lotus_sdk.Script.{write_uint8, write_uint32_le}
use lotus_sdk.Encoding.{◌followed_by◌, write_uint64_le_bn}
use lotus_sdk.Merkle.{null_hash}
use lotus_sdk.Transaction.{Transaction, input_leaf, write_output, leaf_hashes}
use lotus_sdk.Transaction.Inputs.{Input}
use lotus_sdk.Transaction.Outputs
use lotus_sdk.Transaction.Outputs.{Output}
use lotus_sdk.Merkle.Layers.{next_layer}
use lotus_sdk.Sighash.Types.{sighash_all, sighash_single, is_anyonecanpay, element, write_version}

-- The sum of the doubles `satoshis` is below 2^53 exactly if that of the exact amounts is, and then
-- they are the same. bn.js refuses any other.
unfoldable pub sum_satoshis : List Output → ℕ
sum_satoshis [] = 0
sum_satoshis (output ∷ outputs) = output.satoshis_bn + sum_satoshis outputs

unfoldable pub total_amount : List Output → Result ℕ
total_amount outputs =
    if ltb (sum_satoshis outputs) 9007199254740992
    then ok (sum_satoshis outputs)
    else throws bn_assertion

unfoldable pub check_argument : Bool → Result (Unit {0})
check_argument true = ok tt
check_argument false = throws invalid_argument

module _ (sha256sha256 : Buffer → Buffer) where
  -- The loop, one layer to a unit of fuel; without fuel it would stop with an error.
  unfoldable pub merkle_loop : ℕ → List Buffer → ℕ → Result (Buffer × ℕ)
  merkle_loop fuel [] height = throws type_error
  merkle_loop fuel (root ∷ []) height = ok (root, height)
  merkle_loop zero (a ∷ b ∷ hashes) height = throws range_error
  merkle_loop (suc fuel) (a ∷ b ∷ hashes) height =
      merkle_loop fuel (next_layer sha256sha256 (a ∷ b ∷ hashes)) (height + 1)

  unfoldable pub get_merkle_root : List Buffer → Result (Buffer × ℕ)
  get_merkle_root [] = ok (null_hash, 0)
  get_merkle_root (a ∷ hashes) = merkle_loop (length (a ∷ hashes)) (a ∷ hashes) 1

  unfoldable pub merkle_root_of {ℓ} :
      {A : Type ℓ} → (A → Result Buffer) → List A → Result (Buffer × ℕ)
  merkle_root_of leaf items = do
    hashes ← leaf_hashes sha256sha256 leaf items
    get_merkle_root hashes

  -- Step 2, with the spend type and the output that is spent.
  unfoldable pub input_hash : ℕ → Input → Output → Result Buffer
  input_hash spend_type input spent_output = do
    bytes ←
        write_uint8 spend_type
        followed_by ok (reverse input.prev_tx_id)
        followed_by write_uint32_le input.output_index
        followed_by write_uint32_le input.sequence_number
        followed_by write_output spent_output
    ok (sha256sha256 bytes)

  -- Steps 2 and 3. `executedScriptHash` comes with the position of the last OP_CODESEPARATOR.
  unfoldable pub executed_part : Option (Buffer × ℕ) → Input → Output → Result Buffer
  executed_part none input spent_output = input_hash 0 input spent_output
  executed_part (some (script_hash, codeseparator_pos)) input spent_output =
      input_hash 2 input spent_output
      followed_by (check_argument (length script_hash == 32)
          >> write_uint32_le codeseparator_pos followed_by ok script_hash)

  -- Step 4.
  unfoldable pub spent_part : ℕ → ℕ → List Output → Result Buffer
  spent_part sighash_type i spent_outputs = if is_anyonecanpay sighash_type then ok [] else (do
    number ← write_uint32_le i
    (root, height) ← merkle_root_of write_output spent_outputs
    total ← total_amount spent_outputs
    amount ← write_uint64_le_bn total
    ok (number ++ (root ++ amount)))

  -- Step 5.
  unfoldable pub output_amount : ℕ → Transaction → Result Buffer
  output_amount base_type tx =
      if base_type == sighash_all
      then (do total ← total_amount tx.outputs; write_uint64_le_bn total)
      else ok []

  unfoldable pub root_and_height : Buffer × ℕ → Result Buffer
  root_and_height (root, height) = ok root followed_by write_uint8 height

  -- Step 7.
  unfoldable pub inputs_part : ℕ → Transaction → Result Buffer
  inputs_part sighash_type tx =
      if is_anyonecanpay sighash_type
      then ok []
      else (do merkle ← merkle_root_of input_leaf tx.inputs; root_and_height merkle)

  -- Steps 8 and 9.
  unfoldable pub output_part : ℕ → ℕ → Transaction → Result Buffer
  output_part base_type i tx =
      if base_type == sighash_single
      then if leb (length tx.outputs) i then throws no_corresponding_output else (do
        output ← element tx.outputs i
        bytes ← Outputs.to_buffer_writer output
        ok (sha256sha256 bytes))
      else if base_type == sighash_all
      then (do merkle ← merkle_root_of Outputs.to_buffer_writer tx.outputs; root_and_height merkle)
      else ok []

  -- Steps 1 to 10, behind the checks.
  unfoldable pub lotus_preimage :
      Transaction → ℕ → ℕ → List Output → Option (Buffer × ℕ) → Result Buffer
  lotus_preimage tx sighash_type i spent_outputs executed = do
    input ← element tx.inputs i
    spent_output ← element spent_outputs i
    write_uint32_le sighash_type
        followed_by executed_part executed input spent_output
        followed_by spent_part sighash_type i spent_outputs
        followed_by output_amount (bit_and sighash_type 0x03) tx
        followed_by write_version tx.version
        followed_by inputs_part sighash_type tx
        followed_by output_part (bit_and sighash_type 0x03) i tx
        followed_by write_uint32_le tx.n_lock_time

  unfoldable pub sighash_for_lotus :
      Transaction → ℕ → ℕ → List Output → Option (Buffer × ℕ) → Result Buffer
  sighash_for_lotus tx sighash_type i spent_outputs executed = do
    _ ← check_argument (length spent_outputs == length tx.inputs)
    _ ← check_argument (ltb i (length tx.inputs))
    if bit_and sighash_type 0x03 == 0 || not (bit_and sighash_type 0x1c == 0)
        then throws invalid_sighash_type
        else (do
          bytes ← lotus_preimage tx sighash_type i spent_outputs executed
          ok (sha256sha256 bytes))
