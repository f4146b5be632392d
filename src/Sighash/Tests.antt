-- ===== src/Sighash/Tests.antt =====
-- Hashes for signatures of small transactions.
use lotus_sdk.Common.{
  ℕ, none, some, List, [], ◌∷◌, ◌++◌, length, replicate, ◌<◌, ◌≤◌, ◌≡◌, ◌≢◌, ◌⊎◌, refl, sym, ◌∙◌,
  arith,
}
use lotus_sdk.Common.Ints.{pos}
use lotus_sdk.ScriptNum.{Buffer, le_bytes}
use lotus_sdk.Errors.{ok, ok-inj}
use lotus_sdk.Script.{
  Chunk, write_uint8, write_uint32_le, to_buffer, op_chunk, chunk_to_buffer, write_data,
}
use lotus_sdk.Encoding.{
  read_reverse, write_int32_le, write_varint_num, write_uint64_le_bn, write_var_length_buffer,
  write_all, le_digits, bn_to_buffer, to_array_like,
}
use lotus_sdk.Transaction.{
  Transaction, input_leaf, write_output, leaf_hashes, to_buffer_writer, satoshis_of,
}
use lotus_sdk.Transaction.Inputs.{Input}
use lotus_sdk.Transaction.Outputs
use lotus_sdk.Transaction.Outputs.{Output}
use lotus_sdk.Merkle.{compute_merkle_root}
use lotus_sdk.Merkle.Layers.{next_layer}
use lotus_sdk.Merkle.Binding.{Clash}
use lotus_sdk.Merkle.Tests.{checksum, checksum-IsHash}
use lotus_sdk.Transaction.RoundTrip.{ValidTransaction, ValidInput, ValidOutput}
use lotus_sdk.Transaction.Scripts.{with_script}
use lotus_sdk.Transaction.Inputs
use lotus_sdk.Interpreter.Flags.{has_flag}
use lotus_sdk.Sighash.{enable_replay_protection, flags_or_default, sighash}
use lotus_sdk.Sighash.Types.{sighash_all, sighash_single, element, write_version}
use lotus_sdk.Sighash.ForkId.{
  write_prevout, preimage, hash_all, get_prevout_hash, get_sequence_hash, get_outputs_hash,
  prevouts_part, sequence_part, outputs_part, sighash_for_fork_id,
}
use lotus_sdk.Sighash.ForkId.Commits.{
  RowClash, fork_id_bytes, ValidCall, SameSigned, sighash_for_fork_id-commits,
}
use lotus_sdk.Sighash.ForkId.Independent.{
  sighash_for_fork_id-anyonecanpay, sighash_for_fork_id-single,
}
use lotus_sdk.Sighash.Lotus.{
  sum_satoshis, total_amount, check_argument, merkle_loop, get_merkle_root, merkle_root_of,
  input_hash, executed_part, spent_part, output_amount, root_and_height, inputs_part, output_part,
  lotus_preimage, sighash_for_lotus,
}
use lotus_sdk.Sighash.Lotus.Root.{get_merkle_root-compute_merkle_root}
use lotus_sdk.Sighash.Legacy.{
  remove_codeseparators, clear_sequence, clear_other_sequences, signed_inputs, signed_outputs,
  paying_inputs, hash_of_copy, sighash_without_fork_id,
}
use lotus_sdk.Sighash.Legacy.Refused.{sighash_without_fork_id-single}
use lotus_sdk.Sighash.Protected.{sighash-protected}

abbrev coin : ℕ → ℕ → Buffer → Input
coin byte sequence script = record {
  prev_tx_id = replicate 32 byte;
  output_index = byte;
  script_buffer = script;
  sequence_number = sequence;
}

abbrev pays : ℕ → Output
pays amount = record { satoshis_bn = amount; script_buffer = 0x6a ∷ [] }

abbrev payment : List Input → List Output → Transaction
payment inputs outputs = record {
  version = pos 2;
  inputs = inputs;
  outputs = outputs;
  n_lock_time = 9;
}

abbrev unsigned : Transaction
unsigned = payment (coin 7 5 [] ∷ coin 8 6 [] ∷ []) (pays 300 ∷ pays 400 ∷ [])

abbrev half_signed : Transaction
half_signed = payment (coin 7 5 [] ∷ coin 8 6 (0x51 ∷ []) ∷ []) (pays 300 ∷ pays 400 ∷ [])

abbrev checksig : List Chunk
checksig = op_chunk 0xac ∷ []

abbrev all_fork_id : ℕ
all_fork_id = 0x41

coin-ValidInput :
    (byte sequence : ℕ) (script : Buffer)
    → byte < 256
    → sequence < 4294967296
    → length script ≤ 9007199254740992
    → ValidInput (coin byte sequence script)
coin-ValidInput byte sequence script h k l = record {
  id_length = refl;
  index_fits = omega arith;
  script_fits = l;
  sequence_fits = k;
}

pays-ValidOutput : (amount : ℕ) → amount < 9007199254740992 → ValidOutput (pays amount)
pays-ValidOutput amount h = record { satoshis_fit = h; script_fits = omega arith }

half-ValidTransaction :
    (script : Buffer)
    → length script ≤ 9007199254740992
    → ValidTransaction (payment (coin 7 5 [] ∷ coin 8 6 script ∷ []) (pays 300 ∷ pays 400 ∷ []))
half-ValidTransaction script h = record {
  version_fits = omega arith;
  inputs_fit = omega arith;
  inputs_valid = (
    coin-ValidInput 7 5 [] (omega arith) (omega arith) (omega arith),
    (coin-ValidInput 8 6 script (omega arith) (omega arith) h, tt),
  );
  outputs_fit = omega arith;
  outputs_valid = (pays-ValidOutput 300 (omega arith), (pays-ValidOutput 400 (omega arith), tt));
  lock_time_fits = omega arith;
}

checksig-bytes : to_buffer checksig ≡ ok (0xac ∷ [])
unfolding to_buffer chunk_to_buffer write_uint8 write_data
checksig-bytes = refl

checksig-fits :
    (script : Buffer) → to_buffer checksig ≡ ok script → length script ≤ 9007199254740992
checksig-fits script e = rw (← ok-inj (sym checksig-bytes ∙ e)) (omega arith)

half-ValidCall :
    (script : Buffer)
    → length script ≤ 9007199254740992
    → ValidCall
        (payment (coin 7 5 [] ∷ coin 8 6 script ∷ []) (pays 300 ∷ pays 400 ∷ []))
        all_fork_id
        1000
        checksig
half-ValidCall script h = record {
  tx_valid = half-ValidTransaction script h;
  version_positive = omega arith;
  type_fits = omega arith;
  satoshis_fit = omega arith;
  script_fits = checksig-fits;
}

abbrev expected : Buffer
expected = 88 ∷ replicate 31 0

unsigned-hash :
    sighash_for_fork_id checksum unsigned all_fork_id 0 checksig (some 1000) ≡ ok expected
unfolding sighash_for_fork_id prevouts_part sequence_part outputs_part preimage get_prevout_hash
    get_sequence_hash get_outputs_hash hash_all write_prevout element write_version write_all
    Outputs.to_buffer_writer to_buffer chunk_to_buffer write_uint8 write_data write_uint32_le
    write_uint64_le_bn bn_to_buffer to_array_like le_bytes write_varint_num has_flag
unsigned-hash = refl

half_signed-hash :
    sighash_for_fork_id checksum half_signed all_fork_id 0 checksig (some 1000) ≡ ok expected
unfolding sighash_for_fork_id prevouts_part sequence_part outputs_part preimage get_prevout_hash
    get_sequence_hash get_outputs_hash hash_all write_prevout element write_version write_all
    Outputs.to_buffer_writer to_buffer chunk_to_buffer write_uint8 write_data write_uint32_le
    write_uint64_le_bn bn_to_buffer to_array_like le_bytes write_varint_num has_flag
half_signed-hash = refl

sighash_for_fork_id-commits_example :
    SameSigned unsigned half_signed all_fork_id all_fork_id 0 0 checksig checksig 1000 1000
    ⊎ (Clash checksum
          (fork_id_bytes checksum unsigned all_fork_id 0 checksig 1000)
          (fork_id_bytes checksum half_signed all_fork_id 0 checksig 1000)
        ⊎ RowClash checksum unsigned half_signed)
unfolding has_flag
sighash_for_fork_id-commits_example =
    sighash_for_fork_id-commits checksum checksum-IsHash unsigned half_signed all_fork_id
      all_fork_id 0 0 checksig checksig 1000 1000 (half-ValidCall [] (omega arith))
      (half-ValidCall (0x51 ∷ []) (omega arith)) refl refl refl unsigned-hash half_signed-hash

-- The signed input at another place among other inputs.
abbrev joined : Transaction
joined = payment (coin 9 1 [] ∷ coin 7 5 [] ∷ []) (pays 300 ∷ pays 400 ∷ [])

sighash_for_fork_id-anyonecanpay_example :
    sighash_for_fork_id checksum unsigned 0xc1 0 checksig (some 1000)
    ≡ sighash_for_fork_id checksum joined 0xc1 1 checksig (some 1000)
unfolding has_flag element
sighash_for_fork_id-anyonecanpay_example =
    sighash_for_fork_id-anyonecanpay checksum unsigned joined 0xc1 0 1 checksig (some 1000) refl
      refl refl refl refl refl

-- The same payment with another output beside the signed one.
abbrev changed : Transaction
changed = payment (coin 7 5 [] ∷ coin 8 4 [] ∷ []) (pays 300 ∷ pays 1 ∷ [])

sighash_for_fork_id-single_example :
    sighash_for_fork_id checksum unsigned 0x43 0 checksig (some 1000)
    ≡ sighash_for_fork_id checksum changed 0x43 0 checksig (some 1000)
unfolding has_flag element
sighash_for_fork_id-single_example =
    sighash_for_fork_id-single checksum unsigned changed 0x43 0 checksig (some 1000) refl refl refl
      refl refl refl refl

sighash_without_fork_id-single_example :
    sighash_without_fork_id checksum unsigned sighash_single 1 checksig ≢ ok expected
sighash_without_fork_id-single_example =
    sighash_without_fork_id-single checksum unsigned sighash_single 1 checksig refl (omega arith)
      (omega arith)

sighash-protected_example :
    sighash checksum unsigned none sighash_all 0 checksig none (some enable_replay_protection)
    ≢ ok expected
unfolding flags_or_default has_flag
sighash-protected_example =
    sighash-protected checksum unsigned none sighash_all 0 checksig none
      (some enable_replay_protection) (omega arith) refl refl refl refl

get_merkle_root-compute_merkle_root_example :
    get_merkle_root checksum ((1 ∷ []) ∷ (2 ∷ []) ∷ (3 ∷ []) ∷ [])
    ≡ compute_merkle_root checksum ((1 ∷ []) ∷ (2 ∷ []) ∷ (3 ∷ []) ∷ [])
get_merkle_root-compute_merkle_root_example =
    get_merkle_root-compute_merkle_root checksum ((1 ∷ []) ∷ (2 ∷ []) ∷ (3 ∷ []) ∷ [])

-- A type of LOTUS signs the outputs that are spent.
lotus_hash :
    sighash_for_lotus checksum unsigned 0x61 0 (pays 1000 ∷ pays 2000 ∷ []) none
    ≡ ok (169 ∷ replicate 31 0)
unfolding sighash_for_lotus check_argument lotus_preimage element executed_part input_hash
    write_output satoshis_of write_var_length_buffer spent_part merkle_root_of leaf_hashes
    get_merkle_root merkle_loop next_layer total_amount sum_satoshis output_amount write_version
    inputs_part input_leaf root_and_height output_part Outputs.to_buffer_writer write_uint8
    write_uint32_le write_uint64_le_bn bn_to_buffer to_array_like le_bytes write_varint_num has_flag
lotus_hash = refl

-- Without FORKID, an input other than the first with NONE.
none_hash :
    sighash_without_fork_id checksum unsigned 2 1 checksig ≡ ok (replicate 31 0 ++ (133 ∷ []))
unfolding sighash_without_fork_id hash_of_copy paying_inputs signed_inputs signed_outputs
    clear_other_sequences clear_sequence remove_codeseparators with_script element to_buffer_writer
    Inputs.to_buffer_writer write_all to_buffer chunk_to_buffer write_data write_uint8
    write_uint32_le write_varint_num write_int32_le le_digits read_reverse has_flag
none_hash = refl
