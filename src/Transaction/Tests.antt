-- ===== src/Transaction/Tests.antt =====
-- A transaction with one input and one output.
use lotus_sdk.Common.{◌≡◌, ◌⊎◌, refl, sym, ap, ◌∙◌, [], ◌∷◌, ◌++◌, replicate, arith}
use lotus_sdk.Common.Ints.{negsuc}
use lotus_sdk.ScriptNum.{Buffer}
use lotus_sdk.Errors.{ok}
use lotus_sdk.Merkle.Binding.{Clash}
use lotus_sdk.Transaction.Total.{txid_bytes}
use lotus_sdk.Merkle.Tests.{checksum, checksum-IsHash}
use lotus_sdk.Transaction.{
  Transaction, input_leaf, write_output, to_buffer_writer, from_buffer_reader, get_txid,
}
use lotus_sdk.Transaction.Inputs.{Input}
use lotus_sdk.Transaction.Outputs.{Output}
use lotus_sdk.Transaction.RoundTrip.{
  ValidTransaction, ValidInput, ValidOutput, to_buffer_writer-Rereads,
}
use lotus_sdk.Transaction.Scripts.{with_script, with_scripts, get_txid-with_scripts}
use lotus_sdk.Transaction.Commits.{ListClash, get_txid-commits}

abbrev spend : Input
spend = record {
  prev_tx_id = replicate 32 7;
  output_index = 1;
  script_buffer = 0x51 ∷ 0x52 ∷ [];
  sequence_number = 4294967295;
}

abbrev pays : Output
pays = record { satoshis_bn = 300; script_buffer = 0x6a ∷ [] }

abbrev pub transfer : Transaction
transfer = record {
  version = negsuc 0;
  inputs = spend ∷ [];
  outputs = pays ∷ [];
  n_lock_time = 500;
}

spend-ValidInput : ValidInput spend
spend-ValidInput = record {
  id_length = refl;
  index_fits = omega arith;
  script_fits = omega arith;
  sequence_fits = omega arith;
}

pays-ValidOutput : ValidOutput pays
pays-ValidOutput = record { satoshis_fit = omega arith; script_fits = omega arith }

pub transfer-ValidTransaction : ValidTransaction transfer
transfer-ValidTransaction = record {
  version_fits = omega arith;
  inputs_fit = omega arith;
  inputs_valid = (spend-ValidInput, tt);
  outputs_fit = omega arith;
  outputs_valid = (pays-ValidOutput, tt);
  lock_time_fits = omega arith;
}

to_buffer_writer-Rereads_example :
    (bytes : Buffer) × (to_buffer_writer transfer ≡ ok bytes)
    × ((rest : Buffer) → from_buffer_reader (bytes ++ rest) ≡ ok (transfer, rest))
to_buffer_writer-Rereads_example = to_buffer_writer-Rereads transfer transfer-ValidTransaction

-- The same inputs with another script.
abbrev resigned : Transaction
resigned = record {
  version = negsuc 0;
  inputs =
      record {
        prev_tx_id = replicate 32 7;
        output_index = 1;
        script_buffer = 0x53 ∷ [];
        sequence_number = 4294967295;
      }
      ∷ [];
  outputs = pays ∷ [];
  n_lock_time = 500;
}

resigned-ValidTransaction : ValidTransaction resigned
resigned-ValidTransaction = record {
  version_fits = omega arith;
  inputs_fit = omega arith;
  inputs_valid = (
    record {
      id_length = refl;
      index_fits = omega arith;
      script_fits = omega arith;
      sequence_fits = omega arith;
    },
    tt,
  );
  outputs_fit = omega arith;
  outputs_valid = (pays-ValidOutput, tt);
  lock_time_fits = omega arith;
}

same_but_scripts : with_scripts (λ _. []) transfer ≡ with_scripts (λ _. []) resigned
unfolding with_scripts with_script
same_but_scripts = refl

same_txid : get_txid checksum transfer ≡ get_txid checksum resigned
same_txid =
    sym (get_txid-with_scripts checksum (λ _. []) transfer)
    ∙ ap (get_txid checksum) same_but_scripts
    ∙ get_txid-with_scripts checksum (λ _. []) resigned

get_txid-commits_example :
    (with_scripts (λ _. []) transfer ≡ with_scripts (λ _. []) resigned)
    ⊎ (Clash checksum (txid_bytes checksum transfer) (txid_bytes checksum resigned)
        ⊎ (ListClash checksum input_leaf transfer.inputs resigned.inputs
            ⊎ ListClash checksum write_output transfer.outputs resigned.outputs))
get_txid-commits_example =
    get_txid-commits checksum transfer resigned checksum-IsHash transfer-ValidTransaction
      resigned-ValidTransaction refl refl same_txid
