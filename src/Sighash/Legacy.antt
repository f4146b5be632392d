-- ===== src/Sighash/Legacy.antt =====
-- The hash that a signature without FORKID signs (the second half of `sighash` in
-- lib/bitcore/transaction/sighash.ts).
pub mod Refused
use lotus_sdk.Common.{
  ℕ, zero, suc, ◌&&◌, ◌||◌, List, [], ◌∷◌, ◌++◌, map, length, set, replicate, leb, ◌==◌,
  if◌then◌else◌,
}
use lotus_sdk.Common.Ints.{pos}
use lotus_sdk.ScriptNum.{Buffer}
use lotus_sdk.Errors.{Result, ok, ◌>>=◌, ◌>>◌}
use lotus_sdk.Script.{Chunk, to_buffer}
use lotus_sdk.Encoding.{read_reverse, write_int32_le}
use lotus_sdk.Transaction.{Transaction, to_buffer_writer}
use lotus_sdk.Transaction.Inputs.{Input}
use lotus_sdk.Transaction.Outputs
use lotus_sdk.Transaction.Outputs.{Output}
use lotus_sdk.Transaction.Scripts.{with_script}
use lotus_sdk.Sighash.Types.{is_anyonecanpay, is_single, is_none, element}

unfoldable pub remove_codeseparators : List Chunk → List Chunk
remove_codeseparators [] = []
remove_codeseparators (chunk ∷ chunks) =
    let rest = remove_codeseparators chunks in
    if chunk.opcodenum == 0xab then rest else chunk ∷ rest

-- The sequence numbers of all inputs but one are cleared.
unfoldable pub clear_sequence : Input → Input
clear_sequence input = record input { sequence_number = 0 }

unfoldable pub clear_other_sequences : ℕ → List Input → List Input
clear_other_sequences i [] = []
clear_other_sequences zero (input ∷ inputs) = input ∷ map clear_sequence inputs
clear_other_sequences (suc i) (input ∷ inputs) =
    clear_sequence input ∷ clear_other_sequences i inputs

-- The outputs before the one that is signed: BITS_64_ON and an empty script.
abbrev pub blank_output : Output
blank_output = record { satoshis_bn = 0xffffffffffffffff; script_buffer = [] }

unfoldable pub single_outputs : ℕ → List Output → List Output
single_outputs i [] = []
single_outputs zero (output ∷ outputs) = output ∷ []
single_outputs (suc i) (output ∷ outputs) = blank_output ∷ single_outputs i outputs

unfoldable pub signed_inputs : ℕ → ℕ → List Input → List Input
signed_inputs sighash_type i inputs =
    if is_none sighash_type || is_single sighash_type
    then clear_other_sequences i inputs
    else inputs

unfoldable pub signed_outputs : ℕ → ℕ → List Output → List Output
signed_outputs sighash_type i outputs =
    if is_none sighash_type
    then []
    else if is_single sighash_type
    then single_outputs i outputs
    else outputs

unfoldable pub paying_inputs : ℕ → ℕ → List Input → Result (List Input)
paying_inputs sighash_type i inputs =
    if is_anyonecanpay sighash_type
    then (do input ← element inputs i; ok (input ∷ []))
    else ok inputs

abbrev pub sighash_single_bug : Buffer
sighash_single_bug = replicate 31 0 ++ (1 ∷ [])

-- The end of `sighash`, with the script of the input in place.
module _ (sha256sha256 : Buffer → Buffer) where
  unfoldable pub hash_of_copy : Transaction → ℕ → ℕ → Input → Result Buffer
  hash_of_copy tx sighash_type i signed = do
    let blanked = map (with_script []) tx.inputs
    inputs ← paying_inputs sighash_type i (signed_inputs sighash_type i (set blanked i signed))
    bytes ←
        to_buffer_writer
          (record tx { inputs = inputs; outputs = signed_outputs sighash_type i tx.outputs })
    hash_type ← write_int32_le (pos sighash_type)
    ok (read_reverse 32 (sha256sha256 (bytes ++ hash_type))).0

  unfoldable pub sighash_without_fork_id : Transaction → ℕ → ℕ → List Chunk → Result Buffer
  sighash_without_fork_id tx sighash_type i subscript = do
    input ← element tx.inputs i
    script ← to_buffer (remove_codeseparators subscript)
    if is_single sighash_type && leb (length tx.outputs) i
        then ok sighash_single_bug
        else hash_of_copy tx sighash_type i (with_script script input)
