-- ===== src/Transaction/Scripts.antt =====
-- The identifier of a transaction leaves the scripts of its inputs out.
use lotus_sdk.Common.{◌≡◌, refl, List, [], ◌∷◌, map}
use lotus_sdk.ScriptNum.{Buffer}
use lotus_sdk.Errors.{Result}
use lotus_sdk.Transaction.{
  Transaction, input_leaf, leaf_hashes, hashes_or_null, get_tx_input_hashes, get_txid,
}
use lotus_sdk.Transaction.Inputs.{Input}

-- An input with another script.
unfoldable pub with_script : Buffer → Input → Input
with_script script input = record {
  prev_tx_id = input.prev_tx_id;
  output_index = input.output_index;
  script_buffer = script;
  sequence_number = input.sequence_number;
}

-- A transaction with other scripts in its inputs.
unfoldable pub with_scripts : (Input → Buffer) → Transaction → Transaction
with_scripts script tx = record {
  version = tx.version;
  inputs = map (λ input. with_script (script input) input) tx.inputs;
  outputs = tx.outputs;
  n_lock_time = tx.n_lock_time;
}

leaf_hashes-map :
    (hash : Buffer → Buffer) {A : Type 0} (leaf : A → Result Buffer) (f : A → A)
    → ((a : A) → leaf (f a) ≡ leaf a)
    → (items : List A) → leaf_hashes hash leaf (map f items) ≡ leaf_hashes hash leaf items
unfolding leaf_hashes
leaf_hashes-map hash leaf f h [] = refl
leaf_hashes-map hash leaf f h (a ∷ items) = rw (h a, leaf_hashes-map hash leaf f h items) refl

input_hashes-with_script :
    (hash : Buffer → Buffer) (script : Input → Buffer) (inputs : List Input)
    → get_tx_input_hashes hash (map (λ input. with_script (script input) input) inputs)
      ≡ get_tx_input_hashes hash inputs
unfolding get_tx_input_hashes hashes_or_null input_leaf with_script
input_hashes-with_script hash script [] = refl
input_hashes-with_script hash script (input ∷ inputs) =
    leaf_hashes-map hash input_leaf (λ input. with_script (script input) input) (λ _. refl)
      (input ∷ inputs)

-- The scripts of the inputs do not enter the identifier: with any other scripts in its inputs, a
-- transaction has the identifier that it has, or fails to have one in the same way.
pub get_txid-with_scripts :
    (hash : Buffer → Buffer) (script : Input → Buffer) (tx : Transaction)
    → get_txid hash (with_scripts script tx) ≡ get_txid hash tx
unfolding get_txid with_scripts
get_txid-with_scripts hash script tx = rw (input_hashes-with_script hash script tx.inputs) refl
