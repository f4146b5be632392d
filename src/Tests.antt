-- ===== src/Tests.antt =====
-- Concrete runs of the interpreter and its parts.
use lotus_sdk.Common.{
  length, ◌/◌, ℕ, bit_and, ◌≡◌, ◌≢◌, ◌↔◌, ◌⊎◌, inr, refl, ap, Bool, true, false, some, List, [],
  ◌∷◌, ◌++◌, take, replicate, get_or, ◌==◌, arith,
}
use lotus_sdk.Common.Ints.{ℤ, pos}
use lotus_sdk.ScriptNum.{
  Buffer, to_script_num_buffer, from_script_num_buffer, cast_to_bool, le_bytes, top_byte,
}
use lotus_sdk.Errors.{bad_opcode, type_error, bn_assertion, equalverify, Result, ok, err, throws}
use lotus_sdk.Script.{
  Chunk, op_chunk, push_chunk, to_buffer, from_buffer, is_push_only, is_script_hash_out,
  buffer_chunk, chunk_to_buffer, find_and_delete, same_bytes, from_buffer_loop, as_invalid_buffer,
  read_chunk, read_push, read, push_opcode, write_uint8, write_len, write_data,
}
use lotus_sdk.Interpreter.Flags.{has_flag}
use lotus_sdk.Interpreter.Machine.{Machine, Env, initial}
use lotus_sdk.ScriptNum.RoundTrip.{from_script_num_buffer-to_pos}
use lotus_sdk.ScriptNum.Truth.{cast_to_bool-false_iff}
use lotus_sdk.Script.RoundTrip.{plain, direct, pushdata1, from_buffer-to_buffer}
use lotus_sdk.Script.Delete.{IsOther, IsMatch, find_and_delete-replicate}
use lotus_sdk.Interpreter.Frame.{KeepsLength}
use lotus_sdk.Interpreter.Progress.{run_loop-enough_fuel, Finished, evaluate-Finished}
use lotus_sdk.Interpreter.PayToPublicKeyHash.{
  p2pkh, evaluate-p2pkh-ok, evaluate-p2pkh-spends, evaluate-p2pkh-other,
}
use lotus_sdk.Interpreter.Outcome.{TopIsTrue, verify-accepts, verify-redeems, verify-cleanstack}
use lotus_sdk.Interpreter.Verify.{
  verify_output, verify_redeem, check_top, check_cleanstack, verify, effective_flags,
}
use lotus_sdk.Interpreter.Step.{
  step, step_at, step_chunk, count_op, execute, all_true, push_data, pushed_data, exec_opcode,
  finish, catch_all, run_loop, evaluate,
}
use lotus_sdk.Interpreter.Assignment.{
  Assigned, done, take_key, skip_key, Encoded, legacy_loop-Assigned, Assigned-legacy_loop,
}
use lotus_sdk.Interpreter.Multisig.{legacy_ok}
use lotus_sdk.Interpreter.Coverage.{step_chunk-caseless}
use lotus_sdk.Interpreter.Opcodes.{Op, contains, find_op, decode, exec_op, is_opcode_disabled}
use lotus_sdk.Interpreter.Stack.{item_op}
use lotus_sdk.Interpreter.Bytes.{bool_buffer, equal_op}
use lotus_sdk.Interpreter.Signatures.{
  subscript, signature_succeeds, check_tx_signature_encoding, check_pubkey_encoding,
  check_raw_signature_encoding, verify_in_tx, is_schnorr_sig, hash_op, hash_of,
}

-- bn.js refuses a negative operand.
abbrev bn_and_of : ℤ → ℤ → Result ℤ
bn_and_of (pos a) (pos b) = ok (pos (bit_and a b))
bn_and_of _ _ = throws bn_assertion

-- A signature is right where its first byte is that of the key.
abbrev signs : Buffer → Buffer → Bool
signs sig pubkey = get_or sig 0 0 == get_or pubkey 0 0

abbrev hash20 : Buffer → Buffer
hash20 b = take 20 (b ++ replicate 20 0)

abbrev env : Env
env = record {
  ripemd160 = hash20;
  sha256 = λ b. b;
  sha256ripemd160 = hash20;
  sha256sha256 = λ b. b;
  is_der = λ b. true;
  has_low_s = λ b. ok true;
  from_tx_format =
      λ b. ok (record { has_defined_hashtype = true; nhashtype = 1; is_schnorr = false });
  public_key_is_valid = λ b. true;
  verify_signature = λ sig pubkey sub flags schnorr. ok (signs sig pubkey);
  verify_data = λ sig message pubkey. ok (signs sig pubkey);
  bn_and = bn_and_of;
  tx = some (record { n_lock_time = 0; version = 2; sequence_number = 0 });
  has_satoshis = true;
  schnorr_multisig = λ m keys sigs. throws type_error;
  num2bin = λ m. ok (m.script, m.stack, m.altstack);
  verify_script_type = λ m. ok tt;
}

env-KeepsLength : KeepsLength env
env-KeepsLength m script s alt e = ground arith

abbrev pubkey : Buffer
pubkey = 7 ∷ 8 ∷ []

abbrev sig : Buffer
sig = 7 ∷ 1 ∷ []

abbrev other_key : Buffer
other_key = 9 ∷ 9 ∷ []

-- The signature script of a spend of a public key hash.
abbrev spent : List Chunk
spent = p2pkh (hash20 pubkey)

from_script_num_buffer-to_pos_example :
    (from_script_num_buffer (to_script_num_buffer (pos 128)) ≡ pos 128)
    ↔ (bit_and (top_byte (le_bytes 128)) 0x80 ≡ 0)
from_script_num_buffer-to_pos_example = from_script_num_buffer-to_pos 128

cast_to_bool-false_iff_example :
    (cast_to_bool (0 ∷ 0x80 ∷ []) ≡ false) ↔ (from_script_num_buffer (0 ∷ 0x80 ∷ []) ≡ pos 0)
cast_to_bool-false_iff_example = cast_to_bool-false_iff (0 ∷ 0x80 ∷ []) (ground arith)

from_buffer-to_buffer_example :
    (b : Buffer) × (to_buffer (op_chunk 118 ∷ push_chunk 2 2 pubkey ∷ push_chunk 76 1 (5 ∷ []) ∷ [])
      ≡ ok b)
    × (from_buffer b ≡ ok (op_chunk 118 ∷ push_chunk 2 2 pubkey ∷ push_chunk 76 1 (5 ∷ []) ∷ []))
from_buffer-to_buffer_example =
    from_buffer-to_buffer (op_chunk 118 ∷ push_chunk 2 2 pubkey ∷ push_chunk 76 1 (5 ∷ []) ∷ []) (
      plain 118 (omega arith) (inr (omega arith)),
      (
        direct 2 pubkey refl (omega arith) (omega arith),
        (pushdata1 1 (5 ∷ []) refl (omega arith), tt),
      ),
    )

dup-IsOther : IsOther (1 ∷ 7 ∷ []) (op_chunk 118)
unfolding chunk_to_buffer write_uint8 write_data same_bytes
dup-IsOther = (118 ∷ [], refl, refl)

seven-IsMatch : IsMatch (1 ∷ 7 ∷ []) (push_chunk 1 1 (7 ∷ []))
unfolding chunk_to_buffer write_uint8 write_data write_len
seven-IsMatch = refl

find_and_delete-replicate_example :
    find_and_delete (1 ∷ 7 ∷ []) (replicate 3 (push_chunk 1 1 (7 ∷ [])) ++ op_chunk 118 ∷ [])
    ≡ ok (replicate (3 / 2) (push_chunk 1 1 (7 ∷ [])) ++ op_chunk 118 ∷ [])
find_and_delete-replicate_example =
    find_and_delete-replicate (1 ∷ 7 ∷ []) (push_chunk 1 1 (7 ∷ [])) 3 (op_chunk 118 ∷ [])
      seven-IsMatch (dup-IsOther, tt)

-- The stack that the signature script leaves.
checked_tx_sig : check_tx_signature_encoding env 0 sig ≡ ok tt
unfolding check_tx_signature_encoding check_raw_signature_encoding has_flag is_schnorr_sig
checked_tx_sig = refl

checked_pubkey : check_pubkey_encoding env 0 pubkey ≡ ok tt
unfolding check_pubkey_encoding has_flag
checked_pubkey = refl

evaluate-p2pkh-spends_example :
    evaluate env (initial spent 0 (pubkey ∷ sig ∷ []))
    ≡ ok (record (initial spent 0 ((1 ∷ []) ∷ [])) { pc = 5; n_op_count = 4 })
unfolding subscript buffer_chunk push_opcode chunk_to_buffer write_uint8 write_len write_data
    find_and_delete same_bytes signature_succeeds verify_in_tx
evaluate-p2pkh-spends_example =
    evaluate-p2pkh-spends env (hash20 pubkey) pubkey sig 0 [] spent refl (omega arith) refl
      checked_tx_sig checked_pubkey refl refl

evaluate-p2pkh-ok_example :
    (hash20 pubkey ≡ hash20 pubkey)
    × (check_tx_signature_encoding env 0 sig ≡ ok tt)
    × (check_pubkey_encoding env 0 pubkey ≡ ok tt)
    × (sub : List Chunk) × (subscript (initial spent 0 []) sig ≡ ok sub)
    × ((1 ∷ []) ∷ [] ≡ bool_buffer (signature_succeeds env 0 sig pubkey sub) ∷ [])
evaluate-p2pkh-ok_example =
    evaluate-p2pkh-ok env (hash20 pubkey) pubkey sig 0 []
      (record (initial spent 0 ((1 ∷ []) ∷ [])) { pc = 5; n_op_count = 4 }) refl (omega arith)
      evaluate-p2pkh-spends_example

other_key-ne : hash20 other_key ≡ hash20 pubkey → ⊥
other_key-ne e = let heads : 9 ≡ 7 = ap (λ (b : Buffer). get_or b 0 0) e in omega (arith, heads)

evaluate-p2pkh-other_example :
    evaluate env (initial spent 0 (other_key ∷ sig ∷ [])) ≡ err equalverify
evaluate-p2pkh-other_example =
    evaluate-p2pkh-other env (hash20 pubkey) other_key sig 0 [] refl (omega arith)
      (λ e. other_key-ne e)

-- A script that doubles its argument and drops it again.
abbrev dup_drop : List Chunk
dup_drop = op_chunk 118 ∷ op_chunk 117 ∷ []

dup_drop-runs :
    evaluate env (initial dup_drop 0 (pubkey ∷ []))
    ≡ ok (record (initial dup_drop 0 (pubkey ∷ [])) { pc = 2; n_op_count = 2 })
unfolding evaluate to_buffer chunk_to_buffer write_uint8 write_len write_data run_loop step step_at
    step_chunk count_op is_opcode_disabled contains execute all_true push_data pushed_data
    exec_opcode decode find_op exec_op finish catch_all has_flag item_op
dup_drop-runs = refl

evaluate-Finished_example :
    Finished
      (initial dup_drop 0 (pubkey ∷ []))
      (record (initial dup_drop 0 (pubkey ∷ [])) { pc = 2; n_op_count = 2 })
evaluate-Finished_example =
    evaluate-Finished env env-KeepsLength dup_drop 0 (pubkey ∷ [])
      (record (initial dup_drop 0 (pubkey ∷ [])) { pc = 2; n_op_count = 2 }) dup_drop-runs

run_loop-enough_fuel_example :
    run_loop env 2 (initial dup_drop 0 (pubkey ∷ []))
    ≡ run_loop env 7 (initial dup_drop 0 (pubkey ∷ []))
run_loop-enough_fuel_example =
    run_loop-enough_fuel env env-KeepsLength 2 7 (initial dup_drop 0 (pubkey ∷ [])) (omega arith)
      (omega arith)

step-dup :
    step env (initial dup_drop 0 (pubkey ∷ []))
    ≡ ok (record (initial dup_drop 0 (pubkey ∷ pubkey ∷ [])) { pc = 1; n_op_count = 1 })
unfolding evaluate to_buffer chunk_to_buffer write_uint8 write_len write_data run_loop step step_at
    step_chunk count_op is_opcode_disabled contains execute all_true push_data pushed_data
    exec_opcode decode find_op exec_op finish catch_all has_flag item_op
step-dup = refl

-- One element, pushed by the signature script, and one by the public key script.
abbrev one_sig : List Chunk
one_sig = push_chunk 2 2 sig ∷ []

abbrev pushes : List Chunk
pushes = push_chunk 2 2 (1 ∷ 1 ∷ []) ∷ []

one_accepted : verify env one_sig pushes 257 false ≡ ok tt
unfolding evaluate to_buffer chunk_to_buffer write_uint8 write_len write_data run_loop step step_at
    step_chunk count_op is_opcode_disabled contains execute all_true push_data pushed_data
    exec_opcode decode find_op exec_op finish catch_all has_flag verify verify_output
    effective_flags check_top check_cleanstack cast_to_bool is_script_hash_out is_push_only
one_accepted = refl

verify-accepts_example :
    (m : Machine) × (m' : Machine) × (evaluate env (initial one_sig (effective_flags 257) [])
      ≡ ok m)
    × (evaluate env (initial pushes (effective_flags 257) m.stack) ≡ ok m')
    × TopIsTrue m'.stack
unfolding to_buffer chunk_to_buffer write_uint8 write_data write_len
verify-accepts_example =
    verify-accepts env one_sig pushes 257 false (2 ∷ 1 ∷ 1 ∷ []) refl refl one_accepted

-- The final stack has two elements.
verify-cleanstack_example :
    (m : Machine) × (evaluate env (initial one_sig (effective_flags 257) []) ≡ ok m)
    × (length m.stack ≡ 1)
unfolding to_buffer chunk_to_buffer write_uint8 write_data write_len is_script_hash_out has_flag
    effective_flags
verify-cleanstack_example =
    verify-cleanstack env one_sig pushes 257 false (2 ∷ 1 ∷ 1 ∷ []) refl refl refl refl one_accepted

-- A redeem script that pushes, its push, and the output that pays to its hash.
abbrev redeem_sig : List Chunk
redeem_sig = push_chunk 3 3 (2 ∷ 1 ∷ 1 ∷ []) ∷ []

abbrev p2sh_script : List Chunk
p2sh_script = op_chunk 169 ∷ push_chunk 20 20 (hash20 (2 ∷ 1 ∷ 1 ∷ [])) ∷ op_chunk 135 ∷ []

redeem_accepted : verify env redeem_sig p2sh_script 1 false ≡ ok tt
unfolding evaluate to_buffer chunk_to_buffer write_uint8 write_len write_data run_loop step step_at
    step_chunk count_op is_opcode_disabled contains execute all_true push_data pushed_data
    exec_opcode decode find_op exec_op finish catch_all has_flag verify verify_output
    effective_flags check_top check_cleanstack cast_to_bool is_script_hash_out is_push_only
    verify_redeem from_buffer from_buffer_loop as_invalid_buffer read_chunk read_push read hash_op
    hash_of equal_op same_bytes
redeem_accepted = refl

verify-redeems_example :
    (is_push_only redeem_sig ≡ true)
    × (m : Machine) × (redeem : Buffer) × (copy : List Buffer) × (script : List Chunk)
    × (m' : Machine) × (evaluate env (initial redeem_sig (effective_flags 1) []) ≡ ok m)
    × (m.stack ≡ redeem ∷ copy)
    × (from_buffer redeem ≡ ok script)
    × (evaluate env (initial script (effective_flags 1) copy) ≡ ok m')
    × TopIsTrue m'.stack
unfolding to_buffer chunk_to_buffer write_uint8 write_data write_len is_script_hash_out has_flag
    effective_flags
verify-redeems_example =
    verify-redeems env redeem_sig p2sh_script 1 false
      (169 ∷ 20 ∷ hash20 (2 ∷ 1 ∷ 1 ∷ []) ++ 135 ∷ []) refl refl refl refl redeem_accepted

-- Two signatures for the first and the third of three keys.
abbrev sigs : List Buffer
sigs = (1 ∷ 1 ∷ []) ∷ (3 ∷ 1 ∷ []) ∷ []

abbrev keys : List Buffer
keys = (1 ∷ []) ∷ (2 ∷ []) ∷ (3 ∷ []) ∷ []

sigs-Assigned : Assigned (legacy_ok env 0 []) sigs keys
unfolding legacy_ok verify_in_tx
sigs-Assigned = take_key refl (skip_key (take_key refl done))

sigs-Encoded : Encoded env 0 [] sigs keys
unfolding check_tx_signature_encoding check_raw_signature_encoding check_pubkey_encoding has_flag
    is_schnorr_sig
sigs-Encoded = ((refl, (refl, tt)), (refl, (refl, (refl, tt))))

legacy_loop-Assigned_example : Assigned (legacy_ok env 0 []) sigs keys
legacy_loop-Assigned_example =
    legacy_loop-Assigned env 0 [] sigs keys
      (Assigned-legacy_loop env 0 [] sigs keys sigs-Encoded sigs-Assigned)

abbrev op_div : ℕ
op_div = 150

step_chunk-caseless_example :
    (((op_div ≡ 98) ⊎ (op_div ≡ 150) ⊎ (op_div ≡ 151))
      × (step_chunk env (op_chunk op_div) (initial [] 0 []) ≡ err bad_opcode))
    ⊎ (((op_div ≢ 98) × (op_div ≢ 150) × (op_div ≢ 151))
        × (o : Op) × (decode op_div ≡ some o)
        × (step_chunk env (op_chunk op_div) (initial [] 0 [])
            ≡ exec_op env true o (record (initial [] 0 []) { n_op_count = 1 })))
unfolding is_opcode_disabled contains count_op all_true
step_chunk-caseless_example =
    step_chunk-caseless env (op_chunk op_div) (initial [] 0 [])
      (record (initial [] 0 []) { n_op_count = 1 }) (omega arith) refl refl refl refl
