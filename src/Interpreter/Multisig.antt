-- ===== src/Interpreter/Multisig.antt =====
-- OP_CHECKMULTISIG(VERIFY): the counts, the legacy verification and the clean-up of the stack. The
-- Schnorr branch is the environment's.
use lotus_sdk.Common.{
  ℕ, zero, suc, ◌+◌, ◌-◌, Bool, true, false, not, ◌&&◌, List, [], ◌∷◌, length, take, drop, get_or,
  ltb, ◌==◌, if◌then◌else◌,
}
use lotus_sdk.Common.Ints.{ℤ, pos, negsuc}
use lotus_sdk.ScriptNum.{Buffer}
use lotus_sdk.Errors.{
  type_error, ScriptError, op_count, invalid_stack_operation, nullfail, checkmultisigverify,
  pubkey_count, sig_count, sig_nulldummy, Result, ok, err, throws, ◌>>=◌, ◌>>◌, refuse,
}
use lotus_sdk.Script.{Chunk, buffer_chunk, chunk_to_buffer, find_and_delete}
use lotus_sdk.Interpreter.Flags.{
  has_flag, verify_nulldummy, verify_minimaldata, verify_nullfail, enable_schnorr_multisig,
}
use lotus_sdk.Interpreter.Machine.{Machine, Env}
use lotus_sdk.Interpreter.Numbers.{bn_from_script_num}
use lotus_sdk.Interpreter.Signatures.{
  check_tx_signature_encoding, check_pubkey_encoding, attempt, verify_in_tx, push_result,
}

-- A count that must be a number from 0 to `max`.
unfoldable pub count_in : ℕ → ScriptError → ℤ → Result ℕ
count_in max e (negsuc n) = err e
count_in max e (pos n) = if ltb max n then err e else ok n

-- The signature of one key, verified as ECDSA.
unfoldable pub legacy_ok : Env → ℕ → List Chunk → Buffer → Buffer → Bool
legacy_ok env flags sub sig key = attempt (do
  _ ← env.from_tx_format sig
  verify_in_tx env (env.verify_signature sig key sub flags false) env.tx)

-- The loop over the signatures and keys that are left, both from the top of the stack: a key that
-- fails is passed over, and more signatures than keys are a failure.
unfoldable pub legacy_loop : Env → ℕ → List Chunk → List Buffer → List Buffer → Result Bool
legacy_loop env flags sub [] keys = ok true
legacy_loop env flags sub (sig ∷ sigs) [] = ok false
legacy_loop env flags sub (sig ∷ sigs) (key ∷ keys) =
    let left = if legacy_ok env flags sub sig key then sigs else sig ∷ sigs in
    let rest = legacy_loop env flags sub left keys in
    do
      check_tx_signature_encoding env flags sig
      check_pubkey_encoding env flags key
      if ltb (length keys) (length left) then ok false else rest

-- `findAndDelete` for every signature.
unfoldable pub delete_all : List Buffer → List Chunk → Result (List Chunk)
delete_all [] sub = ok sub
delete_all (sig ∷ sigs) sub = do
  tmp ← chunk_to_buffer (buffer_chunk sig)
  sub' ← find_and_delete tmp sub
  delete_all sigs sub'

-- `while (i-- > 1)`: the counts, the keys and the signatures are popped; `ikey2` is 0 at the
-- signatures. The length of the stack was checked before, so it is not empty here.
unfoldable pub clean_up : ℕ → Bool → ℕ → ℕ → List Buffer → Result (List Buffer)
clean_up flags success zero ikey2 s = ok s
clean_up flags success (suc n) ikey2 [] = throws type_error
clean_up flags success (suc n) ikey2 (x ∷ s) =
    let rest = clean_up flags success n (ikey2 - 1) s in
    if not success && has_flag flags verify_nullfail && ikey2 == 0 && not (length x == 0)
    then err nullfail
    else rest

-- The dummy element below the signatures, then the result.
unfoldable pub drop_dummy : ℕ → Bool → Bool → List Buffer → Result (List Buffer)
drop_dummy flags verify success [] = err invalid_stack_operation
drop_dummy flags verify success (x ∷ s) =
    if has_flag flags verify_nulldummy && not (length x == 0)
    then err sig_nulldummy
    else push_result verify checkmultisigverify success s

-- The verification behind the counts: `s` is the stack.
unfoldable pub multisig_success : Env → Machine → ℕ → ℕ → Result Bool
multisig_success env m keys sigs =
    if has_flag m.flags enable_schnorr_multisig
      && not (length (get_or m.stack (2 + keys + sigs) []) == 0)
    then env.schnorr_multisig m keys sigs
    else (do
      let signatures = take sigs (drop (2 + keys) m.stack)
      sub ← delete_all signatures (drop m.pbegincodehash m.script)
      legacy_loop env m.flags sub signatures (take keys (drop 1 m.stack)))

unfoldable pub multisig_sigs : Env → Bool → Machine → ℕ → ℕ → Result Machine
multisig_sigs env verify m keys sigs = do
  refuse (ltb (length m.stack) (3 + keys + sigs)) invalid_stack_operation
  success ← multisig_success env m keys sigs
  s ← clean_up m.flags success (2 + keys + sigs) (keys + 2) m.stack
  s' ← drop_dummy m.flags verify success s
  ok (record m { stack = s' })

unfoldable pub multisig_keys : Env → Bool → Machine → ℕ → Result Machine
multisig_keys env verify m keys = do
  let m' = record m { n_op_count = m.n_op_count + keys }
  refuse (ltb 201 (m.n_op_count + keys)) op_count
  refuse (ltb (length m.stack) (2 + keys)) invalid_stack_operation
  sigs ← bn_from_script_num (get_or m.stack (1 + keys) []) (has_flag m.flags verify_minimaldata) 4
  n ← count_in keys sig_count sigs
  multisig_sigs env verify m' keys n

unfoldable pub checkmultisig_op : Env → Bool → Machine → Result Machine
checkmultisig_op env verify m = do
  refuse (length m.stack == 0) invalid_stack_operation
  keys ← bn_from_script_num (get_or m.stack 0 []) (has_flag m.flags verify_minimaldata) 4
  n ← count_in 20 pubkey_count keys
  multisig_keys env verify m n
