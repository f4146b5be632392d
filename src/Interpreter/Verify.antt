-- ===== src/Interpreter/Verify.antt =====
-- `verify`: the signature script, then the public key script on the stack that it left, then the
-- script that a script hash stands for. The interpreter is a new one.
use lotus_sdk.Common.{
  ℕ, bit_or, Bool, not, ◌&&◌, List, [], ◌∷◌, length, get_or, ltb, ◌==◌, if◌then◌else◌,
}
use lotus_sdk.ScriptNum.{Buffer, cast_to_bool}
use lotus_sdk.Errors.{
  no_input_amount, stack_copy_empty, cleanstack_without_p2sh, ScriptError, sig_pushonly,
  eval_false_no_result, eval_false_in_stack, eval_false_no_p2sh_stack, eval_false_in_p2sh_stack,
  cleanstack, Result, ok, err, throws, ◌>>=◌, ◌>>◌, require, refuse,
}
use lotus_sdk.Script.{Chunk, to_buffer, from_buffer, is_push_only, is_script_hash_out}
use lotus_sdk.Interpreter.Flags.{
  has_flag, verify_p2sh, verify_strictenc, verify_sigpushonly, verify_cleanstack,
  enable_sighash_forkid,
}
use lotus_sdk.Interpreter.Machine.{Env, initial}
use lotus_sdk.Interpreter.Step.{evaluate}

-- The flags that are used: strict encoding comes with FORKID.
unfoldable pub effective_flags : ℕ → ℕ
effective_flags flags =
    if has_flag flags enable_sighash_forkid then bit_or flags verify_strictenc else flags

-- The stack must not be empty, and its top must be true.
unfoldable pub check_top : ScriptError → ScriptError → List Buffer → Result (Unit {0})
check_top no_result in_stack [] = err no_result
check_top no_result in_stack (top ∷ s) = require (cast_to_bool top) in_stack

-- The script under a script hash: `stackCopy` is the stack that the signature script left.
unfoldable pub verify_redeem : Env → List Chunk → ℕ → List Buffer → Result (List Buffer)
verify_redeem env sig flags [] = do require (is_push_only sig) sig_pushonly; throws stack_copy_empty
verify_redeem env sig flags (redeem ∷ copy) = do
  require (is_push_only sig) sig_pushonly
  script ← from_buffer redeem
  m ← evaluate env (initial script flags copy)
  check_top eval_false_no_p2sh_stack eval_false_in_p2sh_stack m.stack
  ok m.stack

unfoldable pub check_cleanstack : ℕ → List Buffer → Result (Unit {0})
check_cleanstack flags copy =
    if has_flag flags verify_cleanstack
    then (if has_flag flags verify_p2sh
        then require (length copy == 1) cleanstack
        else throws cleanstack_without_p2sh)
    else ok tt

-- Behind the evaluation of the signature script, which left the stack `s`.
unfoldable pub verify_output : Env → List Chunk → List Chunk → ℕ → List Buffer → Result (Unit {0})
verify_output env sig pubkey flags s = do
  let copy = if has_flag flags verify_p2sh then s else []
  bytes ← to_buffer pubkey
  if ltb 0 (length bytes) && get_or bytes 0 0 == 98
      then env.verify_script_type (initial pubkey flags s)
      else (do
        m ← evaluate env (initial pubkey flags s)
        check_top eval_false_no_result eval_false_in_stack m.stack
        copy' ←
            if has_flag flags verify_p2sh && is_script_hash_out bytes
            then verify_redeem env sig flags copy
            else ok copy
        check_cleanstack flags copy')

-- `ok tt` is true. `has_amount` is the truth value of `satoshisBN`.
unfoldable pub verify : Env → List Chunk → List Chunk → ℕ → Bool → Result (Unit {0})
verify env sig pubkey flags has_amount =
    if has_flag flags enable_sighash_forkid && not has_amount then throws no_input_amount else (do
      let used = effective_flags flags
      refuse (has_flag used verify_sigpushonly && not (is_push_only sig)) sig_pushonly
      m ← evaluate env (initial sig used [])
      verify_output env sig pubkey used m.stack)
