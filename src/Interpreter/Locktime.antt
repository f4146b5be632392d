-- ===== src/Interpreter/Locktime.antt =====
-- OP_CHECKLOCKTIMEVERIFY and OP_CHECKSEQUENCEVERIFY. `isFinal()` of an input (lib/bitcore/
-- transaction/input.ts) is `sequenceNumber !== 4294967295`.
use lotus_sdk.Common.{
  ℕ, ◌^◌, bit_and, Bool, true, false, not, ◌&&◌, ◌||◌, Option, none, some, List, [], ◌∷◌, ltb, leb,
  ◌==◌, if◌then◌else◌,
}
use lotus_sdk.Common.Ints.{ℤ, pos, negsuc, is_zero_ℤ}
use lotus_sdk.ScriptNum.{Buffer}
use lotus_sdk.Errors.{
  invalid_stack_operation, negative_locktime, unsatisfied_locktime, Result, ok, err, ◌>>=◌, ◌>>◌,
  require, refuse,
}
use lotus_sdk.Interpreter.Flags.{
  has_flag, verify_minimaldata, verify_checklocktimeverify, verify_checksequenceverify,
}
use lotus_sdk.Interpreter.Machine.{Machine, TxView, Env}
use lotus_sdk.Interpreter.Numbers.{bn_from_script_num}
use lotus_sdk.Interpreter.Flow.{nop_op}

unfoldable pub is_final : TxView → Bool
is_final tx = not (tx.sequence_number == 4294967295)

-- Both below the threshold, or both at or above it.
unfoldable pub same_kind : ℕ → ℕ → ℕ → Bool
same_kind threshold a b = ltb a threshold && ltb b threshold || leb threshold a && leb threshold b

unfoldable pub check_lock_time : Option TxView → ℕ → Bool
check_lock_time none n = false
check_lock_time (some tx) n =
    same_kind 500000000 tx.n_lock_time n && leb n tx.n_lock_time && is_final tx

-- `checkSequence` behind its guards, on the masked operands.
unfoldable pub sequence_reached : ℕ → ℤ → Bool
sequence_reached tx_masked (negsuc n) = ltb tx_masked (2 ^ 22)
sequence_reached tx_masked (pos n) = same_kind (2 ^ 22) tx_masked n && leb n tx_masked

unfoldable pub check_sequence : Env → ℤ → Option TxView → Result Bool
check_sequence env n none = ok false
check_sequence env n (some tx) =
    if ltb tx.version 2
    then ok false
    else if not (bit_and tx.sequence_number (2 ^ 31) == 0)
    then ok false
    else (do
      masked ← env.bn_and n (pos 0x40ffff)
      ok (sequence_reached (bit_and tx.sequence_number 0x40ffff) masked))

unfoldable pub is_negative : ℤ → Bool
is_negative (pos n) = false
is_negative (negsuc n) = true

unfoldable pub locktime_reached : Env → ℤ → Machine → Result Machine
locktime_reached env (negsuc n) m = err negative_locktime
locktime_reached env (pos n) m = if check_lock_time env.tx n then ok m else err unsatisfied_locktime

unfoldable pub locktime_value : Env → Machine → List Buffer → Result Machine
locktime_value env m [] = err invalid_stack_operation
locktime_value env m (buf ∷ s) = do
  n ← bn_from_script_num buf (has_flag m.flags verify_minimaldata) 5
  locktime_reached env n m

unfoldable pub checklocktimeverify_op : Env → Machine → Result Machine
checklocktimeverify_op env m =
    if has_flag m.flags verify_checklocktimeverify then locktime_value env m m.stack else nop_op m

-- `SEQUENCE_LOCKTIME_DISABLE_FLAG` is `1 << 31`, which is -2147483648 in JavaScript.
unfoldable pub sequence_value : Env → Machine → List Buffer → Result Machine
sequence_value env m [] = err invalid_stack_operation
sequence_value env m (buf ∷ s) = do
  n ← bn_from_script_num buf (has_flag m.flags verify_minimaldata) 5
  refuse (is_negative n) negative_locktime
  disabled ← env.bn_and n (negsuc 2147483647)
  if not (is_zero_ℤ disabled)
      then ok m
      else (do reached ← check_sequence env n env.tx; require reached unsatisfied_locktime; ok m)

unfoldable pub checksequenceverify_op : Env → Machine → Result Machine
checksequenceverify_op env m =
    if has_flag m.flags verify_checksequenceverify then sequence_value env m m.stack else nop_op m
