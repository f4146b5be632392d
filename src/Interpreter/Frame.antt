-- ===== src/Interpreter/Frame.antt =====
-- What every opcode leaves alone, and the count of the opcodes.
use lotus_sdk.Common.{
  ℕ, ◌+◌, ◌≤◌, ◌≡◌, ◌⊎◌, inl, inr, Bool, List, [], length, get_or, ltb, ◌==◌, arith,
}
use lotus_sdk.ScriptNum.{Buffer}
use lotus_sdk.Errors.{
  op_count, invalid_stack_operation, pubkey_count, sig_count, Result, ok, err, throws, refuse,
  >>=-eq-ok,
}
use lotus_sdk.Script.{Chunk}
use lotus_sdk.Interpreter.Flags.{has_flag, verify_minimaldata}
use lotus_sdk.Interpreter.Machine.{Machine, Env}
use lotus_sdk.Interpreter.Numbers.{bn_from_script_num}
use lotus_sdk.Interpreter.Flow.{nop_op, if_value, if_op, toaltstack_op, fromaltstack_op}
use lotus_sdk.Interpreter.Locktime.{
  locktime_value, locktime_reached, sequence_value, checklocktimeverify_op, checksequenceverify_op,
}
use lotus_sdk.Interpreter.Multisig.{count_in, multisig_sigs, multisig_keys, checkmultisig_op}
use lotus_sdk.Interpreter.Opcodes.{
  Op, push_number, nop, checklocktimeverify, checksequenceverify, else_branch, endif, return_op,
  if_branch, checkmultisig, toaltstack, fromaltstack, codeseparator, num2bin, on_stack, num2bin_op,
  exec_op,
}

-- The script keeps its length, the flags and the position stay, and the count of opcodes does not
-- fall, nor pass its limit.
pub record Frame (m m' : Machine) : Type 0 where
  pub same_length : length m'.script ≡ length m.script
  pub same_flags : m'.flags ≡ m.flags
  pub same_pc : m'.pc ≡ m.pc
  pub counted : m.n_op_count ≤ m'.n_op_count
  pub capped : m.n_op_count ≤ 201 → m'.n_op_count ≤ 201

-- OP_NUM2BIN writes into buffers, and takes no chunk away.
abbrev pub KeepsLength : Env → Type 0
KeepsLength env =
    (m : Machine) (script : List Chunk) (s alt : List Buffer)
    → env.num2bin m ≡ ok (script, s, alt)
    → length script ≡ length m.script

Frame-refl : (m : Machine) → Frame m m
Frame-refl m = omega arith

Frame-on_stack :
    (m : Machine) (r : Result (List Buffer)) (m' : Machine) → on_stack m r ≡ ok m' → Frame m m'
Frame-on_stack m (ok s) m' e = ground arith
Frame-on_stack m (err x) m' e = cc
Frame-on_stack m (throws t) m' e = cc

Frame-nop_op : (m m' : Machine) → nop_op m ≡ ok m' → Frame m m'
unfolding nop_op
Frame-nop_op m m' e = ground arith

Frame-if_op : (n x : Bool) (m m' : Machine) → if_op n x m ≡ ok m' → Frame m m'
unfolding if_op if_value
Frame-if_op n x m m' e = ground arith

Frame-locktime : (env : Env) (m m' : Machine) → checklocktimeverify_op env m ≡ ok m' → Frame m m'
unfolding checklocktimeverify_op locktime_value locktime_reached
Frame-locktime env m m' e = ground (arith, Frame-nop_op m m')

Frame-sequence : (env : Env) (m m' : Machine) → checksequenceverify_op env m ≡ ok m' → Frame m m'
unfolding checksequenceverify_op sequence_value
Frame-sequence env m m' e = ground (arith, Frame-nop_op m m')

Frame-multisig_sigs :
    (env : Env) (v : Bool) (m : Machine) (k n : ℕ) (m' : Machine)
    → multisig_sigs env v m k n ≡ ok m'
    → Frame m m'
unfolding multisig_sigs
Frame-multisig_sigs env v m k n m' e = ground arith

Frame-multisig_keys :
    (env : Env) (v : Bool) (m : Machine) (k : ℕ) (m' : Machine)
    → multisig_keys env v m k ≡ ok m'
    → Frame m m'
unfolding multisig_keys
Frame-multisig_keys env v m k m' e =
    let (_, few, e₁) = >>=-eq-ok (refuse (ltb 201 (m.n_op_count + k)) op_count) _ e in
    let (_, _, e₂) =
      >>=-eq-ok (refuse (ltb (length m.stack) (2 + k)) invalid_stack_operation) _ e₁ in
    let (_, _, e₃) =
      >>=-eq-ok
        (bn_from_script_num (get_or m.stack (1 + k) []) (has_flag m.flags verify_minimaldata) 4) _
        e₂ in
    let (n, _, e₄) = >>=-eq-ok (count_in k sig_count _) _ e₃ in
    ground
      (arith, few, Frame-multisig_sigs env v (record m { n_op_count = m.n_op_count + k }) k n m' e₄)

Frame-checkmultisig :
    (env : Env) (v : Bool) (m m' : Machine) → checkmultisig_op env v m ≡ ok m' → Frame m m'
unfolding checkmultisig_op
Frame-checkmultisig env v m m' e =
    let (_, _, e₁) = >>=-eq-ok (refuse (length m.stack == 0) invalid_stack_operation) _ e in
    let (_, _, e₂) =
      >>=-eq-ok (bn_from_script_num (get_or m.stack 0 []) (has_flag m.flags verify_minimaldata) 4) _
        e₁ in
    let (n, _, e₃) = >>=-eq-ok (count_in 20 pubkey_count _) _ e₂ in
    Frame-multisig_keys env v m n m' e₃

Frame-alt :
    (m m' : Machine)
    → (toaltstack_op m m.stack ≡ ok m') ⊎ (fromaltstack_op m m.altstack ≡ ok m')
    → Frame m m'
unfolding toaltstack_op fromaltstack_op
Frame-alt m m' e = ground arith

Frame-num2bin :
    (env : Env) → KeepsLength env → (m m' : Machine) → num2bin_op env m ≡ ok m' → Frame m m'
unfolding num2bin_op
Frame-num2bin env law m m' e =
    let ((script, s, alt), made, e₁) = >>=-eq-ok (env.num2bin m) _ e in
    ground (arith, law m script s alt made)

-- Every operation that succeeds keeps the number of chunks, the flags and the position, and does
-- not lower the count of opcodes nor lift it over 201, if OP_NUM2BIN keeps the number of chunks.
pub Frame-exec_op :
    (env : Env)
    → KeepsLength env
    → (x : Bool) (o : Op) (m m' : Machine) → exec_op env x o m ≡ ok m'
    → Frame m m'
unfolding exec_op
Frame-exec_op env law x (push_number n) m m' e = ground arith
Frame-exec_op env law x nop m m' e = Frame-nop_op m m' e
Frame-exec_op env law x checklocktimeverify m m' e = Frame-locktime env m m' e
Frame-exec_op env law x checksequenceverify m m' e = Frame-sequence env m m' e
Frame-exec_op env law x else_branch m m' e = ground arith
Frame-exec_op env law x endif m m' e = ground arith
Frame-exec_op env law x return_op m m' e = cc
Frame-exec_op env law x (if_branch n) m m' e = Frame-if_op n x m m' e
Frame-exec_op env law x (checkmultisig v) m m' e = Frame-checkmultisig env v m m' e
Frame-exec_op env law x toaltstack m m' e = Frame-alt m m' (inl e)
Frame-exec_op env law x fromaltstack m m' e = Frame-alt m m' (inr e)
Frame-exec_op env law x codeseparator m m' e = ground arith
Frame-exec_op env law x num2bin m m' e = Frame-num2bin env law m m' e
Frame-exec_op env law x _ m m' e = Frame-on_stack m _ m' e
