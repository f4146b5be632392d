-- ===== src/Interpreter/Opcodes.antt =====
-- The cases of the `switch` in `step`: which opcode is which operation, and what is disabled.
use lotus_sdk.Common.{
  ℕ, ◌+◌, ◌-◌, Bool, true, false, ◌&&◌, ◌||◌, Option, none, some, List, [], ◌∷◌, leb, ◌==◌,
  if◌then◌else◌,
}
use lotus_sdk.Common.Ints.{ℤ, pos, negsuc}
use lotus_sdk.ScriptNum.{Buffer, to_script_num_buffer}
use lotus_sdk.Errors.{op_return, Result, ok, err, ◌>>=◌}
use lotus_sdk.Interpreter.Flags.{has_flag, verify_minimaldata}
use lotus_sdk.Interpreter.Machine.{Machine, Env}
use lotus_sdk.Interpreter.Stack.{
  PairOp, op_2drop, op_2dup, op_3dup, op_2over, op_2rot, op_2swap, pair_op, ItemOp, op_depth,
  op_drop, op_dup, op_nip, op_over, op_pick, op_roll, op_rot, op_swap, op_tuck, op_size, item_op,
}
use lotus_sdk.Interpreter.Arith.{
  UnaryOp, op_1add, op_1sub, op_negate, op_abs, op_not, op_0notequal, unary_op, BinaryOp, op_add,
  op_sub, op_booland, op_boolor, op_lessthan, op_greaterthan, op_lessthanorequal,
  op_greaterthanorequal, op_min, op_max, binary_op, within_op,
}
use lotus_sdk.Interpreter.Bytes.{
  BitOp, op_and, op_or, op_xor, bit_op, equal_op, cat_op, split_op, bin2num_op, reversebytes_op,
}
use lotus_sdk.Interpreter.Flow.{
  nop_op, if_op, else_op, endif_op, verify_op, toaltstack_op, fromaltstack_op,
}
use lotus_sdk.Interpreter.Locktime.{checklocktimeverify_op, checksequenceverify_op}
use lotus_sdk.Interpreter.Signatures.{
  HashOp, op_ripemd160, op_sha256, op_hash160, op_hash256, hash_op, checksig_op, checkdatasig_op,
}
use lotus_sdk.Interpreter.Multisig.{checkmultisig_op}

-- `if_else notif`, and the opcodes with a VERIFY form, `true` for that form.
pub data Op : Type 0 where
  push_number : ℤ → Op
  nop checklocktimeverify checksequenceverify else_branch endif verify return_op : Op
  if_branch equal checkdatasig checksig checkmultisig : Bool → Op
  toaltstack fromaltstack within codeseparator reversebytes cat split num2bin bin2num : Op
  pairs : PairOp → Op
  items : ItemOp → Op
  bits : BitOp → Op
  unary : UnaryOp → Op
  binary : BinaryOp → Op
  hash : HashOp → Op

-- The opcodes with a case, in the order of lib/bitcore/opcode.ts.
abbrev pub op_table : List (ℕ × Op)
op_table =
    (79, push_number (negsuc 0))
    ∷ (97, nop)
    ∷ (99, if_branch false)
    ∷ (100, if_branch true)
    ∷ (103, else_branch)
    ∷ (104, endif)
    ∷ (105, verify)
    ∷ (106, return_op)
    ∷ (107, toaltstack)
    ∷ (108, fromaltstack)
    ∷ (109, pairs op_2drop)
    ∷ (110, pairs op_2dup)
    ∷ (111, pairs op_3dup)
    ∷ (112, pairs op_2over)
    ∷ (113, pairs op_2rot)
    ∷ (114, pairs op_2swap)
    ∷ (116, items op_depth)
    ∷ (117, items op_drop)
    ∷ (118, items op_dup)
    ∷ (119, items op_nip)
    ∷ (120, items op_over)
    ∷ (121, items op_pick)
    ∷ (122, items op_roll)
    ∷ (123, items op_rot)
    ∷ (124, items op_swap)
    ∷ (125, items op_tuck)
    ∷ (126, cat)
    ∷ (127, split)
    ∷ (128, num2bin)
    ∷ (129, bin2num)
    ∷ (130, items op_size)
    ∷ (132, bits op_and)
    ∷ (133, bits op_or)
    ∷ (134, bits op_xor)
    ∷ (135, equal false)
    ∷ (136, equal true)
    ∷ (139, unary op_1add)
    ∷ (140, unary op_1sub)
    ∷ (143, unary op_negate)
    ∷ (144, unary op_abs)
    ∷ (145, unary op_not)
    ∷ (146, unary op_0notequal)
    ∷ (147, binary op_add)
    ∷ (148, binary op_sub)
    ∷ (154, binary op_booland)
    ∷ (155, binary op_boolor)
    ∷ (159, binary op_lessthan)
    ∷ (160, binary op_greaterthan)
    ∷ (161, binary op_lessthanorequal)
    ∷ (162, binary op_greaterthanorequal)
    ∷ (163, binary op_min)
    ∷ (164, binary op_max)
    ∷ (165, within)
    ∷ (166, hash op_ripemd160)
    ∷ (168, hash op_sha256)
    ∷ (169, hash op_hash160)
    ∷ (170, hash op_hash256)
    ∷ (171, codeseparator)
    ∷ (172, checksig false)
    ∷ (173, checksig true)
    ∷ (174, checkmultisig false)
    ∷ (175, checkmultisig true)
    ∷ (176, nop)
    ∷ (177, checklocktimeverify)
    ∷ (178, checksequenceverify)
    ∷ (179, nop)
    ∷ (180, nop)
    ∷ (181, nop)
    ∷ (182, nop)
    ∷ (183, nop)
    ∷ (184, nop)
    ∷ (185, nop)
    ∷ (186, checkdatasig false)
    ∷ (187, checkdatasig true)
    ∷ (188, reversebytes)
    ∷ []

unfoldable pub find_op : ℕ → List (ℕ × Op) → Option Op
find_op n [] = none
find_op n ((k, o) ∷ table) = if n == k then some o else find_op n table

-- OP_1 to OP_16 push `opcodenum - Opcode.OP_1 + 1`.
unfoldable pub decode : ℕ → Option Op
decode n =
    if leb 81 n && leb n 96 then some (push_number (pos (n - 81 + 1))) else find_op n op_table

-- OP_RESERVED, OP_VERIF, OP_VERNOTIF, OP_IFDUP, OP_INVERT, OP_RESERVED1, OP_RESERVED2, OP_2MUL,
-- OP_2DIV, OP_MUL, OP_NUMEQUAL, OP_NUMEQUALVERIFY, OP_NUMNOTEQUAL, OP_SHA1, OP_LSHIFT, OP_RSHIFT.
abbrev pub disabled_table : List ℕ
disabled_table =
    80 ∷ 101 ∷ 102 ∷ 115 ∷ 131 ∷ 137 ∷ 138 ∷ 141 ∷ 142 ∷ 149 ∷ 156 ∷ 157 ∷ 158 ∷ 167 ∷ 152 ∷ 153
    ∷ []

unfoldable pub contains : ℕ → List ℕ → Bool
contains n [] = false
contains n (k ∷ ks) = n == k || contains n ks

unfoldable pub is_opcode_disabled : ℕ → Bool
is_opcode_disabled n = contains n disabled_table || leb 189 n

abbrev pub on_stack : Machine → Result (List Buffer) → Result Machine
on_stack m r = do s ← r; ok (record m { stack = s })

unfoldable pub num2bin_op : Env → Machine → Result Machine
num2bin_op env m = do
  (script, stack, altstack) ← env.num2bin m
  ok (record m { script = script; stack = stack; altstack = altstack })

-- `exec` is `fExec`.
unfoldable pub exec_op : Env → Bool → Op → Machine → Result Machine
exec_op env exec (push_number n) m = ok (record m { stack = to_script_num_buffer n ∷ m.stack })
exec_op env exec nop m = nop_op m
exec_op env exec checklocktimeverify m = checklocktimeverify_op env m
exec_op env exec checksequenceverify m = checksequenceverify_op env m
exec_op env exec else_branch m = do v ← else_op m.vf_exec; ok (record m { vf_exec = v })
exec_op env exec endif m = do v ← endif_op m.vf_exec; ok (record m { vf_exec = v })
exec_op env exec verify m = on_stack m (verify_op m.stack)
exec_op env exec return_op m = err op_return
exec_op env exec (if_branch notif) m = if_op notif exec m
exec_op env exec (equal v) m = on_stack m (equal_op v m.stack)
exec_op env exec (checkdatasig v) m = on_stack m (checkdatasig_op env v m m.stack)
exec_op env exec (checksig v) m = on_stack m (checksig_op env v m m.stack)
exec_op env exec (checkmultisig v) m = checkmultisig_op env v m
exec_op env exec toaltstack m = toaltstack_op m m.stack
exec_op env exec fromaltstack m = fromaltstack_op m m.altstack
exec_op env exec within m = on_stack m (within_op m.stack)
exec_op env exec codeseparator m = ok (record m { pbegincodehash = m.pc })
exec_op env exec reversebytes m = on_stack m (reversebytes_op m.stack)
exec_op env exec cat m = on_stack m (cat_op m.stack)
exec_op env exec split m = on_stack m (split_op (has_flag m.flags verify_minimaldata) m.stack)
exec_op env exec num2bin m = num2bin_op env m
exec_op env exec bin2num m = on_stack m (bin2num_op m.stack)
exec_op env exec (pairs o) m = on_stack m (pair_op o m.stack)
exec_op env exec (items o) m = on_stack m (item_op o m.stack)
exec_op env exec (bits o) m = on_stack m (bit_op o m.stack)
exec_op env exec (unary o) m = on_stack m (unary_op o m.stack)
exec_op env exec (binary o) m = on_stack m (binary_op o m.stack)
exec_op env exec (hash o) m = on_stack m (hash_op env o m.stack)
