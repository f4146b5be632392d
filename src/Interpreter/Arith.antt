-- ===== src/Interpreter/Arith.antt =====
-- The arithmetic opcodes. Their operands are read by `fromScriptNumBuffer`, at any length.
use lotus_sdk.Common.{Bool, true, false, not, ◌&&◌, ◌||◌, List, [], ◌∷◌, if◌then◌else◌}
use lotus_sdk.Common.Ints.{ℤ, pos, neg, ◌+ℤ◌, ◌-ℤ◌, ltb_ℤ, leb_ℤ, is_zero_ℤ}
use lotus_sdk.ScriptNum.{Buffer, to_script_num_buffer, from_script_num_buffer}
use lotus_sdk.Errors.{invalid_stack_operation, Result, ok, err}

pub data UnaryOp : Type 0 where
  op_1add op_1sub op_negate op_abs op_not op_0notequal : UnaryOp

pub data BinaryOp : Type 0 where
  op_add op_sub op_booland op_boolor op_lessthan op_greaterthan op_lessthanorequal : BinaryOp
  op_greaterthanorequal op_min op_max : BinaryOp

abbrev pub bit : Bool → ℤ
bit true = pos 1
bit false = pos 0

unfoldable pub unary_value : UnaryOp → ℤ → ℤ
unary_value op_1add n = n +ℤ pos 1
unary_value op_1sub n = n -ℤ pos 1
unary_value op_negate n = neg n
unary_value op_abs n = if ltb_ℤ n (pos 0) then neg n else n
unary_value op_not n = bit (is_zero_ℤ n)
unary_value op_0notequal n = bit (not (is_zero_ℤ n))

-- `x` is `bn1`, the top of the stack; `y` is `bn2`, below it.
unfoldable pub binary_value : BinaryOp → ℤ → ℤ → ℤ
binary_value op_add x y = x +ℤ y
binary_value op_sub x y = y -ℤ x
binary_value op_booland x y = bit (not (is_zero_ℤ x) && not (is_zero_ℤ y))
binary_value op_boolor x y = bit (not (is_zero_ℤ x) || not (is_zero_ℤ y))
binary_value op_lessthan x y = bit (ltb_ℤ y x)
binary_value op_greaterthan x y = bit (ltb_ℤ x y)
binary_value op_lessthanorequal x y = bit (leb_ℤ y x)
binary_value op_greaterthanorequal x y = bit (leb_ℤ x y)
binary_value op_min x y = if ltb_ℤ x y then x else y
binary_value op_max x y = if ltb_ℤ y x then x else y

unfoldable pub unary_op : UnaryOp → List Buffer → Result (List Buffer)
unary_op o (a ∷ s) = ok (to_script_num_buffer (unary_value o (from_script_num_buffer a)) ∷ s)
unary_op o [] = err invalid_stack_operation

unfoldable pub binary_op : BinaryOp → List Buffer → Result (List Buffer)
binary_op o (b ∷ a ∷ s) = ok (
    to_script_num_buffer (binary_value o (from_script_num_buffer b) (from_script_num_buffer a)) ∷ s)
binary_op o _ = err invalid_stack_operation

-- OP_WITHIN: the upper bound, the lower bound and the value, from the top.
unfoldable pub within_op : List Buffer → Result (List Buffer)
within_op (u ∷ l ∷ v ∷ s) =
    let value = from_script_num_buffer v in
    ok (
      to_script_num_buffer
        (bit (leb_ℤ (from_script_num_buffer l) value && ltb_ℤ value (from_script_num_buffer u)))
      ∷ s)
within_op _ = err invalid_stack_operation
