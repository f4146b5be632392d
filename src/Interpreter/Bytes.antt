-- ===== src/Interpreter/Bytes.antt =====
-- The opcodes on byte strings: bitwise operations, equality, concatenation, splitting, numbers
-- made minimal, reversal.
use lotus_sdk.Common.{
  ℕ, ◌+◌, bit_and, bit_or, bit_xor, Bool, true, false, List, [], ◌∷◌, ◌++◌, reverse, length, take,
  drop, ltb, ◌==◌, if◌then◌else◌,
}
use lotus_sdk.Common.Ints.{ℤ, pos, negsuc}
use lotus_sdk.ScriptNum.{Buffer, minimally_encode, is_minimally_encoded}
use lotus_sdk.Errors.{
  push_size, invalid_stack_operation, invalid_operand_size, equalverify, invalid_split_range,
  invalid_number_range, Result, ok, err, ◌>>=◌,
}
use lotus_sdk.Script.{same_bytes}
use lotus_sdk.Interpreter.Numbers.{bn_from_script_num}

pub data BitOp : Type 0 where
  op_and op_or op_xor : BitOp

unfoldable pub bit_value : BitOp → ℕ → ℕ → ℕ
bit_value op_and a b = bit_and a b
bit_value op_or a b = bit_or a b
bit_value op_xor a b = bit_xor a b

-- The loop over the bytes of two buffers of one length.
unfoldable pub zip_bytes : BitOp → Buffer → Buffer → Buffer
zip_bytes o [] ys = []
zip_bytes o (x ∷ xs) [] = []
zip_bytes o (x ∷ xs) (y ∷ ys) = bit_value o x y ∷ zip_bytes o xs ys

unfoldable pub bit_op : BitOp → List Buffer → Result (List Buffer)
bit_op o (b ∷ a ∷ s) =
    if length b == length a then ok (zip_bytes o b a ∷ s) else err invalid_operand_size
bit_op o _ = err invalid_stack_operation

-- `Interpreter.true` and `Interpreter.false`.
abbrev pub bool_buffer : Bool → Buffer
bool_buffer true = 1 ∷ []
bool_buffer false = 0 ∷ []

-- OP_EQUAL, and OP_EQUALVERIFY where `verify` is true.
unfoldable pub equal_op : Bool → List Buffer → Result (List Buffer)
equal_op verify (b ∷ a ∷ s) =
    if verify
    then (if same_bytes a b then ok s else err equalverify)
    else ok (bool_buffer (same_bytes a b) ∷ s)
equal_op verify _ = err invalid_stack_operation

unfoldable pub cat_op : List Buffer → Result (List Buffer)
cat_op (b ∷ a ∷ s) = if ltb 520 (length a + length b) then err push_size else ok ((a ++ b) ∷ s)
cat_op _ = err invalid_stack_operation

-- `position < 0 || position > buf1.length`
unfoldable pub split_at : ℤ → Buffer → List Buffer → Result (List Buffer)
split_at (negsuc n) a s = err invalid_split_range
split_at (pos n) a s =
    if ltb (length a) n then err invalid_split_range else ok (drop n a ∷ take n a ∷ s)

unfoldable pub split_op : Bool → List Buffer → Result (List Buffer)
split_op minimal (n ∷ a ∷ s) = do position ← bn_from_script_num n minimal 4; split_at position a s
split_op minimal _ = err invalid_stack_operation

unfoldable pub bin2num_op : List Buffer → Result (List Buffer)
bin2num_op (a ∷ s) =
    let b = minimally_encode a in
    if is_minimally_encoded b 4 then ok (b ∷ s) else err invalid_number_range
bin2num_op [] = err invalid_stack_operation

unfoldable pub reversebytes_op : List Buffer → Result (List Buffer)
reversebytes_op (a ∷ s) = ok (reverse a ∷ s)
reversebytes_op [] = err invalid_stack_operation
