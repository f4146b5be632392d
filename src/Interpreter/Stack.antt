-- ===== src/Interpreter/Stack.antt =====
-- The opcodes that rearrange the stack.
use lotus_sdk.Common.{
  ℕ, zero, suc, Bool, true, false, Option, none, some, List, [], ◌∷◌, length, get_elem?,
  if◌then◌else◌,
}
use lotus_sdk.Common.Ints.{ℤ, pos, negsuc}
use lotus_sdk.ScriptNum.{Buffer, to_script_num_buffer, from_script_num_buffer}
use lotus_sdk.Errors.{invalid_stack_operation, Result, ok, err}

-- OP_2DROP to OP_2SWAP.
pub data PairOp : Type 0 where
  op_2drop op_2dup op_3dup op_2over op_2rot op_2swap : PairOp

-- OP_DEPTH to OP_SIZE.
pub data ItemOp : Type 0 where
  op_depth op_drop op_dup op_nip op_over op_pick op_roll op_rot op_swap op_tuck op_size : ItemOp

unfoldable pub pair_op : PairOp → List Buffer → Result (List Buffer)
pair_op op_2drop (b ∷ a ∷ s) = ok s
pair_op op_2dup (b ∷ a ∷ s) = ok (b ∷ a ∷ b ∷ a ∷ s)
pair_op op_3dup (c ∷ b ∷ a ∷ s) = ok (c ∷ b ∷ a ∷ c ∷ b ∷ a ∷ s)
pair_op op_2over (d ∷ c ∷ b ∷ a ∷ s) = ok (b ∷ a ∷ d ∷ c ∷ b ∷ a ∷ s)
pair_op op_2rot (f ∷ e ∷ d ∷ c ∷ b ∷ a ∷ s) = ok (b ∷ a ∷ f ∷ e ∷ d ∷ c ∷ s)
pair_op op_2swap (d ∷ c ∷ b ∷ a ∷ s) = ok (b ∷ a ∷ d ∷ c ∷ s)
pair_op _ _ = err invalid_stack_operation

-- `splice(index, 1)`, counted from the top.
unfoldable pub remove_at : ℕ → List Buffer → List Buffer
remove_at n [] = []
remove_at zero (x ∷ s) = s
remove_at (suc n) (x ∷ s) = x ∷ remove_at n s

-- The value `n` places below the top, with what the stack is under it.
unfoldable pub picked : Option Buffer → List Buffer → Result (List Buffer)
picked none s = err invalid_stack_operation
picked (some v) s = ok (v ∷ s)

-- OP_PICK and OP_ROLL behind the pop of the number: `n < 0n || n >= BigInt(this.stack.length)`.
unfoldable pub pick_or_roll : Bool → ℤ → List Buffer → Result (List Buffer)
pick_or_roll roll (negsuc n) s = err invalid_stack_operation
pick_or_roll roll (pos n) s = picked (get_elem? s n) (if roll then remove_at n s else s)

unfoldable pub item_op : ItemOp → List Buffer → Result (List Buffer)
item_op op_depth s = ok (to_script_num_buffer (pos (length s)) ∷ s)
item_op op_drop (a ∷ s) = ok s
item_op op_dup (a ∷ s) = ok (a ∷ a ∷ s)
item_op op_nip (b ∷ a ∷ s) = ok (b ∷ s)
item_op op_over (b ∷ a ∷ s) = ok (a ∷ b ∷ a ∷ s)
item_op op_pick (n ∷ s) = pick_or_roll false (from_script_num_buffer n) s
item_op op_roll (n ∷ s) = pick_or_roll true (from_script_num_buffer n) s
item_op op_rot (c ∷ b ∷ a ∷ s) = ok (a ∷ c ∷ b ∷ s)
item_op op_swap (b ∷ a ∷ s) = ok (a ∷ b ∷ s)
item_op op_tuck (b ∷ a ∷ s) = ok (b ∷ a ∷ b ∷ s)
item_op op_size (a ∷ s) = ok (to_script_num_buffer (pos (length a)) ∷ a ∷ s)
item_op _ _ = err invalid_stack_operation
