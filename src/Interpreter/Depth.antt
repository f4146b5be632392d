-- ===== src/Interpreter/Depth.antt =====
-- How the opcodes that rearrange the stack change its depth and its contents.
use lotus_sdk.Common.{
  ℕ, zero, suc, ◌+◌, ◌-◌, ◌≡◌, inl, inr, refl, true, some, List, [], ◌∷◌, length, get_elem?, ltb,
  if◌then◌else◌, Option-cases, arith,
}
use lotus_sdk.Common.Ints.{ℤ, pos, negsuc}
use lotus_sdk.ScriptNum.{Buffer, from_script_num_buffer}
use lotus_sdk.Errors.{invalid_stack_operation, Result, ok, err, throws}
use lotus_sdk.Interpreter.Stack.{
  PairOp, op_2drop, op_2dup, op_3dup, op_2over, op_2rot, op_2swap, pair_op, remove_at, picked,
  pick_or_roll, ItemOp, op_depth, op_drop, op_dup, op_nip, op_over, op_pick, op_roll, op_rot,
  op_swap, op_tuck, op_size, item_op,
}
use mathlib.Core.List.{Perm}
use mathlib.Core.List.Perm

-- How many elements an operation wants, and how many it pushes and pops on balance: `adds` and
-- `drops`.
abbrev pub pair_needs : PairOp → ℕ
pair_needs op_2drop = 2
pair_needs op_2dup = 2
pair_needs op_3dup = 3
pair_needs op_2over = 4
pair_needs op_2rot = 6
pair_needs op_2swap = 4

abbrev pub pair_adds : PairOp → ℕ
pair_adds op_2dup = 2
pair_adds op_3dup = 3
pair_adds op_2over = 2
pair_adds _ = 0

abbrev pub pair_drops : PairOp → ℕ
pair_drops op_2drop = 2
pair_drops _ = 0

abbrev pub depth : Result (List Buffer) → Result ℕ
depth (ok s) = ok (length s)
depth (err e) = err e
depth (throws t) = throws t

-- The outcome of an operation that wants `needs` elements, in terms of the depth alone.
abbrev pub depth_after : ℕ → ℕ → ℕ → List Buffer → Result ℕ
depth_after needs adds drops s =
    if ltb (length s) needs then err invalid_stack_operation else ok (length s + adds - drops)

-- Each of OP_2DROP, OP_2DUP, OP_3DUP, OP_2OVER, OP_2ROT and OP_2SWAP succeeds exactly on the stacks
-- that are deep enough, fails with the same error on all others, and changes the depth by its fixed
-- amount.
pair_op-depth :
    (o : PairOp) (s : List Buffer)
    → depth (pair_op o s) ≡ depth_after (pair_needs o) (pair_adds o) (pair_drops o) s
unfolding pair_op
pair_op-depth op_2drop (b ∷ a ∷ s) = ground arith
pair_op-depth op_2dup (b ∷ a ∷ s) = ground arith
pair_op-depth op_3dup (c ∷ b ∷ a ∷ s) = ground arith
pair_op-depth op_2over (d ∷ c ∷ b ∷ a ∷ s) = ground arith
pair_op-depth op_2rot (f ∷ e ∷ d ∷ c ∷ b ∷ a ∷ s) = ground arith
pair_op-depth op_2swap (d ∷ c ∷ b ∷ a ∷ s) = ground arith
pair_op-depth _ _ = ground arith

abbrev pub item_needs : ItemOp → ℕ
item_needs op_depth = 0
item_needs op_nip = 2
item_needs op_over = 2
item_needs op_swap = 2
item_needs op_tuck = 2
item_needs op_rot = 3
item_needs _ = 1

abbrev pub item_adds : ItemOp → ℕ
item_adds op_depth = 1
item_adds op_dup = 1
item_adds op_over = 1
item_adds op_tuck = 1
item_adds op_size = 1
item_adds _ = 0

abbrev pub item_drops : ItemOp → ℕ
item_drops op_drop = 1
item_drops op_nip = 1
item_drops _ = 0

-- OP_PICK and OP_ROLL want as many elements as their operand says, too.
abbrev pub HasFixedDepth : ItemOp → Type 0
HasFixedDepth op_pick = ⊥
HasFixedDepth op_roll = ⊥
HasFixedDepth _ = Unit

-- Each of OP_DEPTH to OP_SIZE, but OP_PICK and OP_ROLL, succeeds exactly on the stacks that are deep
-- enough, fails with the same error on all others, and changes the depth by its fixed amount.
item_op-depth :
    (o : ItemOp) (s : List Buffer)
    → HasFixedDepth o
    → depth (item_op o s) ≡ depth_after (item_needs o) (item_adds o) (item_drops o) s
unfolding item_op
item_op-depth op_pick s h = absurd h
item_op-depth op_roll s h = absurd h
item_op-depth op_depth s h = ground arith
item_op-depth op_drop (a ∷ s) h = ground arith
item_op-depth op_dup (a ∷ s) h = ground arith
item_op-depth op_nip (b ∷ a ∷ s) h = ground arith
item_op-depth op_over (b ∷ a ∷ s) h = ground arith
item_op-depth op_rot (c ∷ b ∷ a ∷ s) h = ground arith
item_op-depth op_swap (b ∷ a ∷ s) h = ground arith
item_op-depth op_tuck (b ∷ a ∷ s) h = ground arith
item_op-depth op_size (a ∷ s) h = ground arith
item_op-depth _ _ h = ground arith

remove_at-perm :
    (s : List Buffer) (n : ℕ) (v : Buffer) → get_elem? s n ≡ some v → Perm (v ∷ remove_at n s) s
unfolding remove_at
remove_at-perm [] n v h = cc
remove_at-perm (x ∷ s) zero v h = let e : x ≡ v = cc in rw e (Perm.refl (v ∷ s))
remove_at-perm (x ∷ s) (suc n) v h =
    Perm.trans (Perm.swap x v (remove_at n s)) (Perm.cons x (remove_at-perm s n v h))

-- What a successful OP_ROLL with the operand `z` has done to the stack under the operand.
abbrev pub Rolled : ℤ → List Buffer → List Buffer → Type 0
Rolled z s s' =
    (n : ℕ) × (v : Buffer) × (z ≡ pos n)
    × (get_elem? s n ≡ some v)
    × (s' ≡ v ∷ remove_at n s)
    × Perm s' s

pick_or_roll-Rolled : (z : ℤ) (s s' : List Buffer) → pick_or_roll true z s ≡ ok s' → Rolled z s s'
unfolding pick_or_roll
pick_or_roll-Rolled (negsuc n) s s' h = cc
pick_or_roll-Rolled (pos n) s s' h = elim (Option-cases (get_elem? s n)) [
  | inl missing ↦ unfold picked in cc (rw missing at h)
  | inr (v, found) ↦
      let made : s' ≡ v ∷ remove_at n s = unfold picked in ground arith in
      (n, v, refl, found, made, rw made (remove_at-perm s n v found))
]

-- OP_ROLL succeeds only with an operand `n` from 0 to one less than the depth below it, and then
-- moves the element `n` places below the operand to the top: the other elements keep their order,
-- and the elements are the same as before.
pub item_op-roll :
    (b : Buffer) (s s' : List Buffer)
    → item_op op_roll (b ∷ s) ≡ ok s'
    → Rolled (from_script_num_buffer b) s s'
unfolding item_op
item_op-roll b s s' h = pick_or_roll-Rolled (from_script_num_buffer b) s s' h
