-- ===== src/Interpreter/Flow.antt =====
-- Control flow, the alternative stack and the code separator.
use lotus_sdk.Common.{Bool, true, false, not, ◌&&◌, List, [], ◌∷◌, ◌==◌, if◌then◌else◌}
use lotus_sdk.ScriptNum.{Buffer, cast_to_bool}
use lotus_sdk.Errors.{
  discourage_upgradable_nops, invalid_stack_operation, invalid_altstack_operation,
  unbalanced_conditional, minimalif, verify_failed, Result, ok, err,
}
use lotus_sdk.Interpreter.Flags.{has_flag, verify_discourage_upgradable_nops, verify_minimalif}
use lotus_sdk.Interpreter.Machine.{Machine}

-- OP_NOP and the upgradable NOPs.
unfoldable pub nop_op : Machine → Result Machine
nop_op m =
    if has_flag m.flags verify_discourage_upgradable_nops
    then err discourage_upgradable_nops
    else ok m

-- `buf.length > 1`, or one byte that is not 1.
unfoldable pub breaks_minimalif : Buffer → Bool
breaks_minimalif [] = false
breaks_minimalif (b ∷ []) = not (b == 1)
breaks_minimalif (b ∷ c ∷ bs) = true

-- The value that OP_IF and OP_NOTIF take from the stack where they are executed.
unfoldable pub if_value : Bool → Machine → List Buffer → Result Machine
if_value notif m [] = err unbalanced_conditional
if_value notif m (buf ∷ s) =
    if has_flag m.flags verify_minimalif && breaks_minimalif buf
    then err minimalif
    else ok (record m {
      stack = s;
      vf_exec = (if notif then not (cast_to_bool buf) else cast_to_bool buf) ∷ m.vf_exec;
    })

unfoldable pub if_op : Bool → Bool → Machine → Result Machine
if_op notif exec m =
    if exec then if_value notif m m.stack else ok (record m { vf_exec = false ∷ m.vf_exec })

-- OP_ELSE and OP_ENDIF on `vfExec`, the innermost conditional first.
unfoldable pub else_op : List Bool → Result (List Bool)
else_op [] = err unbalanced_conditional
else_op (b ∷ bs) = ok (not b ∷ bs)

unfoldable pub endif_op : List Bool → Result (List Bool)
endif_op [] = err unbalanced_conditional
endif_op (b ∷ bs) = ok bs

unfoldable pub verify_op : List Buffer → Result (List Buffer)
verify_op [] = err invalid_stack_operation
verify_op (buf ∷ s) = if cast_to_bool buf then ok s else err verify_failed

unfoldable pub toaltstack_op : Machine → List Buffer → Result Machine
toaltstack_op m [] = err invalid_stack_operation
toaltstack_op m (a ∷ s) = ok (record m { stack = s; altstack = a ∷ m.altstack })

unfoldable pub fromaltstack_op : Machine → List Buffer → Result Machine
fromaltstack_op m [] = err invalid_altstack_operation
fromaltstack_op m (a ∷ alt) = ok (record m { stack = a ∷ m.stack; altstack = alt })
