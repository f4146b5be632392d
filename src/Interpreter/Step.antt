-- ===== src/Interpreter/Step.antt =====
-- `step`, one chunk of the script, and `evaluate`, the loop over the script.
use lotus_sdk.Common.{
  ℕ, zero, suc, ◌+◌, ◌-◌, Bool, true, false, not, ◌&&◌, ◌||◌, Option, none, some, List, [], ◌∷◌,
  length, get_elem?, ltb, leb, ◌==◌, if◌then◌else◌,
}
use lotus_sdk.ScriptNum.{Buffer}
use lotus_sdk.Errors.{
  push_length_mismatch, push_size, op_count, disabled_opcode, minimaldata, unbalanced_conditional,
  bad_opcode, script_size, stack_size, unknown_error, Result, ok, err, throws, ◌>>=◌, ◌>>◌, refuse,
}
use lotus_sdk.Script.{Chunk, to_buffer, check_minimal_push}
use lotus_sdk.Interpreter.Flags.{has_flag, verify_minimaldata}
use lotus_sdk.Interpreter.Machine.{Machine, Env}
use lotus_sdk.Interpreter.Opcodes.{Op, decode, is_opcode_disabled, exec_op}

-- `this.vfExec.indexOf(false) === -1`
unfoldable pub all_true : List Bool → Bool
all_true [] = true
all_true (b ∷ bs) = b && all_true bs

-- What a chunk pushes: without a buffer `Interpreter.false`, else the buffer.
unfoldable pub pushed_data : Chunk → Option Buffer → Result Buffer
pushed_data c none = ok (0 ∷ [])
pushed_data c (some buf) = elim c.len [
  | none ↦ throws push_length_mismatch
  | some len ↦ if len == length buf then ok buf else throws push_length_mismatch
]

unfoldable pub push_data : Chunk → Machine → Result Machine
push_data c m = do
  refuse (has_flag m.flags verify_minimaldata && not (check_minimal_push m.script (m.pc - 1)))
      minimaldata
  buf ← pushed_data c c.buf
  ok (record m { stack = buf ∷ m.stack })

-- The `switch`: an opcode with no case is bad.
unfoldable pub exec_opcode : Env → Bool → Option Op → Machine → Result Machine
exec_opcode env exec none m = err bad_opcode
exec_opcode env exec (some o) m = exec_op env exec o m

-- OP_IF to OP_ENDIF are executed in a branch that is not taken, too.
unfoldable pub execute : Env → Chunk → Machine → Result Machine
execute env c m =
    let exec = all_true m.vf_exec in
    if exec && leb c.opcodenum 78
    then push_data c m
    else if exec || leb 99 c.opcodenum && leb c.opcodenum 104
    then exec_opcode env exec (decode c.opcodenum) m
    else ok m

abbrev pub is_too_long : Option Buffer → Bool
is_too_long none = false
is_too_long (some buf) = ltb 520 (length buf)

-- `opcodenum > Opcode.OP_16 && ++this.nOpCount > Interpreter.MAX_OPCODE_COUNT`
unfoldable pub count_op : ℕ → Machine → Result Machine
count_op opcodenum m =
    if ltb 96 opcodenum
    then (if ltb 201 (m.n_op_count + 1)
        then err op_count
        else ok (record m { n_op_count = m.n_op_count + 1 }))
    else ok m

-- `step` behind `this.pc++`.
unfoldable pub step_chunk : Env → Chunk → Machine → Result Machine
step_chunk env c m = do
  refuse (is_too_long c.buf) push_size
  m' ← count_op c.opcodenum m
  refuse (is_opcode_disabled c.opcodenum) disabled_opcode
  execute env c m'

unfoldable pub step_at : Env → Option Chunk → Machine → Result Machine
step_at env none m = ok m
step_at env (some c) m = step_chunk env c (record m { pc = m.pc + 1 })

unfoldable pub step : Env → Machine → Result Machine
step env m = step_at env (get_elem? m.script m.pc) m

-- `while (this.pc < this.script.chunks.length)`, one round to a unit of fuel.
unfoldable pub run_loop : Env → ℕ → Machine → Result Machine
run_loop env zero m = ok m
run_loop env (suc fuel) m =
    let round = (do
      refuse (ltb 1000 (length m.stack)) stack_size
      m' ← step env m
      run_loop env fuel m') in
    if ltb m.pc (length m.script) then round else ok m

-- The checks behind the loop.
unfoldable pub finish : Machine → Result Machine
finish m = do
  refuse (ltb 1000 (length m.stack + length m.altstack)) stack_size
  refuse (not (length m.vf_exec == 0)) unbalanced_conditional
  ok m

-- `catch (e) { this.errstr = 'SCRIPT_ERR_UNKNOWN_ERROR: ' + …; return false }`
unfoldable pub catch_all : Result Machine → Result Machine
catch_all (ok m) = ok m
catch_all (err e) = err e
catch_all (throws t) = err (unknown_error t)

-- Every round takes a chunk, so there are at most as many rounds as chunks.
unfoldable pub evaluate : Env → Machine → Result Machine
evaluate env m = do
  bytes ← to_buffer m.script
  refuse (ltb 10000 (length bytes)) script_size
  catch_all (do m' ← run_loop env (length m.script) m; finish m')
