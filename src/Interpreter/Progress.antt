-- ===== src/Interpreter/Progress.antt =====
-- The loop over the script: every step takes one chunk, the fuel suffices, and what holds of a
-- machine that a successful evaluation leaves.
use lotus_sdk.Common.{
  ℕ, zero, suc, ◌+◌, ◌<◌, ◌≤◌, ◌≡◌, ◌⊎◌, inl, inr, refl, ◌∙◌, ◌&&◌, some, List, [], ◌∷◌, length,
  get_elem?, ltb, leb, ltb→lt, Bool-cases, Option-cases, arith,
}
use lotus_sdk.ScriptNum.{Buffer}
use lotus_sdk.Errors.{
  Thrown, ScriptError, script_size, stack_size, Result, ok, err, throws, refuse, >>=-eq-ok,
}
use lotus_sdk.Script.{Chunk, to_buffer}
use lotus_sdk.Interpreter.Machine.{Machine, Env, initial}
use lotus_sdk.Interpreter.Opcodes.{decode}
use lotus_sdk.Interpreter.Step.{
  all_true, push_data, exec_opcode, execute, count_op, step_chunk, step_at, step, run_loop, finish,
  catch_all, evaluate,
}
use lotus_sdk.Interpreter.Frame.{Frame, KeepsLength, Frame-exec_op}

get_elem?-lt : (cs : List Chunk) (n : ℕ) → n < length cs → (c : Chunk) × (get_elem? cs n ≡ some c)
get_elem?-lt [] n h = absurd (omega arith)
get_elem?-lt (c ∷ cs) zero h = (c, refl)
get_elem?-lt (c ∷ cs) (suc n) h = get_elem?-lt cs n (omega arith)

Frame-execute :
    (env : Env)
    → KeepsLength env
    → (c : Chunk) (m m' : Machine) → execute env c m ≡ ok m'
    → Frame m m'
unfolding execute push_data
Frame-execute env law c m m' e = elim (Bool-cases (all_true m.vf_exec && leb c.opcodenum 78)) [
  | inl push ↦ ground arith
  | inr op ↦ elim (Option-cases (decode c.opcodenum)) [
    | inl bad ↦ unfold exec_opcode in ground arith
    | inr (o, known) ↦
        unfold exec_opcode in ground (arith, Frame-exec_op env law (all_true m.vf_exec) o m m')
  ]
]

Frame-step_chunk :
    (env : Env)
    → KeepsLength env
    → (c : Chunk) (m m' : Machine) → step_chunk env c m ≡ ok m'
    → Frame m m'
unfolding step_chunk count_op
Frame-step_chunk env law c m m' e = ground (
  arith,
  Frame-execute env law c m m',
  Frame-execute env law c (record m { n_op_count = m.n_op_count + 1 }) m',
)

-- A step that succeeds on a script with a chunk left moves on by exactly one chunk, keeps the
-- number of chunks and the flags, and does not lower the count of opcodes nor lift it over 201,
-- if OP_NUM2BIN keeps the number of chunks.
step_advances :
    (env : Env)
    → KeepsLength env
    → (m m' : Machine) → m.pc < length m.script
    → step env m ≡ ok m'
    → Frame (record m { pc = m.pc + 1 }) m'
unfolding step
step_advances env law m m' h e =
    let (c, found) = get_elem?-lt m.script m.pc h in
    let taken : step_at env (some c) m ≡ ok m' = rw found at e in
    Frame-step_chunk env law c (record m { pc = m.pc + 1 }) m' (unfold step_at in taken)

-- What a run of the loop that succeeds has kept, and that it has come to the end of the script.
pub record Ran (m m' : Machine) : Type 0 where
  pub at_end : length m'.script ≤ m'.pc
  pub same_length : length m'.script ≡ length m.script
  pub same_flags : m'.flags ≡ m.flags
  pub capped : m.n_op_count ≤ 201 → m'.n_op_count ≤ 201

Ran-step : (m m₁ m' : Machine) → Frame (record m { pc = m.pc + 1 }) m₁ → Ran m₁ m' → Ran m m'
Ran-step m m₁ m' f r = record {
  at_end = r.at_end;
  same_length = r.same_length ∙ f.same_length;
  same_flags = r.same_flags ∙ f.same_flags;
  capped = λ h. r.capped (f.capped h);
}

run_loop-Ran :
    (env : Env)
    → KeepsLength env
    → (fuel : ℕ) (m m' : Machine) → length m.script ≤ m.pc + fuel
    → run_loop env fuel m ≡ ok m'
    → Ran m m'
unfolding run_loop
run_loop-Ran env law zero m m' h e = ground arith
run_loop-Ran env law (suc fuel) m m' h e = elim (Bool-cases (ltb m.pc (length m.script))) [
  | inr over ↦
      let same : m ≡ m' = ground arith in
      let stop : length m.script ≤ m.pc = ground arith in
      rw (← same) (record { at_end = stop; same_length = refl; same_flags = refl; capped = λ x. x })
  | inl more ↦
      let (_, _, e₁) = >>=-eq-ok (refuse (ltb 1000 (length m.stack)) stack_size) _ (rw more at e) in
      let (m₁, stepped, e₂) = >>=-eq-ok (step env m) _ e₁ in
      let f = step_advances env law m m₁ (ltb→lt _ _ more) stepped in
      Ran-step m m₁ m' f
        (run_loop-Ran env law fuel m₁ m' (omega (arith, f.same_length, f.same_pc)) e₂)
]

Result-cases :
    (r : Result Machine)
    → ((m : Machine) × (r ≡ ok m))
      ⊎ ((e : ScriptError) × (r ≡ err e))
      ⊎ ((t : Thrown) × (r ≡ throws t))
Result-cases (ok m) = inl (m, refl)
Result-cases (err e) = inr (inl (e, refl))
Result-cases (throws t) = inr (inr (t, refl))

-- Any two amounts of fuel that are as many as the chunks left give the same result, if
-- OP_NUM2BIN keeps the number of chunks: the loop ends by its test, never for want of fuel.
pub run_loop-enough_fuel :
    (env : Env)
    → KeepsLength env
    → (f g : ℕ) (m : Machine) → length m.script ≤ m.pc + f
    → length m.script ≤ m.pc + g
    → run_loop env f m ≡ run_loop env g m
unfolding run_loop
run_loop-enough_fuel env law zero zero m hf hg = refl
run_loop-enough_fuel env law zero (suc g) m hf hg = ground arith
run_loop-enough_fuel env law (suc f) zero m hf hg = ground arith
run_loop-enough_fuel env law (suc f) (suc g) m hf hg =
    elim (Bool-cases (ltb m.pc (length m.script))) [
      | inr over ↦ rw over
      | inl more ↦ rw more (elim (Result-cases (step env m)) [
        | inl (m₁, e) ↦
            let a = step_advances env law m m₁ (ltb→lt _ _ more) e in
            rw (
              e,
              run_loop-enough_fuel env law f g m₁ (omega (arith, a.same_length, a.same_pc))
                  (omega (arith, a.same_length, a.same_pc)),
            )
        | inr (inl (x, e)) ↦ rw e
        | inr (inr (t, e)) ↦ rw e
      ])
    ]

-- A machine that a successful evaluation from the start of a script leaves: all chunks are taken,
-- every conditional is closed, and the limits on the stacks and the opcodes hold.
pub record Finished (m m' : Machine) : Type 0 where
  pub at_end : length m.script ≤ m'.pc
  pub balanced : m'.vf_exec ≡ []
  pub stacks : length m'.stack + length m'.altstack ≤ 1000
  pub opcodes : m'.n_op_count ≤ 201
  pub same_flags : m'.flags ≡ m.flags

finish-ok :
    (m m' : Machine)
    → finish m ≡ ok m'
    → (m' ≡ m) × (m.vf_exec ≡ []) × (length m.stack + length m.altstack ≤ 1000)
unfolding finish
finish-ok m m' e = ground arith

catch_all-ok : (r : Result Machine) (m : Machine) → catch_all r ≡ ok m → r ≡ ok m
unfolding catch_all
catch_all-ok (ok x) m e = e
catch_all-ok (err x) m e = cc
catch_all-ok (throws x) m e = cc

-- An evaluation of a script on a stack that succeeds takes every chunk of the script, and leaves
-- balanced conditionals, the same flags, at most 1000 elements on the two stacks and at most 201
-- counted opcodes, if OP_NUM2BIN keeps the number of chunks.
pub evaluate-Finished :
    (env : Env)
    → KeepsLength env
    → (script : List Chunk) (flags : ℕ) (s : List Buffer) (m' : Machine)
    → evaluate env (initial script flags s) ≡ ok m'
    → Finished (initial script flags s) m'
unfolding evaluate
evaluate-Finished env law script flags s m' e =
    let m = initial script flags s in
    let (bytes, _, e₁) = >>=-eq-ok (to_buffer script) _ e in
    let (_, _, e₂) = >>=-eq-ok (refuse (ltb 10000 (length bytes)) script_size) _ e₁ in
    let (m₁, run, e₃) = >>=-eq-ok (run_loop env (length script) m) _ (catch_all-ok _ m' e₂) in
    let (same, closed, fits) = finish-ok m₁ m' e₃ in
    let r = run_loop-Ran env law (length script) m m₁ (omega arith) run in
    rw same (record {
      at_end = omega (arith, r.at_end, r.same_length);
      balanced = closed;
      stacks = fits;
      opcodes = r.capped (omega arith);
      same_flags = r.same_flags;
    })
