-- ===== src/Interpreter/Coverage.antt =====
-- Which opcodes have a case in the `switch` of `step`.
use lotus_sdk.Common.{
  ℕ, ◌<◌, ◌≤◌, ◌≡◌, ◌↔◌, ◌⊎◌, refl, Bool, true, false, not, ◌||◌, Option, none, some, leb, ◌==◌,
  arith,
}
use lotus_sdk.Common.{◌≢◌, inl, inr, Option-cases}
use lotus_sdk.Errors.{bad_opcode, ok, err}
use lotus_sdk.Script.{Chunk}
use lotus_sdk.Interpreter.Machine.{Machine, Env}
use lotus_sdk.Interpreter.Opcodes.{Op, decode, find_op, contains, is_opcode_disabled, exec_op}
use lotus_sdk.Interpreter.Step.{all_true, execute, exec_opcode, is_too_long, count_op, step_chunk}
use lotus_sdk.Common.Bits.{holds_below, holds_below_lem}

is_none : Option Op → Bool
is_none none = true
is_none (some o) = false

is_none_iff : (o : Option Op) → (is_none o ≡ true) ↔ (o ≡ none)
unfolding is_none
is_none_iff none = ground arith
is_none_iff (some o) = ground arith

abbrev caseless : ℕ → Bool
caseless n = n == 98 || n == 150 || n == 151

abbrev agree : Bool → Bool → Bool
agree true b = b
agree false b = not b

abbrev coverage_test : ℕ → Bool
coverage_test n = leb n 78 || is_opcode_disabled n || agree (caseless n) (is_none (decode n))

coverage_table : holds_below coverage_test 189 ≡ true
unfolding holds_below is_none decode find_op is_opcode_disabled contains
coverage_table = refl

disabled-high : (n : ℕ) → 189 ≤ n → is_opcode_disabled n ≡ true
unfolding is_opcode_disabled
disabled-high n h = ground arith

-- The opcodes behind the pushes without a case.
decode-none_iff :
    (n : ℕ)
    → 78 < n
    → is_opcode_disabled n ≡ false
    → (decode n ≡ none) ↔ ((n ≡ 98) ⊎ (n ≡ 150) ⊎ (n ≡ 151))
decode-none_iff n h d =
    let low : n < 189 = ground (arith, disabled-high n) in
    ground (arith, holds_below_lem coverage_test 189 low coverage_table, is_none_iff (decode n))

-- A chunk with an opcode behind the pushes that is not disabled, on an active branch and with a
-- count of opcodes that is not exceeded: `step` ends with a bad opcode if it is OP_VER (98), OP_DIV
-- (150) or OP_MOD (151), and runs the case of an opcode of the `switch` if it is any other.
pub step_chunk-caseless :
    (env : Env) (c : Chunk) (m counted : Machine)
    → 78 < c.opcodenum
    → is_opcode_disabled c.opcodenum ≡ false
    → is_too_long c.buf ≡ false
    → count_op c.opcodenum m ≡ ok counted
    → all_true counted.vf_exec ≡ true
    → (((c.opcodenum ≡ 98) ⊎ (c.opcodenum ≡ 150) ⊎ (c.opcodenum ≡ 151))
        × (step_chunk env c m ≡ err bad_opcode))
      ⊎ (((c.opcodenum ≢ 98) × (c.opcodenum ≢ 150) × (c.opcodenum ≢ 151))
          × (o : Op) × (decode c.opcodenum ≡ some o)
          × (step_chunk env c m ≡ exec_op env true o counted))
unfolding step_chunk execute exec_opcode
step_chunk-caseless env c m counted behind enabled fits count active =
    let no_push : leb c.opcodenum 78 ≡ false = ground (arith, behind) in
    let (to, from) = decode-none_iff c.opcodenum behind enabled in
    elim (Option-cases (decode c.opcodenum)) [
      | inl p ↦ inl (to p, rw (fits, count, enabled, active, no_push, p) refl)
      | inr (o, p) ↦
          let other : decode c.opcodenum ≢ none = λ e. cc in
          inr (
            (
              λ e. other (from (inl e)),
              λ e. other (from (inr (inl e))),
              λ e. other (from (inr (inr e))),
            ),
            o,
            p,
            rw (fits, count, enabled, active, no_push, p) refl,
          )
    ]
