-- ===== src/Interpreter/Readers.antt =====
-- OP_CHECKSEQUENCEVERIFY, and the two readers of script numbers.
use lotus_sdk.Common.{
  ℕ, ◌+◌, ◌*◌, ◌^◌, bit_and, ◌≡◌, refl, sym, ap, ◌∙◌, Bool, true, not, ◌&&◌, List, [], ◌∷◌, reverse,
  All, All-reverse, length, ltb, if◌then◌else◌, arith,
}
use lotus_sdk.Common.Ints.{pos, negsuc}
use lotus_sdk.ScriptNum.{Buffer, from_script_num_buffer, is_minimally_encoded, le_value, top_byte}
use lotus_sdk.Errors.{script_number_overflow, non_minimal_number, bn_assertion, ok, throws}
use lotus_sdk.Interpreter.Flags.{has_flag, verify_minimaldata, verify_checksequenceverify}
use lotus_sdk.Interpreter.Machine.{Machine, Env}
use lotus_sdk.Interpreter.Locktime.{sequence_value, checksequenceverify_op, is_negative}
use mathlib.Core.List.{reverse-reverse}
use lotus_sdk.Common.Bits.{IsByte, low_bits, sign_bit}
use native.Mathlib.Nat.{pow-suc}
use native.Mathlib.Decide.{ℕ_discrete}
use lotus_sdk.Common.Lists.{length-reverse}
use lotus_sdk.ScriptNum.Minimal.{signed, from_script_num_buffer-top, le_value-reverse_cons}
use lotus_sdk.Interpreter.Numbers.{be_value, from_sm, bn_from_script_num}

-- Horner's rule on the bytes from the top is the little-endian value of the reversed bytes.
be_value-le_value :
    (acc : ℕ) (r : Buffer) → be_value acc r ≡ acc * 256 ^ length r + le_value (reverse r)
unfolding be_value
be_value-le_value acc [] = unfold le_value in omega arith
be_value-le_value acc (b ∷ r) =
    rw (le_value-reverse_cons b r, length-reverse r)
      (omega (
        arith,
        be_value-le_value (acc * 256 + b) r,
        ap (λ (x : ℕ). acc * x) (pow-suc 256 (length r)),
      ))

be_value-top : (t : ℕ) (r : Buffer) → be_value 0 (t ∷ r) ≡ le_value (reverse r) + t * 256 ^ length r
be_value-top t r =
    omega (arith, be_value-le_value 0 (t ∷ r), rw (length-reverse r) at (le_value-reverse_cons t r))

from_sm-top :
    (t : ℕ) (r : Buffer)
    → IsByte t
    → from_sm (t ∷ r) ≡ signed t (le_value (reverse r) + bit_and t 0x7f * 256 ^ length (reverse r))
unfolding from_sm signed
from_sm-top t r h = elim (ℕ_discrete (bit_and t 0x80) 0) [
  | yes z ↦
      let low : bit_and t 0x7f ≡ t = omega (arith, low_bits t h, sign_bit t h) in
      rw (z, length-reverse r, low) (ap pos (be_value-top t r))
  | no nz ↦
      rw (length-reverse r, ← be_value-top (bit_and t 0x7f) r) (ground (arith, be_value-top t r))
]

from_sm-reverse : (r : Buffer) → All IsByte r → from_sm r ≡ from_script_num_buffer (reverse r)
from_sm-reverse [] h = unfold from_sm from_script_num_buffer le_value top_byte in refl
from_sm-reverse (t ∷ r) h = from_sm-top t r h.0 ∙ sym (from_script_num_buffer-top t r h.0)

-- On bytes, `BN.fromScriptNumBuffer` throws on an element that is too long, and on one that is not
-- minimal where it must be, and reads the number that the interpreter's own reader reads from any
-- other.
pub bn_from_script_num_lem :
    (buf : Buffer) (require_minimal : Bool) (size : ℕ)
    → All IsByte buf
    → bn_from_script_num buf require_minimal size ≡ (
        if ltb size (length buf)
        then throws script_number_overflow
        else if require_minimal && not (is_minimally_encoded buf size)
        then throws non_minimal_number
        else ok (from_script_num_buffer buf))
unfolding bn_from_script_num is_minimally_encoded
bn_from_script_num_lem buf m size h =
    rw (from_sm-reverse (reverse buf) (All-reverse IsByte buf h), reverse-reverse buf)
      (ground arith)

-- Where bn.js refuses a negative second operand of `and`, OP_CHECKSEQUENCEVERIFY with its flag
-- throws on every element that is read as a number from 0 on, whatever the transaction is: its
-- mask is negative.
pub checksequenceverify_op-throws :
    (env : Env) (m : Machine) (buf : Buffer) (s : List Buffer) (n : ℕ)
    → ((a b : ℕ) → env.bn_and (pos a) (negsuc b) ≡ throws bn_assertion)
    → has_flag m.flags verify_checksequenceverify ≡ true
    → m.stack ≡ buf ∷ s
    → bn_from_script_num buf (has_flag m.flags verify_minimaldata) 5 ≡ ok (pos n)
    → checksequenceverify_op env m ≡ throws bn_assertion
unfolding checksequenceverify_op sequence_value is_negative
checksequenceverify_op-throws env m buf s n law f st r =
    rw (f, st, sequence_value, r, law n 2147483647)
