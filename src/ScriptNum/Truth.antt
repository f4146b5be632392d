-- ===== src/ScriptNum/Truth.antt =====
-- The truth value of a stack element, and the number that it stands for.
use lotus_sdk.Common.{bit_and, ◌≡◌, ◌↔◌, refl, ap, false, not, [], ◌∷◌, All, ◌==◌, arith}
use lotus_sdk.Common.Ints.{pos, neg}
use lotus_sdk.Common.Bits.{IsByte, low_bits, sign_bit}
use native.Mathlib.Decide.{ℕ_discrete}
use lotus_sdk.ScriptNum.{
  Buffer, le_value, top_byte, clear_sign, from_script_num_buffer, cast_to_bool,
}
use lotus_sdk.ScriptNum.RoundTrip.{from_script_num_buffer-low, from_script_num_buffer-high}

cast_to_bool-magnitude :
    (bs : Buffer) → All IsByte bs → cast_to_bool bs ≡ not (le_value (clear_sign bs) == 0)
unfolding cast_to_bool clear_sign le_value
cast_to_bool-magnitude [] h = refl
cast_to_bool-magnitude (b ∷ []) h = ground (arith, low_bits b h.0)
cast_to_bool-magnitude (b ∷ c ∷ bs) h = ground (arith, cast_to_bool-magnitude (c ∷ bs) h.1)

clear_sign-low : (bs : Buffer) → All IsByte bs → bit_and (top_byte bs) 0x80 ≡ 0 → clear_sign bs ≡ bs
unfolding clear_sign top_byte
clear_sign-low [] h z = refl
clear_sign-low (b ∷ []) h z = ground (arith, low_bits b h.0, sign_bit b h.0)
clear_sign-low (b ∷ c ∷ bs) h z = ap (λ (t : Buffer). b ∷ t) (clear_sign-low (c ∷ bs) h.1 z)

from_script_num_buffer-zero_iff :
    (bs : Buffer)
    → All IsByte bs
    → (from_script_num_buffer bs ≡ pos 0) ↔ (le_value (clear_sign bs) ≡ 0)
from_script_num_buffer-zero_iff bs h = elim (ℕ_discrete (bit_and (top_byte bs) 0x80) 0) [
  | yes z ↦ rw (from_script_num_buffer-low bs z, clear_sign-low bs h z) (ground arith)
  | no z ↦ rw (from_script_num_buffer-high bs z) (unfold neg in ground arith)
]

-- An element of bytes is false exactly when the number that it stands for is 0: the zeros of
-- every length and the negative zeros.
pub cast_to_bool-false_iff :
    (bs : Buffer) → All IsByte bs → (cast_to_bool bs ≡ false) ↔ (from_script_num_buffer bs ≡ pos 0)
cast_to_bool-false_iff bs h =
    ground (arith, cast_to_bool-magnitude bs h, from_script_num_buffer-zero_iff bs h)
