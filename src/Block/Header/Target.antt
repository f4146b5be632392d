-- ===== src/Block/Header/Target.antt =====
-- The target that `bits` stands for.
use lotus_sdk.Common.{
  ℕ, zero, suc, ◌-◌, ◌*◌, ◌/◌, ◌^◌, bit_and, ◌≡◌, inl, inr, ltb, ltb→lt, Bool-cases, arith,
}
use native.Mathlib.Nat.{mul_assoc}
use lotus_sdk.Block.Header.{double_times, get_target_difficulty}

double_times-power : (mov target : ℕ) → double_times mov target ≡ target * 2 ^ mov
unfolding double_times
double_times-power zero target = omega arith
double_times-power (suc mov) target = grind (arith, mul_assoc, double_times-power mov (target * 2))

-- The target is the low three bytes of `bits` times 256 to the power of the top byte less three,
-- and these three bytes themselves where the top byte is below three.
get_target_difficulty-power :
    (bits : ℕ)
    → get_target_difficulty bits ≡ bit_and bits 0xffffff * 2 ^ (8 * (bits / 16777216 - 3))
unfolding get_target_difficulty
get_target_difficulty-power bits = elim (Bool-cases (ltb (bits / 16777216) 3)) [
  | inl p ↦
      let none_left : 8 * (bits / 16777216 - 3) ≡ 0 =
        ground (arith, ltb→lt (bits / 16777216) 3 p) in
      rw (p, none_left) (omega arith)
  | inr p ↦ rw p (double_times-power (8 * (bits / 16777216 - 3)) (bit_and bits 0xffffff))
]
