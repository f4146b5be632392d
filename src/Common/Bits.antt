-- ===== src/Common/Bits.antt =====
-- The masks that the code puts on one byte, as arithmetic: each is a table of 256 entries at most.
use Prim.Native.Nat.{ℕ, zero, suc, ◌+◌, ◌*◌, ◌/◌, ◌%◌, ◌<◌, bit_and, bit_or}
use mathlib.Core.Path.{◌≡◌, refl}
use mathlib.Core.Bool.{Bool, true, ◌&&◌}
use native.Mathlib.Omega.{arith}
use lotus_sdk.Common.Tests.{◌==◌, ==_iff}

abbrev pub IsByte : ℕ → Type 0
IsByte b = b < 256

-- The test holds of every number below a bound.
unfoldable pub holds_below : (ℕ → Bool) → ℕ → Bool
holds_below test zero = true
holds_below test (suc bound) = holds_below test bound && test bound

pub holds_below_lem :
    (test : ℕ → Bool) (bound : ℕ) {b : ℕ}
    → b < bound
    → holds_below test bound ≡ true
    → test b ≡ true
unfolding holds_below
holds_below_lem test zero low all = absurd (omega arith)
holds_below_lem test (suc bound) {b} low all = ground (arith, holds_below_lem test bound {b = b})

low_bits_table : holds_below (λ b. bit_and b 0x7f == b % 128) 256 ≡ true
unfolding holds_below
low_bits_table = refl

pub low_bits : (b : ℕ) → IsByte b → bit_and b 0x7f ≡ b % 128
low_bits b h = (==_iff _ _).0 (holds_below_lem _ 256 h low_bits_table)

sign_bit_table : holds_below (λ b. bit_and b 0x80 == b / 128 * 128) 256 ≡ true
unfolding holds_below
sign_bit_table = refl

pub sign_bit : (b : ℕ) → IsByte b → bit_and b 0x80 ≡ b / 128 * 128
sign_bit b h = (==_iff _ _).0 (holds_below_lem _ 256 h sign_bit_table)

set_sign_table : holds_below (λ b. bit_or b 0x80 == b + 128) 128 ≡ true
unfolding holds_below
set_sign_table = refl

pub set_sign : (b : ℕ) → b < 128 → bit_or b 0x80 ≡ b + 128
set_sign b h = (==_iff _ _).0 (holds_below_lem _ 128 h set_sign_table)

or_zero_table : holds_below (λ b. bit_or b 0 == b) 256 ≡ true
unfolding holds_below
or_zero_table = refl

pub or_zero : (b : ℕ) → IsByte b → bit_or b 0 ≡ b
or_zero b h = (==_iff _ _).0 (holds_below_lem _ 256 h or_zero_table)
