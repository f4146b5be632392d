-- ===== src/ScriptNum/Digits.antt =====
-- The little-endian digits that the conversions write and read.
use mathlib.Core.WellFounded.{Acc}
use lotus_sdk.Common.{ℕ, ◌/◌, ◌<◌, ◌≡◌, All, arith}
use lotus_sdk.Common.Order.{lt_wf}
use lotus_sdk.Common.Bits.{IsByte}
use lotus_sdk.ScriptNum.{le_value, le_bytes_loop, le_bytes}

le_value-le_bytes_loop : (n : ℕ) (w : Acc ◌<◌ n) → le_value (le_bytes_loop n w) ≡ n
unfolding le_value le_bytes_loop
le_value-le_bytes_loop n (Acc.intro _ smaller) =
    grind (arith, λ (p : n / 256 < n). le_value-le_bytes_loop (n / 256) (smaller (n / 256) p))

-- The bytes of a number stand for it.
pub le_value-le_bytes : (n : ℕ) → le_value (le_bytes n) ≡ n
unfolding le_bytes
le_value-le_bytes n = le_value-le_bytes_loop n (lt_wf.apply n)

le_bytes_loop-IsByte : (n : ℕ) (w : Acc ◌<◌ n) → All IsByte (le_bytes_loop n w)
unfolding le_bytes_loop
le_bytes_loop-IsByte n (Acc.intro _ smaller) =
    grind (arith, λ (p : n / 256 < n). le_bytes_loop-IsByte (n / 256) (smaller (n / 256) p))

pub le_bytes-IsByte : (n : ℕ) → All IsByte (le_bytes n)
unfolding le_bytes
le_bytes-IsByte n = le_bytes_loop-IsByte n (lt_wf.apply n)
