-- ===== src/Encoding/Lengths.antt =====
-- How many bytes the writers of numbers append.
use lotus_sdk.Common.{ℕ, ◌≡◌, sym, ap, ◌∙◌, length, arith}
use lotus_sdk.Common.Ints.{ℤ, pos, negsuc}
use lotus_sdk.ScriptNum.{Buffer}
use lotus_sdk.Errors.{ok, ok-inj}
use lotus_sdk.Script.{write_uint16_le, write_uint32_le}
use lotus_sdk.Encoding.{le_digits, write_int32_le, write_uint48_le, write_uint64_le_bn}
use lotus_sdk.Encoding.Digits.{length-le_digits, reverse-bn_to_buffer}

pub write_uint32_le-length :
    (n : ℕ) {bytes : Buffer} → write_uint32_le n ≡ ok bytes → length bytes ≡ 4
unfolding write_uint32_le
write_uint32_le-length n e = ground (arith, e)

pub write_int32_le-length :
    (v : ℤ) {bytes : Buffer} → write_int32_le v ≡ ok bytes → length bytes ≡ 4
unfolding write_int32_le le_digits
write_int32_le-length (pos n) e = ground (arith, e)
write_int32_le-length (negsuc n) e = ground (arith, e)

pub write_uint16_le-length :
    (n : ℕ) {bytes : Buffer} → write_uint16_le n ≡ ok bytes → length bytes ≡ 2
unfolding write_uint16_le
write_uint16_le-length n e = ground (arith, e)

pub write_uint48_le-length :
    (n : ℕ) {bytes : Buffer} → write_uint48_le n ≡ ok bytes → length bytes ≡ 6
unfolding write_uint48_le le_digits
write_uint48_le-length n e = ground (arith, e)

pub write_uint64_le_bn-length :
    (n : ℕ) {bytes : Buffer} → write_uint64_le_bn n ≡ ok bytes → length bytes ≡ 8
unfolding write_uint64_le_bn
write_uint64_le_bn-length n e =
    ap length (sym (ok-inj e))
    ∙ ap length (reverse-bn_to_buffer 8 n (omega arith))
    ∙ length-le_digits 8 n
