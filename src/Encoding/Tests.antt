-- ===== src/Encoding/Tests.antt =====
-- Numbers of the wire format at their bounds.
use lotus_sdk.Common.{◌≡◌, refl, [], ◌∷◌}
use lotus_sdk.Common.Ints.{negsuc}
use lotus_sdk.ScriptNum.{le_value}
use lotus_sdk.Errors.{ok, throws, range_error, number_too_large}
use lotus_sdk.Script.{read_uint8, read_uint32_le}
use lotus_sdk.Encoding.{
  le_digits, read_varint_num, write_int32_le, read_uint64_le_bn, write_uint48_le,
}

-- A number beyond 2^53 is refused.
varint_too_large :
    read_varint_num (0xff ∷ 1 ∷ 0 ∷ 0 ∷ 0 ∷ 0 ∷ 0 ∷ 32 ∷ 0 ∷ []) ≡ throws number_too_large
unfolding read_varint_num read_uint8 read_uint64_le_bn read_uint32_le le_value
varint_too_large = refl

-- The wrap-around of a negative number.
int32_minus_two : write_int32_le (negsuc 1) ≡ ok (254 ∷ 255 ∷ 255 ∷ 255 ∷ [])
unfolding write_int32_le le_digits
int32_minus_two = refl

uint48_too_large : write_uint48_le 281474976710656 ≡ throws range_error
unfolding write_uint48_le
uint48_too_large = refl
