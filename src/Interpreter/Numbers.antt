-- ===== src/Interpreter/Numbers.antt =====
-- The script numbers that `BN.fromScriptNumBuffer` reads (lib/bitcore/crypto/bn.ts), which bounds
-- the size and may ask for the minimal encoding, where the interpreter's own reader does neither.
use lotus_sdk.Common.{
  ℕ, ◌+◌, ◌*◌, bit_and, Bool, not, ◌&&◌, [], ◌∷◌, reverse, length, ltb, ◌==◌, if◌then◌else◌,
}
use lotus_sdk.Common.Ints.{ℤ, pos, neg}
use lotus_sdk.ScriptNum.{Buffer, is_minimal_rev}
use lotus_sdk.Errors.{script_number_overflow, non_minimal_number, Result, ok, throws}

-- The number of big-endian bytes: `new BN(buffer, 'hex')`.
unfoldable pub be_value : ℕ → Buffer → ℕ
be_value acc [] = acc
be_value acc (b ∷ bs) = be_value (acc * 256 + b) bs

-- `fromSM` on the reversed buffer, whose first byte has the sign.
unfoldable pub from_sm : Buffer → ℤ
from_sm [] = pos 0
from_sm (b ∷ bs) =
    if bit_and b 0x80 == 0
    then pos (be_value 0 (b ∷ bs))
    else neg (pos (be_value 0 (bit_and b 0x7f ∷ bs)))

unfoldable pub bn_from_script_num : Buffer → Bool → ℕ → Result ℤ
bn_from_script_num buf require_minimal size =
    if ltb size (length buf)
    then throws script_number_overflow
    else if require_minimal && not (is_minimal_rev (reverse buf))
    then throws non_minimal_number
    else ok (from_sm (reverse buf))
