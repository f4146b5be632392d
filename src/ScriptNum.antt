-- ===== src/ScriptNum.antt =====
-- Script numbers (lib/bitcore/script/interpreter.ts): the conversions between a `bigint` and the
-- bytes of a stack element, the truth value of an element, and the minimal encoding. A `Buffer` is
-- a list of bytes, first byte first; a `bigint` is an integer without bound.
pub mod Digits
pub mod RoundTrip
pub mod Truth
pub mod Minimal
use mathlib.Core.WellFounded.{Acc}
use mathlib.Core.Logic.{dite}
use native.Mathlib.Decide.{dec_lt}
use lotus_sdk.Common.{
  ℕ, suc, ◌+◌, ◌*◌, ◌/◌, ◌%◌, ◌<◌, bit_and, bit_or, Bool, true, false, ◌&&◌, List, [], ◌∷◌, reverse,
  length, ltb, ◌==◌, if◌then◌else◌, not, arith,
}
use lotus_sdk.Common.Ints.{ℤ, pos, negsuc, neg}
use lotus_sdk.Common.Order.{lt_wf}

abbrev pub Buffer : Type 0
Buffer = List ℕ

-- The number that little-endian bytes stand for: `result |= BigInt(buf[i]) << BigInt(i * 8)` for
-- each byte, where no two bytes overlap.
unfoldable pub le_value : Buffer → ℕ
le_value [] = 0
le_value (b ∷ bs) = b + 256 * le_value bs

-- `while (temp > 0n) { bytes.push(Number(temp & 0xffn)); temp >>= 8n }`
pub le_bytes_loop : (temp : ℕ) → Acc ◌<◌ temp → Buffer
le_bytes_loop temp (Acc.intro _ smaller) =
    dite (dec_lt 0 temp)
      (λ more. (temp % 256) ∷ le_bytes_loop (temp / 256) (smaller (temp / 256) (omega arith)))
      (λ _. [])

unfoldable pub le_bytes : ℕ → Buffer
unfolding le_bytes_loop lt_wf dec_lt
le_bytes temp = le_bytes_loop temp (lt_wf.apply temp)

-- The sign of a negative number, put on the top byte, or behind it where that bit is taken.
unfoldable pub add_sign : Buffer → Buffer
add_sign [] = 0x80 ∷ []
add_sign (b ∷ []) = if bit_and b 0x80 == 0 then bit_or b 0x80 ∷ [] else b ∷ 0x80 ∷ []
add_sign (b ∷ c ∷ bs) = b ∷ add_sign (c ∷ bs)

unfoldable pub to_script_num_buffer : ℤ → Buffer
to_script_num_buffer (pos n) = le_bytes n
to_script_num_buffer (negsuc n) = add_sign (le_bytes (suc n))

-- `buf[buf.length - 1]`, and 0 where there is none.
unfoldable pub top_byte : Buffer → ℕ
top_byte [] = 0
top_byte (b ∷ []) = b
top_byte (b ∷ c ∷ bs) = top_byte (c ∷ bs)

-- The top byte without its sign bit.
unfoldable pub clear_sign : Buffer → Buffer
clear_sign [] = []
clear_sign (b ∷ []) = bit_and b 0x7f ∷ []
clear_sign (b ∷ c ∷ bs) = b ∷ clear_sign (c ∷ bs)

unfoldable pub from_script_num_buffer : Buffer → ℤ
from_script_num_buffer buf =
    if bit_and (top_byte buf) 0x80 == 0
    then pos (le_value buf)
    else neg (pos (le_value (clear_sign buf)))

-- False are the zeros of every length, negative zero included.
unfoldable pub cast_to_bool : Buffer → Bool
cast_to_bool [] = false
cast_to_bool (b ∷ bs) =
    if b == 0 then cast_to_bool bs else (if length bs == 0 && b == 0x80 then false else true)

-- The loop `for (let i = buf.length - 1; i > 0; i--)` of `_minimallyEncode`, over the bytes from
-- the top: `last` is the top byte of the input, the list is what stands below position `i`.
unfoldable pub trim_zeros : ℕ → Buffer → Buffer
trim_zeros last [] = []
trim_zeros last (b ∷ below) =
    if b == 0
    then trim_zeros last below
    else (if bit_and b 0x80 == 0 then bit_or b last ∷ below else last ∷ b ∷ below)

-- `_minimallyEncode` over the bytes from the top.
unfoldable pub minimize_rev : Buffer → Buffer
minimize_rev [] = []
minimize_rev (last ∷ []) = if bit_and last 0x7f == 0 then [] else last ∷ []
minimize_rev (last ∷ b ∷ below) =
    if bit_and last 0x7f == 0 && bit_and b 0x80 == 0
    then trim_zeros last (b ∷ below)
    else last ∷ b ∷ below

unfoldable pub minimally_encode : Buffer → Buffer
minimally_encode buf = reverse (minimize_rev (reverse buf))

-- The test of `_isMinimallyEncoded` behind its length check, over the bytes from the top.
unfoldable pub is_minimal_rev : Buffer → Bool
is_minimal_rev [] = true
is_minimal_rev (last ∷ []) = not (bit_and last 0x7f == 0)
is_minimal_rev (last ∷ b ∷ below) = not (bit_and last 0x7f == 0 && bit_and b 0x80 == 0)

unfoldable pub is_minimally_encoded : Buffer → ℕ → Bool
is_minimally_encoded buf max_num_size =
    if ltb max_num_size (length buf) then false else is_minimal_rev (reverse buf)
