-- ===== src/Encoding.antt =====
-- The numbers and buffers of the wire format (lib/bitcore/encoding/bufferreader.ts,
-- lib/bitcore/encoding/bufferwriter.ts, and `toBuffer` of lib/bitcore/crypto/bn.ts). A reader takes
-- the bytes that are still to be read and returns a value and what is left; a writer returns the
-- bytes that it appends. The methods for one, two and four unsigned bytes stand in Script.antt.
pub mod Digits
pub mod RoundTrip
pub mod Varint
pub mod Lengths
pub mod Tests
use lotus_sdk.Common.{
  ℕ, zero, suc, ◌+◌, ◌-◌, ◌*◌, ◌/◌, ◌%◌, List, [], ◌∷◌, ◌++◌, reverse, length, take, drop,
  replicate, ltb, leb, ◌==◌, if◌then◌else◌,
}
use lotus_sdk.Common.Ints.{ℤ, pos, negsuc}
use lotus_sdk.ScriptNum.{Buffer, le_value, le_bytes}
use lotus_sdk.Errors.{Result, ok, throws, range_error, number_too_large, invalid_length, ◌>>=◌}
use lotus_sdk.Script.{
  read_uint8, read_uint16_le, read_uint32_le, read, write_uint8, write_uint16_le, write_uint32_le,
}

-- What two writes in a row append.
infixr 20 ◌followed_by◌
abbrev pub ◌followed_by◌ : Result Buffer → Result Buffer → Result Buffer
first followed_by second = do bytes ← first; more ← second; ok (bytes ++ more)

-- `readReverse(len)`: as many bytes as there are, backwards.
unfoldable pub read_reverse : ℕ → Buffer → Buffer × Buffer
read_reverse len input = (reverse (take len input), drop len input)

-- `size` little-endian bytes of a number, as node's `writeUIntLE` puts them.
unfoldable pub le_digits : ℕ → ℕ → Buffer
le_digits zero n = []
le_digits (suc size) n = n % 256 ∷ le_digits size (n / 256)

-- node's `readUIntLE(pos, size)`
unfoldable pub read_uint_le : ℕ → Buffer → Result (ℕ × Buffer)
read_uint_le size input =
    if ltb (length input) size
    then throws range_error
    else ok (le_value (take size input), drop size input)

-- The signed number that 32 bits stand for.
unfoldable pub to_int32 : ℕ → ℤ
to_int32 low = if ltb low 2147483648 then pos low else negsuc (4294967295 - low)

unfoldable pub read_int32_le : Buffer → Result (ℤ × Buffer)
read_int32_le input = do (low, rest) ← read_uint_le 4 input; ok (to_int32 low, rest)

unfoldable pub write_int32_le : ℤ → Result Buffer
write_int32_le (pos n) = if ltb n 2147483648 then ok (le_digits 4 n) else throws range_error
write_int32_le (negsuc n) =
    if ltb n 2147483648 then ok (le_digits 4 (4294967295 - n)) else throws range_error

unfoldable pub read_uint48_le : Buffer → Result (ℕ × Buffer)
read_uint48_le input = read_uint_le 6 input

unfoldable pub write_uint48_le : ℕ → Result Buffer
write_uint48_le n = if ltb n 281474976710656 then ok (le_digits 6 n) else throws range_error

-- `BN.fromBuffer(slice, { endian: 'little' })` of seven bytes, or of as many as there are.
unfoldable pub read_uint56_le_bn : Buffer → ℕ × Buffer
read_uint56_le_bn input = (le_value (take 7 input), drop 7 input)

-- The number `combined` is a double: above 2^53 it is rounded, to 2^53 at least, so the test on it
-- comes out as it does on the exact sum.
unfoldable pub read_uint64_le_bn : Buffer → Result (ℕ × Buffer)
read_uint64_le_bn input = do
  (second, rest) ← read_uint32_le input
  (first, rest') ← read_uint32_le rest
  let combined = first * 0x100000000 + second
  ok (if leb combined 0x1fffffffffffff then combined else le_value (take 8 input), rest')

-- bn.js writes a natural number in as few big-endian bytes as it takes, and zero in one.
unfoldable pub to_array_like : ℕ → Buffer
to_array_like n = if n == 0 then 0 ∷ [] else reverse (le_bytes n)

-- `toBuffer({ size: size })`
unfoldable pub bn_to_buffer : ℕ → ℕ → Buffer
bn_to_buffer size n =
    let buf = to_array_like n in
    if length buf == size
    then buf
    else if ltb size (length buf)
    then drop (length buf - size) buf
    else replicate (size - length buf) 0 ++ buf

unfoldable pub write_uint56_le_bn : ℕ → Result Buffer
write_uint56_le_bn n = ok (reverse (bn_to_buffer 7 n))

unfoldable pub write_uint64_le_bn : ℕ → Result Buffer
write_uint64_le_bn n = ok (reverse (bn_to_buffer 8 n))

unfoldable pub read_varint_num : Buffer → Result (ℕ × Buffer)
read_varint_num input = do
  (first, rest) ← read_uint8 input
  if first == 0xfd
      then read_uint16_le rest
      else if first == 0xfe
      then read_uint32_le rest
      else if first == 0xff
      then (do
        (n, rest') ← read_uint64_le_bn rest
        if leb n 9007199254740992 then ok (n, rest') else throws number_too_large)
      else ok (first, rest)

unfoldable pub read_varint_bn : Buffer → Result (ℕ × Buffer)
read_varint_bn input = do
  (first, rest) ← read_uint8 input
  if first == 0xfd
      then read_uint16_le rest
      else if first == 0xfe
      then read_uint32_le rest
      else if first == 0xff
      then read_uint64_le_bn rest
      else ok (first, rest)

-- The bytes of a varint, uninterpreted.
unfoldable pub read_varint_buf : Buffer → Result (Buffer × Buffer)
read_varint_buf input = do
  (first, _) ← read_uint8 input
  ok (
      if first == 0xfd
      then read 3 input
      else if first == 0xfe
      then read 5 input
      else if first == 0xff
      then read 9 input
      else read 1 input)

unfoldable pub read_var_length_buffer : Buffer → Result (Buffer × Buffer)
read_var_length_buffer input = do
  (len, rest) ← read_varint_num input
  if length (read len rest).0 == len then ok (read len rest) else throws invalid_length

-- `n & -1` is the signed number of the low 32 bits.
unfoldable pub write_varint_num : ℕ → Result Buffer
write_varint_num n =
    if ltb n 253
    then write_uint8 n
    else if ltb n 0x10000
    then write_uint8 253 followed_by write_uint16_le n
    else if ltb n 0x100000000
    then write_uint8 254 followed_by write_uint32_le n
    else (write_uint8 255
        followed_by write_int32_le (to_int32 (n % 0x100000000))
        followed_by write_uint32_le (n / 0x100000000))

unfoldable pub write_varint_bn : ℕ → Result Buffer
write_varint_bn n =
    if ltb n 253
    then write_uint8 n
    else if ltb n 0x10000
    then write_uint8 253 followed_by write_uint16_le n
    else if ltb n 0x100000000
    then write_uint8 254 followed_by write_uint32_le n
    else write_uint8 255 followed_by write_uint64_le_bn n

unfoldable pub write_var_length_buffer : Buffer → Result Buffer
write_var_length_buffer buf = write_varint_num (length buf) followed_by ok buf

-- The loops that read and write a number of items in a row.
unfoldable pub read_times {ℓ} :
    {A : Type ℓ} → (Buffer → Result (A × Buffer)) → ℕ → Buffer → Result (List A × Buffer)
read_times reader zero input = ok ([], input)
read_times reader (suc count) input = do
  (a, rest) ← reader input
  (more, rest') ← read_times reader count rest
  ok (a ∷ more, rest')

unfoldable pub write_all {ℓ} : {A : Type ℓ} → (A → Result Buffer) → List A → Result Buffer
write_all writer [] = ok []
write_all writer (a ∷ items) = writer a followed_by write_all writer items
