-- ===== src/Script.antt =====
-- Scripts as lists of chunks (lib/bitcore/script.ts, lib/bitcore/chunk.ts): reading a script from
-- bytes and writing it, minimal pushes, push-only scripts, and the deletion of a signature.
-- `BufferReader` is the list of the bytes that are still to be read.
pub mod RoundTrip
pub mod Fuel
pub mod Delete
pub mod Pushes
use lotus_sdk.Common.{
  ℕ, zero, suc, ◌+◌, ◌*◌, ◌/◌, ◌%◌, Bool, true, false, ◌&&◌, ◌||◌, Option, none, some, List, [],
  ◌∷◌, ◌++◌, length, take, drop, get_or, ltb, leb, ◌==◌, if◌then◌else◌,
}
use lotus_sdk.ScriptNum.{Buffer}
use lotus_sdk.Errors.{Result, ok, throws, range_error, type_error, invalid_buffer, ◌>>=◌}

pub record Chunk : Type 0 where
  pub buf : Option Buffer
  pub len : Option ℕ
  pub opcodenum : ℕ

abbrev pub op_chunk : ℕ → Chunk
op_chunk n = record { buf = none; len = none; opcodenum = n }

abbrev pub push_chunk : ℕ → ℕ → Buffer → Chunk
push_chunk opcodenum len buf = record { buf = some buf; len = some len; opcodenum = opcodenum }

-- `BufferReader.readUInt8`, `readUInt16LE`, `readUInt32LE`: node's RangeError at the end of the
-- input.
unfoldable pub read_uint8 : Buffer → Result (ℕ × Buffer)
read_uint8 (a ∷ rest) = ok (a, rest)
read_uint8 _ = throws range_error

unfoldable pub read_uint16_le : Buffer → Result (ℕ × Buffer)
read_uint16_le (a ∷ b ∷ rest) = ok (a + 256 * b, rest)
read_uint16_le _ = throws range_error

unfoldable pub read_uint32_le : Buffer → Result (ℕ × Buffer)
read_uint32_le (a ∷ b ∷ c ∷ d ∷ rest) = ok (a + 256 * b + 65536 * c + 16777216 * d, rest)
read_uint32_le _ = throws range_error

-- `BufferReader.read`: as many bytes as there are, without an error.
unfoldable pub read : ℕ → Buffer → Buffer × Buffer
read len input = (take len input, drop len input)

-- `new Chunk({ buf: br.read(len), len: len, opcodenum: opcodenum })`
unfoldable pub read_push : ℕ → ℕ → Buffer → Chunk × Buffer
read_push opcodenum len rest = (push_chunk opcodenum len (read len rest).0, (read len rest).1)

-- One round of the loop of `fromBuffer`, behind the opcode.
unfoldable pub read_chunk : ℕ → Buffer → Result (Chunk × Buffer)
read_chunk opcodenum rest =
    if ltb 0 opcodenum && ltb opcodenum 76
    then ok (read_push opcodenum opcodenum rest)
    else if opcodenum == 76
    then (do (len, rest') ← read_uint8 rest; ok (read_push opcodenum len rest'))
    else if opcodenum == 77
    then (do (len, rest') ← read_uint16_le rest; ok (read_push opcodenum len rest'))
    else if opcodenum == 78
    then (do (len, rest') ← read_uint32_le rest; ok (read_push opcodenum len rest'))
    else ok (op_chunk opcodenum, rest)

-- The loop, one round to a unit of fuel: a round takes at least the opcode's byte. Without fuel
-- the loop would stop with an error; `from_buffer` gives enough.
unfoldable pub from_buffer_loop : ℕ → Buffer → Result (List Chunk)
from_buffer_loop fuel [] = ok []
from_buffer_loop zero (b ∷ rest) = throws range_error
from_buffer_loop (suc fuel) (b ∷ rest) = do
  (chunk, after) ← read_chunk b rest
  chunks ← from_buffer_loop fuel after
  ok (chunk ∷ chunks)

-- `if (e instanceof RangeError) throw new BitcoreError.Script.InvalidBuffer(...)`
unfoldable pub as_invalid_buffer : Result (List Chunk) → Result (List Chunk)
as_invalid_buffer (throws range_error) = throws invalid_buffer
as_invalid_buffer r = r

unfoldable pub from_buffer : Buffer → Result (List Chunk)
from_buffer buffer = as_invalid_buffer (from_buffer_loop (length buffer) buffer)

-- `BufferWriter.writeUInt8` and its relatives: node's RangeError where the number does not fit.
unfoldable pub write_uint8 : ℕ → Result Buffer
write_uint8 n = if ltb n 256 then ok (n ∷ []) else throws range_error

unfoldable pub write_uint16_le : ℕ → Result Buffer
write_uint16_le n = if ltb n 65536 then ok (n % 256 ∷ n / 256 ∷ []) else throws range_error

unfoldable pub write_uint32_le : ℕ → Result Buffer
write_uint32_le n =
    if ltb n 4294967296
    then ok (n % 256 ∷ n / 256 % 256 ∷ n / 65536 % 256 ∷ n / 16777216 ∷ [])
    else throws range_error

-- `chunk.len!`: writing `undefined` is a TypeError of node, which no chunk of `fromBuffer` or `add`
-- meets.
unfoldable pub write_len : ℕ → Option ℕ → Result Buffer
write_len opcodenum none =
    if opcodenum == 76 || opcodenum == 77 || opcodenum == 78 then throws type_error else ok []
write_len opcodenum (some len) =
    if opcodenum == 76
    then write_uint8 len
    else if opcodenum == 77
    then write_uint16_le len
    else if opcodenum == 78
    then write_uint32_le len
    else ok []

unfoldable pub write_data : Chunk → Option Buffer → Result Buffer
write_data chunk none = ok []
write_data chunk (some buf) = do l ← write_len chunk.opcodenum chunk.len; ok (l ++ buf)

unfoldable pub chunk_to_buffer : Chunk → Result Buffer
chunk_to_buffer chunk = do
  o ← write_uint8 chunk.opcodenum
  d ← write_data chunk chunk.buf
  ok (o ++ d)

unfoldable pub to_buffer : List Chunk → Result Buffer
to_buffer [] = ok []
to_buffer (chunk ∷ chunks) = do b ← chunk_to_buffer chunk; bs ← to_buffer chunks; ok (b ++ bs)

-- The opcode that `add` and `_addBuffer` push a number of bytes with.
unfoldable pub push_opcode : ℕ → ℕ
push_opcode len =
    if ltb len 76 then len else if leb len 0xff then 76 else if leb len 0xffff then 77 else 78

-- `new Script().add(buf)`: the chunk that pushes `buf`.
unfoldable pub buffer_chunk : Buffer → Chunk
buffer_chunk buf = push_chunk (push_opcode (length buf)) (length buf) buf

-- `checkMinimalPush` at a chunk of the script.
unfoldable pub is_minimal_push : ℕ → Option Buffer → Bool
is_minimal_push opcodenum none = if leb opcodenum 78 then opcodenum == 0 else true
is_minimal_push opcodenum (some buf) =
    if leb opcodenum 78
    then (if length buf == 0
        then opcodenum == 0
        else if length buf == 1
        then (opcodenum == 81 || opcodenum == 76)
        else if leb (length buf) 75
        then opcodenum == length buf
        else if leb (length buf) 255
        then opcodenum == 76
        else if leb (length buf) 65535
        then opcodenum == 77
        else opcodenum == 78)
    else true

unfoldable pub check_minimal_push : List Chunk → ℕ → Bool
check_minimal_push [] index = false
check_minimal_push (c ∷ chunks) zero = is_minimal_push c.opcodenum c.buf
check_minimal_push (c ∷ chunks) (suc index) = check_minimal_push chunks index

unfoldable pub is_push_only : List Chunk → Bool
is_push_only [] = true
is_push_only (c ∷ chunks) =
    (leb c.opcodenum 96 || c.opcodenum == 76 || c.opcodenum == 77 || c.opcodenum == 78)
    && is_push_only chunks

-- `isScriptHashOut` on the bytes of the script.
unfoldable pub is_script_hash_out : Buffer → Bool
is_script_hash_out buf =
    length buf == 23 && get_or buf 0 0 == 169 && get_or buf 1 0 == 0x14 && get_or buf 22 0 == 135

-- The bytes are compared by their hex strings, which are equal where the bytes are.
unfoldable pub same_bytes : Buffer → Buffer → Bool
same_bytes [] [] = true
same_bytes [] (y ∷ ys) = false
same_bytes (x ∷ xs) [] = false
same_bytes (x ∷ xs) (y ∷ ys) = x == y && same_bytes xs ys

-- `findAndDelete`: `splice(i, 1)` moves the next chunk to index `i`, and the loop goes on at
-- `i + 1`, so the chunk behind a deleted one is not looked at.
unfoldable pub find_and_delete : Buffer → List Chunk → Result (List Chunk)
find_and_delete buf [] = ok []
find_and_delete buf (c ∷ []) = do
  b ← chunk_to_buffer c
  ok (if same_bytes buf b then [] else c ∷ [])
find_and_delete buf (c ∷ d ∷ chunks) =
    let kept = find_and_delete buf (d ∷ chunks) in
    let skipped = find_and_delete buf chunks in
    do
      b ← chunk_to_buffer c
      if same_bytes buf b
          then (do rest ← skipped; ok (d ∷ rest))
          else (do rest ← kept; ok (c ∷ rest))
