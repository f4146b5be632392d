-- ===== src/Script/RoundTrip.antt =====
-- Reading back the bytes of a script.
use lotus_sdk.Common.{
  ℕ, zero, suc, ◌+◌, ◌*◌, ◌/◌, ◌%◌, ◌<◌, ◌≤◌, ◌≡◌, ◌⊎◌, refl, ap, List, [], ◌∷◌, ◌++◌, All, length,
  length-append, take-length-append, drop-length-append, arith,
}
use lotus_sdk.ScriptNum.{Buffer}
use lotus_sdk.Errors.{ok}
use lotus_sdk.Script.{
  Chunk, op_chunk, push_chunk, read_uint8, read_uint16_le, read_uint32_le, read, read_push,
  read_chunk, from_buffer_loop, as_invalid_buffer, from_buffer, write_uint8, write_uint16_le,
  write_uint32_le, write_len, write_data, chunk_to_buffer, to_buffer,
}

-- The chunks that `fromBuffer` makes of a script that is not cut off in a push.
pub data WellFormed : Chunk → Type 0 where
  plain : (n : ℕ) → n < 256 → (n ≡ 0) ⊎ (78 < n) → WellFormed (op_chunk n)
  direct : (n : ℕ) (d : Buffer) → n ≡ length d → 0 < n → n < 76 → WellFormed (push_chunk n n d)
  pushdata1 : (n : ℕ) (d : Buffer) → n ≡ length d → n < 256 → WellFormed (push_chunk 76 n d)
  pushdata2 : (n : ℕ) (d : Buffer) → n ≡ length d → n < 65536 → WellFormed (push_chunk 77 n d)
  pushdata4 : (n : ℕ) (d : Buffer) → n ≡ length d → n < 4294967296 → WellFormed (push_chunk 78 n d)

read_push-append :
    (o n : ℕ) (d rest : Buffer)
    → n ≡ length d
    → read_push o n (d ++ rest) ≡ (push_chunk o n d, rest)
unfolding read_push read
read_push-append o n d rest e = rw (e, take-length-append d rest, drop-length-append d rest)

-- A well-formed chunk is written as bytes from which one round of the reader gives it back.
abbrev Rereads : Chunk → Type 0
Rereads c =
    (body : Buffer) × (chunk_to_buffer c ≡ ok (c.opcodenum ∷ body))
    × ((rest : Buffer) → read_chunk c.opcodenum (body ++ rest) ≡ ok (c, rest))

read_chunk-write : {c : Chunk} → WellFormed c → Rereads c
unfolding chunk_to_buffer write_data write_len write_uint8 write_uint16_le write_uint32_le
    read_chunk read_uint8 read_uint16_le read_uint32_le
read_chunk-write (plain n h k) = ([], ground arith, λ rest. ground arith)
read_chunk-write (direct n d e h k) =
    (d, ground arith, λ rest. ground (arith, read_push-append n n d rest e))
read_chunk-write (pushdata1 n d e h) =
    (n ∷ d, ground arith, λ rest. ap ok (read_push-append 76 n d rest e))
read_chunk-write (pushdata2 n d e h) = (
  n % 256 ∷ n / 256 ∷ d,
  ground arith,
  λ rest.
      let whole : n % 256 + 256 * (n / 256) ≡ n = omega arith in
      rw whole (ap ok (read_push-append 77 n d rest e)),
)
read_chunk-write (pushdata4 n d e h) = (
  n % 256 ∷ n / 256 % 256 ∷ n / 65536 % 256 ∷ n / 16777216 ∷ d,
  ground arith,
  λ rest.
      let whole : n % 256
            + 256 * (n / 256 % 256)
            + 65536 * (n / 65536 % 256)
            + 16777216 * (n / 16777216)
          ≡ n =
        omega arith in
      rw whole (ap ok (read_push-append 78 n d rest e)),
)

from_buffer_loop-to_buffer :
    (cs : List Chunk)
    → All WellFormed cs
    → (b : Buffer) × (to_buffer cs ≡ ok b)
      × ((fuel : ℕ) → length b ≤ fuel → from_buffer_loop fuel b ≡ ok cs)
unfolding to_buffer from_buffer_loop
from_buffer_loop-to_buffer [] h = ([], refl, λ fuel le. refl)
from_buffer_loop-to_buffer (c ∷ cs) h =
    let (body, written, reread) = read_chunk-write h.0 in
    let (rest, more, loop) = from_buffer_loop-to_buffer cs h.1 in
    (
      c.opcodenum ∷ (body ++ rest),
      rw (written, more),
      elim [
        | zero ↦ λ le. absurd (omega arith)
        | suc fuel ↦ λ le. rw (reread rest, loop fuel (omega (arith, length-append body rest)))
      ],
    )

-- A list of well-formed chunks is written without an error, and `fromBuffer` gives back these
-- chunks.
pub from_buffer-to_buffer :
    (cs : List Chunk)
    → All WellFormed cs
    → (b : Buffer) × (to_buffer cs ≡ ok b) × (from_buffer b ≡ ok cs)
unfolding from_buffer
from_buffer-to_buffer cs h =
    let (b, written, loop) = from_buffer_loop-to_buffer cs h in
    (b, written, rw (loop (length b) (omega arith)) (unfold as_invalid_buffer in refl))
