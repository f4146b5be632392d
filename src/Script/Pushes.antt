-- ===== src/Script/Pushes.antt =====
-- Which pushes the code takes for minimal, and the chunks that it makes itself.
use lotus_sdk.Common.{◌<◌, ◌≡◌, ◌↔◌, refl, true, some, length, arith}
use native.Mathlib.Decide.{dec_lt}
use lotus_sdk.ScriptNum.{Buffer}
use lotus_sdk.Script.{push_opcode, buffer_chunk, is_minimal_push}
use lotus_sdk.Script.RoundTrip.{WellFormed, direct, pushdata1, pushdata2, pushdata4}

buffer_chunk-WellFormed :
    (buf : Buffer) → 0 < length buf → length buf < 4294967296 → WellFormed (buffer_chunk buf)
unfolding buffer_chunk
buffer_chunk-WellFormed buf h k = elim (dec_lt (length buf) 76) [
  | yes p ↦ rw (small p) (direct (length buf) buf refl h p)
  | no p ↦ elim (dec_lt (length buf) 256) [
    | yes q ↦ rw (byte p q) (pushdata1 (length buf) buf refl q)
    | no q ↦ elim (dec_lt (length buf) 65536) [
      | yes r ↦ rw (word q r) (pushdata2 (length buf) buf refl r)
      | no r ↦ rw (long r) (pushdata4 (length buf) buf refl k)
    ]
  ]
]
  where
    small : length buf < 76 → push_opcode (length buf) ≡ length buf
    small p = unfold push_opcode in ground arith

    byte : ¬ (length buf < 76) → length buf < 256 → push_opcode (length buf) ≡ 76
    byte p q = unfold push_opcode in ground arith

    word : ¬ (length buf < 256) → length buf < 65536 → push_opcode (length buf) ≡ 77
    word p q = unfold push_opcode in ground arith

    long : ¬ (length buf < 65536) → push_opcode (length buf) ≡ 78
    long p = unfold push_opcode in ground arith

is_minimal_push-opcode :
    (buf : Buffer)
    → 0 < length buf
    → (is_minimal_push (push_opcode (length buf)) (some buf) ≡ true) ↔ (1 < length buf)
unfolding push_opcode is_minimal_push
is_minimal_push-opcode buf h = ground arith

-- What `add` makes of a buffer of 1 to 4294967295 bytes is a well-formed chunk that pushes the
-- buffer, and it is taken for minimal exactly when the buffer has more than one byte.
pub buffer_chunk-is_minimal_push :
    (buf : Buffer)
    → 0 < length buf
    → length buf < 4294967296
    → WellFormed (buffer_chunk buf)
      × ((is_minimal_push (buffer_chunk buf).opcodenum (buffer_chunk buf).buf ≡ true)
          ↔ (1 < length buf))
unfolding buffer_chunk
buffer_chunk-is_minimal_push buf h k =
    (buffer_chunk-WellFormed buf h k, is_minimal_push-opcode buf h)
