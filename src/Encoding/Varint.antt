-- ===== src/Encoding/Varint.antt =====
-- Reading back varints and buffers with their length in front.
use lotus_sdk.Common.{
  ℕ, ◌-◌, ◌/◌, ◌%◌, ◌<◌, ◌≤◌, ◌≡◌, inl, inr, refl, ap, false, [], ◌∷◌, ◌++◌, length, ltb, ◌==◌,
  if◌then◌else◌, ltb→lt, lt→ltb, Bool-cases, arith, take-length-append, drop-length-append,
}
use mathlib.Core.List.{append_assoc}
use lotus_sdk.ScriptNum.{Buffer}
use lotus_sdk.Errors.{Result, ok, ◌>>=◌}
use lotus_sdk.Script.{
  read_uint8, read_uint16_le, read_uint32_le, read, write_uint8, write_uint16_le, write_uint32_le,
}
use lotus_sdk.Encoding.{
  ◌followed_by◌, le_digits, to_int32, write_int32_le, read_uint64_le_bn, read_varint_num,
  read_varint_bn, write_varint_num, write_varint_bn, read_var_length_buffer,
  write_var_length_buffer,
}
use lotus_sdk.Encoding.RoundTrip.{
  Rereads, write_uint16_le-Rereads, write_uint32_le-Rereads, write_uint64_le_bn-Rereads,
  read_uint64_le_bn-le_digits,
}

-- A writer whose first byte is known.
abbrev Tagged {ℓ} : {A : Type ℓ} → ℕ → Result Buffer → (Buffer → Result (A × Buffer)) → A → Type ℓ
Tagged tag writer reader a =
    (bytes : Buffer) × (writer ≡ ok (tag ∷ bytes))
    × ((rest : Buffer) → reader (bytes ++ rest) ≡ ok (a, rest))

tag_first {ℓ} :
    {A : Type ℓ} (tag : ℕ) (writer : Result Buffer) (reader : Buffer → Result (A × Buffer)) {a : A}
    → tag < 256
    → Rereads writer reader a
    → Tagged tag (write_uint8 tag followed_by writer) reader a
unfolding write_uint8
tag_first tag writer reader low (bytes, written, reread) =
    (bytes, rw written (ground arith), reread)

write_int32_le-to_int32 :
    (n : ℕ) → n < 4294967296 → write_int32_le (to_int32 n) ≡ ok (le_digits 4 n)
unfolding to_int32 write_int32_le
write_int32_le-to_int32 n h =
    let back : ltb n 2147483648 ≡ false → 4294967295 - (4294967295 - n) ≡ n = λ _. omega arith in
    ground (arith, back)

write_uint32_le-le_digits : (n : ℕ) → n < 4294967296 → write_uint32_le n ≡ ok (le_digits 4 n)
unfolding write_uint32_le le_digits
write_uint32_le-le_digits n h =
    let c : n / 65536 ≡ n / 256 / 256 = omega arith in
    let d : n / 16777216 ≡ n / 256 / 256 / 256 % 256 = omega arith in
    rw (lt→ltb n 4294967296 h, c, d) refl

le_digits-halves :
    (n : ℕ) → le_digits 4 (n % 4294967296) ++ le_digits 4 (n / 4294967296) ≡ le_digits 8 n
unfolding le_digits
le_digits-halves n =
    let a : n % 4294967296 % 256 ≡ n % 256 = omega arith in
    let b : n % 4294967296 / 256 % 256 ≡ n / 256 % 256 = omega arith in
    let c : n % 4294967296 / 256 / 256 % 256 ≡ n / 256 / 256 % 256 = omega arith in
    let d : n % 4294967296 / 256 / 256 / 256 % 256 ≡ n / 256 / 256 / 256 % 256 = omega arith in
    let e : n / 4294967296 ≡ n / 256 / 256 / 256 / 256 = omega arith in rw (a, b, c, d, e) refl

-- The two numbers that a varint of nine bytes is written as.
write_halves :
    (n : ℕ)
    → n < 18446744073709551616
    → (write_int32_le (to_int32 (n % 4294967296)) followed_by write_uint32_le (n / 4294967296))
      ≡ ok (le_digits 8 n)
write_halves n h =
    rw
      (
        write_int32_le-to_int32 (n % 4294967296) (omega arith),
        write_uint32_le-le_digits (n / 4294967296) (omega arith),
      )
      (ap ok (le_digits-halves n))

nine_bytes :
    (n : ℕ)
    → n < 18446744073709551616
    → Tagged 255
        (write_uint8 255
          followed_by (write_int32_le (to_int32 (n % 4294967296))
              followed_by write_uint32_le (n / 4294967296)))
        read_uint64_le_bn
        n
nine_bytes n h =
    tag_first 255 _ read_uint64_le_bn (omega arith)
      (le_digits 8 n, write_halves n h, λ rest. read_uint64_le_bn-le_digits n rest h)

-- What the two kinds of varints have in common: `long` and `reader` are the writer and the reader
-- of the numbers from 2^32 on.
abbrev varint_writer : ℕ → Result Buffer → Result Buffer
varint_writer n long =
    if ltb n 253
    then write_uint8 n
    else if ltb n 0x10000
    then write_uint8 253 followed_by write_uint16_le n
    else if ltb n 0x100000000
    then write_uint8 254 followed_by write_uint32_le n
    else long

abbrev varint_reader : (Buffer → Result (ℕ × Buffer)) → Buffer → Result (ℕ × Buffer)
varint_reader reader input = do
  (first, rest) ← read_uint8 input
  if first == 0xfd
      then read_uint16_le rest
      else if first == 0xfe
      then read_uint32_le rest
      else if first == 0xff
      then reader rest
      else ok (first, rest)

varint-Rereads :
    (n : ℕ) (long : Result Buffer) (reader : Buffer → Result (ℕ × Buffer))
    → (ltb n 4294967296 ≡ false → Tagged 255 long reader n)
    → Rereads (varint_writer n long) (varint_reader reader) n
varint-Rereads n long reader h = elim (Bool-cases (ltb n 253)) [
  | inl p ↦ (n ∷ [], unfold write_uint8 in ground arith, λ rest. unfold read_uint8 in ground arith)
  | inr p ↦ elim (Bool-cases (ltb n 65536)) [
    | inl q ↦
        let (bytes, written, reread) =
          tag_first 253 _ read_uint16_le (omega arith)
            (write_uint16_le-Rereads n (ltb→lt n 65536 q)) in
        (253 ∷ bytes, rw (p, q) written, λ rest. unfold read_uint8 in reread rest)
    | inr q ↦ elim (Bool-cases (ltb n 4294967296)) [
      | inl r ↦
          let (bytes, written, reread) =
            tag_first 254 _ read_uint32_le (omega arith)
              (write_uint32_le-Rereads n (ltb→lt n 4294967296 r)) in
          (254 ∷ bytes, rw (p, q, r) written, λ rest. unfold read_uint8 in reread rest)
      | inr r ↦
          let (bytes, written, reread) = h r in
          (255 ∷ bytes, rw (p, q, r) written, λ rest. unfold read_uint8 in reread rest)
    ]
  ]
]

-- A number up to 2^53, which is as far as every one of them is a double of its own, is read back
-- from its varint.
pub write_varint_num-Rereads :
    (n : ℕ) → n ≤ 9007199254740992 → Rereads (write_varint_num n) read_varint_num n
unfolding write_varint_num read_varint_num
write_varint_num-Rereads n h = varint-Rereads n _ _ (λ _.
    let (bytes, written, reread) = nine_bytes n (omega arith) in
    (bytes, written, λ rest. rw (reread rest) (ground arith)))

write_varint_bn-Rereads :
    (n : ℕ) → n < 18446744073709551616 → Rereads (write_varint_bn n) read_varint_bn n
unfolding write_varint_bn read_varint_bn
write_varint_bn-Rereads n h =
    varint-Rereads n _ read_uint64_le_bn
      (λ _. tag_first 255 _ read_uint64_le_bn (omega arith) (write_uint64_le_bn-Rereads n h))

-- A buffer of at most 2^53 bytes is read back from its length and its bytes.
pub var_length-read :
    (buf : Buffer)
    → length buf ≤ 9007199254740992
    → (varint : Buffer) × (write_varint_num (length buf) ≡ ok varint)
      × ((rest : Buffer) → read_var_length_buffer (varint ++ (buf ++ rest)) ≡ ok (buf, rest))
unfolding read_var_length_buffer read
var_length-read buf h =
    let (varint, written, reread) = write_varint_num-Rereads (length buf) h in
    (
      varint,
      written,
      λ rest.
          rw (reread (buf ++ rest), take-length-append buf rest, drop-length-append buf rest)
            (ground arith),
    )

pub write_var_length_buffer-Rereads :
    (buf : Buffer)
    → length buf ≤ 9007199254740992
    → Rereads (write_var_length_buffer buf) read_var_length_buffer buf
unfolding write_var_length_buffer
write_var_length_buffer-Rereads buf h =
    let (varint, written, reread) = var_length-read buf h in
    (varint ++ buf, rw written refl, λ rest. rw (append_assoc varint buf rest) (reread rest))
