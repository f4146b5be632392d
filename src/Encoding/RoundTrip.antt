-- ===== src/Encoding/RoundTrip.antt =====
-- Reading back numbers and rows of items.
use lotus_sdk.Common.{
  ℕ, zero, suc, ◌+◌, ◌-◌, ◌*◌, ◌/◌, ◌%◌, ◌^◌, ◌<◌, ◌≡◌, refl, sym, ap, ◌∙◌, Bool, true, false, List,
  [], ◌∷◌, ◌++◌, All, length, take, drop, length-append, if◌then◌else◌, arith,
}
use lotus_sdk.Common.Ints.{ℤ, pos, negsuc}
use mathlib.Core.List.{append_assoc}
use lotus_sdk.ScriptNum.{Buffer, le_value}
use lotus_sdk.Errors.{Result, ok, ok-inj}
use lotus_sdk.Script.{
  read_uint8, read_uint16_le, read_uint32_le, write_uint8, write_uint16_le, write_uint32_le,
}
use lotus_sdk.Encoding.{
  le_digits, read_uint_le, to_int32, read_int32_le, write_int32_le, read_uint48_le, write_uint48_le,
  read_uint56_le_bn, write_uint56_le_bn, read_uint64_le_bn, write_uint64_le_bn, read_times,
  write_all,
}
use lotus_sdk.Encoding.Digits.{length-le_digits, le_value-le_digits, reverse-bn_to_buffer}

-- A writer succeeds, and the reader takes exactly its bytes off the front of the input and returns
-- the value.
abbrev pub Rereads {ℓ} : {A : Type ℓ} → Result Buffer → (Buffer → Result (A × Buffer)) → A → Type ℓ
Rereads writer reader a =
    (bytes : Buffer) × (writer ≡ ok bytes)
    × ((rest : Buffer) → reader (bytes ++ rest) ≡ ok (a, rest))

pub write_uint8-Rereads : (n : ℕ) → n < 256 → Rereads (write_uint8 n) read_uint8 n
unfolding write_uint8 read_uint8
write_uint8-Rereads n h = (n ∷ [], ground arith, λ rest. refl)

pub write_uint16_le-Rereads : (n : ℕ) → n < 65536 → Rereads (write_uint16_le n) read_uint16_le n
unfolding write_uint16_le read_uint16_le
write_uint16_le-Rereads n h =
    let whole : n % 256 + 256 * (n / 256) ≡ n = omega arith in
    (n % 256 ∷ n / 256 ∷ [], ground arith, λ rest. rw whole refl)

pub write_uint32_le-Rereads :
    (n : ℕ) → n < 4294967296 → Rereads (write_uint32_le n) read_uint32_le n
unfolding write_uint32_le read_uint32_le
write_uint32_le-Rereads n h =
    let whole : n % 256
          + 256 * (n / 256 % 256)
          + 65536 * (n / 65536 % 256)
          + 16777216 * (n / 16777216)
        ≡ n =
      omega arith in
    (
      n % 256 ∷ n / 256 % 256 ∷ n / 65536 % 256 ∷ n / 16777216 ∷ [],
      ground arith,
      λ rest. rw whole refl,
    )

take-le_digits :
    (size n : ℕ) (rest : Buffer) → take size (le_digits size n ++ rest) ≡ le_digits size n
unfolding le_digits
take-le_digits zero n rest = refl
take-le_digits (suc size) n rest = rw (take-le_digits size (n / 256) rest) refl

drop-le_digits : (size n : ℕ) (rest : Buffer) → drop size (le_digits size n ++ rest) ≡ rest
unfolding le_digits
drop-le_digits zero n rest = refl
drop-le_digits (suc size) n rest = drop-le_digits size (n / 256) rest

read_uint_le-le_digits :
    (size n : ℕ) (rest : Buffer)
    → n < 256 ^ size
    → read_uint_le size (le_digits size n ++ rest) ≡ ok (n, rest)
unfolding read_uint_le
read_uint_le-le_digits size n rest h =
    rw (take-le_digits size n rest, drop-le_digits size n rest, le_value-le_digits size n h)
      (ground (arith, length-append (le_digits size n) rest, length-le_digits size n))

to_int32-pos : (n : ℕ) → n < 2147483648 → to_int32 n ≡ pos n
unfolding to_int32
to_int32-pos n h = ground arith

to_int32-negsuc : (n : ℕ) → n < 2147483648 → to_int32 (4294967295 - n) ≡ negsuc n
unfolding to_int32
to_int32-negsuc n h =
    let back : 4294967295 - (4294967295 - n) ≡ n = omega arith in ground (arith, back)

-- The numbers that 32 bits hold with a sign.
abbrev pub IsInt32 : ℤ → Type 0
IsInt32 (pos n) = n < 2147483648
IsInt32 (negsuc n) = n < 2147483648

pub write_int32_le-Rereads : (v : ℤ) → IsInt32 v → Rereads (write_int32_le v) read_int32_le v
unfolding write_int32_le read_int32_le
write_int32_le-Rereads (pos n) h = (
  le_digits 4 n,
  ground arith,
  λ rest. rw (read_uint_le-le_digits 4 n rest (omega arith), to_int32-pos n h) refl,
)
write_int32_le-Rereads (negsuc n) h = (
  le_digits 4 (4294967295 - n),
  ground arith,
  λ rest.
      rw (read_uint_le-le_digits 4 (4294967295 - n) rest (omega arith), to_int32-negsuc n h) refl,
)

pub write_uint48_le-Rereads :
    (n : ℕ) → n < 281474976710656 → Rereads (write_uint48_le n) read_uint48_le n
unfolding write_uint48_le read_uint48_le
write_uint48_le-Rereads n h =
    (le_digits 6 n, ground arith, λ rest. read_uint_le-le_digits 6 n rest (omega arith))

pub write_uint56_le_bn-Rereads :
    (n : ℕ)
    → n < 72057594037927936
    → Rereads (write_uint56_le_bn n) (λ input. ok (read_uint56_le_bn input)) n
unfolding write_uint56_le_bn read_uint56_le_bn
write_uint56_le_bn-Rereads n h = (
  le_digits 7 n,
  ap ok (reverse-bn_to_buffer 7 n (omega arith)),
  λ rest.
      rw (take-le_digits 7 n rest, drop-le_digits 7 n rest, le_value-le_digits 7 n (omega arith))
        refl,
)

-- The number that the two halves of eight digits make.
halves :
    (n : ℕ)
    → n < 18446744073709551616
    → (n / 256 / 256 / 256 / 256 % 256
            + 256 * (n / 256 / 256 / 256 / 256 / 256 % 256)
            + 65536 * (n / 256 / 256 / 256 / 256 / 256 / 256 % 256)
            + 16777216 * (n / 256 / 256 / 256 / 256 / 256 / 256 / 256 % 256))
          * 4294967296
        + (n % 256
            + 256 * (n / 256 % 256)
            + 65536 * (n / 256 / 256 % 256)
            + 16777216 * (n / 256 / 256 / 256 % 256))
      ≡ n
halves n h = omega arith

if-same : (b : Bool) (n : ℕ) → (if b then n else n) ≡ n
if-same true n = refl
if-same false n = refl

pub read_uint64_le_bn-le_digits :
    (n : ℕ) (rest : Buffer)
    → n < 18446744073709551616
    → read_uint64_le_bn (le_digits 8 n ++ rest) ≡ ok (n, rest)
unfolding read_uint64_le_bn le_digits read_uint32_le
read_uint64_le_bn-le_digits n rest h =
    let eight : le_value (le_digits 8 n) ≡ n = le_value-le_digits 8 n (omega arith) in
    rw (halves n h, eight, if-same) refl

pub write_uint64_le_bn-Rereads :
    (n : ℕ) → n < 18446744073709551616 → Rereads (write_uint64_le_bn n) read_uint64_le_bn n
unfolding write_uint64_le_bn
write_uint64_le_bn-Rereads n h = (
  le_digits 8 n,
  ap ok (reverse-bn_to_buffer 8 n (omega arith)),
  λ rest. read_uint64_le_bn-le_digits n rest h,
)

-- Items that are read back one by one are read back in a row.
pub write_all-Rereads {ℓ} :
    {A : Type ℓ} (writer : A → Result Buffer) (reader : Buffer → Result (A × Buffer))
    (items : List A)
    → All (λ a. Rereads (writer a) reader a) items
    → Rereads (write_all writer items) (read_times reader (length items)) items
unfolding write_all read_times
write_all-Rereads writer reader [] h = ([], refl, λ rest. refl)
write_all-Rereads writer reader (a ∷ items) (h, hs) =
    let (bytes, written, reread) = h in
    let (more, written', reread') = write_all-Rereads writer reader items hs in
    (
      bytes ++ more,
      rw (written, written') refl,
      λ rest. rw (append_assoc bytes more rest, reread (more ++ rest), reread' rest) refl,
    )

-- Two values with the same bytes are the same.
pub Rereads-inj {ℓ} :
    {A : Type ℓ} {w w' : Result Buffer} (reader : Buffer → Result (A × Buffer)) {a b : A}
    → Rereads w reader a
    → Rereads w' reader b
    → w ≡ w'
    → a ≡ b
Rereads-inj reader {a} {b} (bytes, written, reread) (bytes', written', reread') e =
    let same : bytes ≡ bytes' = ok-inj (sym written ∙ e ∙ written') in
    let both : reader (bytes ++ []) ≡ reader (bytes' ++ []) =
      ap (λ (z : Buffer). reader (z ++ [])) same in
    ap (λ p. p.0) (ok-inj (sym (reread []) ∙ both ∙ reread' []))
