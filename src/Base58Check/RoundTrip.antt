-- ===== src/Base58Check/RoundTrip.antt =====
-- What is encoded is decoded again, and only from its encoding.
use lotus_sdk.Common.{
  ℕ, zero, suc, ◌-◌, ◌<◌, ◌≡◌, refl, sym, ap, ◌∙◌, Bool, true, false, List, [], ◌∷◌, ◌++◌, map,
  length, take, drop, replicate, All, All-append, ltb, arith, if◌then◌else◌, length-append,
  length-take, take-append-drop, take-length-append, drop-length-append,
}
use lotus_sdk.ScriptNum.{Buffer}
use lotus_sdk.Script.{same_bytes}
use lotus_sdk.Script.Delete.{same_bytes→eq, same_bytes_refl}
use lotus_sdk.Rank.Text
use lotus_sdk.Errors.{ok, throws, Thrown, >>=-eq-ok, ok-inj, string_too_short, invalid_checksum}
use lotus_sdk.Base58Check.{
  letter_in, letter, number, leading, prepend_digits, base58_encode, read_number, base58_decode,
  checksum, valid_checksum, encode, decode,
}
use lotus_sdk.Base58Check.Radix.{
  Radix, base58, base256, IsBelow, digits_of, prepend_digits-map, zeros-digits_of,
}
use lotus_sdk.Base58Check.Numerals.{
  leading-zeros_digits_of, number-zeros_digits_of, digits_of-IsBelow,
}
use lotus_sdk.Base58Check.Alphabet.{IsDigit, leading-letters, read_number-letters, read_number-ok}

letters-zeros :
    (z : ℕ) (ds : List ℕ) → map letter (replicate z 0 ++ ds) ≡ replicate z b'1' ++ map letter ds
unfolding letter_in
letters-zeros zero ds = refl
letters-zeros (suc z) ds = ap (λ (text : List ℕ). b'1' ∷ text) (letters-zeros z ds)

-- As many zeros and the digits of a number.
abbrev numeral : Radix → ℕ → ℕ → List ℕ
numeral r z n = replicate z 0 ++ digits_of r n

numeral-IsBelow : (r : Radix) → IsBelow r 0 → (z n : ℕ) → All (IsBelow r) (numeral r z n)
numeral-IsBelow r h zero n = digits_of-IsBelow r n
numeral-IsBelow r h (suc z) n = (h, numeral-IsBelow r h z n)

base58_encode-letters :
    (buf : Buffer)
    → base58_encode buf ≡ map letter (numeral base58 (leading 0 buf) (number 256 0 buf))
unfolding base58_encode
base58_encode-letters [] = unfold number leading prepend_digits in refl
base58_encode-letters (b ∷ bytes) =
    let num = number 256 0 (b ∷ bytes) in
    let zeros = leading 0 (b ∷ bytes) in
    ap (λ (text : List ℕ). replicate zeros b'1' ++ text) (prepend_digits-map letter 58 num num [])
    ∙ sym (letters-zeros zeros (digits_of base58 num))

base58_decode-letters :
    (ds : List ℕ)
    → All IsDigit ds
    → base58_decode (map letter ds) ≡ ok (numeral base256 (leading 0 ds) (number 58 0 ds))
unfolding base58_decode
base58_decode-letters [] h = unfold number leading prepend_digits in refl
base58_decode-letters (d ∷ ds) h =
    rw (read_number-letters 0 (d ∷ ds) h, leading-letters (d ∷ ds) h) refl

base58_decode-digits :
    (text : Text.Text) (buf : Buffer)
    → base58_decode text ≡ ok buf
    → (ds : List ℕ) × (text ≡ map letter ds)
      × All IsDigit ds
      × (buf ≡ numeral base256 (leading 0 ds) (number 58 0 ds))
unfolding base58_decode
base58_decode-digits [] buf h =
    ([], refl, tt, unfold number leading prepend_digits in (sym (ok-inj h)))
base58_decode-digits (c ∷ text) buf h =
    let (num, read, _) = >>=-eq-ok (read_number 0 (c ∷ text)) _ h in
    let (ds, same, digits, _) = read_number-ok 0 num (c ∷ text) read in
    (ds, same, digits, ok-inj (sym h ∙ ap base58_decode same ∙ base58_decode-letters ds digits))

pub base58_decode-base58_encode :
    (buf : Buffer) → All (λ b. b < 256) buf → base58_decode (base58_encode buf) ≡ ok buf
base58_decode-base58_encode buf h =
    let z = leading 0 buf in
    let n = number 256 0 buf in
    ap base58_decode (base58_encode-letters buf)
    ∙ base58_decode-letters (numeral base58 z n) (numeral-IsBelow base58 (omega arith) z n)
    ∙ ap ok (
        ap (λ (k : ℕ). numeral base256 k (number 58 0 (numeral base58 z n)))
          (leading-zeros_digits_of base58 z n)
        ∙ ap (numeral base256 z) (number-zeros_digits_of base58 z n)
        ∙ zeros-digits_of base256 buf h)

pub base58_encode-decoded :
    (text : Text.Text) (buf : Buffer) → base58_decode text ≡ ok buf → base58_encode buf ≡ text
base58_encode-decoded text buf h =
    let (ds, same, digits, made) = base58_decode-digits text buf h in
    let z = leading 0 ds in
    let n = number 58 0 ds in
    ap base58_encode made
    ∙ base58_encode-letters (numeral base256 z n)
    ∙ ap (map letter) (
        ap (λ (k : ℕ). numeral base58 k (number 256 0 (numeral base256 z n)))
          (leading-zeros_digits_of base256 z n)
        ∙ ap (numeral base58 z) (number-zeros_digits_of base256 z n)
        ∙ zeros-digits_of base58 ds digits)
    ∙ sym same

-- A hash has 32 bytes.
abbrev pub HashesToBytes : (Buffer → Buffer) → Type 0
HashesToBytes sha256 =
    (bytes : Buffer) → (length (sha256 bytes) ≡ 32) × All (λ b. b < 256) (sha256 bytes)

All-take : (n : ℕ) (bytes : Buffer) → All (λ b. b < 256) bytes → All (λ b. b < 256) (take n bytes)
All-take zero bytes h = tt
All-take (suc n) [] h = tt
All-take (suc n) (b ∷ bytes) h = (h.0, All-take n bytes h.1)

length-checksum :
    (sha256 : Buffer → Buffer) (buf : Buffer)
    → HashesToBytes sha256
    → length (checksum sha256 buf) ≡ 4
unfolding checksum
length-checksum sha256 buf h =
    omega (arith, length-take 4 (sha256 (sha256 buf)), (h (sha256 buf)).0)

-- With a hash function that returns 32 bytes, every buffer of bytes is decoded again from its
-- encoding.
pub decode-encode :
    (sha256 : Buffer → Buffer) (buf : Buffer)
    → HashesToBytes sha256
    → All (λ b. b < 256) buf
    → decode sha256 (encode sha256 buf) ≡ ok buf
unfolding decode encode valid_checksum
decode-encode sha256 buf hash h =
    let sum = checksum sha256 buf in
    let four = length-checksum sha256 buf hash in
    let sum_bytes : All (λ b. b < 256) sum =
      unfold checksum in (All-take 4 _ (hash (sha256 buf)).1) in
    let read =
      base58_decode-base58_encode (buf ++ sum) (All-append (λ b. b < 256) buf sum sum_bytes h) in
    let long : ltb (length (buf ++ sum)) 4 ≡ false = ground (arith, four, length-append buf sum) in
    let size : length (buf ++ sum) - 4 ≡ length buf = omega (arith, four, length-append buf sum) in
    rw
      (
        read,
        long,
        size,
        take-length-append buf sum,
        drop-length-append buf sum,
        same_bytes_refl sum,
      )
      refl

if-ok :
    (test : Bool) (t : Thrown) (payload buf : Buffer)
    → (if test then ok payload else throws t) ≡ ok buf
    → (test ≡ true) × (payload ≡ buf)
if-ok true t payload buf h = (refl, ok-inj h)
if-ok false t payload buf h = cc

valid_checksum-ok :
    (sha256 : Buffer → Buffer) (payload sum buf : Buffer)
    → valid_checksum sha256 payload sum ≡ ok buf
    → (payload ≡ buf) × (checksum sha256 payload ≡ sum)
unfolding valid_checksum
valid_checksum-ok sha256 payload sum buf h =
    let (fits, same) =
      if-ok (same_bytes (checksum sha256 payload) sum) invalid_checksum payload buf h in
    (same, same_bytes→eq _ _ fits)

long-checked :
    (sha256 : Buffer → Buffer) (test : Bool) (payload sum buf : Buffer)
    → (if test then throws string_too_short else valid_checksum sha256 payload sum) ≡ ok buf
    → valid_checksum sha256 payload sum ≡ ok buf
long-checked sha256 true payload sum buf h = cc
long-checked sha256 false payload sum buf h = h

-- A text that is decoded is the encoding of the buffer that comes out: no other text stands for it.
pub encode-decoded :
    (sha256 : Buffer → Buffer) (text : Text.Text) (buf : Buffer)
    → decode sha256 text ≡ ok buf
    → encode sha256 buf ≡ text
unfolding decode encode
encode-decoded sha256 text buf h =
    let (whole, read, rest) = >>=-eq-ok (base58_decode text) _ h in
    let n = length whole - 4 in
    let (payload, sum) =
      valid_checksum-ok sha256 (take n whole) (drop n whole) buf
        (long-checked sha256 _ _ _ buf rest) in
    let made : buf ++ checksum sha256 buf ≡ whole = cc (payload, sum, take-append-drop n whole) in
    ap base58_encode made ∙ base58_encode-decoded text whole read
