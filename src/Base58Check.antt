-- ===== src/Base58Check.antt =====
-- Base58 with a checksum (lib/bitcore/encoding/base58check.ts). The SHA-256 of the library noble is a
-- parameter. A text is the list of its character codes.
pub mod Radix
pub mod Numerals
pub mod Alphabet
pub mod RoundTrip
pub mod Tests
use Prim.Native.Char.{code}
use Prim.Native.String.{String}
use lotus_sdk.Common.{
  ℕ, zero, suc, ◌+◌, ◌-◌, ◌*◌, ◌/◌, ◌%◌, Option, none, some, List, [], ◌∷◌, ◌++◌, length, take,
  drop, replicate, ltb, ◌==◌, if◌then◌else◌,
}
use lotus_sdk.ScriptNum.{Buffer}
use lotus_sdk.Script.{same_bytes}
use lotus_sdk.Rank.Text
use lotus_sdk.Errors.{
  Result, ok, throws, invalid_character, string_too_short, invalid_checksum, ◌>>=◌,
}

abbrev codes : String → Text.Text
codes String.[] = []
codes (String.◌∷◌ c s) = code c ∷ codes s

abbrev pub alphabet : Text.Text
alphabet = codes "123456789ABCDEFGHJKLMNPQRSTUVWXYZabcdefghijkmnopqrstuvwxyz"

-- `ALPHABET[i]`, for an `i` in range.
unfoldable pub letter_in : Text.Text → ℕ → ℕ
letter_in [] i = 0
letter_in (c ∷ text) zero = c
letter_in (c ∷ text) (suc i) = letter_in text i

abbrev pub letter : ℕ → ℕ
letter i = letter_in alphabet i

unfoldable pub next : Option ℕ → Option ℕ
next none = none
next (some i) = some (suc i)

-- `ALPHABET_MAP[char]`
unfoldable pub index_in : Text.Text → ℕ → Option ℕ
index_in [] char = none
index_in (c ∷ text) char = let rest = index_in text char in if c == char then some 0 else next rest

abbrev pub index_of : ℕ → Option ℕ
index_of char = index_in alphabet char

-- `num * base + digit`, for each digit.
unfoldable pub number : ℕ → ℕ → List ℕ → ℕ
number base num [] = num
number base num (digit ∷ digits) = number base (num * base + digit) digits

-- The loops `while (num > 0n)`, one round to a unit of fuel.
unfoldable pub prepend_digits : (ℕ → ℕ) → ℕ → ℕ → ℕ → List ℕ → List ℕ
prepend_digits symbol base fuel zero result = result
prepend_digits symbol base zero (suc num) result = result
prepend_digits symbol base (suc fuel) (suc num) result =
    prepend_digits symbol base fuel (suc num / base) (symbol (suc num % base) ∷ result)

-- How many of the first items are the given one.
unfoldable pub leading : ℕ → List ℕ → ℕ
leading item [] = 0
leading item (x ∷ items) = let rest = leading item items in if x == item then suc rest else 0

unfoldable pub base58_encode : Buffer → Text.Text
base58_encode [] = []
base58_encode (b ∷ bytes) =
    let num = number 256 0 (b ∷ bytes) in
    replicate (leading 0 (b ∷ bytes)) b'1' ++ prepend_digits letter 58 num num []

unfoldable pub index_or_throw : Option ℕ → Result ℕ
index_or_throw none = throws invalid_character
index_or_throw (some i) = ok i

unfoldable pub read_number : ℕ → Text.Text → Result ℕ
read_number num [] = ok num
read_number num (char ∷ text) = do
  i ← index_or_throw (index_of char)
  read_number (num * 58 + i) text

unfoldable pub base58_decode : Text.Text → Result Buffer
base58_decode [] = ok []
base58_decode (char ∷ text) = do
  num ← read_number 0 (char ∷ text)
  ok (replicate (leading b'1' (char ∷ text)) 0 ++ prepend_digits (λ digit. digit) 256 num num [])

module _ (sha256 : Buffer → Buffer) where
  unfoldable pub checksum : Buffer → Buffer
  checksum buf = take 4 (sha256 (sha256 buf))

  unfoldable pub valid_checksum : Buffer → Buffer → Result Buffer
  valid_checksum payload sum =
      if same_bytes (checksum payload) sum then ok payload else throws invalid_checksum

  unfoldable pub encode : Buffer → Text.Text
  encode buf = base58_encode (buf ++ checksum buf)

  unfoldable pub decode : Text.Text → Result Buffer
  decode text = do
    buf ← base58_decode text
    if ltb (length buf) 4
        then throws string_too_short
        else valid_checksum (take (length buf - 4) buf) (drop (length buf - 4) buf)
