-- ===== src/Rank/Text.antt =====
-- Texts as lists of character codes, and what node's Buffer and JavaScript's numbers make of them:
-- `Buffer.from(text, 'hex')`, `toString('hex')`, `toString(16)` and `toString()`.
pub mod Digits
pub mod Hex
use lotus_sdk.Common.{
  ℕ, zero, suc, ◌+◌, ◌-◌, ◌*◌, ◌/◌, ◌%◌, Bool, true, ◌&&◌, ◌||◌, Option, none, some, List, [], ◌∷◌,
  ltb, leb, ◌==◌, if◌then◌else◌,
}
use lotus_sdk.Common.Ints.{ℤ, pos, negsuc}
use lotus_sdk.ScriptNum.{Buffer}

abbrev pub Text : Type 0
Text = List ℕ

unfoldable pub between : ℕ → ℕ → ℕ → Bool
between low high c = leb low c && leb c high

unfoldable pub hex_digit : ℕ → Option ℕ
hex_digit c =
    if between b'0' b'9' c
    then some (c - b'0')
    else if between b'a' b'f' c
    then some (c - 87)
    else if between b'A' b'F' c
    then some (c - 55)
    else none

unfoldable pub hex_pair : Option ℕ → Option ℕ → Buffer → Buffer
hex_pair (some high) (some low) more = (high * 16 + low) ∷ more
hex_pair _ _ more = []

-- Pairs of digits up to the first that is none; a last single digit is left out.
unfoldable pub from_hex : Text → Buffer
from_hex (c ∷ d ∷ text) = hex_pair (hex_digit c) (hex_digit d) (from_hex text)
from_hex _ = []

unfoldable pub digit_char : ℕ → ℕ
digit_char n = if ltb n 10 then n + b'0' else n + 87

unfoldable pub to_hex : Buffer → Text
to_hex [] = []
to_hex (b ∷ bytes) = digit_char (b / 16) ∷ digit_char (b % 16) ∷ to_hex bytes

-- The digits of a number, the last one first, one to a unit of fuel.
unfoldable pub digits : ℕ → ℕ → ℕ → List ℕ
digits base zero n = []
digits base (suc fuel) n =
    let rest = digits base fuel (n / base) in if n == 0 then [] else n % base ∷ rest

unfoldable pub reversed_text : List ℕ → Text → Text
reversed_text [] text = text
reversed_text (d ∷ ds) text = reversed_text ds (digit_char d ∷ text)

unfoldable pub number_text : ℕ → ℕ → Text
number_text base n = if n == 0 then b'0' ∷ [] else reversed_text (digits base n n) []

-- `toString(16)` of a BigInt.
unfoldable pub big_int_hex : ℤ → Text
big_int_hex (pos n) = number_text 16 n
big_int_hex (negsuc n) = b'-' ∷ number_text 16 (suc n)

unfoldable pub every : (ℕ → Bool) → Text → Bool
every test [] = true
every test (c ∷ text) = test c && every test text

-- The characters of the regular expressions.
unfoldable pub is_hex_char : ℕ → Bool
is_hex_char c = between b'0' b'9' c || between b'a' b'f' c || between b'A' b'F' c

unfoldable pub is_name_char : ℕ → Bool
is_name_char c = between b'a' b'z' c || between b'0' b'9' c || c == b'_'
