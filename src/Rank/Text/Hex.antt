-- ===== src/Rank/Text/Hex.antt =====
-- Hexadecimal texts of bytes.
use lotus_sdk.Common.{
  ℕ, ◌+◌, ◌-◌, ◌*◌, ◌/◌, ◌%◌, ◌<◌, ◌≡◌, refl, Bool, true, ◌&&◌, ◌||◌, some, [], ◌∷◌, length, leb,
  if◌then◌else◌, map, arith,
}
use lotus_sdk.Rank.Text
use lotus_sdk.Rank.Text.{
  between, hex_digit, hex_pair, from_hex, digit_char, to_hex, every, is_hex_char,
}

abbrev pub to_lower : ℕ → ℕ
to_lower c = if leb b'A' c && leb c b'F' then c + 32 else c

hex_value : ℕ → ℕ
hex_value c =
    if leb b'0' c && leb c b'9'
    then c - b'0'
    else if leb b'a' c && leb c b'f'
    then c - 87
    else c - 55

hex_digit-hex_value : (c : ℕ) → is_hex_char c ≡ true → hex_digit c ≡ some (hex_value c)
unfolding is_hex_char hex_digit hex_value between
hex_digit-hex_value c h = ground (arith, h)

hex_value-lt : (c : ℕ) → is_hex_char c ≡ true → hex_value c < 16
unfolding is_hex_char hex_value between
hex_value-lt c h = ground (arith, h)

digit_char-hex_value : (c : ℕ) → is_hex_char c ≡ true → digit_char (hex_value c) ≡ to_lower c
unfolding is_hex_char hex_value between digit_char
digit_char-hex_value c h = ground (arith, h)

and-true : (a b : Bool) → (a && b) ≡ true → (a ≡ true) × (b ≡ true)
and-true a b h = ground (arith, h)

-- Pairs of digits make as many bytes, whose text is that of the digits in lower case.
pub from_hex-pairs :
    (text : Text.Text)
    → every is_hex_char text ≡ true
    → length text % 2 ≡ 0
    → (length (from_hex text) ≡ length text / 2) × (to_hex (from_hex text) ≡ map to_lower text)
unfolding every from_hex hex_pair to_hex
from_hex-pairs [] h even = (omega arith, refl)
from_hex-pairs (c ∷ []) h even = absurd (omega (arith, even))
from_hex-pairs (c ∷ d ∷ text) h even =
    let (hc, h') = and-true (is_hex_char c) (is_hex_char d && every is_hex_char text) h in
    let (hd, ht) = and-true (is_hex_char d) (every is_hex_char text) h' in
    let (len, back) = from_hex-pairs text ht (omega (arith, even)) in
    let high : (hex_value c * 16 + hex_value d) / 16 ≡ hex_value c =
      omega (arith, hex_value-lt d hd) in
    let low : (hex_value c * 16 + hex_value d) % 16 ≡ hex_value d =
      omega (arith, hex_value-lt d hd) in
    rw
      (
        hex_digit-hex_value c hc,
        hex_digit-hex_value d hd,
        high,
        low,
        digit_char-hex_value c hc,
        digit_char-hex_value d hd,
        back,
      )
      (omega (arith, len), refl)

-- A text without capitals.
pub lower_text :
    (text : Text.Text)
    → every (λ c. between b'0' b'9' c || between b'a' b'f' c) text ≡ true
    → (every is_hex_char text ≡ true) × (map to_lower text ≡ text)
unfolding every is_hex_char between
lower_text [] h = (refl, refl)
lower_text (c ∷ text) h =
    let (hc, ht) =
      and-true (between b'0' b'9' c || between b'a' b'f' c)
        (every (λ d. between b'0' b'9' d || between b'a' b'f' d) text) h in
    let (all, same) = lower_text text ht in
    let hex : is_hex_char c ≡ true = ground (arith, hc) in
    let low : to_lower c ≡ c = ground (arith, hc) in (rw hex all, cc)
