-- ===== src/Rank/Text/Digits.antt =====
-- Hexadecimal digits and the bytes that they make.
use lotus_sdk.Common.{
  ℕ, zero, suc, ◌+◌, ◌*◌, ◌/◌, ◌%◌, ◌<◌, ◌≤◌, ◌≡◌, refl, true, false, Option, none, some, List, [],
  ◌∷◌, length, ◌==◌, ◌^◌, inl, inr, ap, ◌∙◌, All, Bool-cases, arith,
}
use lotus_sdk.ScriptNum.{Buffer}
use lotus_sdk.Interpreter.Numbers.{be_value}
use lotus_sdk.Rank.Text
use lotus_sdk.Rank.Text.{
  between, hex_digit, hex_pair, from_hex, digit_char, to_hex, digits, reversed_text, number_text,
}

-- The digits of a number below 16 are read back.
pub hex_digit-digit_char : (d : ℕ) → d < 16 → hex_digit (digit_char d) ≡ some d
unfolding hex_digit digit_char between
hex_digit-digit_char d h = ground arith

abbrev pub IsDigit : ℕ → Type 0
IsDigit d = d < 16

-- The number of some digits, the last one first.
unfoldable pub value : List ℕ → ℕ
value [] = 0
value (d ∷ ds) = d + 16 * value ds

digits-IsDigit : (fuel n : ℕ) → All IsDigit (digits 16 fuel n)
unfolding digits
digits-IsDigit zero n = tt
digits-IsDigit (suc fuel) n = elim (Bool-cases (n == 0)) [
  | inl p ↦ rw p tt
  | inr p ↦ rw p (omega arith, digits-IsDigit fuel (n / 16))
]

value-digits : (fuel n : ℕ) → n ≤ fuel → value (digits 16 fuel n) ≡ n
unfolding digits value
value-digits zero n h = omega arith
value-digits (suc fuel) n h = elim (Bool-cases (n == 0)) [
  | inl p ↦ rw p (ground (arith, p))
  | inr p ↦ rw p (ground (arith, p, value-digits fuel (n / 16)))
]

length-digits_le : (k fuel n : ℕ) → n < 16 ^ k → length (digits 16 fuel n) ≤ k
unfolding digits
length-digits_le k zero n h = omega arith
length-digits_le zero (suc fuel) n h =
    let nothing : (n == 0) ≡ true = ground (arith, h) in rw nothing (omega arith)
length-digits_le (suc k) (suc fuel) n h = elim (Bool-cases (n == 0)) [
  | inl p ↦ rw p (omega arith)
  | inr p ↦ rw p (omega (arith, length-digits_le k fuel (n / 16) (omega (arith, h))))
]

pow_pos : (k : ℕ) → 0 < 16 ^ k
pow_pos zero = omega arith
pow_pos (suc k) = omega (arith, pow_pos k)

length-digits_gt : (k fuel n : ℕ) → n ≤ fuel → 16 ^ k ≤ n → k < length (digits 16 fuel n)
unfolding digits
length-digits_gt k zero n h l = absurd (omega (arith, h, l, pow_pos k))
length-digits_gt zero (suc fuel) n h l =
    let more : (n == 0) ≡ false = ground (arith, l) in rw more (omega arith)
length-digits_gt (suc k) (suc fuel) n h l =
    let more : (n == 0) ≡ false = ground (arith, l, pow_pos k) in
    rw more (omega (arith, length-digits_gt k fuel (n / 16) (omega (arith, h)) (omega (arith, l))))

be_value-from_hex :
    (ds : List ℕ) (text : Text.Text)
    → All IsDigit ds
    → length ds % 2 ≡ 0
    → be_value 0 (from_hex (reversed_text ds text)) ≡ be_value (value ds) (from_hex text)
unfolding reversed_text value
be_value-from_hex [] text h even = refl
be_value-from_hex (d ∷ []) text h even = absurd (omega (arith, even))
be_value-from_hex (d ∷ e ∷ ds) text h even =
    be_value-from_hex ds (digit_char e ∷ digit_char d ∷ text) h.1.1 (omega (arith, even))
    ∙ (unfold from_hex hex_pair be_value in
        rw (hex_digit-digit_char e h.1.0, hex_digit-digit_char d h.0)
          (ap (λ (v : ℕ). be_value v (from_hex text)) (omega arith)))

length-from_hex :
    (ds : List ℕ) (text : Text.Text)
    → All IsDigit ds
    → length ds % 2 ≡ 0
    → length (from_hex (reversed_text ds text)) ≡ length ds / 2 + length (from_hex text)
unfolding reversed_text
length-from_hex [] text h even = omega arith
length-from_hex (d ∷ []) text h even = absurd (omega (arith, even))
length-from_hex (d ∷ e ∷ ds) text h even =
    length-from_hex ds (digit_char e ∷ digit_char d ∷ text) h.1.1 (omega (arith, even))
    ∙ (unfold from_hex hex_pair in
        rw (hex_digit-digit_char e h.1.0, hex_digit-digit_char d h.0) (omega arith))

length-hex_pair : (a b : Option ℕ) (more : Buffer) → length (hex_pair a b more) ≤ suc (length more)
unfolding hex_pair
length-hex_pair none b more = omega arith
length-hex_pair (some a) none more = omega arith
length-hex_pair (some a) (some b) more = omega arith

length-from_hex_le : (text : Text.Text) → length (from_hex text) ≤ length text / 2
unfolding from_hex
length-from_hex_le [] = omega arith
length-from_hex_le (c ∷ []) = omega arith
length-from_hex_le (c ∷ d ∷ text) =
    omega
      (arith, length-hex_pair (hex_digit c) (hex_digit d) (from_hex text), length-from_hex_le text)

length-reversed_text :
    (ds : List ℕ) (text : Text.Text) → length (reversed_text ds text) ≡ length ds + length text
unfolding reversed_text
length-reversed_text [] text = omega arith
length-reversed_text (d ∷ ds) text = omega (arith, length-reversed_text ds (digit_char d ∷ text))

-- A number of 60 to 64 bits makes eight bytes, which are that number.
pub eight_bytes :
    (n : ℕ)
    → 1152921504606846976 ≤ n
    → n < 18446744073709551616
    → (length (from_hex (number_text 16 n)) ≡ 8) × (be_value 0 (from_hex (number_text 16 n)) ≡ n)
unfolding number_text
eight_bytes n h l =
    let more : (n == 0) ≡ false = ground (arith, h) in
    let sixteen : length (digits 16 n n) ≡ 16 = omega (
      arith,
      length-digits_le 16 n n (omega arith),
      length-digits_gt 15 n n (omega arith) (omega arith),
    ) in
    rw more (
      length-from_hex (digits 16 n n) [] (digits-IsDigit n n) (omega (arith, sixteen))
          ∙ omega (arith, sixteen, length-from_hex_le []),
      be_value-from_hex (digits 16 n n) [] (digits-IsDigit n n) (omega (arith, sixteen))
          ∙ (unfold from_hex be_value in value-digits n n (omega arith)),
    )

-- A smaller one makes fewer bytes.
pub fewer_bytes : (n : ℕ) → n < 1152921504606846976 → length (from_hex (number_text 16 n)) < 8
unfolding number_text
fewer_bytes n l = elim (Bool-cases (n == 0)) [
  | inl p ↦ rw p (omega (arith, length-from_hex_le (b'0' ∷ [])))
  | inr p ↦ rw p (
      omega (
        arith,
        length-from_hex_le (reversed_text (digits 16 n n) []),
        length-reversed_text (digits 16 n n) [],
        length-digits_le 15 n n (omega (arith, l)),
      ))
]
