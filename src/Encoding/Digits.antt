-- ===== src/Encoding/Digits.antt =====
-- The little-endian bytes of a number of a fixed size.
use lotus_sdk.Common.{
  ℕ, zero, suc, ◌+◌, ◌-◌, ◌*◌, ◌/◌, ◌%◌, ◌^◌, ◌<◌, ◌≤◌, ◌≡◌, inl, inr, refl, sym, ap, ◌∙◌, [], ◌∷◌,
  ◌++◌, reverse, All, length, take, drop, replicate, ltb, ◌==◌, if◌then◌else◌, ==_iff, Bool-cases,
  arith, drop-length-append, take-append-drop, length-drop, length-reverse, reverse-replicate,
}
use mathlib.Core.List.{reverse-append, reverse-reverse, append-nil}
use lotus_sdk.Common.Bits.{IsByte}
use lotus_sdk.ScriptNum.Digits.{le_value-le_bytes, le_bytes-IsByte}
use native.Mathlib.Numerals.{unary_clauses}
use lotus_sdk.ScriptNum.{Buffer, le_value, le_bytes}
use lotus_sdk.Encoding.{le_digits, bn_to_buffer, to_array_like}

pub length-le_digits : (size n : ℕ) → length (le_digits size n) ≡ size
unfolding le_digits
length-le_digits zero n = refl
length-le_digits (suc size) n = ap suc (length-le_digits size (n / 256))

pub le_value-le_digits : (size n : ℕ) → n < 256 ^ size → le_value (le_digits size n) ≡ n
unfolding le_digits le_value
le_value-le_digits zero n h = omega arith
le_value-le_digits (suc size) n h = omega (arith, le_value-le_digits size (n / 256) (omega arith))

-- The first `size` bytes, with zeros behind them where there are fewer.
abbrev fit : ℕ → Buffer → Buffer
fit size bytes = take size bytes ++ replicate (size - length bytes) 0

le_digits-zero : (size : ℕ) → le_digits size 0 ≡ replicate size 0
unfolding le_digits
le_digits-zero zero = refl
le_digits-zero (suc size) = ap (λ (t : Buffer). 0 ∷ t) (le_digits-zero size)

le_digits-le_value :
    (size : ℕ) (bytes : Buffer)
    → All IsByte bytes
    → fit size bytes ≡ le_digits size (le_value bytes)
unfolding le_digits le_value
le_digits-le_value zero bytes h = grind (arith)
le_digits-le_value (suc size) [] h =
    simp unary_clauses (ap (λ (t : Buffer). 0 ∷ t) (sym (le_digits-zero size)))
le_digits-le_value (suc size) (b ∷ bytes) h =
    let low : (b + 256 * le_value bytes) % 256 ≡ b = omega (arith, h.0) in
    let high : (b + 256 * le_value bytes) / 256 ≡ le_value bytes = omega (arith, h.0) in
    let same : suc size - suc (length bytes) ≡ size - length bytes = omega arith in
    rw (low, high, same) (ap (λ (t : Buffer). b ∷ t) (le_digits-le_value size bytes h.1))

-- Trimming from the front, and padding at the front, of the bytes in the other order.
module _ (size : ℕ) (bytes : Buffer) where
  trimmed : reverse (drop (length bytes - size) (reverse bytes)) ≡ take size bytes
  trimmed = rw (
    whole,
    ← count,
    drop-length-append (reverse (drop size bytes)) (reverse (take size bytes)),
    reverse-reverse (take size bytes),
  )
    where
      whole : reverse bytes ≡ reverse (drop size bytes) ++ reverse (take size bytes)
      whole =
          rw (← reverse-append (take size bytes) (drop size bytes), take-append-drop size bytes)
            refl

      count : length (reverse (drop size bytes)) ≡ length bytes - size
      count = rw (length-reverse (drop size bytes)) (length-drop size bytes)

  padded :
      reverse (replicate (size - length bytes) 0 ++ reverse bytes)
      ≡ bytes ++ replicate (size - length bytes) 0
  padded = rw (
    reverse-append (replicate (size - length bytes) 0) (reverse bytes),
    reverse-reverse bytes,
    reverse-replicate {A = ℕ} (size - length bytes) 0,
  )

  fit-long : size ≤ length bytes → fit size bytes ≡ take size bytes
  fit-long h =
      let none_left : size - length bytes ≡ 0 = omega arith in
      rw none_left (append-nil (take size bytes))

take-long : (size : ℕ) (bytes : Buffer) → length bytes ≤ size → take size bytes ≡ bytes
take-long zero [] h = refl
take-long (suc size) [] h = refl
take-long zero (b ∷ bytes) h = absurd (omega arith)
take-long (suc size) (b ∷ bytes) h = ap (λ (t : Buffer). b ∷ t) (take-long size bytes (omega arith))

-- `toBuffer` with a size, where bn.js gives the bytes in the other order.
resized : ℕ → Buffer → Buffer
resized size buf =
    if length buf == size
    then buf
    else if ltb size (length buf)
    then drop (length buf - size) buf
    else replicate (size - length buf) 0 ++ buf

reverse-resized :
    (size : ℕ) (bytes : Buffer) → reverse (resized size (reverse bytes)) ≡ fit size bytes
unfolding resized
reverse-resized size bytes = rw (length-reverse bytes) (
    ground (
      arith,
      trimmed size bytes,
      padded size bytes,
      fit-long size bytes,
      take-long size bytes,
      reverse-reverse bytes,
    ))

-- The bytes that `toBuffer({ size })` gives are, backwards, the lowest `size` little-endian digits
-- of the number, for every number.
pub reverse-bn_to_buffer :
    (size n : ℕ) → 0 < size → reverse (bn_to_buffer size n) ≡ le_digits size n
unfolding bn_to_buffer to_array_like le_value resized
reverse-bn_to_buffer size n h = elim (Bool-cases (n == 0)) [
  | inl z ↦ rw z (
      reverse-resized size (0 ∷ [])
      ∙ le_digits-le_value size (0 ∷ []) (omega arith, tt)
      ∙ ap (le_digits size) (sym ((==_iff n 0).0 z)))
  | inr z ↦ rw z (
      reverse-resized size (le_bytes n)
      ∙ le_digits-le_value size (le_bytes n) (le_bytes-IsByte n)
      ∙ ap (le_digits size) (le_value-le_bytes n))
]
