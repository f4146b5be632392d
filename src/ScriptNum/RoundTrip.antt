-- ===== src/ScriptNum/RoundTrip.antt =====
-- What `fromScriptNumBuffer` reads back from the bytes that `toScriptNumBuffer` wrote.
use lotus_sdk.Common.{
  ℕ, suc, ◌+◌, ◌*◌, ◌<◌, ◌≤◌, bit_and, ◌≡◌, ◌≢◌, ◌↔◌, refl, sym, ap, ◌∙◌, [], ◌∷◌, All, arith,
}
use lotus_sdk.Common.Ints.{pos, negsuc, neg}
use native.Mathlib.Decide.{dec_lt, ℕ_discrete}
use lotus_sdk.Common.Bits.{IsByte, low_bits, sign_bit, set_sign}
use lotus_sdk.ScriptNum.{
  Buffer, le_value, le_bytes, add_sign, to_script_num_buffer, top_byte, clear_sign,
  from_script_num_buffer,
}
use lotus_sdk.ScriptNum.Digits.{le_value-le_bytes, le_bytes-IsByte}

top_byte-cons : (b : ℕ) (bs : Buffer) → bs ≢ [] → top_byte (b ∷ bs) ≡ top_byte bs
unfolding top_byte
top_byte-cons b [] h = absurd (h refl)
top_byte-cons b (c ∷ bs) h = refl

clear_sign-cons : (b : ℕ) (bs : Buffer) → bs ≢ [] → clear_sign (b ∷ bs) ≡ b ∷ clear_sign bs
unfolding clear_sign
clear_sign-cons b [] h = absurd (h refl)
clear_sign-cons b (c ∷ bs) h = refl

add_sign-ne-nil : (bs : Buffer) → add_sign bs ≢ []
unfolding add_sign
add_sign-ne-nil [] = λ e. cc
add_sign-ne-nil (b ∷ []) = ground arith
add_sign-ne-nil (b ∷ c ∷ bs) = λ e. cc

top_byte-add_sign : (bs : Buffer) → All IsByte bs → bit_and (top_byte (add_sign bs)) 0x80 ≡ 128
unfolding add_sign top_byte
top_byte-add_sign [] h = refl
top_byte-add_sign (b ∷ []) h = ground (arith, sign_bit b h.0, set_sign b, sign_bit (b + 128))
top_byte-add_sign (b ∷ c ∷ bs) h =
    rw (top_byte-cons b (add_sign (c ∷ bs)) (add_sign-ne-nil (c ∷ bs)))
      (top_byte-add_sign (c ∷ bs) h.1)

le_value-clear_sign-add_sign :
    (bs : Buffer) → All IsByte bs → le_value (clear_sign (add_sign bs)) ≡ le_value bs
unfolding add_sign clear_sign le_value
le_value-clear_sign-add_sign [] h = refl
le_value-clear_sign-add_sign (b ∷ []) h =
    ground (arith, sign_bit b h.0, set_sign b, low_bits (b + 128))
le_value-clear_sign-add_sign (b ∷ c ∷ bs) h =
    rw (clear_sign-cons b (add_sign (c ∷ bs)) (add_sign-ne-nil (c ∷ bs)))
      (ap (λ (t : ℕ). b + 256 * t) (le_value-clear_sign-add_sign (c ∷ bs) h.1))

-- Bytes with the sign put on read back as the negative of the number that they stood for.
from_script_num_buffer-add_sign :
    (bs : Buffer) → All IsByte bs → from_script_num_buffer (add_sign bs) ≡ neg (pos (le_value bs))
unfolding from_script_num_buffer
from_script_num_buffer-add_sign bs h =
    rw (top_byte-add_sign bs h, le_value-clear_sign-add_sign bs h)

-- Every negative number survives the round trip through a stack element.
pub from_script_num_buffer-to_negsuc :
    (n : ℕ) → from_script_num_buffer (to_script_num_buffer (negsuc n)) ≡ negsuc n
unfolding to_script_num_buffer
from_script_num_buffer-to_negsuc n =
    from_script_num_buffer-add_sign (le_bytes (suc n)) (le_bytes-IsByte (suc n))
    ∙ rw le_value-le_bytes (unfold neg in ground arith)

top_byte-le-le_value : (bs : Buffer) → top_byte bs ≤ le_value bs
unfolding top_byte le_value
top_byte-le-le_value [] = omega arith
top_byte-le-le_value (b ∷ []) = omega arith
top_byte-le-le_value (b ∷ c ∷ bs) = omega (arith, top_byte-le-le_value (c ∷ bs))

bit_and-zero-table : bit_and 0 0x80 ≡ 0
bit_and-zero-table = refl

-- No negative reading is the number that the bytes stand for, unless that is 0.
neg-ne-pos : (m n : ℕ) → 0 < n → neg (pos m) ≢ pos n
unfolding neg
neg-ne-pos m n h = λ e. ground arith

top_byte-pos : (bs : Buffer) → bit_and (top_byte bs) 0x80 ≢ 0 → 0 < top_byte bs
top_byte-pos bs h = elim (dec_lt 0 (top_byte bs)) [
  | yes p ↦ p
  | no p ↦ let e : top_byte bs ≡ 0 = omega arith in absurd (h (rw e bit_and-zero-table))
]

pub from_script_num_buffer-low :
    (bs : Buffer) → bit_and (top_byte bs) 0x80 ≡ 0 → from_script_num_buffer bs ≡ pos (le_value bs)
unfolding from_script_num_buffer
from_script_num_buffer-low bs h = rw h

pub from_script_num_buffer-high :
    (bs : Buffer)
    → bit_and (top_byte bs) 0x80 ≢ 0
    → from_script_num_buffer bs ≡ neg (pos (le_value (clear_sign bs)))
unfolding from_script_num_buffer
from_script_num_buffer-high bs h = ground arith

-- A number that is not negative survives the round trip exactly when the top byte of its magnitude
-- has no sign bit.
pub from_script_num_buffer-to_pos :
    (n : ℕ)
    → (from_script_num_buffer (to_script_num_buffer (pos n)) ≡ pos n)
      ↔ (bit_and (top_byte (le_bytes n)) 0x80 ≡ 0)
unfolding to_script_num_buffer
from_script_num_buffer-to_pos n =
    let bs = le_bytes n in
    (
      λ e. elim (ℕ_discrete (bit_and (top_byte bs) 0x80) 0) [
        | yes z ↦ z
        | no z ↦ absurd (
            neg-ne-pos (le_value (clear_sign bs)) n
              (omega (arith, top_byte-pos bs z, top_byte-le-le_value bs, le_value-le_bytes n))
              (sym (from_script_num_buffer-high bs z) ∙ e))
      ],
      λ z. from_script_num_buffer-low bs z ∙ ap pos (le_value-le_bytes n),
    )
