-- ===== src/ScriptNum/Minimal.antt =====
-- The minimal encoding keeps the number, is minimal, and leaves a minimal element as it is.
use lotus_sdk.Common.{
  ℕ, ◌+◌, ◌*◌, ◌/◌, ◌^◌, ◌<◌, bit_and, bit_or, ◌≡◌, ◌≢◌, inl, inr, refl, sym, ap, ◌∙◌, true, ◌&&◌,
  [], ◌∷◌, All-reverse, ◌++◌, reverse, All, length, leb, ◌==◌, if◌then◌else◌, Bool-cases, arith,
}
use lotus_sdk.Common.Ints.{ℤ, pos, neg}
use mathlib.Core.List.{reverse-reverse, reverse-cons}
use lotus_sdk.Common.Bits.{IsByte, low_bits, sign_bit, set_sign, or_zero}
use native.Mathlib.Nat.{pow-suc}
use native.Mathlib.Decide.{ℕ_discrete}
use lotus_sdk.ScriptNum.{
  Buffer, le_value, top_byte, clear_sign, from_script_num_buffer, trim_zeros, minimize_rev,
  minimally_encode, is_minimal_rev, is_minimally_encoded,
}

le_value-append_one :
    (bs : Buffer) (t : ℕ) → le_value (bs ++ t ∷ []) ≡ le_value bs + t * 256 ^ length bs
unfolding le_value
le_value-append_one [] t = omega arith
le_value-append_one (b ∷ bs) t =
    omega (arith, le_value-append_one bs t, ap (λ (x : ℕ). t * x) (pow-suc 256 (length bs)))

top_byte-append_one : (bs : Buffer) (t : ℕ) → top_byte (bs ++ t ∷ []) ≡ t
unfolding top_byte
top_byte-append_one [] t = refl
top_byte-append_one (b ∷ []) t = refl
top_byte-append_one (b ∷ c ∷ bs) t = top_byte-append_one (c ∷ bs) t

clear_sign-append_one :
    (bs : Buffer) (t : ℕ) → clear_sign (bs ++ t ∷ []) ≡ bs ++ bit_and t 0x7f ∷ []
unfolding clear_sign
clear_sign-append_one [] t = refl
clear_sign-append_one (b ∷ []) t = refl
clear_sign-append_one (b ∷ c ∷ bs) t = ap (λ (x : Buffer). b ∷ x) (clear_sign-append_one (c ∷ bs) t)

-- The number that a top byte `t` makes of the bytes below it, given from the top.
unfoldable pub signed : ℕ → ℕ → ℤ
signed t v = if bit_and t 0x80 == 0 then pos v else neg (pos v)

pub from_script_num_buffer-top :
    (t : ℕ) (r : Buffer)
    → IsByte t
    → from_script_num_buffer (reverse (t ∷ r))
      ≡ signed t (le_value (reverse r) + bit_and t 0x7f * 256 ^ length (reverse r))
unfolding from_script_num_buffer signed
from_script_num_buffer-top t r h =
    rw
      (
        reverse-cons t r,
        top_byte-append_one (reverse r) t,
        clear_sign-append_one (reverse r) t,
        le_value-append_one (reverse r) t,
        le_value-append_one (reverse r) (bit_and t 0x7f),
      )
      (elim (ℕ_discrete (bit_and t 0x80) 0) [
        | yes z ↦ rw (z) (
            ap (λ (x : ℕ). pos (le_value (reverse r) + x * 256 ^ length (reverse r)))
              (omega (arith, low_bits t h, sign_bit t h)))
        | no z ↦ ground arith
      ])

le_value-reverse_zero : (r : Buffer) → le_value (reverse (0 ∷ r)) ≡ le_value (reverse r)
le_value-reverse_zero r = rw (reverse-cons 0 r, le_value-append_one (reverse r) 0) (omega arith)

signed-zero : (t : ℕ) → signed t 0 ≡ pos 0
unfolding signed neg
signed-zero t = ground arith

-- A byte without a sign bit, joined with the sign of `t`.
joined-IsByte :
    (b t v : ℕ)
    → IsByte t
    → bit_and t 0x7f ≡ 0
    → IsByte b
    → bit_and b 0x80 ≡ 0
    → IsByte (bit_or b t) × (bit_and (bit_or b t) 0x7f ≡ b) × (signed (bit_or b t) v ≡ signed t v)
joined-IsByte b t v h z hb zb = elim (ℕ_discrete t 0) [
  | yes e ↦
      rw (e, or_zero b hb) (hb, omega (arith, low_bits b hb, sign_bit b hb), unfold signed in rw zb)
  | no ne ↦
      let e : t ≡ 128 = omega (arith, low_bits t h) in
      let l : b < 128 = omega (arith, sign_bit b hb) in
      rw (e, set_sign b l)
        (
          omega arith,
          omega (arith, low_bits (b + 128) (omega arith)),
          unfold signed in
              rw (
                sign_bit (b + 128) (omega arith),
                (let d : (b + 128) / 128 ≡ 1 = omega arith in d),
              ),
        )
]

pub le_value-reverse_cons :
    (b : ℕ) (r : Buffer)
    → le_value (reverse (b ∷ r)) ≡ le_value (reverse r) + b * 256 ^ length (reverse r)
le_value-reverse_cons b r = rw (reverse-cons b r) (le_value-append_one (reverse r) b)

from_script_num_buffer-trim_zeros :
    (t : ℕ) (r : Buffer)
    → IsByte t
    → bit_and t 0x7f ≡ 0
    → All IsByte r
    → from_script_num_buffer (reverse (trim_zeros t r)) ≡ signed t (le_value (reverse r))
unfolding trim_zeros
from_script_num_buffer-trim_zeros t [] h z hr =
    unfold from_script_num_buffer le_value top_byte in sym (signed-zero t)
from_script_num_buffer-trim_zeros t (b ∷ r) h z hr = elim (ℕ_discrete b 0) [
  | yes e ↦ rw e (
      from_script_num_buffer-trim_zeros t r h z hr.1
      ∙ ap (signed t) (sym (le_value-reverse_zero r)))
  | no nz ↦ elim (ℕ_discrete (bit_and b 0x80) 0) [
    | yes zb ↦
        let j = joined-IsByte b t (le_value (reverse (b ∷ r))) h z hr.0 zb in
        let trimmed : trim_zeros t (b ∷ r) ≡ bit_or b t ∷ r = ground arith in
        rw trimmed (
          from_script_num_buffer-top (bit_or b t) r j.0 ∙ rw (j.1, ← le_value-reverse_cons b r) j.2)
    | no nb ↦
        let trimmed : trim_zeros t (b ∷ r) ≡ t ∷ b ∷ r = ground arith in
        rw trimmed (from_script_num_buffer-top t (b ∷ r) h ∙ rw z (ap (signed t) (omega arith)))
  ]
]

from_script_num_buffer-minimize_rev :
    (r : Buffer)
    → All IsByte r
    → from_script_num_buffer (reverse (minimize_rev r)) ≡ from_script_num_buffer (reverse r)
unfolding minimize_rev
from_script_num_buffer-minimize_rev [] h = refl
from_script_num_buffer-minimize_rev (t ∷ []) h = elim (ℕ_discrete (bit_and t 0x7f) 0) [
  | yes z ↦
      rw (z, from_script_num_buffer-top t [] h.0, z)
        (unfold from_script_num_buffer le_value top_byte in sym (signed-zero t))
  | no nz ↦ let kept : minimize_rev (t ∷ []) ≡ t ∷ [] = ground arith in rw kept
]
from_script_num_buffer-minimize_rev (t ∷ b ∷ r) h =
    elim (Bool-cases (bit_and t 0x7f == 0 && bit_and b 0x80 == 0)) [
      | inl e ↦
          let z : bit_and t 0x7f ≡ 0 = ground arith in
          rw e (
            from_script_num_buffer-trim_zeros t (b ∷ r) h.0 z h.1
            ∙ sym (from_script_num_buffer-top t (b ∷ r) h.0 ∙ rw z (ap (signed t) (omega arith))))
      | inr e ↦ rw e
    ]

-- The minimal encoding of an element of bytes stands for the same number.
pub from_script_num_buffer-minimally_encode :
    (buf : Buffer)
    → All IsByte buf
    → from_script_num_buffer (minimally_encode buf) ≡ from_script_num_buffer buf
unfolding minimally_encode
from_script_num_buffer-minimally_encode buf h =
    from_script_num_buffer-minimize_rev (reverse buf) (All-reverse IsByte buf h)
    ∙ ap from_script_num_buffer (reverse-reverse buf)

is_minimal_rev-trim_zeros :
    (t : ℕ) (r : Buffer)
    → IsByte t
    → bit_and t 0x7f ≡ 0
    → All IsByte r
    → is_minimal_rev (trim_zeros t r) ≡ true
unfolding is_minimal_rev trim_zeros
is_minimal_rev-trim_zeros t [] h z hr = refl
is_minimal_rev-trim_zeros t (b ∷ r) h z hr = elim (ℕ_discrete b 0) [
  | yes e ↦ rw e (is_minimal_rev-trim_zeros t r h z hr.1)
  | no nz ↦ elim (ℕ_discrete (bit_and b 0x80) 0) [
    | yes zb ↦
        let j = joined-IsByte b t 0 h z hr.0 zb in
        let trimmed : trim_zeros t (b ∷ r) ≡ bit_or b t ∷ r = ground arith in
        rw trimmed (joined_minimal (bit_or b t) r (rw j.1 nz))
    | no nb ↦ ground arith
  ]
]
  where
    joined_minimal : (c : ℕ) (s : Buffer) → bit_and c 0x7f ≢ 0 → is_minimal_rev (c ∷ s) ≡ true
    joined_minimal c [] n = ground arith
    joined_minimal c (d ∷ s) n = ground arith

is_minimal_rev-minimize_rev : (r : Buffer) → All IsByte r → is_minimal_rev (minimize_rev r) ≡ true
unfolding minimize_rev
is_minimal_rev-minimize_rev [] h = unfold is_minimal_rev in refl
is_minimal_rev-minimize_rev (t ∷ []) h = unfold is_minimal_rev in ground arith
is_minimal_rev-minimize_rev (t ∷ b ∷ r) h =
    elim (Bool-cases (bit_and t 0x7f == 0 && bit_and b 0x80 == 0)) [
      | inl e ↦ rw e (is_minimal_rev-trim_zeros t (b ∷ r) h.0 (ground arith) h.1)
      | inr e ↦ rw e (unfold is_minimal_rev in rw e)
    ]

minimize_rev-is_minimal : (r : Buffer) → is_minimal_rev r ≡ true → minimize_rev r ≡ r
unfolding minimize_rev is_minimal_rev
minimize_rev-is_minimal [] h = refl
minimize_rev-is_minimal (t ∷ []) h = ground arith
minimize_rev-is_minimal (t ∷ b ∷ r) h =
    elim (Bool-cases (bit_and t 0x7f == 0 && bit_and b 0x80 == 0)) [
      | inl e ↦ cc (rw e at h)
      | inr e ↦ rw e
    ]

-- The minimal encoding of bytes passes the test for minimality exactly when it is short enough.
is_minimally_encoded-minimally_encode :
    (buf : Buffer) (max : ℕ)
    → All IsByte buf
    → is_minimally_encoded (minimally_encode buf) max ≡ leb (length (minimally_encode buf)) max
unfolding minimally_encode is_minimally_encoded
is_minimally_encoded-minimally_encode buf max h =
    rw (reverse-reverse (minimize_rev (reverse buf)))
      (ground (arith, is_minimal_rev-minimize_rev (reverse buf) (All-reverse IsByte buf h)))

-- An element that passes the test for minimality is its own minimal encoding.
minimally_encode-is_minimally_encoded :
    (buf : Buffer) (max : ℕ) → is_minimally_encoded buf max ≡ true → minimally_encode buf ≡ buf
unfolding minimally_encode is_minimally_encoded
minimally_encode-is_minimally_encoded buf max e =
    ap reverse (minimize_rev-is_minimal (reverse buf) (ground arith)) ∙ reverse-reverse buf
