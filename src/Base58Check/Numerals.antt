-- ===== src/Base58Check/Numerals.antt =====
-- Zeros with the digits of a number behind them, in base 58 or 256.
use lotus_sdk.Common.{
  ℕ, zero, suc, ◌+◌, ◌*◌, ◌/◌, ◌%◌, ◌<◌, ◌≤◌, ◌≡◌, refl, ap, ◌∙◌, List, [], ◌∷◌, ◌++◌, replicate,
  All, length, ◌⊎◌, All-append, false, arith, inl, inr, ◌==◌, length-append,
}
use lotus_sdk.Base58Check.{number, prepend_digits, leading}
use lotus_sdk.Base58Check.Radix.{
  Radix, radix, IsBelow, digits_of, div_less, mod_less, mod_pos, div-mod, digits_of-step, nonzero,
}

zero_or_pos : (n : ℕ) → (n ≡ 0) ⊎ (0 < n)
zero_or_pos zero = inl refl
zero_or_pos (suc n) = inr (omega arith)

-- The digits of a number make it, and do not begin with 0.
number-append :
    (base n : ℕ) (ds : List ℕ) (d : ℕ)
    → number base n (ds ++ (d ∷ [])) ≡ number base n ds * base + d
unfolding number
number-append base n [] d = refl
number-append base n (e ∷ ds) d = number-append base (n * base + e) ds d

number-digits_of_le : (r : Radix) (k n : ℕ) → n ≤ k → number (radix r) 0 (digits_of r n) ≡ n
unfolding number
number-digits_of_le r k zero h = unfold prepend_digits in refl
number-digits_of_le r zero (suc n) h = absurd (omega (arith, h))
number-digits_of_le r (suc k) (suc n) h =
    let m = suc n / radix r in
    let d = suc n % radix r in
    ap (number (radix r) 0) (digits_of-step r (suc n) (omega arith))
    ∙ number-append (radix r) 0 (digits_of r m) d
    ∙ ap (λ (q : ℕ). q * radix r + d) (number-digits_of_le r k m (omega (arith, h, div_less r n)))
    ∙ div-mod r (suc n)

leading-append : (ds more : List ℕ) → 0 < length ds → leading 0 ds ≡ 0 → leading 0 (ds ++ more) ≡ 0
unfolding leading
leading-append [] more h l = absurd (omega (arith, h))
leading-append (zero ∷ ds) more h l = absurd (omega (arith, l))
leading-append (suc d ∷ ds) more h l = let other = nonzero d in rw other refl

digits_of-nonzero :
    (r : Radix) (k n : ℕ)
    → n ≤ k
    → 0 < n
    → (leading 0 (digits_of r n) ≡ 0) × (0 < length (digits_of r n))
digits_of-nonzero r k zero h p = absurd (omega (arith, p))
digits_of-nonzero r zero (suc n) h p = absurd (omega (arith, h))
digits_of-nonzero r (suc k) (suc n) h p =
    let m = suc n / radix r in
    let d = suc n % radix r in
    let shape = digits_of-step r (suc n) p in
    let size = ap length shape ∙ length-append (digits_of r m) (d ∷ []) in
    elim (zero_or_pos m) [
      | inl none ↦
          let single : digits_of r (suc n) ≡ d ∷ [] =
            shape ∙ rw none (unfold prepend_digits in refl) in
          let other : (d == 0) ≡ false = ground (arith, mod_pos r n none) in
          (ap (leading 0) single ∙ (unfold leading in rw other refl), omega (arith, size))
      | inr more ↦
          let (first, some_digits) =
            digits_of-nonzero r k m (omega (arith, h, div_less r n)) more in
          (
            ap (leading 0) shape ∙ leading-append (digits_of r m) (d ∷ []) some_digits first,
            omega (arith, size),
          )
    ]

number-zeros : (base z : ℕ) (ds : List ℕ) → number base 0 (replicate z 0 ++ ds) ≡ number base 0 ds
unfolding number
number-zeros base zero ds = refl
number-zeros base (suc z) ds =
    let nothing : 0 * base + 0 ≡ 0 = omega arith in
    ap (λ (n : ℕ). number base n (replicate z 0 ++ ds)) nothing ∙ number-zeros base z ds

leading-zeros : (z : ℕ) (ds : List ℕ) → leading 0 (replicate z 0 ++ ds) ≡ z + leading 0 ds
unfolding leading
leading-zeros zero ds = omega arith
leading-zeros (suc z) ds = omega (arith, leading-zeros z ds)

leading-digits_of : (r : Radix) (n : ℕ) → leading 0 (digits_of r n) ≡ 0
leading-digits_of r zero = unfold prepend_digits leading in refl
leading-digits_of r (suc n) = (digits_of-nonzero r (suc n) (suc n) (omega arith) (omega arith)).0

-- Zeros and the digits of a number are taken apart again.
pub leading-zeros_digits_of : (r : Radix) (z n : ℕ) → leading 0 (replicate z 0 ++ digits_of r n) ≡ z
leading-zeros_digits_of r z n =
    omega (arith, leading-zeros z (digits_of r n), leading-digits_of r n)

pub number-zeros_digits_of :
    (r : Radix) (z n : ℕ) → number (radix r) 0 (replicate z 0 ++ digits_of r n) ≡ n
number-zeros_digits_of r z n =
    number-zeros (radix r) z (digits_of r n) ∙ number-digits_of_le r n n (omega arith)

-- All digits are below the base.
digits_of-IsBelow_le : (r : Radix) (k n : ℕ) → n ≤ k → All (IsBelow r) (digits_of r n)
digits_of-IsBelow_le r k zero h = unfold prepend_digits in tt
digits_of-IsBelow_le r zero (suc n) h = absurd (omega (arith, h))
digits_of-IsBelow_le r (suc k) (suc n) h =
    let m = suc n / radix r in
    let all =
      All-append (IsBelow r) (digits_of r m) (suc n % radix r ∷ []) (mod_less r (suc n), tt)
        (digits_of-IsBelow_le r k m (omega (arith, h, div_less r n))) in
    rw (digits_of-step r (suc n) (omega arith)) all

pub digits_of-IsBelow : (r : Radix) (n : ℕ) → All (IsBelow r) (digits_of r n)
digits_of-IsBelow r n = digits_of-IsBelow_le r n n (omega arith)
