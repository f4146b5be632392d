-- ===== src/Base58Check/Radix.antt =====
-- The digits of a number in base 58 or 256.
use mathlib.Core.List.{append_assoc, append-nil}
use lotus_sdk.Common.{
  ℕ, zero, suc, ◌+◌, ◌*◌, ◌/◌, ◌%◌, ◌<◌, ◌≤◌, ◌≡◌, refl, sym, ap, ◌∙◌, List, [], ◌∷◌, ◌++◌, map,
  replicate, All, false, arith, ◌==◌,
}
use lotus_sdk.Base58Check.{number, prepend_digits, leading}

-- The two bases.
pub data Radix : Type 0 where
  base58 : Radix
  base256 : Radix

abbrev pub radix : Radix → ℕ
radix base58 = 58
radix base256 = 256

abbrev pub IsBelow : Radix → ℕ → Type 0
IsBelow r d = d < radix r

div-step : (r : Radix) (n d : ℕ) → d < radix r → (n * radix r + d) / radix r ≡ n
div-step base58 n d h = omega (arith, h)
div-step base256 n d h = omega (arith, h)

mod-step : (r : Radix) (n d : ℕ) → d < radix r → (n * radix r + d) % radix r ≡ d
mod-step base58 n d h = omega (arith, h)
mod-step base256 n d h = omega (arith, h)

pub div-mod : (r : Radix) (n : ℕ) → n / radix r * radix r + n % radix r ≡ n
div-mod base58 n = omega arith
div-mod base256 n = omega arith

step_pos : (r : Radix) (n d : ℕ) → 0 < n → 0 < n * radix r + d
step_pos base58 n d h = omega (arith, h)
step_pos base256 n d h = omega (arith, h)

pub div_less : (r : Radix) (k : ℕ) → suc k / radix r ≤ k
div_less base58 k = omega arith
div_less base256 k = omega arith

pub mod_less : (r : Radix) (n : ℕ) → n % radix r < radix r
mod_less base58 n = omega arith
mod_less base256 n = omega arith

pub mod_pos : (r : Radix) (k : ℕ) → suc k / radix r ≡ 0 → 0 < suc k % radix r
mod_pos base58 k h = omega (arith, h)
mod_pos base256 k h = omega (arith, h)

-- The loop with symbols, and behind what is there.
pub prepend_digits-map :
    (symbol : ℕ → ℕ) (base fuel n : ℕ) (result : List ℕ)
    → prepend_digits symbol base fuel n (map symbol result)
      ≡ map symbol (prepend_digits (λ d. d) base fuel n result)
unfolding prepend_digits
prepend_digits-map symbol base fuel zero result = refl
prepend_digits-map symbol base zero (suc n) result = refl
prepend_digits-map symbol base (suc fuel) (suc n) result =
    prepend_digits-map symbol base fuel (suc n / base) ((suc n % base) ∷ result)

prepend_digits-append :
    (base fuel n : ℕ) (result more : List ℕ)
    → prepend_digits (λ d. d) base fuel n (result ++ more)
      ≡ prepend_digits (λ d. d) base fuel n result ++ more
unfolding prepend_digits
prepend_digits-append base fuel zero result more = refl
prepend_digits-append base zero (suc n) result more = refl
prepend_digits-append base (suc fuel) (suc n) result more =
    prepend_digits-append base fuel (suc n / base) ((suc n % base) ∷ result) more

-- Any two amounts of fuel that are as much as the number give the same digits.
pub prepend_digits-enough_fuel :
    (r : Radix) (f g n : ℕ) (result : List ℕ)
    → n ≤ f
    → n ≤ g
    → prepend_digits (λ d. d) (radix r) f n result ≡ prepend_digits (λ d. d) (radix r) g n result
unfolding prepend_digits
prepend_digits-enough_fuel r f g zero result h k = refl
prepend_digits-enough_fuel r zero g (suc n) result h k = absurd (omega (arith, h))
prepend_digits-enough_fuel r (suc f) zero (suc n) result h k = absurd (omega (arith, k))
prepend_digits-enough_fuel r (suc f) (suc g) (suc n) result h k =
    prepend_digits-enough_fuel r f g (suc n / radix r) ((suc n % radix r) ∷ result)
      (omega (arith, h, div_less r n)) (omega (arith, k, div_less r n))

abbrev pub digits_of : Radix → ℕ → List ℕ
digits_of r n = prepend_digits (λ d. d) (radix r) n n []

pub digits_of-step :
    (r : Radix) (n : ℕ) → 0 < n → digits_of r n ≡ digits_of r (n / radix r) ++ (n % radix r ∷ [])
digits_of-step r zero h = absurd (omega (arith, h))
digits_of-step r (suc k) h =
    let m = suc k / radix r in
    let d = suc k % radix r in
    let round : digits_of r (suc k) ≡ prepend_digits (λ (e : ℕ). e) (radix r) k m [] ++ (d ∷ []) =
      unfold prepend_digits in (prepend_digits-append (radix r) k m [] (d ∷ [])) in
    round
    ∙ ap (λ (ds : List ℕ). ds ++ (d ∷ []))
        (prepend_digits-enough_fuel r k m m [] (div_less r k) (omega arith))

-- Digits behind a number that is not 0 are its last digits.
digits_of-number :
    (r : Radix) (n : ℕ) (ds : List ℕ)
    → 0 < n
    → All (IsBelow r) ds
    → digits_of r (number (radix r) n ds) ≡ digits_of r n ++ ds
unfolding number
digits_of-number r n [] h b = sym (append-nil (digits_of r n))
digits_of-number r n (d ∷ ds) h b =
    let m = n * radix r + d in
    digits_of-number r m ds (step_pos r n d h) b.1
    ∙ ap (λ (front : List ℕ). front ++ ds)
        (digits_of-step r m (step_pos r n d h)
          ∙ (let quotient = div-step r n d b.0 in
              let remainder = mod-step r n d b.0 in rw (quotient, remainder) refl))
    ∙ append_assoc (digits_of r n) (d ∷ []) ds

below_base :
    (r : Radix) (d : ℕ) → suc d < radix r → (suc d / radix r ≡ 0) × (suc d % radix r ≡ suc d)
below_base base58 d h = (omega (arith, h), omega (arith, h))
below_base base256 d h = (omega (arith, h), omega (arith, h))

digits_of-single : (r : Radix) (d : ℕ) → suc d < radix r → digits_of r (suc d) ≡ suc d ∷ []
digits_of-single r d h =
    let (quotient, remainder) = below_base r d h in
    digits_of-step r (suc d) (omega arith)
    ∙ rw (quotient, remainder) (unfold prepend_digits in refl)

pub nonzero : (d : ℕ) → (suc d == 0) ≡ false
nonzero d = ground arith

-- Digits are the zeros that they begin with and the digits of their number.
pub zeros-digits_of :
    (r : Radix) (ds : List ℕ)
    → All (IsBelow r) ds
    → replicate (leading 0 ds) 0 ++ digits_of r (number (radix r) 0 ds) ≡ ds
unfolding number leading
zeros-digits_of r [] b = unfold prepend_digits in refl
zeros-digits_of r (zero ∷ ds) b =
    let nothing : 0 * radix r + 0 ≡ 0 = omega arith in
    ap (λ (n : ℕ). replicate (suc (leading 0 ds)) 0 ++ digits_of r (number (radix r) n ds)) nothing
    ∙ ap (λ (z : List ℕ). 0 ∷ z) (zeros-digits_of r ds b.1)
zeros-digits_of r (suc d ∷ ds) b =
    let other = nonzero d in
    let nothing : 0 * radix r + suc d ≡ suc d = omega arith in
    rw other (
      ap (λ (n : ℕ). digits_of r (number (radix r) n ds)) nothing
      ∙ digits_of-number r (suc d) ds (omega arith) b.1
      ∙ ap (λ (front : List ℕ). front ++ ds) (digits_of-single r d b.0))
