-- ===== src/Script/Fuel.antt =====
-- The loop of `fromBuffer` ends by its test.
use lotus_sdk.Common.{
  ℕ, zero, suc, ◌≤◌, ◌≡◌, refl, List, [], ◌∷◌, Bool, true, false, ◌&&◌, length, ltb, ◌==◌,
  if◌then◌else◌, arith,
}
use lotus_sdk.Common.Lists.{length-drop}
use lotus_sdk.ScriptNum.{Buffer}
use lotus_sdk.Errors.{Result, ok, err, throws, ◌>>=◌}
use lotus_sdk.Script.{
  Chunk, read_uint8, read_uint16_le, read_uint32_le, read, read_push, read_chunk, from_buffer_loop,
}

read_push-length : (o n : ℕ) (input : Buffer) → length (read_push o n input).1 ≤ length input
unfolding read_push read
read_push-length o n input = omega (arith, length-drop n input)

-- What is left behind a read is no longer than what was there.
abbrev IsShorter {κ} : {Value : Type κ} → Buffer → Result (Value × Buffer) → Type 0
IsShorter input (ok (value, rest)) = length rest ≤ length input
IsShorter input (err e) = Unit
IsShorter input (throws t) = Unit

if-IsShorter {κ} :
    {Value : Type κ} (input : Buffer) (test : Bool) (a b : Result (Value × Buffer))
    → IsShorter input a
    → IsShorter input b
    → IsShorter input (if test then a else b)
if-IsShorter input true a b h k = h
if-IsShorter input false a b h k = k

-- A push whose length was read from the input.
sized-IsShorter :
    (o : ℕ) (input : Buffer) (r : Result (ℕ × Buffer))
    → IsShorter input r
    → IsShorter input (r >>= λ p. ok (read_push o p.0 p.1))
sized-IsShorter o input (ok (n, rest)) h = omega (arith, h, read_push-length o n rest)
sized-IsShorter o input (err e) h = tt
sized-IsShorter o input (throws t) h = tt

read_uint8-IsShorter : (input : Buffer) → IsShorter input (read_uint8 input)
unfolding read_uint8
read_uint8-IsShorter [] = tt
read_uint8-IsShorter (a ∷ input) = omega arith

read_uint16_le-IsShorter : (input : Buffer) → IsShorter input (read_uint16_le input)
unfolding read_uint16_le
read_uint16_le-IsShorter [] = tt
read_uint16_le-IsShorter (a ∷ []) = tt
read_uint16_le-IsShorter (a ∷ b ∷ input) = omega arith

read_uint32_le-IsShorter : (input : Buffer) → IsShorter input (read_uint32_le input)
unfolding read_uint32_le
read_uint32_le-IsShorter [] = tt
read_uint32_le-IsShorter (a ∷ []) = tt
read_uint32_le-IsShorter (a ∷ b ∷ []) = tt
read_uint32_le-IsShorter (a ∷ b ∷ c ∷ []) = tt
read_uint32_le-IsShorter (a ∷ b ∷ c ∷ d ∷ input) = omega arith

read_chunk-IsShorter : (o : ℕ) (input : Buffer) → IsShorter input (read_chunk o input)
unfolding read_chunk
read_chunk-IsShorter o input =
    if-IsShorter input (ltb 0 o && ltb o 76) _ _ (read_push-length o o input) (
      if-IsShorter input (o == 76) _ _
        (sized-IsShorter o input (read_uint8 input) (read_uint8-IsShorter input))
        (if-IsShorter input (o == 77) _ _
          (sized-IsShorter o input (read_uint16_le input) (read_uint16_le-IsShorter input))
          (if-IsShorter input (o == 78) _ _
            (sized-IsShorter o input (read_uint32_le input) (read_uint32_le-IsShorter input))
            (omega arith))))

-- A round followed by the same results gives the same result.
same_rounds :
    (input : Buffer) (r : Result (Chunk × Buffer)) (k l : Buffer → Result (List Chunk))
    → IsShorter input r
    → ((after : Buffer) → length after ≤ length input → k after ≡ l after)
    → (r >>= λ p. k p.1 >>= λ cs. ok (p.0 ∷ cs)) ≡ (r >>= λ p. l p.1 >>= λ cs. ok (p.0 ∷ cs))
same_rounds input (ok (c, after)) k l h e = rw (e after h) refl
same_rounds input (err x) k l h e = refl
same_rounds input (throws t) k l h e = refl

-- Two amounts of fuel that are at least the number of bytes give the same result: the loop ends by
-- its test, never for want of fuel.
pub from_buffer_loop-enough_fuel :
    (f g : ℕ) (input : Buffer)
    → length input ≤ f
    → length input ≤ g
    → from_buffer_loop f input ≡ from_buffer_loop g input
unfolding from_buffer_loop
from_buffer_loop-enough_fuel zero zero input hf hg = refl
from_buffer_loop-enough_fuel f g [] hf hg = refl
from_buffer_loop-enough_fuel zero g (o ∷ rest) hf hg = absurd (omega arith)
from_buffer_loop-enough_fuel f zero (o ∷ rest) hf hg = absurd (omega arith)
from_buffer_loop-enough_fuel (suc f) (suc g) (o ∷ rest) hf hg =
    same_rounds rest (read_chunk o rest) (λ after. from_buffer_loop f after)
      (λ after. from_buffer_loop g after) (read_chunk-IsShorter o rest)
      λ after h. from_buffer_loop-enough_fuel f g after (omega (arith, h)) (omega (arith, h))
