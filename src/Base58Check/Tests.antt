-- ===== src/Base58Check/Tests.antt =====
-- Runs at fixed inputs, and the theorems applied to them.
use lotus_sdk.Common.{ℕ, zero, suc, ◌<◌, ◌≡◌, refl, [], ◌∷◌, replicate, All, arith}
use lotus_sdk.ScriptNum.{Buffer}
use lotus_sdk.Script.{same_bytes}
use lotus_sdk.Rank.Text
use lotus_sdk.Errors.{ok, throws, invalid_character, invalid_checksum}
use lotus_sdk.Base58Check.{
  letter_in, next, index_in, number, prepend_digits, leading, base58_encode, index_or_throw,
  read_number, base58_decode, checksum, valid_checksum, encode, decode,
}
use lotus_sdk.Base58Check.RoundTrip.{decode-encode, encode-decoded}

-- `11233QC4`
base58_of_zeros :
    base58_encode (0 ∷ 0 ∷ 0x28 ∷ 0x7f ∷ 0xb4 ∷ 0xcd ∷ [])
    ≡ 0x31 ∷ 0x31 ∷ 0x32 ∷ 0x33 ∷ 0x33 ∷ 0x51 ∷ 0x43 ∷ 0x34 ∷ []
unfolding base58_encode number prepend_digits leading letter_in
base58_of_zeros = refl

-- `0` is not in the alphabet.
base58_of_other : base58_decode (0x30 ∷ []) ≡ throws invalid_character
unfolding base58_decode read_number index_or_throw index_in next
base58_of_other = refl

abbrev toy : Buffer → Buffer
toy bytes = replicate 32 7

sevens : (n : ℕ) → All (λ b. b < 256) (replicate n 7)
sevens zero = tt
sevens (suc n) = (omega arith, sevens n)

decode-encode_example : decode toy (encode toy (0 ∷ 255 ∷ [])) ≡ ok (0 ∷ 255 ∷ [])
decode-encode_example =
    decode-encode toy (0 ∷ 255 ∷ []) (λ bytes. (refl, sevens 32)) (omega arith, (omega arith, tt))

-- `1VmoxwGJ`
abbrev encoded : Text.Text
encoded = 0x31 ∷ 0x56 ∷ 0x6d ∷ 0x6f ∷ 0x78 ∷ 0x77 ∷ 0x47 ∷ 0x4a ∷ []

encode-decoded_example : encode toy (0 ∷ 255 ∷ []) ≡ encoded
unfolding decode valid_checksum checksum base58_decode read_number index_or_throw index_in next
    number prepend_digits leading same_bytes
encode-decoded_example = encode-decoded toy encoded (0 ∷ 255 ∷ []) refl

-- Its last letter changed.
wrong_letter :
    decode toy (0x31 ∷ 0x56 ∷ 0x6d ∷ 0x6f ∷ 0x78 ∷ 0x77 ∷ 0x47 ∷ 0x4b ∷ [])
    ≡ throws invalid_checksum
unfolding decode valid_checksum checksum base58_decode read_number index_or_throw index_in next
    number prepend_digits leading same_bytes
wrong_letter = refl
