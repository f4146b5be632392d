-- ===== src/Rank/Targets.antt =====
-- The bytes of a profile and of a post, read back.
use lotus_sdk.Common.{
  ℕ, zero, suc, ◌-◌, ◌<◌, ◌≤◌, ◌≡◌, refl, Bool, true, false, ◌&&◌, ◌||◌, some, [], ◌∷◌, ◌++◌,
  length, take, replicate, ltb, leb, ◌==◌, sym, ap, ◌∙◌, map, All, leb→le, length-append, arith,
  length-replicate, take-all,
}
use lotus_sdk.Common.Ints.{ℤ, pos}
use lotus_sdk.ScriptNum.{Buffer}
use lotus_sdk.Errors.{Result, ok}
use lotus_sdk.Interpreter.Numbers.{be_value}
use lotus_sdk.Rank.Text
use lotus_sdk.Rank.Text.{
  to_hex, from_hex, number_text, big_int_hex, every, between, is_hex_char, is_name_char,
}
use lotus_sdk.Rank.Text.Hex.{to_lower, from_hex-pairs, lower_text}
use lotus_sdk.Rank.Text.Digits.{eight_bytes}
use lotus_sdk.Rank.{
  Platform, lotusia, twitter, profile_id_len, post_id_len, is_profile_id, is_post_id, padded,
  profile_id_bytes, to_profile_id_buf, lacks, to_post_id_buf,
}
use lotus_sdk.Rank.Processor.{
  read_uint_be, without_nulls, profile_id_text, number_or_none, post_id_text,
}

pub and-true : (a b : Bool) → (a && b) ≡ true → (a ≡ true) × (b ≡ true)
and-true a b h = ground (arith, h)

-- The decoder returns what is ASCII.
abbrev pub DecodesAscii : (Buffer → Text.Text) → Type 0
DecodesAscii decode = (bytes : Buffer) → All (λ b. b < 128) bytes → decode bytes ≡ bytes

-- What a profile is read back as: hexadecimal digits come in lower case.
unfoldable pub shown : Platform → Text.Text → Text.Text
shown lotusia text = map to_lower text
shown twitter text = text

name_char : (c : ℕ) → is_name_char c ≡ true → (c < 128) × ((c == 0) ≡ false)
unfolding is_name_char between
name_char c h = (ground (arith, h), ground (arith, h))

names :
    (text : Text.Text)
    → every is_name_char text ≡ true
    → All (λ b. b < 128) text × (without_nulls text ≡ text)
unfolding every without_nulls
names [] h = (tt, refl)
names (c ∷ text) h =
    let (hc, ht) = and-true (is_name_char c) (every is_name_char text) h in
    let (low, other) = name_char c hc in
    let (lows, same) = names text ht in ((low, lows), rw (other, same) refl)

without_nulls-padding :
    (k : ℕ) (bytes : Buffer) → without_nulls (replicate k 0 ++ bytes) ≡ without_nulls bytes
unfolding without_nulls
without_nulls-padding zero bytes = refl
without_nulls-padding (suc k) bytes = without_nulls-padding k bytes

length-padded : (len : ℕ) (bytes : Buffer) → length bytes ≤ len → length (padded len bytes) ≡ len
unfolding padded
length-padded len bytes h = omega (
  arith,
  length-append (replicate (len - length bytes) 0) bytes,
  length-replicate {A = ℕ} (len - length bytes) 0,
  h,
)

-- The bytes of a valid profile have their length and are shown as the profile.
pub profile-bytes :
    (decode : Buffer → Text.Text) (p : Platform) (profile_id : Text.Text)
    → DecodesAscii decode
    → is_profile_id p profile_id ≡ true
    → (bytes : Buffer) × (to_profile_id_buf p profile_id ≡ some bytes)
      × (length bytes ≡ profile_id_len p)
      × (profile_id_text decode p bytes ≡ shown p profile_id)
unfolding to_profile_id_buf profile_id_len
profile-bytes decode lotusia profile_id ascii h =
    let (len, hex) =
      and-true (length profile_id == 40) (every is_hex_char profile_id)
        (unfold is_profile_id in h) in
    let (size, back) = from_hex-pairs profile_id hex (ground (arith, len)) in
    let twenty : length (from_hex profile_id) ≡ 20 = ground (arith, len, size) in
    let same : padded 20 (from_hex profile_id) ≡ from_hex profile_id =
      unfold padded in (rw twenty refl) in
    (
      padded 20 (from_hex profile_id),
      unfold profile_id_bytes in (rw h refl),
      ap length same ∙ twenty,
      unfold profile_id_text shown in (ap to_hex same ∙ back),
    )
profile-bytes decode twitter profile_id ascii h =
    let (sizes, named) =
      and-true (leb 1 (length profile_id) && leb (length profile_id) 16)
        (every is_name_char profile_id) (unfold is_profile_id in h) in
    let (_, fits) = and-true (leb 1 (length profile_id)) (leb (length profile_id) 16) sizes in
    let (lows, same) = names profile_id named in
    (
      padded 16 profile_id,
      unfold profile_id_bytes in (rw h refl),
      length-padded 16 profile_id (leb→le _ _ fits),
      unfold profile_id_text shown padded in
          (ap decode (without_nulls-padding (16 - length profile_id) profile_id ∙ same)
            ∙ ascii profile_id lows),
    )

pub profile-given :
    (p : Platform) (profile_id : Text.Text)
    → is_profile_id p profile_id ≡ true
    → lacks profile_id ≡ false
unfolding is_profile_id lacks every
profile-given lotusia [] h = cc
profile-given twitter [] h = cc
profile-given p (c ∷ text) h = ground arith

length-lower : (text : Text.Text) → length (map to_lower text) ≡ length text
length-lower [] = refl
length-lower (c ∷ text) = ap suc (length-lower text)

nonempty : (text : Text.Text) → 0 < length text → (c : ℕ) × (more : Text.Text) × (text ≡ c ∷ more)
nonempty [] h = absurd (omega (arith, h))
nonempty (c ∷ text) h = (c, text, refl)

pub shown-nonempty :
    (p : Platform) (profile_id : Text.Text)
    → is_profile_id p profile_id ≡ true
    → (c : ℕ) × (text : Text.Text) × (shown p profile_id ≡ c ∷ text)
unfolding shown is_profile_id
shown-nonempty lotusia profile_id h =
    let (len, _) = and-true (length profile_id == 40) (every is_hex_char profile_id) h in
    nonempty (map to_lower profile_id) (ground (arith, len, length-lower profile_id))
shown-nonempty twitter profile_id h =
    let (sizes, _) =
      and-true (leb 1 (length profile_id) && leb (length profile_id) 16)
        (every is_name_char profile_id) h in
    nonempty profile_id (ground (arith, sizes))

read_eight : (bytes : Buffer) → length bytes ≡ 8 → read_uint_be 8 bytes ≡ ok (be_value 0 bytes)
unfolding read_uint_be
read_eight bytes h =
    let enough : ltb (length bytes) 8 ≡ false = ground (arith, h) in
    rw (enough, take-all 8 bytes (omega (arith, h))) refl

-- A post whose bytes have the length that is announced: a hash in lower case, or a number of 60 to
-- 64 bits, which `BigInt` reads.
abbrev pub HasFullPost : (Text.Text → Result ℤ) → Platform → Text.Text → Type 0
HasFullPost big_int lotusia post_id = is_post_id lotusia post_id ≡ true
HasFullPost big_int twitter post_id =
    (n : ℕ) × (post_id ≡ number_text 10 n)
    × (big_int post_id ≡ ok (pos n))
    × (1152921504606846976 ≤ n)
    × (n < 18446744073709551616)

pub post-bytes :
    (big_int : Text.Text → Result ℤ) (p : Platform) (post_id : Text.Text)
    → HasFullPost big_int p post_id
    → (bytes : Buffer) × (to_post_id_buf big_int p post_id ≡ ok bytes)
      × (post_id_text p (take (post_id_len p) bytes) ≡ some post_id)
unfolding to_post_id_buf post_id_len post_id_text
post-bytes big_int lotusia post_id h =
    let (len, chars) =
      and-true (length post_id == 64)
        (every (λ c. between b'0' b'9' c || between b'a' b'f' c) post_id)
        (unfold is_post_id in h) in
    let (hex, low) = lower_text post_id chars in
    let (size, back) = from_hex-pairs post_id hex (ground (arith, len)) in
    let thirty_two : length (from_hex post_id) ≡ 32 = ground (arith, len, size) in
    (
      from_hex post_id,
      refl,
      ap some (ap to_hex (take-all 32 (from_hex post_id) (omega (arith, thirty_two))) ∙ back ∙ low),
    )
post-bytes big_int twitter post_id (n, text, read, low, high) =
    let (eight, value) = eight_bytes n low high in
    (
      from_hex (number_text 16 n),
      rw read (unfold big_int_hex in refl),
      ap number_or_none (
            ap (read_uint_be 8) (take-all 8 (from_hex (number_text 16 n)) (omega (arith, eight)))
            ∙ read_eight (from_hex (number_text 16 n)) eight
            ∙ ap ok value)
          ∙ (unfold number_or_none in ap some (sym text)),
    )
