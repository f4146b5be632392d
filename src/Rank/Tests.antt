-- ===== src/Rank/Tests.antt =====
-- Runs of the scripts at fixed inputs, and the theorems applied to them.
use lotus_sdk.Common.{◌/◌, ℕ, ◌+◌, ◌-◌, ◌*◌, ◌≡◌, refl, none, some, List, [], ◌∷◌, arith}
use lotus_sdk.Common.Ints.{ℤ, pos}
use lotus_sdk.ScriptNum.{Buffer}
use lotus_sdk.Errors.{Result, ok, throws, invalid_comment, invalid_data_type}
use lotus_sdk.Rank.Text
use lotus_sdk.Rank.Text.{
  number_text, to_hex, digits, digit_char, reversed_text, every, between, is_name_char, is_hex_char,
}
use lotus_sdk.Rank.{
  positive, negative, lotusia, twitter, to_script_rank, is_profile_id, given, lacks, target_part,
  to_profile_id_buf, profile_id_part,
}
use lotus_sdk.Rank.Comments.{to_script_rnkc, is_invalid_post_id}
use lotus_sdk.Rank.Processor.{Doubles, Settings}
use lotus_sdk.Rank.Targets.{shown}
use lotus_sdk.Rank.RoundTrip.{read_rank, to_script_rank-read}
use lotus_sdk.Rank.Posts.{to_script_rank-small_post}
use lotus_sdk.Rank.Comments.RoundTrip.{read_rnkc, to_script_rnkc-read}

-- A `BigInt` for texts of decimal digits.
decimal : ℕ → Text.Text → ℕ
decimal n [] = n
decimal n (c ∷ text) = decimal (n * 10 + (c - 48)) text

abbrev big_int : Text.Text → Result ℤ
big_int text = ok (pos (decimal 0 text))

abbrev ascii : Buffer → Text.Text
ascii bytes = bytes

-- `alice`
abbrev alice : Text.Text
alice = 0x61 ∷ 0x6c ∷ 0x69 ∷ 0x63 ∷ 0x65 ∷ []

abbrev post_number : ℕ
post_number = 1234567890123456789

-- Numbers as they are: exact, for all of them.
abbrev doubles : Doubles
doubles = record { to_number = λ n. n; times = λ a b. a * b; floor_quotient = λ a b. a / b }

abbrev settings : Settings
settings = record { min_fee_rate = 1000000; min_data_length = 1 }

to_script_rank-read_example :
    (script : Buffer) × (to_script_rank big_int positive twitter alice
        (some (number_text 10 post_number))
      ≡ ok script)
    × (read_rank ascii script
        ≡ ok (
            some (record {
              sentiment = positive;
              platform = twitter;
              profile_id = shown twitter alice;
              post_id = some (number_text 10 post_number);
            })))
unfolding is_profile_id every is_name_char between decimal number_text reversed_text digits
    digit_char
to_script_rank-read_example =
    to_script_rank-read big_int ascii positive twitter alice (some (number_text 10 post_number))
      (λ bytes low. refl) refl ((post_number, refl, refl, omega arith, omega arith), omega arith)

to_script_rank-small_post_example :
    (script : Buffer) × (to_script_rank big_int negative twitter alice (some (0x32 ∷ 0x30 ∷ []))
      ≡ ok script)
    × (read_rank ascii script
        ≡ ok (
            some (record {
              sentiment = negative;
              platform = twitter;
              profile_id = alice;
              post_id = none;
            })))
unfolding is_profile_id every is_name_char between decimal
to_script_rank-small_post_example =
    to_script_rank-small_post big_int ascii negative alice (0x32 ∷ 0x30 ∷ []) 20 (λ bytes low. refl)
      refl (omega arith) refl (omega arith)

to_script_rnkc-read_example :
    (first : Buffer) × (more : List Buffer) × (to_script_rnkc big_int twitter alice none alice
      ≡ ok (first ∷ more))
    × (read_rnkc ascii doubles settings 7000000 first more
        ≡ ok (
            some (record {
              comment = alice;
              fee_rate = 1400000;
              in_reply_to_platform = twitter;
              in_reply_to_profile_id = some (shown twitter alice);
              in_reply_to_post_id = none;
            })))
unfolding is_profile_id every is_name_char between is_invalid_post_id given
to_script_rnkc-read_example =
    to_script_rnkc-read big_int ascii doubles settings 7000000 twitter alice none alice
      (λ bytes low. refl) (λ n h. refl, λ a b h. refl, λ a b h k l. refl) (omega arith) refl tt refl
      (omega arith) (omega arith) (omega arith) (omega arith)

short_profile :
    to_script_rank big_int negative lotusia (to_hex (0 ∷ 0xff ∷ [])) none ≡ throws invalid_data_type
unfolding to_script_rank target_part to_profile_id_buf is_profile_id every is_hex_char between lacks
    profile_id_part to_hex digit_char
short_profile = refl

rnkc_without_comment : to_script_rnkc big_int twitter alice none [] ≡ throws invalid_comment
unfolding to_script_rnkc lacks is_profile_id every is_name_char between is_invalid_post_id given
rnkc_without_comment = refl
