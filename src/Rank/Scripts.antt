-- ===== src/Rank/Scripts.antt =====
-- The bytes of a script that ranks, and what is read of them.
use lotus_sdk.Common.{
  ℕ, suc, ◌+◌, ◌-◌, ◌≡◌, refl, false, some, [], ◌∷◌, ◌++◌, length, take, drop, ltb, ap, ◌∙◌,
  length-append, arith, take-length-append, drop-length-append,
}
use lotus_sdk.ScriptNum.{Buffer}
use lotus_sdk.Errors.{ok}
use mathlib.Core.List.{append_assoc}
use lotus_sdk.Script.{read_uint8}
use lotus_sdk.Interpreter.Numbers.{be_value}
use lotus_sdk.Rank.Text
use lotus_sdk.Rank.Text.{
  to_hex, from_hex, number_text, big_int_hex, every, between, is_hex_char, is_name_char,
}
use lotus_sdk.Rank.{
  Sentiment, neutral, positive, negative, sentiment_op_code, to_sentiment, Platform, lotusia,
  twitter, platform_byte, to_platform, rank, to_lokad, profile_id_len, post_id_len, given,
}
use lotus_sdk.Rank.Processor.{
  ScriptProcessor, subarray, read_uint_be, new_processor, sentiment_offset, platform_offset,
  profile_id_offset, or_null, byte_of, process_sentiment, process_platform, profile_id_text,
  profile_id_at, process_profile_id, post_id_text, post_id_at, process_post_id, process_script_rank,
}

pub to_sentiment-op_code : (s : Sentiment) → to_sentiment (sentiment_op_code s) ≡ some s
unfolding to_sentiment sentiment_op_code
to_sentiment-op_code neutral = refl
to_sentiment-op_code positive = refl
to_sentiment-op_code negative = refl

pub to_platform-byte : (p : Platform) → to_platform (platform_byte p) ≡ some p
unfolding to_platform platform_byte
to_platform-byte lotusia = refl
to_platform-byte twitter = refl

behind :
    (front back : Buffer) (n m : ℕ) → length front ≡ n → drop (n + m) (front ++ back) ≡ drop m back
behind [] back n m h = ap (λ (k : ℕ). drop k back) (omega (arith, h))
behind (x ∷ front) back n m h =
    let step : n + m ≡ suc (length front + m) = omega (arith, h) in
    rw step (behind front back (length front) m refl)

pub subarray-between :
    (front part back : Buffer) (from to : ℕ)
    → length front ≡ from
    → to ≡ from + length part
    → subarray from to (front ++ (part ++ back)) ≡ part
unfolding subarray
subarray-between front part back from to h k =
    let size : to - from ≡ length part = omega (arith, h, k) in
    rw (size, ← h, drop-length-append front (part ++ back)) (take-length-append part back)

pub subarray-behind :
    (front back : Buffer) (from to len : ℕ)
    → from ≡ length front + 1
    → to ≡ from + len
    → subarray from to (front ++ back) ≡ take len (drop 1 back)
unfolding subarray
subarray-behind front back from to len h k =
    let size : to - from ≡ len = omega (arith, k) in
    rw (size, h, behind front back (length front) 1 refl) refl

-- The bytes of a script that ranks.
abbrev pub rank_script : Sentiment → Platform → Buffer → Buffer → Buffer
rank_script sentiment platform profile post =
    0x6a
    ∷ 4
    ∷ 0x52
    ∷ 0x41
    ∷ 0x4e
    ∷ 0x4b
    ∷ sentiment_op_code sentiment
    ∷ 1
    ∷ platform_byte platform
    ∷ profile_id_len platform
    ∷ (profile ++ post)

abbrev pub rank_processor : Buffer → ScriptProcessor
rank_processor script = record { script = script; lokad = some rank; supplemental_scripts = [] }

pub new_processor-rank :
    (s : Sentiment) (p : Platform) (profile post : Buffer)
    → new_processor (rank_script s p profile post)
      ≡ ok (rank_processor (rank_script s p profile post))
unfolding new_processor read_uint_be subarray be_value to_lokad
new_processor-rank s p profile post = refl

sentiment-read :
    (s : Sentiment) (p : Platform) (profile post : Buffer)
    → process_sentiment (rank_processor (rank_script s p profile post)) ≡ ok (some s)
unfolding process_sentiment sentiment_offset byte_of subarray read_uint8
sentiment-read s p profile post = ap ok (to_sentiment-op_code s)

platform-read :
    (s : Sentiment) (p : Platform) (profile post : Buffer)
    → process_platform (rank_processor (rank_script s p profile post)) ≡ ok (some p)
unfolding process_platform platform_offset byte_of subarray read_uint8
platform-read s p profile post = ap ok (to_platform-byte p)

-- The profile and the post of a script whose chunks before them are as long as their offset.
pub profile_id_at-read :
    (decode : Buffer → Text.Text) (front : Buffer) (p : Platform) (profile post : Buffer)
    (offset : ℕ)
    → length front ≡ offset
    → length profile ≡ profile_id_len p
    → profile_id_at decode p (some offset) (front ++ (profile ++ post))
      ≡ some (profile_id_text decode p profile)
unfolding profile_id_at
profile_id_at-read decode front p profile post offset before h =
    let part : subarray offset (offset + profile_id_len p) (front ++ (profile ++ post)) ≡ profile =
      subarray-between front profile post offset (offset + profile_id_len p) before
        (omega (arith, h)) in
    let whole : ltb (length profile) (profile_id_len p) ≡ false = ground (arith, h) in
    rw (part, whole) refl

pub post_id_at-read :
    (front : Buffer) (p : Platform) (profile post : Buffer) (offset : ℕ)
    → length front ≡ offset
    → length profile ≡ profile_id_len p
    → post_id_at p (some offset) (front ++ (profile ++ post))
      ≡ post_id_text p (take (post_id_len p) (drop 1 post))
unfolding post_id_at
post_id_at-read front p profile post offset before h =
    let start = offset + profile_id_len p + 1 in
    rw (← append_assoc front profile post) (
      ap (post_id_text p) (
        subarray-behind (front ++ profile) post start (start + post_id_len p) (post_id_len p)
          (omega (arith, before, h, length-append front profile)) refl))

pub given-some : (c : ℕ) (text : Text.Text) → given (some (c ∷ text)) ≡ some (c ∷ text)
unfolding given
given-some c text = refl

-- What a script that ranks is read as.
pub rank_script-read :
    (decode : Buffer → Text.Text) (s : Sentiment) (p : Platform) (profile post : Buffer) {c : ℕ}
    {text : Text.Text}
    → length profile ≡ profile_id_len p
    → profile_id_text decode p profile ≡ c ∷ text
    → process_script_rank decode (rank_processor (rank_script s p profile post))
      ≡ ok (
          some (record {
            sentiment = s;
            platform = p;
            profile_id = c ∷ text;
            post_id = given (post_id_text p (take (post_id_len p) (drop 1 post)));
          }))
unfolding process_script_rank or_null process_profile_id process_post_id profile_id_offset
rank_script-read decode s p profile post {c} {text} h e =
    let named =
      ap given (
        profile_id_at-read decode (take 10 (rank_script s p profile post)) p profile post 10 refl h
        ∙ ap some e)
      ∙ given-some c text in
    let told = post_id_at-read (take 10 (rank_script s p profile post)) p profile post 10 refl h in
    rw (sentiment-read s p profile post, platform-read s p profile post, named, told) refl
