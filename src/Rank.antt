-- ===== src/Rank.antt =====
-- The RANK protocol (lib/rank/index.ts): scripts that rank a profile or a post, and comments on
-- them. Texts are lists of character codes, a comment is its UTF-8 bytes. `BigInt` of a text and the
-- UTF-8 decoder are parameters.
pub mod Text
pub mod Comments
pub mod Processor
pub mod Tests
pub mod Scripts
pub mod Targets
pub mod RoundTrip
pub mod Posts
use lotus_sdk.Common.{
  ℕ, ◌-◌, Bool, ◌&&◌, ◌||◌, Option, none, some, [], ◌∷◌, ◌++◌, length, replicate, leb, ◌==◌,
  if◌then◌else◌,
}
use lotus_sdk.Common.Ints.{ℤ}
use lotus_sdk.ScriptNum.{Buffer}
use lotus_sdk.Errors.{Result, ok, throws, missing_argument, invalid_data_type, ◌>>=◌}
use lotus_sdk.Rank.Text
use lotus_sdk.Rank.Text.{between, from_hex, big_int_hex, every, is_hex_char, is_name_char}

pub data Sentiment : Type 0 where
  neutral : Sentiment
  positive : Sentiment
  negative : Sentiment

pub data Platform : Type 0 where
  lotusia : Platform
  twitter : Platform

pub data Lokad : Type 0 where
  rank : Lokad
  rnkc : Lokad

unfoldable pub sentiment_op_code : Sentiment → ℕ
sentiment_op_code neutral = 0x60
sentiment_op_code positive = 0x51
sentiment_op_code negative = 0x00

-- `SCRIPT_CHUNK_SENTIMENT.get`
unfoldable pub to_sentiment : ℕ → Option Sentiment
to_sentiment byte =
    if byte == 0x60
    then some neutral
    else if byte == 0x51
    then some positive
    else if byte == 0x00
    then some negative
    else none

unfoldable pub platform_byte : Platform → ℕ
platform_byte lotusia = 0x00
platform_byte twitter = 0x01

-- `SCRIPT_CHUNK_PLATFORM.get`
unfoldable pub to_platform : ℕ → Option Platform
to_platform byte =
    if byte == 0x00 then some lotusia else if byte == 0x01 then some twitter else none

unfoldable pub lokad_prefix : Lokad → Buffer
lokad_prefix rank = 0x52 ∷ 0x41 ∷ 0x4e ∷ 0x4b ∷ []
lokad_prefix rnkc = 0x52 ∷ 0x4e ∷ 0x4b ∷ 0x43 ∷ []

-- `SCRIPT_CHUNK_LOKAD.get`
unfoldable pub to_lokad : ℕ → Option Lokad
to_lokad value =
    if value == 0x52414e4b then some rank else if value == 0x524e4b43 then some rnkc else none

-- PlatformConfiguration: the lengths, and the regular expressions.
unfoldable pub profile_id_len : Platform → ℕ
profile_id_len lotusia = 20
profile_id_len twitter = 16

unfoldable pub post_id_len : Platform → ℕ
post_id_len lotusia = 32
post_id_len twitter = 8

unfoldable pub is_profile_id : Platform → Text.Text → Bool
is_profile_id lotusia text = length text == 40 && every is_hex_char text
is_profile_id twitter text = leb 1 (length text) && leb (length text) 16 && every is_name_char text

unfoldable pub is_post_id : Platform → Text.Text → Bool
is_post_id lotusia text =
    length text == 64 && every (λ c. between b'0' b'9' c || between b'a' b'f' c) text
is_post_id twitter text = leb 1 (length text) && every (between b'0' b'9') text

-- `Buffer.alloc(len)` with bytes written at its end.
unfoldable pub padded : ℕ → Buffer → Buffer
padded len bytes = replicate (len - length bytes) 0 ++ bytes

unfoldable pub profile_id_bytes : Platform → Text.Text → Buffer
profile_id_bytes lotusia text = from_hex text
profile_id_bytes twitter text = text

unfoldable pub to_profile_id_buf : Platform → Text.Text → Option Buffer
to_profile_id_buf platform profile_id =
    if is_profile_id platform profile_id
    then some (padded (profile_id_len platform) (profile_id_bytes platform profile_id))
    else none

-- `toHex(toProfileIdBuf(platform, profileId)!)`, which throws for null.
unfoldable pub profile_id_part : Option Buffer → Result Buffer
profile_id_part none = throws invalid_data_type
profile_id_part (some bytes) = ok bytes

-- A text that is given and not empty.
unfoldable pub given : Option Text.Text → Option Text.Text
given (some (c ∷ text)) = some (c ∷ text)
given _ = none

unfoldable pub lacks : Text.Text → Bool
lacks text = length text == 0

module _ (big_int : Text.Text → Result ℤ) where
  unfoldable pub to_post_id_buf : Platform → Text.Text → Result Buffer
  to_post_id_buf lotusia post_id = ok (from_hex post_id)
  to_post_id_buf twitter post_id = do n ← big_int post_id; ok (from_hex (big_int_hex n))

  -- The push op for the length, and the post.
  unfoldable pub post_id_part : Platform → Option Text.Text → Result Buffer
  post_id_part platform none = ok []
  post_id_part platform (some post_id) = do
    bytes ← to_post_id_buf platform post_id
    ok (post_id_len platform ∷ bytes)

  -- What both kinds of scripts have behind the prefix and the sentiment.
  unfoldable pub target_part : Platform → Text.Text → Option Text.Text → Result Buffer
  target_part platform profile_id post_id = do
    profile ← profile_id_part (to_profile_id_buf platform profile_id)
    post ← post_id_part platform (given post_id)
    ok (1 ∷ platform_byte platform ∷ profile_id_len platform ∷ (profile ++ post))

  unfoldable pub to_script_rank :
      Sentiment → Platform → Text.Text → Option Text.Text → Result Buffer
  to_script_rank sentiment platform profile_id post_id =
      if lacks profile_id then throws missing_argument else (do
        target ← target_part platform profile_id post_id
        ok (0x6a ∷ 4 ∷ (lokad_prefix rank ++ (sentiment_op_code sentiment ∷ target))))
