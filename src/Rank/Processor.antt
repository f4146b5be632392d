-- ===== src/Rank/Processor.antt =====
-- `ScriptProcessor`, which reads the scripts.
use lotus_sdk.Common.{
  ℕ, ◌+◌, ◌-◌, Bool, true, false, ◌||◌, Option, none, some, List, [], ◌∷◌, ◌++◌, length, take, drop,
  ltb, ◌==◌, if◌then◌else◌,
}
use lotus_sdk.ScriptNum.{Buffer}
use lotus_sdk.Errors.{Result, ok, throws, err, range_error, ◌>>=◌}
use lotus_sdk.Script.{read_uint8}
use lotus_sdk.Interpreter.Numbers.{be_value}
use lotus_sdk.Rank.Text
use lotus_sdk.Rank.Text.{to_hex, number_text}
use lotus_sdk.Rank.{
  Sentiment, to_sentiment, Platform, lotusia, twitter, to_platform, Lokad, rank, rnkc, to_lokad,
  profile_id_len, post_id_len, given,
}
use lotus_sdk.Rank.Comments.{max_op_return_data}

-- `chunks` is that of the prefix.
pub record ScriptProcessor : Type 0 where
  pub script : Buffer
  pub lokad : Option Lokad
  pub supplemental_scripts : List Buffer

-- `subarray(from, to)`
unfoldable pub subarray : ℕ → ℕ → Buffer → Buffer
subarray from to bytes = take (to - from) (drop from bytes)

-- `readUInt32BE` and `readBigUInt64BE`, of so many bytes.
unfoldable pub read_uint_be : ℕ → Buffer → Result ℕ
read_uint_be size bytes =
    if ltb (length bytes) size then throws range_error else ok (be_value 0 (take size bytes))

unfoldable pub new_processor : Buffer → Result ScriptProcessor
new_processor script = do
  value ← read_uint_be 4 (subarray 2 6 script)
  ok (record { script = script; lokad = to_lokad value; supplemental_scripts = [] })

-- `addScript` of a Buffer; the first byte of an empty one cannot be read.
unfoldable pub add_script : Buffer → ScriptProcessor → Result (ScriptProcessor × Bool)
add_script script p = do
  (op, _) ← read_uint8 script
  ok (
      if op == 0x6a
      then (record p { supplemental_scripts = p.supplemental_scripts ++ (script ∷ []) }, true)
      else (p, false))

-- Where the chunks stand. A script without a known prefix has none.
unfoldable pub sentiment_offset : Option Lokad → Option ℕ
sentiment_offset (some rank) = some 6
sentiment_offset _ = none

unfoldable pub platform_offset : Option Lokad → Option ℕ
platform_offset (some rank) = some 8
platform_offset (some rnkc) = some 7
platform_offset none = none

unfoldable pub profile_id_offset : Option Lokad → Option ℕ
profile_id_offset (some rank) = some 10
profile_id_offset (some rnkc) = some 9
profile_id_offset none = none

-- `if (!value) { return null }`
unfoldable pub or_null {ℓ} :
    {A B : Type ℓ} → Result (Option A) → (A → Result (Option B)) → Result (Option B)
or_null (ok (some a)) next = next a
or_null (ok none) next = ok none
or_null (throws t) next = throws t
or_null (err e) next = err e

unfoldable pub byte_of {ℓ} : {A : Type ℓ} → (ℕ → Option A) → Option ℕ → Buffer → Result (Option A)
byte_of to none script = ok none
byte_of to (some offset) script = do
  (byte, _) ← read_uint8 (subarray offset (offset + 1) script)
  ok (to byte)

unfoldable pub process_sentiment : ScriptProcessor → Result (Option Sentiment)
process_sentiment p = byte_of to_sentiment (sentiment_offset p.lokad) p.script

unfoldable pub process_platform : ScriptProcessor → Result (Option Platform)
process_platform p = byte_of to_platform (platform_offset p.lokad) p.script

-- `toProfileIdUTF8` without the decoder.
unfoldable pub without_nulls : Buffer → Buffer
without_nulls [] = []
without_nulls (b ∷ bytes) = let rest = without_nulls bytes in if b == 0 then rest else b ∷ rest

module _ (decode_utf8 : Buffer → Text.Text) where
  unfoldable pub profile_id_text : Platform → Buffer → Text.Text
  profile_id_text lotusia bytes = to_hex bytes
  profile_id_text twitter bytes = decode_utf8 (without_nulls bytes)

  unfoldable pub profile_id_at : Platform → Option ℕ → Buffer → Option Text.Text
  profile_id_at platform none script = none
  profile_id_at platform (some offset) script =
      let bytes = subarray offset (offset + profile_id_len platform) script in
      if ltb (length bytes) (profile_id_len platform)
      then none
      else some (profile_id_text platform bytes)

  unfoldable pub process_profile_id : Platform → ScriptProcessor → Option Text.Text
  process_profile_id platform p = profile_id_at platform (profile_id_offset p.lokad) p.script

-- `undefined` where reading the number throws.
unfoldable pub number_or_none : Result ℕ → Option Text.Text
number_or_none (ok n) = some (number_text 10 n)
number_or_none _ = none

unfoldable pub post_id_text : Platform → Buffer → Option Text.Text
post_id_text lotusia bytes = some (to_hex bytes)
post_id_text twitter bytes = number_or_none (read_uint_be 8 bytes)

unfoldable pub post_id_at : Platform → Option ℕ → Buffer → Option Text.Text
post_id_at platform none script = none
post_id_at platform (some offset) script =
    let start = offset + profile_id_len platform + 1 in
    post_id_text platform (subarray start (start + post_id_len platform) script)

unfoldable pub process_post_id : Platform → ScriptProcessor → Option Text.Text
process_post_id platform p = post_id_at platform (profile_id_offset p.lokad) p.script

-- The loop of `processComment`, with the bytes so far.
unfoldable pub process_comment : Buffer → List Buffer → Result Buffer
process_comment comment [] = ok comment
process_comment comment (script ∷ scripts) = do
  (op, _) ← read_uint8 (drop 1 script)
  if op == 0x4c
      then (do
        (size, _) ← read_uint8 (drop 2 script)
        if ltb max_op_return_data size
            then ok comment
            else process_comment (comment ++ subarray 3 (3 + size) script) scripts)
      else ok comment

pub record OutputRank : Type 0 where
  pub sentiment : Sentiment
  pub platform : Platform
  pub profile_id : Text.Text
  pub post_id : Option Text.Text

pub record OutputRnkc : Type 0 where
  pub comment : Buffer
  pub fee_rate : ℕ
  pub in_reply_to_platform : Platform
  pub in_reply_to_profile_id : Option Text.Text
  pub in_reply_to_post_id : Option Text.Text

-- What the code computes with doubles: `Number` of a BigInt, the product of two numbers, and
-- `Math.floor` of their quotient.
pub record Doubles : Type 0 where
  pub to_number : ℕ → ℕ
  pub times : ℕ → ℕ → ℕ
  pub floor_quotient : ℕ → ℕ → ℕ

-- The settings `RNKC`, which are whole numbers here.
pub record Settings : Type 0 where
  pub min_fee_rate : ℕ
  pub min_data_length : ℕ

module _ (decode_utf8 : Buffer → Text.Text) where
  unfoldable pub process_script_rank : ScriptProcessor → Result (Option OutputRank)
  process_script_rank p = or_null (process_sentiment p) (λ sentiment.
      or_null (process_platform p) (λ platform.
        or_null (ok (given (process_profile_id decode_utf8 platform p))) (λ profile_id. ok (
          some (record {
            sentiment = sentiment;
            platform = platform;
            profile_id = profile_id;
            post_id = given (process_post_id platform p);
          })))))

  -- A post is only looked for where there is a profile.
  unfoldable pub reply_post : Platform → ScriptProcessor → Option Text.Text → Option Text.Text
  reply_post platform p none = none
  reply_post platform p (some profile_id) = given (process_post_id platform p)

  -- The checks of the comment, and the result. No division by 0 is made: a comment without bytes is
  -- refused where the shortest is longer, and otherwise its rate is not a number.
  unfoldable pub reply :
      Doubles → Settings → ℕ → Platform → ScriptProcessor → Buffer → Result (Option OutputRnkc)
  reply doubles settings burned_sats platform p comment =
      if ltb (length comment) settings.min_data_length
      then ok none
      else if ltb burned_sats (doubles.times settings.min_fee_rate (length comment))
      then ok none
      else ok (
          some (record {
            comment = comment;
            fee_rate = doubles.floor_quotient burned_sats (length comment);
            in_reply_to_platform = platform;
            in_reply_to_profile_id = given (process_profile_id decode_utf8 platform p);
            in_reply_to_post_id =
                reply_post platform p (given (process_profile_id decode_utf8 platform p));
          }))

  -- `burnedSats` is made a number first.
  unfoldable pub process_script_rnkc :
      Doubles → Settings → ℕ → ScriptProcessor → Result (Option OutputRnkc)
  process_script_rnkc doubles settings burned_sats p =
      if length p.supplemental_scripts == 0 || ltb 2 (length p.supplemental_scripts)
      then ok none
      else or_null (process_platform p) (λ platform. do
        comment ← process_comment [] p.supplemental_scripts
        reply doubles settings (doubles.to_number burned_sats) platform p comment)
