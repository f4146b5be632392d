-- ===== src/Rank/Comments/RoundTrip.antt =====
-- A comment is read back from its scripts.
use lotus_sdk.Common.{
  ℕ, ◌*◌, ◌/◌, ◌<◌, ◌≤◌, ◌≡◌, refl, true, false, ◌||◌, Option, some, List, [], ◌∷◌, ◌++◌, length,
  take, drop, ltb, ◌==◌, inl, inr, ap, ◌∙◌, Bool-cases, arith,
}
use lotus_sdk.Common.Ints.{ℤ}
use lotus_sdk.ScriptNum.{Buffer}
use lotus_sdk.Errors.{Result, ok, ◌>>=◌}
use lotus_sdk.Script.{read_uint8}
use lotus_sdk.Interpreter.Numbers.{be_value}
use lotus_sdk.Rank.Text
use lotus_sdk.Rank.Text.{
  to_hex, from_hex, number_text, big_int_hex, every, between, is_hex_char, is_name_char,
}
use lotus_sdk.Rank.{
  Platform, platform_byte, lokad_prefix, to_lokad, profile_id_len, post_id_len, is_profile_id,
  profile_id_part, given, lacks, target_part, rnkc,
}
use lotus_sdk.Rank.Processor.{
  ScriptProcessor, subarray, read_uint_be, new_processor, add_script, platform_offset,
  profile_id_offset, or_null, byte_of, process_platform, profile_id_text, process_profile_id,
  post_id_text, process_post_id, Settings, Doubles, OutputRnkc, reply_post, reply,
  process_script_rnkc,
}
use lotus_sdk.Rank.Scripts.{to_platform-byte, given-some, profile_id_at-read, post_id_at-read}
use lotus_sdk.Rank.RoundTrip.{HasPost, post_part-read}
use lotus_sdk.Rank.Targets.{DecodesAscii, shown, profile-bytes, profile-given, shown-nonempty}
use lotus_sdk.Rank.Comments.Joined.{comment_scripts-read}
use lotus_sdk.Rank.Comments.{
  max_op_return_data, comment_script, comment_scripts, is_invalid_post_id, to_script_rnkc,
}

-- The calls of a reader: `new ScriptProcessor(first)`, `addScript` of each other script, and
-- `processScriptRNKC`.
unfoldable pub add_scripts : List Buffer → ScriptProcessor → Result ScriptProcessor
add_scripts [] p = ok p
add_scripts (script ∷ scripts) p = do (q, _) ← add_script script p; add_scripts scripts q

unfoldable pub read_rnkc :
    (Buffer → Text.Text)
    → Doubles
    → Settings
    → ℕ
    → Buffer
    → List Buffer
    → Result (Option OutputRnkc)
read_rnkc decode doubles settings burned_sats first more = do
  p ← new_processor first
  q ← add_scripts more p
  process_script_rnkc decode doubles settings burned_sats q

-- A script with the fields of a reply, and its processor.
abbrev rnkc_script : Platform → Buffer → Buffer
rnkc_script platform rest =
    0x6a
    ∷ 4
    ∷ 0x52
    ∷ 0x4e
    ∷ 0x4b
    ∷ 0x43
    ∷ 1
    ∷ platform_byte platform
    ∷ profile_id_len platform
    ∷ rest

abbrev rnkc_processor : Platform → Buffer → List Buffer → ScriptProcessor
rnkc_processor platform rest scripts = record {
  script = rnkc_script platform rest;
  lokad = some rnkc;
  supplemental_scripts = scripts;
}

new_processor-rnkc :
    (platform : Platform) (rest : Buffer)
    → new_processor (rnkc_script platform rest) ≡ ok (rnkc_processor platform rest [])
unfolding new_processor read_uint_be subarray be_value to_lokad
new_processor-rnkc platform rest = refl

add_scripts-comment :
    (platform : Platform) (rest comment : Buffer)
    → add_scripts (comment_scripts comment) (rnkc_processor platform rest [])
      ≡ ok (rnkc_processor platform rest (comment_scripts comment))
unfolding add_scripts add_script comment_scripts comment_script read_uint8
add_scripts-comment platform rest comment =
    elim (Bool-cases (ltb max_op_return_data (length comment))) [
      | inl p ↦ rw p refl
      | inr p ↦ rw p refl
    ]

platform-read :
    (platform : Platform) (rest : Buffer) (scripts : List Buffer)
    → process_platform (rnkc_processor platform rest scripts) ≡ ok (some platform)
unfolding process_platform platform_offset byte_of subarray read_uint8
platform-read platform rest scripts = ap ok (to_platform-byte platform)

few_scripts :
    (comment : Buffer)
    → (length (comment_scripts comment) == 0 || ltb 2 (length (comment_scripts comment))) ≡ false
unfolding comment_scripts
few_scripts comment = elim (Bool-cases (ltb max_op_return_data (length comment))) [
  | inl p ↦ rw p refl
  | inr p ↦ rw p refl
]

-- The profile and the post of a reply.
target-read :
    (decode : Buffer → Text.Text) (platform : Platform) (profile post : Buffer)
    (scripts : List Buffer) (profile_id : Text.Text) (post_id : Option Text.Text)
    → length profile ≡ profile_id_len platform
    → profile_id_text decode platform profile ≡ profile_id
    → 0 < length profile_id
    → given (post_id_text platform (take (post_id_len platform) (drop 1 post))) ≡ post_id
    → (p : ScriptProcessor) → p ≡ rnkc_processor platform (profile ++ post) scripts
    → (given (process_profile_id decode platform p) ≡ some profile_id)
      × (reply_post decode platform p (some profile_id) ≡ post_id)
unfolding reply_post process_profile_id process_post_id profile_id_offset
target-read decode platform profile post scripts [] post_id size text full told p e =
    absurd (omega (arith, full))
target-read decode platform profile post scripts (c ∷ profile_id) post_id size text full told p e =
    let front = take 9 (rnkc_script platform (profile ++ post)) in
    (
      rw e (
          ap given
            (profile_id_at-read decode front platform profile post 9 refl size ∙ ap some text)
          ∙ given-some c profile_id),
      rw e (ap given (post_id_at-read front platform profile post 9 refl size) ∙ told),
    )

-- Doubles compute exactly with whole numbers below 2^53, and the floor of a quotient is exact.
abbrev pub IsExact : Doubles → Type 0
IsExact doubles =
    ((n : ℕ) → n < 9007199254740992 → doubles.to_number n ≡ n)
    × ((a b : ℕ) → a * b < 9007199254740992 → doubles.times a b ≡ a * b)
    × ((a b : ℕ)
        → a < 9007199254740992
        → 0 < b
        → b < 9007199254740992
        → doubles.floor_quotient a b ≡ a / b)

-- What the reader makes of the scripts of a reply.
reply-read :
    (decode : Buffer → Text.Text) (doubles : Doubles) (settings : Settings) (burned_sats : ℕ)
    (platform : Platform) (profile post comment : Buffer) (profile_id : Text.Text)
    (post_id : Option Text.Text)
    → IsExact doubles
    → burned_sats < 9007199254740992
    → 0 < length comment
    → settings.min_data_length ≤ length comment
    → settings.min_fee_rate * length comment ≤ burned_sats
    → length comment ≤ max_op_return_data * 2
    → length profile ≡ profile_id_len platform
    → profile_id_text decode platform profile ≡ profile_id
    → 0 < length profile_id
    → given (post_id_text platform (take (post_id_len platform) (drop 1 post))) ≡ post_id
    → read_rnkc decode doubles settings burned_sats
        (rnkc_script platform (profile ++ post))
        (comment_scripts comment)
      ≡ ok (
          some (record {
            comment = comment;
            fee_rate = burned_sats / length comment;
            in_reply_to_platform = platform;
            in_reply_to_profile_id = some profile_id;
            in_reply_to_post_id = post_id;
          }))
unfolding read_rnkc process_script_rnkc or_null reply
reply-read decode doubles settings burned_sats platform profile post comment profile_id post_id
      (number, times, quotient) small some_bytes long paid fits size text full told =
    let rest = profile ++ post in
    let scripts = comment_scripts comment in
    let enough : ltb (length comment) settings.min_data_length ≡ false = ground (arith, long) in
    let same = number burned_sats small in
    let product = times settings.min_fee_rate (length comment) (omega (arith, paid, small)) in
    let rate = quotient burned_sats (length comment) small some_bytes (omega (arith, fits)) in
    let burned : ltb burned_sats (settings.min_fee_rate * length comment) ≡ false =
      ground (arith, paid) in
    let (profile_read, post_read) =
      target-read decode platform profile post scripts profile_id post_id size text full told
        (rnkc_processor platform rest scripts) refl in
    rw
      (
        new_processor-rnkc platform rest,
        add_scripts-comment platform rest comment,
        few_scripts comment,
        platform-read platform rest scripts,
        comment_scripts-read comment fits,
        same,
        enough,
        product,
        burned,
        rate,
        profile_read,
        post_read,
      )
      refl

-- A comment of 1 to 440 bytes on a valid profile, and on no post or on a post in full, is written
-- without an error. Where it is at least as long as the settings want, at least the wanted rate and
-- less than 2^53 is burned for it, the decoder returns what is ASCII and doubles are exact below
-- 2^53, its scripts are read back as the reply with the same comment, platform, profile and post,
-- and with the rate. The digits of a lotusia profile come back in lower case.
pub to_script_rnkc-read :
    (big_int : Text.Text → Result ℤ) (decode : Buffer → Text.Text) (doubles : Doubles)
    (settings : Settings) (burned_sats : ℕ) (platform : Platform) (profile_id : Text.Text)
    (post_id : Option Text.Text) (comment : Buffer)
    → DecodesAscii decode
    → IsExact doubles
    → burned_sats < 9007199254740992
    → is_profile_id platform profile_id ≡ true
    → HasPost big_int platform post_id
    → is_invalid_post_id platform (given post_id) ≡ false
    → 0 < length comment
    → length comment ≤ 440
    → settings.min_data_length ≤ length comment
    → settings.min_fee_rate * length comment ≤ burned_sats
    → (first : Buffer) × (more : List Buffer) × (to_script_rnkc big_int platform profile_id post_id
          comment
        ≡ ok (first ∷ more))
      × (read_rnkc decode doubles settings burned_sats first more
          ≡ ok (
              some (record {
                comment = comment;
                fee_rate = burned_sats / length comment;
                in_reply_to_platform = platform;
                in_reply_to_profile_id = some (shown platform profile_id);
                in_reply_to_post_id = post_id;
              })))
unfolding to_script_rnkc target_part lokad_prefix
to_script_rnkc-read big_int decode doubles settings burned_sats platform profile_id post_id comment
      ascii exact small valid has_post allowed some_bytes fits long paid =
    let (profile, profile_made, profile_size, profile_shown) =
      profile-bytes decode platform profile_id ascii valid in
    let (post, post_written, post_back) = post_part-read big_int platform post_id has_post in
    let (c, text, some_text) = shown-nonempty platform profile_id valid in
    let full : 0 < length (shown platform profile_id) = rw some_text (omega arith) in
    let given_profile : lacks profile_id ≡ false = profile-given platform profile_id valid in
    let sizes : (ltb (length comment) 1 || ltb (max_op_return_data * 2) (length comment)) ≡ false =
      ground (arith, some_bytes, fits) in
    (
      rnkc_script platform (profile ++ post),
      comment_scripts comment,
      rw (given_profile, valid, allowed, sizes, profile_made, post_written)
          (unfold profile_id_part in refl),
      reply-read decode doubles settings burned_sats platform profile post comment
          (shown platform profile_id) post_id exact small some_bytes long paid fits profile_size
          profile_shown full post_back,
    )
