-- ===== src/Rank/RoundTrip.antt =====
-- A script that ranks is read back.
use lotus_sdk.Common.{
  ◌<◌, ◌≡◌, refl, true, false, Option, none, some, [], ◌∷◌, length, take, drop, ap, ◌∙◌, arith,
}
use lotus_sdk.Common.Ints.{ℤ}
use lotus_sdk.ScriptNum.{Buffer}
use lotus_sdk.Errors.{Result, ok, ◌>>=◌}
use lotus_sdk.Rank.Text
use lotus_sdk.Rank.Text.{
  to_hex, from_hex, number_text, big_int_hex, every, between, is_hex_char, is_name_char,
}
use lotus_sdk.Rank.{
  Sentiment, Platform, lotusia, twitter, lokad_prefix, post_id_len, is_profile_id, profile_id_part,
  given, lacks, post_id_part, target_part, to_script_rank,
}
use lotus_sdk.Rank.Processor.{
  read_uint_be, new_processor, number_or_none, post_id_text, OutputRank, process_script_rank,
}
use lotus_sdk.Rank.Scripts.{rank_script, new_processor-rank, rank_script-read}
use lotus_sdk.Rank.Targets.{
  DecodesAscii, shown, profile-bytes, profile-given, shown-nonempty, HasFullPost, post-bytes,
}

-- `new ScriptProcessor(script).processScriptRANK()`
unfoldable pub read_rank : (Buffer → Text.Text) → Buffer → Result (Option OutputRank)
read_rank decode script = do p ← new_processor script; process_script_rank decode p

-- A post that is not given, or in full.
abbrev pub HasPost : (Text.Text → Result ℤ) → Platform → Option Text.Text → Type 0
HasPost big_int p none = Unit {0}
HasPost big_int p (some post_id) = HasFullPost big_int p post_id × (0 < length post_id)

pub post_part-read :
    (big_int : Text.Text → Result ℤ) (p : Platform) (post_id : Option Text.Text)
    → HasPost big_int p post_id
    → (post : Buffer) × (post_id_part big_int p (given post_id) ≡ ok post)
      × (given (post_id_text p (take (post_id_len p) (drop 1 post))) ≡ post_id)
unfolding given post_id_part
post_part-read big_int lotusia none h = ([], refl, unfold post_id_text to_hex post_id_len in refl)
post_part-read big_int twitter none h =
    ([], refl, unfold post_id_text number_or_none read_uint_be post_id_len in refl)
post_part-read big_int p (some []) h = absurd (omega (arith, h.1))
post_part-read big_int p (some (c ∷ text)) h =
    let (bytes, written, back) = post-bytes big_int p (c ∷ text) h.0 in
    (post_id_len p ∷ bytes, rw written refl, ap given back)

-- Where the decoder returns what is ASCII: a script that ranks a valid profile, with no post or
-- with a post in full, is written without an error and read back with the same sentiment, platform,
-- profile and post. The digits of a lotusia profile come back in lower case.
pub to_script_rank-read :
    (big_int : Text.Text → Result ℤ) (decode : Buffer → Text.Text) (sentiment : Sentiment)
    (platform : Platform) (profile_id : Text.Text) (post_id : Option Text.Text)
    → DecodesAscii decode
    → is_profile_id platform profile_id ≡ true
    → HasPost big_int platform post_id
    → (script : Buffer) × (to_script_rank big_int sentiment platform profile_id post_id ≡ ok script)
      × (read_rank decode script
          ≡ ok (
              some (record {
                sentiment = sentiment;
                platform = platform;
                profile_id = shown platform profile_id;
                post_id = post_id;
              })))
unfolding to_script_rank target_part read_rank
to_script_rank-read big_int decode sentiment platform profile_id post_id ascii valid has_post =
    let (profile, profile_made, profile_size, profile_shown) =
      profile-bytes decode platform profile_id ascii valid in
    let (post, post_written, post_back) = post_part-read big_int platform post_id has_post in
    let (c, text, some_text) = shown-nonempty platform profile_id valid in
    let given_profile : lacks profile_id ≡ false = profile-given platform profile_id valid in
    (
      rank_script sentiment platform profile post,
      rw (given_profile, profile_made, post_written) (unfold profile_id_part lokad_prefix in refl),
      rw (new_processor-rank sentiment platform profile post) (
          rank_script-read decode sentiment platform profile post profile_size
            (profile_shown ∙ some_text)
          ∙ cc),
    )
