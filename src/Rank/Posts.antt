-- ===== src/Rank/Posts.antt =====
-- Posts whose number is small.
use lotus_sdk.Common.{
  ℕ, ◌<◌, ◌≡◌, refl, true, none, some, [], ◌∷◌, length, take, drop, ltb, ◌∙◌, arith, length-take,
}
use lotus_sdk.Common.Ints.{ℤ, pos}
use lotus_sdk.ScriptNum.{Buffer}
use lotus_sdk.Errors.{Result, ok, throws, range_error}
use lotus_sdk.Rank.Text
use lotus_sdk.Rank.Text.{
  to_hex, from_hex, number_text, big_int_hex, every, between, is_hex_char, is_name_char,
}
use lotus_sdk.Rank.{
  Sentiment, twitter, lokad_prefix, post_id_len, is_profile_id, profile_id_part, given,
  to_post_id_buf, post_id_part, target_part, to_script_rank,
}
use lotus_sdk.Rank.Processor.{read_uint_be, number_or_none, post_id_text}
use lotus_sdk.Rank.Text.Digits.{fewer_bytes}
use lotus_sdk.Rank.Scripts.{rank_script, new_processor-rank, rank_script-read}
use lotus_sdk.Rank.Targets.{DecodesAscii, shown, profile-bytes, profile-given, shown-nonempty}
use lotus_sdk.Rank.RoundTrip.{read_rank}

short_refused :
    (bytes : Buffer) → length bytes < 8 → read_uint_be 8 (take 8 bytes) ≡ throws range_error
unfolding read_uint_be
short_refused bytes h =
    let short : ltb (length (take 8 bytes)) 8 ≡ true = ground (arith, h, length-take 8 bytes) in
    rw short refl

-- A twitter post whose number is below 2^60 makes fewer bytes than are announced: where the decoder
-- returns what is ASCII, a script that ranks it under a valid profile is written without an error,
-- and read back as one that ranks the profile alone.
pub to_script_rank-small_post :
    (big_int : Text.Text → Result ℤ) (decode : Buffer → Text.Text) (sentiment : Sentiment)
    (profile_id post_id : Text.Text) (n : ℕ)
    → DecodesAscii decode
    → is_profile_id twitter profile_id ≡ true
    → 0 < length post_id
    → big_int post_id ≡ ok (pos n)
    → n < 1152921504606846976
    → (script : Buffer) × (to_script_rank big_int sentiment twitter profile_id (some post_id)
        ≡ ok script)
      × (read_rank decode script
          ≡ ok (
              some (record {
                sentiment = sentiment;
                platform = twitter;
                profile_id = profile_id;
                post_id = none;
              })))
unfolding to_script_rank target_part read_rank
to_script_rank-small_post big_int decode sentiment profile_id [] n ascii valid some_post reads
      small =
    absurd (omega (arith, some_post))
to_script_rank-small_post big_int decode sentiment profile_id (d ∷ post) n ascii valid some_post
      reads small =
    let (profile, profile_made, profile_size, profile_shown) =
      profile-bytes decode twitter profile_id ascii valid in
    let (c, text, some_text) = shown-nonempty twitter profile_id valid in
    let given_profile = profile-given twitter profile_id valid in
    let bytes = from_hex (number_text 16 n) in
    let written : post_id_part big_int twitter (given (some (d ∷ post))) ≡ ok (8 ∷ bytes) =
      unfold post_id_part given to_post_id_buf big_int_hex post_id_len in (rw reads refl) in
    let lost : given (post_id_text twitter (take (post_id_len twitter) (drop 1 (8 ∷ bytes))))
        ≡ none =
      unfold post_id_text number_or_none post_id_len given in
      (rw (short_refused bytes (fewer_bytes n small)) refl) in
    let same : shown twitter profile_id ≡ profile_id = unfold shown in refl in
    (
      rank_script sentiment twitter profile (8 ∷ bytes),
      rw (given_profile, profile_made, written) (unfold profile_id_part lokad_prefix in refl),
      rw (new_processor-rank sentiment twitter profile (8 ∷ bytes)) (
          rank_script-read decode sentiment twitter profile (8 ∷ bytes) profile_size
            (profile_shown ∙ some_text)
          ∙ cc),
    )
