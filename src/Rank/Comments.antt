-- ===== src/Rank/Comments.antt =====
-- The scripts of a comment (`toScriptRNKC`).
pub mod Joined
pub mod RoundTrip
use lotus_sdk.Common.{
  ℕ, ◌*◌, Bool, false, not, ◌||◌, Option, none, some, List, [], ◌∷◌, ◌++◌, length, take, drop, ltb,
  if◌then◌else◌,
}
use lotus_sdk.Common.Ints.{ℤ}
use lotus_sdk.ScriptNum.{Buffer}
use lotus_sdk.Errors.{
  Result, ok, throws, missing_argument, invalid_profile_id, invalid_post_id, invalid_comment, ◌>>=◌,
}
use lotus_sdk.Rank.Text
use lotus_sdk.Rank.{
  Platform, rnkc, lokad_prefix, is_profile_id, is_post_id, given, lacks, target_part,
}

abbrev pub max_op_return_data : ℕ
max_op_return_data = 220

unfoldable pub comment_script : Buffer → Buffer
comment_script part = 0x6a ∷ 0x4c ∷ length part ∷ part

unfoldable pub comment_scripts : Buffer → List Buffer
comment_scripts comment =
    comment_script (take max_op_return_data comment)
    ∷ (if ltb max_op_return_data (length comment)
        then comment_script (drop max_op_return_data comment) ∷ []
        else [])

unfoldable pub is_invalid_post_id : Platform → Option Text.Text → Bool
is_invalid_post_id platform none = false
is_invalid_post_id platform (some post_id) = not (is_post_id platform post_id)

unfoldable pub to_script_rnkc :
    (Text.Text → Result ℤ) → Platform → Text.Text → Option Text.Text → Buffer → Result (List Buffer)
to_script_rnkc big_int platform profile_id post_id comment =
    if lacks profile_id
    then throws missing_argument
    else if not (is_profile_id platform profile_id)
    then throws invalid_profile_id
    else if is_invalid_post_id platform (given post_id)
    then throws invalid_post_id
    else if ltb (length comment) 1 || ltb (max_op_return_data * 2) (length comment)
    then throws invalid_comment
    else (do
      target ← target_part big_int platform profile_id post_id
      ok ((0x6a ∷ 4 ∷ (lokad_prefix rnkc ++ target)) ∷ comment_scripts comment))
