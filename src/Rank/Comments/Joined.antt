-- ===== src/Rank/Comments/Joined.antt =====
-- A comment is put together from its scripts.
use lotus_sdk.Common.{
  ◌+◌, ◌-◌, ◌*◌, ◌≤◌, ◌≡◌, refl, false, List, [], ◌∷◌, ◌++◌, length, take, drop, ltb, inl, inr, ap,
  ◌∙◌, Bool-cases, arith, length-take, length-drop, take-append-drop, take-all,
}
use lotus_sdk.ScriptNum.{Buffer}
use lotus_sdk.Errors.{ok}
use lotus_sdk.Script.{read_uint8}
use lotus_sdk.Rank.Processor.{subarray, process_comment}
use lotus_sdk.Rank.Comments.{max_op_return_data, comment_script, comment_scripts}

comment_script-read :
    (before part : Buffer) (scripts : List Buffer)
    → length part ≤ max_op_return_data
    → process_comment before (comment_script part ∷ scripts)
      ≡ process_comment (before ++ part) scripts
unfolding process_comment comment_script read_uint8
comment_script-read before part scripts h =
    let fits : ltb max_op_return_data (length part) ≡ false = ground (arith, h) in
    let whole : subarray 3 (3 + length part) (0x6a ∷ 0x4c ∷ length part ∷ part) ≡ part =
      unfold subarray in
      (let size : 3 + length part - 3 ≡ length part = omega arith in
        rw size (take-all (length part) part (omega arith))) in
    rw (fits, whole) refl

-- A comment of at most 440 bytes is put together from its scripts.
pub comment_scripts-read :
    (comment : Buffer)
    → length comment ≤ max_op_return_data * 2
    → process_comment [] (comment_scripts comment) ≡ ok comment
unfolding comment_scripts
comment_scripts-read comment h = elim (Bool-cases (ltb max_op_return_data (length comment))) [
  | inl p ↦ rw p (
      comment_script-read [] (take 220 comment) (comment_script (drop 220 comment) ∷ [])
        (omega (arith, length-take 220 comment))
      ∙ comment_script-read (take 220 comment) (drop 220 comment) []
          (omega (arith, length-drop 220 comment, h))
      ∙ (unfold process_comment in ap ok (take-append-drop 220 comment)))
  | inr p ↦ rw p (
      comment_script-read [] (take 220 comment) [] (omega (arith, length-take 220 comment))
      ∙ (unfold process_comment in ap ok (take-all 220 comment (ground (arith, p)))))
]
