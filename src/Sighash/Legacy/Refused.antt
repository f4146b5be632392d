-- ===== src/Sighash/Legacy/Refused.antt =====
-- The calls without FORKID that return no hash.
use lotus_sdk.Common.{
  ℕ, zero, suc, true, false, List, [], ◌∷◌, length, ltb, leb, ◌<◌, ◌≤◌, ◌≡◌, ◌≢◌, refl, ap, arith,
}
use lotus_sdk.Common.Ints.{pos}
use lotus_sdk.ScriptNum.{Buffer}
use lotus_sdk.Errors.{Result, ok, throws, range_error, bn_assertion, >>=-eq-ok}
use lotus_sdk.Script.{Chunk, to_buffer}
use lotus_sdk.Encoding.{◌followed_by◌, write_int32_le, write_all}
use lotus_sdk.Transaction.{Transaction, write_output, to_buffer_writer, satoshis_of}
use lotus_sdk.Transaction.Inputs.{Input}
use lotus_sdk.Transaction.Outputs.{Output}
use lotus_sdk.Sighash.Types.{is_single, is_none, element}
use lotus_sdk.Sighash.Legacy.{
  signed_outputs, single_outputs, blank_output, paying_inputs, hash_of_copy,
  sighash_without_fork_id,
}

-- A blank output cannot be written.
blank_refused :
    (outputs more : List Output) {bytes : Buffer}
    → outputs ≡ blank_output ∷ more
    → write_all write_output outputs ≢ ok bytes
unfolding write_all write_output satoshis_of
blank_refused [] more blank e = cc
blank_refused (output ∷ outputs) more blank e =
    let high : output.satoshis_bn ≡ 0xffffffffffffffff =
      ap (λ (o : List Output). elim o [ [] ↦ 0xffffffffffffffff | x ∷ xs ↦ x.satoshis_bn ]) blank in
    let refused : ltb output.satoshis_bn 9007199254740992 ≡ false = ground (arith, high) in
    let no : throws bn_assertion ≡ ok _ = rw refused at e in cc

first_blank :
    (t i : ℕ) (outputs : List Output)
    → is_single t ≡ true
    → 0 < i
    → i < length outputs
    → (more : List Output) × (signed_outputs t i outputs ≡ blank_output ∷ more)
unfolding signed_outputs single_outputs
first_blank t zero outputs one h k = absurd (omega arith)
first_blank t (suc i) [] one h k = absurd (omega arith)
first_blank t (suc i) (a ∷ outputs) one h k =
    let other : is_none t ≡ false = ground (arith, one) in
    (single_outputs i outputs, rw (other, one) refl)

followed_by-head :
    (first second : Result Buffer) {bytes : Buffer}
    → (first followed_by second) ≡ ok bytes
    → (x : Buffer) × (first ≡ ok x)
followed_by-head first second e = let (x, written, _) = >>=-eq-ok first _ e in (x, written)

followed_by-tail :
    (first second : Result Buffer) {bytes : Buffer}
    → (first followed_by second) ≡ ok bytes
    → (x : Buffer) × (second ≡ ok x)
followed_by-tail first second e =
    let (_, _, more) = >>=-eq-ok first _ e in
    let (x, written, _) = >>=-eq-ok second _ more in (x, written)

-- The bytes of a transaction are those of its outputs, among others.
outputs_written :
    (tx : Transaction) {bytes : Buffer}
    → to_buffer_writer tx ≡ ok bytes
    → (b : Buffer) × (write_all write_output tx.outputs ≡ ok b)
unfolding to_buffer_writer
outputs_written tx e =
    let (_, behind_version) = followed_by-tail _ _ e in
    let (_, behind_size) = followed_by-tail _ _ behind_version in
    let (_, behind_inputs) = followed_by-tail _ _ behind_size in
    let (_, at_outputs) = followed_by-tail _ _ behind_inputs in followed_by-head _ _ at_outputs

-- The copy that is hashed is written, and so is the type, as a signed number.
copy_written :
    (hash : Buffer → Buffer) (tx : Transaction) (t i : ℕ) (signed : Input) {result : Buffer}
    → hash_of_copy hash tx t i signed ≡ ok result
    → ((b : Buffer) × (write_all write_output (signed_outputs t i tx.outputs) ≡ ok b))
      × ((b : Buffer) × (write_int32_le (pos t) ≡ ok b))
unfolding hash_of_copy
copy_written hash tx t i signed e =
    let (inputs, _, e1) = >>=-eq-ok (paying_inputs t i _) _ e in
    let (bytes, written, e2) = >>=-eq-ok (to_buffer_writer _) _ e1 in
    let (type, type_written, _) = >>=-eq-ok (write_int32_le (pos t)) _ e2 in
    (outputs_written _ written, (type, type_written))

module _ (hash : Buffer → Buffer) where
  -- Without FORKID, a SINGLE hash of an input that has an output at its place, and that is not the
  -- first one, is never returned: the outputs before it are made to hold 2^64 - 1, which cannot be
  -- written.
  pub sighash_without_fork_id-single :
      (tx : Transaction) (t i : ℕ) (subscript : List Chunk) {result : Buffer}
      → is_single t ≡ true
      → 0 < i
      → i < length tx.outputs
      → sighash_without_fork_id hash tx t i subscript ≢ ok result
  unfolding sighash_without_fork_id hash_of_copy
  sighash_without_fork_id-single tx t i subscript one h k e =
      let (input, at_index, e1) = >>=-eq-ok (element tx.inputs i) _ e in
      let (script, script_written, e2) = >>=-eq-ok (to_buffer _) _ e1 in
      let inside : leb (length tx.outputs) i ≡ false = ground (arith, k) in
      let (outputs, _) = copy_written hash tx t i _ (rw (one, inside) at e2) in
      let (more, blank) = first_blank t i tx.outputs one h k in blank_refused _ more blank outputs.1

  -- A type that is 2^31 or more cannot be written.
  pub sighash_without_fork_id-large :
      (tx : Transaction) (t i : ℕ) (subscript : List Chunk) {result : Buffer}
      → is_single t ≡ false
      → 2147483648 ≤ t
      → sighash_without_fork_id hash tx t i subscript ≢ ok result
  unfolding sighash_without_fork_id write_int32_le
  sighash_without_fork_id-large tx t i subscript one h e =
      let (input, at_index, e1) = >>=-eq-ok (element tx.inputs i) _ e in
      let (script, script_written, e2) = >>=-eq-ok (to_buffer _) _ e1 in
      let (_, type) = copy_written hash tx t i _ (rw one at e2) in
      let refused : ltb t 2147483648 ≡ false = ground (arith, h) in
      let no : throws range_error ≡ ok type.0 = rw refused at type.1 in cc
