-- ===== src/Sighash/ForkId/Hashes.antt =====
-- The hashes in what is hashed for a FORKID signature, and the inputs behind them.
use lotus_sdk.Common.{
  ℕ, zero, suc, not, ◌&&◌, List, [], ◌∷◌, map, length, ltb, ◌≡◌, inl, inr, refl, sym, ap, ◌∙◌, All,
  Bool-cases,
}
use lotus_sdk.ScriptNum.{Buffer}
use lotus_sdk.Errors.{Result, ok, ok-inj, >>=-eq-ok}
use lotus_sdk.Encoding.{write_all}
use lotus_sdk.Transaction.{Transaction}
use lotus_sdk.Transaction.Inputs.{Input}
use lotus_sdk.Transaction.Outputs
use lotus_sdk.Transaction.Outputs.{Output}
use lotus_sdk.Merkle.Binding.{IsHash}
use lotus_sdk.Transaction.Scripts.{with_script}
use lotus_sdk.Sighash.Types.{is_anyonecanpay, is_single, is_none, element}
use lotus_sdk.Sighash.ForkId.{
  write_prevout, hash_all, get_prevout_hash, get_sequence_hash, get_outputs_hash, get_output_hash,
  prevouts_part, sequence_part, outputs_part,
}
use lotus_sdk.Sighash.ForkId.Rows.{outpoint, sequence_of, write_sequence}

pub element-All :
    (P : Input → Type 0) (inputs : List Input) (i : ℕ) {input : Input}
    → All P inputs
    → element inputs i ≡ ok input
    → P input
unfolding element
element-All P [] i h e = cc
element-All P (a ∷ inputs) zero h e = rw (← ok-inj e) h.0
element-All P (a ∷ inputs) (suc i) h e = element-All P inputs i h.1 e

-- Inputs with the same outpoints and sequence numbers are the same but for their scripts.
pub same_inputs :
    (inputs inputs' : List Input)
    → map outpoint inputs ≡ map outpoint inputs'
    → map sequence_of inputs ≡ map sequence_of inputs'
    → map (with_script []) inputs ≡ map (with_script []) inputs'
unfolding with_script
same_inputs [] [] h k = refl
same_inputs [] (b ∷ inputs') h k = cc
same_inputs (a ∷ inputs) [] h k = cc
same_inputs (a ∷ inputs) (b ∷ inputs') h k =
    let more : map outpoint inputs ≡ map outpoint inputs' = cc in
    let more' : map sequence_of inputs ≡ map sequence_of inputs' = cc in
    let rest = same_inputs inputs inputs' more more' in
    let first : outpoint a ≡ outpoint b = cc in
    let sequence : a.sequence_number ≡ b.sequence_number = cc in
    let id : a.prev_tx_id ≡ b.prev_tx_id = ap (λ z. z.0) first in
    let index : a.output_index ≡ b.output_index = ap (λ z. z.1) first in cc

module _ (hash : Buffer → Buffer) (out : (b : Buffer) → IsHash (hash b)) where
  hash_all-length :
      {A : Type 0} (writer : A → Result Buffer) (items : List A) {x : Buffer}
      → hash_all hash writer items ≡ ok x
      → length x ≡ 32
  unfolding hash_all
  hash_all-length writer items e =
      let (bytes, written, done) = >>=-eq-ok (write_all writer items) _ e in
      ap length (sym (ok-inj done)) ∙ (out bytes).0

  pub prevouts_part-length :
      (tx : Transaction) (t : ℕ) {x : Buffer} → prevouts_part hash tx t ≡ ok x → length x ≡ 32
  unfolding prevouts_part get_prevout_hash
  prevouts_part-length tx t e = elim (Bool-cases (is_anyonecanpay t)) [
    | inl p ↦ ap length (sym (ok-inj (rw p at e)))
    | inr p ↦ hash_all-length write_prevout tx.inputs (rw p at e)
  ]

  pub sequence_part-length :
      (tx : Transaction) (t : ℕ) {x : Buffer} → sequence_part hash tx t ≡ ok x → length x ≡ 32
  unfolding sequence_part get_sequence_hash
  sequence_part-length tx t e =
      elim (Bool-cases (not (is_anyonecanpay t) && not (is_single t) && not (is_none t))) [
        | inl p ↦ hash_all-length write_sequence tx.inputs (rw p at e)
        | inr p ↦ ap length (sym (ok-inj (rw p at e)))
      ]

  pub outputs_part-length :
      (tx : Transaction) (t i : ℕ) {x : Buffer} → outputs_part hash tx t i ≡ ok x → length x ≡ 32
  unfolding outputs_part get_outputs_hash get_output_hash
  outputs_part-length tx t i e = elim (Bool-cases (not (is_single t) && not (is_none t))) [
    | inl p ↦ hash_all-length Outputs.to_buffer_writer tx.outputs (rw p at e)
    | inr p ↦ elim (Bool-cases (is_single t && ltb i (length tx.outputs))) [
      | inl q ↦
          let e' = rw (p, q) at e in
          let (output, at_index, more) = >>=-eq-ok (element tx.outputs i) _ e' in
          let (bytes, written, done) = >>=-eq-ok (Outputs.to_buffer_writer output) _ more in
          ap length (sym (ok-inj done)) ∙ (out bytes).0
      | inr q ↦ ap length (sym (ok-inj (rw (p, q) at e)))
    ]
  ]
