-- ===== src/Sighash/ForkId/Independent.antt =====
-- What a FORKID signature leaves open.
use lotus_sdk.Common.{
  ℕ, zero, suc, true, false, Option, none, some, List, [], ◌∷◌, map, length, ltb, ◌≡◌, inl, inr,
  refl, ap, Bool-cases, arith,
}
use lotus_sdk.ScriptNum.{Buffer}
use lotus_sdk.Errors.{ok}
use lotus_sdk.Script.{Chunk}
use lotus_sdk.Encoding.{write_all}
use lotus_sdk.Transaction.{Transaction}
use lotus_sdk.Transaction.Inputs.{Input}
use lotus_sdk.Transaction.Outputs.{Output}
use lotus_sdk.Sighash.Types.{is_anyonecanpay, is_single, element}
use lotus_sdk.Sighash.ForkId.{
  write_prevout, preimage, hash_all, get_prevout_hash, get_outputs_hash, get_output_hash,
  prevouts_part, sequence_part, outputs_part, sighash_for_fork_id,
}
use lotus_sdk.Sighash.ForkId.Rows.{outpoint}

preimage-same :
    (tx tx' : Transaction) (t i i' : ℕ) (subscript : List Chunk) (satoshis : ℕ) (hp hs ho : Buffer)
    → tx.version ≡ tx'.version
    → tx.n_lock_time ≡ tx'.n_lock_time
    → element tx.inputs i ≡ element tx'.inputs i'
    → preimage tx t i subscript satoshis hp hs ho ≡ preimage tx' t i' subscript satoshis hp hs ho
unfolding preimage
preimage-same tx tx' t i i' subscript satoshis hp hs ho version lock input =
    rw (version, lock, input) refl

-- The three hashes of a call.
hashes_same :
    (hash : Buffer → Buffer) (tx tx' : Transaction) (t i i' : ℕ) (subscript : List Chunk)
    (satoshis : Option ℕ)
    → tx.version ≡ tx'.version
    → tx.n_lock_time ≡ tx'.n_lock_time
    → element tx.inputs i ≡ element tx'.inputs i'
    → prevouts_part hash tx t ≡ prevouts_part hash tx' t
    → sequence_part hash tx t ≡ sequence_part hash tx' t
    → outputs_part hash tx t i ≡ outputs_part hash tx' t i'
    → sighash_for_fork_id hash tx t i subscript satoshis
      ≡ sighash_for_fork_id hash tx' t i' subscript satoshis
unfolding sighash_for_fork_id
hashes_same hash tx tx' t i i' subscript none version lock input p q r = refl
hashes_same hash tx tx' t i i' subscript (some satoshis) version lock input p q r =
    rw (p, q, r)
      (simp (λ (hp hs ho : Buffer).
        preimage-same tx tx' t i i' subscript satoshis hp hs ho version lock input))

-- With ANYONECANPAY and without SINGLE, a call depends on no other input than the signed one, nor on
-- its place.
pub sighash_for_fork_id-anyonecanpay :
    (hash : Buffer → Buffer) (tx tx' : Transaction) (t i i' : ℕ) (subscript : List Chunk)
    (satoshis : Option ℕ)
    → is_anyonecanpay t ≡ true
    → is_single t ≡ false
    → tx.version ≡ tx'.version
    → tx.n_lock_time ≡ tx'.n_lock_time
    → tx.outputs ≡ tx'.outputs
    → element tx.inputs i ≡ element tx'.inputs i'
    → sighash_for_fork_id hash tx t i subscript satoshis
      ≡ sighash_for_fork_id hash tx' t i' subscript satoshis
unfolding prevouts_part sequence_part outputs_part get_outputs_hash
sighash_for_fork_id-anyonecanpay hash tx tx' t i i' subscript satoshis any one version lock outputs
      input =
    hashes_same hash tx tx' t i i' subscript satoshis version lock input (rw any refl) (rw any refl)
      (rw (one, outputs) refl)

write_all-outpoints :
    (inputs inputs' : List Input)
    → map outpoint inputs ≡ map outpoint inputs'
    → write_all write_prevout inputs ≡ write_all write_prevout inputs'
unfolding write_all write_prevout
write_all-outpoints [] [] e = refl
write_all-outpoints [] (b ∷ inputs') e = cc
write_all-outpoints (a ∷ inputs) [] e = cc
write_all-outpoints (a ∷ inputs) (b ∷ inputs') e =
    let first : outpoint a ≡ outpoint b = cc in
    let id : a.prev_tx_id ≡ b.prev_tx_id = ap (λ z. z.0) first in
    let index : a.output_index ≡ b.output_index = ap (λ z. z.1) first in
    let more : map outpoint inputs ≡ map outpoint inputs' = cc in
    rw (id, index, write_all-outpoints inputs inputs' more) refl

element-ltb :
    (outputs : List Output) (i : ℕ) {output : Output}
    → element outputs i ≡ ok output
    → ltb i (length outputs) ≡ true
unfolding element
element-ltb [] i e = cc
element-ltb (a ∷ outputs) zero e = ground arith
element-ltb (a ∷ outputs) (suc i) e = ground (arith, element-ltb outputs i e)

-- With SINGLE, a call with an output at the input's place depends on that output alone, and of the
-- other inputs on no sequence number.
pub sighash_for_fork_id-single :
    (hash : Buffer → Buffer) (tx tx' : Transaction) (t i : ℕ) (subscript : List Chunk)
    (satoshis : Option ℕ) {output : Output}
    → is_single t ≡ true
    → tx.version ≡ tx'.version
    → tx.n_lock_time ≡ tx'.n_lock_time
    → map outpoint tx.inputs ≡ map outpoint tx'.inputs
    → element tx.inputs i ≡ element tx'.inputs i
    → element tx.outputs i ≡ ok output
    → element tx'.outputs i ≡ ok output
    → sighash_for_fork_id hash tx t i subscript satoshis
      ≡ sighash_for_fork_id hash tx' t i subscript satoshis
unfolding prevouts_part sequence_part outputs_part get_prevout_hash get_output_hash hash_all
sighash_for_fork_id-single hash tx tx' t i subscript satoshis one version lock outpoints input
      output output' =
    hashes_same hash tx tx' t i i subscript satoshis version lock input
      (rw (write_all-outpoints tx.inputs tx'.inputs outpoints) refl)
      (elim (Bool-cases (is_anyonecanpay t)) [ inl p ↦ rw p refl | inr p ↦ rw (p, one) refl ])
      (rw (one, element-ltb tx.outputs i output, element-ltb tx'.outputs i output', output, output')
        refl)
