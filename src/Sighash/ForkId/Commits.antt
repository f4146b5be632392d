-- ===== src/Sighash/ForkId/Commits.antt =====
-- What a FORKID signature commits to.
use lotus_sdk.Common.{
  ℕ, false, some, List, [], map, length, take, ◌<◌, ◌≤◌, ◌≡◌, ◌⊎◌, inl, inr, refl, sym, ap, ◌∙◌,
  arith, take-all,
}
use lotus_sdk.ScriptNum.{Buffer}
use lotus_sdk.Encoding.{write_all}
use lotus_sdk.Errors.{Result, ok, ◌>>=◌, ok-inj, >>=-eq-ok}
use lotus_sdk.Script.{Chunk, to_buffer}
use lotus_sdk.Transaction.{Transaction}
use lotus_sdk.Transaction.Inputs.{Input}
use lotus_sdk.Transaction.Outputs
use lotus_sdk.Transaction.Outputs.{Output}
use mathlib.Core.List.{map-id}
use lotus_sdk.Merkle.Binding.{IsHash, Clash, same_hash}
use lotus_sdk.Transaction.Scripts.{with_script, with_scripts}
use lotus_sdk.Transaction.RoundTrip.{ValidInput, ValidOutput, ValidTransaction}
use lotus_sdk.Sighash.Types.{is_anyonecanpay, is_single, is_none, element}
use lotus_sdk.Sighash.ForkId.{
  write_prevout, preimage, get_prevout_hash, get_sequence_hash, get_outputs_hash, prevouts_part,
  sequence_part, outputs_part, sighash_for_fork_id,
}
use lotus_sdk.Sighash.ForkId.Parts.{IsPositive, Parts, preimage-Parts}
use lotus_sdk.Sighash.ForkId.Rows.{
  hash_all-inj, outpoint, prevout-First, prevout-Nonempty, sequence_of, write_sequence,
  sequence-First, sequence-Nonempty, itself, output-First, output-Nonempty,
}
use lotus_sdk.Sighash.ForkId.Hashes.{
  same_inputs, prevouts_part-length, sequence_part-length, outputs_part-length,
}
use lotus_sdk.Sighash.ForkId.Fields.{Parts-inj}

-- A call with a valid transaction of a positive version and with arguments in range.
pub record ValidCall (tx : Transaction) (sighash_type satoshis : ℕ) (subscript : List Chunk)
    : Type 0 where
  pub tx_valid : ValidTransaction tx
  pub version_positive : IsPositive tx.version
  pub type_fits : sighash_type < 4294967296
  pub satoshis_fit : satoshis < 18446744073709551616
  pub script_fits :
      (script : Buffer) → to_buffer subscript ≡ ok script → length script ≤ 9007199254740992

-- What the two calls sign is the same: the type, the transaction but for the scripts of its inputs,
-- the input, the script and the amount.
abbrev pub SameSigned :
    Transaction → Transaction → ℕ → ℕ → ℕ → ℕ → List Chunk → List Chunk → ℕ → ℕ → Type 0
SameSigned tx tx' t t' i i' subscript subscript' satoshis satoshis' =
    (t ≡ t')
    × (with_scripts (λ _. []) tx ≡ with_scripts (λ _. []) tx')
    × ((input : Input) × (input' : Input) × (element tx.inputs i ≡ ok input)
        × (element tx'.inputs i' ≡ ok input')
        × (with_script [] input ≡ with_script [] input'))
    × (to_buffer subscript ≡ to_buffer subscript')
    × (satoshis ≡ satoshis')

-- The bytes that are hashed at last.
unfoldable pub fork_id_bytes :
    (Buffer → Buffer) → Transaction → ℕ → ℕ → List Chunk → ℕ → Result Buffer
fork_id_bytes hash tx t i subscript satoshis = do
  hp ← prevouts_part hash tx t
  hs ← sequence_part hash tx t
  ho ← outputs_part hash tx t i
  preimage tx t i subscript satoshis hp hs ho

-- The rows of two transactions collide: the previous outputs, the sequence numbers or the outputs.
abbrev pub RowClash : (Buffer → Buffer) → Transaction → Transaction → Type 0
RowClash hash tx tx' =
    Clash hash (write_all write_prevout tx.inputs) (write_all write_prevout tx'.inputs)
    ⊎ (Clash hash (write_all write_sequence tx.inputs) (write_all write_sequence tx'.inputs)
        ⊎ Clash hash (write_all Outputs.to_buffer_writer tx.outputs)
            (write_all Outputs.to_buffer_writer tx'.outputs))

-- The three hashes and the bytes behind a hash that was returned.
Hashed : (Buffer → Buffer) → Transaction → ℕ → ℕ → List Chunk → ℕ → Buffer → Type 0
Hashed hash tx t i subscript satoshis result =
    (hp : Buffer) × (hs : Buffer) × (ho : Buffer) × (bytes : Buffer) × (prevouts_part hash tx t
      ≡ ok hp)
    × (sequence_part hash tx t ≡ ok hs)
    × (outputs_part hash tx t i ≡ ok ho)
    × Parts tx t i subscript satoshis hp hs ho bytes
    × (take 32 (hash bytes) ≡ result)
    × (fork_id_bytes hash tx t i subscript satoshis ≡ ok bytes)

fork_id-Hashed :
    (hash : Buffer → Buffer) (tx : Transaction) (t i : ℕ) (subscript : List Chunk) (satoshis : ℕ)
    {result : Buffer}
    → sighash_for_fork_id hash tx t i subscript (some satoshis) ≡ ok result
    → Hashed hash tx t i subscript satoshis result
unfolding sighash_for_fork_id Hashed fork_id_bytes
fork_id-Hashed hash tx t i subscript satoshis e =
    let (hp, hp_hashed, e1) = >>=-eq-ok (prevouts_part hash tx t) _ e in
    let (hs, hs_hashed, e2) = >>=-eq-ok (sequence_part hash tx t) _ e1 in
    let (ho, ho_hashed, e3) = >>=-eq-ok (outputs_part hash tx t i) _ e2 in
    let (bytes, written, done) = >>=-eq-ok (preimage tx t i subscript satoshis hp hs ho) _ e3 in
    (
      hp,
      hs,
      ho,
      bytes,
      hp_hashed,
      hs_hashed,
      ho_hashed,
      preimage-Parts tx t i subscript satoshis hp hs ho written,
      ok-inj done,
      rw (hp_hashed, hs_hashed, ho_hashed) written,
    )

module _ (hash : Buffer → Buffer) (out : (b : Buffer) → IsHash (hash b)) where
  -- The transaction behind the three hashes of a type that signs all of it.
  same_rows :
      (tx tx' : Transaction) (t i i' : ℕ) {hp hs ho : Buffer}
      → ValidTransaction tx
      → ValidTransaction tx'
      → is_anyonecanpay t ≡ false
      → is_single t ≡ false
      → is_none t ≡ false
      → prevouts_part hash tx t ≡ ok hp
      → prevouts_part hash tx' t ≡ ok hp
      → sequence_part hash tx t ≡ ok hs
      → sequence_part hash tx' t ≡ ok hs
      → outputs_part hash tx t i ≡ ok ho
      → outputs_part hash tx' t i' ≡ ok ho
      → ((map (with_script []) tx.inputs ≡ map (with_script []) tx'.inputs)
          × (tx.outputs ≡ tx'.outputs))
        ⊎ RowClash hash tx tx'
  unfolding prevouts_part sequence_part outputs_part get_prevout_hash get_sequence_hash
      get_outputs_hash
  same_rows tx tx' t i i' {hp} {hs} {ho} v w any one every a a' b b' c c' =
      elim (hash_all-inj ValidInput write_prevout outpoint prevout-First prevout-Nonempty hash
        tx.inputs tx'.inputs v.inputs_valid w.inputs_valid (rw any at a) (rw any at a') refl) [
          | inr x ↦ inr (inl x)
          | inl outpoints ↦
              elim (hash_all-inj ValidInput write_sequence sequence_of sequence-First
                sequence-Nonempty hash tx.inputs tx'.inputs v.inputs_valid w.inputs_valid
                (rw (any, one, every) at b) (rw (any, one, every) at b') refl) [
                  | inr x ↦ inr (inr (inl x))
                  | inl sequences ↦
                      elim (hash_all-inj ValidOutput Outputs.to_buffer_writer itself output-First
                        output-Nonempty hash tx.outputs tx'.outputs v.outputs_valid w.outputs_valid
                        (rw (one, every) at c) (rw (one, every) at c') refl) [
                          | inr x ↦ inr (inr (inr x))
                          | inl outputs ↦ inl (
                            same_inputs tx.inputs tx'.inputs outpoints sequences,
                            sym (map-id tx.outputs) ∙ outputs ∙ map-id tx'.outputs,
                          )
                        ]
                ]
        ]

  -- Where the hash function returns 32 bytes and the first of two valid calls has a type without
  -- ANYONECANPAY, SINGLE and NONE: if both return one hash, then the two calls sign the same, or
  -- two different buffers that the two calls hash at the same place have one hash: the bytes that
  -- are hashed at last, or the rows of previous outputs, of sequence numbers or of outputs.
  pub sighash_for_fork_id-commits :
      (tx tx' : Transaction) (t t' i i' : ℕ) (subscript subscript' : List Chunk)
      (satoshis satoshis' : ℕ) {result : Buffer}
      → ValidCall tx t satoshis subscript
      → ValidCall tx' t' satoshis' subscript'
      → is_anyonecanpay t ≡ false
      → is_single t ≡ false
      → is_none t ≡ false
      → sighash_for_fork_id hash tx t i subscript (some satoshis) ≡ ok result
      → sighash_for_fork_id hash tx' t' i' subscript' (some satoshis') ≡ ok result
      → SameSigned tx tx' t t' i i' subscript subscript' satoshis satoshis'
        ⊎ (Clash hash
              (fork_id_bytes hash tx t i subscript satoshis)
              (fork_id_bytes hash tx' t' i' subscript' satoshis')
            ⊎ RowClash hash tx tx')
  unfolding with_scripts Hashed
  sighash_for_fork_id-commits tx tx' t t' i i' subscript subscript' satoshis satoshis' v w any one
        some_outputs e f =
      let (hp, hs, ho, bytes, p1, p2, p3, parts, done, made) =
        fork_id-Hashed hash tx t i subscript satoshis e in
      let (hp', hs', ho', bytes', q1, q2, q3, parts', done', made') =
        fork_id-Hashed hash tx' t' i' subscript' satoshis' f in
      let same_result : hash bytes ≡ hash bytes' =
        sym (take-all 32 (hash bytes) (omega (arith, (out bytes).0)))
        ∙ done
        ∙ sym done'
        ∙ take-all 32 (hash bytes') (omega (arith, (out bytes').0)) in
      elim (same_hash hash bytes bytes' same_result) [
        | inr c ↦ inr (inl (bytes, bytes', made, made', c))
        | inl same ↦
            let (version, hps, hss, input, script, amount, hos, lock, type) =
              Parts-inj v.tx_valid w.tx_valid v.version_positive w.version_positive v.satoshis_fit
                w.satoshis_fit v.type_fits w.type_fits
                (prevouts_part-length hash out tx t p1
                  ∙ sym (prevouts_part-length hash out tx' t' q1))
                (sequence_part-length hash out tx t p2
                  ∙ sym (sequence_part-length hash out tx' t' q2))
                (outputs_part-length hash out tx t i p3
                  ∙ sym (outputs_part-length hash out tx' t' i' q3))
                parts parts' (v.script_fits parts.script parts.script_written)
                (w.script_fits parts'.script parts'.script_written) same in
            elim (same_rows tx tx' t i i' v.tx_valid w.tx_valid any one some_outputs p1
              (rw (type, hps) q1) p2 (rw (type, hss) q2) p3 (rw (type, hos) q3)) [
                | inr c ↦ inr (inr c)
                | inl (inputs, outputs) ↦ inl (
                  type,
                  cc,
                  (parts.input, parts'.input, parts.at_index, parts'.at_index, input),
                  parts.script_written ∙ ap ok script ∙ sym parts'.script_written,
                  amount,
                )
              ]
      ]
