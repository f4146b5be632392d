-- ===== src/Transaction/Commits.antt =====
-- What the identifier of a transaction commits to.
use lotus_sdk.Common.{
  suc, ◌≡◌, ◌⊎◌, inl, inr, refl, sym, ap, ◌∙◌, List, [], ◌∷◌, ◌++◌, map, reverse, All, length,
  arith, length-reverse,
}
use mathlib.Core.List.{reverse-reverse, map-id}
use lotus_sdk.ScriptNum.{Buffer}
use lotus_sdk.Errors.{Result, ok, ok-inj, >>=-eq-ok}
use lotus_sdk.Script.{read_uint32_le}
use lotus_sdk.Encoding.{read_int32_le}
use lotus_sdk.Encoding.RoundTrip.{Rereads-inj, write_uint32_le-Rereads, write_int32_le-Rereads}
use lotus_sdk.Merkle.Layers.{IsRoot}
use lotus_sdk.Merkle.Binding.{
  Clash, TreeClash, append-inj, IsHash, IsRoot-binding, IsRoot-IsHash, same_hash,
}
use lotus_sdk.Transaction.{
  Transaction, input_leaf, write_output, leaf_hashes, hashes_or_null, get_txid,
}
use lotus_sdk.Transaction.Inputs.{Input}
use lotus_sdk.Transaction.Outputs
use lotus_sdk.Transaction.Outputs.{Output}
use lotus_sdk.Transaction.RoundTrip.{ValidInput, ValidOutput, ValidTransaction, output-Rereads}
use lotus_sdk.Transaction.Scripts.{with_script, with_scripts}
use lotus_sdk.Transaction.Total.{Tree, txid_bytes, Identified, get_txid-ok}
use lotus_sdk.Encoding.Lengths.{write_uint32_le-length, write_int32_le-length}

-- The bytes of a valid input determine it but for its script.
input_leaf-inj :
    (a b : Input)
    → ValidInput a
    → ValidInput b
    → input_leaf a ≡ input_leaf b
    → with_script [] a ≡ with_script [] b
unfolding input_leaf with_script
input_leaf-inj a b v w e =
    let (i, i_written, _) = write_uint32_le-Rereads a.output_index v.index_fits in
    let (j, j_written, _) = write_uint32_le-Rereads b.output_index w.index_fits in
    let (s, s_written, _) = write_uint32_le-Rereads a.sequence_number v.sequence_fits in
    let (t, t_written, _) = write_uint32_le-Rereads b.sequence_number w.sequence_fits in
    let bytes : reverse a.prev_tx_id ++ (i ++ s) ≡ reverse b.prev_tx_id ++ (j ++ t) =
      ok-inj (rw (i_written, j_written, s_written, t_written) at e) in
    let (ids, rest) =
      append-inj (reverse a.prev_tx_id) (i ++ s) (reverse b.prev_tx_id) (j ++ t)
        (length-reverse a.prev_tx_id
          ∙ v.id_length
          ∙ sym (length-reverse b.prev_tx_id ∙ w.id_length))
        bytes in
    let (indices, sequences) =
      append-inj i s j t
        (write_uint32_le-length a.output_index i_written
          ∙ sym (write_uint32_le-length b.output_index j_written))
        rest in
    let index : a.output_index ≡ b.output_index =
      Rereads-inj read_uint32_le (write_uint32_le-Rereads a.output_index v.index_fits)
        (write_uint32_le-Rereads b.output_index w.index_fits)
        (i_written ∙ ap ok indices ∙ sym j_written) in
    let sequence : a.sequence_number ≡ b.sequence_number =
      Rereads-inj read_uint32_le (write_uint32_le-Rereads a.sequence_number v.sequence_fits)
        (write_uint32_le-Rereads b.sequence_number w.sequence_fits)
        (s_written ∙ ap ok sequences ∙ sym t_written) in
    let id : a.prev_tx_id ≡ b.prev_tx_id =
      sym (reverse-reverse a.prev_tx_id) ∙ ap reverse ids ∙ reverse-reverse b.prev_tx_id in
    cc

output-inj :
    (a b : Output) → ValidOutput a → ValidOutput b → write_output a ≡ write_output b → a ≡ b
output-inj a b v w e =
    Rereads-inj Outputs.from_buffer_reader (output-Rereads a v) (output-Rereads b w) e

-- Two items at the same place of two lists collide.
unfoldable pub ItemClash {ℓ} :
    {A : Type ℓ} → (Buffer → Buffer) → (A → Result Buffer) → List A → List A → Type 0
ItemClash hash leaf [] items' = ⊥
ItemClash hash leaf (a ∷ items) [] = ⊥
ItemClash hash leaf (a ∷ items) (b ∷ items') =
    Clash hash (leaf a) (leaf b) ⊎ ItemClash hash leaf items items'

-- Two items at the same place collide, or two nodes at the same place of the trees over the hashes
-- of the items.
abbrev pub ListClash :
    {A : Type 0} → (Buffer → Buffer) → (A → Result Buffer) → List A → List A → Type 0
ListClash hash leaf items items' =
    ItemClash hash leaf items items'
    ⊎ ((hashes : List Buffer) × (hashes' : List Buffer) × (hashes_or_null hash leaf items
          ≡ ok hashes)
        × (hashes_or_null hash leaf items' ≡ ok hashes')
        × TreeClash hash hashes hashes')

module _ (hash : Buffer → Buffer) {A K : Type 0} (leaf : A → Result Buffer) (key : A → K)
    (P : A → Type 0) (inj : (a b : A) → P a → P b → leaf a ≡ leaf b → key a ≡ key b) where
  -- Lists of one length with the same leaf hashes have the same keys, or two items collide.
  leaf_hashes-inj :
      (items items' : List A) {hashes : List Buffer}
      → All P items
      → All P items'
      → length items ≡ length items'
      → leaf_hashes hash leaf items ≡ ok hashes
      → leaf_hashes hash leaf items' ≡ ok hashes
      → (map key items ≡ map key items') ⊎ ItemClash hash leaf items items'
  unfolding leaf_hashes ItemClash
  leaf_hashes-inj [] [] h h' len e e' = inl refl
  leaf_hashes-inj [] (b ∷ items') h h' len e e' = absurd (omega arith)
  leaf_hashes-inj (a ∷ items) [] h h' len e e' = absurd (omega arith)
  leaf_hashes-inj (a ∷ items) (b ∷ items') h h' len e e' =
      let (x, x_written, more) = >>=-eq-ok (leaf a) _ e in
      let (xs, xs_done, done) = >>=-eq-ok (leaf_hashes hash leaf items) _ more in
      let (y, y_written, more') = >>=-eq-ok (leaf b) _ e' in
      let (ys, ys_done, done') = >>=-eq-ok (leaf_hashes hash leaf items') _ more' in
      let same : hash x ∷ xs ≡ hash y ∷ ys = ok-inj (done ∙ sym done') in
      elim (same_hash hash x y (cc)) [
        | inr c ↦ inr (inl (x, y, x_written, y_written, c))
        | inl p ↦
            elim (leaf_hashes-inj items items' {hashes = ys} h.1 h'.1 (omega arith) (cc) ys_done) [
              | inr c ↦ inr (inr c)
              | inl q ↦
                  let k : key a ≡ key b = inj a b h.0 h'.0 (x_written ∙ ap ok p ∙ sym y_written) in
                  inl cc
            ]
      ]

  leaf_hashes-length :
      (items : List A) {hashes : List Buffer}
      → leaf_hashes hash leaf items ≡ ok hashes
      → length hashes ≡ length items
  unfolding leaf_hashes
  leaf_hashes-length [] e = ap length (sym (ok-inj e))
  leaf_hashes-length (a ∷ items) e =
      let (x, x_written, more) = >>=-eq-ok (leaf a) _ e in
      let (xs, xs_done, done) = >>=-eq-ok (leaf_hashes hash leaf items) _ more in
      ap length (sym (ok-inj done)) ∙ ap suc (leaf_hashes-length items xs_done)

  -- Lists of one length with the same root have the same keys, or two items or two nodes collide.
  pub Tree-inj :
      (items items' : List A)
      → ((b : Buffer) → IsHash (hash b))
      → All P items
      → All P items'
      → length items ≡ length items'
      → (t : Tree hash leaf items) (t' : Tree hash leaf items') → t.1 ≡ t'.1
      → (map key items ≡ map key items') ⊎ ListClash hash leaf items items'
  unfolding hashes_or_null
  Tree-inj [] [] out h h' len t t' e = inl refl
  Tree-inj [] (b ∷ items') out h h' len t t' e = absurd (omega arith)
  Tree-inj (a ∷ items) [] out h h' len t t' e = absurd (omega arith)
  Tree-inj (a ∷ items) (b ∷ items') out h h' len t t' e =
      let below : IsRoot hash t'.0 t.1 (suc t'.2) = rw e t'.5 in
      elim (IsRoot-binding hash out t.6 t'.6
        (leaf_hashes-length (a ∷ items) t.3 ∙ len ∙ sym (leaf_hashes-length (b ∷ items') t'.3)) t.5
        below) [
          | inr c ↦ inr (inr (t.0, t'.0, t.3, t'.3, c))
          | inl q ↦
              elim (leaf_hashes-inj (a ∷ items) (b ∷ items') h h' len t.3 (t'.3 ∙ ap ok (sym q))) [
                | inl p ↦ inl p
                | inr c ↦ inr (inl c)
              ]
        ]

-- Identifiers of the same bytes come of the same parts.
same_parts :
    (hash : Buffer → Buffer) {tx tx' : Transaction} (i : Identified hash tx)
    (j : Identified hash tx')
    → ((b : Buffer) → IsHash (hash b))
    → i.version
        ++ (i.ins.1 ++ (suc i.ins.2 ∷ [] ++ (i.outs.1 ++ (suc i.outs.2 ∷ [] ++ i.lock_time))))
      ≡ j.version
        ++ (j.ins.1 ++ (suc j.ins.2 ∷ [] ++ (j.outs.1 ++ (suc j.outs.2 ∷ [] ++ j.lock_time))))
    → (i.version ≡ j.version)
      × (i.ins.1 ≡ j.ins.1)
      × (i.outs.1 ≡ j.outs.1)
      × (i.lock_time ≡ j.lock_time)
same_parts hash {tx} {tx'} i j out p =
    let four =
      write_int32_le-length tx.version i.version_written
      ∙ sym (write_int32_le-length tx'.version j.version_written) in
    let (versions, p1) = append-inj i.version _ j.version _ four p in
    let (in_roots, p2) =
      append-inj i.ins.1 _ j.ins.1 _
        ((IsRoot-IsHash hash out i.ins.6 i.ins.5).0
          ∙ sym (IsRoot-IsHash hash out j.ins.6 j.ins.5).0)
        p1 in
    let (_, p3) = append-inj (suc i.ins.2 ∷ []) _ (suc j.ins.2 ∷ []) _ refl p2 in
    let (out_roots, p4) =
      append-inj i.outs.1 _ j.outs.1 _
        ((IsRoot-IsHash hash out i.outs.6 i.outs.5).0
          ∙ sym (IsRoot-IsHash hash out j.outs.6 j.outs.5).0)
        p3 in
    let (_, locks) =
      append-inj (suc i.outs.2 ∷ []) i.lock_time (suc j.outs.2 ∷ []) j.lock_time refl p4 in
    (versions, in_roots, out_roots, locks)

-- Two valid transactions with the same numbers of inputs and of outputs and with one identifier
-- are the same but for the scripts of their inputs, or two different buffers that are hashed at the
-- same place for both have one hash: the bytes behind the identifiers, or an input, an output or a
-- pair of nodes of their Merkle trees. The hash function returns 32 bytes.
pub get_txid-commits :
    (hash : Buffer → Buffer) (tx tx' : Transaction)
    → ((b : Buffer) → IsHash (hash b))
    → ValidTransaction tx
    → ValidTransaction tx'
    → length tx.inputs ≡ length tx'.inputs
    → length tx.outputs ≡ length tx'.outputs
    → get_txid hash tx ≡ get_txid hash tx'
    → (with_scripts (λ _. []) tx ≡ with_scripts (λ _. []) tx')
      ⊎ (Clash hash (txid_bytes hash tx) (txid_bytes hash tx')
          ⊎ (ListClash hash input_leaf tx.inputs tx'.inputs
              ⊎ ListClash hash write_output tx.outputs tx'.outputs))
unfolding with_scripts
get_txid-commits hash tx tx' out v w ins outs e =
    let i = get_txid-ok hash tx out v in
    let j = get_txid-ok hash tx' out w in
    elim (same_hash hash _ _ (ok-inj (sym i.computed ∙ e ∙ j.computed))) [
      | inr c ↦ inr (inl (_, _, i.bytes_made, j.bytes_made, c))
      | inl p ↦
          let (versions, in_roots, out_roots, locks) = same_parts hash i j out p in
          let version : tx.version ≡ tx'.version =
            Rereads-inj read_int32_le (write_int32_le-Rereads tx.version v.version_fits)
              (write_int32_le-Rereads tx'.version w.version_fits)
              (i.version_written ∙ ap ok versions ∙ sym j.version_written) in
          let lock : tx.n_lock_time ≡ tx'.n_lock_time =
            Rereads-inj read_uint32_le (write_uint32_le-Rereads tx.n_lock_time v.lock_time_fits)
              (write_uint32_le-Rereads tx'.n_lock_time w.lock_time_fits)
              (i.lock_time_written ∙ ap ok locks ∙ sym j.lock_time_written) in
          elim (Tree-inj hash input_leaf (with_script []) ValidInput input_leaf-inj tx.inputs
            tx'.inputs out v.inputs_valid w.inputs_valid ins i.ins j.ins in_roots) [
              | inr c ↦ inr (inr (inl c))
              | inl same_ins ↦
                  elim (Tree-inj hash write_output (λ (o : Output). o) ValidOutput output-inj
                    tx.outputs tx'.outputs out v.outputs_valid w.outputs_valid outs i.outs j.outs
                    out_roots) [
                      | inr c ↦ inr (inr (inr c))
                      | inl same_outs ↦
                          let all_outs : tx.outputs ≡ tx'.outputs =
                            sym (map-id tx.outputs) ∙ same_outs ∙ map-id tx'.outputs in
                          inl (cc)
                    ]
            ]
    ]
