-- ===== src/Sighash/ForkId/Fields.antt =====
-- The bytes that are hashed fix their parts.
use lotus_sdk.Common.{ℕ, List, [], ◌++◌, length, ◌<◌, ◌≤◌, ◌≡◌, refl, sym, ap, ◌∙◌}
use lotus_sdk.ScriptNum.{Buffer}
use lotus_sdk.Script.{Chunk, read_uint32_le}
use lotus_sdk.Encoding.{write_var_length_buffer, read_uint64_le_bn, read_var_length_buffer}
use lotus_sdk.Transaction.{Transaction}
use mathlib.Core.List.{append_assoc, append-nil}
use lotus_sdk.Encoding.RoundTrip.{write_uint32_le-Rereads, write_uint64_le_bn-Rereads}
use lotus_sdk.Encoding.Varint.{write_var_length_buffer-Rereads}
use lotus_sdk.Merkle.Binding.{append-inj}
use lotus_sdk.Transaction.Scripts.{with_script}
use lotus_sdk.Transaction.RoundTrip.{ValidInput, ValidTransaction}
use lotus_sdk.Sighash.ForkId.Parts.{Rereads-first, IsPositive, version-first, Parts}
use lotus_sdk.Sighash.ForkId.Rows.{prevout-First, sequence-First}
use lotus_sdk.Sighash.ForkId.Hashes.{element-All}

-- Parts that make the same bytes are the same.
pub Parts-inj :
    {tx tx' : Transaction} {t t' i i' : ℕ} {subscript subscript' : List Chunk}
    {satoshis satoshis' : ℕ} {hp hp' hs hs' ho ho' bytes bytes' : Buffer}
    → ValidTransaction tx
    → ValidTransaction tx'
    → IsPositive tx.version
    → IsPositive tx'.version
    → satoshis < 18446744073709551616
    → satoshis' < 18446744073709551616
    → t < 4294967296
    → t' < 4294967296
    → length hp ≡ length hp'
    → length hs ≡ length hs'
    → length ho ≡ length ho'
    → (p : Parts tx t i subscript satoshis hp hs ho bytes)
    → (p' : Parts tx' t' i' subscript' satoshis' hp' hs' ho' bytes')
    → length p.script ≤ 9007199254740992
    → length p'.script ≤ 9007199254740992
    → bytes ≡ bytes'
    → (tx.version ≡ tx'.version)
      × (hp ≡ hp')
      × (hs ≡ hs')
      × (with_script [] p.input ≡ with_script [] p'.input)
      × (p.script ≡ p'.script)
      × (satoshis ≡ satoshis')
      × (ho ≡ ho')
      × (tx.n_lock_time ≡ tx'.n_lock_time)
      × (t ≡ t')
unfolding write_var_length_buffer with_script
Parts-inj {tx} {tx'} {t} {t'} {i} {i'} {satoshis} {satoshis'} {hp} {hp'} {hs} {hs'} {ho} {ho'} v w
      pv pw fits fits' low low' lp ls lo p p' small small' same =
    let valid = element-All ValidInput tx.inputs i v.inputs_valid p.at_index in
    let valid' = element-All ValidInput tx'.inputs i' w.inputs_valid p'.at_index in
    let whole = p.whole ∙ same ∙ sym p'.whole in
    let (version, r1) =
      version-first tx.version tx'.version p.version p'.version _ _ pv pw p.version_written
        p'.version_written whole in
    let (hps, r2) = append-inj hp _ hp' _ lp r1 in
    let (hss, r3) = append-inj hs _ hs' _ ls r2 in
    let (prevout, r4) =
      prevout-First p.input p'.input p.prevout p'.prevout _ _ valid valid' p.prevout_written
        p'.prevout_written r3 in
    let (script, r5) =
      Rereads-first read_var_length_buffer (p.size ++ p.script) (p'.size ++ p'.script) _ _
        (write_var_length_buffer-Rereads p.script small)
        (write_var_length_buffer-Rereads p'.script small') (rw p.size_written refl)
        (rw p'.size_written refl)
        (append_assoc p.size p.script _ ∙ r4 ∙ sym (append_assoc p'.size p'.script _)) in
    let (amount, r6) =
      Rereads-first read_uint64_le_bn p.amount p'.amount _ _
        (write_uint64_le_bn-Rereads satoshis fits) (write_uint64_le_bn-Rereads satoshis' fits')
        p.amount_written p'.amount_written r5 in
    let (sequence, r7) =
      sequence-First p.input p'.input p.sequence p'.sequence _ _ valid valid' p.sequence_written
        p'.sequence_written r6 in
    let (hos, r8) = append-inj ho _ ho' _ lo r7 in
    let (lock, r9) =
      Rereads-first read_uint32_le p.lock_time p'.lock_time _ _
        (write_uint32_le-Rereads tx.n_lock_time v.lock_time_fits)
        (write_uint32_le-Rereads tx'.n_lock_time w.lock_time_fits) p.lock_time_written
        p'.lock_time_written r8 in
    let (hash_type, _) =
      Rereads-first read_uint32_le p.hash_type p'.hash_type [] [] (write_uint32_le-Rereads t low)
        (write_uint32_le-Rereads t' low') p.hash_type_written p'.hash_type_written
        (append-nil p.hash_type ∙ r9 ∙ sym (append-nil p'.hash_type)) in
    let id : p.input.prev_tx_id ≡ p'.input.prev_tx_id = ap (λ z. z.0) prevout in
    let index : p.input.output_index ≡ p'.input.output_index = ap (λ z. z.1) prevout in
    (version, hps, hss, cc, script, amount, hos, lock, hash_type)
