-- ===== src/Transaction/RoundTrip.antt =====
-- A transaction is read back from its bytes.
use lotus_sdk.Common.{
  ◌<◌, ◌≤◌, ◌≡◌, refl, ◌∙◌, false, [], ◌∷◌, ◌++◌, reverse, All, length, ◌==◌, if◌then◌else◌, lt→ltb,
  arith, take-length-append, drop-length-append, length-reverse, All-map,
}
use lotus_sdk.Common.Ints.{ℤ}
use mathlib.Core.List.{append_assoc, reverse-reverse}
use lotus_sdk.ScriptNum.{Buffer}
use lotus_sdk.Errors.{ok}
use lotus_sdk.Script.{read}
use lotus_sdk.Encoding.{read_uint_le, read_reverse, write_var_length_buffer, read_int32_le}
use lotus_sdk.Encoding.RoundTrip.{
  Rereads, IsInt32, write_uint32_le-Rereads, write_int32_le-Rereads, write_uint64_le_bn-Rereads,
  write_all-Rereads,
}
use lotus_sdk.Encoding.Varint.{write_varint_num-Rereads, var_length-read}
use lotus_sdk.Transaction.{
  Transaction, satoshis_of, write_output, to_buffer_writer, from_buffer_reader,
}
use lotus_sdk.Transaction.Inputs
use lotus_sdk.Transaction.Inputs.{Input}
use lotus_sdk.Transaction.Outputs
use lotus_sdk.Transaction.Outputs.{Output}

-- Every array has at most 2^53 elements.
pub record ValidInput (input : Input) : Type 0 where
  pub id_length : length input.prev_tx_id ≡ 32
  pub index_fits : input.output_index < 4294967296
  pub script_fits : length input.script_buffer ≤ 9007199254740992
  pub sequence_fits : input.sequence_number < 4294967296

pub record ValidOutput (output : Output) : Type 0 where
  pub satoshis_fit : output.satoshis_bn < 9007199254740992
  pub script_fits : length output.script_buffer ≤ 9007199254740992

pub record ValidTransaction (tx : Transaction) : Type 0 where
  pub version_fits : IsInt32 tx.version
  pub inputs_fit : length tx.inputs ≤ 9007199254740992
  pub inputs_valid : All ValidInput tx.inputs
  pub outputs_fit : length tx.outputs ≤ 9007199254740992
  pub outputs_valid : All ValidOutput tx.outputs
  pub lock_time_fits : tx.n_lock_time < 4294967296

read_reverse-id :
    (id rest : Buffer) → length id ≡ 32 → read_reverse 32 (reverse id ++ rest) ≡ (id, rest)
unfolding read_reverse
read_reverse-id id rest h =
    let size : length (reverse id) ≡ 32 = length-reverse id ∙ h in
    rw
      (
        ← size,
        take-length-append (reverse id) rest,
        drop-length-append (reverse id) rest,
        reverse-reverse id,
      )
      refl

input-Rereads :
    (input : Input)
    → ValidInput input
    → Rereads (Inputs.to_buffer_writer input) Inputs.from_buffer_reader input
unfolding Inputs.to_buffer_writer Inputs.from_buffer_reader
input-Rereads input v =
    let (index, index_written, index_read) =
      write_uint32_le-Rereads input.output_index v.index_fits in
    let (varint, varint_written, script_read) = var_length-read input.script_buffer v.script_fits in
    let (sequence, sequence_written, sequence_read) =
      write_uint32_le-Rereads input.sequence_number v.sequence_fits in
    let id = reverse input.prev_tx_id in
    let script = input.script_buffer in
    (
      id ++ (index ++ (varint ++ (script ++ sequence))),
      rw (index_written, varint_written, sequence_written) refl,
      λ rest.
          let flat : id ++ (index ++ (varint ++ (script ++ sequence))) ++ rest
              ≡ id ++ (index ++ (varint ++ (script ++ (sequence ++ rest)))) =
            simp append_assoc refl in
          rw
            (
              flat,
              read_reverse-id input.prev_tx_id (index ++ (varint ++ (script ++ (sequence ++ rest))))
                  v.id_length,
              index_read (varint ++ (script ++ (sequence ++ rest))),
              script_read (sequence ++ rest),
              sequence_read rest,
            )
            refl,
    )

read_script :
    (script rest : Buffer)
    → (if length script == 0 then ([], script ++ rest) else read (length script) (script ++ rest))
      ≡ (script, rest)
unfolding read
read_script [] rest = refl
read_script (b ∷ script) rest =
    rw (take-length-append script rest, drop-length-append script rest) (ground arith)

pub output-Rereads :
    (output : Output)
    → ValidOutput output
    → Rereads (write_output output) Outputs.from_buffer_reader output
unfolding write_output satoshis_of write_var_length_buffer Outputs.from_buffer_reader
output-Rereads output v =
    let (satoshis, satoshis_written, satoshis_read) =
      write_uint64_le_bn-Rereads output.satoshis_bn (omega (arith, v.satoshis_fit)) in
    let (varint, varint_written, varint_read) =
      write_varint_num-Rereads (length output.script_buffer) v.script_fits in
    let script = output.script_buffer in
    (
      satoshis ++ (varint ++ script),
      rw (lt→ltb _ _ v.satoshis_fit, satoshis_written, varint_written) refl,
      λ rest.
          let flat : satoshis ++ (varint ++ script) ++ rest
              ≡ satoshis ++ (varint ++ (script ++ rest)) =
            simp append_assoc refl in
          rw
            (
              flat,
              satoshis_read (varint ++ (script ++ rest)),
              varint_read (script ++ rest),
              read_script script rest,
            )
            refl,
    )

not_empty :
    (input : Buffer) {version : ℤ} {rest : Buffer}
    → read_int32_le input ≡ ok (version, rest)
    → (length input == 0) ≡ false
unfolding read_int32_le read_uint_le
not_empty [] h = cc
not_empty (b ∷ input) h = ground arith

-- A transaction with 32-byte identifiers, numbers in range and amounts below 2^53 is written
-- without an error, and `fromBufferReader` reads exactly these bytes back to the transaction.
pub to_buffer_writer-Rereads :
    (tx : Transaction)
    → ValidTransaction tx
    → (bytes : Buffer) × (to_buffer_writer tx ≡ ok bytes)
      × ((rest : Buffer) → from_buffer_reader (bytes ++ rest) ≡ ok (tx, rest))
unfolding to_buffer_writer from_buffer_reader
to_buffer_writer-Rereads tx v =
    let (version, version_written, version_read) =
      write_int32_le-Rereads tx.version v.version_fits in
    let (ins, ins_written, ins_read) = write_varint_num-Rereads (length tx.inputs) v.inputs_fit in
    let (inputs, inputs_written, inputs_read) =
      write_all-Rereads Inputs.to_buffer_writer Inputs.from_buffer_reader tx.inputs
        (All-map input-Rereads tx.inputs v.inputs_valid) in
    let (outs, outs_written, outs_read) =
      write_varint_num-Rereads (length tx.outputs) v.outputs_fit in
    let (outputs, outputs_written, outputs_read) =
      write_all-Rereads write_output Outputs.from_buffer_reader tx.outputs
        (All-map output-Rereads tx.outputs v.outputs_valid) in
    let (lock, lock_written, lock_read) = write_uint32_le-Rereads tx.n_lock_time v.lock_time_fits in
    (
      version ++ (ins ++ (inputs ++ (outs ++ (outputs ++ lock)))),
      rw (version_written, ins_written, inputs_written, outs_written, outputs_written, lock_written)
          refl,
      λ rest.
          let flat : version ++ (ins ++ (inputs ++ (outs ++ (outputs ++ lock)))) ++ rest
              ≡ version ++ (ins ++ (inputs ++ (outs ++ (outputs ++ (lock ++ rest))))) =
            simp append_assoc refl in
          rw
            (
              flat,
              not_empty _ (version_read (ins ++ (inputs ++ (outs ++ (outputs ++ (lock ++ rest)))))),
              version_read (ins ++ (inputs ++ (outs ++ (outputs ++ (lock ++ rest))))),
              ins_read (inputs ++ (outs ++ (outputs ++ (lock ++ rest)))),
              inputs_read (outs ++ (outputs ++ (lock ++ rest))),
              outs_read (outputs ++ (lock ++ rest)),
              outputs_read (lock ++ rest),
              lock_read rest,
            )
            refl,
    )
