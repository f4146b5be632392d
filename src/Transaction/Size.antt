-- ===== src/Transaction/Size.antt =====
-- The sizes that are announced for inputs and outputs.
use lotus_sdk.Common.{
  ◌≤◌, ◌≡◌, refl, ap, ◌++◌, reverse, length, length-append, arith, length-reverse,
}
use lotus_sdk.ScriptNum.{Buffer}
use lotus_sdk.Errors.{ok}
use lotus_sdk.Encoding.{le_digits, write_uint64_le_bn}
use lotus_sdk.Encoding.Digits.{length-le_digits, reverse-bn_to_buffer}
use lotus_sdk.Encoding.Lengths.{write_uint32_le-length}
use lotus_sdk.Encoding.RoundTrip.{write_uint32_le-Rereads}
use lotus_sdk.Encoding.Varint.{write_varint_num-Rereads}
use lotus_sdk.Transaction.Inputs
use lotus_sdk.Transaction.Inputs.{Input}
use lotus_sdk.Transaction.Outputs
use lotus_sdk.Transaction.Outputs.{Output}
use lotus_sdk.Transaction.RoundTrip.{ValidInput}

-- `getSize` of an input is the number of bytes that it is written as, for an input with a 32-byte
-- identifier, numbers that fit and a script of at most 2^53 bytes.
input_size :
    (input : Input)
    → ValidInput input
    → (bytes : Buffer) × (Inputs.to_buffer_writer input ≡ ok bytes)
      × (Inputs.get_size input ≡ ok (length bytes))
unfolding Inputs.to_buffer_writer Inputs.get_size
input_size input v =
    let (index, index_written, _) = write_uint32_le-Rereads input.output_index v.index_fits in
    let (varint, varint_written, _) =
      write_varint_num-Rereads (length input.script_buffer) v.script_fits in
    let (sequence, sequence_written, _) =
      write_uint32_le-Rereads input.sequence_number v.sequence_fits in
    let id = reverse input.prev_tx_id in
    let script = input.script_buffer in
    (
      id ++ (index ++ (varint ++ (script ++ sequence))),
      rw (index_written, varint_written, sequence_written) refl,
      rw varint_written (
          ap ok (
            omega (
              arith,
              length-append id (index ++ (varint ++ (script ++ sequence))),
              length-append index (varint ++ (script ++ sequence)),
              length-append varint (script ++ sequence),
              length-append script sequence,
              length-reverse input.prev_tx_id,
              v.id_length,
              write_uint32_le-length input.output_index index_written,
              write_uint32_le-length input.sequence_number sequence_written,
            ))),
    )

-- `getSize` of an output is the number of bytes that it is written as, for a script of at most
-- 2^53 bytes.
output_size :
    (output : Output)
    → length output.script_buffer ≤ 9007199254740992
    → (bytes : Buffer) × (Outputs.to_buffer_writer output ≡ ok bytes)
      × (Outputs.get_size output ≡ ok (length bytes))
unfolding Outputs.to_buffer_writer Outputs.get_size write_uint64_le_bn
output_size output h =
    let (varint, varint_written, _) = write_varint_num-Rereads (length output.script_buffer) h in
    let satoshis = le_digits 8 output.satoshis_bn in
    let script = output.script_buffer in
    (
      satoshis ++ (varint ++ script),
      rw (reverse-bn_to_buffer 8 output.satoshis_bn (omega arith), varint_written) refl,
      rw varint_written (
          ap ok (
            omega (
              arith,
              length-append satoshis (varint ++ script),
              length-append varint script,
              length-le_digits 8 output.satoshis_bn,
            ))),
    )
