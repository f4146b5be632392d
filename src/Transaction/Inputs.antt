-- ===== src/Transaction/Inputs.antt =====
-- The inputs of a transaction on the wire (lib/bitcore/transaction/input.ts).
use lotus_sdk.Common.{ℕ, ◌+◌, reverse, length}
use lotus_sdk.ScriptNum.{Buffer}
use lotus_sdk.Errors.{Result, ok, ◌>>=◌}
use lotus_sdk.Script.{read_uint32_le, write_uint32_le}
use lotus_sdk.Encoding.{◌followed_by◌, read_reverse, read_var_length_buffer, write_varint_num}

-- The fields that are written, `_scriptBuffer` among them.
pub record Input : Type 0 where
  pub prev_tx_id : Buffer
  pub output_index : ℕ
  pub script_buffer : Buffer
  pub sequence_number : ℕ

unfoldable pub from_buffer_reader : Buffer → Result (Input × Buffer)
from_buffer_reader br = do
  let (prev_tx_id, after_id) = read_reverse 32 br
  (output_index, after_index) ← read_uint32_le after_id
  (script_buffer, after_script) ← read_var_length_buffer after_index
  (sequence_number, rest) ← read_uint32_le after_script
  ok (
    record {
      prev_tx_id = prev_tx_id;
      output_index = output_index;
      script_buffer = script_buffer;
      sequence_number = sequence_number;
    },
    rest,
  )

unfoldable pub to_buffer_writer : Input → Result Buffer
to_buffer_writer input =
    ok (reverse input.prev_tx_id)
    followed_by write_uint32_le input.output_index
    followed_by write_varint_num (length input.script_buffer)
    followed_by ok input.script_buffer
    followed_by write_uint32_le input.sequence_number

unfoldable pub get_size : Input → Result ℕ
get_size input = do
  varint ← write_varint_num (length input.script_buffer)
  ok (32 + 4 + length varint + length input.script_buffer + 4)
