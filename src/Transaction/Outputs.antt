-- ===== src/Transaction/Outputs.antt =====
-- The outputs of a transaction on the wire (lib/bitcore/transaction/output.ts).
use lotus_sdk.Common.{ℕ, ◌+◌, [], length, ◌==◌, if◌then◌else◌}
use lotus_sdk.ScriptNum.{Buffer}
use lotus_sdk.Errors.{Result, ok, ◌>>=◌}
use lotus_sdk.Script.{read}
use lotus_sdk.Encoding.{
  ◌followed_by◌, read_uint64_le_bn, write_uint64_le_bn, read_varint_num, write_varint_num,
}

-- `_satoshisBN` and `_scriptBuffer`. The field `satoshis` is the double nearest to `_satoshisBN`.
pub record Output : Type 0 where
  pub satoshis_bn : ℕ
  pub script_buffer : Buffer

unfoldable pub from_buffer_reader : Buffer → Result (Output × Buffer)
from_buffer_reader br = do
  (satoshis, after_satoshis) ← read_uint64_le_bn br
  (size, after_size) ← read_varint_num after_satoshis
  let (script, rest) = if size == 0 then ([], after_size) else read size after_size
  ok (record { satoshis_bn = satoshis; script_buffer = script }, rest)

unfoldable pub to_buffer_writer : Output → Result Buffer
to_buffer_writer output =
    write_uint64_le_bn output.satoshis_bn
    followed_by write_varint_num (length output.script_buffer)
    followed_by ok output.script_buffer

unfoldable pub get_size : Output → Result ℕ
get_size output = do
  varint ← write_varint_num (length output.script_buffer)
  ok (8 + length varint + length output.script_buffer)
