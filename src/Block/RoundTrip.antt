-- ===== src/Block/RoundTrip.antt =====
-- A block is read back from its bytes.
use lotus_sdk.Common.{◌<◌, ◌≤◌, ◌≡◌, refl, false, [], ◌∷◌, ◌++◌, All, length, ◌==◌, arith, All-map}
use mathlib.Core.List.{append_assoc}
use lotus_sdk.ScriptNum.{Buffer}
use lotus_sdk.Errors.{ok}
use lotus_sdk.Script.{read_uint32_le, read}
use lotus_sdk.Encoding.RoundTrip.{write_uint8-Rereads, write_all-Rereads}
use lotus_sdk.Encoding.Varint.{write_varint_num-Rereads}
use lotus_sdk.Transaction
use lotus_sdk.Transaction.RoundTrip.{ValidTransaction, to_buffer_writer-Rereads}
use lotus_sdk.Block.Header
use lotus_sdk.Block.Header.RoundTrip.{ValidHeader, header-Rereads}
use lotus_sdk.Block.{Block, from_buffer_reader, to_buffer_writer}

pub record ValidBlock (block : Block) : Type 0 where
  pub header_valid : ValidHeader block.header
  pub metadata_fits : block.metadata < 256
  pub transactions_fit : length block.transactions ≤ 9007199254740992
  pub transactions_valid : All ValidTransaction block.transactions

not_empty :
    (br : Buffer) {header : Header.BlockHeader} {rest : Buffer}
    → Header.from_buffer_reader br ≡ ok (header, rest)
    → (length br == 0) ≡ false
unfolding Header.from_buffer_reader read read_uint32_le
not_empty [] h = cc
not_empty (b ∷ br) h = ground arith

-- A block with a valid header, a byte of metadata and valid transactions is written without an
-- error, and `_fromBufferReader` reads exactly these bytes back to the block.
pub block-Rereads :
    (block : Block)
    → ValidBlock block
    → (bytes : Buffer) × (to_buffer_writer block ≡ ok bytes)
      × ((rest : Buffer) → from_buffer_reader (bytes ++ rest) ≡ ok (block, rest))
unfolding to_buffer_writer from_buffer_reader
block-Rereads block v =
    let (header, header_written, header_read) = header-Rereads block.header v.header_valid in
    let (metadata, metadata_written, metadata_read) =
      write_uint8-Rereads block.metadata v.metadata_fits in
    let (count, count_written, count_read) =
      write_varint_num-Rereads (length block.transactions) v.transactions_fit in
    let (txs, txs_written, txs_read) =
      write_all-Rereads Transaction.to_buffer_writer Transaction.from_buffer_reader
        block.transactions
        (All-map to_buffer_writer-Rereads block.transactions v.transactions_valid) in
    (
      header ++ (metadata ++ (count ++ txs)),
      rw (header_written, metadata_written, count_written, txs_written) refl,
      λ rest.
          let flat : header ++ (metadata ++ (count ++ txs)) ++ rest
              ≡ header ++ (metadata ++ (count ++ (txs ++ rest))) =
            simp append_assoc refl in
          let first = header_read (metadata ++ (count ++ (txs ++ rest))) in
          rw
            (
              flat,
              not_empty _ first,
              first,
              metadata_read (count ++ (txs ++ rest)),
              count_read (txs ++ rest),
              txs_read rest,
            )
            refl,
    )
