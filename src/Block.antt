-- ===== src/Block.antt =====
-- Blocks (lib/bitcore/block/block.ts): their bytes and the Merkle root of their transactions. The
-- hash functions are parameters.
pub mod Header
pub mod RoundTrip
pub mod Commits
pub mod Tests
use lotus_sdk.Common.{ℕ, Bool, List, ◌++◌, reverse, length, ◌==◌, if◌then◌else◌}
use lotus_sdk.ScriptNum.{Buffer, le_value}
use lotus_sdk.Errors.{Result, ok, throws, no_data, ◌>>=◌}
use lotus_sdk.Script.{read_uint8, write_uint8}
use lotus_sdk.Encoding.{◌followed_by◌, read_varint_num, write_varint_num, read_times, write_all}
use lotus_sdk.Merkle.{tree_root}
use lotus_sdk.Transaction
use lotus_sdk.Transaction.{get_txid, hashes_or_null}
use lotus_sdk.Block.Header
use lotus_sdk.Block.Header.{BlockHeader}

pub record Block : Type 0 where
  pub header : BlockHeader
  pub metadata : ℕ
  pub transactions : List Transaction.Transaction

unfoldable pub from_buffer_reader : Buffer → Result (Block × Buffer)
from_buffer_reader br = if length br == 0 then throws no_data else (do
  (header, after_header) ← Header.from_buffer_reader br
  (metadata, after_metadata) ← read_uint8 after_header
  (transaction_count, at_transactions) ← read_varint_num after_metadata
  (transactions, rest) ← read_times Transaction.from_buffer_reader transaction_count at_transactions
  ok (record { header = header; metadata = metadata; transactions = transactions }, rest))

unfoldable pub to_buffer_writer : Block → Result Buffer
to_buffer_writer block =
    Header.to_buffer_writer block.header
    followed_by write_uint8 block.metadata
    followed_by write_varint_num (length block.transactions)
    followed_by write_all Transaction.to_buffer_writer block.transactions

module _ (sha256sha256 : Buffer → Buffer) where
  -- `Buffer.concat([hash, txid])`
  unfoldable pub transaction_leaf : Transaction.Transaction → Result Buffer
  transaction_leaf tx = do
    txid ← get_txid sha256sha256 tx
    hash ← Transaction.get_hash sha256sha256 tx
    ok (hash ++ txid)

  unfoldable pub get_transaction_hashes : List Transaction.Transaction → Result (List Buffer)
  get_transaction_hashes transactions = hashes_or_null sha256sha256 transaction_leaf transactions

  unfoldable pub get_merkle_root : Block → Result Buffer
  get_merkle_root block = do
    hashes ← get_transaction_hashes block.transactions
    tree_root sha256sha256 hashes

  -- The numbers of the hex strings are compared.
  unfoldable pub valid_merkle_root : Block → Result Bool
  valid_merkle_root block = do
    root ← get_merkle_root block
    ok (le_value (reverse block.header.merkle_root) == le_value (reverse root))
