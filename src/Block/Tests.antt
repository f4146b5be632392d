-- ===== src/Block/Tests.antt =====
-- A block with one transaction.
use lotus_sdk.Common.{◌≡◌, ◌⊎◌, refl, true, [], ◌∷◌, ◌++◌, length, replicate, arith}
use lotus_sdk.ScriptNum.{Buffer, le_value, le_bytes}
use lotus_sdk.Errors.{ok}
use lotus_sdk.Common.Order.{lt_wf}
use lotus_sdk.Script.{write_uint8, write_uint16_le, write_uint32_le}
use lotus_sdk.Encoding.{
  write_all, write_int32_le, write_varint_num, write_var_length_buffer, write_uint64_le_bn,
  bn_to_buffer, to_array_like, le_digits, to_int32,
}
use lotus_sdk.Merkle.{
  tree_root, merkle_tree, tree_loop, compute_merkle_root, root_loop, pad_layer, hash_pairs,
  element_at,
}
use lotus_sdk.Transaction
use lotus_sdk.Transaction.Inputs
use lotus_sdk.Transaction.{
  get_txid, get_hash, write_output, satoshis_of, input_leaf, leaf_hashes, hashes_or_null,
  get_tx_input_hashes, get_tx_output_hashes,
}
use lotus_sdk.Block.Header.Commits.{HeaderClash}
use lotus_sdk.Merkle.Tests.{checksum, checksum-IsHash}
use lotus_sdk.Transaction.Tests.{transfer, transfer-ValidTransaction}
use lotus_sdk.Block.Header.{BlockHeader}
use lotus_sdk.Block.Header.RoundTrip.{ValidHeader}
use lotus_sdk.Block.{
  Block, to_buffer_writer, from_buffer_reader, valid_merkle_root, get_merkle_root,
  get_transaction_hashes, transaction_leaf,
}
use lotus_sdk.Block.RoundTrip.{ValidBlock, block-Rereads}
use lotus_sdk.Block.Commits.{TransactionClash, valid_merkle_root-commits}

abbrev header_with : Buffer → BlockHeader
header_with root = record {
  prev_hash = replicate 32 1;
  bits = 486604799;
  time = 1600000000000;
  reserved = 0;
  nonce = 9007199254740993;
  version = 1;
  size = 400;
  height = 2;
  epoch_block = replicate 32 2;
  merkle_root = root;
  extended_metadata = replicate 32 3;
}

abbrev mined : Block
mined = record { header = header_with (replicate 32 4); metadata = 0; transactions = transfer ∷ [] }

header_with-ValidHeader : (root : Buffer) → length root ≡ 32 → ValidHeader (header_with root)
header_with-ValidHeader root h = record {
  prev_length = refl;
  bits_fit = omega arith;
  time_fits = omega arith;
  reserved_fits = omega arith;
  nonce_fits = omega arith;
  version_fits = omega arith;
  size_fits = omega arith;
  height_fits = omega arith;
  epoch_length = refl;
  root_length = h;
  metadata_length = refl;
}

mined-ValidBlock : ValidBlock mined
mined-ValidBlock = record {
  header_valid = header_with-ValidHeader (replicate 32 4) refl;
  metadata_fits = omega arith;
  transactions_fit = omega arith;
  transactions_valid = (transfer-ValidTransaction, tt);
}

block-Rereads_example :
    (bytes : Buffer) × (to_buffer_writer mined ≡ ok bytes)
    × ((rest : Buffer) → from_buffer_reader (bytes ++ rest) ≡ ok (mined, rest))
block-Rereads_example = block-Rereads mined mined-ValidBlock

-- The root of its one transaction.
abbrev root : Buffer
root = 223 ∷ replicate 31 0

abbrev rooted : Block
rooted = record { header = header_with root; metadata = 0; transactions = transfer ∷ [] }

rooted-ValidBlock : ValidBlock rooted
rooted-ValidBlock = record {
  header_valid = header_with-ValidHeader root refl;
  metadata_fits = omega arith;
  transactions_fit = omega arith;
  transactions_valid = (transfer-ValidTransaction, tt);
}

-- The same block with other metadata.
abbrev annotated : Block
annotated = record { header = header_with root; metadata = 9; transactions = transfer ∷ [] }

annotated-ValidBlock : ValidBlock annotated
annotated-ValidBlock = record {
  header_valid = header_with-ValidHeader root refl;
  metadata_fits = omega arith;
  transactions_fit = omega arith;
  transactions_valid = (transfer-ValidTransaction, tt);
}

rooted-root : get_merkle_root checksum rooted ≡ ok root
unfolding get_merkle_root get_transaction_hashes transaction_leaf get_txid get_hash
    Transaction.to_buffer_writer Inputs.to_buffer_writer write_output satoshis_of input_leaf
    leaf_hashes hashes_or_null get_tx_input_hashes get_tx_output_hashes tree_root merkle_tree
    tree_loop compute_merkle_root root_loop pad_layer hash_pairs element_at write_all write_int32_le
    write_varint_num write_var_length_buffer write_uint64_le_bn bn_to_buffer to_array_like le_digits
    le_bytes write_uint8 write_uint16_le write_uint32_le to_int32 lt_wf
rooted-root = refl

rooted_valid : valid_merkle_root checksum rooted ≡ ok true
unfolding valid_merkle_root le_value
rooted_valid = rw rooted-root refl

annotated_valid : valid_merkle_root checksum annotated ≡ ok true
unfolding valid_merkle_root get_merkle_root
annotated_valid = rooted_valid

valid_merkle_root-commits_example :
    ((rooted.header ≡ annotated.header) × (rooted.transactions ≡ annotated.transactions))
    ⊎ (HeaderClash checksum rooted.header annotated.header
        ⊎ TransactionClash checksum rooted annotated)
valid_merkle_root-commits_example =
    valid_merkle_root-commits checksum checksum rooted annotated checksum-IsHash rooted-ValidBlock
      annotated-ValidBlock refl rooted_valid annotated_valid refl
