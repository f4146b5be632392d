-- ===== src/Block/Header.antt =====
-- Block headers (lib/bitcore/block/blockheader.ts): their bytes, their hash in three layers, and
-- the target that `bits` stands for. SHA-256 is a parameter.
pub mod RoundTrip
pub mod Commits
pub mod Target
use lotus_sdk.Common.{ℕ, zero, suc, ◌-◌, ◌*◌, ◌/◌, bit_and, ◌++◌, ltb, if◌then◌else◌}
use lotus_sdk.ScriptNum.{Buffer}
use lotus_sdk.Errors.{Result, ok, ◌>>=◌}
use lotus_sdk.Script.{
  read, read_uint8, read_uint16_le, read_uint32_le, write_uint8, write_uint16_le, write_uint32_le,
}
use lotus_sdk.Encoding.{
  ◌followed_by◌, read_uint48_le, write_uint48_le, read_uint56_le_bn, write_uint56_le_bn,
  read_uint64_le_bn, write_uint64_le_bn,
}

-- `timestamp` is a copy of `time`.
pub record BlockHeader : Type 0 where
  pub prev_hash : Buffer
  pub bits : ℕ
  pub time : ℕ
  pub reserved : ℕ
  pub nonce : ℕ
  pub version : ℕ
  pub size : ℕ
  pub height : ℕ
  pub epoch_block : Buffer
  pub merkle_root : Buffer
  pub extended_metadata : Buffer

-- `_fromBufferReader` and the constructor, which keeps every field that it is given by it.
unfoldable pub from_buffer_reader : Buffer → Result (BlockHeader × Buffer)
from_buffer_reader br = do
  let (prev_hash, after_prev) = read 32 br
  (bits, after_bits) ← read_uint32_le after_prev
  (time, after_time) ← read_uint48_le after_bits
  (reserved, after_reserved) ← read_uint16_le after_time
  (nonce, after_nonce) ← read_uint64_le_bn after_reserved
  (version, after_version) ← read_uint8 after_nonce
  let (size, after_size) = read_uint56_le_bn after_version
  (height, after_height) ← read_uint32_le after_size
  let (epoch_block, after_epoch) = read 32 after_height
  let (merkle_root, after_root) = read 32 after_epoch
  let (extended_metadata, rest) = read 32 after_root
  ok (
    record {
      prev_hash = prev_hash;
      bits = bits;
      time = time;
      reserved = reserved;
      nonce = nonce;
      version = version;
      size = size;
      height = height;
      epoch_block = epoch_block;
      merkle_root = merkle_root;
      extended_metadata = extended_metadata;
    },
    rest,
  )

unfoldable pub to_buffer_writer : BlockHeader → Result Buffer
to_buffer_writer header =
    ok header.prev_hash
    followed_by write_uint32_le header.bits
    followed_by write_uint48_le header.time
    followed_by write_uint16_le header.reserved
    followed_by write_uint64_le_bn header.nonce
    followed_by write_uint8 header.version
    followed_by write_uint56_le_bn header.size
    followed_by write_uint32_le header.height
    followed_by ok header.epoch_block
    followed_by ok header.merkle_root
    followed_by ok header.extended_metadata

module _ (sha256 : Buffer → Buffer) where
  unfoldable pub get_layer3_hash : BlockHeader → Result Buffer
  get_layer3_hash header = do
    bytes ←
        (write_uint8 header.version
          followed_by write_uint56_le_bn header.size
          followed_by write_uint32_le header.height
          followed_by ok header.epoch_block
          followed_by ok header.merkle_root
          followed_by ok header.extended_metadata)
    ok (sha256 bytes)

  unfoldable pub get_layer2_hash : BlockHeader → Buffer → Result Buffer
  get_layer2_hash header layer3_hash = do
    bytes ←
        (write_uint32_le header.bits
          followed_by write_uint48_le header.time
          followed_by write_uint16_le header.reserved
          followed_by write_uint64_le_bn header.nonce
          followed_by ok layer3_hash)
    ok (sha256 bytes)

  -- `_getHash`
  unfoldable pub get_hash : BlockHeader → Result Buffer
  get_hash header = do
    layer3_hash ← get_layer3_hash header
    layer2_hash ← get_layer2_hash header layer3_hash
    ok (sha256 (header.prev_hash ++ layer2_hash))

-- `while (mov-- > 0) { target = target.mul(new BN(2)) }`
unfoldable pub double_times : ℕ → ℕ → ℕ
double_times zero target = target
double_times (suc mov) target = double_times mov (target * 2)

-- `getTargetDifficulty` of 32 bits: where `bits >>> 24` is below 3, `mov` is negative and the loop
-- does not run.
unfoldable pub get_target_difficulty : ℕ → ℕ
get_target_difficulty bits =
    let exponent = bits / 16777216 in
    let target = bit_and bits 0xffffff in
    if ltb exponent 3 then target else double_times (8 * (exponent - 3)) target
