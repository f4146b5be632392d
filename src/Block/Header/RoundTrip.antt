-- ===== src/Block/Header/RoundTrip.antt =====
-- A block header is read back from its bytes.
use lotus_sdk.Common.{◌<◌, ◌≡◌, refl, ◌++◌, length, take-length-append, drop-length-append}
use mathlib.Core.List.{append_assoc}
use lotus_sdk.ScriptNum.{Buffer}
use lotus_sdk.Errors.{ok, ok-inj}
use lotus_sdk.Script.{read}
use lotus_sdk.Encoding.{read_uint56_le_bn}
use lotus_sdk.Encoding.RoundTrip.{
  write_uint8-Rereads, write_uint16_le-Rereads, write_uint32_le-Rereads, write_uint48_le-Rereads,
  write_uint56_le_bn-Rereads, write_uint64_le_bn-Rereads,
}
use lotus_sdk.Block.Header.{BlockHeader, from_buffer_reader, to_buffer_writer}

pub record ValidHeader (header : BlockHeader) : Type 0 where
  pub prev_length : length header.prev_hash ≡ 32
  pub bits_fit : header.bits < 4294967296
  pub time_fits : header.time < 281474976710656
  pub reserved_fits : header.reserved < 65536
  pub nonce_fits : header.nonce < 18446744073709551616
  pub version_fits : header.version < 256
  pub size_fits : header.size < 72057594037927936
  pub height_fits : header.height < 4294967296
  pub epoch_length : length header.epoch_block ≡ 32
  pub root_length : length header.merkle_root ≡ 32
  pub metadata_length : length header.extended_metadata ≡ 32

read-hash : (hash rest : Buffer) → length hash ≡ 32 → read 32 (hash ++ rest) ≡ (hash, rest)
unfolding read
read-hash hash rest h = rw (← h, take-length-append hash rest, drop-length-append hash rest) refl

-- A header with 32-byte hashes and numbers in range is written without an error, and
-- `fromBufferReader` reads exactly these bytes back to the header.
pub header-Rereads :
    (header : BlockHeader)
    → ValidHeader header
    → (bytes : Buffer) × (to_buffer_writer header ≡ ok bytes)
      × ((rest : Buffer) → from_buffer_reader (bytes ++ rest) ≡ ok (header, rest))
unfolding to_buffer_writer from_buffer_reader
header-Rereads header v =
    let prev = header.prev_hash in
    let (bits, bits_written, bits_read) = write_uint32_le-Rereads header.bits v.bits_fit in
    let (time, time_written, time_read) = write_uint48_le-Rereads header.time v.time_fits in
    let (reserved, reserved_written, reserved_read) =
      write_uint16_le-Rereads header.reserved v.reserved_fits in
    let (nonce, nonce_written, nonce_read) = write_uint64_le_bn-Rereads header.nonce v.nonce_fits in
    let (version, version_written, version_read) =
      write_uint8-Rereads header.version v.version_fits in
    let (size, size_written, size_read) = write_uint56_le_bn-Rereads header.size v.size_fits in
    let (height, height_written, height_read) =
      write_uint32_le-Rereads header.height v.height_fits in
    let epoch = header.epoch_block in
    let root = header.merkle_root in
    let metadata = header.extended_metadata in
    (
      prev
          ++ (bits
              ++ (time
                  ++ (reserved
                      ++ (nonce
                          ++ (version ++ (size ++ (height ++ (epoch ++ (root ++ metadata))))))))),
      rw
          (
            bits_written, time_written, reserved_written, nonce_written, version_written,
            size_written, height_written,
          )
          refl,
      λ rest.
          let r10 = metadata ++ rest in
          let r9 = root ++ r10 in
          let r8 = epoch ++ r9 in
          let r7 = height ++ r8 in
          let r6 = size ++ r7 in
          let r5 = version ++ r6 in
          let r4 = nonce ++ r5 in
          let r3 = reserved ++ r4 in
          let r2 = time ++ r3 in
          let r1 = bits ++ r2 in
          let flat : prev
                ++ (bits
                    ++ (time
                        ++ (reserved
                            ++ (nonce
                                ++ (version
                                    ++ (size ++ (height ++ (epoch ++ (root ++ metadata)))))))))
                ++ rest
              ≡ prev ++ r1 =
            simp append_assoc refl in
          let sized : read_uint56_le_bn (size ++ r7) ≡ (header.size, r7) = ok-inj (size_read r7) in
          rw
            (
              flat,
              read-hash prev r1 v.prev_length,
              bits_read r2,
              time_read r3,
              reserved_read r4,
              nonce_read r5,
              version_read r6,
              sized,
              height_read r8,
              read-hash epoch r9 v.epoch_length,
              read-hash root r10 v.root_length,
              read-hash metadata rest v.metadata_length,
            )
            refl,
    )
