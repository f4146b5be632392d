-- ===== src/Block/Header/Commits.antt =====
-- What the hash of a block header commits to.
use lotus_sdk.Common.{◌≡◌, ◌⊎◌, inl, inr, refl, sym, ap, ◌∙◌, ◌++◌, length, length-append, arith}
use mathlib.Core.List.{append_assoc}
use lotus_sdk.ScriptNum.{Buffer}
use lotus_sdk.Errors.{ok, ok-inj}
use lotus_sdk.Encoding.RoundTrip.{
  Rereads-inj, write_uint8-Rereads, write_uint16_le-Rereads, write_uint32_le-Rereads,
  write_uint48_le-Rereads, write_uint56_le_bn-Rereads, write_uint64_le_bn-Rereads,
}
use lotus_sdk.Encoding.Lengths.{
  write_uint16_le-length, write_uint32_le-length, write_uint48_le-length, write_uint64_le_bn-length,
}
use lotus_sdk.Merkle.Binding.{Collision, append-inj, same_hash}
use lotus_sdk.Block.Header.{
  BlockHeader, from_buffer_reader, to_buffer_writer, get_layer2_hash, get_layer3_hash, get_hash,
}
use lotus_sdk.Block.Header.RoundTrip.{ValidHeader, header-Rereads}

-- The bytes of the two inner layers of a header: together with the previous hash they are the
-- bytes of the header.
pub record Layers (sha256 : Buffer → Buffer) (header : BlockHeader) : Type 0 where
  pub layer2 : Buffer
  pub layer3 : Buffer
  pub layer2_length : length layer2 ≡ 20
  pub whole : to_buffer_writer header ≡ ok (header.prev_hash ++ (layer2 ++ layer3))
  pub hashed :
      get_hash sha256 header ≡ ok (sha256 (header.prev_hash ++ sha256 (layer2 ++ sha256 layer3)))

layers :
    (sha256 : Buffer → Buffer) (header : BlockHeader) → ValidHeader header → Layers sha256 header
unfolding to_buffer_writer get_hash get_layer2_hash get_layer3_hash
layers sha256 header v =
    let (bits, bits_written, _) = write_uint32_le-Rereads header.bits v.bits_fit in
    let (time, time_written, _) = write_uint48_le-Rereads header.time v.time_fits in
    let (reserved, reserved_written, _) = write_uint16_le-Rereads header.reserved v.reserved_fits in
    let (nonce, nonce_written, _) = write_uint64_le_bn-Rereads header.nonce v.nonce_fits in
    let (version, version_written, _) = write_uint8-Rereads header.version v.version_fits in
    let (size, size_written, _) = write_uint56_le_bn-Rereads header.size v.size_fits in
    let (height, height_written, _) = write_uint32_le-Rereads header.height v.height_fits in
    let tail = header.epoch_block ++ (header.merkle_root ++ header.extended_metadata) in
    let layer3 = version ++ (size ++ (height ++ tail)) in
    let flat : bits ++ (time ++ (reserved ++ (nonce ++ layer3)))
        ≡ bits ++ (time ++ (reserved ++ nonce)) ++ layer3 =
      simp append_assoc refl in
    let flat2 : bits ++ (time ++ (reserved ++ (nonce ++ sha256 layer3)))
        ≡ bits ++ (time ++ (reserved ++ nonce)) ++ sha256 layer3 =
      simp append_assoc refl in
    record {
      layer2 = bits ++ (time ++ (reserved ++ nonce));
      layer3 = layer3;
      layer2_length = omega (
        arith,
        length-append bits (time ++ (reserved ++ nonce)),
        length-append time (reserved ++ nonce),
        length-append reserved nonce,
        write_uint32_le-length header.bits bits_written,
        write_uint48_le-length header.time time_written,
        write_uint16_le-length header.reserved reserved_written,
        write_uint64_le_bn-length header.nonce nonce_written,
      );
      whole =
          rw
            (
              bits_written, time_written, reserved_written, nonce_written, version_written,
              size_written, height_written,
            )
            (ap (λ (z : Buffer). ok (header.prev_hash ++ z)) flat);
      hashed =
          rw
            (
              bits_written, time_written, reserved_written, nonce_written, version_written,
              size_written, height_written,
            )
            (ap (λ (z : Buffer). ok (sha256 (header.prev_hash ++ sha256 z))) flat2);
    }

-- Two headers collide at one of their three layers.
abbrev pub HeaderClash : (Buffer → Buffer) → BlockHeader → BlockHeader → Type 0
HeaderClash sha256 header header' =
    (a : Layers sha256 header) × (b : Layers sha256 header') × (Collision sha256 a.layer3 b.layer3
      ⊎ (Collision sha256 (a.layer2 ++ sha256 a.layer3) (b.layer2 ++ sha256 b.layer3)
          ⊎ Collision sha256 (header.prev_hash ++ sha256 (a.layer2 ++ sha256 a.layer3))
              (header'.prev_hash ++ sha256 (b.layer2 ++ sha256 b.layer3))))

-- Two valid headers with one hash are the same, or they collide at one of their layers.
pub get_hash-commits :
    (sha256 : Buffer → Buffer) (header header' : BlockHeader)
    → ValidHeader header
    → ValidHeader header'
    → get_hash sha256 header ≡ get_hash sha256 header'
    → (header ≡ header') ⊎ HeaderClash sha256 header header'
get_hash-commits sha256 header header' v w e =
    let a = layers sha256 header v in
    let b = layers sha256 header' w in
    elim (same_hash sha256 _ _ (ok-inj (sym a.hashed ∙ e ∙ b.hashed))) [
      | inr c ↦ inr (a, b, inr (inr c))
      | inl p ↦
          let (prevs, hashes) =
            append-inj header.prev_hash _ header'.prev_hash _ (v.prev_length ∙ sym w.prev_length)
              p in
          elim (same_hash sha256 _ _ hashes) [
            | inr c ↦ inr (a, b, inr (inl c))
            | inl q ↦
                let (layer2s, hash3s) =
                  append-inj a.layer2 _ b.layer2 _ (a.layer2_length ∙ sym b.layer2_length) q in
                elim (same_hash sha256 _ _ hash3s) [
                  | inr c ↦ inr (a, b, inl c)
                  | inl layer3s ↦
                      let same : header.prev_hash ++ (a.layer2 ++ a.layer3)
                          ≡ header'.prev_hash ++ (b.layer2 ++ b.layer3) =
                        cc in
                      let bytes : to_buffer_writer header ≡ to_buffer_writer header' =
                        a.whole ∙ ap ok same ∙ sym b.whole in
                      inl (
                        Rereads-inj from_buffer_reader (header-Rereads header v)
                          (header-Rereads header' w) bytes)
                ]
          ]
    ]
