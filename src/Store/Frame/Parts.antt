-- ===== src/Store/Frame/Parts.antt =====
-- The parts of a frame's file, as the readers of recording/store.rs find them.
use vim_config.Prelude.{
  ℕ, ◌+◌, ◌-◌, ◌≤◌, ◌<◌, ◌≡◌, sym, ap, ◌∙◌, List, ◌++◌, length, take, drop, arith, true, false, not,
  ltb, ◌==◌, ◌||◌, some, length-append, append_assoc, take-append_left, drop-append_left,
  take-length-append,
}
use vim_config.Prelude.Bytes.{same, same_self}
use vim_config.Outcome.{ok, u64_max}
use vim_config.Wire.Whole.{has_magic, has_magic-append}
use vim_config.Store.{
  FrameHeader, FrameFileInfo, frame_magic, max_frame_header_bytes, max_frame_compressed_bytes,
  max_frame_raw_bytes,
}
use vim_config.Store.Endian.{to_le, from_le, from_le-to_le, length-to_le}
use vim_config.Store.Hex.{hex}
use vim_config.Store.Header.{validate_frame_header}
use vim_config.Store.Frame.{
  Codec, read_frame_header, verify_frame_digest, read_frame_payload, frame_prefix_of,
}

-- Where the parts of a frame's file are.
pub record Parts (bytes hb compressed digest : List ℕ) : Type 0 where
  pub size : length bytes ≡ 8 + length hb + length compressed + 32
  pub magic : has_magic frame_magic bytes ≡ true
  pub header_len : take 4 (drop 4 bytes) ≡ to_le 4 (length hb)
  pub header : take (length hb) (drop 8 bytes) ≡ hb
  pub trailer : drop (8 + length hb + length compressed) bytes ≡ digest
  pub hashed : take (8 + length hb + length compressed) bytes ≡ frame_prefix_of hb ++ compressed
  pub payload : take (length compressed) (drop (8 + length hb) bytes) ≡ compressed

pub length-frame_prefix_of : (hb : List ℕ) → length (frame_prefix_of hb) ≡ 8 + length hb
unfolding frame_prefix_of
length-frame_prefix_of hb = omega (
  arith,
  length-append frame_magic (to_le 4 (length hb) ++ hb),
  length-append (to_le 4 (length hb)) hb,
  length-to_le 4 (length hb),
)

pub Parts-frame :
    (hb compressed digest : List ℕ)
    → length digest ≡ 32
    → Parts (frame_prefix_of hb ++ (compressed ++ digest)) hb compressed digest
Parts-frame hb compressed digest e =
    let prefix = frame_prefix_of hb in
    let n = length-frame_prefix_of hb in
    let both : length (prefix ++ compressed) ≡ 8 + length hb + length compressed =
      omega (arith, length-append prefix compressed) in
    let regroup : prefix ++ (compressed ++ digest) ≡ (prefix ++ compressed) ++ digest =
      sym (append_assoc prefix compressed digest) in
    let word = to_le 4 (length hb) in
    let four : length word ≡ 4 = length-to_le 4 (length hb) in
    let rest = compressed ++ digest in
    let whole : prefix ++ rest ≡ frame_magic ++ (word ++ (hb ++ rest)) =
      unfold frame_prefix_of in simp append_assoc in
    let begins : length (frame_magic ++ word) ≡ 8 = omega (arith, length-append frame_magic word) in
    let behind : drop 8 (frame_magic ++ (word ++ (hb ++ rest))) ≡ hb ++ rest =
      ap (λ t. drop 8 t) (sym (append_assoc frame_magic word (hb ++ rest)))
      ∙ drop-append_left 8 (frame_magic ++ word) (hb ++ rest) begins in
    record {
      size = omega (arith, length-append prefix rest, length-append compressed digest);
      magic =
          ap (has_magic frame_magic) whole ∙ has_magic-append frame_magic (word ++ (hb ++ rest));
      header_len = ap (λ t. take 4 (drop 4 t)) whole ∙ take-append_left 4 word (hb ++ rest) four;
      header =
          ap (λ t. take (length hb) (drop 8 t)) whole
          ∙ ap (λ t. take (length hb) t) behind
          ∙ take-length-append hb rest;
      trailer = ap (drop _) regroup ∙ drop-append_left _ (prefix ++ compressed) digest both;
      hashed = ap (take _) regroup ∙ take-append_left _ (prefix ++ compressed) digest both;
      payload =
          ap (take (length compressed)) (drop-append_left (8 + length hb) prefix rest n)
          ∙ take-length-append compressed digest;
    }

pub le_of_ltb : (n : ℕ) → ltb max_frame_header_bytes n ≡ false → n ≤ max_frame_header_bytes
le_of_ltb n h = ground arith

module _ (c : Codec) where
  -- A file with these parts, whose header is accepted, is read.
  pub read_frame_header-Parts :
      (h : FrameHeader) {bytes hb compressed digest : List ℕ}
      → Parts bytes hb compressed digest
      → 0 < length hb
      → length hb ≤ max_frame_header_bytes
      → length bytes ≤ max_frame_compressed_bytes + max_frame_header_bytes + 8
      → c.decode_header hb ≡ some h
      → validate_frame_header h ≡ ok tt
      → h.compressed_bytes ≡ length compressed
      → read_frame_header c bytes
        ≡ ok (
          h,
          record {
            payload_offset = 8 + length hb;
            compressed_bytes = length compressed;
            checksum = digest;
            file_bytes = length bytes;
          },
        )
  unfolding read_frame_header
  read_frame_header-Parts h {bytes} {hb} {compressed} {digest} p pos small short decoded valid
        size =
      let n = length hb in
      let m = length bytes in
      let total = p.size in
      let len : from_le (take 4 (drop 4 bytes)) ≡ n =
        ap from_le p.header_len ∙ from_le-to_le 4 n (omega arith) in
      let bounds : (ltb m (8 + 32)
            || ltb (max_frame_compressed_bytes + max_frame_header_bytes + 8 + 32) m)
          ≡ false =
        ground arith in
      let fits : ((n == 0) || ltb max_frame_header_bytes n || ltb m (8 + n + 32)) ≡ false =
        ground arith in
      let exact : not (8 + n + length compressed + 32 == m) ≡ false = ground arith in
      let at_trailer : drop (m - 32) bytes ≡ digest =
        ap (λ k. drop k bytes) (let e : m - 32 ≡ 8 + n + length compressed = omega arith in e)
        ∙ p.trailer in
      rw (bounds, p.magic, len, fits, p.header, decoded, valid, size, exact, at_trailer)

  pub verify_frame_digest-Parts :
      {bytes hb compressed digest : List ℕ}
      → Parts bytes hb compressed digest
      → length bytes ≤ u64_max
      → c.sha256 (frame_prefix_of hb ++ compressed) ≡ digest
      → verify_frame_digest c bytes (8 + length hb) (length compressed) digest ≡ ok tt
  unfolding verify_frame_digest
  verify_frame_digest-Parts {bytes} {hb} {compressed} {digest} p short agrees =
      let n = 8 + length hb + length compressed in
      let total = p.size in
      let room : ltb u64_max n ≡ false = ground arith in
      let there : ltb (length bytes) n ≡ false = ground arith in
      rw (room, there, p.hashed, agrees, same_self digest)

  pub read_frame_payload-Parts :
      (h : FrameHeader) (f : FrameFileInfo) {bytes hb compressed digest payload : List ℕ}
      → Parts bytes hb compressed digest
      → f.payload_offset ≡ 8 + length hb
      → h.compressed_bytes ≡ length compressed
      → c.decompress compressed ≡ some (payload, 0)
      → length payload ≤ max_frame_raw_bytes
      → h.payload_bytes ≡ length payload
      → h.payload_sha256 ≡ hex (c.sha256 payload)
      → read_frame_payload c bytes h f ≡ ok payload
  unfolding read_frame_payload
  read_frame_payload-Parts h f {payload} p offset size out short bytes text =
      let small : ltb max_frame_raw_bytes (length payload) ≡ false = ground arith in
      let exact : not (length payload == h.payload_bytes) ≡ false = ground arith in
      let agrees : same (hex (c.sha256 payload)) h.payload_sha256 ≡ true =
        rw text (same_self (hex (c.sha256 payload))) in
      rw (offset, size, p.payload, out, small, exact, agrees)
