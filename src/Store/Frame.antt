-- ===== src/Store/Frame.antt =====
-- A frame's file in recording/store.rs: `read_frame_header`, `verify_frame_digest`, `verify_frame`,
-- `frame_info`, and from `publish_blocks` the file that is written. The file is the list of its bytes.
-- SHA-256, Brotli and the JSON form of a header are code of other packages: `Codec` has them.
pub mod Header
pub mod Parts
pub mod Verified
use vim_config.Prelude.{
  ℕ, zero, suc, ◌+◌, ◌-◌, ◌*◌, ◌≤◌, ◌<◌, ◌≡◌, List, [], ◌∷◌, ◌++◌, map, length, take, drop, Bool,
  not, ltb, ◌==◌, ◌||◌, Option, none, some, All,
}
use vim_config.Prelude.Bytes.{same}
use vim_config.Outcome.{
  Result, ok, err, refuse, ok_or, checked, u64_max, invalid, truncated, overflow, exceeds_limit,
  mismatch, storage, ◌>>=◌, ◌>>◌,
}
use vim_config.Wire.Varint.{IsByte}
use vim_config.Wire.Whole.{has_magic}
use vim_config.Store.{
  BlockRef, FrameHeader, FrameFileInfo, FrameInfo, StoredBlock, frame_magic, max_frame_header_bytes,
  max_frame_raw_bytes, max_frame_compressed_bytes,
}
use vim_config.Store.Endian.{to_le, from_le}
use vim_config.Store.Hex.{hex}
use vim_config.Store.Header.{brotli, validate_frame_header}
use vim_config.Store.Filename.{frame_filename, parse_frame_filename}
use vim_config.Store.Payload.{pack_pcr_frame, unpack_payload, block_ref}

-- `decompress` gives what a `Decompressor` reads to its end, and how many bytes of its input are left.
pub record Codec : Type 0 where
  pub sha256 : List ℕ → List ℕ
  pub compress : List ℕ → Option (List ℕ)
  pub decompress : List ℕ → Option (List ℕ × ℕ)
  pub encode_header : FrameHeader → Option (List ℕ)
  pub decode_header : List ℕ → Option FrameHeader
  pub encode_manifest : List FrameInfo → Option (List ℕ)

-- What the code relies on: a digest is 32 bytes; what was compressed is something, no more than 1 MiB
-- longer than it was, and decompressed as it was, to its end; a header's JSON is not empty and gives it back.
pub record IsCodec (c : Codec) : Type 0 where
  pub digest : (bs : List ℕ) → length (c.sha256 bs) ≡ 32
  pub digest_bytes : (bs : List ℕ) → All IsByte (c.sha256 bs)
  pub compressed :
      (bs out : List ℕ)
      → c.compress bs ≡ some out
      → (0 < length out)
        × (length out ≤ length bs + 1024 * 1024)
        × (c.decompress out ≡ some (bs, 0))
  pub header :
      (h : FrameHeader) (out : List ℕ)
      → c.encode_header h ≡ some out
      → (0 < length out) × (c.decode_header out ≡ some h)

unfoldable pub frame_info : List ℕ → FrameHeader → FrameFileInfo → FrameInfo
frame_info name h f = record {
  name = name;
  first = h.first_block;
  last = h.last_block;
  count = length h.blocks;
  payload_bytes = h.payload_bytes;
  compressed_bytes = h.compressed_bytes;
  file_bytes = f.file_bytes;
  payload_sha256 = h.payload_sha256;
  file_sha256 = hex f.checksum;
}

-- The bytes of the file before the compressed payload.
unfoldable pub frame_prefix_of : List ℕ → List ℕ
frame_prefix_of header_bytes = frame_magic ++ (to_le 4 (length header_bytes) ++ header_bytes)

-- `file_size`, checked.
unfoldable pub frame_size : (prefix_len compressed_len : ℕ) → Result ℕ
frame_size prefix_len compressed_len = do
  n ← ok_or (checked u64_max (prefix_len + compressed_len)) overflow
  size ← ok_or (checked u64_max (n + 32)) overflow
  refuse (ltb (max_frame_compressed_bytes + max_frame_header_bytes + 8) size) exceeds_limit
  ok size

unfoldable pub check_name : List ℕ → FrameHeader → Result (Unit {0})
check_name name h = do
  (first, last) ← parse_frame_filename name
  refuse (not (first == h.first_block) || not (last == h.last_block)) mismatch

module _ (c : Codec) where
  -- The header, and the place of the payload, in a file of `size` bytes.
  unfoldable pub read_frame_header : List ℕ → Result (FrameHeader × FrameFileInfo)
  read_frame_header bytes = do
    let size = length bytes
    refuse
        (ltb size (8 + 32)
          || ltb (max_frame_compressed_bytes + max_frame_header_bytes + 8 + 32) size)
        invalid
    refuse (not (has_magic frame_magic bytes)) invalid
    let header_len = from_le (take 4 (drop 4 bytes))
    refuse
        ((header_len == 0)
          || ltb max_frame_header_bytes header_len
          || ltb size (8 + header_len + 32))
        invalid
    h ← ok_or (c.decode_header (take header_len (drop 8 bytes))) invalid
    validate_frame_header h
    refuse (not (8 + header_len + h.compressed_bytes + 32 == size)) mismatch
    ok (
      h,
      record {
        payload_offset = 8 + header_len;
        compressed_bytes = h.compressed_bytes;
        checksum = drop (size - 32) bytes;
        file_bytes = size;
      },
    )

  unfoldable pub verify_frame_digest :
      List ℕ → (offset compressed_len : ℕ) → List ℕ → Result (Unit {0})
  verify_frame_digest bytes offset compressed_len expected = do
    end ← ok_or (checked u64_max (offset + compressed_len)) overflow
    refuse (ltb (length bytes) end) truncated
    refuse (not (same (c.sha256 (take end bytes)) expected)) mismatch

  -- The payload, decompressed within its limit, with its length and digest compared.
  unfoldable pub read_frame_payload : List ℕ → FrameHeader → FrameFileInfo → Result (List ℕ)
  read_frame_payload bytes h f = do
    (payload, unread) ←
        ok_or (c.decompress (take h.compressed_bytes (drop f.payload_offset bytes))) storage
    refuse (ltb max_frame_raw_bytes (length payload)) exceeds_limit
    refuse (not (unread == 0)) truncated
    refuse
        (not (length payload == h.payload_bytes)
          || not (same (hex (c.sha256 payload)) h.payload_sha256))
        mismatch
    ok payload

  -- The blocks are those that the callback is given, in order.
  unfoldable pub verify_frame : (name bytes : List ℕ) → Result (List (List ℕ) × FrameInfo)
  unfolding read_frame_header check_name verify_frame_digest read_frame_payload
  verify_frame name bytes = do
    (h, f) ← read_frame_header bytes
    check_name name h
    verify_frame_digest bytes f.payload_offset f.compressed_bytes f.checksum
    payload ← read_frame_payload bytes h f
    blocks ← unpack_payload c.sha256 h.blocks payload
    ok (blocks, frame_info name h f)

  -- The header that `publish_blocks` makes for the blocks `first` to `last`.
  unfoldable pub frame_header :
      (blocks : List StoredBlock) → (first last : ℕ) → (payload compressed : List ℕ) → FrameHeader
  frame_header blocks first last payload compressed = record {
    version = 1;
    codec = brotli;
    quality = 5;
    window_log = 20;
    first_block = first;
    last_block = last;
    payload_bytes = length payload;
    compressed_bytes = length compressed;
    payload_sha256 = hex (c.sha256 payload);
    blocks = map block_ref blocks;
  }

  -- `prefix`, the compressed payload and the digest of both, as they are written.
  unfoldable pub frame_file : (prefix compressed : List ℕ) → List ℕ
  frame_file prefix compressed = prefix ++ (compressed ++ c.sha256 (prefix ++ compressed))

  -- The file of the blocks `first` to `last`, with its header and what is kept of it.
  unfoldable pub seal_frame :
      (blocks : List StoredBlock) → (first last : ℕ) → Result (List ℕ × FrameHeader × FrameInfo)
  unfolding frame_header frame_prefix_of frame_file frame_size
  seal_frame blocks first last = do
    payload ← pack_pcr_frame blocks
    compressed ← ok_or (c.compress payload) storage
    let h = frame_header blocks first last payload compressed
    header_bytes ← ok_or (c.encode_header h) storage
    refuse (ltb max_frame_header_bytes (length header_bytes)) exceeds_limit
    let prefix = frame_prefix_of header_bytes
    size ← frame_size (length prefix) (length compressed)
    ok (
      frame_file prefix compressed,
      h,
      record {
        name = frame_filename first last;
        first = first;
        last = last;
        count = length blocks;
        payload_bytes = length payload;
        compressed_bytes = length compressed;
        file_bytes = size;
        payload_sha256 = hex (c.sha256 payload);
        file_sha256 = hex (c.sha256 (prefix ++ compressed));
      },
    )
