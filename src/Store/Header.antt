-- ===== src/Store/Header.antt =====
-- `validate_frame_header` and `same_block_refs` of recording/store.rs.
use vim_config.Prelude.{
  ℕ, ◌+◌, ◌-◌, List, [], ◌∷◌, length, Bool, true, false, not, ltb, ◌==◌, ◌||◌, if◌then◌else◌,
}
use vim_config.Prelude.Bytes.{same}
use vim_config.Outcome.{
  Result, ok, refuse, ok_or, checked, u64_max, invalid, overflow, unsupported, mismatch, ◌>>=◌,
  ◌>>◌,
}
use vim_config.Wire.Put.{max_block_bytes}
use vim_config.Store.{
  BlockRef, FrameHeader, max_blocks_per_frame, max_frame_raw_bytes, max_frame_compressed_bytes,
}
use vim_config.Store.Hex.{decode_hex_32}
use vim_config.Store.Uvarint.{varint_len}

abbrev pub brotli : List ℕ
brotli = b'b' ∷ b'r' ∷ b'o' ∷ b't' ∷ b'l' ∷ b'i' ∷ []

-- `last.checked_sub(first).and_then(|count| count.checked_add(1)) != Some(len)`
unfoldable pub differs_from_range : (first last len : ℕ) → Bool
differs_from_range first last len =
    ltb last first || ltb u64_max (last - first + 1) || not (last - first + 1 == len)

unfoldable pub is_unsupported : FrameHeader → Bool
is_unsupported h =
    not (h.version == 1)
    || not (same h.codec brotli)
    || not (h.quality == 5)
    || not (h.window_log == 20)

unfoldable pub breaks_limits : FrameHeader → Bool
breaks_limits h =
    (length h.blocks == 0)
    || ltb max_blocks_per_frame (length h.blocks)
    || differs_from_range h.first_block h.last_block (length h.blocks)
    || (h.payload_bytes == 0)
    || ltb max_frame_raw_bytes h.payload_bytes
    || (h.compressed_bytes == 0)
    || ltb max_frame_compressed_bytes h.compressed_bytes

-- The loop that adds up `exact_payload_bytes`.
unfoldable pub exact_payload : ℕ → List BlockRef → Result ℕ
exact_payload exact [] = ok exact
exact_payload exact (block ∷ blocks) = do
  refuse ((block.raw_bytes == 0) || ltb max_block_bytes block.raw_bytes) invalid
  exact' ← ok_or (checked u64_max (exact + (varint_len block.raw_bytes + block.raw_bytes))) overflow
  exact_payload exact' blocks

-- The loop over `header.blocks.iter().enumerate()`.
unfoldable pub validate_index : (first index : ℕ) → List BlockRef → Result (Unit {0})
validate_index first index [] = ok tt
validate_index first index (block ∷ blocks) = do
  refuse (ltb u64_max (first + index) || not (first + index == block.id)) invalid
  digest ← decode_hex_32 block.sha256
  validate_index first (index + 1) blocks

unfoldable pub validate_frame_header : FrameHeader → Result (Unit {0})
validate_frame_header h = do
  refuse (is_unsupported h) unsupported
  refuse (breaks_limits h) invalid
  start ← ok_or (checked u64_max (4 + varint_len (length h.blocks))) overflow
  exact ← exact_payload start h.blocks
  refuse (ltb max_frame_raw_bytes exact || not (exact == h.payload_bytes)) mismatch
  digest ← decode_hex_32 h.payload_sha256
  validate_index h.first_block 0 h.blocks

-- The texts of digests are compared as the bytes that they stand for, and only of equal ids and lengths.
unfoldable pub same_refs : List BlockRef → List BlockRef → Result Bool
same_refs [] bs = ok true
same_refs (a ∷ as') [] = ok true
same_refs (a ∷ as') (b ∷ bs) =
    if not (a.id == b.id) || not (a.raw_bytes == b.raw_bytes) then ok false else do
      left ← decode_hex_32 a.sha256
      right ← decode_hex_32 b.sha256
      let rest = same_refs as' bs
      if same left right then rest else ok false

unfoldable pub same_block_refs : List BlockRef → List BlockRef → Result Bool
unfolding same_refs
same_block_refs a b = if not (length a == length b) then ok false else same_refs a b
