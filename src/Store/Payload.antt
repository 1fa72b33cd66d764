-- ===== src/Store/Payload.antt =====
-- The payload of a frame, PCR1: `pack_pcr_payload` of recording/store.rs, and the part of
-- `verify_frame` that takes a decompressed payload apart. SHA-256 is a parameter. The cursor stands at
-- `4 + cursor.position()`. The blocks are what the code keeps the ranges of.
pub mod RoundTrip
use vim_config.Prelude.{
  ℕ, zero, suc, ◌+◌, List, [], ◌∷◌, ◌++◌, map, length, drop, Bool, not, ltb, ◌==◌, ◌||◌,
}
use vim_config.Prelude.Bytes.{same}
use vim_config.Outcome
use vim_config.Outcome.{
  Error, Result, ok, err, refuse, ok_or, checked, u64_max, invalid, exceeds_limit, overflow,
  mismatch,
}
use vim_config.Wire.Put.{max_block_bytes}
use vim_config.Wire.Cursor.{at, Reader, pure, lift, ◌>>=◌, ◌>>◌, read_slice}
use vim_config.Wire.Whole.{at_end, after_magic, has_magic}
use vim_config.Store.{pcr_magic, max_blocks_per_frame, max_frame_raw_bytes, BlockRef, StoredBlock}
use vim_config.Store.Hex.{hex}
use vim_config.Store.Uvarint.{write_uvarint, varint_len, read_uvarint}

-- The two checked sums of `new_len`.
unfoldable pub new_len : ℕ → ℕ → Result ℕ
new_len output_len block_len =
    Outcome.◌>>=◌ (ok_or (checked u64_max (output_len + varint_len block_len)) overflow)
      λ len. ok_or (checked u64_max (len + block_len)) overflow

-- The body of the loop, and the loop.
unfoldable pub pack_block : List ℕ → List ℕ → Result (List ℕ)
unfolding new_len
pack_block output block =
    Outcome.◌>>=◌ (refuse ((length block == 0) || ltb max_block_bytes (length block)) invalid) λ _.
      Outcome.◌>>=◌ (new_len (length output) (length block)) λ len.
        Outcome.◌>>=◌ (refuse (ltb max_frame_raw_bytes len) exceeds_limit)
          λ _. ok (write_uvarint (length block) output ++ block)

unfoldable pub pack_blocks : List ℕ → List (List ℕ) → Result (List ℕ)
unfolding pack_block
pack_blocks output [] = ok output
pack_blocks output (block ∷ blocks) =
    Outcome.◌>>=◌ (pack_block output block) λ output'. pack_blocks output' blocks

unfoldable pub pack_pcr_payload : List (List ℕ) → ℕ → Result (List ℕ)
unfolding pack_blocks
pack_pcr_payload blocks count =
    Outcome.◌>>=◌ (refuse ((count == 0) || ltb max_blocks_per_frame count) invalid)
      λ _. pack_blocks (write_uvarint count pcr_magic) blocks

unfoldable pub pack_pcr_frame : List StoredBlock → Result (List ℕ)
unfolding pack_pcr_payload
pack_pcr_frame blocks = pack_pcr_payload (map (λ b. b.bytes) blocks) (length blocks)

module _ (sha256 : List ℕ → List ℕ) where
  -- The body of the loop over `header.blocks`, and the loop.
  unfoldable pub read_block : BlockRef → Reader (List ℕ)
  read_block expected = do
    len ← read_uvarint
    lift (refuse ((len == 0) || ltb max_block_bytes len || not (len == expected.raw_bytes)) invalid)
    block ← read_slice len
    lift (refuse (not (same (hex (sha256 block)) expected.sha256)) mismatch)
    pure block

  unfoldable pub read_blocks : List BlockRef → Reader (List (List ℕ))
  unfolding read_block
  read_blocks [] = pure []
  read_blocks (expected ∷ refs) = do
    block ← read_block expected
    blocks ← read_blocks refs
    pure (block ∷ blocks)

  unfoldable pub read_payload : List BlockRef → Reader (List (List ℕ))
  unfolding read_blocks
  read_payload refs = do
    count ← read_uvarint
    lift (refuse (not (count == length refs)) mismatch)
    blocks ← read_blocks refs
    at_end blocks

  unfoldable pub unpack_payload : List BlockRef → List ℕ → Result (List (List ℕ))
  unfolding read_payload
  unpack_payload refs payload =
      Outcome.◌>>=◌ (refuse (not (has_magic pcr_magic payload)) invalid)
        λ _. after_magic (read_payload refs) payload

-- What `publish_blocks` puts into the header of each block.
unfoldable pub block_ref : StoredBlock → BlockRef
block_ref b = record { id = b.id; raw_bytes = length b.bytes; sha256 = hex b.sha256 }
