-- ===== src/Store/Journal.antt =====
-- The journal of recording/store.rs: `journal_record` and `read_journal_prefix`. SHA-256 is a
-- parameter. The file is the list of its bytes, so that `read_partial` takes as many as the buffer
-- holds, or all that are left. The loop has fuel, and `unfinished` says that it ran out.
pub mod Reads
pub mod Recovered
pub mod Sound
pub mod Total
use vim_config.Prelude.{
  ℕ, zero, suc, ◌+◌, List, [], ◌∷◌, ◌++◌, length, take, drop, Bool, true, not, ltb, leb, ◌==◌, ◌||◌,
  ◌&&◌, if◌then◌else◌, Option, none, some, is_some,
}
use vim_config.Prelude.Bytes.{same}
use vim_config.Outcome.{Result, ok, err, ok_or, checked, u64_max, overflow, unfinished, ◌>>=◌}
use vim_config.Wire.Put.{max_block_bytes}
use vim_config.Wire.Whole.{has_magic}
use vim_config.Store.{
  journal_magic, journal_record_prefix, journal_record_suffix, max_blocks_per_frame,
  max_journal_bytes, StoredBlock,
}
use vim_config.Store.Endian.{to_le, from_le}

-- What stands before the block in its record, and the record before its checksum.
unfoldable pub journal_prefix : (id len : ℕ) → (block_sha : List ℕ) → List ℕ
journal_prefix id len block_sha = to_le 8 id ++ (to_le 8 len ++ block_sha)

unfoldable pub journal_body : ℕ → (block block_sha : List ℕ) → List ℕ
unfolding journal_prefix
journal_body id block block_sha = journal_prefix id (length block) block_sha ++ block

-- What one round finds: the place where reading stops, if it is malformed there, or a block with the
-- cursor behind it.
pub data Found : Type 0 where
  stop : Option ℕ → Found
  found : StoredBlock → (offset : ℕ) → (rest : List ℕ) → Found

-- `prev.checked_add(1) != Some(id)` of an id that was read before.
unfoldable pub breaks_order : Option ℕ → ℕ → Bool
breaks_order none id = Bool.false
breaks_order (some prev) id = leb u64_max prev || not (prev + 1 == id)

-- `is_none_or(|end| end > MAX_JOURNAL_BYTES)`
unfoldable pub exceeds_journal : Option ℕ → Bool
exceeds_journal none = true
exceeds_journal (some end) = ltb max_journal_bytes end

module _ (sha256 : List ℕ → List ℕ) where
  unfoldable pub journal_record : ℕ → (block block_sha : List ℕ) → List ℕ
  unfolding journal_body
  journal_record id block block_sha =
      let body = journal_body id block block_sha in body ++ sha256 body

  -- From the reading of the block to the end of a round; `rest` stands behind the prefix.
  unfoldable pub read_record : (offset id len : ℕ) → (prefix rest : List ℕ) → Result Found
  read_record offset id len prefix rest =
      let block = take len rest in
      let checksum = take journal_record_suffix (drop len rest) in
      if not (length block == len)
      then ok (stop (some offset))
      else if not (length checksum == journal_record_suffix)
      then ok (stop (some offset))
      else if not (same (sha256 (prefix ++ block)) checksum)
          || not (same (sha256 block) (take 32 (drop 16 prefix)))
      then ok (stop (some offset))
      else ok_or (checked u64_max (offset + (journal_record_prefix + len + journal_record_suffix)))
          overflow
        >>= λ offset'. ok (
            found (record { id = id; bytes = block; sha256 = sha256 block }) offset'
              (drop journal_record_suffix (drop len rest)))

  -- From the prefix to the reading of the block.
  unfoldable pub read_prefix :
      (count : ℕ) → (previous_id : Option ℕ) → (offset : ℕ) → (prefix rest : List ℕ) → Result Found
  unfolding breaks_order exceeds_journal read_record
  read_prefix count previous_id offset prefix rest =
      let id = from_le (take 8 prefix) in
      let len64 = from_le (take 8 (drop 8 prefix)) in
      if (len64 == 0) || ltb max_block_bytes len64 || leb max_blocks_per_frame count
      then ok (stop (some offset))
      else ok_or (checked u64_max (journal_record_prefix + len64)) overflow >>= λ n.
          ok_or (checked u64_max (n + journal_record_suffix)) overflow >>= λ record_size.
          if exceeds_journal (checked u64_max (offset + record_size))
          then ok (stop (some offset))
          else if breaks_order previous_id id
          then ok (stop (some offset))
          else read_record offset id len64 prefix rest

  -- One round, over a file of `size` bytes when `count` blocks have been read.
  unfoldable pub read_round :
      (size count : ℕ) → (previous_id : Option ℕ) → (offset : ℕ) → (rest : List ℕ) → Result Found
  unfolding read_prefix
  read_round size count previous_id offset rest =
      let prefix = take journal_record_prefix rest in
      if length prefix == 0
      then ok (stop (if ltb max_journal_bytes size then some offset else none))
      else if not (length prefix == journal_record_prefix)
      then ok (stop (some offset))
      else read_prefix count previous_id offset prefix (drop journal_record_prefix rest)

  unfoldable pub read_rounds :
      (fuel size : ℕ)
      → (valid : List StoredBlock) → (previous_id : Option ℕ) → (offset : ℕ) → (rest : List ℕ)
      → Result (List StoredBlock × Option ℕ)
  unfolding read_round
  read_rounds zero size valid previous_id offset rest = err unfinished
  read_rounds (suc fuel) size valid previous_id offset rest =
      read_round size (length valid) previous_id offset rest >>= λ round. elim round [
        | stop malformed_at ↦ ok (valid, malformed_at)
        | found block offset' rest' ↦
            read_rounds fuel size (valid ++ block ∷ []) (some block.id) offset' rest'
      ]

  -- No more than `MAX_BLOCKS_PER_FRAME` rounds read a block, and one more stops.
  unfoldable pub read_journal_prefix : List ℕ → Result (List StoredBlock × Option ℕ)
  read_journal_prefix bytes =
      if not (has_magic journal_magic bytes)
      then ok ([], some 0)
      else read_rounds (suc max_blocks_per_frame) (length bytes) [] none 4 (drop 4 bytes)
