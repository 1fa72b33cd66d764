-- ===== src/Store/Journal/Recovered.antt =====
-- What `read_journal_prefix` of recording/store.rs gives back of a journal that `append` wrote: all of its
-- blocks, and of a journal whose last record was cut off all blocks but that one.
use vim_config.Prelude.{
  ℕ, zero, suc, ◌+◌, ◌≤◌, ◌<◌, ◌≡◌, refl, sym, ap, ◌∙◌, List, [], ◌∷◌, ◌++◌, arith, length, take,
  length-append, append_assoc, append-nil, Option, none, some, All, false,
}
use vim_config.Outcome.{ok}
use vim_config.Wire.Whole.{has_magic-append}
use vim_config.Store.{StoredBlock, journal_magic, max_blocks_per_frame, max_journal_bytes}
use vim_config.Store.Journal.{stop, breaks_order, read_round, read_rounds, read_journal_prefix}
use vim_config.Store.Journal.Reads.{
  IsStored, record_of, length-record_of, read_round-record, read_round-cut, read_round-end,
}

-- Each id is one more than the one before it, and the first is any after none.
abbrev pub Follows : Option ℕ → List StoredBlock → Type 0
Follows none [] = Unit {0}
Follows (some prev) [] = Unit {0}
Follows none (b ∷ bs) = Follows (some b.id) bs
Follows (some prev) (b ∷ bs) = (prev + 1 ≡ b.id) × Follows (some b.id) bs

module _ (sha256 : List ℕ → List ℕ) where
  -- The records of blocks, one behind the other.
  unfoldable pub records_of : List StoredBlock → List ℕ
  records_of [] = []
  records_of (b ∷ bs) = record_of sha256 b ++ records_of bs

  -- A journal of these blocks.
  abbrev pub journal_of : List StoredBlock → List ℕ
  journal_of bs = journal_magic ++ records_of bs

  Follows-head :
      (prev : Option ℕ) (b : StoredBlock) (bs : List StoredBlock)
      → IsStored sha256 b
      → Follows prev (b ∷ bs)
      → (breaks_order prev b.id ≡ false) × Follows (some b.id) bs
  unfolding breaks_order
  Follows-head none b bs w h = (refl, h)
  Follows-head (some prev) b bs w h = (let n = w.numbered in ground arith, h.1)

  -- Behind the magic the rounds begin.
  read_journal_prefix-magic :
      (rest : List ℕ)
      → read_journal_prefix sha256 (journal_magic ++ rest)
        ≡ read_rounds sha256
            (suc max_blocks_per_frame)
            (length (journal_magic ++ rest))
            []
            none
            4
            rest
  unfolding read_journal_prefix
  read_journal_prefix-magic rest = rw (has_magic-append journal_magic rest)

  -- Blocks that a journal can hold: at most as many as a frame, in order, and within its bytes.
  abbrev pub Journaled : List StoredBlock → Type 0
  Journaled bs =
      All (IsStored sha256) bs
      × Follows none bs
      × (length bs ≤ max_blocks_per_frame)
      × (length (journal_of bs) ≤ max_journal_bytes)

  module _ (digest : (bs : List ℕ) → length (sha256 bs) ≡ 32) where
    -- Records are read one after the other, and then what stands behind them stops the reading.
    read_rounds-records :
        (m : ℕ → Option ℕ) (size : ℕ) (tail : List ℕ)
        → ((count : ℕ) (prev : Option ℕ) (offset : ℕ)
            → read_round sha256 size count prev offset tail ≡ ok (stop (m offset)))
        → (bs : List StoredBlock) (fuel : ℕ) (valid : List StoredBlock) (prev : Option ℕ)
          (offset : ℕ)
        → length bs < fuel
        → All (IsStored sha256) bs
        → Follows prev bs
        → length valid + length bs ≤ max_blocks_per_frame
        → offset + length (records_of bs) ≤ max_journal_bytes
        → read_rounds sha256 fuel size valid prev offset (records_of bs ++ tail)
          ≡ ok (valid ++ bs, m (offset + length (records_of bs)))
    unfolding records_of read_rounds
    read_rounds-records m size tail stops bs zero valid prev offset hf w follows few fits =
        absurd (omega arith)
    read_rounds-records m size tail stops [] (suc fuel) valid prev offset hf w follows few fits =
        let here : offset + 0 ≡ offset = omega arith in
        rw (stops (length valid) prev offset, append-nil, here)
    read_rounds-records m size tail stops (b ∷ bs) (suc fuel) valid prev offset hf w follows few
          fits =
        let (order, rest_follows) = Follows-head prev b bs w.0 follows in
        let records = records_of bs in
        let sum = length-append (record_of sha256 b) records in
        let long = length-record_of sha256 digest b w.0 in
        let offset' = offset + (48 + length b.bytes + 32) in
        let one =
          read_round-record sha256 digest b size (length valid) prev offset (records ++ tail) w.0
            (omega arith) order (omega arith) in
        let rest =
          read_rounds-records m size tail stops bs fuel (valid ++ b ∷ []) (some b.id) offset'
            (omega arith) w.1 rest_follows (omega (arith, length-append valid (b ∷ [])))
            (omega arith) in
        let ends : offset + length (record_of sha256 b ++ records) ≡ offset' + length records =
          omega arith in
        rw (
          append_assoc (record_of sha256 b) records tail,
          one,
          rest,
          append_assoc valid (b ∷ []) bs,
          ends,
        )

    -- A journal is read back as the blocks that were appended, and not reported as malformed.
    pub read_journal_prefix-journal :
        (bs : List StoredBlock)
        → Journaled bs
        → read_journal_prefix sha256 (journal_of bs) ≡ ok (bs, none)
    read_journal_prefix-journal bs (w, follows, few, fits) =
        let size = length (journal_of bs) in
        let m : ℕ → Option ℕ = λ _. none in
        let whole =
          read_rounds-records m size []
            (λ count prev offset. read_round-end sha256 size count prev offset fits) bs
            (suc max_blocks_per_frame) [] none 4 (omega arith) w follows (omega arith)
            (omega (arith, length-append journal_magic (records_of bs))) in
        read_journal_prefix-magic (records_of bs)
        ∙ ap (read_rounds sha256 (suc max_blocks_per_frame) size [] none 4)
            (sym (append-nil (records_of bs)))
        ∙ whole

    -- If only a part of the last record reached the file, every block before it is read back, and the
    -- place where the record begins is reported.
    pub read_journal_prefix-cut :
        (bs : List StoredBlock) (b : StoredBlock) (k : ℕ)
        → Journaled bs
        → IsStored sha256 b
        → 0 < k
        → k < length (record_of sha256 b)
        → read_journal_prefix sha256 (journal_of bs ++ take k (record_of sha256 b))
          ≡ ok (bs, some (length (journal_of bs)))
    read_journal_prefix-cut bs b k (w, follows, few, fits) wb pos short =
        let tail = take k (record_of sha256 b) in
        let size = length (journal_magic ++ (records_of bs ++ tail)) in
        let m : ℕ → Option ℕ = λ o. some o in
        let whole =
          read_rounds-records m size tail
            (λ count prev offset.
              read_round-cut sha256 digest b size count prev offset k wb pos short)
            bs (suc max_blocks_per_frame) [] none 4 (omega arith) w follows (omega arith)
            (omega (arith, length-append journal_magic (records_of bs))) in
        ap (read_journal_prefix sha256) (append_assoc journal_magic (records_of bs) tail)
        ∙ read_journal_prefix-magic (records_of bs ++ tail)
        ∙ whole
        ∙ ap (λ n. ok (bs, some n)) (omega (arith, length-append journal_magic (records_of bs)))
