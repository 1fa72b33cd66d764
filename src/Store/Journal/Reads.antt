-- ===== src/Store/Journal/Reads.antt =====
-- One round of `read_journal_prefix` of recording/store.rs, on a record that was written and on one that
-- was cut off.
use vim_config.Prelude.{
  ℕ, ◌+◌, ◌-◌, ◌≤◌, ◌<◌, ◌≡◌, sym, ap, ◌∙◌, List, [], ◌++◌, arith, length, take, drop,
  length-append, append_assoc, length-take, length-drop, take-length-append, drop-length-append,
  take-append_left, drop-append_left, take-append_right, take-all, false, Option, none, some,
  dec_lt, append-nil,
}
use vim_config.Prelude.Bytes.{same_self}
use vim_config.Outcome.{ok, u64_max}
use vim_config.Wire.Put.{max_block_bytes}
use vim_config.Store.{StoredBlock, max_blocks_per_frame, max_journal_bytes}
use vim_config.Store.Endian.{to_le, from_le, from_le-to_le, length-to_le}
use vim_config.Store.Journal.{
  journal_prefix, journal_body, journal_record, stop, found, breaks_order, exceeds_journal,
  read_record, read_prefix, read_round,
}

-- The three fields of a prefix.
fields :
    (id len : ℕ) (digest : List ℕ)
    → id ≤ u64_max
    → len ≤ u64_max
    → length digest ≡ 32
    → let prefix = journal_prefix id len digest in
      (length prefix ≡ 48)
      × (from_le (take 8 prefix) ≡ id)
      × (from_le (take 8 (drop 8 prefix)) ≡ len)
      × (take 32 (drop 16 prefix) ≡ digest)
unfolding journal_prefix
fields id len digest hid hlen e =
    let a = to_le 8 id in
    let b = to_le 8 len in
    let na : length a ≡ 8 = length-to_le 8 id in
    let nb : length b ≡ 8 = length-to_le 8 len in
    let rest : drop 8 (a ++ (b ++ digest)) ≡ b ++ digest = drop-append_left 8 a (b ++ digest) na in
    let both : length (a ++ b) ≡ 16 = omega (arith, length-append a b) in
    let last : drop 16 (a ++ (b ++ digest)) ≡ digest =
      ap (λ t. drop 16 t) (sym (append_assoc a b digest))
      ∙ drop-append_left 16 (a ++ b) digest both in
    (
      omega (arith, length-append a (b ++ digest), length-append b digest),
      rw (take-append_left 8 a (b ++ digest) na) (from_le-to_le 8 id (omega arith)),
      rw (rest, take-append_left 8 b digest nb) (from_le-to_le 8 len (omega arith)),
      ap (λ t. take 32 t) last ∙ rw (← e) (take-all digest),
    )

module _ (sha256 : List ℕ → List ℕ) where
  -- Bytes that end before the checksum does.
  read_record_short :
      (offset id len : ℕ) (prefix rest : List ℕ)
      → length rest < len + 32
      → read_record sha256 offset id len prefix rest ≡ ok (stop (some offset))
  unfolding read_record
  read_record_short offset id len prefix rest h =
      ground (arith, length-take len rest, length-take 32 (drop len rest), length-drop len rest)

  read_prefix_short :
      (count : ℕ) (prev : Option ℕ) (offset : ℕ) (prefix rest : List ℕ)
      → length rest < from_le (take 8 (drop 8 prefix)) + 32
      → read_prefix sha256 count prev offset prefix rest ≡ ok (stop (some offset))
  unfolding read_prefix
  read_prefix_short count prev offset prefix rest h = ground (
    arith,
    read_record_short offset (from_le (take 8 prefix)) (from_le (take 8 (drop 8 prefix))) prefix
        rest,
  )

  -- A whole record of a block that is kept with its digest.
  read_record_whole :
      (offset id : ℕ) (prefix block rest : List ℕ)
      → length (sha256 (prefix ++ block)) ≡ 32
      → take 32 (drop 16 prefix) ≡ sha256 block
      → offset + length block + 80 ≤ u64_max
      → read_record sha256 offset id
          (length block)
          prefix
          (block ++ (sha256 (prefix ++ block) ++ rest))
        ≡ ok (
            found
              (record { id = id; bytes = block; sha256 = sha256 block })
              (offset + (48 + length block + 32))
              rest)
  unfolding read_record
  read_record_whole offset id prefix block rest e d h =
      let sum = sha256 (prefix ++ block) in
      rw
        (
          take-length-append block (sum ++ rest),
          drop-length-append block (sum ++ rest),
          take-append_left 32 sum rest e,
          drop-append_left 32 sum rest e,
          d,
          e,
          same_self sum,
          same_self (sha256 block),
        )
        (ground arith)

  -- A round that gets a whole prefix, and what the prefix must say for its record to be read.
  read_round-prefix :
      (size count : ℕ) (prev : Option ℕ) (offset : ℕ) (prefix rest : List ℕ)
      → length prefix ≡ 48
      → read_round sha256 size count prev offset (prefix ++ rest)
        ≡ read_prefix sha256 count prev offset prefix rest
  unfolding read_round
  read_round-prefix size count prev offset prefix rest e =
      rw (take-append_left 48 prefix rest e, drop-append_left 48 prefix rest e, e)

  read_round_short :
      (size count : ℕ) (prev : Option ℕ) (offset : ℕ) (rest : List ℕ)
      → 0 < length rest
      → length rest < 48
      → read_round sha256 size count prev offset rest ≡ ok (stop (some offset))
  unfolding read_round
  read_round_short size count prev offset rest pos h = ground (arith, length-take 48 rest)

  read_prefix-record :
      (count : ℕ) (prev : Option ℕ) (offset : ℕ) (prefix rest : List ℕ) (id len : ℕ)
      → from_le (take 8 prefix) ≡ id
      → from_le (take 8 (drop 8 prefix)) ≡ len
      → 0 < len
      → len ≤ max_block_bytes
      → count < max_blocks_per_frame
      → breaks_order prev id ≡ false
      → offset + len + 80 ≤ max_journal_bytes
      → read_prefix sha256 count prev offset prefix rest
        ≡ read_record sha256 offset id len prefix rest
  unfolding read_prefix exceeds_journal
  read_prefix-record count prev offset prefix rest id len eid elen pos small few order fits =
      rw (eid, elen, order) (ground arith)

  -- A block as `append` keeps it: with its digest, a length that the archive takes, and a u64 id.
  pub record IsStored (b : StoredBlock) : Type 0 where
    pub hashed : b.sha256 ≡ sha256 b.bytes
    pub filled : 0 < length b.bytes
    pub bounded : length b.bytes ≤ max_block_bytes
    pub numbered : b.id ≤ u64_max

  abbrev pub record_of : StoredBlock → List ℕ
  record_of b = journal_record sha256 b.id b.bytes b.sha256

  module _ (digest : (bs : List ℕ) → length (sha256 bs) ≡ 32) where
    pub length-record_of :
        (b : StoredBlock) → IsStored b → length (record_of b) ≡ length b.bytes + 80
    unfolding journal_record journal_body
    length-record_of b w =
        let prefix = journal_prefix b.id (length b.bytes) b.sha256 in
        let body = prefix ++ b.bytes in
        let d : length b.sha256 ≡ 32 = ap length w.hashed ∙ digest b.bytes in
        let (n, _, _, _) =
          fields b.id (length b.bytes) b.sha256 w.numbered
            (let h : length b.bytes ≤ u64_max = omega (arith, w.bounded) in h) d in
        omega
          (arith, length-append body (sha256 body), length-append prefix b.bytes, digest body, n)

    -- The bytes of a record, up to any length from its prefix on.
    split_record :
        (b : StoredBlock) (rest : List ℕ)
        → record_of b ++ rest
          ≡ journal_prefix b.id (length b.bytes) b.sha256
            ++ (b.bytes
                ++ (sha256 (journal_prefix b.id (length b.bytes) b.sha256 ++ b.bytes) ++ rest))
    unfolding journal_record journal_body
    split_record b rest = simp append_assoc

    -- A record is read whatever follows it, when its id follows the one before it, and the limits on
    -- the number of blocks and on the bytes allow for it.
    pub read_round-record :
        (b : StoredBlock) (size count : ℕ) (prev : Option ℕ) (offset : ℕ) (rest : List ℕ)
        → IsStored b
        → count < max_blocks_per_frame
        → breaks_order prev b.id ≡ false
        → offset + length b.bytes + 80 ≤ max_journal_bytes
        → read_round sha256 size count prev offset (record_of b ++ rest)
          ≡ ok (found b (offset + (48 + length b.bytes + 32)) rest)
    read_round-record b size count prev offset rest w few order fits =
        let n = length b.bytes in
        let prefix = journal_prefix b.id n b.sha256 in
        let after = b.bytes ++ (sha256 (prefix ++ b.bytes) ++ rest) in
        let d : length b.sha256 ≡ 32 = ap length w.hashed ∙ digest b.bytes in
        let (len, id, len64, sha) =
          fields b.id n b.sha256 w.numbered (let h : n ≤ u64_max = omega (arith, w.bounded) in h)
            d in
        let whole =
          read_record_whole offset b.id prefix b.bytes rest (digest (prefix ++ b.bytes))
            (sha ∙ w.hashed) (omega arith) in
        ap (read_round sha256 size count prev offset) (split_record b rest)
        ∙ read_round-prefix size count prev offset prefix after len
        ∙ read_prefix-record count prev offset prefix after b.id n id len64 w.filled w.bounded few
            order fits
        ∙ whole
        ∙ ap (λ t. ok (found (record b { sha256 = t }) (offset + (48 + n + 32)) rest))
            (sym w.hashed)

    -- A record of which only the first bytes are there ends the reading at its offset.
    pub read_round-cut :
        (b : StoredBlock) (size count : ℕ) (prev : Option ℕ) (offset k : ℕ)
        → IsStored b
        → 0 < k
        → k < length (record_of b)
        → read_round sha256 size count prev offset (take k (record_of b)) ≡ ok (stop (some offset))
    read_round-cut b size count prev offset k w pos short =
        let n = length b.bytes in
        let prefix = journal_prefix b.id n b.sha256 in
        let after = b.bytes ++ (sha256 (prefix ++ b.bytes) ++ []) in
        let d : length b.sha256 ≡ 32 = ap length w.hashed ∙ digest b.bytes in
        let (len, id, len64, sha) =
          fields b.id n b.sha256 w.numbered (let h : n ≤ u64_max = omega (arith, w.bounded) in h)
            d in
        elim (dec_lt k 48) [
          | yes p ↦
              read_round_short size count prev offset (take k (record_of b))
                (omega (arith, length-take k (record_of b)))
                (omega (arith, length-take k (record_of b)))
          | no p ↦
              let j = k - 48 in
              let whole : record_of b ≡ prefix ++ after =
                sym (append-nil (record_of b)) ∙ split_record b [] in
              let behind : k ≡ length prefix + j = omega arith in
              let cut : take k (record_of b) ≡ prefix ++ take j after =
                ap (take k) whole
                ∙ ap (λ t. take t (prefix ++ after)) behind
                ∙ take-append_right j prefix after in
              ap (read_round sha256 size count prev offset) cut
              ∙ read_round-prefix size count prev offset prefix (take j after) len
              ∙ read_prefix_short count prev offset prefix (take j after)
                  (omega (arith, length-take j after, len64, length-record_of b w))
        ]

  pub read_round-end :
      (size count : ℕ) (prev : Option ℕ) (offset : ℕ)
      → size ≤ max_journal_bytes
      → read_round sha256 size count prev offset [] ≡ ok (stop none)
  unfolding read_round
  read_round-end size count prev offset h = ground arith
