-- ===== src/Store/Journal/Sound.antt =====
-- What `read_journal_prefix` of recording/store.rs accepts, whatever the bytes are.
use vim_config.Prelude.{
  ℕ, ◌+◌, ◌*◌, ◌^◌, ◌≤◌, ◌<◌, ◌≡◌, refl, sym, ap, subst, ◌∙◌, inl, inr, List, ◌++◌, arith, length,
  take, drop, append_assoc, Option, All, false, not, ltb, leb, ◌==◌, ◌||◌, Bool-cases,
  take-append-drop, length-take, length-drop, drop-drop, take-all, All-take, All-drop,
}
use vim_config.Prelude.Bytes.{same, same_eq}
use vim_config.Outcome.{Result, ok, err, u64_max, checked}
use vim_config.Wire.Put.{max_block_bytes}
use vim_config.Wire.Varint.{IsByte}
use vim_config.Store.{StoredBlock, max_blocks_per_frame, max_journal_bytes}
use vim_config.Store.Endian.{to_le, from_le, to_le-from_le, from_le-lt}
use vim_config.Store.Journal.{
  Found, stop, found, journal_prefix, journal_body, journal_record, breaks_order, exceeds_journal,
  read_record, read_prefix, read_round,
}
use vim_config.Store.Journal.Reads.{IsStored, record_of}

-- A prefix is that of the id, length and digest in it.
journal_prefix-fields :
    (prefix : List ℕ)
    → length prefix ≡ 48
    → All IsByte prefix
    → prefix
      ≡ journal_prefix
          (from_le (take 8 prefix))
          (from_le (take 8 (drop 8 prefix)))
          (take 32 (drop 16 prefix))
unfolding journal_prefix
journal_prefix-fields prefix e h =
    let n₁ : length (take 8 prefix) ≡ 8 = omega (arith, length-take 8 prefix) in
    let n₂ : length (take 8 (drop 8 prefix)) ≡ 8 =
      omega (arith, length-take 8 (drop 8 prefix), length-drop 8 prefix) in
    let n₃ : length (drop 16 prefix) ≡ 32 = omega (arith, length-drop 16 prefix) in
    let a : to_le 8 (from_le (take 8 prefix)) ≡ take 8 prefix =
      ap (λ n. to_le n (from_le (take 8 prefix))) (sym n₁)
      ∙ to_le-from_le (take 8 prefix) (All-take IsByte 8 prefix h) in
    let b : to_le 8 (from_le (take 8 (drop 8 prefix))) ≡ take 8 (drop 8 prefix) =
      ap (λ n. to_le n (from_le (take 8 (drop 8 prefix)))) (sym n₂)
      ∙ to_le-from_le (take 8 (drop 8 prefix))
          (All-take IsByte 8 (drop 8 prefix) (All-drop IsByte 8 prefix h)) in
    let c : take 32 (drop 16 prefix) ≡ drop 8 (drop 8 prefix) =
      ap (λ n. take n (drop 16 prefix)) (sym n₃)
      ∙ take-all (drop 16 prefix)
      ∙ sym (drop-drop 8 8 prefix) in
    cc (a, b, c, take-append-drop 8 prefix, take-append-drop 8 (drop 8 prefix))

near_le : (n : ℕ) → exceeds_journal (checked u64_max n) ≡ false → n ≤ max_journal_bytes
unfolding exceeds_journal
near_le n h = ground arith

module _ (sha256 : List ℕ → List ℕ) where
  -- A round ends the reading, or finds a block that may follow, whose record stands at the cursor.
  abbrev pub Good : (count : ℕ) (prev : Option ℕ) (rest : List ℕ) → Result Found → Type 0
  Good count prev rest (err e) = ⊥
  Good count prev rest (ok (stop m)) = Unit {0}
  Good count prev rest (ok (found b offset' rest')) =
      IsStored sha256 b
      × (breaks_order prev b.id ≡ false)
      × (count < max_blocks_per_frame)
      × (offset' ≤ max_journal_bytes)
      × (rest ≡ record_of sha256 b ++ rest')

  -- The bytes of a record that agree with their digests are that record.
  record_of-agrees :
      (b : StoredBlock) (len : ℕ) (prefix checksum rest rest' : List ℕ)
      → prefix ≡ journal_prefix b.id len (take 32 (drop 16 prefix))
      → length b.bytes ≡ len
      → b.sha256 ≡ take 32 (drop 16 prefix)
      → sha256 (prefix ++ b.bytes) ≡ checksum
      → b.bytes ++ (checksum ++ rest') ≡ rest
      → prefix ++ rest ≡ record_of sha256 b ++ rest'
  unfolding journal_record journal_body
  record_of-agrees b len prefix checksum rest rest' e n d sum whole =
      let p : journal_prefix b.id (length b.bytes) b.sha256 ≡ prefix = rw (n, d) (sym e) in
      rw (
        p,
        sum,
        append_assoc (prefix ++ b.bytes) checksum rest',
        append_assoc prefix b.bytes (checksum ++ rest'),
        whole,
      )

  read_record-Good :
      (count : ℕ) (prev : Option ℕ) (offset id len : ℕ) (prefix rest : List ℕ)
      → 0 < len
      → len ≤ max_block_bytes
      → id ≤ u64_max
      → breaks_order prev id ≡ false
      → count < max_blocks_per_frame
      → offset + len + 80 ≤ max_journal_bytes
      → prefix ≡ journal_prefix id len (take 32 (drop 16 prefix))
      → Good count prev (prefix ++ rest) (read_record sha256 offset id len prefix rest)
  unfolding read_record
  read_record-Good count prev offset id len prefix rest pos small hid order few fits e =
      let block = take len rest in
      let checksum = take 32 (drop len rest) in
      elim (Bool-cases (not (length block == len))) [
        | inl short ↦ rw short tt
        | inr long ↦ elim (Bool-cases (not (length checksum == 32))) [
          | inl short ↦ rw (long, short) tt
          | inr whole ↦
              elim (Bool-cases (
                not (same (sha256 (prefix ++ block)) checksum)
                || not (same (sha256 block) (take 32 (drop 16 prefix))))) [
                  | inl differs ↦ rw (long, whole, differs) tt
                  | inr agrees ↦
                      let n : length block ≡ len = ground arith in
                      let sum : sha256 (prefix ++ block) ≡ checksum = same_eq _ _ (ground arith) in
                      let digest : sha256 block ≡ take 32 (drop 16 prefix) =
                        same_eq _ _ (ground arith) in
                      let room : ltb u64_max (offset + (48 + len + 32)) ≡ false = ground arith in
                      let parts : block ++ (checksum ++ drop 32 (drop len rest)) ≡ rest =
                        ap (λ t. block ++ t) (take-append-drop 32 (drop len rest))
                        ∙ take-append-drop len rest in
                      let b : StoredBlock = record {
                        id = id;
                        bytes = block;
                        sha256 = sha256 block;
                      } in
                      rw (long, whole, agrees, room)
                        (
                          record {
                            hashed = refl;
                            filled = omega arith;
                            bounded = omega arith;
                            numbered = hid;
                          },
                          order,
                          few,
                          omega arith,
                          record_of-agrees b len prefix checksum rest (drop 32 (drop len rest)) e n
                              digest sum parts,
                        )
                ]
        ]
      ]

  read_prefix-Good :
      (count : ℕ) (prev : Option ℕ) (offset : ℕ) (prefix rest : List ℕ)
      → length prefix ≡ 48
      → All IsByte prefix
      → Good count prev (prefix ++ rest) (read_prefix sha256 count prev offset prefix rest)
  unfolding read_prefix
  read_prefix-Good count prev offset prefix rest e h =
      let id = from_le (take 8 prefix) in
      let len = from_le (take 8 (drop 8 prefix)) in
      let whole = journal_prefix-fields prefix e h in
      let n : length (take 8 prefix) ≡ 8 = omega (arith, length-take 8 prefix) in
      let small : id < 2 ^ (8 * 8) =
        subst (λ k. id < 2 ^ (k * 8)) n (from_le-lt (take 8 prefix) (All-take IsByte 8 prefix h)) in
      elim (Bool-cases ((len == 0) || ltb max_block_bytes len || leb max_blocks_per_frame count)) [
        | inl bad ↦ rw bad tt
        | inr fine ↦
            let no₁ : ltb u64_max (48 + len) ≡ false = ground arith in
            let no₂ : ltb u64_max (48 + len + 32) ≡ false = ground arith in
            elim (Bool-cases (exceeds_journal (checked u64_max (offset + (48 + len + 32))))) [
              | inl far ↦ rw (fine, no₁, no₂, far) tt
              | inr near ↦ elim (Bool-cases (breaks_order prev id)) [
                | inl breaks ↦ rw (fine, no₁, no₂, near, breaks) tt
                | inr order ↦
                    rw (fine, no₁, no₂, near, order)
                      (read_record-Good count prev offset id len prefix rest (ground arith)
                        (ground arith) (omega arith) order (ground arith)
                        (omega (arith, near_le (offset + (48 + len + 32)) near)) whole)
              ]
            ]
      ]

  pub read_round-Good :
      (size count : ℕ) (prev : Option ℕ) (offset : ℕ) (rest : List ℕ)
      → All IsByte rest
      → Good count prev rest (read_round sha256 size count prev offset rest)
  unfolding read_round
  read_round-Good size count prev offset rest h =
      let prefix = take 48 rest in
      elim (Bool-cases (length prefix == 0)) [
        | inl empty ↦ rw empty tt
        | inr more ↦ elim (Bool-cases (not (length prefix == 48))) [
          | inl short ↦ rw (more, short) tt
          | inr whole ↦
              let n : length prefix ≡ 48 = ground arith in
              rw (more, whole)
                (subst
                  (λ t.
                    Good count prev t (read_prefix sha256 count prev offset prefix (drop 48 rest)))
                  (take-append-drop 48 rest)
                  (read_prefix-Good count prev offset prefix (drop 48 rest) n
                    (All-take IsByte 48 rest h)))
        ]
      ]
