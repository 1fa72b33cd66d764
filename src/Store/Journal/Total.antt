-- ===== src/Store/Journal/Total.antt =====
-- `read_journal_prefix` of recording/store.rs ends on any bytes, with the records that the bytes begin with.
use vim_config.Prelude.{
  ℕ, zero, suc, ◌+◌, ◌≤◌, ◌<◌, ◌≡◌, refl, sym, ap, subst, ◌∙◌, ◌⊎◌, inl, inr, List, [], ◌∷◌, ◌++◌,
  arith, length, drop, length-append, append_assoc, append-nil, Option, none, some, All, false,
  Bool-cases, All-append_right, All-drop,
}
use vim_config.Outcome.{Result, ok, err}
use vim_config.Wire.Varint.{IsByte}
use vim_config.Wire.Whole.{has_magic, has_magic_split}
use vim_config.Store.{StoredBlock, journal_magic, max_blocks_per_frame}
use vim_config.Store.Journal.{
  Found, stop, found, breaks_order, read_round, read_rounds, read_journal_prefix,
}
use vim_config.Store.Journal.Reads.{IsStored, record_of}
use vim_config.Store.Journal.Recovered.{Follows, records_of, journal_of}
use vim_config.Store.Journal.Sound.{Good, read_round-Good}

Follows-cons :
    (prev : Option ℕ) (b : StoredBlock) (bs : List StoredBlock)
    → breaks_order prev b.id ≡ false
    → Follows (some b.id) bs
    → Follows prev (b ∷ bs)
unfolding breaks_order
Follows-cons none b bs order h = h
Follows-cons (some prev) b bs order h = (ground arith, h)

module _ (sha256 : List ℕ → List ℕ) where
  -- What reading found behind `count` blocks of which the last has the id `prev`: blocks in order, as
  -- `append` keeps them, with whose records `rest` begins.
  abbrev Ends :
      (valid : List StoredBlock) (prev : Option ℕ) (rest : List ℕ)
      → Result (List StoredBlock × Option ℕ)
      → Type 0
  Ends valid prev rest r =
      (bs : List StoredBlock) × (m : Option ℕ) × (tail : List ℕ) × (r ≡ ok (valid ++ bs, m))
      × All (IsStored sha256) bs
      × Follows prev bs
      × (length valid + length bs ≤ max_blocks_per_frame)
      × (rest ≡ records_of sha256 bs ++ tail)

  Ends-nil :
      (valid : List StoredBlock) (prev : Option ℕ) (rest : List ℕ) (m : Option ℕ)
      → length valid ≤ max_blocks_per_frame
      → Ends valid prev rest (ok (valid, m))
  unfolding records_of
  Ends-nil valid none rest m few = ([], m, rest, rw append-nil, tt, tt, omega arith, refl)
  Ends-nil valid (some p) rest m few = ([], m, rest, rw append-nil, tt, tt, omega arith, refl)

  Ends-cons :
      (valid : List StoredBlock) (prev : Option ℕ) (rest rest' : List ℕ) (b : StoredBlock)
      (r : Result (List StoredBlock × Option ℕ))
      → IsStored sha256 b
      → breaks_order prev b.id ≡ false
      → rest ≡ record_of sha256 b ++ rest'
      → Ends (valid ++ b ∷ []) (some b.id) rest' r
      → Ends valid prev rest r
  unfolding records_of
  Ends-cons valid prev rest rest' b r w order e (bs, m, tail, er, ws, follows, few, et) = (
    b ∷ bs,
    m,
    tail,
    er ∙ ap (λ t. ok (t, m)) (append_assoc valid (b ∷ []) bs),
    (w, ws),
    Follows-cons prev b bs order follows,
    omega (arith, length-append valid (b ∷ [])),
    e
        ∙ ap (λ t. record_of sha256 b ++ t) et
        ∙ sym (append_assoc (record_of sha256 b) (records_of sha256 bs) tail),
  )

  -- A round and those after it, by what the round gives.
  read_rounds-step :
      (fuel size : ℕ) (valid : List StoredBlock) (prev : Option ℕ) (offset : ℕ) (rest : List ℕ)
      (r : Result Found)
      → read_round sha256 size (length valid) prev offset rest ≡ r
      → Good sha256 (length valid) prev rest r
      → All IsByte rest
      → length valid ≤ max_blocks_per_frame
      → ((b : StoredBlock) (offset' : ℕ) (rest' : List ℕ)
          → All IsByte rest'
          → length (valid ++ b ∷ []) ≤ max_blocks_per_frame
          → Ends
              (valid ++ b ∷ [])
              (some b.id)
              rest'
              (read_rounds sha256 fuel size (valid ++ b ∷ []) (some b.id) offset' rest'))
      → Ends valid prev rest (read_rounds sha256 (suc fuel) size valid prev offset rest)
  unfolding read_rounds
  read_rounds-step fuel size valid prev offset rest (err x) e good h few ih = absurd good
  read_rounds-step fuel size valid prev offset rest (ok (stop m)) e good h few ih =
      rw e (Ends-nil valid prev rest m few)
  read_rounds-step fuel size valid prev offset rest (ok (found b offset' rest')) e
        (w, order, few', near, er) h few ih =
      let h' : All IsByte rest' =
        All-append_right IsByte (record_of sha256 b) rest' (subst (All IsByte) er h) in
      rw e (
        Ends-cons valid prev rest rest' b _ w order er
          (ih b offset' rest' h' (omega (arith, length-append valid (b ∷ [])))))

  read_rounds-Ends :
      (fuel size : ℕ) (valid : List StoredBlock) (prev : Option ℕ) (offset : ℕ) (rest : List ℕ)
      → max_blocks_per_frame < length valid + fuel
      → length valid ≤ max_blocks_per_frame
      → All IsByte rest
      → Ends valid prev rest (read_rounds sha256 fuel size valid prev offset rest)
  read_rounds-Ends zero size valid prev offset rest hf few h = absurd (omega arith)
  read_rounds-Ends (suc fuel) size valid prev offset rest hf few h =
      read_rounds-step fuel size valid prev offset rest _ refl
        (read_round-Good sha256 size (length valid) prev offset rest h) h few
        (λ b offset' rest' h' few'.
          read_rounds-Ends fuel size (valid ++ b ∷ []) (some b.id) offset' rest'
            (omega (arith, length-append valid (b ∷ []))) few' h')

  -- On any bytes `read_journal_prefix` ends without an error, and gives blocks as `append` keeps them, with
  -- consecutive ids and no more than a frame may have; if there are any, the bytes begin with the magic and
  -- their records.
  pub read_journal_prefix_total :
      (bytes : List ℕ)
      → All IsByte bytes
      → (valid : List StoredBlock) × (malformed_at : Option ℕ) × (read_journal_prefix sha256 bytes
          ≡ ok (valid, malformed_at))
        × All (IsStored sha256) valid
        × Follows none valid
        × (length valid ≤ max_blocks_per_frame)
        × ((valid ≡ []) ⊎ ((tail : List ℕ) × (bytes ≡ journal_of sha256 valid ++ tail)))
  unfolding read_journal_prefix
  read_journal_prefix_total bytes h = elim (Bool-cases (has_magic journal_magic bytes)) [
    | inr other ↦ ([], some 0, rw other, tt, tt, omega arith, inl refl)
    | inl magic ↦
        let (valid, m, tail, er, w, follows, few, et) =
          read_rounds-Ends (suc max_blocks_per_frame) (length bytes) [] none 4 (drop 4 bytes)
            (omega arith) (omega arith) (All-drop IsByte 4 bytes h) in
        (
          valid,
          m,
          rw magic er,
          w,
          follows,
          omega arith,
          inr (tail, has_magic_split journal_magic bytes magic ∙ ap (λ t. journal_magic ++ t) et),
        )
  ]
