-- ===== src/Wire/Memory/RoundTrip.antt =====
-- `decode_pmm1` undoes `encode_pmm1`: every selected column comes back, in whole units.
use vim_config.Prelude.{
  ℕ, ◌^◌, ◌<◌, ◌≡◌, refl, sym, ap, ◌∙◌, true, false, not, List, [], ◌∷◌, length, any, none, some,
  arith, All,
}
use vim_config.Outcome.{invalid, ok, ok-injective, >>=-eq-ok, refuse}
use vim_config.Model.{
  identity, decoded_identity, Process, Observation, DecodedProcess, DecodedObservation,
  MemoryColumn, MemoryEncoding, out_of_order, validate_memory,
}
use vim_config.Wire.Whole.{
  WroteAll, WroteAll-bind, WroteAll-lift, WroteAll-at_end, after_magic-WroteAll, has_magic,
  has_magic-append,
}
use vim_config.Wire.Memory.{is_owned, selected_memory}
use vim_config.Wire.Memory.Encode.{put_rows, put_columns, encode_pmm1, sorted_rows, pmm1}
use vim_config.Wire.Memory.Decode.{read_columns, decode_pmm1}
use vim_config.Wire.Memory.Values.{IsU64}
use vim_config.Wire.Memory.Size.{put_columns-le}
use vim_config.Wire.Memory.Selected.{selected_memory-has_value}
use vim_config.Wire.Memory.Rows.{MatchRows, fill_rows, any_value, read_rows-put_rows}
use vim_config.Wire.Memory.Restored.{restored_rows, restored_rows-fill_rows, restored_rows_none}
use vim_config.Wire.Memory.Columns.{
  PendingAll, PendingAll-Match, PendingAll-fill_all, no_later_owned,
}

module _ {V : Type 0} (memory : MemoryEncoding) where
  abbrev pub PendingRows :
      List MemoryColumn → List (List Process) → List (DecodedObservation V) → Type 0
  PendingRows left [] [] = Unit {0}
  PendingRows left [] (r ∷ rs) = ⊥
  PendingRows left (ps ∷ pss) [] = ⊥
  PendingRows left (ps ∷ pss) (r ∷ rs) =
      (length ps < 2 ^ 64) × PendingAll memory left ps r.processes × PendingRows left pss rs

  -- The rows with all columns of the list filled in, from the sampled processes.
  unfoldable fill_columns :
      List MemoryColumn
      → List (List Process)
      → List (DecodedObservation V)
      → List (DecodedObservation V)
  unfolding fill_rows
  fill_columns [] rows rs = rs
  fill_columns (column ∷ columns) rows rs =
      fill_columns columns rows (fill_rows memory column rows rs)

  module _ (column : MemoryColumn) (rest : List MemoryColumn) (h : any is_owned rest ≡ false) where
    PendingRows-MatchRows :
        (rows : List (List Process)) (rs : List (DecodedObservation V))
        → PendingRows (column ∷ rest) rows rs
        → MatchRows memory column rows rs
    PendingRows-MatchRows [] [] m = tt
    PendingRows-MatchRows [] (r ∷ rs) m = absurd m
    PendingRows-MatchRows (ps ∷ rows) [] m = absurd m
    PendingRows-MatchRows (ps ∷ rows) (r ∷ rs) (n, m, ms) = (
      n,
      PendingAll-Match memory column rest h ps r.processes m,
      PendingRows-MatchRows rows rs ms,
    )

    PendingRows-fill_rows :
        (rows : List (List Process)) (rs : List (DecodedObservation V))
        → PendingRows (column ∷ rest) rows rs
        → PendingRows rest rows (fill_rows memory column rows rs)
    unfolding fill_rows
    PendingRows-fill_rows [] [] m = tt
    PendingRows-fill_rows [] (r ∷ rs) m = absurd m
    PendingRows-fill_rows (ps ∷ rows) [] m = absurd m
    PendingRows-fill_rows (ps ∷ rows) (r ∷ rs) (n, m, ms) = (
      n,
      PendingAll-fill_all memory column rest h ps r.processes m,
      PendingRows-fill_rows rows rs ms,
    )

module _ {V : Type 0} (memory : MemoryEncoding) (unit_pos : 0 < memory.unit_bytes)
    (rows : List (List Process)) where
  read_columns-put_columns :
      (columns : List MemoryColumn) (rs : List (DecodedObservation V)) (out out' : List ℕ)
      → out_of_order columns ≡ false
      → All (λ column. any_value column rows ≡ true) columns
      → PendingRows memory columns rows rs
      → put_columns memory columns rows out ≡ ok out'
      → WroteAll out out' (read_columns memory columns rs) (fill_columns memory columns rows rs)
  unfolding put_columns read_columns fill_columns
  read_columns-put_columns [] rs out out' o v m e = rw (← ok-injective e) (WroteAll-at_end out rs)
  read_columns-put_columns (column ∷ columns) rs out out' o (v, vs) m e =
      let (out₁, e₁, e₂) = >>=-eq-ok (put_rows memory column [] rows out) _ e in
      let (alone, ordered) = no_later_owned column columns o in
      let ready = PendingRows-MatchRows memory column columns alone rows rs m in
      let found : refuse (not (any_value column rows)) invalid ≡ ok tt = rw v in
      let rest = PendingRows-fill_rows memory column columns alone rows rs m in
      WroteAll-bind _ out
        (read_rows-put_rows memory column unit_pos [] false rows rs out out₁ ready e₁)
        (WroteAll-lift _ out₁ found (
          read_columns-put_columns columns (fill_rows memory column rows rs) out₁ out' ordered vs
            rest e₂))

-- What the metadata section gives the decoder: the sorted processes, with no memory sizes yet.
pub record IsBare (p : Process) (d : DecodedProcess) : Type 0 where
  pub same : decoded_identity d ≡ identity p
  pub empty : d.owned ≡ none
  pub fits : IsU64 p.owned × IsU64 p.peak × IsU64 p.evicted

abbrev pub Bare : List Process → List DecodedProcess → Type 0
Bare [] [] = Unit {0}
Bare [] (d ∷ ds) = ⊥
Bare (p ∷ ps) [] = ⊥
Bare (p ∷ ps) (d ∷ ds) = IsBare p d × Bare ps ds

module _ {V : Type 0} where
  abbrev pub BareRows : List (List Process) → List (DecodedObservation V) → Type 0
  BareRows [] [] = Unit {0}
  BareRows [] (r ∷ rs) = ⊥
  BareRows (ps ∷ pss) [] = ⊥
  BareRows (ps ∷ pss) (r ∷ rs) = (length ps < 2 ^ 64) × Bare ps r.processes × BareRows pss rs

Bare-PendingAll :
    (memory : MemoryEncoding) (ps : List Process) (ds : List DecodedProcess)
    → Bare ps ds
    → PendingAll memory memory.columns ps ds
Bare-PendingAll memory [] [] m = tt
Bare-PendingAll memory [] (d ∷ ds) m = absurd m
Bare-PendingAll memory (p ∷ ps) [] m = absurd m
Bare-PendingAll memory (p ∷ ps) (d ∷ ds) (b, m) = (
  record { same = b.same; fresh = λ e. b.empty; filled = λ e f. cc; fits = b.fits },
  Bare-PendingAll memory ps ds m,
)

BareRows-PendingRows :
    {V : Type 0} (memory : MemoryEncoding) (rows : List (List Process))
    (rs : List (DecodedObservation V))
    → BareRows rows rs
    → PendingRows memory memory.columns rows rs
BareRows-PendingRows memory [] [] m = tt
BareRows-PendingRows memory [] (r ∷ rs) m = absurd m
BareRows-PendingRows memory (ps ∷ rows) [] m = absurd m
BareRows-PendingRows memory (ps ∷ rows) (r ∷ rs) (n, m, ms) =
    (n, Bare-PendingAll memory ps r.processes m, BareRows-PendingRows memory rows rs ms)

-- Columns filled in one after the other are those of a process that is restored field by field.
fill_columns-restored :
    {V : Type 0} (memory : MemoryEncoding) (columns : List MemoryColumn)
    (rows : List (List Process)) (rs : List (DecodedObservation V))
    → fill_columns memory columns rows rs ≡ restored_rows memory columns rows rs
unfolding fill_columns
fill_columns-restored memory [] rows rs = sym (restored_rows_none memory rows rs)
fill_columns-restored memory (column ∷ columns) rows rs =
    fill_columns-restored memory columns rows (fill_rows memory column rows rs)
    ∙ restored_rows-fill_rows memory columns column rows rs

-- If a valid encoding was selected for the rows and the section was written for it, then decoding the
-- section over rows that hold the same processes in sorted order, with no owned size yet, gives each
-- process the sizes that were sampled of it in the selected columns, in whole units and in the fields of
-- these columns, and changes nothing else. The sampled sizes are u64s, and a row
-- has fewer than 2 ^ 64 processes.
pub decode_pmm1-encode_pmm1 :
    {V : Type 0} (wanted memory : MemoryEncoding) (rows : List (Observation V))
    (rs : List (DecodedObservation V)) {bytes : List ℕ}
    → selected_memory wanted rows ≡ some memory
    → validate_memory memory ≡ ok tt
    → BareRows (sorted_rows rows) rs
    → encode_pmm1 rows memory ≡ ok bytes
    → decode_pmm1 memory bytes rs ≡ ok (restored_rows memory memory.columns (sorted_rows rows) rs)
unfolding encode_pmm1 decode_pmm1 validate_memory
decode_pmm1-encode_pmm1 wanted memory rows rs {bytes} chosen valid bare e =
    let values = selected_memory-has_value wanted rows chosen in
    let pending = BareRows-PendingRows memory (sorted_rows rows) rs bare in
    let unit_pos : 0 < memory.unit_bytes = ground arith in
    let ordered : out_of_order memory.columns ≡ false = ground arith in
    let (bs, eb, all) =
      read_columns-put_columns memory unit_pos (sorted_rows rows) memory.columns rs pmm1 bytes
        ordered values pending e in
    let small =
      put_columns-le memory memory.columns (sorted_rows rows) pmm1 bytes (omega arith) e in
    let magic : has_magic pmm1 bytes ≡ true = rw eb (has_magic-append pmm1 bs) in
    let filled = fill_columns-restored memory memory.columns (sorted_rows rows) rs in
    rw magic (after_magic-WroteAll _ pmm1 refl (omega arith) (bs, eb, all)) ∙ ap ok filled
