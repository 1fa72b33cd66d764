-- ===== src/Wire/Memory/Restored.antt =====
-- What `decode_pmm1` of recording/wire.rs is to make of a process, field by field, and that filling in one
-- column after the other comes to this.
use vim_config.Prelude.{
  ℕ, ◌≡◌, refl, ap, ◌∙◌, Bool, true, false, List, [], ◌∷◌, any, Option, none, some,
}
use vim_config.Model.{
  Process, DecodedProcess, DecodedObservation, MemoryColumn, owned, peak, evicted, MemoryEncoding,
}
use vim_config.Wire.Memory.{process_memory_value}
use vim_config.Wire.Memory.Decode.{set_memory}
use vim_config.Wire.Memory.Values.{whole, fill, fill_all}
use vim_config.Wire.Memory.Rows.{fill_rows}

abbrev pub equals : MemoryColumn → MemoryColumn → Bool
equals owned owned = true
equals peak peak = true
equals evicted evicted = true
equals _ _ = false

-- A sampled size is kept in whole units if its column was selected. A size that was not sampled leaves the
-- field as it was before.
abbrev pub restored_size :
    MemoryEncoding → (selected : Bool) → (sampled before : Option ℕ) → Option ℕ
restored_size memory false sampled before = before
restored_size memory true none before = before
restored_size memory true (some value) before = some (whole memory value)

module _ (memory : MemoryEncoding) (columns : List MemoryColumn) where
  abbrev pub restored : Process → DecodedProcess → DecodedProcess
  restored p d = record d {
    owned = restored_size memory (any (equals owned) columns) p.owned d.owned;
    peak = restored_size memory (any (equals peak) columns) p.peak d.peak;
    evicted = restored_size memory (any (equals evicted) columns) p.evicted d.evicted;
  }

  abbrev pub restored_all : List Process → List DecodedProcess → List DecodedProcess
  restored_all [] ds = ds
  restored_all (p ∷ ps) [] = []
  restored_all (p ∷ ps) (d ∷ ds) = restored p d ∷ restored_all ps ds

  -- Row by row; nothing but the processes' sizes is changed.
  abbrev pub restored_rows :
      {V : Type 0} → List (List Process) → List (DecodedObservation V) → List (DecodedObservation V)
  restored_rows [] rs = rs
  restored_rows (ps ∷ rows) [] = []
  restored_rows (ps ∷ rows) (r ∷ rs) =
      record r { processes = restored_all ps r.processes } ∷ restored_rows rows rs

-- A column that was filled in may be filled in again.
restored_size_again :
    (memory : MemoryEncoding) (selected : Bool) (sampled before : Option ℕ)
    → restored_size memory selected sampled (restored_size memory true sampled before)
      ≡ restored_size memory true sampled before
restored_size_again memory false sampled before = refl
restored_size_again memory true none before = refl
restored_size_again memory true (some value) before = refl

module _ (memory : MemoryEncoding) where
  fill_owned :
      (o : Option ℕ) (d : DecodedProcess)
      → fill memory owned o d ≡ record d { owned = restored_size memory true o d.owned }
  unfolding set_memory
  fill_owned none d = refl
  fill_owned (some value) d = refl

  fill_peak :
      (o : Option ℕ) (d : DecodedProcess)
      → fill memory peak o d ≡ record d { peak = restored_size memory true o d.peak }
  unfolding set_memory
  fill_peak none d = refl
  fill_peak (some value) d = refl

  fill_evicted :
      (o : Option ℕ) (d : DecodedProcess)
      → fill memory evicted o d ≡ record d { evicted = restored_size memory true o d.evicted }
  unfolding set_memory
  fill_evicted none d = refl
  fill_evicted (some value) d = refl

  restored-fill :
      (columns : List MemoryColumn) (column : MemoryColumn) (p : Process) (d : DecodedProcess)
      → restored memory columns p (fill memory column (process_memory_value p column) d)
        ≡ restored memory (column ∷ columns) p d
  unfolding process_memory_value
  restored-fill columns owned p d =
      ap (restored memory columns p) (fill_owned p.owned d)
      ∙ ap (λ o. record (restored memory columns p d) { owned = o })
          (restored_size_again memory (any (equals owned) columns) p.owned d.owned)
  restored-fill columns peak p d =
      ap (restored memory columns p) (fill_peak p.peak d)
      ∙ ap (λ o. record (restored memory columns p d) { peak = o })
          (restored_size_again memory (any (equals peak) columns) p.peak d.peak)
  restored-fill columns evicted p d =
      ap (restored memory columns p) (fill_evicted p.evicted d)
      ∙ ap (λ o. record (restored memory columns p d) { evicted = o })
          (restored_size_again memory (any (equals evicted) columns) p.evicted d.evicted)

  module _ (columns : List MemoryColumn) (column : MemoryColumn) where
    restored_all-fill_all :
        (ps : List Process) (ds : List DecodedProcess)
        → restored_all memory columns ps (fill_all memory column ps ds)
          ≡ restored_all memory (column ∷ columns) ps ds
    unfolding fill_all
    restored_all-fill_all [] ds = refl
    restored_all-fill_all (p ∷ ps) [] = refl
    restored_all-fill_all (p ∷ ps) (d ∷ ds) =
        λ i. restored-fill columns column p d i ∷ restored_all-fill_all ps ds i

    pub restored_rows-fill_rows :
        {V : Type 0} (rows : List (List Process)) (rs : List (DecodedObservation V))
        → restored_rows memory columns rows (fill_rows memory column rows rs)
          ≡ restored_rows memory (column ∷ columns) rows rs
    unfolding fill_rows
    restored_rows-fill_rows [] rs = refl
    restored_rows-fill_rows (ps ∷ rows) [] = refl
    restored_rows-fill_rows (ps ∷ rows) (r ∷ rs) = λ i.
        record r { processes = restored_all-fill_all ps r.processes i }
        ∷ restored_rows-fill_rows rows rs i

  restored_all_none :
      (ps : List Process) (ds : List DecodedProcess) → restored_all memory [] ps ds ≡ ds
  restored_all_none [] ds = refl
  restored_all_none (p ∷ ps) [] = refl
  restored_all_none (p ∷ ps) (d ∷ ds) = ap (λ t. d ∷ t) (restored_all_none ps ds)

  pub restored_rows_none :
      {V : Type 0} (rows : List (List Process)) (rs : List (DecodedObservation V))
      → restored_rows memory [] rows rs ≡ rs
  restored_rows_none [] rs = refl
  restored_rows_none (ps ∷ rows) [] = refl
  restored_rows_none (ps ∷ rows) (r ∷ rs) = λ i.
      record r { processes = restored_all_none ps r.processes i } ∷ restored_rows_none rows rs i
