-- ===== src/Wire/Memory/Selected.antt =====
-- `selected_memory` of recording/wire.rs keeps a column only where there is a value.
use vim_config.Prelude.{
  ℕ, ◌≡◌, ◌≢◌, ◌↔◌, refl, sym, ap, subst, ◌∙◌, Bool, true, ◌||◌, List, [], ◌∷◌, any, Any, any-Any,
  Option, none, some, is_some, arith, All, Bool-cases, inl, inr,
}
use vim_config.Model.{Process, Observation, MemoryColumn, owned, peak, evicted, MemoryEncoding}
use vim_config.Wire.Memory.{
  process_memory_value, present, sorted_processes, insert_process, selected_memory, keep_columns,
  then_some,
}
use vim_config.Wire.Memory.Encode.{sorted_rows}
use vim_config.Wire.Memory.Rows.{any_value}
use mathlib.Core.Option.{some-injective}

any-insert_process :
    (p : Process → Bool) (x : Process) (ps : List Process)
    → any p (insert_process x ps) ≡ (p x || any p ps)
unfolding insert_process
any-insert_process p x [] = refl
any-insert_process p x (y ∷ ys) = ground (arith, any-insert_process p x ys)

any-sorted_processes :
    (p : Process → Bool) (ps : List Process) → any p (sorted_processes ps) ≡ any p ps
unfolding sorted_processes
any-sorted_processes p [] = refl
any-sorted_processes p (x ∷ ps) =
    any-insert_process p x (sorted_processes ps) ∙ ap (λ b. p x || b) (any-sorted_processes p ps)

module _ {V : Type 0} where
  abbrev has_value : List (Observation V) → MemoryColumn → Bool
  has_value rows column = any (λ row. any (present column) row.processes) rows

  any_value-sorted_rows :
      (column : MemoryColumn) (rows : List (Observation V))
      → any_value column (sorted_rows rows) ≡ has_value rows column
  any_value-sorted_rows column [] = refl
  any_value-sorted_rows column (row ∷ rows) = λ i.
      any-sorted_processes (present column) row.processes i || any_value-sorted_rows column rows i

  keep_columns-has_value :
      (rows : List (Observation V)) (columns : List MemoryColumn)
      → All (λ column. any_value column (sorted_rows rows) ≡ true) (keep_columns rows columns)
  unfolding keep_columns
  keep_columns-has_value rows [] = tt
  keep_columns-has_value rows (column ∷ columns) = elim (Bool-cases (has_value rows column)) [
    | inl h ↦ rw h (any_value-sorted_rows column rows ∙ h, keep_columns-has_value rows columns)
    | inr h ↦ rw h (keep_columns-has_value rows columns)
  ]

then_some-columns :
    (memory : MemoryEncoding) (kept : List MemoryColumn) {chosen : MemoryEncoding}
    → then_some memory kept ≡ some chosen
    → kept ≡ chosen.columns
unfolding then_some
then_some-columns memory [] e = cc
then_some-columns memory (column ∷ rest) e = ap MemoryEncoding.columns (some-injective _ _ e)

-- As `encode_pmm1` needs it, over the sorted rows.
pub selected_memory-has_value :
    {V : Type 0} (memory : MemoryEncoding) (rows : List (Observation V)) {chosen : MemoryEncoding}
    → selected_memory memory rows ≡ some chosen
    → All (λ column. any_value column (sorted_rows rows) ≡ true) chosen.columns
unfolding selected_memory
selected_memory-has_value memory rows e =
    subst (λ columns. All (λ column. any_value column (sorted_rows rows) ≡ true) columns)
      (then_some-columns memory (keep_columns rows memory.columns) e)
      (keep_columns-has_value rows memory.columns)

-- The field of a column.
abbrev pub size_of : MemoryColumn → Process → Option ℕ
size_of owned p = p.owned
size_of peak p = p.peak
size_of evicted p = p.evicted

-- The process was sampled with a size in the column.
abbrev pub HasSize : MemoryColumn → Process → Type 0
HasSize column p = (value : ℕ) × (size_of column p ≡ some value)

is_some_iff : (o : Option ℕ) → (is_some o ≡ true) ↔ ((value : ℕ) × (o ≡ some value))
is_some_iff none = ((λ e. cc), (λ (v, e). cc))
is_some_iff (some v) = ((λ e. (v, refl)), (λ h. refl))

present-HasSize :
    (column : MemoryColumn) (p : Process) → (present column p ≡ true) ↔ HasSize column p
unfolding present process_memory_value
present-HasSize owned p = is_some_iff p.owned
present-HasSize peak p = is_some_iff p.peak
present-HasSize evicted p = is_some_iff p.evicted

module _ {V : Type 0} where
  -- Some process of some row has a size in the column.
  abbrev pub Sampled : List (Observation V) → MemoryColumn → Type 0
  Sampled rows column = Any (λ row. Any (HasSize column) row.processes) rows

  -- The second list is the first without the columns in which no process has a size.
  pub data Thinned (rows : List (Observation V))
      : List MemoryColumn → List MemoryColumn → Type 0 where
    none_left : Thinned rows [] []
    keep :
        (column : MemoryColumn) {columns kept : List MemoryColumn}
        → Sampled rows column
        → Thinned rows columns kept
        → Thinned rows (column ∷ columns) (column ∷ kept)
    skip :
        (column : MemoryColumn) {columns kept : List MemoryColumn}
        → ¬ Sampled rows column
        → Thinned rows columns kept
        → Thinned rows (column ∷ columns) kept

  has_value-Sampled :
      (rows : List (Observation V)) (column : MemoryColumn)
      → (has_value rows column ≡ true) ↔ Sampled rows column
  has_value-Sampled rows column =
      any-Any _ _ (λ row. any-Any _ _ (present-HasSize column) row.processes) rows

  keep_columns-Thinned :
      (rows : List (Observation V)) (columns : List MemoryColumn)
      → Thinned rows columns (keep_columns rows columns)
  unfolding keep_columns
  keep_columns-Thinned rows [] = none_left
  keep_columns-Thinned rows (column ∷ columns) = elim (Bool-cases (has_value rows column)) [
    | inl b ↦
        rw b (keep column ((has_value-Sampled rows column).0 b) (keep_columns-Thinned rows columns))
    | inr b ↦
        let absent : ¬ Sampled rows column =
          λ h. let e = (has_value-Sampled rows column).1 h in cc in
        rw b (skip column absent (keep_columns-Thinned rows columns))
  ]

  Thinned-keep_columns :
      (rows : List (Observation V)) {columns kept : List MemoryColumn}
      → Thinned rows columns kept
      → keep_columns rows columns ≡ kept
  unfolding keep_columns
  Thinned-keep_columns rows none_left = refl
  Thinned-keep_columns rows (keep column sampled rest) =
      let b = (has_value-Sampled rows column).1 sampled in
      rw b (ap (λ t. column ∷ t) (Thinned-keep_columns rows rest))
  Thinned-keep_columns rows (skip column {columns} absent rest) =
      elim (Bool-cases (has_value rows column)) [
        | inl b ↦ absurd (absent ((has_value-Sampled rows column).0 b))
        | inr b ↦ rw b (Thinned-keep_columns rows rest)
      ]

then_some_iff :
    (memory chosen : MemoryEncoding) (kept : List MemoryColumn)
    → (then_some memory kept ≡ some chosen)
      ↔ ((kept ≡ chosen.columns) × (chosen.columns ≢ []) × (chosen.unit_bytes ≡ memory.unit_bytes))
unfolding then_some
then_some_iff memory chosen [] = ((λ e. cc), (λ (e, more, unit). absurd (more (sym e))))
then_some_iff memory chosen (column ∷ rest) = (
  (λ e.
      let same = some-injective _ _ e in
      (
        ap MemoryEncoding.columns same,
        (λ h. let f = ap MemoryEncoding.columns same ∙ h in cc),
        sym (ap MemoryEncoding.unit_bytes same),
      )),
  (λ (e, more, unit). λ i. some (record { columns = e i; unit_bytes = sym unit i })),
)

-- `selected_memory` returns an encoding exactly if its columns are the wanted ones without those in which no
-- process of the rows has a size, in their order, at least one of them is left, and the unit is the same.
pub selected_memory_iff :
    {V : Type 0} (memory : MemoryEncoding) (rows : List (Observation V)) (chosen : MemoryEncoding)
    → (selected_memory memory rows ≡ some chosen) ↔ (
        Thinned rows memory.columns chosen.columns
        × (chosen.columns ≢ [])
        × (chosen.unit_bytes ≡ memory.unit_bytes))
unfolding selected_memory
selected_memory_iff memory rows chosen = (
  (λ e.
      let (kept, more, unit) =
        (then_some_iff memory chosen (keep_columns rows memory.columns)).0 e in
      (
        subst (Thinned rows memory.columns) kept (keep_columns-Thinned rows memory.columns),
        more,
        unit,
      )),
  (λ (thinned, more, unit).
      (then_some_iff memory chosen (keep_columns rows memory.columns)).1
        (Thinned-keep_columns rows thinned, more, unit)),
)
