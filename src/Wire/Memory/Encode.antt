-- ===== src/Wire/Memory/Encode.antt =====
-- `encode_pmm1` of recording/wire.rs.
use vim_config.Prelude.{ℕ, ◌+◌, List, [], ◌∷◌, length, Option, none, some, if◌then◌else◌}
use vim_config.Prelude.Int.{◌-ℤ◌}
use vim_config.Outcome.{overflow, Result, ok, ok_or, checked_sub, checked_i128, ◌>>=◌, ◌>>◌}
use vim_config.Model.{identity, Process, Observation, MemoryColumn, MemoryEncoding}
use vim_config.Wire.Put.{put_uvarint, put_svarint, check_wire_size}
use vim_config.Wire.Memory.{
  process_memory_value, present, sorted_processes, Previous, previous_of, memory_units,
}

-- The positions, from `index` on, of the processes with no value.
unfoldable pub absent_from : MemoryColumn → ℕ → List Process → List ℕ
unfolding present
absent_from column index [] = []
absent_from column index (p ∷ ps) =
    let later = absent_from column (index + 1) ps in
    if present column p then later else index ∷ later

unfoldable pub absent_gap : Option ℕ → ℕ → Result ℕ
absent_gap none index = ok index
absent_gap (some previous) index = do
  delta ← ok_or (checked_sub index previous) overflow
  ok_or (checked_sub delta 1) overflow

unfoldable pub put_absent : Option ℕ → List ℕ → List ℕ → Result (List ℕ)
unfolding absent_gap
put_absent previous [] out = ok out
put_absent previous (index ∷ rest) out = do
  gap ← absent_gap previous index
  out' ← put_uvarint out gap
  put_absent (some index) rest out'

-- The body of the loop over the processes; `continue` where there is no value.
unfoldable pub put_value :
    MemoryEncoding
    → MemoryColumn
    → Previous
    → Process
    → Option ℕ
    → List ℕ
    → Result (Previous × List ℕ)
put_value memory column previous p none out = ok (previous, out)
put_value memory column previous p (some value) out = do
  units ← memory_units memory column p.owned value
  delta ← ok_or (checked_i128 (units -ℤ previous_of previous (identity p))) overflow
  out' ← put_svarint out delta
  ok ((identity p, units) ∷ previous, out')

unfoldable pub put_values :
    MemoryEncoding → MemoryColumn → Previous → List Process → List ℕ → Result (Previous × List ℕ)
put_values memory column previous [] out = ok (previous, out)
put_values memory column previous (p ∷ ps) out = do
  (previous', out') ← put_value memory column previous p (process_memory_value p column) out
  put_values memory column previous' ps out'

unfoldable pub put_row :
    MemoryEncoding → MemoryColumn → Previous → List Process → List ℕ → Result (Previous × List ℕ)
put_row memory column previous processes out = do
  let absent = absent_from column 0 processes
  out₁ ← put_uvarint out (length absent)
  out₂ ← put_absent none absent out₁
  (previous', out₃) ← put_values memory column previous processes out₂
  check_wire_size out₃
  ok (previous', out₃)

-- The rows come sorted: `sorted_processes(&row.processes)` is taken once for each row.
unfoldable pub put_rows :
    MemoryEncoding → MemoryColumn → Previous → List (List Process) → List ℕ → Result (List ℕ)
put_rows memory column previous [] out = ok out
put_rows memory column previous (row ∷ rows) out = do
  (previous', out') ← put_row memory column previous row out
  put_rows memory column previous' rows out'

unfoldable pub put_columns :
    MemoryEncoding → List MemoryColumn → List (List Process) → List ℕ → Result (List ℕ)
put_columns memory [] rows out = ok out
put_columns memory (column ∷ columns) rows out = do
  out' ← put_rows memory column [] rows out
  put_columns memory columns rows out'

abbrev pub pmm1 : List ℕ
pmm1 = b'P' ∷ b'M' ∷ b'M' ∷ b'1' ∷ []

abbrev pub sorted_rows : {V : Type 0} → List (Observation V) → List (List Process)
sorted_rows [] = []
sorted_rows (row ∷ rows) = sorted_processes row.processes ∷ sorted_rows rows

unfoldable pub encode_pmm1 : {V : Type 0} → List (Observation V) → MemoryEncoding → Result (List ℕ)
encode_pmm1 rows memory = put_columns memory memory.columns (sorted_rows rows) pmm1
