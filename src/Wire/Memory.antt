-- ===== src/Wire/Memory.antt =====
-- The PMM1 memory section of recording/wire.rs: for each column and row the processes with no value,
-- by the gaps between their positions, and then the others' change in units since they were last
-- seen. A `BTreeMap` from identities is a list of pairs, the latest first.
pub mod Encode
pub mod Decode
pub mod Absent
pub mod Values
pub mod Rows
pub mod Columns
pub mod Restored
pub mod Selected
pub mod Sorted
pub mod Size
pub mod RoundTrip
use vim_config.Prelude.{
  ℕ, zero, suc, ◌+◌, ◌-◌, ◌*◌, ◌/◌, Bool, true, false, ◌&&◌, ◌||◌, List, [], ◌∷◌, ◌++◌, length,
  Option, none, some, ltb, leb, if◌then◌else◌, any, is_some, set, replicate,
}
use vim_config.Prelude.Int.{ℤ, pos, negsuc, ◌+ℤ◌, ◌-ℤ◌}
use vim_config.Outcome
use vim_config.Outcome.{
  Error, overflow, exceeds_limit, invalid, unsorted, Result, ok, err, ok_or, refuse, checked,
  checked_sub, checked_i128, u64_max,
}
use vim_config.Model.{
  Identity, identity, same_id, id_ltb, Process, Observation, DecodedProcess, DecodedObservation,
  decoded_identity, MemoryColumn, owned, peak, evicted, MemoryEncoding,
}
use vim_config.Wire.Put.{put_uvarint, put_svarint, check_wire_size}

unfoldable pub process_memory_value : Process → MemoryColumn → Option ℕ
process_memory_value p owned = p.owned
process_memory_value p peak = p.peak
process_memory_value p evicted = p.evicted

unfoldable pub present : MemoryColumn → Process → Bool
unfolding process_memory_value
present column p = is_some (process_memory_value p column)

unfoldable pub keep_columns :
    {V : Type 0} → List (Observation V) → List MemoryColumn → List MemoryColumn
unfolding present
keep_columns rows [] = []
keep_columns rows (column ∷ rest) =
    let kept = keep_columns rows rest in
    if any (λ row. any (present column) row.processes) rows then column ∷ kept else kept

-- `(!columns.is_empty()).then_some(..)`
unfoldable pub then_some : MemoryEncoding → List MemoryColumn → Option MemoryEncoding
then_some memory [] = none
then_some memory (column ∷ rest) = some (record memory { columns = column ∷ rest })

unfoldable pub selected_memory :
    {V : Type 0} → MemoryEncoding → List (Observation V) → Option MemoryEncoding
unfolding keep_columns then_some
selected_memory memory rows = then_some memory (keep_columns rows memory.columns)

-- `sort_by_key(identity)` is stable: an equal key stays behind.
unfoldable pub insert_process : Process → List Process → List Process
insert_process p [] = p ∷ []
insert_process p (q ∷ qs) =
    let later = insert_process p qs in
    if id_ltb (identity q) (identity p) then q ∷ later else p ∷ q ∷ qs

unfoldable pub sorted_processes : List Process → List Process
unfolding insert_process
sorted_processes [] = []
sorted_processes (p ∷ ps) = insert_process p (sorted_processes ps)

abbrev pub Previous : Type 0
Previous = List (Identity × ℤ)

-- `.get(&identity).copied().unwrap_or(0)`
unfoldable pub previous_of : Previous → Identity → ℤ
previous_of [] id = pos 0
previous_of ((k, v) ∷ rest) id = if same_id k id then v else previous_of rest id

abbrev pub is_owned : MemoryColumn → Bool
is_owned owned = true
is_owned _ = false

abbrev pub is_peak : MemoryColumn → Bool
is_peak peak = true
is_peak _ = false

-- `*column == Peak && memory.columns.contains(&Owned)`
unfoldable pub over_owned : MemoryEncoding → MemoryColumn → Bool
over_owned memory column = is_peak column && any is_owned memory.columns

-- The number that is written for a value: a peak counts from the owned size, if there is one.
unfoldable pub memory_units : MemoryEncoding → MemoryColumn → Option ℕ → ℕ → Result ℤ
unfolding over_owned
memory_units memory column none value = ok (pos (value / memory.unit_bytes))
memory_units memory column (some owned_bytes) value =
    let units = value / memory.unit_bytes in
    if over_owned memory column
    then ok_or (checked_i128 (pos units -ℤ pos (owned_bytes / memory.unit_bytes))) overflow
    else ok (pos units)
