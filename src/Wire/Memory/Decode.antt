-- ===== src/Wire/Memory/Decode.antt =====
-- `decode_pmm1` of recording/wire.rs. It fills the columns of rows that are there already.
use vim_config.Prelude.{
  ℕ, zero, suc, ◌+◌, ◌*◌, ◌/◌, Bool, true, false, not, List, [], ◌∷◌, length, Option, none, some,
  ltb, leb, if◌then◌else◌, set, replicate,
}
use vim_config.Prelude.Int.{ℤ, pos, negsuc, ◌+ℤ◌}
use vim_config.Outcome.{
  overflow, exceeds_limit, invalid, Result, ok, err, ok_or, refuse, checked, checked_i128, u64_max,
}
use vim_config.Model.{
  DecodedProcess, DecodedObservation, decoded_identity, MemoryColumn, owned, peak, evicted,
  MemoryEncoding,
}
use vim_config.Wire.Cursor.{Reader, pure, lift, ◌>>=◌, ◌>>◌}
use vim_config.Wire.Read.{read_uvarint, read_svarint}
use vim_config.Wire.Whole.{at_end, after_magic, has_magic}
use vim_config.Wire.Memory.{Previous, previous_of, over_owned}
use vim_config.Wire.Memory.Encode.{pmm1}

unfoldable pub absent_index : Option ℕ → ℕ → Result ℕ
absent_index none gap = ok gap
absent_index (some previous) gap = ok_or (checked u64_max (previous + gap + 1)) overflow

-- `for _ in 0..absent_count`
unfoldable pub read_absent : ℕ → Option ℕ → List Bool → Reader (List Bool)
unfolding absent_index
read_absent zero previous absent = pure absent
read_absent (suc left) previous absent = do
  gap ← read_uvarint
  index ← lift (absent_index previous gap)
  lift (refuse (leb (length absent) index) exceeds_limit)
  read_absent left (some index) (set absent index true)

-- The units of a value, from the number that was written.
unfoldable pub decoded_units : MemoryEncoding → MemoryColumn → Option ℕ → ℤ → Result ℤ
decoded_units memory column none encoded = ok encoded
decoded_units memory column (some owned_bytes) encoded =
    if over_owned memory column
    then ok_or (checked_i128 (encoded +ℤ pos (owned_bytes / memory.unit_bytes))) overflow
    else ok encoded

-- `u64::try_from(units)`, then `units.checked_mul(memory.unit_bytes)`.
unfoldable pub unit_value : MemoryEncoding → ℤ → Result ℕ
unit_value memory (negsuc n) = err overflow
unit_value memory (pos n) =
    if ltb u64_max n then err overflow else ok_or (checked u64_max (n * memory.unit_bytes)) overflow

unfoldable pub set_memory : MemoryColumn → ℕ → DecodedProcess → DecodedProcess
set_memory owned value p = record p { owned = some value }
set_memory peak value p = record p { peak = some value }
set_memory evicted value p = record p { evicted = some value }

-- What the loop over the processes of a row keeps.
abbrev pub Filling : Type 0
Filling = Previous × Bool × List DecodedProcess

unfoldable pub read_value :
    MemoryEncoding → MemoryColumn → Previous → DecodedProcess → Reader (Previous × DecodedProcess)
unfolding decoded_units unit_value
read_value memory column previous p = do
  delta ← read_svarint
  encoded ←
      lift (ok_or (checked_i128 (previous_of previous (decoded_identity p) +ℤ delta)) overflow)
  units ← lift (decoded_units memory column p.owned encoded)
  value ← lift (unit_value memory units)
  pure ((decoded_identity p, encoded) ∷ previous, set_memory column value p)

unfoldable pub read_values :
    MemoryEncoding
    → MemoryColumn
    → Previous
    → Bool
    → List Bool
    → List DecodedProcess
    → Reader Filling
unfolding read_value
read_values memory column previous any_present flags [] = pure (previous, any_present, [])
read_values memory column previous any_present [] (p ∷ ps) = pure (previous, any_present, p ∷ ps)
read_values memory column previous any_present (true ∷ flags) (p ∷ ps) = do
  (previous', any', ps') ← read_values memory column previous any_present flags ps
  pure (previous', any', p ∷ ps')
read_values memory column previous any_present (false ∷ flags) (p ∷ ps) = do
  (previous', p') ← read_value memory column previous p
  (previous'', any', ps') ← read_values memory column previous' true flags ps
  pure (previous'', any', p' ∷ ps')

unfoldable pub read_row :
    MemoryEncoding → MemoryColumn → Previous → Bool → List DecodedProcess → Reader Filling
unfolding read_absent read_values
read_row memory column previous any_present processes = do
  absent_count ← read_uvarint
  lift (refuse (ltb (length processes) absent_count) exceeds_limit)
  absent ← read_absent absent_count none (replicate (length processes) false)
  read_values memory column previous any_present absent processes

module _ {V : Type 0} (memory : MemoryEncoding) where
  unfoldable pub read_rows :
      MemoryColumn
      → Previous
      → Bool
      → List (DecodedObservation V)
      → Reader (Bool × List (DecodedObservation V))
  unfolding read_row
  read_rows column previous any_present [] = pure (any_present, [])
  read_rows column previous any_present (row ∷ rows) = do
    (previous', any', processes) ← read_row memory column previous any_present row.processes
    (any'', rows') ← read_rows column previous' any' rows
    pure (any'', record row { processes = processes } ∷ rows')

  unfoldable pub read_columns :
      List MemoryColumn → List (DecodedObservation V) → Reader (List (DecodedObservation V))
  unfolding read_rows
  read_columns [] rows = at_end rows
  read_columns (column ∷ columns) rows = do
    (any_present, rows') ← read_rows column [] false rows
    lift (refuse (not any_present) invalid)
    read_columns columns rows'

  -- `bytes.len() < PMM1.len() || &bytes[..PMM1.len()] != PMM1`
  unfoldable pub decode_pmm1 :
      List ℕ → List (DecodedObservation V) → Result (List (DecodedObservation V))
  unfolding read_columns
  decode_pmm1 bytes rows =
      if has_magic pmm1 bytes
      then after_magic (read_columns memory.columns rows) bytes
      else err invalid
