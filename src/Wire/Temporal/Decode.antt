-- ===== src/Wire/Temporal/Decode.antt =====
-- `decode_csh2_temporal` of recording/wire.rs, for the track of one segment. The intervals come from
-- the rows: each is its duration, or the error that the loop over the run's intervals ends with.
use vim_config.Prelude.{
  ℕ, zero, suc, ◌+◌, ◌-◌, ◌*◌, ◌/◌, Bool, false, ◌&&◌, ◌||◌, not, List, [], ◌∷◌, ◌++◌, length, drop,
  Option, none, some, ltb, ◌==◌,
}
use vim_config.Outcome
use vim_config.Outcome.{Result, ok, err, invalid, overflow, ok_or, checked, refuse, u64_max}
use vim_config.Cpu.Bits.{is_power_of_two}
use vim_config.Cpu.Feasible.{Floor, temporal_run_values_feasible}
use vim_config.Wire.Cursor.{Reader, pure, lift, ◌>>=◌, ◌>>◌}
use vim_config.Wire.Read.{read_uvarint}
use vim_config.Wire.Temporal.{Point}

abbrev pub same_quantum : Option ℕ → ℕ → Bool
same_quantum none quantum = false
same_quantum (some previous) quantum = previous == quantum

unfoldable pub bad_run : (cap left : ℕ) → Option ℕ → (run_intervals quantum : ℕ) → Bool
bad_run cap left previous_quantum run_intervals quantum =
    (run_intervals == 0)
    || (ltb left run_intervals
        || ((quantum == 0)
            || (ltb cap quantum
                || ((not (quantum == cap) && not (is_power_of_two quantum))
                    || same_quantum previous_quantum quantum))))

-- `quotient.checked_mul(quantum)` and `anchor.checked_add(value)`, which must not fall behind `last`.
unfoldable pub interior_value : (anchor quantum last quotient : ℕ) → Result ℕ
interior_value anchor quantum last quotient =
    Outcome.◌>>=◌ (ok_or (checked u64_max (quotient * quantum)) overflow) λ product.
      Outcome.◌>>=◌ (ok_or (checked u64_max (anchor + product)) overflow)
        λ value. Outcome.◌>>=◌ (refuse (ltb value last) invalid) λ u. ok value

-- The points inside a run, and the last of them. `cpus.last()` is `last`.
unfoldable pub read_interior : ℕ → (anchor quantum last : ℕ) → Reader (List Floor × ℕ)
unfolding interior_value
read_interior zero anchor quantum last = pure ([], last)
read_interior (suc count) anchor quantum last = do
  quotient ← read_uvarint
  value ← lift (interior_value anchor quantum last quotient)
  (floors, last') ← read_interior count anchor quantum value
  pure ((value, quantum - 1) ∷ floors, last')

unfoldable pub endpoint_value : (anchor last endpoint_delta : ℕ) → Result ℕ
endpoint_value anchor last endpoint_delta =
    Outcome.◌>>=◌ (ok_or (checked u64_max (anchor + endpoint_delta)) overflow)
      λ endpoint. Outcome.◌>>=◌ (refuse (ltb endpoint last) invalid) λ u. ok endpoint

-- The loop over the intervals of the run that was read. Its points are no more than the intervals.
unfoldable pub measured : List (Result ℕ) → List Floor → Result (List Point)
measured intervals [] = ok []
measured [] (floor ∷ floors) = ok []
measured (interval ∷ intervals) (floor ∷ floors) =
    Outcome.◌>>=◌ interval λ duration.
      Outcome.◌>>=◌ (measured intervals floors) λ points. ok ((duration, floor) ∷ points)

-- A run, from the point that it starts at: its quantum, and its points.
unfoldable pub read_run :
    (cap : ℕ) → Option ℕ → List (Result ℕ) → Floor → Reader (ℕ × ℕ × List Point)
unfolding bad_run read_interior endpoint_value measured
read_run cap previous_quantum intervals (anchor, bound) = do
  run_intervals ← read_uvarint
  quantum ← read_uvarint
  lift (refuse (bad_run cap (length intervals) previous_quantum run_intervals quantum) invalid)
  (floors, last) ← read_interior (run_intervals - 1) anchor quantum anchor
  endpoint_delta ← read_uvarint
  endpoint ← lift (endpoint_value anchor last endpoint_delta)
  points ← lift (measured intervals (floors ++ (endpoint, 0) ∷ []))
  lift (refuse (not (temporal_run_values_feasible (anchor, bound) points quantum cap)) invalid)
  pure (quantum, endpoint, points)

-- The loop over the runs, which must cover all intervals. A run ends at an exact point.
unfoldable pub read_runs : ℕ → (cap : ℕ) → Option ℕ → List (Result ℕ) → Floor → Reader (List Point)
unfolding read_run
read_runs zero cap previous_quantum [] start = pure []
read_runs zero cap previous_quantum (interval ∷ intervals) start = lift (err invalid)
read_runs (suc runs) cap previous_quantum intervals start = do
  (quantum, endpoint, points) ← read_run cap previous_quantum intervals start
  rest ← read_runs runs cap (some quantum) (drop (length points) intervals) (endpoint, 0)
  pure (points ++ rest)

-- `bytes.len().saturating_sub(offset)`
unfoldable pub bytes_left : Reader ℕ
bytes_left c = ok (length c.rest, c)

unfoldable pub bad_run_count : (interval_count run_count left : ℕ) → Bool
bad_run_count interval_count run_count left =
    ((interval_count == 0) && not (run_count == 0))
    || ((ltb 0 interval_count && ((run_count == 0) || ltb interval_count run_count))
        || ltb (left / 2) run_count)

-- The first point, and the points at the ends of the intervals.
unfoldable pub read_track : (cap : ℕ) → List (Result ℕ) → Reader (ℕ × List Point)
unfolding read_runs bytes_left bad_run_count
read_track cap intervals = do
  first_total ← read_uvarint
  run_count ← read_uvarint
  left ← bytes_left
  lift (refuse (bad_run_count (length intervals) run_count left) invalid)
  points ← read_runs run_count cap none intervals (first_total, 0)
  pure (first_total, points)
