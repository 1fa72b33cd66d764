-- ===== src/Wire/Temporal/Encode.antt =====
-- `encode_csh2_temporal` of recording/wire.rs, for the track of one segment.
use vim_config.Prelude.{ℕ, ◌/◌, List, [], ◌∷◌, length, ◌==◌, if◌then◌else◌}
use vim_config.Outcome.{Result, ok, invalid, ok_or, checked_sub, refuse, ◌>>=◌, ◌>>◌}
use vim_config.Cpu.Quantum.{temporal_storage_quantum}
use vim_config.Wire.Put.{put_uvarint, check_wire_size}
use vim_config.Wire.Temporal.{Step, Run}

-- The scan-start time of a checkpoint's row, and its total.
abbrev pub Sample : Type 0
Sample = ℕ × ℕ

-- `checked_sub(..).filter(|duration| *duration > 0)`
unfoldable pub interval_duration : (start end : ℕ) → Result ℕ
interval_duration start end = do
  duration ← ok_or (checked_sub end start) invalid
  refuse (duration == 0) invalid
  ok duration

-- The loop over `windows(2)`: each interval with its quantum.
unfoldable pub quanta : (cap : ℕ) → Sample → List Sample → Result (List (ℕ × Step))
unfolding interval_duration
quanta cap (time, total) [] = ok []
quanta cap (time, total) ((next_time, next_total) ∷ samples) = do
  delta ← ok_or (checked_sub next_total total) invalid
  duration ← interval_duration time next_time
  quantum ← temporal_storage_quantum delta duration cap
  rest ← quanta cap (next_time, next_total) samples
  ok ((quantum, (duration, next_total)) ∷ rest)

-- The `while` loops that find the longest runs of equal quanta.
unfoldable pub prepend : ℕ → Step → List Run → List Run
prepend quantum step [] = (quantum, step ∷ []) ∷ []
prepend quantum step ((next, steps) ∷ runs) =
    if quantum == next
    then (next, step ∷ steps) ∷ runs
    else (quantum, step ∷ []) ∷ (next, steps) ∷ runs

unfoldable pub runs_of : List (ℕ × Step) → List Run
unfolding prepend
runs_of [] = []
runs_of ((quantum, step) ∷ rest) = prepend quantum step (runs_of rest)

-- The values of a run: quotients inside, and the exact difference at the end. With them the total at
-- the end, the anchor of the next run.
unfoldable pub put_run_values :
    (anchor quantum : ℕ) → Step → List Step → List ℕ → Result (ℕ × List ℕ)
put_run_values anchor quantum (duration, total) [] out = do
  endpoint_delta ← ok_or (checked_sub total anchor) invalid
  out' ← put_uvarint out endpoint_delta
  ok (total, out')
put_run_values anchor quantum (duration, total) (step ∷ steps) out = do
  difference ← ok_or (checked_sub total anchor) invalid
  out' ← put_uvarint out (difference / quantum)
  put_run_values anchor quantum step steps out'

unfoldable pub put_run : (anchor : ℕ) → Run → List ℕ → Result (ℕ × List ℕ)
unfolding put_run_values
put_run anchor (quantum, []) out = ok (anchor, out)
put_run anchor (quantum, step ∷ steps) out = do
  out₁ ← put_uvarint out (length (step ∷ steps))
  out₂ ← put_uvarint out₁ quantum
  put_run_values anchor quantum step steps out₂

unfoldable pub put_runs : (anchor : ℕ) → List Run → List ℕ → Result (List ℕ)
unfolding put_run
put_runs anchor [] out = ok out
put_runs anchor (run ∷ runs) out = do
  (anchor', out') ← put_run anchor run out
  put_runs anchor' runs out'

unfoldable pub put_track : (cap : ℕ) → Sample → List Sample → List ℕ → Result (List ℕ)
unfolding quanta runs_of put_runs
put_track cap (time, total) samples out = do
  out₁ ← put_uvarint out total
  steps ← quanta cap (time, total) samples
  out₂ ← put_uvarint out₁ (length (runs_of steps))
  out₃ ← put_runs total (runs_of steps) out₂
  check_wire_size out₃
  ok out₃
