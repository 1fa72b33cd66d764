-- ===== src/Wire/Temporal.antt =====
-- The CPU track of a segment in the temporal CSH2 section of recording/wire.rs: the totals of one
-- process at its checkpoints, in runs of intervals with one quantum. A track is what
-- `encode_csh2_temporal` writes for a segment behind its row indices.
pub mod Encode
pub mod Decode
pub mod Floors
pub mod Interior
pub mod Runs
pub mod RoundTrip
pub mod Grouping
pub mod Counts
pub mod Track
use vim_config.Prelude.{ℕ, ◌+◌, ◌-◌, ◌*◌, ◌/◌, List, [], ◌∷◌}
use vim_config.Cpu.Feasible.{Floor}

-- The end of an interval: its duration, and the total of the checkpoint there.
abbrev pub Step : Type 0
Step = ℕ × ℕ

-- A decoded interval: its duration, and the floor and the bound of the checkpoint at its end.
abbrev pub Point : Type 0
Point = ℕ × Floor

-- `(start, length, quantum)` of the source: the quantum, and the ends of the intervals.
abbrev pub Run : Type 0
Run = ℕ × List Step
