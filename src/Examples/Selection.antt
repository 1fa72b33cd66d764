-- ===== src/Examples/Selection.antt =====
-- The choice of checkpoints on small data.
use vim_config.Prelude.{ℕ, ◌*◌, ◌≡◌, refl, List, [], ◌∷◌}
use vim_config.Model.{adaptive_inverse}
use vim_config.Cpu.Bits.{leading_zeros, is_power_of_two}
use vim_config.Cpu.Quantum.{adaptive_quantum, temporal_quantum, temporal_target}
use vim_config.Cpu.Select.{TemporalSample, select_temporal_points}
use vim_config.Cpu.Select.Changes.{ChangesIn, select_temporal_points-ChangesIn}
use vim_config.Cpu.Select.Kept.{Kept, first_of, last_row, select_temporal_points-Kept}

abbrev sample : ℕ → ℕ → ℕ → TemporalSample
sample row total ms = record {
  row_index = row;
  total = total;
  time = ms * 1_000_000;
  name = [];
  ppid = 1;
}

-- Quiet at first, then busy: the burst's first sample is kept with the quiet one before it.
abbrev burst : List TemporalSample
burst =
    sample 0 0 0 ∷ sample 1 1 1000 ∷ sample 2 2 2000 ∷ sample 3 900 2050 ∷ sample 4 1000 2060 ∷ []

abbrev chosen : List TemporalSample
chosen = sample 0 0 0 ∷ sample 2 2 2000 ∷ sample 4 1000 2060 ∷ []

select_temporal_points-Kept_example :
    Kept chosen burst × (first_of chosen ≡ first_of burst) × (last_row chosen ≡ last_row burst)
unfolding select_temporal_points temporal_quantum temporal_target adaptive_quantum leading_zeros
    is_power_of_two
select_temporal_points-Kept_example =
    select_temporal_points-Kept 1000 128 adaptive_inverse burst refl

-- The second sample has another parent.
abbrev adopted : List TemporalSample
adopted = record (sample 1 1 1000) { ppid = 9 } ∷ record (sample 2 2 2000) { ppid = 9 } ∷ []

select_temporal_points-ChangesIn_example :
    ChangesIn
      (sample 0 0 0
        ∷ record (sample 1 1 1000) { ppid = 9 }
        ∷ record (sample 2 2 2000) { ppid = 9 }
        ∷ [])
      (sample 0 0 0)
      adopted
unfolding select_temporal_points temporal_quantum temporal_target adaptive_quantum leading_zeros
    is_power_of_two
select_temporal_points-ChangesIn_example =
    select_temporal_points-ChangesIn 1000 128 adaptive_inverse (sample 0 0 0) adopted refl
