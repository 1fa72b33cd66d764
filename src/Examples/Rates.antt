-- ===== src/Examples/Rates.antt =====
-- The CPU columns on small data.
use vim_config.Prelude.{
  ℕ, ◌*◌, ◌-◌, ◌^◌, ◌≤◌, ◌<◌, ◌≡◌, ◌⊎◌, ◌↔◌, refl, true, List, [], ◌∷◌, some, arith, min, max,
}
use vim_config.Outcome.{ok}
use vim_config.Model.{fixed_100us, adaptive_inverse}
use vim_config.Cpu.Bits.{leading_zeros, is_power_of_two}
use vim_config.Cpu.Quantum.{
  adaptive_quantum, temporal_quantum, temporal_storage_quantum, temporal_target, shortest_ns,
  longest_ns,
}
use vim_config.Cpu.Quantum.Bounds.{adaptive_quantum_cases}
use vim_config.Cpu.Quantum.Deadline.{temporal_target_bounds}
use vim_config.Cpu.Range.{allowed_delta_range, temporal_allowed_delta_range}
use vim_config.Cpu.Range.Deltas.{temporal_allowed_delta_range-temporal_storage_quantum}
use vim_config.Cpu.Feasible.{Floor, temporal_run_values_feasible, run_values_feasible}
use vim_config.Cpu.Feasible.Explained.{Starts, temporal_run_values_feasible_iff}
use vim_config.Cpu.Feasible.Encoded.{
  Chosen, Within, temporal_run_values_feasible-Chosen, run_values_feasible-Within,
}

-- 100 ticks in 200 ms are 50 in 100 ms: the quantum is 4.
quantum_of_hundred : temporal_storage_quantum 100 200_000_000 1000 ≡ ok 4
unfolding temporal_storage_quantum temporal_quantum adaptive_quantum leading_zeros
quantum_of_hundred = refl

temporal_allowed_delta_range-temporal_storage_quantum_example :
    (lo hi : ℕ) × (temporal_allowed_delta_range 4 1000 200_000_000 ≡ some (lo, hi))
    × (lo ≤ 100)
    × (100 ≤ hi)
    × (hi ≤ 2 ^ 64 - 1)
temporal_allowed_delta_range-temporal_storage_quantum_example =
    temporal_allowed_delta_range-temporal_storage_quantum 100 200_000_000 1000 4 (omega arith)
      (omega arith) (omega arith) quantum_of_hundred

-- The floor 96 of 103, after an exact 3.
abbrev later : List (ℕ × Floor)
later = (200_000_000, (99, 7)) ∷ []

abbrev start_floor : Floor
start_floor = (3, 0)

temporal_run_values_feasible_iff_example :
    (temporal_run_values_feasible start_floor later 4 1000 ≡ true) ↔ Starts 4 1000 later 3 3
temporal_run_values_feasible_iff_example =
    temporal_run_values_feasible_iff start_floor later 4 1000 (omega arith) (omega arith)

temporal_run_values_feasible-Chosen_example :
    temporal_run_values_feasible start_floor later 4 1000 ≡ true
unfolding Chosen
temporal_run_values_feasible-Chosen_example =
    temporal_run_values_feasible-Chosen start_floor later 4 1000 3 (omega arith) (omega arith)
      (omega arith) (omega arith, omega arith)
      (100, omega arith, quantum_of_hundred, (omega arith, omega arith), tt)

run_values_feasible-Within_example :
    run_values_feasible 5 ((5, 9) ∷ (15, 9) ∷ []) 10 10 fixed_100us ≡ true
unfolding Within allowed_delta_range
run_values_feasible-Within_example =
    run_values_feasible-Within 5 ((5, 9) ∷ (15, 9) ∷ []) 10 10 1 (2 ^ 64 - 1) fixed_100us refl (
      6,
      omega arith,
      omega arith,
      (omega arith, omega arith),
      (9, omega arith, omega arith, (omega arith, omega arith), tt),
    )

temporal_target_bounds_example : (shortest_ns ≤ 1_600_000_000) × (1_600_000_000 ≤ longest_ns)
unfolding temporal_target is_power_of_two
temporal_target_bounds_example = temporal_target_bounds 4 64 adaptive_inverse 1_600_000_000 refl

adaptive_quantum_cases_example :
    ((100 < 8) × (adaptive_quantum 100 50 ≡ 1))
    ⊎ ((e : ℕ) × (8 * 2 ^ e ≤ 100)
        × (100 < 16 * 2 ^ e)
        × (adaptive_quantum 100 50 ≡ max (min (2 ^ e) 50) 1))
adaptive_quantum_cases_example = adaptive_quantum_cases 100 50 (omega arith)
