-- ===== src/Cpu/Quantum/Bounds.antt =====
-- What a quantum of recording/wire.rs says of the rate that it was chosen for.
use vim_config.Prelude.{
  ℕ, ◌-◌, ◌*◌, ◌/◌, ◌^◌, ◌≤◌, ◌<◌, ◌≡◌, ◌⊎◌, inl, inr, arith, ◌==◌, min, max, Bool-cases,
}
use vim_config.Cpu.Bits.{leading_zeros, leading_zeros_bounds}
use vim_config.Cpu.Quantum.{adaptive_quantum}

-- For a u128 rate, a quantum is 1 if the rate is below 8, and otherwise the largest power of two of which
-- the rate has eight, cut off at the cap, but at least 1.
pub adaptive_quantum_cases :
    (per cap : ℕ)
    → per < 2 ^ 128
    → ((per < 8) × (adaptive_quantum per cap ≡ 1))
      ⊎ ((e : ℕ) × (8 * 2 ^ e ≤ per)
          × (per < 16 * 2 ^ e)
          × (adaptive_quantum per cap ≡ max (min (2 ^ e) cap) 1))
unfolding adaptive_quantum
adaptive_quantum_cases per cap h = elim (Bool-cases (per / 8 == 0)) [
  | inl z ↦ inl (ground arith, rw z)
  | inr z ↦
      let e = 127 - leading_zeros 128 (per / 8) in
      let (lo, hi, _) = leading_zeros_bounds 127 (per / 8) (ground arith) (omega arith) in
      inr (e, omega arith, omega arith, rw z)
]
