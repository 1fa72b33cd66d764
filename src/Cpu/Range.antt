-- ===== src/Cpu/Range.antt =====
-- The ranges of CPU deltas in recording/wire.rs that a decoder accepts for a quantum.
pub mod Covers
pub mod Deltas
use vim_config.Prelude.{
  ℕ, zero, suc, ◌+◌, ◌-◌, ◌*◌, ◌/◌, ◌^◌, Bool, true, false, ◌&&◌, List, [], ◌∷◌, Option, none, some,
  ltb, ◌==◌, if◌then◌else◌, min, max,
}
use vim_config.Outcome.{checked, checked_sub, u64_max, u128_max}
use vim_config.Model.{
  Profile, legacy_1ms, fixed_100us, adaptive, adaptive_inverse, adaptive_log, div_ceil,
}
use vim_config.Cpu.Bits.{leading_zeros, is_power_of_two}

abbrev pub Range : Type 0
Range = Option (ℕ × ℕ)

-- `if cap.is_power_of_two() { cap } else { 1 << (64 - cap.leading_zeros()) }`
unfoldable pub rounded_cap : ℕ → ℕ
rounded_cap cap = if is_power_of_two cap then cap else 2 ^ (64 - leading_zeros 64 cap)

unfoldable pub adaptive_range : (quantum cap : ℕ) → Range
unfolding rounded_cap
adaptive_range quantum cap =
    if (cap == 1) && (quantum == 1)
    then some (0, u64_max)
    else if ltb 1 cap && (quantum == 1)
    then some (0, 15)
    else if (quantum == cap) && ltb 1 cap
    then some (8 * rounded_cap cap, u64_max)
    else if ltb 1 quantum && (ltb quantum cap && is_power_of_two quantum)
    then some (8 * quantum, 16 * quantum - 1)
    else none

unfoldable pub fixed_range : (quantum cap : ℕ) → Range
fixed_range quantum cap =
    if (cap == 1) && (quantum == 1)
    then some (0, u64_max)
    else if ltb 1 cap && (quantum == 1)
    then some (0, 0)
    else if ltb 1 cap && (quantum == cap)
    then some (1, u64_max)
    else none

unfoldable pub allowed_delta_range : Profile → (quantum cap : ℕ) → Range
unfolding adaptive_range fixed_range
allowed_delta_range adaptive quantum cap = adaptive_range quantum cap
allowed_delta_range fixed_100us quantum cap = fixed_range quantum cap
allowed_delta_range _ quantum cap = none

-- `a.checked_mul(b)?.div_ceil(scale)`, in u128.
unfoldable pub scaled : ℕ → ℕ → Option ℕ
scaled a b = if ltb u128_max (a * b) then none else some (div_ceil (a * b) 100_000_000)

-- The upper end: open ended, or the last delta before the next range begins.
unfoldable pub scaled_max : (normalized_max duration : ℕ) → Option ℕ
unfolding scaled
scaled_max normalized_max duration =
    if normalized_max == u64_max
    then some u64_max
    else elim (scaled (normalized_max + 1) duration) [ none ↦ none | some n ↦ checked_sub n 1 ]

unfoldable pub scale_range : ℕ → Range → Range
unfolding scaled scaled_max
scale_range duration none = none
scale_range duration (some (lo, hi)) = elim (scaled lo duration) [
  | none ↦ none
  | some delta_min ↦ elim (scaled_max hi duration) [
    | none ↦ none
    | some delta_max ↦ some (delta_min, min delta_max u64_max)
  ]
]

unfoldable pub temporal_allowed_delta_range : (quantum cap duration_ns : ℕ) → Range
unfolding allowed_delta_range scale_range
temporal_allowed_delta_range quantum cap duration_ns =
    scale_range (max duration_ns 100_000_000) (allowed_delta_range adaptive quantum cap)
