-- ===== src/Cpu/Quantum.antt =====
-- The CPU quanta and deadlines of recording/wire.rs.
pub mod Bounds
pub mod Deadline
use vim_config.Prelude.{
  ℕ, ◌+◌, ◌-◌, ◌*◌, ◌/◌, ◌^◌, Bool, true, false, ◌||◌, not, leb, ltb, ◌==◌, if◌then◌else◌, min, max,
}
use vim_config.Outcome.{
  Error, invalid, overflow, Result, ok, err, refuse, ok_or, checked, checked_sub, u128_max, ◌>>=◌,
  ◌>>◌,
}
use vim_config.Model.{
  Profile, legacy_1ms, fixed_100us, adaptive, adaptive_inverse, adaptive_log, div_ceil,
}
use vim_config.Cpu.Bits.{leading_zeros, trailing_zeros, is_power_of_two}

-- per_100ms: u128, cap: u64. A power no larger than `cap` is a u64.
unfoldable pub adaptive_quantum : ℕ → ℕ → ℕ
adaptive_quantum per_100ms cap =
    let eighth = per_100ms / 8 in
    if eighth == 0 then 1 else max (min (2 ^ (127 - leading_zeros 128 eighth)) cap) 1

unfoldable pub temporal_quantum : (delta elapsed_ns cap : ℕ) → Result ℕ
temporal_quantum delta elapsed_ns cap = do
  refuse (elapsed_ns == 0 || cap == 0) invalid
  scaled ← ok_or (checked u128_max (delta * 100_000_000)) overflow
  ok (adaptive_quantum (scaled / elapsed_ns) cap)

unfoldable pub temporal_storage_quantum : (delta elapsed_ns cap : ℕ) → Result ℕ
unfolding temporal_quantum
temporal_storage_quantum delta elapsed_ns cap =
    temporal_quantum delta (max elapsed_ns 100_000_000) cap

abbrev pub longest_ns : ℕ
longest_ns = 5_000_000_000

abbrev pub shortest_ns : ℕ
shortest_ns = 100_000_000

unfoldable pub inverse_target : ℕ → Result ℕ
inverse_target ratio = do
  target ← ok_or (checked u128_max (shortest_ns * ratio)) overflow
  ok (min target longest_ns)

unfoldable pub log_target : (q qbusy : ℕ) → Result ℕ
log_target q qbusy =
    let busy_exponent = trailing_zeros 64 qbusy in
    if busy_exponent == 0 || leb qbusy q then ok shortest_ns else do
      refuse (not (is_power_of_two q)) invalid
      log_ratio ← ok_or (checked_sub busy_exponent (trailing_zeros 64 q)) overflow
      numerator ← ok_or (checked u128_max (4_900_000_000 * log_ratio)) overflow
      target ← ok_or (checked u128_max (shortest_ns + div_ceil numerator busy_exponent)) overflow
      ok (min target longest_ns)

unfoldable pub target_of : Profile → (q qbusy : ℕ) → Result ℕ
unfolding inverse_target log_target
target_of adaptive_inverse q qbusy = inverse_target (max (qbusy / q) 1)
target_of adaptive_log q qbusy = log_target q qbusy
target_of _ q qbusy = err invalid

unfoldable pub temporal_target : (q qbusy : ℕ) → Profile → Result ℕ
unfolding target_of
temporal_target q qbusy profile =
    refuse (q == 0 || (qbusy == 0 || not (is_power_of_two qbusy))) invalid
    >> target_of profile q qbusy
