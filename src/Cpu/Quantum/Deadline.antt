-- ===== src/Cpu/Quantum/Deadline.antt =====
-- `temporal_target` of recording/wire.rs: how long a process may go without a checkpoint.
use vim_config.Prelude.{ℕ, ◌/◌, ◌≤◌, ◌≡◌, arith, max}
use vim_config.Outcome.{ok}
use vim_config.Model.{Profile, legacy_1ms, fixed_100us, adaptive, adaptive_inverse, adaptive_log}
use vim_config.Cpu.Quantum.{
  temporal_target, target_of, inverse_target, log_target, shortest_ns, longest_ns,
}

log_target_bounds :
    (q qbusy t : ℕ) → log_target q qbusy ≡ ok t → (shortest_ns ≤ t) × (t ≤ longest_ns)
unfolding log_target
log_target_bounds q qbusy t h = ground arith

inverse_target_bounds :
    (ratio t : ℕ) → 1 ≤ ratio → inverse_target ratio ≡ ok t → (shortest_ns ≤ t) × (t ≤ longest_ns)
unfolding inverse_target
inverse_target_bounds ratio t big h = ground arith

target_of_bounds :
    (profile : Profile) (q qbusy t : ℕ)
    → target_of profile q qbusy ≡ ok t
    → (shortest_ns ≤ t) × (t ≤ longest_ns)
unfolding target_of
target_of_bounds legacy_1ms q qbusy t h = cc
target_of_bounds fixed_100us q qbusy t h = cc
target_of_bounds adaptive q qbusy t h = cc
target_of_bounds adaptive_inverse q qbusy t h =
    inverse_target_bounds (max (qbusy / q) 1) t (omega arith) h
target_of_bounds adaptive_log q qbusy t h = log_target_bounds q qbusy t h

-- A deadline that `temporal_target` returns is from 100 ms to 5 s.
pub temporal_target_bounds :
    (q qbusy : ℕ) (profile : Profile) (t : ℕ)
    → temporal_target q qbusy profile ≡ ok t
    → (shortest_ns ≤ t) × (t ≤ longest_ns)
unfolding temporal_target
temporal_target_bounds q qbusy profile t h =
    let passed : target_of profile q qbusy ≡ ok t = ground arith in
    target_of_bounds profile q qbusy t passed
