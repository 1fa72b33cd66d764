-- ===== src/Cpu.antt =====
-- The CPU columns of recording/wire.rs: quanta, deadlines, the choice of checkpoints, and the ranges
-- that a decoder accepts.
pub mod Bits
pub mod Quantum
pub mod Range
pub mod Feasible
pub mod Select
