-- ===== src/Examples.antt =====
-- Runs of the recording module's parts on small data, at which its theorems apply.
pub mod Archive
pub mod Frames
pub mod Appends
pub mod Blocks
pub mod Rates
pub mod Tracks
pub mod Selection
pub mod Validation
