-- ===== src/Wire.antt =====
-- recording/wire.rs: the block formats.
pub mod Cursor
pub mod Memory
pub mod Temporal
pub mod Put
pub mod Read
pub mod Sections
pub mod Validate
pub mod Varint
pub mod Whole
