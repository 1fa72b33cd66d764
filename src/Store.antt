-- ===== src/Store.antt =====
-- The constants and records of recording/store.rs. A text (a frame's name, a digest in hexadecimal) is
-- the list of its bytes. `MAX_BLOCK_BYTES` is that of the wire format.
pub mod Hex
pub mod Uvarint
pub mod Payload
pub mod Endian
pub mod Journal
pub mod Sequence
pub mod Filename
pub mod Header
pub mod Frame
pub mod Action
pub mod Publish
pub mod Writer
use vim_config.Prelude.{ℕ, ◌+◌, ◌*◌, Bool, List, [], ◌∷◌, ltb, ◌==◌, ◌||◌}
use vim_config.Outcome.{Result, ok, refuse, invalid, exceeds_limit, ◌>>◌}
use vim_config.Wire.Put.{max_block_bytes}

-- "HJR1", "HFR1", "PCR1"
abbrev pub journal_magic : List ℕ
journal_magic = b'H' ∷ b'J' ∷ b'R' ∷ b'1' ∷ []

abbrev pub frame_magic : List ℕ
frame_magic = b'H' ∷ b'F' ∷ b'R' ∷ b'1' ∷ []

abbrev pub pcr_magic : List ℕ
pcr_magic = b'P' ∷ b'C' ∷ b'R' ∷ b'1' ∷ []

abbrev pub journal_record_prefix : ℕ
journal_record_prefix = 8 + 8 + 32

abbrev pub journal_record_suffix : ℕ
journal_record_suffix = 32

abbrev pub max_blocks_per_frame : ℕ
max_blocks_per_frame = 16384

abbrev pub max_frame_header_bytes : ℕ
max_frame_header_bytes = 4 * 1024 * 1024

abbrev pub max_manifest_bytes : ℕ
max_manifest_bytes = 32 * 1024 * 1024

abbrev pub max_manifest_entry_bytes : ℕ
max_manifest_entry_bytes = 512

abbrev pub max_archive_frames : ℕ
max_archive_frames = 100000

abbrev pub max_frame_raw_bytes : ℕ
max_frame_raw_bytes = max_block_bytes + max_blocks_per_frame * 11 + 32

abbrev pub max_frame_compressed_bytes : ℕ
max_frame_compressed_bytes = max_frame_raw_bytes + 1024 * 1024

abbrev pub max_journal_bytes : ℕ
max_journal_bytes =
    max_block_bytes * 2
    + max_blocks_per_frame * (journal_record_prefix + journal_record_suffix)
    + 64

pub record StoreOptions : Type 0 where
  pub frame_bytes : ℕ
  pub max_bytes : ℕ
  pub min_free_bytes : ℕ

abbrev pub default_options : StoreOptions
default_options = record {
  frame_bytes = 16 * 1024 * 1024;
  max_bytes = 8 * 1024 * 1024 * 1024;
  min_free_bytes = 0;
}

unfoldable pub validate : StoreOptions → Result (Unit {0})
validate o = do
  refuse ((o.frame_bytes == 0) || ltb max_block_bytes o.frame_bytes) invalid
  refuse (o.max_bytes == 0) invalid
  ok tt

pub record BlockRef : Type 0 where
  pub id : ℕ
  pub raw_bytes : ℕ
  pub sha256 : List ℕ

pub record FrameHeader : Type 0 where
  pub version : ℕ
  pub codec : List ℕ
  pub quality : ℕ
  pub window_log : ℕ
  pub first_block : ℕ
  pub last_block : ℕ
  pub payload_bytes : ℕ
  pub compressed_bytes : ℕ
  pub payload_sha256 : List ℕ
  pub blocks : List BlockRef

pub record FrameFileInfo : Type 0 where
  pub payload_offset : ℕ
  pub compressed_bytes : ℕ
  pub checksum : List ℕ
  pub file_bytes : ℕ

pub record FrameInfo : Type 0 where
  pub name : List ℕ
  pub first : ℕ
  pub last : ℕ
  pub count : ℕ
  pub payload_bytes : ℕ
  pub compressed_bytes : ℕ
  pub file_bytes : ℕ
  pub payload_sha256 : List ℕ
  pub file_sha256 : List ℕ

pub record StoredBlock : Type 0 where
  pub id : ℕ
  pub bytes : List ℕ
  pub sha256 : List ℕ
