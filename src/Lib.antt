-- ===== src/Lib.antt =====
-- The process-history recorder of herdr-plugins/pane-load, which samples the processes of a machine and
-- keeps the samples in a compact binary archive.
--
-- The parts, and how they fit together:
-- * recording/model.rs declares what is sampled (`Observation`, `Process`) and what an archive gives
--   back (`DecodedObservation`, `CpuCheckpoint`), and the conversion of CPU ticks (`Timebase`).
--   Model.antt has these records, with one function for each method; Model/Clock is about `Timebase`,
--   Model/Validity about `validate`.
-- * recording/wire.rs is the block format. A block is a magic of four bytes and three or four sections,
--   each with its length: a JSON header, the CPU columns, the metadata and the memory columns. Every
--   number in them is a variable-length integer.
--   Wire/Put, Wire/Cursor, Wire/Read and Wire/Whole have the writers and readers; Wire/Varint
--   and its children are about them. Wire/Sections has `pack_sections` and `unpack_sections`, and the
--   forms with a fourth section. Wire/Memory has what the memory section's two directions share,
--   Wire/Memory/Encode has `encode_pmm1`, Wire/Memory/Decode has `decode_pmm1`; the files beside these
--   two are the steps of the round trip: positions of absent values (Absent), values of a row (Values),
--   rows (Rows), columns (Columns), what a process gets (Restored), the selection of columns (Selected), the
--   order of processes (Sorted) and the size (Size).
-- * before a block is written its rows are checked. Wire/Validate has `validate_rows`, with the quality
--   boundaries at which CPU counters may start again, and Wire/Validate/Increasing what it accepts.
-- * the CPU columns keep totals only to a quantum that grows with the rate, and a temporal profile keeps
--   a checkpoint only when a deadline has passed. Cpu/Quantum has the choice of quanta and deadlines,
--   Cpu/Range the deltas that a decoder accepts for a quantum, Cpu/Feasible the test whether any totals
--   explain a decoded run. Cpu/Bits has the bit operations of Rust's integers that they call.
--   Cpu/Select has `select_temporal_points`, the choice of checkpoints, and the
--   files below it what it keeps.
--   Wire/Temporal/Encode and Wire/Temporal/Decode have the CPU track of a segment of the temporal CSH2
--   section, from `encode_csh2_temporal` and `decode_csh2_temporal`; the files beside these two are the
--   steps of its round trip: floors (Floors), the values of a run (Interior), one run (Runs), all runs
--   (RoundTrip), how samples fall into runs (Grouping), counts (Counts) and the whole (Track).
-- * recording/store.rs keeps the blocks in a directory. Each accepted block is first a record of the journal;
--   a run of blocks is then published as a frame, whose file has a JSON header, the compressed payload PCR1
--   and digests. Store has the constants and records. Store/Uvarint, Store/Hex, Store/Endian and
--   Store/Filename have the numbers, digests and file names in them. Store/Payload has `pack_pcr_payload` and
--   the part of `verify_frame` that takes a payload apart, Store/Header `validate_frame_header`, Store/Frame
--   the frame's file that `publish_blocks` writes and `verify_frame` reads; Store/Frame/Header, Store/Frame/Parts and
--   Store/Frame/Verified are about these. Store/Sequence has `validate_frame_sequence`. Store/Journal has
--   `journal_record` and `read_journal_prefix`; Store/Journal/Reads is about one round of the reading,
--   Store/Journal/Recovered about journals that were written, Store/Journal/Sound and Store/Journal/Total
--   about any bytes.
--   Store/Action has the state of `ArchiveWriter` with what is on its disk, and its methods' type; Store/Publish
--   has `publish_blocks` and what it calls, Store/Writer has `append`, `flush_frame` and `finish`. The files
--   below Store/Publish are about calls that touch only the manifest and counts (Quiet), files and frames that
--   hold blocks (Held), the steps of publishing (Published) and all of it (Archived); those below Store/Writer
--   are about flushing (Flushed), the journal (Journaled), the taking of a block (Appended), the whole of
--   `append` (Refines), the disk behind it (Durable), calls that fail (Leaves, Steps, Failed) and sequences of
--   calls (Session).
-- * Outcome is `Result` with its errors; Prelude has the names that all modules share; Examples applies
--   theorems to small data.
--
-- How the code is read. All names below are of wire.rs, model.rs
-- or store.rs in herdr-plugins/pane-load/src/recording. A machine word is a natural number; each sum, product
-- or conversion that the code checks is tested against the largest value of its word, and each one that
-- it does not check is written over unbounded numbers only where the word cannot overflow. `usize` has
-- 64 bits. A `Vec<u8>` that is appended to is the list of its bytes, and is given up on an error. A
-- `&mut usize` offset is a cursor, that is the offset and the bytes from there on. A map is a list of
-- pairs. A call of the system is a step that may fail: a script gives the end of each, and a write that fails
-- may have written some of its bytes. A slice between two indices is the list of what it holds.
--
-- Recursion. The loop of `put_uvarint` is recursion on the well-founded order of the numbers, the loop of
-- `read_uvarint128` has its 19 rounds, that of the archive's `read_uvarint` its 10, a loop that reads a count of items is recursion on that count, and
-- every other loop is recursion on the list that it goes through.
-- Only the loop of `read_journal_prefix` has fuel: one round more than a frame has blocks, which
-- read_journal_prefix_total shows to be enough on any bytes.
--
-- Not modelled: the JSON header and quality values (serde_json; their type and what is found in them are
-- parameters), the sizes that the compiler gives structs (parameters of `validate_rows`), the check for
-- UTF-8 (std; a parameter of `read_string`), SHA-256, Brotli and the JSON of a frame's header (parameters,
-- in `Codec`, with what the code relies on in `IsCodec`), allocation, and the rest of the recorder: the metadata
-- section PSD1, the CPU section CSH1, the segments and row indices of CSH2 and its form without deadlines,
-- the opening of an archive in recording/store.rs with its recovery and its checks of directories and owners, the threads of recording/pipeline.rs, sampling, the command line, and
-- the other programs and configuration files of the repository.
pub mod Prelude
pub mod Outcome
pub mod Cpu
pub mod Model
pub mod Store
pub mod Wire
pub mod Examples
