-- ===== src/Store/Writer.antt =====
-- `append`, `flush_frame` and `finish` of `ArchiveWriter` in recording/store.rs.
pub mod Journaled
pub mod Flushed
pub mod Appended
pub mod Refines
pub mod Durable
pub mod Leaves
pub mod Steps
pub mod Failed
pub mod Session
use vim_config.Prelude.{
  ℕ, zero, suc, ◌+◌, ◌/◌, List, [], ◌∷◌, ◌++◌, length, take, replicate, Bool, true, false, not, ltb,
  leb, ◌==◌, ◌||◌, ◌&&◌, if◌then◌else◌, Option, none, some,
}
use vim_config.Outcome
use vim_config.Outcome.{
  Result, ok, err, refuse, ok_or, checked, u64_max, invalid, overflow, exceeds_limit, poisoned,
  exhausted, storage,
}
use vim_config.Wire.Put.{max_block_bytes}
use vim_config.Store.{
  FrameInfo, StoredBlock, journal_magic, max_blocks_per_frame, max_archive_frames,
  max_manifest_bytes, max_manifest_entry_bytes, max_frame_compressed_bytes, max_frame_header_bytes,
}
use vim_config.Store.Uvarint.{varint_len}
use vim_config.Store.Filename.{frame_filename}
use vim_config.Store.Journal.{journal_record}
use vim_config.Store.Frame.{Codec}
use vim_config.Store.Action.{
  Io, fine, fails, Script, ArchiveWriter, Action, pure, lift, gets, modify, ◌>>=◌, ◌>>◌, call,
}
use vim_config.Store.Publish.{
  ensure_capacity_at, encode_manifest_with_candidate, file_len, publish_blocks,
}

-- The checked sums of `current_payload_len`.
unfoldable pub payload_len : (count wire_bytes : ℕ) → Result ℕ
payload_len count wire_bytes =
    Outcome.◌>>=◌ (ok_or (checked u64_max (4 + varint_len count)) overflow)
      λ n. ok_or (checked u64_max (n + wire_bytes)) overflow

unfoldable pub current_payload_len : ArchiveWriter → Result ℕ
unfolding payload_len
current_payload_len w = payload_len (length w.active) w.active_wire_bytes

unfoldable pub projected_payload_len : ArchiveWriter → ℕ → Result ℕ
unfolding payload_len
projected_payload_len w next_block_bytes =
    Outcome.◌>>=◌
      (ok_or (checked u64_max (varint_len next_block_bytes + next_block_bytes)) overflow)
      λ block_wire.
        Outcome.◌>>=◌ (payload_len (length w.active + 1) w.active_wire_bytes)
          λ n. ok_or (checked u64_max (n + block_wire)) overflow

-- Whether `append` flushes before it takes the block.
unfoldable pub must_flush_first : ArchiveWriter → ℕ → Result Bool
must_flush_first w next_block_bytes =
    if length w.active == 0
    then ok false
    else if leb max_blocks_per_frame (length w.active)
    then ok true
    else Outcome.◌>>=◌ (projected_payload_len w next_block_bytes)
        λ n. ok (ltb w.options.frame_bytes n)

-- Whether `append` flushes once it has taken the block.
unfoldable pub must_flush_now : ArchiveWriter → Result Bool
must_flush_now w =
    if leb max_blocks_per_frame (length w.active)
    then ok true
    else Outcome.◌>>=◌ (current_payload_len w) λ n. ok (leb w.options.frame_bytes n)

-- What the next frame may need at most in the manifest.
unfoldable pub candidate_frame : ArchiveWriter → (payload_bytes : ℕ) → FrameInfo
candidate_frame w payload_bytes = record {
  name = frame_filename w.next_id w.next_id;
  first = w.next_id;
  last = w.next_id;
  count = 1;
  payload_bytes = payload_bytes;
  compressed_bytes = max_frame_compressed_bytes;
  file_bytes = max_frame_compressed_bytes + max_frame_header_bytes + 40;
  payload_sha256 = replicate 64 b'0';
  file_sha256 = replicate 64 b'0';
}

-- `append` to the file at the end of the journal, as far as it goes before a failure.
unfoldable pub journal_write : List ℕ → List ℕ → Io → Result (Unit {0}) × List ℕ
journal_write old new (fine n) = (ok tt, old ++ new)
journal_write old new (fails n) = (err storage, old ++ take n new)

-- A failure poisons the writer.
unfoldable pub poison_on : Result (Unit {0}) × ArchiveWriter → Result (Unit {0}) × ArchiveWriter
poison_on (ok u, w) = (ok tt, w)
poison_on (err e, w) = (err e, record w { poisoned = true })

-- A file that is made is empty.
unfoldable pub file_bytes : Option (List ℕ) → List ℕ
file_bytes none = []
file_bytes (some bytes) = bytes

-- A new journal begins with its magic.
unfoldable pub journal_lines : Option (List ℕ) → List ℕ → List ℕ
journal_lines none line = journal_magic ++ line
journal_lines (some bytes) line = line

-- The guards before a block is taken.
unfoldable pub refuse_block : List ℕ → ArchiveWriter → Result (Unit {0})
refuse_block block w = Outcome.◌>>=◌ (refuse w.poisoned poisoned) λ _.
    Outcome.◌>>=◌ (refuse ((length block == 0) || ltb max_block_bytes (length block)) invalid) λ _.
      Outcome.◌>>=◌ (refuse (w.next_id == u64_max) exhausted)
        λ _. refuse (leb max_archive_frames (length w.frames)) exceeds_limit

module _ (c : Codec) (io : Script) where
  -- With an active block the test is passed at once, so that the candidate is a frame of the next block.
  unfoldable pub preflight_pending_manifest : ℕ → Action (Unit {0})
  unfolding candidate_frame
  preflight_pending_manifest next_block_bytes = do
    w ← gets (λ w. w)
    if not (length w.active == 0)
          || ltb (length w.frames) (max_manifest_bytes / max_manifest_entry_bytes)
        then pure tt
        else do
          opened ← call io
          current ← lift (ok_or w.manifest storage)
          if leb (length current + max_manifest_entry_bytes) max_manifest_bytes then pure tt else do
            n ← lift (projected_payload_len w next_block_bytes)
            manifest ← lift (encode_manifest_with_candidate c w.frames (candidate_frame w n))
            pure tt

  -- The blocks are taken out of the state before they are published.
  unfoldable pub flush_blocks : List StoredBlock → Action (Unit {0})
  unfolding poison_on
  flush_blocks [] w = (ok tt, w)
  flush_blocks (b ∷ bs) w =
      poison_on
        (publish_blocks c io (b ∷ bs) true (record w { active = []; active_wire_bytes = 0 }))

  unfoldable pub flush_frame : Action (Unit {0})
  unfolding flush_blocks
  flush_frame w = if w.poisoned then (err poisoned, w) else flush_blocks w.active w

  unfoldable pub finish : Action (Unit {0})
  unfolding flush_frame
  finish = flush_frame

  -- A file that was made is an entry of the directory, which is synced.
  unfoldable pub sync_new : Option (List ℕ) → Action (Unit {0})
  sync_new none = do synced ← call io; pure tt
  sync_new (some bytes) = pure tt

  -- The journal is opened, or made, and then the bytes are written and synced.
  unfoldable pub write_journal : (new : List ℕ) → Action (Unit {0})
  unfolding journal_write sync_new
  write_journal new = do
    opened ← call io
    old ← gets (λ w. w.journal)
    at_call ← gets (λ w. w.calls)
    let (r, journal) = journal_write (file_bytes old) new (io at_call)
    modify (λ w. record w { journal = some journal; calls = w.calls + 1 })
    lift r
    synced ← call io
    sync_new old

  -- The block becomes a record of the journal.
  unfoldable pub journal_block : List ℕ → Action (Unit {0})
  unfolding write_journal poison_on
  journal_block block = do
    w ← gets (λ w. w)
    let line = journal_record c.sha256 w.next_id block (c.sha256 block)
    let new = journal_lines w.journal line
    ensure_capacity_at io (length new)
    (λ w. poison_on (write_journal new w))
    used ← lift (ok_or (checked u64_max (w.usage_bytes + length new)) overflow)
    modify (λ w. record w { usage_bytes = used })

  -- The block becomes one of the active frame.
  unfoldable pub activate_block : List ℕ → Action (Unit {0})
  activate_block block = do
    w ← gets (λ w. w)
    wire ← lift (
        ok_or (checked u64_max (w.active_wire_bytes + (varint_len (length block) + length block)))
          overflow)
    let b : StoredBlock = record { id = w.next_id; bytes = block; sha256 = c.sha256 block }
    modify (λ w. record w {
      active_wire_bytes = wire;
      active = w.active ++ b ∷ [];
      next_id = w.next_id + 1;
    })

  -- From the second test of the number of frames on.
  unfoldable pub accept_block : List ℕ → Action (Unit {0})
  unfolding journal_block activate_block flush_frame preflight_pending_manifest
  accept_block block = do
    frames ← gets (λ w. w.frames)
    lift (refuse (leb max_archive_frames (length frames)) exceeds_limit)
    preflight_pending_manifest (length block)
    journal_block block
    activate_block block
    now_full ← gets must_flush_now
    ready ← lift now_full
    if ready then flush_frame else pure tt

  unfoldable pub append : List ℕ → Action (Unit {0})
  unfolding accept_block refuse_block
  append block = do
    w ← gets (λ w. w)
    lift (refuse_block block w)
    full ← lift (must_flush_first w (length block))
    if full then flush_frame else pure tt
    accept_block block
