-- ===== src/Store/Publish.antt =====
-- `publish_blocks` of recording/store.rs and what it calls. Temporary files are not part of the state: they
-- are made and renamed in one step of several calls, and removed when an archive is opened. Whether a
-- directory entry is safe and owned is not modelled, nor is that another process writes to the archive,
-- which holds a lock.
pub mod Quiet
pub mod Held
pub mod Published
pub mod Archived
use vim_config.Prelude.{
  ℕ, zero, suc, ◌+◌, ◌-◌, List, [], ◌∷◌, ◌++◌, length, any, Bool, true, false, not, ltb, leb, ◌==◌,
  ◌||◌, if◌then◌else◌, Option, none, some, is_some,
}
use vim_config.Prelude.Bytes.{same}
use vim_config.Outcome
use vim_config.Outcome.{
  Result, ok, err, refuse, ok_or, checked, checked_sub, u64_max, invalid, overflow, exceeds_limit,
  conflict, storage,
}
use vim_config.Store.{
  FrameHeader, FrameInfo, StoredBlock, max_blocks_per_frame, max_archive_frames, max_manifest_bytes,
}
use vim_config.Store.Header.{same_block_refs}
use vim_config.Store.Sequence.{validate_frame_sequence}
use vim_config.Store.Frame.{Codec, read_frame_header, verify_frame, seal_frame}
use vim_config.Store.Action.{
  Io, Script, ArchiveWriter, Action, pure, lift, gets, modify, ◌>>=◌, ◌>>◌, call,
}

-- `sort_by_key(|frame| frame.first)`, which keeps the order of equal keys.
unfoldable pub insert_frame : FrameInfo → List FrameInfo → List FrameInfo
insert_frame f [] = f ∷ []
insert_frame f (g ∷ frames) =
    if ltb g.first f.first then g ∷ insert_frame f frames else f ∷ g ∷ frames

unfoldable pub sort_frames : List FrameInfo → List FrameInfo
unfolding insert_frame
sort_frames [] = []
sort_frames (f ∷ frames) = insert_frame f (sort_frames frames)

-- The file of that name.
unfoldable pub find_file : List ℕ → List (List ℕ × List ℕ) → Option (List ℕ)
find_file name [] = none
find_file name ((key, bytes) ∷ files) = if same key name then some bytes else find_file name files

-- `blocks.windows(2)`, with the block before.
unfoldable pub breaks_windows : StoredBlock → List StoredBlock → Bool
breaks_windows a [] = false
breaks_windows a (b ∷ bs) = (leb u64_max a.id || not (a.id + 1 == b.id)) || breaks_windows b bs

unfoldable pub last_id : StoredBlock → List StoredBlock → ℕ
last_id a [] = a.id
last_id a (b ∷ bs) = last_id b bs

-- Whether the frames go up to the id before `first`.
unfoldable pub breaks_start : List FrameInfo → ℕ → Bool
breaks_start [] first = not (first == 0)
breaks_start (f ∷ []) first = leb u64_max f.last || not (f.last + 1 == first)
breaks_start (f ∷ g ∷ frames) first = breaks_start (g ∷ frames) first

-- The length of a file that may not be there.
unfoldable pub file_len : Option (List ℕ) → ℕ
file_len none = 0
file_len (some bytes) = length bytes

module _ (io : Script) where
  unfoldable pub ensure_capacity_at : ℕ → Action (Unit {0})
  ensure_capacity_at additional = do
    w ← gets (λ w. w)
    projected ← lift (ok_or (checked u64_max (w.usage_bytes + additional)) overflow)
    lift (refuse (ltb w.options.max_bytes projected) exceeds_limit)
    free ← call io
    required ← lift (ok_or (checked u64_max (additional + w.options.min_free_bytes)) overflow)
    lift (refuse (ltb free required) exceeds_limit)

  -- The new manifest is written and synced, then renamed, then the directory is synced.
  unfoldable pub atomic_replace : List ℕ → Action (Unit {0})
  unfolding ensure_capacity_at
  atomic_replace bytes = do
    removed ← call io
    ensure_capacity_at (length bytes)
    written ← call io
    renamed ← call io
    w ← gets (λ w. w)
    modify (λ w. record w { manifest = some bytes })
    used ← lift (ok_or (checked_sub w.usage_bytes (file_len w.manifest)) overflow)
    used' ← lift (ok_or (checked u64_max (used + length bytes)) overflow)
    modify (λ w. record w { usage_bytes = used' })
    synced ← call io
    pure tt

  -- Behind the removal the directory is synced.
  unfoldable pub remove_if : Option (List ℕ) → Action (Unit {0})
  remove_if none = pure tt
  remove_if (some bytes) = do
    removed ← call io
    modify (λ w. record w { journal = none; usage_bytes = w.usage_bytes - length bytes })
    synced ← call io
    pure tt

  unfoldable pub remove_journal : Action (Unit {0})
  unfolding remove_if
  remove_journal = do journal ← gets (λ w. w.journal); remove_if journal

module _ (c : Codec) where
  unfoldable pub encode_manifest : List FrameInfo → Result (List ℕ)
  encode_manifest frames =
      Outcome.◌>>=◌ (refuse (ltb max_archive_frames (length frames)) exceeds_limit) λ _.
        Outcome.◌>>=◌ (ok_or (c.encode_manifest frames) storage) λ bytes.
          Outcome.◌>>=◌ (refuse (ltb max_manifest_bytes (length bytes)) exceeds_limit) λ _. ok bytes

  unfoldable pub encode_manifest_with_candidate : List FrameInfo → FrameInfo → Result (List ℕ)
  unfolding encode_manifest
  encode_manifest_with_candidate frames candidate =
      let frames' = sort_frames (frames ++ candidate ∷ []) in
      Outcome.◌>>=◌ (validate_frame_sequence frames') λ _. encode_manifest frames'

  module _ (io : Script) where
    unfoldable pub preflight_publication : FrameInfo → ℕ → Action (Unit {0})
    unfolding encode_manifest_with_candidate
    preflight_publication frame frame_bytes = do
      frames ← gets (λ w. w.frames)
      manifest ← lift (encode_manifest_with_candidate frames frame)
      additional ← lift (ok_or (checked u64_max (frame_bytes + length manifest)) overflow)
      ensure_capacity_at io additional

    -- A manifest that is up to date is left as it is.
    unfoldable pub rebuild_manifest : Action (Unit {0})
    rebuild_manifest = do
      w ← gets (λ w. w)
      bytes ← lift (encode_manifest w.frames)
      elim w.manifest [
        | none ↦ atomic_replace io bytes
        | some old ↦
            if ltb max_manifest_bytes (length old)
            then atomic_replace io bytes
            else do read ← call io; if same old bytes then pure tt else atomic_replace io bytes
      ]

    unfoldable pub push_frame : FrameInfo → Action (Unit {0})
    push_frame frame = modify (λ w. record w { frames = sort_frames (w.frames ++ frame ∷ []) })

    -- A file of that name must hold the same blocks.
    unfoldable pub keep_existing :
        (name bytes : List ℕ) → FrameHeader → FrameInfo → Action (Unit {0})
    unfolding push_frame preflight_publication
    keep_existing name bytes header proposed = do
      read ← call io
      (blocks, existing) ← lift (verify_frame c name bytes)
      lift (
          refuse
            (not (existing.first == proposed.first)
              || not (existing.last == proposed.last)
              || not (same existing.payload_sha256 proposed.payload_sha256))
            conflict)
      read_again ← call io
      (found, info) ← lift (read_frame_header c bytes)
      same_refs ← lift (same_block_refs found.blocks header.blocks)
      lift (refuse (not same_refs) conflict)
      frames ← gets (λ w. w.frames)
      if any (λ f. same f.name name) frames
          then pure tt
          else do preflight_publication existing 0; push_frame existing

    -- The file is written and synced under a temporary name, then renamed unless there is one of that name by
    -- now, then the directory is synced.
    unfoldable pub write_frame : (name file : List ℕ) → FrameInfo → Action (Unit {0})
    unfolding push_frame preflight_publication
    write_frame name file proposed = do
      preflight_publication proposed (length file)
      written ← call io
      files ← gets (λ w. w.files)
      lift (refuse (is_some (find_file name files)) conflict)
      renamed ← call io
      modify (λ w. record w { files = w.files ++ (name, file) ∷ [] })
      used ← gets (λ w. w.usage_bytes)
      used' ← lift (ok_or (checked u64_max (used + length file)) overflow)
      modify (λ w. record w { usage_bytes = used' })
      synced ← call io
      push_frame proposed

    -- By whether there is a file of that name.
    unfoldable pub store_as :
        (name file : List ℕ) → FrameHeader → FrameInfo → Option (List ℕ) → Action (Unit {0})
    store_as name file header proposed none = write_frame name file proposed
    store_as name file header proposed (some bytes) = keep_existing name bytes header proposed

    unfoldable pub store_frame : (name file : List ℕ) → FrameHeader → FrameInfo → Action (Unit {0})
    unfolding store_as
    store_frame name file header proposed = do
      files ← gets (λ w. w.files)
      store_as name file header proposed (find_file name files)

    -- Behind the storing of the frame.
    unfoldable pub settle_frames : Bool → Action (Unit {0})
    settle_frames remove = do
      frames ← gets (λ w. w.frames)
      lift (validate_frame_sequence frames)
      rebuild_manifest
      if remove then remove_journal io else pure tt

    unfoldable pub publish_blocks : List StoredBlock → Bool → Action (Unit {0})
    publish_blocks [] remove = pure tt
    publish_blocks (b ∷ bs) remove = do
      lift (refuse (ltb max_blocks_per_frame (length (b ∷ bs))) exceeds_limit)
      lift (refuse (breaks_windows b bs) invalid)
      frames ← gets (λ w. w.frames)
      lift (refuse (breaks_start frames b.id) invalid)
      (file, header, proposed) ← lift (seal_frame c (b ∷ bs) b.id (last_id b bs))
      store_frame proposed.name file header proposed
      settle_frames remove
