-- ===== src/Store/Frame/Verified.antt =====
-- A frame that `publish_blocks` of recording/store.rs writes is one that `verify_frame` accepts.
use vim_config.Prelude.{
  ℕ, ◌+◌, ◌≤◌, ◌≡◌, refl, ap, subst, length-map, ◌∙◌, List, ◌++◌, map, length, arith, false, ltb,
  All, some, length-append,
}
use vim_config.Outcome.{
  ok, ok_or, ok_or_ok, refuse, refuse_ok, u64_max, exceeds_limit, storage, >>=-eq-ok, ok-injective,
}
use vim_config.Store.{
  FrameHeader, FrameFileInfo, FrameInfo, StoredBlock, max_frame_header_bytes,
  max_frame_compressed_bytes, max_frame_raw_bytes,
}
use vim_config.Store.Hex.{hex}
use vim_config.Store.Filename.{frame_filename}
use vim_config.Store.Filename.RoundTrip.{parse_frame_filename-frame_filename}
use vim_config.Store.Payload.{pack_pcr_frame, block_ref}
use vim_config.Store.Payload.RoundTrip.{Hashed, unpack_payload-pack_pcr_frame}
use vim_config.Store.Frame.{
  Codec, IsCodec, frame_info, check_name, verify_frame, frame_header, frame_prefix_of, frame_file,
  frame_size, seal_frame,
}
use vim_config.Store.Frame.Header.{
  Numbered, validate_frame_header-frame_header, pack_pcr_frame_bounds,
}
use vim_config.Store.Frame.Parts.{
  Parts-frame, le_of_ltb, read_frame_header-Parts, verify_frame_digest-Parts,
  read_frame_payload-Parts,
}

module _ (c : Codec) where
  check_name-frame_filename :
      (h : FrameHeader)
      → h.first_block ≤ u64_max
      → h.last_block ≤ u64_max
      → check_name (frame_filename h.first_block h.last_block) h ≡ ok tt
  unfolding check_name
  check_name-frame_filename h first last =
      rw (parse_frame_filename-frame_filename h.first_block h.last_block first last) (ground arith)

  frame_size_ok :
      (a b : ℕ) {n : ℕ}
      → frame_size a b ≡ ok n
      → (n ≡ a + b + 32) × (n ≤ max_frame_compressed_bytes + max_frame_header_bytes + 8)
  unfolding frame_size
  frame_size_ok a b h = ground arith

  module _ (w : IsCodec c) where
    -- The steps of `verify_frame` on the file of packed blocks.
    verify_frame-written :
        (bs : List StoredBlock) (first last : ℕ) {payload compressed hb : List ℕ}
        → All (Hashed c.sha256) bs
        → Numbered first bs
        → last + 1 ≡ first + length bs
        → first ≤ u64_max
        → last ≤ u64_max
        → pack_pcr_frame bs ≡ ok payload
        → length payload ≤ max_frame_raw_bytes
        → c.compress payload ≡ some compressed
        → let h = frame_header c bs first last payload compressed in
          let file = frame_file c (frame_prefix_of hb) compressed in
          c.encode_header h ≡ some hb
          → length hb ≤ max_frame_header_bytes
          → length file ≤ max_frame_compressed_bytes + max_frame_header_bytes + 8
          → verify_frame c (frame_filename first last) file
            ≡ ok (
              map (λ b. b.bytes) bs,
              frame_info (frame_filename first last) h (record {
                payload_offset = 8 + length hb;
                compressed_bytes = length compressed;
                checksum = c.sha256 (frame_prefix_of hb ++ compressed);
                file_bytes = length file;
              }),
            )
    unfolding verify_frame frame_file frame_header
    verify_frame-written bs first last {payload} {compressed} {hb} hashed num range fs ls packed raw
          pressed encoded short fits =
        let h = frame_header c bs first last payload compressed in
        let digest = c.sha256 (frame_prefix_of hb ++ compressed) in
        let p = Parts-frame hb compressed digest (w.digest (frame_prefix_of hb ++ compressed)) in
        let (filled, decoded) = w.header h hb encoded in
        let (_, _, out) = w.compressed payload compressed pressed in
        let valid =
          validate_frame_header-frame_header c w bs first last hashed num range ls packed pressed in
        let file = frame_prefix_of hb ++ (compressed ++ digest) in
        let f : FrameFileInfo = record {
          payload_offset = 8 + length hb;
          compressed_bytes = length compressed;
          checksum = digest;
          file_bytes = length file;
        } in
        rw (
          read_frame_header-Parts c h p filled short fits decoded valid refl,
          check_name-frame_filename h fs ls,
          verify_frame_digest-Parts c p (omega arith) refl,
          read_frame_payload-Parts c h f p refl refl out raw refl refl,
          unpack_payload-pack_pcr_frame c.sha256 bs hashed packed,
        )

    length-frame_file :
        (prefix compressed : List ℕ)
        → length (frame_file c prefix compressed) ≡ length prefix + length compressed + 32
    unfolding frame_file
    length-frame_file prefix compressed =
        let digest = c.sha256 (prefix ++ compressed) in
        omega (
          arith,
          length-append prefix (compressed ++ digest),
          length-append compressed digest,
          w.digest (prefix ++ compressed),
        )

    abbrev kept :
        (first last count : ℕ) → (payload compressed prefix : List ℕ) → (size : ℕ) → FrameInfo
    kept first last count payload compressed prefix size = record {
      name = frame_filename first last;
      first = first;
      last = last;
      count = count;
      payload_bytes = length payload;
      compressed_bytes = length compressed;
      file_bytes = size;
      payload_sha256 = hex (c.sha256 payload);
      file_sha256 = hex (c.sha256 (prefix ++ compressed));
    }

    verify_frame-kept :
        (bs : List StoredBlock) (first last size : ℕ) (payload compressed hb : List ℕ)
        → All (Hashed c.sha256) bs
        → Numbered first bs
        → last + 1 ≡ first + length bs
        → last ≤ u64_max
        → pack_pcr_frame bs ≡ ok payload
        → c.compress payload ≡ some compressed
        → c.encode_header (frame_header c bs first last payload compressed) ≡ some hb
        → length hb ≤ max_frame_header_bytes
        → frame_size (length (frame_prefix_of hb)) (length compressed) ≡ ok size
        → verify_frame c (frame_filename first last) (frame_file c (frame_prefix_of hb) compressed)
          ≡ ok (
            map (λ b. b.bytes) bs,
            kept first last (length bs) payload compressed (frame_prefix_of hb) size,
          )
    unfolding frame_info frame_header
    verify_frame-kept bs first last size payload compressed hb hashed num range ls packed pressed
          encoded short sized =
        let prefix = frame_prefix_of hb in
        let file = frame_file c prefix compressed in
        let (filled, _, _, raw, _) = pack_pcr_frame_bounds bs packed in
        let (total, fits) = frame_size_ok (length prefix) (length compressed) sized in
        let whole : length file ≡ size = omega (arith, length-frame_file prefix compressed) in
        let written =
          verify_frame-written bs first last hashed num range (omega arith) ls packed raw pressed
            encoded short (omega arith) in
        written
        ∙ ap
            (λ n.
              ok (map (λ b. b.bytes) bs, kept first last n payload compressed prefix (length file)))
            (length-map bs block_ref)
        ∙ ap
            (λ n.
              ok (map (λ b. b.bytes) bs, kept first last (length bs) payload compressed prefix n))
            whole

    -- If `publish_blocks` makes a frame's file of blocks with their digests and consecutive ids, `verify_frame`
    -- accepts the file under its name, and gives the blocks and the information that was kept of the frame.
    pub verify_frame-seal_frame :
        (bs : List StoredBlock) (first last : ℕ) {file : List ℕ} {h : FrameHeader}
        {info : FrameInfo}
        → All (Hashed c.sha256) bs
        → Numbered first bs
        → last + 1 ≡ first + length bs
        → last ≤ u64_max
        → seal_frame c bs first last ≡ ok (file, h, info)
        → verify_frame c (frame_filename first last) file ≡ ok (map (λ b. b.bytes) bs, info)
    unfolding seal_frame
    verify_frame-seal_frame bs first last {file} {h} {info} hashed num range ls sealed =
        let (payload, packed, h₁) = >>=-eq-ok (pack_pcr_frame bs) _ sealed in
        let (compressed, e₂, h₂) = >>=-eq-ok (ok_or (c.compress payload) storage) _ h₁ in
        let header = frame_header c bs first last payload compressed in
        let (hb, e₃, h₃) = >>=-eq-ok (ok_or (c.encode_header header) storage) _ h₂ in
        let (_, e₄, h₄) =
          >>=-eq-ok (refuse (ltb max_frame_header_bytes (length hb)) exceeds_limit) _ h₃ in
        let (size, e₅, h₅) =
          >>=-eq-ok (frame_size (length (frame_prefix_of hb)) (length compressed)) _ h₄ in
        let small : ltb max_frame_header_bytes (length hb) ≡ false = refuse_ok _ _ e₄ in
        let whole =
          verify_frame-kept bs first last size payload compressed hb hashed num range ls packed
            (ok_or_ok _ _ e₂) (ok_or_ok _ _ e₃) (le_of_ltb (length hb) small) e₅ in
        subst
          (λ (t : List ℕ × FrameHeader × FrameInfo).
            verify_frame c (frame_filename first last) t.0 ≡ ok (map (λ b. b.bytes) bs, t.2))
          (ok-injective h₅) whole

  -- What is kept of a frame's file that was made.
  pub seal_frame-kept :
      (bs : List StoredBlock) (first last : ℕ) {file : List ℕ} {h : FrameHeader} {info : FrameInfo}
      → seal_frame c bs first last ≡ ok (file, h, info)
      → (info.name ≡ frame_filename first last)
        × (info.first ≡ first)
        × (info.last ≡ last)
        × (info.count ≡ length bs)
  unfolding seal_frame
  seal_frame-kept bs first last {file} {h} {info} sealed =
      let (payload, packed, h₁) = >>=-eq-ok (pack_pcr_frame bs) _ sealed in
      let (compressed, e₂, h₂) = >>=-eq-ok (ok_or (c.compress payload) storage) _ h₁ in
      let header = frame_header c bs first last payload compressed in
      let (hb, e₃, h₃) = >>=-eq-ok (ok_or (c.encode_header header) storage) _ h₂ in
      let (_, e₄, h₄) =
        >>=-eq-ok (refuse (ltb max_frame_header_bytes (length hb)) exceeds_limit) _ h₃ in
      let (size, e₅, h₅) =
        >>=-eq-ok (frame_size (length (frame_prefix_of hb)) (length compressed)) _ h₄ in
      subst
        (λ (t : List ℕ × FrameHeader × FrameInfo).
          (t.2.name ≡ frame_filename first last)
          × (t.2.first ≡ first)
          × (t.2.last ≡ last)
          × (t.2.count ≡ length bs))
        (ok-injective h₅) (refl, refl, refl, refl)
