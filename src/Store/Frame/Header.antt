-- ===== src/Store/Frame/Header.antt =====
-- The header that `publish_blocks` of recording/store.rs makes is one that `validate_frame_header` accepts.
use vim_config.Prelude.{
  ℕ, ◌+◌, ◌≤◌, ◌<◌, ◌≡◌, refl, sym, ap, ◌∙◌, List, [], ◌∷◌, map, length, arith, false, not, ltb,
  ◌==◌, ◌||◌, All, some, length-append, length-map,
}
use vim_config.Prelude.Bytes.{same_self}
use vim_config.Outcome.{ok, refuse, refuse_ok, u64_max, invalid, >>=-eq-ok, ok-injective}
use vim_config.Wire.Put.{max_block_bytes}
use vim_config.Store.{
  FrameHeader, StoredBlock, pcr_magic, max_blocks_per_frame, max_frame_raw_bytes,
}
use vim_config.Store.Hex.{hex, decode_hex_32}
use vim_config.Store.Hex.RoundTrip.{decode_hex_32-hex}
use vim_config.Store.Uvarint.{varint_len, write_uvarint}
use vim_config.Store.Uvarint.RoundTrip.{length-write_uvarint, varint_len_bounds}
use vim_config.Store.Payload.{block_ref, pack_block, pack_blocks, pack_pcr_payload, pack_pcr_frame}
use vim_config.Store.Payload.RoundTrip.{Hashed, pack_block_ok}
use vim_config.Store.Header.{
  brotli, differs_from_range, is_unsupported, breaks_limits, exact_payload, validate_index,
  validate_frame_header,
}
use vim_config.Store.Frame.{Codec, IsCodec, frame_header}

-- The ids count up from the first.
abbrev pub Numbered : ℕ → List StoredBlock → Type 0
Numbered first [] = Unit {0}
Numbered first (b ∷ bs) = (b.id ≡ first) × Numbered (first + 1) bs

-- The sizes in the references add up to the payload.
exact_payload-pack_blocks :
    (bs : List StoredBlock) (out : List ℕ) {out' : List ℕ}
    → pack_blocks out (map (λ b. b.bytes) bs) ≡ ok out'
    → length out ≤ max_frame_raw_bytes
    → (exact_payload (length out) (map block_ref bs) ≡ ok (length out'))
      × (length out' ≤ max_frame_raw_bytes)
      × (length out ≤ length out')
unfolding pack_blocks exact_payload block_ref
exact_payload-pack_blocks [] out h fits =
    let e : length out ≡ length _ = ap length (ok-injective h) in
    (ap ok e, omega arith, omega arith)
exact_payload-pack_blocks (b ∷ bs) out h fits =
    let n = length b.bytes in
    let (mid, e₁, h₁) = >>=-eq-ok (pack_block out b.bytes) _ h in
    let (em, pos, small, short) = pack_block_ok out b.bytes e₁ in
    let grown : length mid ≡ length out + (varint_len n + n) = omega (
      arith,
      ap length em,
      length-append (write_uvarint n out) b.bytes,
      length-write_uvarint n out,
    ) in
    let (rest, bound, more) = exact_payload-pack_blocks bs mid h₁ short in
    let fine : ((n == 0) || ltb max_block_bytes n) ≡ false = ground arith in
    let room : ltb u64_max (length out + (varint_len n + n)) ≡ false = ground arith in
    (rw (fine, room, ← grown) rest, bound, omega arith)

-- What packing has checked of the number of blocks, and that the payload is within its limit.
pub pack_pcr_frame_bounds :
    (bs : List StoredBlock) {payload : List ℕ}
    → pack_pcr_frame bs ≡ ok payload
    → (0 < length bs)
      × (length bs ≤ max_blocks_per_frame)
      × (0 < length payload)
      × (length payload ≤ max_frame_raw_bytes)
      × (exact_payload (length (write_uvarint (length bs) pcr_magic)) (map block_ref bs)
          ≡ ok (length payload))
unfolding pack_pcr_frame pack_pcr_payload
pack_pcr_frame_bounds bs h =
    let n = length bs in
    let (_, e₁, h₁) = >>=-eq-ok (refuse ((n == 0) || ltb max_blocks_per_frame n) invalid) _ h in
    let few : ((n == 0) || ltb max_blocks_per_frame n) ≡ false = refuse_ok _ _ e₁ in
    let count : n ≤ max_blocks_per_frame = ground arith in
    let start = length-write_uvarint n pcr_magic in
    let (short, long) = varint_len_bounds n (omega arith) in
    let (exact, fits, grows) =
      exact_payload-pack_blocks bs (write_uvarint n pcr_magic) h₁ (omega arith) in
    (ground arith, count, omega arith, fits, exact)

validate_frame_header_ok :
    (h : FrameHeader) (start : ℕ) (digest : List ℕ)
    → is_unsupported h ≡ false
    → breaks_limits h ≡ false
    → start ≡ 4 + varint_len (length h.blocks)
    → start ≤ u64_max
    → exact_payload start h.blocks ≡ ok h.payload_bytes
    → h.payload_bytes ≤ max_frame_raw_bytes
    → decode_hex_32 h.payload_sha256 ≡ ok digest
    → validate_index h.first_block 0 h.blocks ≡ ok tt
    → validate_frame_header h ≡ ok tt
unfolding validate_frame_header
validate_frame_header_ok h start digest supported limited e fits exact small text index =
    let room : ltb u64_max start ≡ false = ground arith in
    let same_size : (ltb max_frame_raw_bytes h.payload_bytes
          || not (h.payload_bytes == h.payload_bytes))
        ≡ false =
      ground arith in
    rw (supported, limited, ← e, room, exact, same_size, text, index)

module _ (c : Codec) (w : IsCodec c) where
  digest_text : (bs : List ℕ) → decode_hex_32 (hex (c.sha256 bs)) ≡ ok (c.sha256 bs)
  digest_text bs = decode_hex_32-hex (c.sha256 bs) (w.digest bs) (w.digest_bytes bs)

  validate_index-Numbered :
      (first index : ℕ) (bs : List StoredBlock)
      → All (Hashed c.sha256) bs
      → Numbered (first + index) bs
      → first + index + length bs ≤ u64_max + 1
      → validate_index first index (map block_ref bs) ≡ ok tt
  unfolding validate_index block_ref
  validate_index-Numbered first index [] hashed num fits = refl
  validate_index-Numbered first index (b ∷ bs) hashed num fits =
      let fine : (ltb u64_max (first + index) || not (first + index == b.id)) ≡ false =
        ground arith in
      let digest : decode_hex_32 (hex b.sha256) ≡ ok (c.sha256 b.bytes) =
        ap (λ t. decode_hex_32 (hex t)) hashed.0 ∙ digest_text b.bytes in
      let next : first + index + 1 ≡ first + (index + 1) = omega arith in
      rw (fine, digest)
        (validate_index-Numbered first (index + 1) bs hashed.1 (rw (← next) num.1) (omega arith))

  -- The header of packed blocks, with consecutive ids and their digests, is accepted.
  pub validate_frame_header-frame_header :
      (bs : List StoredBlock) (first last : ℕ) {payload compressed : List ℕ}
      → All (Hashed c.sha256) bs
      → Numbered first bs
      → last + 1 ≡ first + length bs
      → last ≤ u64_max
      → pack_pcr_frame bs ≡ ok payload
      → c.compress payload ≡ some compressed
      → validate_frame_header (frame_header c bs first last payload compressed) ≡ ok tt
  unfolding frame_header
  validate_frame_header-frame_header bs first last {payload} {compressed} hashed num range small h
        hc =
      let n = length bs in
      let (some_blocks, count, filled, fits, exact) = pack_pcr_frame_bounds bs h in
      let start : length (write_uvarint n pcr_magic) ≡ 4 + varint_len n =
        length-write_uvarint n pcr_magic in
      let (short, long) = varint_len_bounds n (omega arith) in
      let (pos, bound, _) = w.compressed payload compressed hc in
      let refs : length (map block_ref bs) ≡ n = length-map bs block_ref in
      let supported : is_unsupported (frame_header c bs first last payload compressed) ≡ false =
        unfold is_unsupported in rw (same_self brotli) in
      let limited : breaks_limits (frame_header c bs first last payload compressed) ≡ false =
        unfold breaks_limits differs_from_range in rw refs (ground arith) in
      let begins : length (write_uvarint n pcr_magic) ≡ 4 + varint_len (length (map block_ref bs)) =
        start ∙ ap (λ k. 4 + varint_len k) (sym refs) in
      validate_frame_header_ok (frame_header c bs first last payload compressed) _
        (c.sha256 payload) supported limited begins (omega arith) exact fits (digest_text payload)
        (validate_index-Numbered first 0 bs hashed
          (let e : first + 0 ≡ first = omega arith in rw e num) (omega arith))
