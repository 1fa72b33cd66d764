-- ===== src/Store/Payload/RoundTrip.antt =====
-- The payload of a frame is taken apart into the blocks that were packed.
use vim_config.Prelude.{
  ℕ, ◌+◌, ◌^◌, ◌≤◌, ◌<◌, ◌≡◌, refl, sym, ap, List, [], ◌∷◌, ◌++◌, map, arith, length, ltb, ◌==◌,
  ◌||◌, not, true, false, All, length-append, length-map,
}
use vim_config.Prelude.Bytes.{same, same_self}
use vim_config.Outcome.{ok, refuse, refuse_ok, >>=-eq-ok, ok-injective, invalid, exceeds_limit}
use vim_config.Wire.Put.{max_block_bytes}
use vim_config.Wire.Cursor.{Wrote, Wrote-bind, Wrote-done, Reads-slice, Reads-bind-pure}
use vim_config.Wire.Whole.{
  WroteAll, WroteAll-bind, WroteAll-at_end, after_magic-WroteAll, has_magic, has_magic-append,
}
use vim_config.Store.{pcr_magic, max_frame_raw_bytes, max_blocks_per_frame, StoredBlock}
use vim_config.Store.Hex.{hex}
use vim_config.Store.Uvarint.{write_uvarint, varint_len}
use vim_config.Store.Uvarint.RoundTrip.{
  read_uvarint-write_uvarint, length-write_uvarint, varint_len_bounds,
}
use vim_config.Store.Payload.{
  new_len, pack_block, pack_blocks, pack_pcr_payload, pack_pcr_frame, read_block, read_blocks,
  read_payload, unpack_payload, block_ref,
}

new_len_ok : (a b : ℕ) {n : ℕ} → new_len a b ≡ ok n → n ≡ a + varint_len b + b
unfolding new_len
new_len_ok a b h = ground arith

-- What the loop has checked when it appended a block.
pub pack_block_ok :
    (out block : List ℕ) {out' : List ℕ}
    → pack_block out block ≡ ok out'
    → (out' ≡ write_uvarint (length block) out ++ block)
      × (0 < length block)
      × (length block ≤ max_block_bytes)
      × (length out' ≤ max_frame_raw_bytes)
unfolding pack_block
pack_block_ok out block {out'} h =
    let bad = (length block == 0) || ltb max_block_bytes (length block) in
    let (_, e₁, h₁) = >>=-eq-ok (refuse bad invalid) _ h in
    let (len, e₂, h₂) = >>=-eq-ok (new_len (length out) (length block)) _ h₁ in
    let (_, e₃, h₃) = >>=-eq-ok (refuse (ltb max_frame_raw_bytes len) exceeds_limit) _ h₂ in
    let good : bad ≡ false = refuse_ok _ _ e₁ in
    let fits : ltb max_frame_raw_bytes len ≡ false = refuse_ok _ _ e₃ in
    let e : out' ≡ write_uvarint (length block) out ++ block = sym (ok-injective h₃) in
    let n = new_len_ok (length out) (length block) e₂ in
    let m = length-write_uvarint (length block) out in
    let k = length-append (write_uvarint (length block) out) block in
    let small : len ≤ max_frame_raw_bytes = ground arith in
    (e, ground arith, ground arith, omega (arith, ap length e))

module _ (sha256 : List ℕ → List ℕ) where
  -- The digest that is kept with a block is the block's.
  abbrev pub Hashed : StoredBlock → Type 0
  Hashed b = b.sha256 ≡ sha256 b.bytes

  read_block-pack_block :
      (b : StoredBlock) (out : List ℕ) {out' : List ℕ}
      → Hashed b
      → pack_block out b.bytes ≡ ok out'
      → Wrote out out' (read_block sha256 (block_ref b)) b.bytes
  unfolding read_block block_ref
  read_block-pack_block b out hashed h =
      let (e, pos, small, _) = pack_block_ok out b.bytes h in
      let n = length b.bytes in
      let good : ((n == 0) || ltb max_block_bytes n || not (n == n)) ≡ false = ground arith in
      let same_digest : same (hex (sha256 b.bytes)) (hex b.sha256) ≡ true =
        rw hashed (same_self (hex (sha256 b.bytes))) in
      Wrote-bind _ out (read_uvarint-write_uvarint n out (omega arith))
        (rw good (b.bytes, e, Reads-bind-pure _ (Reads-slice b.bytes) (rw same_digest)))

  read_blocks-pack_blocks :
      (bs : List StoredBlock) (out : List ℕ) {out' : List ℕ}
      → All Hashed bs
      → pack_blocks out (map (λ b. b.bytes) bs) ≡ ok out'
      → Wrote out out' (read_blocks sha256 (map block_ref bs)) (map (λ b. b.bytes) bs)
        × (length out ≤ max_frame_raw_bytes → length out' ≤ max_frame_raw_bytes)
  unfolding read_blocks pack_blocks
  read_blocks-pack_blocks [] out hashed h =
      (Wrote-done refl (ok-injective h), λ fits. omega (arith, ap length (ok-injective h)))
  read_blocks-pack_blocks (b ∷ bs) out hashed h =
      let (mid, e₁, h₁) = >>=-eq-ok (pack_block out b.bytes) _ h in
      let (rest, fits) = read_blocks-pack_blocks bs mid hashed.1 h₁ in
      let (_, _, _, small) = pack_block_ok out b.bytes e₁ in
      (
        Wrote-bind _ out (read_block-pack_block b out hashed.0 e₁)
            (rest.0, rest.1, Reads-bind-pure _ rest.2 refl),
        λ _. fits small,
      )

  -- What stands behind the magic, once the count has been checked.
  read_payload-written :
      (bs : List StoredBlock) {out : List ℕ}
      → length bs < 2 ^ 64
      → Wrote
          (write_uvarint (length bs) pcr_magic)
          out
          (read_blocks sha256 (map block_ref bs))
          (map (λ b. b.bytes) bs)
      → WroteAll pcr_magic out (read_payload sha256 (map block_ref bs)) (map (λ b. b.bytes) bs)
  unfolding read_payload
  read_payload-written bs h written =
      let counted : not (length bs == length (map block_ref bs)) ≡ false =
        rw (length-map bs block_ref) (ground arith) in
      WroteAll-bind _ pcr_magic (read_uvarint-write_uvarint (length bs) pcr_magic h)
        (rw counted (WroteAll-bind _ _ written (WroteAll-at_end _ _)))

  -- If a frame's payload was packed from blocks with their digests, and its header refers to these
  -- blocks, it is taken apart into the same blocks, in their order.
  pub unpack_payload-pack_pcr_frame :
      (bs : List StoredBlock) {payload : List ℕ}
      → All Hashed bs
      → pack_pcr_frame bs ≡ ok payload
      → unpack_payload sha256 (map block_ref bs) payload ≡ ok (map (λ b. b.bytes) bs)
  unfolding pack_pcr_frame pack_pcr_payload unpack_payload
  unpack_payload-pack_pcr_frame bs {payload} hashed h =
      let n = length bs in
      let (_, e₁, h₁) = >>=-eq-ok (refuse ((n == 0) || ltb max_blocks_per_frame n) invalid) _ h in
      let few : ((n == 0) || ltb max_blocks_per_frame n) ≡ false = refuse_ok _ _ e₁ in
      let small : n ≤ max_blocks_per_frame = ground arith in
      let (written, fits) = read_blocks-pack_blocks bs (write_uvarint n pcr_magic) hashed h₁ in
      let short : length payload ≤ max_frame_raw_bytes =
        fits (omega (arith, length-write_uvarint n pcr_magic, varint_len_bounds n (omega arith))) in
      let whole = read_payload-written bs (omega arith) written in
      let begins : has_magic pcr_magic payload ≡ true =
        rw (whole.1) (has_magic-append pcr_magic whole.0) in
      rw begins (after_magic-WroteAll _ pcr_magic refl (omega arith) whole)
