-- ===== src/Store/Writer/Appended.antt =====
-- `append` of recording/store.rs adds its block behind all others, and keeps the writer in order.
use vim_config.Prelude.{
  ℕ, ◌+◌, ◌≤◌, ◌<◌, ◌≡◌, refl, sym, ap, subst, ◌∙◌, List, [], ◌∷◌, ◌++◌, map, length, arith,
  append-nil, append_assoc, true, false, All, some, Bool-cases, inl, inr, All-append, length-append,
  leb,
}
use vim_config.Outcome
use vim_config.Outcome.{
  Result, ok, err, refuse, refuse_ok, u64_max, poisoned, invalid, exhausted, exceeds_limit,
}
use vim_config.Wire.Put.{max_block_bytes}
use vim_config.Store.{StoredBlock, journal_magic, max_blocks_per_frame}
use vim_config.Store.Uvarint.{varint_len}
use vim_config.Store.Journal.Reads.{IsStored, record_of}
use vim_config.Store.Journal.Recovered.{records_of}
use vim_config.Store.Frame.{Codec}
use vim_config.Store.Frame.Header.{Numbered}
use vim_config.Store.Action.{ArchiveWriter}
use vim_config.Store.Sequence.{Covers}
use vim_config.Store.Publish.Held.{Held}
use vim_config.Store.Writer.{current_payload_len, must_flush_now, file_bytes, journal_lines}
use vim_config.Store.Writer.Flushed.{wire_size, journal_for, IsReady, IsOpen}
use vim_config.Store.Writer.Journaled.{Journals, line_of, block_of}

Numbered-append :
    (n : ℕ) (bs : List StoredBlock) (b : StoredBlock)
    → Numbered n bs
    → b.id ≡ n + length bs
    → Numbered n (bs ++ b ∷ [])
Numbered-append n [] b num e = (omega arith, tt)
Numbered-append n (a ∷ bs) b num e = (num.0, Numbered-append (n + 1) bs b num.1 (omega arith))

wire_size-append :
    (bs : List StoredBlock) (b : StoredBlock)
    → wire_size (bs ++ b ∷ []) ≡ wire_size bs + (varint_len (length b.bytes) + length b.bytes)
wire_size-append [] b = omega arith
wire_size-append (a ∷ bs) b = omega (arith, wire_size-append bs b)

pub map-append_one :
    (bs : List StoredBlock) (b : StoredBlock)
    → map (λ b. b.bytes) (bs ++ b ∷ []) ≡ map (λ b. b.bytes) bs ++ b.bytes ∷ []
map-append_one [] b = refl
map-append_one (a ∷ bs) b = ap (λ t. a.bytes ∷ t) (map-append_one bs b)

module _ (c : Codec) where
  records_of-append :
      (bs : List StoredBlock) (b : StoredBlock)
      → records_of c.sha256 (bs ++ b ∷ []) ≡ records_of c.sha256 bs ++ record_of c.sha256 b
  unfolding records_of
  records_of-append [] b = append-nil (record_of c.sha256 b)
  records_of-append (a ∷ bs) b =
      ap (λ t. record_of c.sha256 a ++ t) (records_of-append bs b)
      ∙ sym (append_assoc (record_of c.sha256 a) (records_of c.sha256 bs) (record_of c.sha256 b))

  records_of_one : (b : StoredBlock) → records_of c.sha256 (b ∷ []) ≡ record_of c.sha256 b
  unfolding records_of
  records_of_one b = append-nil (record_of c.sha256 b)

  -- The journal with one more record is that of one more block.
  journal_for-append :
      (bs : List StoredBlock) (b : StoredBlock)
      → some
          (file_bytes (journal_for c bs) ++ journal_lines (journal_for c bs) (record_of c.sha256 b))
        ≡ journal_for c (bs ++ b ∷ [])
  unfolding file_bytes journal_lines
  journal_for-append [] b = ap (λ t. some (journal_magic ++ t)) (sym (records_of_one b))
  journal_for-append (a ∷ bs) b = ap some (
      append_assoc journal_magic (records_of c.sha256 (a ∷ bs)) (record_of c.sha256 b)
      ∙ ap (λ t. journal_magic ++ t) (sym (records_of-append (a ∷ bs) b)))

  -- A block that was made a record of the journal and then one of the active frame.
  pub taken :
      (w m w' : ArchiveWriter) (block : List ℕ) (cs : List (List ℕ))
      → IsReady c w cs
      → 0 < length block
      → length block ≤ max_block_bytes
      → w.next_id < u64_max
      → Journals (journal_lines w.journal (line_of c w block)) w m
      → record m {
        active_wire_bytes = m.active_wire_bytes + (varint_len (length block) + length block);
        active = m.active ++ block_of c m block ∷ [];
        next_id = m.next_id + 1;
      }
        ≡ w'
      → IsReady c w' cs × (w'.active ≡ w.active ++ block_of c w block ∷ [])
  taken w m w' block cs r pos small word j e =
      let b = block_of c w block in
      let active : m.active ++ block_of c m block ∷ [] ≡ w.active ++ b ∷ [] =
        ap (λ t. t ++ block_of c m block ∷ []) j.active
        ∙ ap (λ n. w.active ++ record { id = n; bytes = block; sha256 = c.sha256 block } ∷ [])
            j.next_id in
      let blocks : w.active ++ b ∷ [] ≡ m.active ++ block_of c m block ∷ [] = sym active in
      let count = length-append w.active (b ∷ []) in
      let stored : IsStored c.sha256 b = record {
        hashed = refl;
        filled = pos;
        bounded = small;
        numbered = r.word;
      } in
      let next : m.next_id + 1 ≡ r.end + length (w.active ++ b ∷ []) =
        omega (arith, j.next_id, r.next_id) in
      let wire : m.active_wire_bytes + (varint_len (length block) + length block)
          ≡ wire_size (w.active ++ b ∷ []) =
        omega (arith, j.active_wire_bytes, r.wire, wire_size-append w.active b) in
      let journal : m.journal ≡ journal_for c (w.active ++ b ∷ []) =
        j.journal
        ∙ ap (λ t. some (file_bytes t ++ journal_lines t (line_of c w block))) r.journal
        ∙ journal_for-append w.active b in
      subst (λ v. IsReady c v cs × (v.active ≡ w.active ++ b ∷ [])) e
        (
          record {
            end = r.end;
            archive = record {
              covers = subst (λ fs. Covers 0 fs r.end) (sym j.frames) r.archive.covers;
              held =
                  subst (λ fs. Held c fs m.frames cs) (sym j.files)
                    (subst (λ fs. Held c w.files fs cs) (sym j.frames) r.archive.held);
            };
            numbered =
                subst (Numbered r.end) blocks
                  (Numbered-append r.end w.active b r.numbered r.next_id);
            stored =
                subst (All (IsStored c.sha256)) blocks
                  (All-append (IsStored c.sha256) w.active (b ∷ []) r.stored (stored, tt));
            next_id =
                subst (λ (bs : List StoredBlock). m.next_id + 1 ≡ r.end + length bs) blocks next;
            word = omega (arith, j.next_id);
            wire =
                subst
                  (λ bs.
                    m.active_wire_bytes + (varint_len (length block) + length block) ≡ wire_size bs)
                  blocks wire;
            journal = subst (λ bs. m.journal ≡ journal_for c bs) blocks journal;
            alive = j.poisoned ∙ r.alive;
            frame_bytes =
                subst (λ o. o.frame_bytes ≤ max_block_bytes) (sym j.options) r.frame_bytes;
          },
          active,
        )

  current_payload_len-le :
      (w : ArchiveWriter) {n : ℕ} → current_payload_len w ≡ ok n → w.active_wire_bytes ≤ n
  unfolding current_payload_len
  current_payload_len-le w h = ground arith

  open_of_full :
      (w : ArchiveWriter)
      → leb max_blocks_per_frame (length w.active) ≡ true
      → must_flush_now w ≡ ok false
      → ⊥
  unfolding must_flush_now
  open_of_full w full h = let e : ok true ≡ ok false = rw full at h in cc

  open_of_room :
      (w : ArchiveWriter)
      → leb max_blocks_per_frame (length w.active) ≡ false
      → must_flush_now w ≡ ok false
      → (n : ℕ) × (current_payload_len w ≡ ok n) × (n < w.options.frame_bytes)
  unfolding must_flush_now
  open_of_room w room h =
      let (n, e, h') = Outcome.>>=-eq-ok (current_payload_len w) _ (rw room at h) in
      let below : leb w.options.frame_bytes n ≡ false = Outcome.ok-injective h' in
      (n, e, ground arith)

  -- If `append` does not flush at its end, the active blocks are below both limits.
  pub kept-IsOpen :
      (w : ArchiveWriter) (cs : List (List ℕ))
      → IsReady c w cs
      → must_flush_now w ≡ ok false
      → IsOpen c w cs
  kept-IsOpen w cs r h = elim (Bool-cases (leb max_blocks_per_frame (length w.active))) [
    | inl full ↦ absurd (open_of_full w full h)
    | inr room ↦
        let (n, e, below) = open_of_room w room h in
        record {
          ready = r;
          few = ground arith;
          small =
              let len = current_payload_len-le w e in
              let limit = r.frame_bytes in omega (arith, r.wire, len, limit, below);
        }
  ]
