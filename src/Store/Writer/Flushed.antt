-- ===== src/Store/Writer/Flushed.antt =====
-- `flush_frame` of recording/store.rs on a writer that is in order.
use vim_config.Prelude.{
  ℕ, ◌+◌, ◌≤◌, ◌<◌, ◌≡◌, refl, sym, ap, subst, ◌∙◌, List, [], ◌∷◌, ◌++◌, map, length, arith,
  append-nil, false, All, Option, none, some, if◌then◌else◌,
}
use vim_config.Outcome.{Result, ok, err, u64_max, poisoned}
use vim_config.Wire.Put.{max_block_bytes}
use vim_config.Store.{StoredBlock, max_blocks_per_frame}
use vim_config.Store.Uvarint.{varint_len}
use vim_config.Store.Payload.RoundTrip.{Hashed}
use vim_config.Store.Journal.Reads.{IsStored}
use vim_config.Store.Journal.Recovered.{journal_of}
use vim_config.Store.Frame.{Codec, IsCodec}
use vim_config.Store.Frame.Header.{Numbered}
use vim_config.Store.Action.{Script, ArchiveWriter}
use vim_config.Store.Publish.Archived.{Archive, Published, publish_blocks-Archive}
use vim_config.Store.Writer.{poison_on, flush_blocks, flush_frame}

-- The bytes of the blocks in a payload.
abbrev pub wire_size : List StoredBlock → ℕ
wire_size [] = 0
wire_size (b ∷ bs) = (varint_len (length b.bytes) + length b.bytes) + wire_size bs

pub poison_on_ok :
    (p : Result (Unit {0}) × ArchiveWriter) {w : ArchiveWriter}
    → poison_on p ≡ (ok tt, w)
    → p ≡ (ok tt, w)
unfolding poison_on
poison_on_ok (ok tt, w) h = h
poison_on_ok (err e, w) h = absurd (cc)

module _ (c : Codec) where
  -- There is a journal exactly while blocks wait, and it has them all.
  abbrev pub journal_for : List StoredBlock → Option (List ℕ)
  journal_for [] = none
  journal_for (b ∷ bs) = some (journal_of c.sha256 (b ∷ bs))

  -- The archive holds the blocks `cs`, the active blocks follow them and are in the journal, and `next_id`
  -- counts all of them.
  pub record IsReady (w : ArchiveWriter) (cs : List (List ℕ)) : Type 0 where
    pub end : ℕ
    pub archive : Archive c w end cs
    pub numbered : Numbered end w.active
    pub stored : All (IsStored c.sha256) w.active
    pub next_id : w.next_id ≡ end + length w.active
    pub word : w.next_id ≤ u64_max
    pub wire : w.active_wire_bytes ≡ wire_size w.active
    pub journal : w.journal ≡ journal_for w.active
    pub alive : w.poisoned ≡ false
    pub frame_bytes : w.options.frame_bytes ≤ max_block_bytes

  -- A writer in order between two calls: its active blocks are fewer than a frame may have, within its bytes.
  pub record IsOpen (w : ArchiveWriter) (cs : List (List ℕ)) : Type 0 where
    pub ready : IsReady w cs
    pub few : length w.active < max_blocks_per_frame
    pub small : wire_size w.active ≤ max_block_bytes

  All-Hashed : (bs : List StoredBlock) → All (IsStored c.sha256) bs → All (Hashed c.sha256) bs
  All-Hashed [] h = tt
  All-Hashed (b ∷ bs) h = (h.0.hashed, All-Hashed bs h.1)

  flushed_nothing :
      (w : ArchiveWriter) (cs : List (List ℕ))
      → IsReady w cs
      → w.active ≡ []
      → IsOpen w (cs ++ map (λ b. b.bytes) w.active)
  flushed_nothing w cs r e =
      let blocks : cs ++ map (λ b. b.bytes) w.active ≡ cs =
        ap (λ bs. cs ++ map (λ b. b.bytes) bs) e ∙ append-nil cs in
      subst (IsOpen w) (sym blocks) (record {
        ready = r;
        few =
            subst (λ (bs : List StoredBlock). length bs < max_blocks_per_frame) (sym e)
              (omega arith);
        small = subst (λ bs. wire_size bs ≤ max_block_bytes) (sym e) (omega arith);
      })

  -- A writer whose active blocks were published, before they were taken out of its state.
  flushed_blocks :
      (w w' : ArchiveWriter) (cs : List (List ℕ)) (r : IsReady w cs) (n : ℕ)
      → Archive c w' (r.end + n) (cs ++ map (λ b. b.bytes) w.active)
      → length w.active ≡ n
      → Published (record w { active = []; active_wire_bytes = 0 }) w'
      → IsOpen w' (cs ++ map (λ b. b.bytes) w.active) × (w'.active ≡ []) × (w'.next_id ≡ w.next_id)
  flushed_blocks w w' cs r n ar e p =
      let no_blocks : [] ≡ w'.active = sym p.active in
      let next : w'.next_id ≡ w.next_id = p.next_id in
      (
        record {
          ready = record {
            end = r.end + n;
            archive = ar;
            numbered = subst (Numbered (r.end + n)) no_blocks tt;
            stored = subst (All (IsStored c.sha256)) no_blocks tt;
            next_id =
                subst (λ (bs : List StoredBlock). w'.next_id ≡ r.end + n + length bs) no_blocks
                  (omega (arith, r.next_id));
            word = omega (arith, r.word);
            wire = subst (λ bs. w'.active_wire_bytes ≡ wire_size bs) no_blocks p.active_wire_bytes;
            journal = subst (λ bs. w'.journal ≡ journal_for bs) no_blocks p.journal;
            alive = p.poisoned ∙ r.alive;
            frame_bytes =
                subst (λ o. o.frame_bytes ≤ max_block_bytes) (sym p.options) r.frame_bytes;
          };
          few =
              subst (λ (bs : List StoredBlock). length bs < max_blocks_per_frame) no_blocks
                (omega arith);
          small = subst (λ bs. wire_size bs ≤ max_block_bytes) no_blocks (omega arith);
        },
        p.active,
        next,
      )

  module _ (w_codec : IsCodec c) (io : Script) where
    flush_blocks-IsOpen :
        (w w' : ArchiveWriter) (cs : List (List ℕ)) (bs : List StoredBlock)
        → IsReady w cs
        → w.active ≡ bs
        → flush_blocks c io bs w ≡ (ok tt, w')
        → IsOpen w' (cs ++ map (λ b. b.bytes) w.active)
          × (w'.active ≡ [])
          × (w'.next_id ≡ w.next_id)
    unfolding flush_blocks
    flush_blocks-IsOpen w w' cs [] r e h =
        subst
          (λ m.
            IsOpen m (cs ++ map (λ b. b.bytes) w.active)
            × (m.active ≡ [])
            × (m.next_id ≡ w.next_id))
          (ap (λ p. p.1) h) (flushed_nothing w cs r e, e, refl)
    flush_blocks-IsOpen w w' cs (b ∷ bs) r e h =
        let w₀ : ArchiveWriter = record w { active = []; active_wire_bytes = 0 } in
        let (ar, p) =
          publish_blocks-Archive c io w_codec b bs w₀ r.end cs
            (record { covers = r.archive.covers; held = r.archive.held })
            (subst (Numbered r.end) e r.numbered)
            (All-Hashed (b ∷ bs) (subst (All (IsStored c.sha256)) e r.stored))
            (omega (arith, r.next_id, r.word, ap (λ (t : List StoredBlock). length t) e))
            (poison_on_ok _ h) in
        flushed_blocks w w' cs r (length (b ∷ bs))
          (subst (λ t. Archive c w' (r.end + length (b ∷ bs)) (cs ++ map (λ b. b.bytes) t)) (sym e)
            ar)
          (ap (λ (t : List StoredBlock). length t) e) p

    -- If flushing succeeds, the archive holds the active blocks too, none are active, the next id is the same, and
    -- the writer is in order.
    pub flush_frame-IsOpen :
        (w : ArchiveWriter) {w' : ArchiveWriter} (cs : List (List ℕ))
        → IsReady w cs
        → flush_frame c io w ≡ (ok tt, w')
        → IsOpen w' (cs ++ map (λ b. b.bytes) w.active)
          × (w'.active ≡ [])
          × (w'.next_id ≡ w.next_id)
    unfolding flush_frame
    flush_frame-IsOpen w {w'} cs r h = flush_blocks-IsOpen w w' cs w.active r refl (
        sym (ap (λ dead. if dead then (err poisoned, w) else flush_blocks c io w.active w) r.alive)
        ∙ h)
