-- ===== src/Store/Writer/Refines.antt =====
-- `append` of recording/store.rs against its contract: the writer is a list of blocks, to which a call that
-- succeeds adds one.
use vim_config.Prelude.{
  ℕ, ◌+◌, ◌≤◌, ◌<◌, ◌≡◌, ◌≢◌, sym, ap, subst, ◌∙◌, List, [], ◌∷◌, ◌++◌, map, length, arith,
  append-nil, append_assoc, Bool, true, false, All, if◌then◌else◌, leb,
}
use vim_config.Outcome.{ok, refuse, u64_max, exceeds_limit}
use vim_config.Wire.Put.{max_block_bytes}
use vim_config.Store.{StoredBlock, max_archive_frames}
use vim_config.Store.Journal.Reads.{IsStored}
use vim_config.Store.Sequence.{Covers}
use vim_config.Store.Frame.{Codec, IsCodec}
use vim_config.Store.Frame.Header.{Numbered}
use vim_config.Store.Action.{Script, ArchiveWriter, pure, lift, gets, >>=-eq-ok}
use vim_config.Store.Publish.Held.{Held}
use vim_config.Store.Publish.Quiet.{
  Keeps, Quiet, Quiet-ok, Quiet-bind, Quiet-gets, Quiet-lift, Quiet-pure, Quiet-call, Quiet-if,
  pure_ok, lift_ok, gets_ok,
}
use vim_config.Store.Writer.{
  must_flush_first, must_flush_now, refuse_block, accept_block, preflight_pending_manifest,
  journal_block, activate_block, flush_frame, append,
}
use vim_config.Store.Writer.Flushed.{wire_size, journal_for, IsReady, IsOpen, flush_frame-IsOpen}
use vim_config.Store.Writer.Journaled.{journal_block-Journals, block_of, activate_block_ok}
use vim_config.Store.Writer.Appended.{taken, kept-IsOpen, map-append_one}

-- All blocks of a writer whose archive holds `cs`.
abbrev pub contents : ArchiveWriter → List (List ℕ) → List (List ℕ)
contents w cs = cs ++ map (λ b. b.bytes) w.active

pub refuse_block_ok :
    (block : List ℕ) (w : ArchiveWriter)
    → refuse_block block w ≡ ok tt
    → (0 < length block) × (length block ≤ max_block_bytes) × (w.next_id ≢ u64_max)
unfolding refuse_block
refuse_block_ok block w h = ground arith

module _ (c : Codec) where
  pub IsReady-Keeps :
      {w w' : ArchiveWriter} {cs : List (List ℕ)} → Keeps w w' → IsReady c w cs → IsReady c w' cs
  IsReady-Keeps {w} {w'} {cs} k r = record {
    end = r.end;
    archive = record {
      covers = subst (λ fs. Covers 0 fs r.end) (sym k.frames) r.archive.covers;
      held =
          subst (λ fs. Held c fs w'.frames cs) (sym k.files)
            (subst (λ fs. Held c w.files fs cs) (sym k.frames) r.archive.held);
    };
    numbered = subst (Numbered r.end) (sym k.active) r.numbered;
    stored = subst (All (IsStored c.sha256)) (sym k.active) r.stored;
    next_id =
        k.next_id ∙ r.next_id ∙ ap (λ (bs : List StoredBlock). r.end + length bs) (sym k.active);
    word = subst (λ n. n ≤ u64_max) (sym k.next_id) r.word;
    wire = k.active_wire_bytes ∙ r.wire ∙ ap wire_size (sym k.active);
    journal = k.journal ∙ r.journal ∙ ap (journal_for c) (sym k.active);
    alive = k.poisoned ∙ r.alive;
    frame_bytes = subst (λ o. o.frame_bytes ≤ max_block_bytes) (sym k.options) r.frame_bytes;
  }

  module _ (io : Script) where
    pub Quiet-preflight_pending_manifest : (n : ℕ) → Quiet (preflight_pending_manifest c io n)
    unfolding preflight_pending_manifest
    Quiet-preflight_pending_manifest n = Quiet-bind _ _ (Quiet-gets _) λ w.
        Quiet-if _ _ _ (Quiet-pure tt) (
          Quiet-bind _ _ (Quiet-call io) λ opened. Quiet-bind _ _ (Quiet-lift _) λ current.
            Quiet-if _ _ _ (Quiet-pure tt) (
              Quiet-bind _ _ (Quiet-lift _)
                λ len. Quiet-bind _ _ (Quiet-lift _) λ manifest. Quiet-pure tt))

    module _ (w_codec : IsCodec c) where
      -- The flush before a block is taken, and the one after.
      flush_first :
          (w m : ArchiveWriter) (cs : List (List ℕ)) (full : Bool)
          → IsReady c w cs
          → (if full then flush_frame c io else pure tt) w ≡ (ok tt, m)
          → (cs' : List (List ℕ)) × IsReady c m cs'
            × (contents m cs' ≡ contents w cs)
            × (m.next_id ≡ w.next_id)
      flush_first w m cs true r h =
          let (o, none_active, next) = flush_frame-IsOpen c w_codec io w cs r h in
          (
            contents w cs,
            o.ready,
            ap (λ bs. contents w cs ++ map (λ b. b.bytes) bs) none_active
                ∙ append-nil (contents w cs),
            next,
          )
      flush_first w m cs false r h =
          let same_state : w ≡ m = pure_ok tt w h in
          (
            cs,
            subst (λ m. IsReady c m cs) same_state r,
            ap (λ m. contents m cs) (sym same_state),
            ap (λ m. m.next_id) (sym same_state),
          )

      flush_last :
          (w w' : ArchiveWriter) (cs : List (List ℕ)) (ready : Bool)
          → IsReady c w cs
          → must_flush_now w ≡ ok ready
          → (if ready then flush_frame c io else pure tt) w ≡ (ok tt, w')
          → (cs' : List (List ℕ)) × IsOpen c w' cs' × (contents w' cs' ≡ contents w cs)
      flush_last w w' cs true r now h =
          let (o, none_active, next) = flush_frame-IsOpen c w_codec io w cs r h in
          (
            contents w cs,
            o,
            ap (λ bs. contents w cs ++ map (λ b. b.bytes) bs) none_active
                ∙ append-nil (contents w cs),
          )
      flush_last w w' cs false r now h =
          let same_state : w ≡ w' = pure_ok tt w h in
          (
            cs,
            subst (λ m. IsOpen c m cs) same_state (kept-IsOpen c w cs r now),
            ap (λ m. contents m cs) (sym same_state),
          )

      -- From the taking of a block on.
      take_block :
          (block : List ℕ) (w m₁ m₂ m₃ w' : ArchiveWriter) (cs : List (List ℕ)) (ready : Bool)
          → IsReady c w cs
          → 0 < length block
          → length block ≤ max_block_bytes
          → w.next_id < u64_max
          → preflight_pending_manifest c io (length block) w ≡ (ok tt, m₁)
          → journal_block c io block m₁ ≡ (ok tt, m₂)
          → activate_block c io block m₂ ≡ (ok tt, m₃)
          → must_flush_now m₃ ≡ ok ready
          → (if ready then flush_frame c io else pure tt) m₃ ≡ (ok tt, w')
          → (cs' : List (List ℕ)) × IsOpen c w' cs'
            × (contents w' cs' ≡ contents w cs ++ block ∷ [])
      take_block block w m₁ m₂ m₃ w' cs ready r pos small word e₁ e₂ e₃ now e₄ =
          let k = Quiet-ok (Quiet-preflight_pending_manifest (length block)) e₁ in
          let (r', active) =
            taken c m₁ m₂ m₃ block cs (IsReady-Keeps k r) pos small (omega (arith, k.next_id))
              (journal_block-Journals io c block m₁ e₂) (activate_block_ok c io block m₂ e₃) in
          let (cs', o, same_blocks) = flush_last m₃ w' cs ready r' now e₄ in
          (
            cs',
            o,
            same_blocks
                ∙ ap (λ bs. cs ++ map (λ b. b.bytes) bs) active
                ∙ ap (λ bs. cs ++ bs) (map-append_one m₁.active (block_of c m₁ block))
                ∙ ap (λ bs. cs ++ (map (λ b. b.bytes) bs ++ block ∷ [])) k.active
                ∙ sym (append_assoc cs (map (λ b. b.bytes) w.active) (block ∷ [])),
          )

      accept_block-IsOpen :
          (block : List ℕ) (w : ArchiveWriter) {w' : ArchiveWriter} (cs : List (List ℕ))
          → IsReady c w cs
          → 0 < length block
          → length block ≤ max_block_bytes
          → w.next_id < u64_max
          → accept_block c io block w ≡ (ok tt, w')
          → (cs' : List (List ℕ)) × IsOpen c w' cs'
            × (contents w' cs' ≡ contents w cs ++ block ∷ [])
      unfolding accept_block
      accept_block-IsOpen block w {w'} cs r pos small word h =
          let (frames, m₀, e₀, h₀) = >>=-eq-ok (gets (λ w. w.frames)) _ w h in
          let (_, m₁, e₁, h₁) =
            >>=-eq-ok (lift (refuse (leb max_archive_frames (length frames)) exceeds_limit)) _ m₀
              h₀ in
          let (_, m₂, e₂, h₂) =
            >>=-eq-ok (preflight_pending_manifest c io (length block)) _ m₁ h₁ in
          let (_, m₃, e₃, h₃) = >>=-eq-ok (journal_block c io block) _ m₂ h₂ in
          let (_, m₄, e₄, h₄) = >>=-eq-ok (activate_block c io block) _ m₃ h₃ in
          let (full, m₅, e₅, h₅) = >>=-eq-ok (gets must_flush_now) _ m₄ h₄ in
          let (ready, m₆, e₆, h₆) = >>=-eq-ok (lift full) _ m₅ h₅ in
          let start : w ≡ m₁ = (gets_ok _ w e₀).1 ∙ (lift_ok _ m₀ e₁).1 in
          let (is_full, s₅) = gets_ok must_flush_now m₄ e₅ in
          let (is_ready, s₆) = lift_ok full m₅ e₆ in
          take_block block w m₂ m₃ m₄ w' cs ready r pos small word
            (ap (preflight_pending_manifest c io (length block)) start ∙ e₂) e₃ e₄
            (is_full ∙ is_ready) (ap (if ready then flush_frame c io else pure tt) (s₅ ∙ s₆) ∙ h₆)

      -- If `append` succeeds on a writer in order, then whatever it flushed the writer is in order, and the
      -- blocks in the archive and the active ones are, one after the other, those from before and the new one.
      pub append-IsOpen :
          (block : List ℕ) (w : ArchiveWriter) {w' : ArchiveWriter} (cs : List (List ℕ))
          → IsOpen c w cs
          → append c io block w ≡ (ok tt, w')
          → (cs' : List (List ℕ)) × IsOpen c w' cs'
            × (contents w' cs' ≡ contents w cs ++ block ∷ [])
      unfolding append
      append-IsOpen block w {w'} cs o h =
          let (v, m₀, e₀, h₀) = >>=-eq-ok (gets (λ w. w)) _ w h in
          let (_, m₁, e₁, h₁) = >>=-eq-ok (lift (refuse_block block v)) _ m₀ h₀ in
          let (full, m₂, e₂, h₂) = >>=-eq-ok (lift (must_flush_first v (length block))) _ m₁ h₁ in
          let (_, m₃, e₃, h₃) = >>=-eq-ok (if full then flush_frame c io else pure tt) _ m₂ h₂ in
          let (is_w, s₀) = gets_ok (λ w. w) w e₀ in
          let (fine, s₁) = lift_ok (refuse_block block v) m₀ e₁ in
          let (_, s₂) = lift_ok (must_flush_first v (length block)) m₁ e₂ in
          let (pos, small, not_last) =
            refuse_block_ok block w (ap (refuse_block block) is_w ∙ fine) in
          let (cs', r, same_blocks, next) =
            flush_first w m₃ cs full o.ready
              (ap (if full then flush_frame c io else pure tt) (s₀ ∙ s₁ ∙ s₂) ∙ e₃) in
          let (cs'', o', appended) =
            accept_block-IsOpen block m₃ cs' r pos small (omega (arith, o.ready.word)) h₃ in
          (cs'', o', appended ∙ ap (λ t. t ++ block ∷ []) same_blocks)
