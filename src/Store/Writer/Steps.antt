-- ===== src/Store/Writer/Steps.antt =====
-- The steps of `append` in recording/store.rs whose failure poisons the writer or leaves it in order.
use vim_config.Prelude.{
  ℕ, ◌+◌, ◌≤◌, ◌<◌, ◌≡◌, ◌⊎◌, inl, inr, refl, sym, ap, subst, ◌∙◌, List, [], ◌∷◌, ◌++◌, map, length,
  arith, Bool, true, false, Bool-cases, if◌then◌else◌, leb,
}
use vim_config.Outcome.{Error, Result, ok, err, ok_or, checked, overflow, u64_max, poisoned}
use vim_config.Wire.Put.{max_block_bytes}
use vim_config.Store.{StoredBlock, max_blocks_per_frame}
use vim_config.Store.Uvarint.{varint_len}
use vim_config.Store.Uvarint.RoundTrip.{varint_len_bounds}
use vim_config.Store.Frame.{Codec}
use vim_config.Store.Action.{Script, ArchiveWriter, Action, pure, lift, gets, modify, ◌>>=◌}
use vim_config.Store.Publish.{ensure_capacity_at}
use vim_config.Store.Publish.Quiet.{Keeps, Quiet-ensure_capacity_at, gets_ok}
use vim_config.Store.Writer.Leaves.{
  Leaves, Leaves-bind, Leaves-lift_ok, Leaves-gets, Leaves-pure, Leaves-Quiet, Leaves-modify,
}
use vim_config.Store.Writer.{
  payload_len, current_payload_len, must_flush_now, poison_on, journal_lines, journal_block,
  activate_block, flush_blocks, flush_frame,
}
use vim_config.Store.Writer.Flushed.{wire_size, IsOpen}
use vim_config.Store.Writer.Journaled.{line_of}
use vim_config.Store.Writer.Refines.{contents, IsReady-Keeps}

poison_on-poisoned :
    (p : Result (Unit {0}) × ArchiveWriter) {e : Error} {w' : ArchiveWriter}
    → poison_on p ≡ (err e, w')
    → w'.poisoned ≡ true
unfolding poison_on
poison_on-poisoned (ok tt, w) h = absurd (cc)
poison_on-poisoned (err x, w) h = sym (ap (λ p. p.1.poisoned) h)

module _ (c : Codec) where
  -- A writer in order that holds the blocks `bs`.
  abbrev pub Sound : List (List ℕ) → ArchiveWriter → Type 0
  Sound bs w = (cs : List (List ℕ)) × IsOpen c w cs × (contents w cs ≡ bs)

  -- A writer that refuses all calls from now on, or is as it was before.
  abbrev pub Safe : List (List ℕ) → ArchiveWriter → Type 0
  Safe bs w = (w.poisoned ≡ true) ⊎ ((cs : List (List ℕ)) × IsOpen c w cs × (contents w cs ≡ bs))

  pub Sound-Keeps :
      (bs : List (List ℕ)) {w w' : ArchiveWriter} → Keeps w w' → Sound bs w → Sound bs w'
  Sound-Keeps bs {w} {w'} k (cs, o, e) = (
    cs,
    record {
      ready = IsReady-Keeps c k o.ready;
      few = subst (λ (t : List StoredBlock). length t < max_blocks_per_frame) (sym k.active) o.few;
      small = subst (λ t. wire_size t ≤ max_block_bytes) (sym k.active) o.small;
    },
    ap (λ t. cs ++ map (λ b. b.bytes) t) k.active ∙ e,
  )

module _ (c : Codec) (io : Script) where
  flush_blocks-poisoned :
      (bs : List StoredBlock) (w : ArchiveWriter) {e : Error} {w' : ArchiveWriter}
      → flush_blocks c io bs w ≡ (err e, w')
      → w'.poisoned ≡ true
  unfolding flush_blocks
  flush_blocks-poisoned [] w h = absurd (cc)
  flush_blocks-poisoned (b ∷ bs) w h = poison_on-poisoned _ h

  flush_if :
      (dead : Bool) (w : ArchiveWriter) {e : Error} {w' : ArchiveWriter}
      → w.poisoned ≡ dead
      → (if dead then (err poisoned, w) else flush_blocks c io w.active w) ≡ (err e, w')
      → w'.poisoned ≡ true
  flush_if true w d h = ap (λ w. w.poisoned) (sym (ap (λ p. p.1) h)) ∙ d
  flush_if false w d h = flush_blocks-poisoned w.active w h

  -- If flushing fails, the writer is poisoned.
  pub flush_frame-poisoned :
      (w : ArchiveWriter) {e : Error} {w' : ArchiveWriter}
      → flush_frame c io w ≡ (err e, w')
      → w'.poisoned ≡ true
  unfolding flush_frame
  flush_frame-poisoned w h = flush_if w.poisoned w refl h

  Leaves-poison_on :
      (bs : List (List ℕ)) (m : Action (Unit {0})) (w : ArchiveWriter)
      → Leaves (Safe c bs) (λ w. poison_on (m w)) w
  Leaves-poison_on bs m w = record { run = λ h. inl (poison_on-poisoned _ h) }

  Leaves-flush_frame :
      (bs : List (List ℕ)) (w : ArchiveWriter) → Leaves (Safe c bs) (flush_frame c io) w
  Leaves-flush_frame bs w = record { run = λ h. inl (flush_frame-poisoned w h) }

  pub Leaves-flush_if :
      (bs : List (List ℕ)) (full : Bool) (w : ArchiveWriter)
      → Leaves (Safe c bs) (if full then flush_frame c io else pure tt) w
  Leaves-flush_if bs true w = Leaves-flush_frame bs w
  Leaves-flush_if bs false w = Leaves-pure (Safe c bs) tt w

  -- The free room that was found is enough for the sum behind the writing.
  ensure_capacity_at_sum :
      (n : ℕ) (w : ArchiveWriter) {w' : ArchiveWriter}
      → ensure_capacity_at io n w ≡ (ok tt, w')
      → ok_or (checked u64_max (w.usage_bytes + n)) overflow ≡ ok (w.usage_bytes + n)
  unfolding ensure_capacity_at gets lift ◌>>=◌
  ensure_capacity_at_sum n w h = ground arith

  pub Leaves-journal_block :
      (bs : List (List ℕ)) (block : List ℕ) (w : ArchiveWriter)
      → Sound c bs w
      → Leaves (Safe c bs) (journal_block c io block) w
  unfolding journal_block
  Leaves-journal_block bs block w s =
      Leaves-bind (Safe c bs) _ _ w (Leaves-gets (Safe c bs) _ w) λ v m₁ e₁.
        let (is_w, s₁) = gets_ok (λ w. w) w e₁ in
        let new = journal_lines v.journal (line_of c v block) in
        Leaves-bind (Safe c bs) _ _ m₁
          (Leaves-Quiet (Safe c bs) _ m₁ (Quiet-ensure_capacity_at io (length new))
            (λ w' k. inr (Sound-Keeps c bs k (subst (Sound c bs) s₁ s))))
          λ _ m₂ e₂. Leaves-bind (Safe c bs) _ _ m₂ (Leaves-poison_on bs _ m₂) λ _ m₃ e₃.
            Leaves-bind (Safe c bs) _ _ m₃
              (Leaves-lift_ok (Safe c bs) _ m₃ (
                subst
                  (λ (x : ArchiveWriter).
                    ok_or (checked u64_max (x.usage_bytes + length new)) overflow
                    ≡ ok (x.usage_bytes + length new))
                  (sym s₁ ∙ is_w) (ensure_capacity_at_sum (length new) m₁ e₂)))
              λ used m₄ e₄. Leaves-modify (Safe c bs) _ m₄

-- The share of a block in the payload fits a word, whatever the active blocks take.
pub wire_sum :
    (n : ℕ) (block : List ℕ)
    → n ≤ max_block_bytes
    → length block ≤ max_block_bytes
    → (n + (varint_len (length block) + length block) ≤ max_block_bytes + (10 + max_block_bytes))
wire_sum n block small fits = omega (arith, (varint_len_bounds (length block) (omega arith)).1)

payload_len_ok :
    (count wire : ℕ)
    → count ≤ max_blocks_per_frame
    → wire ≤ max_block_bytes + (10 + max_block_bytes)
    → payload_len count wire ≡ ok (4 + varint_len count + wire)
unfolding payload_len
payload_len_ok count wire few small =
    let len = (varint_len_bounds count (omega arith)).1 in ground arith

module _ (w : ArchiveWriter) where
  -- The test behind the taking of a block makes no error.
  pub must_flush_now_ok :
      length w.active ≤ max_blocks_per_frame
      → w.active_wire_bytes ≤ max_block_bytes + (10 + max_block_bytes)
      → (ready : Bool) × (must_flush_now w ≡ ok ready)
  unfolding must_flush_now current_payload_len
  must_flush_now_ok few small = elim (Bool-cases (leb max_blocks_per_frame (length w.active))) [
    | inl full ↦ (true, rw full)
    | inr room ↦ (
      leb w.options.frame_bytes (4 + varint_len (length w.active) + w.active_wire_bytes),
      rw (room, payload_len_ok (length w.active) w.active_wire_bytes few small),
    )
  ]

  pub Leaves-activate_block :
      (c : Codec) (io : Script) (P : ArchiveWriter → Type 0) (block : List ℕ)
      → w.active_wire_bytes + (varint_len (length block) + length block)
        ≤ max_block_bytes + (10 + max_block_bytes)
      → Leaves P (activate_block c io block) w
  unfolding activate_block gets lift modify ◌>>=◌
  Leaves-activate_block c io P block small = record { run = λ h. ground arith }
