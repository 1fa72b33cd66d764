-- ===== src/Store/Writer/Failed.antt =====
-- A call of `append` in recording/store.rs that fails.
use vim_config.Prelude.{
  ℕ, ◌+◌, ◌≤◌, ◌≡◌, ◌⊎◌, inr, refl, sym, ap, subst, ◌∙◌, List, [], ◌∷◌, ◌++◌, map, length, arith,
  append-nil, Bool, true, false, if◌then◌else◌, length-append,
}
use vim_config.Outcome.{Error, ok, err}
use vim_config.Wire.Put.{max_block_bytes}
use vim_config.Store.{StoredBlock}
use vim_config.Store.Uvarint.{varint_len}
use vim_config.Store.Frame.{Codec, IsCodec}
use vim_config.Store.Action.{Script, ArchiveWriter, pure}
use vim_config.Store.Publish.Quiet.{Quiet-ok, lift_ok, gets_ok, pure_ok}
use vim_config.Store.Writer.Leaves.{
  Leaves, Leaves-bind, Leaves-lift, Leaves-lift_ok, Leaves-gets, Leaves-Quiet,
}
use vim_config.Store.Writer.{
  must_flush_now, accept_block, journal_block, activate_block, flush_frame, append,
}
use vim_config.Store.Writer.Flushed.{IsOpen, flush_frame-IsOpen}
use vim_config.Store.Writer.Journaled.{block_of, journal_block-Journals, activate_block_ok}
use vim_config.Store.Writer.Refines.{contents, refuse_block_ok, Quiet-preflight_pending_manifest}
use vim_config.Store.Writer.Steps.{
  Sound, Safe, Sound-Keeps, Leaves-flush_if, Leaves-journal_block, wire_sum, must_flush_now_ok,
  Leaves-activate_block,
}

module _ (c : Codec) (io : Script) (bs : List (List ℕ)) where
  -- What was journaled leaves room for the sums behind it.
  journaled_wire :
      (block : List ℕ) (m₂ m₃ : ArchiveWriter)
      → Sound c bs m₂
      → length block ≤ max_block_bytes
      → journal_block c io block m₂ ≡ (ok tt, m₃)
      → m₃.active_wire_bytes + (varint_len (length block) + length block)
        ≤ max_block_bytes + (10 + max_block_bytes)
  journaled_wire block m₂ m₃ (cs, o, _) small h =
      let j = journal_block-Journals io c block m₂ h in
      let wire = o.ready.wire in
      wire_sum m₃.active_wire_bytes block (omega (arith, j.active_wire_bytes, wire, o.small)) small

  ready_after :
      (block : List ℕ) (m₂ m₃ m₄ : ArchiveWriter)
      → Sound c bs m₂
      → length block ≤ max_block_bytes
      → journal_block c io block m₂ ≡ (ok tt, m₃)
      → activate_block c io block m₃ ≡ (ok tt, m₄)
      → (ready : Bool) × (must_flush_now m₄ ≡ ok ready)
  ready_after block m₂ m₃ m₄ (cs, o, e) small h a =
      let j = journal_block-Journals io c block m₂ h in
      let set = activate_block_ok c io block m₃ a in
      let few = o.few in
      let wire = journaled_wire block m₂ m₃ (cs, o, e) small h in
      must_flush_now_ok m₄
        (omega (
          arith,
          few,
          ap (λ m. length m.active) set,
          length-append m₃.active (block_of c m₃ block ∷ []),
          ap (λ (t : List StoredBlock). length t) j.active,
        ))
        (omega (arith, wire, ap (λ m. m.active_wire_bytes) set))

  Leaves-accept_block :
      (block : List ℕ) (w : ArchiveWriter)
      → Sound c bs w
      → length block ≤ max_block_bytes
      → Leaves (Safe c bs) (accept_block c io block) w
  unfolding accept_block
  Leaves-accept_block block w s small =
      let P = Safe c bs in
      Leaves-bind P _ _ w (Leaves-gets P _ w) λ frames m₀ e₀.
        let s₀ = subst (Sound c bs) (gets_ok (λ w. w.frames) w e₀).1 s in
        Leaves-bind P _ _ m₀ (Leaves-lift P _ m₀ (inr s₀)) λ _ m₁ e₁.
          let s₁ = subst (Sound c bs) (lift_ok _ m₀ e₁).1 s₀ in
          let quiet = Quiet-preflight_pending_manifest c io (length block) in
          Leaves-bind P _ _ m₁ (Leaves-Quiet P _ m₁ quiet (λ w' k. inr (Sound-Keeps c bs k s₁)))
            λ _ m₂ e₂.
              let s₂ = Sound-Keeps c bs (Quiet-ok quiet e₂) s₁ in
              Leaves-bind P _ _ m₂ (Leaves-journal_block c io bs block m₂ s₂) λ _ m₃ e₃.
                Leaves-bind P _ _ m₃
                  (Leaves-activate_block m₃ c io P block (journaled_wire block m₂ m₃ s₂ small e₃))
                  λ _ m₄ e₄. Leaves-bind P _ _ m₄ (Leaves-gets P _ m₄) λ now_full m₅ e₅.
                    let (ready, now) = ready_after block m₂ m₃ m₄ s₂ small e₃ e₄ in
                    Leaves-bind P _ _ m₅
                      (Leaves-lift_ok P _ m₅ (sym (gets_ok must_flush_now m₄ e₅).0 ∙ now))
                      λ ready m₆ e₆. Leaves-flush_if c io bs ready m₆

  module _ (w_codec : IsCodec c) where
    pub flushed-Sound :
        (w m : ArchiveWriter) (full : Bool)
        → Sound c bs w
        → (if full then flush_frame c io else pure tt) w ≡ (ok tt, m)
        → Sound c bs m
    flushed-Sound w m true (cs, o, e) h =
        let (o', none_active, next) = flush_frame-IsOpen c w_codec io w cs o.ready h in
        (
          contents w cs,
          o',
          ap (λ bs. contents w cs ++ map (λ b. b.bytes) bs) none_active
              ∙ append-nil (contents w cs)
              ∙ e,
        )
    flushed-Sound w m false s h = subst (Sound c bs) (pure_ok tt w h) s

    Leaves-append :
        (block : List ℕ) (w : ArchiveWriter)
        → Sound c bs w
        → Leaves (Safe c bs) (append c io block) w
    unfolding append
    Leaves-append block w s =
        let P = Safe c bs in
        Leaves-bind P _ _ w (Leaves-gets P _ w) λ v m₀ e₀.
          let s₀ = subst (Sound c bs) (gets_ok (λ w. w) w e₀).1 s in
          Leaves-bind P _ _ m₀ (Leaves-lift P _ m₀ (inr s₀)) λ _ m₁ e₁.
            let s₁ = subst (Sound c bs) (lift_ok _ m₀ e₁).1 s₀ in
            let (pos, small, last) = refuse_block_ok block v (lift_ok _ m₀ e₁).0 in
            Leaves-bind P _ _ m₁ (Leaves-lift P _ m₁ (inr s₁)) λ full m₂ e₂.
              let s₂ = subst (Sound c bs) (lift_ok _ m₁ e₂).1 s₁ in
              Leaves-bind P _ _ m₂ (Leaves-flush_if c io bs full m₂)
                λ _ m₃ e₃. Leaves-accept_block block m₃ (flushed-Sound m₂ m₃ full s₂ e₃) small

-- If `append` fails on a writer in order, the writer is poisoned, or it is in order and holds the same blocks.
pub append-Safe :
    (c : Codec) (w_codec : IsCodec c) (io : Script) (block : List ℕ) (w : ArchiveWriter) {e : Error}
    {w' : ArchiveWriter} (cs : List (List ℕ))
    → IsOpen c w cs
    → append c io block w ≡ (err e, w')
    → (w'.poisoned ≡ true)
      ⊎ ((cs' : List (List ℕ)) × IsOpen c w' cs' × (contents w' cs' ≡ contents w cs))
append-Safe c w_codec io block w cs o h =
    (Leaves-append c io (contents w cs) w_codec block w (cs, o, refl)).run h
