-- ===== src/Store/Writer/Journaled.antt =====
-- `append` of recording/store.rs makes a block a record of the journal and then one of the active frame.
use vim_config.Prelude.{
  ℕ, ◌+◌, ◌≡◌, refl, sym, ap, subst, ◌∙◌, List, [], ◌∷◌, ◌++◌, length, arith, Option, none, some,
}
use vim_config.Outcome.{ok, ok_or, checked, overflow, u64_max}
use vim_config.Store.{StoredBlock}
use vim_config.Store.Uvarint.{varint_len}
use vim_config.Store.Journal.{journal_record}
use vim_config.Store.Frame.{Codec}
use vim_config.Store.Action.{
  Io, fine, fails, Script, ArchiveWriter, lift, gets, modify, ◌>>=◌, >>=-eq-ok, call,
}
use vim_config.Store.Publish.{ensure_capacity_at}
use vim_config.Store.Publish.Quiet.{
  Keeps, Quiet, Quiet-ok, Quiet-call, Quiet-bind, Quiet-pure, Quiet-usage, Quiet-ensure_capacity_at,
  lift_ok, gets_ok, modify_ok,
}
use vim_config.Store.Writer.{
  journal_write, poison_on, file_bytes, journal_lines, sync_new, write_journal, journal_block,
  activate_block,
}
use vim_config.Store.Writer.Flushed.{poison_on_ok}

-- `bytes` more in the journal, and all else is kept.
pub record Journals (bytes : List ℕ) (w w' : ArchiveWriter) : Type 0 where
  pub journal : w'.journal ≡ some (file_bytes w.journal ++ bytes)
  pub options : w'.options ≡ w.options
  pub frames : w'.frames ≡ w.frames
  pub files : w'.files ≡ w.files
  pub active : w'.active ≡ w.active
  pub active_wire_bytes : w'.active_wire_bytes ≡ w.active_wire_bytes
  pub next_id : w'.next_id ≡ w.next_id
  pub poisoned : w'.poisoned ≡ w.poisoned

Journals-between :
    (bytes : List ℕ) (w a b w' : ArchiveWriter)
    → Keeps w a
    → Journals bytes a b
    → Keeps b w'
    → Journals bytes w w'
Journals-between bytes w a b w' k j l = record {
  journal = l.journal ∙ j.journal ∙ ap (λ t. some (file_bytes t ++ bytes)) k.journal;
  options = l.options ∙ j.options ∙ k.options;
  frames = l.frames ∙ j.frames ∙ k.frames;
  files = l.files ∙ j.files ∙ k.files;
  active = l.active ∙ j.active ∙ k.active;
  active_wire_bytes = l.active_wire_bytes ∙ j.active_wire_bytes ∙ k.active_wire_bytes;
  next_id = l.next_id ∙ j.next_id ∙ k.next_id;
  poisoned = l.poisoned ∙ j.poisoned ∙ k.poisoned;
}

journal_write_ok :
    (old new : List ℕ) (i : Io) {u : Unit {0}}
    → (journal_write old new i).0 ≡ ok u
    → (journal_write old new i).1 ≡ old ++ new
unfolding journal_write
journal_write_ok old new (fine n) e = refl
journal_write_ok old new (fails n) e = cc

Journals-set :
    (w : ArchiveWriter) (journal bytes : List ℕ)
    → journal ≡ file_bytes w.journal ++ bytes
    → Journals bytes w (record w { journal = some journal; calls = w.calls + 1 })
Journals-set w journal bytes e = record {
  journal = ap some e;
  options = refl;
  frames = refl;
  files = refl;
  active = refl;
  active_wire_bytes = refl;
  next_id = refl;
  poisoned = refl;
}

-- The record that `append` makes of a block.
abbrev pub line_of : Codec → ArchiveWriter → List ℕ → List ℕ
line_of c w block = journal_record c.sha256 w.next_id block (c.sha256 block)

module _ (io : Script) (c : Codec) where
  Quiet-sync_new : (old : Option (List ℕ)) → Quiet (sync_new c io old)
  unfolding sync_new
  Quiet-sync_new none = Quiet-bind _ _ (Quiet-call io) λ synced. Quiet-pure tt
  Quiet-sync_new (some bytes) = Quiet-pure tt

  write_journal-Journals :
      (bytes : List ℕ) (w : ArchiveWriter) {w' : ArchiveWriter}
      → write_journal c io bytes w ≡ (ok tt, w')
      → Journals bytes w w'
  unfolding write_journal
  write_journal-Journals bytes w {w'} h =
      let (_, m₁, e₁, h₁) = >>=-eq-ok (call io) _ w h in
      let (old, m₂, e₂, h₂) = >>=-eq-ok (gets (λ w. w.journal)) _ m₁ h₁ in
      let (n, m₃, e₃, h₃) = >>=-eq-ok (gets (λ w. w.calls)) _ m₂ h₂ in
      let wrote = journal_write (file_bytes old) bytes (io n) in
      let (_, m₄, e₄, h₄) =
        >>=-eq-ok (modify (λ w. record w { journal = some wrote.1; calls = w.calls + 1 })) _ m₃
          h₃ in
      let (_, m₅, e₅, h₅) = >>=-eq-ok (lift wrote.0) _ m₄ h₄ in
      let (is_old, s₂) = gets_ok (λ w. w.journal) m₁ e₂ in
      let (_, s₃) = gets_ok (λ w. w.calls) m₂ e₃ in
      let (written, s₅) = lift_ok wrote.0 m₄ e₅ in
      let old₃ : old ≡ m₃.journal = sym is_old ∙ ap (λ m. m.journal) (s₂ ∙ s₃) in
      let set = Journals-set m₃ wrote.1 bytes (
        journal_write_ok (file_bytes old) bytes (io n) written
        ∙ ap (λ t. file_bytes t ++ bytes) old₃) in
      Journals-between bytes w m₃ m₅ w' (subst (Keeps w) (s₂ ∙ s₃) (Quiet-ok (Quiet-call io) e₁))
        (subst (Journals bytes m₃) (modify_ok _ m₃ e₄ ∙ s₅) set)
        (Quiet-ok (Quiet-bind _ _ (Quiet-call io) (λ synced. Quiet-sync_new old)) h₅)

  pub journal_block-Journals :
      (block : List ℕ) (w : ArchiveWriter) {w' : ArchiveWriter}
      → journal_block c io block w ≡ (ok tt, w')
      → Journals (journal_lines w.journal (line_of c w block)) w w'
  unfolding journal_block
  journal_block-Journals block w {w'} h =
      let (v, m₁, e₁, h₁) = >>=-eq-ok (gets (λ w. w)) _ w h in
      let new = journal_lines v.journal (line_of c v block) in
      let (_, m₂, e₂, h₂) = >>=-eq-ok (ensure_capacity_at io (length new)) _ m₁ h₁ in
      let (_, m₃, e₃, h₃) = >>=-eq-ok (λ w. poison_on (write_journal c io new w)) _ m₂ h₂ in
      let (used, m₄, e₄, h₄) =
        >>=-eq-ok (lift (ok_or (checked u64_max (v.usage_bytes + length new)) overflow)) _ m₃ h₃ in
      let (is_w, s₁) = gets_ok (λ w. w) w e₁ in
      let (_, s₄) = lift_ok _ m₃ e₄ in
      subst (λ (x : ArchiveWriter). Journals (journal_lines x.journal (line_of c x block)) w w')
        (sym is_w)
        (Journals-between new w m₂ m₃ w'
          (subst (λ m. Keeps m m₂) (sym s₁)
            (Quiet-ok (Quiet-ensure_capacity_at io (length new)) e₂))
          (write_journal-Journals new m₂ (poison_on_ok _ e₃))
          (subst (λ m. Keeps m w') (sym s₄) (Quiet-ok (Quiet-usage used) h₄)))

-- A block behind the active ones, with its id and its share of the payload.
abbrev pub block_of : Codec → ArchiveWriter → List ℕ → StoredBlock
block_of c w block = record { id = w.next_id; bytes = block; sha256 = c.sha256 block }

pub activate_block_ok :
    (c : Codec) (io : Script) (block : List ℕ) (w : ArchiveWriter) {w' : ArchiveWriter}
    → activate_block c io block w ≡ (ok tt, w')
    → record w {
      active_wire_bytes = w.active_wire_bytes + (varint_len (length block) + length block);
      active = w.active ++ block_of c w block ∷ [];
      next_id = w.next_id + 1;
    }
      ≡ w'
unfolding activate_block gets lift modify ◌>>=◌
activate_block_ok c io block w h = ground arith
