-- ===== src/Store/Publish/Published.antt =====
-- A call of `publish_blocks` in recording/store.rs that succeeds.
use vim_config.Prelude.{
  ℕ, ◌-◌, ◌≡◌, refl, sym, ap, subst, ◌∙◌, List, [], ◌∷◌, ◌++◌, length, append-nil, true, Option,
  none, some,
}
use vim_config.Outcome.{ok}
use vim_config.Store.{FrameInfo}
use vim_config.Store.Frame.{Codec}
use vim_config.Store.Action.{Script, ArchiveWriter, pure, gets, modify, ◌>>=◌, >>=-eq-ok, call}
use vim_config.Store.Publish.{
  sort_frames, remove_if, remove_journal, push_frame, write_frame, settle_frames,
}
use vim_config.Store.Publish.Quiet.{
  Keeps, Quiet-ok, Quiet-bind, Quiet-call, Quiet-preflight_publication, Quiet-rebuild_manifest,
  Quiet-usage, Quiet-pure, Quiet-gets, Quiet-lift, Does, Does-Quiet, Does-modify_bind, Does-modify,
  Does-Keeps, gets_ok,
}

-- `added` more files and one more frame; the blocks and their numbers are kept.
pub record Adds (added : List (List ℕ × List ℕ)) (f : FrameInfo) (w w' : ArchiveWriter)
    : Type 0 where
  pub files : w'.files ≡ w.files ++ added
  pub frames : w'.frames ≡ sort_frames (w.frames ++ f ∷ [])
  pub options : w'.options ≡ w.options
  pub active : w'.active ≡ w.active
  pub active_wire_bytes : w'.active_wire_bytes ≡ w.active_wire_bytes
  pub next_id : w'.next_id ≡ w.next_id
  pub poisoned : w'.poisoned ≡ w.poisoned

module _ (added : List (List ℕ × List ℕ)) (f : FrameInfo) where
  Adds-absorb : (w mid w' : ArchiveWriter) → Keeps w mid → Adds added f mid w' → Adds added f w w'
  Adds-absorb w mid w' k a = record {
    files = a.files ∙ ap (λ t. t ++ added) k.files;
    frames = a.frames ∙ ap (λ t. sort_frames (t ++ f ∷ [])) k.frames;
    options = a.options ∙ k.options;
    active = a.active ∙ k.active;
    active_wire_bytes = a.active_wire_bytes ∙ k.active_wire_bytes;
    next_id = a.next_id ∙ k.next_id;
    poisoned = a.poisoned ∙ k.poisoned;
  }

Adds-file :
    (name file : List ℕ) (f : FrameInfo) (w w' : ArchiveWriter)
    → Adds [] f (record w { files = w.files ++ (name, file) ∷ [] }) w'
    → Adds ((name, file) ∷ []) f w w'
Adds-file name file f w w' a = record {
  files = a.files ∙ append-nil (w.files ++ (name, file) ∷ []);
  frames = a.frames;
  options = a.options;
  active = a.active;
  active_wire_bytes = a.active_wire_bytes;
  next_id = a.next_id;
  poisoned = a.poisoned;
}

Adds-frame :
    (f : FrameInfo) (w : ArchiveWriter)
    → Adds [] f w (record w { frames = sort_frames (w.frames ++ f ∷ []) })
Adds-frame f w = record {
  files = sym (append-nil w.files);
  frames = refl;
  options = refl;
  active = refl;
  active_wire_bytes = refl;
  next_id = refl;
  poisoned = refl;
}

module _ (io : Script) (c : Codec) where
  pub write_frame-Adds :
      (name file : List ℕ) (f : FrameInfo)
      → Does (Adds ((name, file) ∷ []) f) (write_frame c io name file f)
  unfolding write_frame push_frame
  write_frame-Adds name file f =
      let R = Adds ((name, file) ∷ []) f in
      let S = Adds [] f in
      Does-Quiet R (Adds-absorb ((name, file) ∷ []) f)
        (Quiet-preflight_publication io c f (length file))
        λ _. Does-Quiet R (Adds-absorb ((name, file) ∷ []) f) (Quiet-call io) λ _.
          Does-Quiet R (Adds-absorb ((name, file) ∷ []) f) (Quiet-gets _) λ files.
            Does-Quiet R (Adds-absorb ((name, file) ∷ []) f) (Quiet-lift _) λ _.
              Does-Quiet R (Adds-absorb ((name, file) ∷ []) f) (Quiet-call io) λ _.
                Does-modify_bind R S _ (Adds-file name file f) λ _.
                  Does-Quiet S (Adds-absorb [] f) (Quiet-gets _) λ used.
                    Does-Quiet S (Adds-absorb [] f) (Quiet-lift _) λ used'.
                      Does-Quiet S (Adds-absorb [] f) (Quiet-usage used') λ _.
                        Does-Quiet S (Adds-absorb [] f) (Quiet-call io)
                          λ _. Does-modify S _ (Adds-frame f)

-- The journal is gone; the blocks, their numbers and the frames are kept.
pub record Clears (w w' : ArchiveWriter) : Type 0 where
  pub journal : w'.journal ≡ none
  pub files : w'.files ≡ w.files
  pub frames : w'.frames ≡ w.frames
  pub options : w'.options ≡ w.options
  pub active : w'.active ≡ w.active
  pub active_wire_bytes : w'.active_wire_bytes ≡ w.active_wire_bytes
  pub next_id : w'.next_id ≡ w.next_id
  pub poisoned : w'.poisoned ≡ w.poisoned

Clears-before : (w mid w' : ArchiveWriter) → Keeps w mid → Clears mid w' → Clears w w'
Clears-before w mid w' k a = record {
  journal = a.journal;
  files = a.files ∙ k.files;
  frames = a.frames ∙ k.frames;
  options = a.options ∙ k.options;
  active = a.active ∙ k.active;
  active_wire_bytes = a.active_wire_bytes ∙ k.active_wire_bytes;
  next_id = a.next_id ∙ k.next_id;
  poisoned = a.poisoned ∙ k.poisoned;
}

Clears-kept : (w w' : ArchiveWriter) → w.journal ≡ none → Keeps w w' → Clears w w'
Clears-kept w w' e k = record {
  journal = k.journal ∙ e;
  files = k.files;
  frames = k.frames;
  options = k.options;
  active = k.active;
  active_wire_bytes = k.active_wire_bytes;
  next_id = k.next_id;
  poisoned = k.poisoned;
}

Clears-removed :
    (n : ℕ) (w w' : ArchiveWriter)
    → Keeps (record w { journal = none; usage_bytes = n }) w'
    → Clears w w'
Clears-removed n w w' k = record {
  journal = k.journal;
  files = k.files;
  frames = k.frames;
  options = k.options;
  active = k.active;
  active_wire_bytes = k.active_wire_bytes;
  next_id = k.next_id;
  poisoned = k.poisoned;
}

module _ (io : Script) where
  remove_if-Clears :
      (w w' : ArchiveWriter) (a : Unit {0}) (j : Option (List ℕ))
      → w.journal ≡ j
      → remove_if io j w ≡ (ok a, w')
      → Clears w w'
  unfolding remove_if
  remove_if-Clears w w' a none e h = Clears-kept w w' e (Quiet-ok (Quiet-pure tt) h)
  remove_if-Clears w w' a (some bytes) e h = (removing bytes).run w w' a h
    where
      removing :
          (bytes : List ℕ)
          → Does Clears (
              call io >>= λ removed.
              modify (λ w. record w { journal = none; usage_bytes = w.usage_bytes - length bytes })
              >>= λ _. call io >>= λ synced. pure tt)
      removing bytes = Does-Quiet Clears Clears-before (Quiet-call io) λ removed.
          Does-modify_bind Clears Keeps _
            (λ w w'. Clears-removed (w.usage_bytes - length bytes) w w')
            λ _. Does-Keeps (Quiet-bind _ _ (Quiet-call io) λ synced. Quiet-pure tt)

  remove_journal-Clears : Does Clears (remove_journal io)
  unfolding remove_journal
  remove_journal-Clears = record {
    run = λ w w' a h.
        let (j, mid, e, h') = >>=-eq-ok (gets (λ w. w.journal)) (remove_if io) w h in
        let (is_journal, same_state) = gets_ok (λ w. w.journal) w e in
        subst (λ m. Clears m w') (sym same_state)
          (remove_if-Clears mid w' a j (ap (λ m. m.journal) (sym same_state) ∙ is_journal) h');
  }

module _ (io : Script) (c : Codec) where
  pub settle_frames-Clears : Does Clears (settle_frames c io true)
  unfolding settle_frames
  settle_frames-Clears = Does-Quiet Clears Clears-before (Quiet-gets _) λ frames.
      Does-Quiet Clears Clears-before (Quiet-lift _) λ _.
        Does-Quiet Clears Clears-before (Quiet-rebuild_manifest io c) λ _. remove_journal-Clears io
