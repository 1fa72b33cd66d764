-- ===== src/Store/Publish/Archived.antt =====
-- A call of `publish_blocks` in recording/store.rs that succeeds has put the blocks into the archive.
use vim_config.Prelude.{
  ℕ, ◌+◌, ◌≤◌, ◌<◌, ◌≡◌, sym, ap, subst, ◌∙◌, List, [], ◌∷◌, ◌++◌, map, length, arith, true, All,
  none, ltb,
}
use vim_config.Outcome.{Result, ok, refuse, u64_max, invalid, exceeds_limit}
use vim_config.Store.{FrameHeader, FrameInfo, StoredBlock, max_blocks_per_frame}
use vim_config.Store.Filename.{frame_filename}
use vim_config.Store.Payload.RoundTrip.{Hashed}
use vim_config.Store.Sequence.{Covers}
use vim_config.Store.Frame.{Codec, IsCodec, seal_frame, verify_frame}
use vim_config.Store.Frame.Header.{Numbered}
use vim_config.Store.Frame.Verified.{verify_frame-seal_frame, seal_frame-kept}
use vim_config.Store.Action.{Script, ArchiveWriter, lift, gets, ◌>>=◌, >>=-eq-ok}
use vim_config.Store.Publish.{
  find_file, breaks_windows, breaks_start, last_id, write_frame, store_as, store_frame,
  settle_frames, publish_blocks,
}
use vim_config.Store.Publish.Quiet.{lift_ok, gets_ok}
use vim_config.Store.Publish.Held.{
  Held, Held-append, Covers-append, sort_frames-Covers, find_file-Held, last_id-Numbered,
}
use vim_config.Store.Publish.Published.{Adds, Clears, write_frame-Adds, settle_frames-Clears}

-- The files hold the blocks `cs`, whose ids are those below `end`.
pub record Archive (c : Codec) (w : ArchiveWriter) (end : ℕ) (cs : List (List ℕ)) : Type 0 where
  pub covers : Covers 0 w.frames end
  pub held : Held c w.files w.frames cs

-- What a successful call leaves: no journal, and the other fields as they were.
pub record Published (w w' : ArchiveWriter) : Type 0 where
  pub journal : w'.journal ≡ none
  pub options : w'.options ≡ w.options
  pub active : w'.active ≡ w.active
  pub active_wire_bytes : w'.active_wire_bytes ≡ w.active_wire_bytes
  pub next_id : w'.next_id ≡ w.next_id
  pub poisoned : w'.poisoned ≡ w.poisoned

Adds-Clears :
    {added : List (List ℕ × List ℕ)} {f : FrameInfo} {w mid w' : ArchiveWriter}
    → Adds added f w mid
    → Clears mid w'
    → Published w w'
Adds-Clears a k = record {
  journal = k.journal;
  options = k.options ∙ a.options;
  active = k.active ∙ a.active;
  active_wire_bytes = k.active_wire_bytes ∙ a.active_wire_bytes;
  next_id = k.next_id ∙ a.next_id;
  poisoned = k.poisoned ∙ a.poisoned;
}

module _ (c : Codec) (io : Script) where
  -- A new name takes the branch that writes.
  store_frame_new :
      (name file : List ℕ) (h : FrameHeader) (f : FrameInfo) (w : ArchiveWriter)
      {r : Result (Unit {0}) × ArchiveWriter}
      → find_file name w.files ≡ none
      → store_frame c io name file h f w ≡ r
      → write_frame c io name file f w ≡ r
  unfolding store_frame store_as gets ◌>>=◌
  store_frame_new name file h f w e s = sym (ap (λ o. store_as c io name file h f o w) e) ∙ s

  -- The steps of `publish_blocks` that succeeded.
  record Steps (b : StoredBlock) (bs : List StoredBlock) (w w' : ArchiveWriter) : Type 0 where
    file : List ℕ
    header : FrameHeader
    info : FrameInfo
    mid : ArchiveWriter
    sealed : seal_frame c (b ∷ bs) b.id (last_id b bs) ≡ ok (file, header, info)
    stored : store_frame c io info.name file header info w ≡ (ok tt, mid)
    settled : settle_frames c io true mid ≡ (ok tt, w')

  publish_blocks-Steps :
      (b : StoredBlock) (bs : List StoredBlock) (w : ArchiveWriter) {w' : ArchiveWriter}
      → publish_blocks c io (b ∷ bs) true w ≡ (ok tt, w')
      → Steps b bs w w'
  unfolding publish_blocks
  publish_blocks-Steps b bs w {w'} h =
      let (_, m₁, e₁, h₁) =
        >>=-eq-ok (lift (refuse (ltb max_blocks_per_frame (length (b ∷ bs))) exceeds_limit)) _ w
          h in
      let (_, m₂, e₂, h₂) = >>=-eq-ok (lift (refuse (breaks_windows b bs) invalid)) _ m₁ h₁ in
      let (frames, m₃, e₃, h₃) = >>=-eq-ok (gets (λ w. w.frames)) _ m₂ h₂ in
      let (_, m₄, e₄, h₄) = >>=-eq-ok (lift (refuse (breaks_start frames b.id) invalid)) _ m₃ h₃ in
      let (t, m₅, e₅, h₅) = >>=-eq-ok (lift (seal_frame c (b ∷ bs) b.id (last_id b bs))) _ m₄ h₄ in
      let (_, mid, e₆, h₆) = >>=-eq-ok (store_frame c io t.2.name t.0 t.1 t.2) _ m₅ h₅ in
      let same_state : w ≡ m₅ =
        (lift_ok _ w e₁).1
        ∙ (lift_ok _ m₁ e₂).1
        ∙ (gets_ok _ m₂ e₃).1
        ∙ (lift_ok _ m₃ e₄).1
        ∙ (lift_ok _ m₄ e₅).1 in
      record {
        file = t.0;
        header = t.1;
        info = t.2;
        mid = mid;
        sealed = (lift_ok _ m₄ e₅).0;
        stored = ap (store_frame c io t.2.name t.0 t.1 t.2) same_state ∙ e₆;
        settled = h₆;
      }

  module _ (w_codec : IsCodec c) where
    -- A frame that was added behind the others, with what its file is verified as.
    Archive-Adds :
        (name file : List ℕ) (f : FrameInfo) (w mid w' : ArchiveWriter) (end n : ℕ)
        (cs blocks : List (List ℕ))
        → Archive c w end cs
        → Adds ((name, file) ∷ []) f w mid
        → Clears mid w'
        → verify_frame c name file ≡ ok (blocks, f)
        → name ≡ frame_filename f.first f.last
        → f.first ≡ end
        → f.count ≡ n
        → 0 < n
        → f.last + 1 ≡ end + n
        → end + n ≤ u64_max
        → Archive c w' (end + n) (cs ++ blocks)
    Archive-Adds name file f w mid w' end n cs blocks ar a k verified named first count pos last
          fits =
        let covers = Covers-append f ar.covers first (omega arith) (omega arith) (omega arith) in
        let frames : w'.frames ≡ w.frames ++ f ∷ [] =
          k.frames ∙ a.frames ∙ sort_frames-Covers covers in
        let files : w'.files ≡ w.files ++ (name, file) ∷ [] = k.files ∙ a.files in
        record {
          covers =
              subst (λ m. Covers 0 w'.frames (end + m)) count
                (subst (λ fs. Covers 0 fs (end + f.count)) (sym frames) covers);
          held =
              subst (λ fs. Held c fs w'.frames (cs ++ blocks)) (sym files)
                (subst (λ fs. Held c (w.files ++ (name, file) ∷ []) fs (cs ++ blocks)) (sym frames)
                  (Held-append c w.files w.frames cs name file f blocks ar.held verified named));
        }

    -- If publishing succeeds, the archive holds the blocks behind those that it held, the journal is gone, and
    -- the rest of the writer's state is as it was.
    pub publish_blocks-Archive :
        (b : StoredBlock) (bs : List StoredBlock) (w : ArchiveWriter) {w' : ArchiveWriter} (end : ℕ)
        (cs : List (List ℕ))
        → Archive c w end cs
        → Numbered end (b ∷ bs)
        → All (Hashed c.sha256) (b ∷ bs)
        → end + length (b ∷ bs) ≤ u64_max
        → publish_blocks c io (b ∷ bs) true w ≡ (ok tt, w')
        → Archive c w' (end + length (b ∷ bs)) (cs ++ map (λ b. b.bytes) (b ∷ bs)) × Published w w'
    publish_blocks-Archive b bs w {w'} end cs ar num hashed fits h =
        let blocks = b ∷ bs in
        let last = last_id b bs in
        let s = publish_blocks-Steps b bs w h in
        let range : last + 1 ≡ end + length blocks = last_id-Numbered end b bs num in
        let at_end : b.id ≡ end = num.0 in
        let (named, first, last', count) = seal_frame-kept c blocks b.id last s.sealed in
        let verified =
          verify_frame-seal_frame c w_codec blocks b.id last hashed
            (subst (λ n. Numbered n blocks) (sym at_end) num) (omega arith) (omega arith)
            s.sealed in
        let fresh : find_file s.info.name w.files ≡ none =
          subst (λ name. find_file name w.files ≡ none)
            (ap (λ n. frame_filename n last) (sym at_end) ∙ sym named)
            (find_file-Held c w.files cs last ar.covers ar.held (omega arith) (omega arith)) in
        let adds =
          (write_frame-Adds io c s.info.name s.file s.info).run w s.mid tt
            (store_frame_new s.info.name s.file s.header s.info w fresh s.stored) in
        let clears = (settle_frames-Clears io c).run s.mid w' tt s.settled in
        let own_name : s.info.name ≡ frame_filename s.info.first s.info.last =
          named
          ∙ ap (λ n. frame_filename n last) (sym first)
          ∙ ap (frame_filename s.info.first) (sym last') in
        (
          Archive-Adds s.info.name s.file s.info w s.mid w' end (length blocks) cs _ ar adds clears
              (subst (λ name. verify_frame c name s.file ≡ ok (map (λ b. b.bytes) blocks, s.info))
                (sym named) verified)
              own_name (first ∙ at_end) count (omega arith) (omega arith) fits,
          Adds-Clears adds clears,
        )
