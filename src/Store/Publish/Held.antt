-- ===== src/Store/Publish/Held.antt =====
-- What `publish_blocks` of recording/store.rs adds to the archive: the files hold the blocks of the frames.
use vim_config.Prelude.{
  ℕ, ◌+◌, ◌≤◌, ◌<◌, ◌≡◌, refl, sym, ap, ◌∙◌, List, [], ◌∷◌, ◌++◌, length, arith, Bool-cases, inl,
  inr, append_assoc, append-nil, none,
}
use vim_config.Prelude.Bytes.{same, same_eq}
use vim_config.Outcome.{ok, u64_max, ok-injective}
use vim_config.Store.{FrameInfo, StoredBlock}
use vim_config.Store.Filename.{frame_filename, parse_frame_filename}
use vim_config.Store.Filename.RoundTrip.{parse_frame_filename-frame_filename}
use vim_config.Store.Sequence.{Covers, done, next}
use vim_config.Store.Frame.{Codec, verify_frame}
use vim_config.Store.Frame.Header.{Numbered}
use vim_config.Store.Publish.{insert_frame, sort_frames, find_file, last_id}

Covers-le : {n end : ℕ} {frames : List FrameInfo} → Covers n frames end → n ≤ end
Covers-le (done n) = omega arith
Covers-le (next f first count last small rest) = omega (arith, Covers-le rest)

-- One more frame behind the others.
pub Covers-append :
    {n end : ℕ} {frames : List FrameInfo} (f : FrameInfo)
    → Covers n frames end
    → f.first ≡ end
    → 0 < f.count
    → f.last + 1 ≡ end + f.count
    → f.last < u64_max
    → Covers n (frames ++ f ∷ []) (end + f.count)
Covers-append f (done n) first count last small = next f first count last small (done (n + f.count))
Covers-append f (next g first' count' last' small' rest) first count last small =
    next g first' count' last' small' (Covers-append f rest first count last small)

insert_frame-Covers :
    {n m end : ℕ} {frames : List FrameInfo} (f : FrameInfo)
    → Covers m frames end
    → f.first ≡ n
    → n < m
    → insert_frame f frames ≡ f ∷ frames
unfolding insert_frame
insert_frame-Covers f (done m) e h = refl
insert_frame-Covers f (next g first count last small rest) e h = ground arith

-- Frames that cover ids in order are sorted.
pub sort_frames-Covers :
    {n end : ℕ} {frames : List FrameInfo} → Covers n frames end → sort_frames frames ≡ frames
unfolding sort_frames
sort_frames-Covers (done n) = refl
sort_frames-Covers (next f first count last small rest) =
    ap (insert_frame f) (sort_frames-Covers rest) ∙ insert_frame-Covers f rest first (omega arith)

pub last_id-Numbered :
    (first : ℕ) (b : StoredBlock) (bs : List StoredBlock)
    → Numbered first (b ∷ bs)
    → last_id b bs + 1 ≡ first + length (b ∷ bs)
unfolding last_id
last_id-Numbered first b [] num = omega (arith, num.0)
last_id-Numbered first b (a ∷ bs) num = omega (arith, last_id-Numbered (first + 1) a bs num.1)

module _ (c : Codec) where
  -- Each file has the name of its frame and is verified as that frame; the blocks are `cs`.
  abbrev pub Held : List (List ℕ × List ℕ) → List FrameInfo → List (List ℕ) → Type 0
  Held [] [] cs = cs ≡ []
  Held [] (f ∷ frames) cs = ⊥
  Held (file ∷ files) [] cs = ⊥
  Held ((name, bytes) ∷ files) (f ∷ frames) cs =
      (blocks : List (List ℕ)) × (rest : List (List ℕ)) × (cs ≡ blocks ++ rest)
      × (verify_frame c name bytes ≡ ok (blocks, f))
      × (name ≡ frame_filename f.first f.last)
      × Held files frames rest

  pub Held-append :
      (files : List (List ℕ × List ℕ)) (frames : List FrameInfo) (cs : List (List ℕ))
      (name bytes : List ℕ) (f : FrameInfo) (blocks : List (List ℕ))
      → Held files frames cs
      → verify_frame c name bytes ≡ ok (blocks, f)
      → name ≡ frame_filename f.first f.last
      → Held (files ++ (name, bytes) ∷ []) (frames ++ f ∷ []) (cs ++ blocks)
  Held-append [] [] cs name bytes f blocks held e named =
      (blocks, [], ap (λ t. t ++ blocks) held ∙ sym (append-nil blocks), e, named, refl)
  Held-append [] (g ∷ frames) cs name bytes f blocks held e named = absurd held
  Held-append (file ∷ files) [] cs name bytes f blocks held e named = absurd held
  Held-append ((key, old) ∷ files) (g ∷ frames) cs name bytes f blocks
        (first, rest, split, v, n, held) e named =
      (
        first,
        rest ++ blocks,
        ap (λ t. t ++ blocks) split ∙ append_assoc first rest blocks,
        v,
        n,
        Held-append files frames rest name bytes f blocks held e named,
      )

  -- No frame has the name of one that begins behind all of them.
  pub find_file-Held :
      (files : List (List ℕ × List ℕ)) {frames : List FrameInfo} (cs : List (List ℕ)) {n end : ℕ}
      (last : ℕ)
      → Covers n frames end
      → Held files frames cs
      → end ≤ u64_max
      → last ≤ u64_max
      → find_file (frame_filename end last) files ≡ none
  unfolding find_file
  find_file-Held [] cs last (done n) held he hl = refl
  find_file-Held (file ∷ files) cs last (done n) held he hl = absurd held
  find_file-Held [] cs last (next f first count l small rest) held he hl = absurd held
  find_file-Held ((key, old) ∷ files) cs {end} last (next f first count l small rest)
        (blocks, others, split, v, n, held) he hl =
      let below = Covers-le rest in
      elim (Bool-cases (same key (frame_filename end last))) [
        | inr differs ↦ rw differs (find_file-Held files others last rest held he hl)
        | inl equal ↦
            let names : frame_filename f.first f.last ≡ frame_filename end last =
              sym n ∙ same_eq key (frame_filename end last) equal in
            let ids =
              sym (parse_frame_filename-frame_filename f.first f.last (omega arith) (omega arith))
              ∙ ap parse_frame_filename names
              ∙ parse_frame_filename-frame_filename end last he hl in
            let firsts : f.first ≡ end = ap (λ (p : ℕ × ℕ). p.0) (ok-injective ids) in
            absurd (omega arith)
      ]
