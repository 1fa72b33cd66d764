-- ===== src/Store/Writer/Session.antt =====
-- Sequences of calls of `append` and `flush_frame` in recording/store.rs on a new archive.
use vim_config.Prelude.{
  ℕ, ◌≤◌, ◌≡◌, ◌⊎◌, inl, inr, refl, sym, ap, subst, ◌∙◌, List, [], ◌∷◌, ◌++◌, map, arith, false,
  true, Option, none, if◌then◌else◌,
}
use vim_config.Outcome.{Error, Result, ok, err, poisoned}
use vim_config.Wire.Put.{max_block_bytes}
use vim_config.Store.{StoreOptions, StoredBlock}
use vim_config.Store.Sequence.{done}
use vim_config.Store.Frame.{Codec, IsCodec}
use vim_config.Store.Action.{Script, ArchiveWriter, lift, gets, ◌>>=◌}
use vim_config.Store.Publish.Held.{Held}
use vim_config.Store.Writer.{append, refuse_block, flush_blocks, flush_frame}
use vim_config.Store.Writer.Flushed.{IsOpen}
use vim_config.Store.Writer.Refines.{append-IsOpen}
use vim_config.Store.Writer.Durable.{Recovers, IsOpen-Recovers}
use vim_config.Store.Writer.Steps.{Sound, flush_frame-poisoned}
use vim_config.Store.Writer.Failed.{flushed-Sound, append-Safe}

-- What `open` makes of an empty archive, which counts some bytes and may have a manifest.
unfoldable pub new_archive : StoreOptions → (usage_bytes : ℕ) → Option (List ℕ) → ArchiveWriter
new_archive options usage_bytes manifest = record {
  options = options;
  frames = [];
  active = [];
  active_wire_bytes = 0;
  usage_bytes = usage_bytes;
  next_id = 0;
  poisoned = false;
  journal = none;
  files = [];
  manifest = manifest;
  calls = 0;
}

-- A state that calls lead to, with the blocks that were accepted until then.
pub data Session (c : Codec) (io : Script) : ArchiveWriter → List (List ℕ) → Type 0 where
  opened :
      (options : StoreOptions) (usage_bytes : ℕ) (manifest : Option (List ℕ))
      → options.frame_bytes ≤ max_block_bytes
      → Session c io (new_archive options usage_bytes manifest) []
  accepted :
      (block : List ℕ) (w w' : ArchiveWriter) (bs : List (List ℕ))
      → Session c io w bs
      → append c io block w ≡ (ok tt, w')
      → Session c io w' (bs ++ block ∷ [])
  refused :
      (block : List ℕ) (e : Error) (w w' : ArchiveWriter) (bs : List (List ℕ))
      → Session c io w bs
      → append c io block w ≡ (err e, w')
      → Session c io w' bs
  flushed :
      (r : Result (Unit {0})) (w w' : ArchiveWriter) (bs : List (List ℕ))
      → Session c io w bs
      → flush_frame c io w ≡ (r, w')
      → Session c io w' bs

new_archive-IsOpen :
    (c : Codec) (options : StoreOptions) (usage_bytes : ℕ) (manifest : Option (List ℕ))
    → options.frame_bytes ≤ max_block_bytes
    → IsOpen c (new_archive options usage_bytes manifest) []
unfolding new_archive
new_archive-IsOpen c options usage_bytes manifest small = record {
  ready = record {
    end = 0;
    archive = record { covers = done 0; held = refl };
    numbered = tt;
    stored = tt;
    next_id = refl;
    word = omega arith;
    wire = refl;
    journal = refl;
    alive = refl;
    frame_bytes = small;
  };
  few = omega arith;
  small = omega arith;
}

module _ (c : Codec) (io : Script) where
  -- A writer that is poisoned refuses every call, and stays as it is.
  refuse_block-poisoned :
      (block : List ℕ) (w : ArchiveWriter) → w.poisoned ≡ true → refuse_block block w ≡ err poisoned
  unfolding refuse_block
  refuse_block-poisoned block w dead = rw dead

  append-poisoned :
      (block : List ℕ) (w : ArchiveWriter)
      → w.poisoned ≡ true
      → append c io block w ≡ (err poisoned, w)
  unfolding append gets lift ◌>>=◌
  append-poisoned block w dead = rw (refuse_block-poisoned block w dead)

  flush_frame-refused :
      (w : ArchiveWriter) → w.poisoned ≡ true → flush_frame c io w ≡ (err poisoned, w)
  unfolding flush_frame
  flush_frame-refused w dead =
      ap (λ dead. if dead then (err poisoned, w) else flush_blocks c io w.active w) dead

  still_poisoned :
      {w w' : ArchiveWriter} {r : Result (Unit {0})} {p : Result (Unit {0}) × ArchiveWriter}
      → p ≡ (err poisoned, w)
      → p ≡ (r, w')
      → w.poisoned ≡ true
      → w'.poisoned ≡ true
  still_poisoned e h dead = ap (λ p. p.1.poisoned) (sym h ∙ e) ∙ dead

module _ (c : Codec) (w_codec : IsCodec c) (io : Script) where
  accepted-Sound :
      (block : List ℕ) (w w' : ArchiveWriter) (bs : List (List ℕ))
      → (w.poisoned ≡ true) ⊎ Sound c bs w
      → append c io block w ≡ (ok tt, w')
      → (w'.poisoned ≡ true) ⊎ Sound c (bs ++ block ∷ []) w'
  accepted-Sound block w w' bs (inl dead) h =
      let refused = append-poisoned c io block w dead in absurd (cc)
  accepted-Sound block w w' bs (inr (cs, o, e)) h =
      let (cs', o', appended) = append-IsOpen c io w_codec block w cs o h in
      inr (cs', o', appended ∙ ap (λ t. t ++ block ∷ []) e)

  refused-Sound :
      (block : List ℕ) (x : Error) (w w' : ArchiveWriter) (bs : List (List ℕ))
      → (w.poisoned ≡ true) ⊎ Sound c bs w
      → append c io block w ≡ (err x, w')
      → (w'.poisoned ≡ true) ⊎ Sound c bs w'
  refused-Sound block x w w' bs (inl dead) h =
      inl (still_poisoned c io (append-poisoned c io block w dead) h dead)
  refused-Sound block x w w' bs (inr (cs, o, e)) h =
      subst (λ bs. (w'.poisoned ≡ true) ⊎ Sound c bs w') e (append-Safe c w_codec io block w cs o h)

  flush_frame-Sound :
      (r : Result (Unit {0})) (w w' : ArchiveWriter) (bs : List (List ℕ))
      → (w.poisoned ≡ true) ⊎ Sound c bs w
      → flush_frame c io w ≡ (r, w')
      → (w'.poisoned ≡ true) ⊎ Sound c bs w'
  flush_frame-Sound r w w' bs (inl dead) h =
      inl (still_poisoned c io (flush_frame-refused c io w dead) h dead)
  flush_frame-Sound (err x) w w' bs (inr s) h = inl (flush_frame-poisoned c io w h)
  flush_frame-Sound (ok tt) w w' bs (inr s) h = inr (flushed-Sound c io bs w_codec w w' true s h)

  Session-Sound :
      {w : ArchiveWriter} {bs : List (List ℕ)}
      → Session c io w bs
      → (w.poisoned ≡ true) ⊎ Sound c bs w
  unfolding new_archive
  Session-Sound (opened options used manifest small) =
      inr ([], new_archive-IsOpen c options used manifest small, refl)
  Session-Sound (accepted block w w' bs s h) = accepted-Sound block w w' bs (Session-Sound s) h
  Session-Sound (refused block e w w' bs s h) = refused-Sound block e w w' bs (Session-Sound s) h
  Session-Sound (flushed r w w' bs s h) = flush_frame-Sound r w w' bs (Session-Sound s) h

  -- Whatever calls of `append` and `flush_frame` are made on a new archive, and however their calls of the system
  -- end: unless a failure has poisoned the writer, the disk alone gives back all blocks that were accepted and
  -- no others, in their order.
  pub Session-Recovers :
      {w : ArchiveWriter} {bs : List (List ℕ)}
      → Session c io w bs
      → (w.poisoned ≡ true)
        ⊎ ((published : List (List ℕ)) × (journaled : List StoredBlock) × Held c w.files w.frames
              published
            × Recovers c w.journal journaled
            × (published ++ map (λ b. b.bytes) journaled ≡ bs))
  Session-Recovers {w} s = elim (Session-Sound s) [
    | inl dead ↦ inl dead
    | inr (cs, o, e) ↦ inr (cs, w.active, o.ready.archive.held, IsOpen-Recovers c w_codec w cs o, e)
  ]
