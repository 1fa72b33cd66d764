-- ===== src/Store/Writer/Durable.antt =====
-- What is on the disk after `append` of recording/store.rs has succeeded.
use vim_config.Prelude.{
  ℕ, ◌+◌, ◌*◌, ◌≤◌, ◌≡◌, refl, sym, subst, List, [], ◌∷◌, ◌++◌, map, length, arith, All, Option,
  none, some, length-append,
}
use vim_config.Outcome.{ok}
use vim_config.Store.{StoredBlock, journal_magic, max_blocks_per_frame, max_journal_bytes}
use vim_config.Store.Journal.{read_journal_prefix}
use vim_config.Store.Journal.Reads.{IsStored, record_of, length-record_of}
use vim_config.Store.Journal.Recovered.{
  Follows, records_of, journal_of, read_journal_prefix-journal,
}
use vim_config.Store.Frame.{Codec, IsCodec}
use vim_config.Store.Frame.Header.{Numbered}
use vim_config.Store.Action.{Script, ArchiveWriter}
use vim_config.Store.Publish.Held.{Held}
use vim_config.Store.Writer.{append}
use vim_config.Store.Writer.Flushed.{wire_size, journal_for, IsOpen}
use vim_config.Store.Writer.Refines.{contents, append-IsOpen}

Numbered-Follows-some :
    (n : ℕ) (prev : ℕ) (bs : List StoredBlock)
    → prev + 1 ≡ n
    → Numbered n bs
    → Follows (some prev) bs
Numbered-Follows-some n prev [] e num = tt
Numbered-Follows-some n prev (b ∷ bs) e num =
    (omega (arith, num.0), Numbered-Follows-some (n + 1) b.id bs (omega (arith, num.0)) num.1)

Numbered-Follows : (n : ℕ) (bs : List StoredBlock) → Numbered n bs → Follows none bs
Numbered-Follows n [] num = tt
Numbered-Follows n (b ∷ bs) num = Numbered-Follows-some (n + 1) b.id bs (omega (arith, num.0)) num.1

module _ (c : Codec) where
  -- The blocks that the journal on the disk gives back: none if there is no journal.
  abbrev pub Recovers : Option (List ℕ) → List StoredBlock → Type 0
  Recovers none bs = bs ≡ []
  Recovers (some bytes) bs = read_journal_prefix c.sha256 bytes ≡ ok (bs, none)

module _ (c : Codec) (w_codec : IsCodec c) where
  length-records_of :
      (bs : List StoredBlock)
      → All (IsStored c.sha256) bs
      → length (records_of c.sha256 bs) ≤ wire_size bs + 80 * length bs
  unfolding records_of
  length-records_of [] w = omega arith
  length-records_of (b ∷ bs) w = omega (
    arith,
    length-append (record_of c.sha256 b) (records_of c.sha256 bs),
    length-record_of c.sha256 w_codec.digest b w.0,
    length-records_of bs w.1,
  )

  Recovers-journal_for :
      (bs : List StoredBlock) (n : ℕ)
      → All (IsStored c.sha256) bs
      → Numbered n bs
      → length bs ≤ max_blocks_per_frame
      → length (journal_of c.sha256 bs) ≤ max_journal_bytes
      → Recovers c (journal_for c bs) bs
  Recovers-journal_for [] n w num few fits = refl
  Recovers-journal_for (b ∷ bs) n w num few fits =
      read_journal_prefix-journal c.sha256 w_codec.digest (b ∷ bs)
        (w, Numbered-Follows n (b ∷ bs) num, few, fits)

  -- The journal of a writer in order gives its active blocks.
  pub IsOpen-Recovers :
      (w : ArchiveWriter) (cs : List (List ℕ)) → IsOpen c w cs → Recovers c w.journal w.active
  IsOpen-Recovers w cs o =
      let r = o.ready in
      let few = o.few in
      let small = o.small in
      subst (λ j. Recovers c j w.active) (sym r.journal)
        (Recovers-journal_for w.active r.end r.stored r.numbered (omega arith) (
          omega (
            arith,
            length-append journal_magic (records_of c.sha256 w.active),
            length-records_of w.active r.stored,
          )))

  -- If `append` succeeds on a writer in order, then the disk alone gives back every block that was accepted and
  -- the new one, in their order: first those that the files of the frames are verified as holding, then those
  -- that are read from the journal, which is not malformed.
  pub append-Recovers :
      (io : Script) (block : List ℕ) (w : ArchiveWriter) {w' : ArchiveWriter} (cs : List (List ℕ))
      → IsOpen c w cs
      → append c io block w ≡ (ok tt, w')
      → (published : List (List ℕ)) × (journaled : List StoredBlock) × Held c w'.files w'.frames
          published
        × Recovers c w'.journal journaled
        × (published ++ map (λ b. b.bytes) journaled ≡ contents w cs ++ block ∷ [])
  append-Recovers io block w {w'} cs o h =
      let (cs', o', appended) = append-IsOpen c io w_codec block w cs o h in
      (cs', w'.active, o'.ready.archive.held, IsOpen-Recovers w' cs' o', appended)
