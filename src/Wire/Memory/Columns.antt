-- ===== src/Wire/Memory/Columns.antt =====
-- Between the columns of the PMM1 section: what is filled in, and what a peak may count from.
use vim_config.Prelude.{
  ℕ, ◌≡◌, refl, ◌∙◌, true, false, List, [], ◌∷◌, any, Option, none, some, arith, leb,
}
use vim_config.Model.{
  identity, decoded_identity, Process, DecodedProcess, MemoryColumn, owned, peak, evicted,
  MemoryEncoding, rank, out_of_order,
}
use vim_config.Wire.Memory.{process_memory_value, over_owned, is_owned}
use vim_config.Wire.Memory.Decode.{set_memory}
use vim_config.Wire.Memory.Values.{StandsFor, IsU64, Match, fill, fill_all, whole_option}

ordered_tail :
    (a b : MemoryColumn) (rest : List MemoryColumn)
    → out_of_order (a ∷ b ∷ rest) ≡ false
    → (leb (rank b) (rank a) ≡ false) × (out_of_order (b ∷ rest) ≡ false)
unfolding out_of_order
ordered_tail a b rest h = ground arith

after_column : (a b : MemoryColumn) → leb (rank b) (rank a) ≡ false → is_owned b ≡ false
unfolding rank
after_column a owned h = ground arith
after_column a peak h = refl
after_column a evicted h = refl

-- In a list of columns in order, the owned sizes can only be first.
pub no_later_owned :
    (column : MemoryColumn) (rest : List MemoryColumn)
    → out_of_order (column ∷ rest) ≡ false
    → (any is_owned rest ≡ false) × (out_of_order rest ≡ false)
no_later_owned column [] h = (refl, unfold out_of_order in refl)
no_later_owned column (b ∷ rest) h =
    let (later, ordered) = ordered_tail column b rest h in
    (rw (after_column column b later) (no_later_owned b rest ordered).0, ordered)

-- `d` stands for `p` while the columns `left` are still to be filled.
pub record Pending (memory : MemoryEncoding) (left : List MemoryColumn) (p : Process)
    (d : DecodedProcess) : Type 0 where
  pub same : decoded_identity d ≡ identity p
  pub fresh : any is_owned left ≡ true → d.owned ≡ none
  pub filled :
      any is_owned memory.columns ≡ true
      → any is_owned left ≡ false
      → d.owned ≡ whole_option memory p.owned
  pub fits : IsU64 p.owned × IsU64 p.peak × IsU64 p.evicted

Pending-StandsFor :
    (memory : MemoryEncoding) (column : MemoryColumn) (rest : List MemoryColumn) (p : Process)
    (d : DecodedProcess)
    → any is_owned rest ≡ false
    → Pending memory (column ∷ rest) p d
    → StandsFor memory column p d
unfolding over_owned process_memory_value
Pending-StandsFor memory owned rest p d h s = record {
  same = s.same;
  base = λ e. cc;
  value_fits = s.fits.0;
  owned_fits = s.fits.0;
}
Pending-StandsFor memory peak rest p d h s = record {
  same = s.same;
  base = λ e. s.filled e h;
  value_fits = s.fits.1;
  owned_fits = s.fits.0;
}
Pending-StandsFor memory evicted rest p d h s = record {
  same = s.same;
  base = λ e. cc;
  value_fits = s.fits.2;
  owned_fits = s.fits.0;
}

decoded_identity-fill :
    (memory : MemoryEncoding) (column : MemoryColumn) (o : Option ℕ) (d : DecodedProcess)
    → decoded_identity (fill memory column o d) ≡ decoded_identity d
unfolding set_memory
decoded_identity-fill memory column none d = refl
decoded_identity-fill memory owned (some v) d = refl
decoded_identity-fill memory peak (some v) d = refl
decoded_identity-fill memory evicted (some v) d = refl

owned-fill :
    (memory : MemoryEncoding) (column : MemoryColumn) (o : Option ℕ) (d : DecodedProcess)
    → is_owned column ≡ false
    → (fill memory column o d).owned ≡ d.owned
unfolding set_memory
owned-fill memory column none d h = refl
owned-fill memory owned (some v) d h = cc
owned-fill memory peak (some v) d h = refl
owned-fill memory evicted (some v) d h = refl

owned-fill_owned :
    (memory : MemoryEncoding) (o : Option ℕ) (d : DecodedProcess)
    → d.owned ≡ none
    → (fill memory owned o d).owned ≡ whole_option memory o
unfolding set_memory
owned-fill_owned memory none d h = h
owned-fill_owned memory (some v) d h = refl

Pending-fill :
    (memory : MemoryEncoding) (column : MemoryColumn) (rest : List MemoryColumn) (p : Process)
    (d : DecodedProcess)
    → any is_owned rest ≡ false
    → Pending memory (column ∷ rest) p d
    → Pending memory rest p (fill memory column (process_memory_value p column) d)
unfolding process_memory_value
Pending-fill memory owned rest p d h s = record {
  same = decoded_identity-fill memory owned p.owned d ∙ s.same;
  fresh = λ e. cc;
  filled = λ e f. owned-fill_owned memory p.owned d (s.fresh refl);
  fits = s.fits;
}
Pending-fill memory peak rest p d h s = record {
  same = decoded_identity-fill memory peak p.peak d ∙ s.same;
  fresh = λ e. cc;
  filled = λ e f. owned-fill memory peak p.peak d refl ∙ s.filled e f;
  fits = s.fits;
}
Pending-fill memory evicted rest p d h s = record {
  same = decoded_identity-fill memory evicted p.evicted d ∙ s.same;
  fresh = λ e. cc;
  filled = λ e f. owned-fill memory evicted p.evicted d refl ∙ s.filled e f;
  fits = s.fits;
}

-- Process by process, and row by row.
abbrev pub PendingAll :
    MemoryEncoding → List MemoryColumn → List Process → List DecodedProcess → Type 0
PendingAll memory left [] [] = Unit {0}
PendingAll memory left [] (d ∷ ds) = ⊥
PendingAll memory left (p ∷ ps) [] = ⊥
PendingAll memory left (p ∷ ps) (d ∷ ds) = Pending memory left p d × PendingAll memory left ps ds

module _ (memory : MemoryEncoding) (column : MemoryColumn) (rest : List MemoryColumn)
    (h : any is_owned rest ≡ false) where
  pub PendingAll-Match :
      (ps : List Process) (ds : List DecodedProcess)
      → PendingAll memory (column ∷ rest) ps ds
      → Match memory column ps ds
  PendingAll-Match [] [] m = tt
  PendingAll-Match [] (d ∷ ds) m = absurd m
  PendingAll-Match (p ∷ ps) [] m = absurd m
  PendingAll-Match (p ∷ ps) (d ∷ ds) (s, m) =
      (Pending-StandsFor memory column rest p d h s, PendingAll-Match ps ds m)

  pub PendingAll-fill_all :
      (ps : List Process) (ds : List DecodedProcess)
      → PendingAll memory (column ∷ rest) ps ds
      → PendingAll memory rest ps (fill_all memory column ps ds)
  unfolding fill_all
  PendingAll-fill_all [] [] m = tt
  PendingAll-fill_all [] (d ∷ ds) m = absurd m
  PendingAll-fill_all (p ∷ ps) [] m = absurd m
  PendingAll-fill_all (p ∷ ps) (d ∷ ds) (s, m) =
      (Pending-fill memory column rest p d h s, PendingAll-fill_all ps ds m)
