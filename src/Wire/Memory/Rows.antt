-- ===== src/Wire/Memory/Rows.antt =====
-- A column of the PMM1 section: its rows are read back as they were written.
use vim_config.Prelude.{
  ℕ, zero, suc, ◌+◌, ◌^◌, ◌≤◌, ◌<◌, ◌≡◌, refl, sym, ap, ◌∙◌, Bool, false, ◌||◌, List, [], ◌∷◌,
  length, any, arith, ltb, replicate, All, none,
}
use vim_config.Outcome.{exceeds_limit, ok, ok-injective, >>=-eq-ok, refuse}
use vim_config.Model.{Process, DecodedProcess, DecodedObservation, MemoryColumn, MemoryEncoding}
use vim_config.Wire.Cursor.{Wrote, Wrote-bind, Wrote-done, Wrote-lift}
use vim_config.Wire.Put.{put_uvarint, check_wire_size}
use vim_config.Wire.Varint.RoundTrip.{read_uvarint-put_uvarint}
use vim_config.Wire.Memory.{present, Previous}
use vim_config.Wire.Memory.Encode.{absent_from, put_absent, put_values, put_row, put_rows}
use vim_config.Wire.Memory.Decode.{read_absent, read_row, read_rows}
use vim_config.Wire.Memory.Absent.{
  absents, read_absent-put_absent, absent_from-lt, marks-absent_from,
}
use vim_config.Wire.Memory.Values.{Match, fill_all, read_values-put_values}
use mathlib.Core.Bool.{or-false, or_assoc}

length-Match :
    (memory : MemoryEncoding) (column : MemoryColumn) (ps : List Process) (ds : List DecodedProcess)
    → Match memory column ps ds
    → length ds ≡ length ps
length-Match memory column [] [] m = refl
length-Match memory column [] (d ∷ ds) m = absurd m
length-Match memory column (p ∷ ps) [] m = absurd m
length-Match memory column (p ∷ ps) (d ∷ ds) (s, m) = ap suc (length-Match memory column ps ds m)

length-absent_from :
    (column : MemoryColumn) (i : ℕ) (ps : List Process)
    → length (absent_from column i ps) ≤ length ps
unfolding absent_from
length-absent_from column i [] = omega arith
length-absent_from column i (p ∷ ps) = ground (arith, length-absent_from column (i + 1) ps)

length-replicate : (n : ℕ) → length (replicate n false) ≡ n
length-replicate zero = refl
length-replicate (suc n) = ap suc (length-replicate n)

-- The flags that are read are those of the processes with no value.
read_absent-absents :
    (column : MemoryColumn) (ps : List Process) (n : ℕ) (out out' : List ℕ)
    → n ≡ length ps
    → length ps < 2 ^ 64
    → put_absent none (absent_from column 0 ps) out ≡ ok out'
    → Wrote out out'
        (read_absent (length (absent_from column 0 ps)) none (replicate n false))
        (absents column ps)
read_absent-absents column ps n out out' same small e =
    let indices = absent_from column 0 ps in
    let wide = length-replicate (length ps) in
    let below : All (λ i. i < length (replicate (length ps) false)) indices =
      rw wide (absent_from-lt column 0 (length ps) ps (omega arith)) in
    rw same (
      rw (marks-absent_from column [] 0 ps refl) at (
        read_absent-put_absent none indices (replicate (length ps) false) out (rw wide small) below
          e))

module _ (memory : MemoryEncoding) (column : MemoryColumn) (unit_pos : 0 < memory.unit_bytes) where
  row_step :
      (previous : Previous) (a : Bool) (ps : List Process) (ds : List DecodedProcess)
      (out out₁ out₂ out₃ : List ℕ) (after : Previous)
      → length ps < 2 ^ 64
      → Match memory column ps ds
      → put_uvarint out (length (absent_from column 0 ps)) ≡ ok out₁
      → put_absent none (absent_from column 0 ps) out₁ ≡ ok out₂
      → put_values memory column previous ps out₂ ≡ ok (after, out₃)
      → Wrote out out₃
          (read_row memory column previous a ds)
          (after, a || any (present column) ps, fill_all memory column ps ds)
  unfolding read_row
  row_step previous a ps ds out out₁ out₂ out₃ after n m e₁ e₂ e₃ =
      let few = length-absent_from column 0 ps in
      let same : length ds ≡ length ps = length-Match memory column ps ds m in
      let inside : refuse (ltb (length ds) (length (absent_from column 0 ps))) exceeds_limit
          ≡ ok tt =
        ground arith in
      Wrote-bind _ out (read_uvarint-put_uvarint out _ (omega arith) e₁) (
        Wrote-lift _ out₁ inside (
          Wrote-bind _ out₁ (read_absent-absents column ps (length ds) out₁ out₂ same n e₂)
            (read_values-put_values memory column unit_pos previous a ps ds out₂ after m e₃)))

  read_row-put_row :
      (previous : Previous) (a : Bool) (ps : List Process) (ds : List DecodedProcess)
      (out out' : List ℕ) (after : Previous)
      → length ps < 2 ^ 64
      → Match memory column ps ds
      → put_row memory column previous ps out ≡ ok (after, out')
      → Wrote out out'
          (read_row memory column previous a ds)
          (after, a || any (present column) ps, fill_all memory column ps ds)
  unfolding put_row
  read_row-put_row previous a ps ds out out' after n m e =
      let (out₁, e₁, r₁) = >>=-eq-ok (put_uvarint out (length (absent_from column 0 ps))) _ e in
      let (out₂, e₂, r₂) = >>=-eq-ok (put_absent none (absent_from column 0 ps) out₁) _ r₁ in
      let ((after', out₃), e₃, r₃) = >>=-eq-ok (put_values memory column previous ps out₂) _ r₂ in
      let (_, _, r₄) = >>=-eq-ok (check_wire_size out₃) _ r₃ in
      let end : Path (Previous × List ℕ) (after', out₃) (after, out') = ok-injective r₄ in
      row_step previous a ps ds out out₁ out₂ out' after n m e₁ e₂ (e₃ ∙ ap ok end)

-- Row by row, with as many processes as a `usize` can count.
module _ {V : Type 0} (memory : MemoryEncoding) (column : MemoryColumn) where
  abbrev pub MatchRows : List (List Process) → List (DecodedObservation V) → Type 0
  MatchRows [] [] = Unit {0}
  MatchRows [] (r ∷ rs) = ⊥
  MatchRows (ps ∷ pss) [] = ⊥
  MatchRows (ps ∷ pss) (r ∷ rs) =
      (length ps < 2 ^ 64) × Match memory column ps r.processes × MatchRows pss rs

  unfoldable pub fill_rows :
      List (List Process) → List (DecodedObservation V) → List (DecodedObservation V)
  unfolding fill_all
  fill_rows [] rs = rs
  fill_rows (ps ∷ pss) [] = []
  fill_rows (ps ∷ pss) (r ∷ rs) =
      record r { processes = fill_all memory column ps r.processes } ∷ fill_rows pss rs

abbrev pub any_value : MemoryColumn → List (List Process) → Bool
any_value column rows = any (any (present column)) rows

module _ {V : Type 0} (memory : MemoryEncoding) (column : MemoryColumn)
    (unit_pos : 0 < memory.unit_bytes) where
  pub read_rows-put_rows :
      (previous : Previous) (a : Bool) (rows : List (List Process))
      (rs : List (DecodedObservation V)) (out out' : List ℕ)
      → MatchRows memory column rows rs
      → put_rows memory column previous rows out ≡ ok out'
      → Wrote out out'
          (read_rows memory column previous a rs)
          (a || any_value column rows, fill_rows memory column rows rs)
  unfolding put_rows read_rows fill_rows
  read_rows-put_rows previous a [] [] out out' m e =
      Wrote-done (λ i. (sym (or-false a) i, [])) (ok-injective e)
  read_rows-put_rows previous a [] (r ∷ rs) out out' m e = absurd m
  read_rows-put_rows previous a (ps ∷ rows) [] out out' m e = absurd m
  read_rows-put_rows previous a (ps ∷ rows) (r ∷ rs) out out' (n, m, ms) e =
      let ((previous₁, out₁), e₁, e₂) = >>=-eq-ok (put_row memory column previous ps out) _ e in
      let seen = a || any (present column) ps in
      Wrote-bind _ out
        (read_row-put_row memory column unit_pos previous a ps r.processes out out₁ previous₁ n m
          e₁)
        (Wrote-bind _ out₁ (read_rows-put_rows previous₁ seen rows rs out₁ out' ms e₂) (
          Wrote-done
            (λ i. (
              or_assoc a (any (present column) ps) (any_value column rows) i,
              record r { processes = fill_all memory column ps r.processes }
                  ∷ fill_rows memory column rows rs,
            ))
            refl))
