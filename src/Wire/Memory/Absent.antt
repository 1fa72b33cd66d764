-- ===== src/Wire/Memory/Absent.antt =====
-- The positions of absent values: what is read is what was written, and it marks exactly the
-- processes with no value.
use vim_config.Prelude.{
  ℕ, zero, suc, ◌+◌, ◌^◌, ◌≤◌, ◌<◌, ◌≡◌, refl, ap, Bool, true, false, not, List, [], ◌∷◌, ◌++◌,
  length, length-append, Option, none, some, arith, leb, All, set, replicate, append_assoc,
  Bool-cases, inl, inr,
}
use vim_config.Outcome.{ok, ok-injective, >>=-eq-ok, refuse, exceeds_limit}
use vim_config.Model.{Process, MemoryColumn}
use vim_config.Wire.Cursor.{Wrote, Wrote-bind, Wrote-pure, Wrote-lift}
use vim_config.Wire.Put.{put_uvarint}
use vim_config.Wire.Varint.RoundTrip.{read_uvarint-put_uvarint}
use vim_config.Wire.Memory.{present}
use vim_config.Wire.Memory.Encode.{absent_from, absent_gap, put_absent}
use vim_config.Wire.Memory.Decode.{absent_index, read_absent}

-- The flags after the loop, from those before it.
abbrev pub marks : List ℕ → List Bool → List Bool
marks [] flags = flags
marks (i ∷ rest) flags = marks rest (set flags i true)

length-set {ℓ} : {A : Type ℓ} (xs : List A) (i : ℕ) (v : A) → length (set xs i v) ≡ length xs
length-set [] i v = refl
length-set (x ∷ xs) zero v = refl
length-set (x ∷ xs) (suc i) v = ap suc (length-set xs i v)

absent_index-absent_gap :
    (previous : Option ℕ) (i : ℕ) {gap : ℕ}
    → i < 2 ^ 64
    → absent_gap previous i ≡ ok gap
    → (gap < 2 ^ 64) × (absent_index previous gap ≡ ok i)
unfolding absent_gap absent_index
absent_index-absent_gap none i small h = ground arith
absent_index-absent_gap (some p) i small h = ground arith

pub read_absent-put_absent :
    (previous : Option ℕ) (indices : List ℕ) (flags : List Bool) (out : List ℕ) {out' : List ℕ}
    → length flags < 2 ^ 64
    → All (λ i. i < length flags) indices
    → put_absent previous indices out ≡ ok out'
    → Wrote out out' (read_absent (length indices) previous flags) (marks indices flags)
unfolding put_absent read_absent
read_absent-put_absent previous [] flags out n h e = Wrote-pure flags (ok-injective e)
read_absent-put_absent previous (i ∷ rest) flags out n (hi, h) e =
    let (gap, e₁, e₂) = >>=-eq-ok (absent_gap previous i) _ e in
    let (mid, e₃, e₄) = >>=-eq-ok (put_uvarint out gap) _ e₂ in
    let (small, back) = absent_index-absent_gap previous i (omega arith) e₁ in
    let inside : refuse (leb (length flags) i) exceeds_limit ≡ ok tt = ground arith in
    let same = length-set flags i true in
    Wrote-bind _ out (read_uvarint-put_uvarint out gap small e₃) (
      Wrote-lift _ mid back (
        Wrote-lift _ mid inside
          (read_absent-put_absent (some i) rest (set flags i true) mid (rw same n) (rw same h) e₄)))

-- Which processes have no value.
unfoldable pub absents : MemoryColumn → List Process → List Bool
absents column [] = []
absents column (p ∷ ps) = not (present column p) ∷ absents column ps

pub absent_from-lt :
    (column : MemoryColumn) (i n : ℕ) (ps : List Process)
    → i + length ps ≤ n
    → All (λ j. j < n) (absent_from column i ps)
unfolding absent_from
absent_from-lt column i n [] h = tt
absent_from-lt column i n (p ∷ ps) h = elim (Bool-cases (present column p)) [
  | inl e ↦ rw e (absent_from-lt column (i + 1) n ps (omega arith))
  | inr e ↦ rw e (omega arith, absent_from-lt column (i + 1) n ps (omega arith))
]

set-at_end :
    (front : List Bool) (b : Bool) (back : List Bool)
    → set (front ++ b ∷ back) (length front) true ≡ front ++ true ∷ back
set-at_end [] b back = refl
set-at_end (x ∷ front) b back = ap (λ t. x ∷ t) (set-at_end front b back)

pub marks-absent_from :
    (column : MemoryColumn) (front : List Bool) (i : ℕ) (ps : List Process)
    → i ≡ length front
    → marks (absent_from column i ps) (front ++ replicate (length ps) false)
      ≡ front ++ absents column ps
unfolding absent_from absents
marks-absent_from column front i [] h = refl
marks-absent_from column front i (p ∷ ps) h = elim (Bool-cases (present column p)) [
  | inl e ↦
      let ih =
        marks-absent_from column (front ++ false ∷ []) (i + 1) ps
          (omega (arith, length-append front (false ∷ []))) in
      rw e (rw (append_assoc, append_assoc) at ih)
  | inr e ↦
      let ih =
        marks-absent_from column (front ++ true ∷ []) (i + 1) ps
          (omega (arith, length-append front (true ∷ []))) in
      rw (e, h, set-at_end front false (replicate (length ps) false))
        (rw (append_assoc, append_assoc, h) at ih)
]
