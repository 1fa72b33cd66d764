-- ===== src/Wire/Memory/Values.antt =====
-- The values of a row in the PMM1 section: what is read is what was written, in whole units.
use vim_config.Prelude.{
  ℕ, ◌*◌, ◌/◌, ◌≤◌, ◌<◌, ◌≡◌, refl, sym, ap, ◌∙◌, subst, Bool, true, false, List, [], ◌∷◌, Option,
  none, some, arith, Bool-cases, Option-cases, ◌||◌, any, inl, inr,
}
use vim_config.Prelude.Int.{ℤ, pos, negsuc, ◌+ℤ◌, ◌-ℤ◌, int_laws}
use vim_config.Outcome.{
  overflow, ok, ok-injective, >>=-eq-ok, ok_or, ok_or_ok, checked_i128, u64_max,
}
use vim_config.Model.{
  identity, Process, DecodedProcess, decoded_identity, MemoryColumn, MemoryEncoding,
}
use vim_config.Wire.Cursor.{Wrote, Wrote-bind, Wrote-done, Wrote-lift}
use vim_config.Wire.Put.{put_svarint}
use vim_config.Wire.Varint.RoundTrip.{read_svarint-put_svarint}
use vim_config.Wire.Memory.{
  process_memory_value, present, over_owned, memory_units, Previous, previous_of,
}
use vim_config.Wire.Memory.Encode.{put_value, put_values}
use vim_config.Wire.Memory.Decode.{decoded_units, unit_value, set_memory, read_value, read_values}
use vim_config.Wire.Memory.Absent.{absents}
use mathlib.Core.Bool.{or-false, or-true}
use native.Mathlib.Nat.{mul-div_cancel, div-mul-le_self, div-le_self}

-- A size in whole units, rounded down.
abbrev pub whole : MemoryEncoding → ℕ → ℕ
whole memory value = value / memory.unit_bytes * memory.unit_bytes

abbrev pub whole_option : MemoryEncoding → Option ℕ → Option ℕ
whole_option memory none = none
whole_option memory (some value) = some (whole memory value)

abbrev pub IsU64 : Option ℕ → Type 0
IsU64 none = Unit {0}
IsU64 (some value) = value ≤ u64_max

-- The decoded process `d` stands for `p`, and if peaks count from the owned size, `d` has that.
pub record StandsFor (memory : MemoryEncoding) (column : MemoryColumn) (p : Process)
    (d : DecodedProcess) : Type 0 where
  pub same : decoded_identity d ≡ identity p
  pub base : over_owned memory column ≡ true → d.owned ≡ whole_option memory p.owned
  pub value_fits : IsU64 (process_memory_value p column)
  pub owned_fits : IsU64 p.owned

abbrev pub fill : MemoryEncoding → MemoryColumn → Option ℕ → DecodedProcess → DecodedProcess
fill memory column none d = d
fill memory column (some value) d = set_memory column (whole memory value) d

-- Process by process.
abbrev pub Match : MemoryEncoding → MemoryColumn → List Process → List DecodedProcess → Type 0
Match memory column [] [] = Unit {0}
Match memory column [] (d ∷ ds) = ⊥
Match memory column (p ∷ ps) [] = ⊥
Match memory column (p ∷ ps) (d ∷ ds) = StandsFor memory column p d × Match memory column ps ds

-- The decoded processes with the column's values filled in.
unfoldable pub fill_all :
    MemoryEncoding → MemoryColumn → List Process → List DecodedProcess → List DecodedProcess
unfolding process_memory_value
fill_all memory column [] ds = ds
fill_all memory column (p ∷ ps) [] = []
fill_all memory column (p ∷ ps) (d ∷ ds) =
    fill memory column (process_memory_value p column) d ∷ fill_all memory column ps ds

module _ (memory : MemoryEncoding) (column : MemoryColumn) (unit_pos : 0 < memory.unit_bytes) where
  whole_units : (v : ℕ) → whole memory v / memory.unit_bytes ≡ v / memory.unit_bytes
  whole_units v = mul-div_cancel (v / memory.unit_bytes) unit_pos

  unit_value-whole :
      (v : ℕ) → v ≤ u64_max → unit_value memory (pos (v / memory.unit_bytes)) ≡ ok (whole memory v)
  unfolding unit_value
  unit_value-whole v h =
      ground (arith, div-le_self v memory.unit_bytes, div-mul-le_self v memory.unit_bytes)

  difference_back : (a b : ℕ) → (pos a -ℤ pos b) +ℤ pos b ≡ pos a
  difference_back a b = omega int_laws

  i128_units :
      (v : ℕ)
      → v ≤ u64_max
      → checked_i128 (pos (v / memory.unit_bytes)) ≡ some (pos (v / memory.unit_bytes))
  i128_units v h = ground (arith, div-le_self v memory.unit_bytes)

  i128_difference : (z : ℤ) (w : ℤ) → checked_i128 w ≡ some z → (w ≡ z) × (checked_i128 z ≡ some z)
  i128_difference z (pos n) h = ground arith
  i128_difference z (negsuc n) h = ground arith

  -- Where a column does not count from the owned size.
  plain_units :
      (po do' : Option ℕ) (v : ℕ)
      → over_owned memory column ≡ false
      → (memory_units memory column po v ≡ ok (pos (v / memory.unit_bytes)))
        × (decoded_units memory column do' (pos (v / memory.unit_bytes))
            ≡ ok (pos (v / memory.unit_bytes)))
  unfolding memory_units decoded_units
  plain_units none none v h = (refl, refl)
  plain_units none (some o) v h = (refl, rw h)
  plain_units (some o) none v h = (rw h, refl)
  plain_units (some o) (some o') v h = (rw h, rw h)

  -- Where it does, the decoder adds what the encoder took away.
  excess_units :
      (po : Option ℕ) (v : ℕ) {z : ℤ}
      → over_owned memory column ≡ true
      → v ≤ u64_max
      → memory_units memory column po v ≡ ok z
      → (checked_i128 z ≡ some z)
        × (decoded_units memory column (whole_option memory po) z
            ≡ ok (pos (v / memory.unit_bytes)))
  unfolding memory_units decoded_units
  excess_units none v h hv e = rw (← ok-injective e) (i128_units v hv, refl)
  excess_units (some o) v {z} h hv e =
      let units = v / memory.unit_bytes in
      let base = o / memory.unit_bytes in
      let e' = ok_or_ok (checked_i128 (pos units -ℤ pos base)) overflow (rw h at e) in
      let (same, fits) = i128_difference z (pos units -ℤ pos base) e' in
      let back : z +ℤ pos base ≡ pos units = rw (← same) (difference_back units base) in
      (fits, rw (h, whole_units o, back, i128_units v hv))

  units_back :
      (po do' : Option ℕ) (v : ℕ) {z : ℤ}
      → v ≤ u64_max
      → (over_owned memory column ≡ true → do' ≡ whole_option memory po)
      → memory_units memory column po v ≡ ok z
      → (checked_i128 z ≡ some z)
        × (decoded_units memory column do' z ≡ ok (pos (v / memory.unit_bytes)))
  units_back po do' v hv base e = elim (Bool-cases (over_owned memory column)) [
    | inl h ↦ rw (base h) (excess_units po v h hv e)
    | inr h ↦
        let (wrote, back) = plain_units po do' v h in
        rw (ok-injective (sym e ∙ wrote)) (i128_units v hv, back)
  ]

  add_back : (z w : ℤ) → w +ℤ (z -ℤ w) ≡ z
  add_back z w = omega int_laws

  -- One value, from the parts of its encoding.
  value_step :
      (previous : Previous) (p : Process) (d : DecodedProcess) (v : ℕ) (out mid : List ℕ)
      (z delta : ℤ)
      → StandsFor memory column p d
      → v ≤ u64_max
      → memory_units memory column p.owned v ≡ ok z
      → ok_or (checked_i128 (z -ℤ previous_of previous (identity p))) overflow ≡ ok delta
      → put_svarint out delta ≡ ok mid
      → Wrote out mid
          (read_value memory column previous d)
          ((identity p, z) ∷ previous, fill memory column (some v) d)
  unfolding read_value
  value_step previous p d v out mid z delta s hv e₁ e₂ e₃ =
      let before = previous_of previous (identity p) in
      let same : z -ℤ before ≡ delta = (i128_difference delta (z -ℤ before) (ok_or_ok _ _ e₂)).0 in
      let (fits, back) = units_back p.owned d.owned v hv s.base e₁ in
      let sum : before +ℤ delta ≡ z = rw (← same) (add_back z before) in
      let encoded : ok_or (checked_i128 (previous_of previous (decoded_identity d) +ℤ delta))
            overflow
          ≡ ok z =
        rw (s.same, sum, fits) in
      let result : Path (Previous × DecodedProcess)
          ((decoded_identity d, z) ∷ previous, fill memory column (some v) d)
          ((identity p, z) ∷ previous, fill memory column (some v) d) =
        ap (λ id. ((id, z) ∷ previous, fill memory column (some v) d)) s.same in
      Wrote-bind _ out (read_svarint-put_svarint out delta e₃) (
        Wrote-lift _ mid encoded (
          Wrote-lift _ mid back
            (Wrote-lift _ mid (unit_value-whole v hv) (Wrote-done result refl))))

  read_value-put_value :
      (previous : Previous) (p : Process) (d : DecodedProcess) (v : ℕ) (out out' : List ℕ)
      (after : Previous)
      → StandsFor memory column p d
      → v ≤ u64_max
      → put_value memory column previous p (some v) out ≡ ok (after, out')
      → Wrote out out' (read_value memory column previous d) (after, fill memory column (some v) d)
  unfolding put_value
  read_value-put_value previous p d v out out' after s hv e =
      let (z, e₁, r₁) = >>=-eq-ok (memory_units memory column p.owned v) _ e in
      let (delta, e₂, r₂) =
        >>=-eq-ok (ok_or (checked_i128 (z -ℤ previous_of previous (identity p))) overflow) _ r₁ in
      let (mid, e₃, r₃) = >>=-eq-ok (put_svarint out delta) _ r₂ in
      let end : Path (Previous × List ℕ) ((identity p, z) ∷ previous, mid) (after, out') =
        ok-injective r₃ in
      subst
        (λ (t : Previous × List ℕ).
          Wrote out t.1 (read_value memory column previous d) (t.0, fill memory column (some v) d))
        end (value_step previous p d v out mid z delta s hv e₁ e₂ e₃)

  value_fits :
      {p : Process} {d : DecodedProcess} {v : ℕ}
      → StandsFor memory column p d
      → process_memory_value p column ≡ some v
      → v ≤ u64_max
  value_fits s h = rw h at s.value_fits

  pub read_values-put_values :
      (previous : Previous) (a : Bool) (ps : List Process) (ds : List DecodedProcess) (out : List ℕ)
      (after : Previous) {out' : List ℕ}
      → Match memory column ps ds
      → put_values memory column previous ps out ≡ ok (after, out')
      → Wrote out out'
          (read_values memory column previous a (absents column ps) ds)
          (after, a || any (present column) ps, fill_all memory column ps ds)
  unfolding put_values put_value read_values fill_all absents present
  read_values-put_values previous a [] [] out after {out'} m e =
      let end : Path (Previous × List ℕ) (previous, out) (after, out') = ok-injective e in
      Wrote-done (λ i. ((end i).0, sym (or-false a) i, [])) (ap (λ t. t.1) end)
  read_values-put_values previous a [] (d ∷ ds) out after m e = absurd m
  read_values-put_values previous a (p ∷ ps) [] out after m e = absurd m
  read_values-put_values previous a (p ∷ ps) (d ∷ ds) out after (s, m) e =
      elim (Option-cases (process_memory_value p column)) [
        | inl h ↦
            let ih = read_values-put_values previous a ps ds out after m (rw h at e) in
            rw h (Wrote-bind _ out ih (Wrote-done refl refl))
        | inr (v, h) ↦
            let ((previous₁, out₁), e₁, e₂) =
              >>=-eq-ok (put_value memory column previous p (some v) out) _ (rw h at e) in
            let w = read_value-put_value previous p d v out out₁ previous₁ s (value_fits s h) e₁ in
            let ih = read_values-put_values previous₁ true ps ds out₁ after m e₂ in
            rw h (
              Wrote-bind _ out w (
                Wrote-bind _ out₁ ih (
                  Wrote-done
                    (λ i. (
                      after,
                      sym (or-true a) i,
                      set_memory column (whole memory v) d ∷ fill_all memory column ps ds,
                    ))
                    refl)))
      ]
