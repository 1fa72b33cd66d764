-- ===== src/Wire/Temporal/Runs.antt =====
-- The runs of the temporal CSH2 section of recording/wire.rs, read back.
use vim_config.Prelude.{
  ℕ, suc, ◌-◌, ◌*◌, ◌/◌, ◌≤◌, ◌<◌, ◌≡◌, inl, inr, refl, sym, subst, ap, true, false, List, [], ◌∷◌,
  ◌++◌, length, arith, ltb, not, ◌==◌, Option, max, min, Bool-cases, ◌^◌, ◌&&◌,
}
use vim_config.Outcome.{Result, ok, invalid, refuse, u64_max, >>=-eq-ok}
use vim_config.Cpu.Bits.{is_power_of_two}
use vim_config.Cpu.Quantum.{temporal_storage_quantum, adaptive_quantum}
use vim_config.Cpu.Quantum.Bounds.{adaptive_quantum_cases}
use vim_config.Cpu.Range.Covers.{pow-is_power_of_two, pow-lt_back}
use vim_config.Cpu.Range.Deltas.{temporal_quantum_ok}
use vim_config.Cpu.Feasible.{Floor, temporal_run_values_feasible}
use vim_config.Wire.Cursor.{Wrote, Wrote-bind, Wrote-lift, Wrote-pure}
use vim_config.Wire.Put.{put_uvarint}
use vim_config.Wire.Read.{read_uvarint}
use vim_config.Wire.Varint.RoundTrip.{read_uvarint-put_uvarint}
use vim_config.Wire.Temporal.{Step, Point}
use vim_config.Wire.Temporal.Encode.{put_run}
use vim_config.Wire.Temporal.Decode.{
  same_quantum, bad_run, measured, read_interior, endpoint_value, read_run,
}
use native.Mathlib.Nat.{div-le_self}
use vim_config.Wire.Temporal.Floors.{
  Chain, floor_of, inner_floors, end_of, run_points, Chain-end, run_points-feasible,
}
use vim_config.Wire.Temporal.Interior.{read_interior-put_run_values, endpoint_value-end}

-- A quantum that the encoder stores is one that the decoder admits.
adaptive_quantum-admitted :
    (per cap : ℕ)
    → per < 2 ^ 128
    → 0 < cap
    → cap ≤ u64_max
    → (0 < adaptive_quantum per cap)
      × (adaptive_quantum per cap ≤ cap)
      × ((not (adaptive_quantum per cap == cap) && not (is_power_of_two (adaptive_quantum per cap)))
          ≡ false)
adaptive_quantum-admitted per top fits positive wide = elim (adaptive_quantum_cases per top fits) [
  | inl (small, e) ↦
      let power : is_power_of_two 1 ≡ true = pow-is_power_of_two 0 (omega arith) in
      rw e (omega arith, omega arith, ground (arith, power))
  | inr (e, lo, hi, chosen) ↦ elim (Bool-cases (ltb (2 ^ e) top)) [
    | inl b ↦
        let same : max (min (2 ^ e) top) 1 ≡ max (2 ^ e) 1 = ground arith in
        let power : is_power_of_two (2 ^ e) ≡ true =
          pow-is_power_of_two e (pow-lt_back e 64 (ground arith)) in
        let one : is_power_of_two 1 ≡ true = pow-is_power_of_two 0 (omega arith) in
        rw chosen (ground (arith, power, one))
    | inr b ↦
        let same : max (min (2 ^ e) top) 1 ≡ top = ground arith in rw (chosen, same) (ground arith)
  ]
]

pub temporal_storage_quantum-admitted :
    (delta elapsed cap quantum : ℕ)
    → cap ≤ u64_max
    → temporal_storage_quantum delta elapsed cap ≡ ok quantum
    → (0 < quantum)
      × (quantum ≤ cap)
      × ((not (quantum == cap) && not (is_power_of_two quantum)) ≡ false)
unfolding temporal_storage_quantum
temporal_storage_quantum-admitted delta elapsed top quantum wide e =
    let (positive, some_cap, fits, chosen) =
      temporal_quantum_ok delta (max elapsed 100_000_000) top quantum e in
    let per = delta * 100_000_000 / max elapsed 100_000_000 in
    let rate : per ≤ delta * 100_000_000 =
      div-le_self (delta * 100_000_000) (max elapsed 100_000_000) in
    rw chosen at (adaptive_quantum-admitted per top (omega arith) some_cap wide)

-- The intervals of a run, as the rows give them.
abbrev pub timed : List Step → List (Result ℕ)
timed [] = []
timed ((duration, total) ∷ steps) = ok duration ∷ timed steps

measured-run_points :
    (anchor quantum : ℕ) (step : Step) (steps : List Step) (more : List (Result ℕ))
    → measured
        (timed (step ∷ steps) ++ more)
        (inner_floors anchor quantum step steps ++ (end_of step steps, 0) ∷ [])
      ≡ ok (run_points anchor quantum step steps)
unfolding measured
measured-run_points anchor quantum (duration, total) [] [] = refl
measured-run_points anchor quantum (duration, total) [] (m ∷ more) = refl
measured-run_points anchor quantum (duration, total) (step ∷ steps) more =
    rw (measured-run_points anchor quantum step steps more) refl

pub length-timed : (steps : List Step) → length (timed steps) ≡ length steps
length-timed [] = refl
length-timed ((duration, total) ∷ steps) = ap suc (length-timed steps)

pub bad_run_ok :
    (cap quantum left count : ℕ) (previous : Option ℕ)
    → 0 < quantum
    → quantum ≤ cap
    → (not (quantum == cap) && not (is_power_of_two quantum)) ≡ false
    → same_quantum previous quantum ≡ false
    → 0 < count
    → count ≤ left
    → bad_run cap left previous count quantum ≡ false
unfolding bad_run
bad_run_ok top quantum left count previous positive below shape differs some_left enough =
    ground arith

floor_of_start : (anchor quantum : ℕ) → floor_of anchor quantum anchor ≡ anchor
floor_of_start anchor quantum =
    let none_left : anchor - anchor ≡ 0 = omega arith in
    let no_steps : 0 / quantum ≡ 0 = omega (arith, div-le_self 0 quantum) in
    rw (none_left, no_steps) (omega arith)

run_step :
    (cap anchor count inner quantum delta end last : ℕ) (previous : Option ℕ)
    (intervals : List (Result ℕ)) (floors : List Floor) (points : List Point)
    (out out₁ out₂ mid out' : List ℕ)
    → Wrote out out₁ read_uvarint count
    → Wrote out₁ out₂ read_uvarint quantum
    → bad_run cap (length intervals) previous count quantum ≡ false
    → count - 1 ≡ inner
    → Wrote out₂ mid (read_interior inner anchor quantum anchor) (floors, last)
    → Wrote mid out' read_uvarint delta
    → endpoint_value anchor last delta ≡ ok end
    → measured intervals (floors ++ (end, 0) ∷ []) ≡ ok points
    → temporal_run_values_feasible (anchor, 0) points quantum cap ≡ true
    → Wrote out out' (read_run cap previous intervals (anchor, 0)) (quantum, end, points)
unfolding read_run
run_step top anchor count inner quantum delta end last previous intervals floors points out out₁
      out₂ mid out' w₁ w₂ good fewer inside at_end e m f =
    let admitted : refuse (bad_run top (length intervals) previous count quantum) invalid ≡ ok tt =
      rw good in
    let inside' =
      subst (λ n. Wrote out₂ mid (read_interior n anchor quantum anchor) (floors, last)) (sym fewer)
        inside in
    let feasible : refuse (not (temporal_run_values_feasible (anchor, 0) points quantum top))
          invalid
        ≡ ok tt =
      rw f in
    Wrote-bind _ out w₁ (
      Wrote-bind _ out₁ w₂ (
        Wrote-lift _ out₂ admitted (
          Wrote-bind _ out₂ inside' (
            Wrote-bind _ mid at_end (
              Wrote-lift _ out' e
                (Wrote-lift _ out' m (Wrote-lift _ out' feasible (Wrote-pure _ refl))))))))

module _ (quantum cap anchor : ℕ) (positive : 0 < quantum) (wide : cap ≤ u64_max)
    (small : anchor ≤ u64_max) where
  pub read_run-put_run :
      (previous : Option ℕ) (step : Step) (steps : List Step) (more : List (Result ℕ))
      (out : List ℕ) {end : ℕ} {out' : List ℕ}
      → Chain quantum cap anchor (step ∷ steps)
      → bad_run cap (length (timed (step ∷ steps) ++ more)) previous (length (step ∷ steps)) quantum
        ≡ false
      → length (step ∷ steps) ≤ u64_max
      → quantum ≤ u64_max
      → put_run anchor (quantum, step ∷ steps) out ≡ ok (end, out')
      → (end ≡ end_of step steps)
        × Wrote out out'
            (read_run cap previous (timed (step ∷ steps) ++ more) (anchor, 0))
            (quantum, end_of step steps, run_points anchor quantum step steps)
  unfolding put_run
  read_run-put_run previous step steps more out {end} {out'} chain good fits narrow e =
      let (out₁, e₁, r₁) = >>=-eq-ok (put_uvarint out (length (step ∷ steps))) _ e in
      let (out₂, e₂, r₂) = >>=-eq-ok (put_uvarint out₁ quantum) _ r₁ in
      let (ends, (mid, last, order, inside, at_end)) =
        read_interior-put_run_values quantum cap anchor positive anchor step steps out₂
          (omega arith) chain r₂ in
      let (above, bounded) = Chain-end quantum cap anchor step steps chain in
      let from_anchor : Wrote out₂ mid (read_interior (length steps) anchor quantum anchor)
          (inner_floors anchor quantum step steps, last) =
        subst
          (λ l.
            Wrote out₂ mid (read_interior (length steps) anchor quantum l)
              (inner_floors anchor quantum step steps, last))
          (floor_of_start anchor quantum) inside in
      (
        ends,
        run_step cap anchor (length (step ∷ steps)) (length steps) quantum
            (end_of step steps - anchor) (end_of step steps) last previous
            (timed (step ∷ steps) ++ more) (inner_floors anchor quantum step steps)
            (run_points anchor quantum step steps) out out₁ out₂ mid out'
            (read_uvarint-put_uvarint out (length (step ∷ steps)) (omega arith) e₁)
            (read_uvarint-put_uvarint out₁ quantum (omega arith) e₂) good (omega arith) from_anchor
            at_end (endpoint_value-end anchor last (end_of step steps) above order bounded)
            (measured-run_points anchor quantum step steps more)
            (run_points-feasible quantum cap anchor step steps positive wide small chain),
      )
