-- ===== src/Wire/Temporal/Interior.antt =====
-- The values of a run of the temporal CSH2 section of recording/wire.rs, read back.
use vim_config.Prelude.{
  ℕ, ◌+◌, ◌-◌, ◌*◌, ◌/◌, ◌≤◌, ◌<◌, ◌≡◌, refl, sym, subst, false, List, [], ◌∷◌, length, arith, ltb,
}
use vim_config.Outcome.{ok, invalid, ok_or, checked_sub, u64_max, >>=-eq-ok}
use vim_config.Wire.Cursor.{Wrote, Wrote-bind, Wrote-lift, Wrote-pure}
use vim_config.Wire.Put.{put_uvarint}
use vim_config.Wire.Read.{read_uvarint}
use vim_config.Wire.Varint.RoundTrip.{read_uvarint-put_uvarint}
use vim_config.Wire.Temporal.{Step}
use vim_config.Wire.Temporal.Encode.{put_run_values}
use vim_config.Wire.Temporal.Decode.{interior_value, read_interior, endpoint_value}
use vim_config.Wire.Temporal.Floors.{
  Chain, floor_of, inner_floors, end_of, floor_of-le, floor_of_mono,
}
use native.Mathlib.Nat.{div-le_self}

interior_value-floor_of :
    (anchor quantum last total : ℕ)
    → anchor ≤ total
    → total ≤ u64_max
    → last ≤ floor_of anchor quantum total
    → interior_value anchor quantum last ((total - anchor) / quantum)
      ≡ ok (floor_of anchor quantum total)
unfolding interior_value
interior_value-floor_of anchor quantum last total above small order =
    let low = floor_of-le anchor quantum total above in
    let fits : ltb u64_max ((total - anchor) / quantum * quantum) ≡ false = ground arith in
    let sum_fits : ltb u64_max (floor_of anchor quantum total) ≡ false = ground arith in
    let behind : ltb (floor_of anchor quantum total) last ≡ false = ground arith in
    rw (fits, sum_fits, behind) refl

pub endpoint_value-end :
    (anchor last end : ℕ)
    → anchor ≤ end
    → last ≤ end
    → end ≤ u64_max
    → endpoint_value anchor last (end - anchor) ≡ ok end
unfolding endpoint_value
endpoint_value-end anchor last end above order small =
    let same : anchor + (end - anchor) ≡ end = omega arith in
    let fits : ltb u64_max end ≡ false = ground arith in
    let behind : ltb end last ≡ false = ground arith in rw (same, fits, behind) refl

module _ (quantum cap anchor : ℕ) (positive : 0 < quantum) where
  -- The points inside, and the difference at the end.
  abbrev pub Inside : (s : ℕ) → Step → List Step → List ℕ → List ℕ → Type 0
  Inside s step steps out out' =
      (mid : List ℕ) × (last : ℕ) × (last ≤ end_of step steps)
      × Wrote out mid (read_interior (length steps) anchor quantum (floor_of anchor quantum s))
          (inner_floors anchor quantum step steps, last)
      × Wrote mid out' read_uvarint (end_of step steps - anchor)

  pub read_interior-put_run_values :
      (s : ℕ) (step : Step) (steps : List Step) (out : List ℕ) {end : ℕ} {out' : List ℕ}
      → anchor ≤ s
      → Chain quantum cap s (step ∷ steps)
      → put_run_values anchor quantum step steps out ≡ ok (end, out')
      → (end ≡ end_of step steps) × Inside s step steps out out'
  unfolding put_run_values read_interior
  read_interior-put_run_values s (duration, total) [] out {end} {out'} above
        (rises, small, short, chosen, rest) e =
      let (difference, e₁, e₂) = >>=-eq-ok (ok_or (checked_sub total anchor) invalid) _ e in
      let (mid, e₃, e₄) = >>=-eq-ok (put_uvarint out difference) _ e₂ in
      let same : difference ≡ total - anchor = ground arith in
      let ends : total ≡ end = cc in
      let written : mid ≡ out' = cc in
      let low = floor_of-le anchor quantum s above in
      let wrote : Wrote out mid read_uvarint difference =
        read_uvarint-put_uvarint out difference (omega arith) e₃ in
      (
        sym ends,
        (
          out,
          floor_of anchor quantum s,
          omega arith,
          Wrote-pure _ refl,
          subst (λ o. Wrote out o read_uvarint (total - anchor)) written
              (subst (λ n. Wrote out mid read_uvarint n) same wrote),
        ),
      )
  read_interior-put_run_values s (duration, total) (step ∷ steps) out {end} {out'} above
        (rises, small, short, chosen, rest) e =
      let (difference, e₁, e₂) = >>=-eq-ok (ok_or (checked_sub total anchor) invalid) _ e in
      let (mid, e₃, e₄) = >>=-eq-ok (put_uvarint out (difference / quantum)) _ e₂ in
      let same : difference ≡ total - anchor = ground arith in
      let narrow : (total - anchor) / quantum ≤ total - anchor =
        div-le_self (total - anchor) quantum in
      let (ends, (mid', last, order, inside, at_end)) =
        read_interior-put_run_values total step steps mid (omega arith) rest e₄ in
      let wrote : Wrote out mid read_uvarint ((total - anchor) / quantum) =
        read_uvarint-put_uvarint out ((total - anchor) / quantum) (omega arith) (rw (← same) e₃) in
      let value =
        interior_value-floor_of anchor quantum (floor_of anchor quantum s) total (omega arith) small
          (floor_of_mono anchor quantum s total positive rises) in
      (
        ends,
        (
          mid',
          last,
          order,
          Wrote-bind _ out wrote
              (Wrote-lift _ mid value (Wrote-bind _ mid inside (Wrote-pure _ refl))),
          at_end,
        ),
      )
