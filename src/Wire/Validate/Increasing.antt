-- ===== src/Wire/Validate/Increasing.antt =====
-- What `validate_rows` of recording/wire.rs accepts.
use vim_config.Prelude.{
  ℕ, ◌+◌, ◌≤◌, ◌<◌, ◌≡◌, subst, false, ◌||◌, List, [], ◌∷◌, length, Option, none, some, arith, ltb,
  All,
}
use vim_config.Outcome.{
  ok, unsorted, overflow, exceeds_limit, refuse, refuse_ok, ok_or, checked, u64_max, ok-injective,
  >>=-eq-ok,
}
use vim_config.Model.{Timebase, validate, Observation, validate_observation, max_points}
use vim_config.Model.Validity.{IsObservation, validate_observation_iff}
use vim_config.Wire.Validate.{
  JsonView, Layout, Counters, not_after, add_psd1_row_expansion, check_counters, reset_counters,
  rows_loop, validate_rows,
}

abbrev pub After : Option ℕ → ℕ → Type 0
After none n = Unit {0}
After (some previous) n = previous < n

-- Sequence numbers and scan-start times increase strictly from row to row.
abbrev pub Increasing :
    {V : Type 0} → (previous_seq previous_scan : Option ℕ) → List (Observation V) → Type 0
Increasing seq scan [] = Unit {0}
Increasing seq scan (row ∷ rows) =
    After seq row.seq
    × After scan row.scan_start_ns
    × Increasing (some row.seq) (some row.scan_start_ns) rows

abbrev pub point_count : {V : Type 0} → List (Observation V) → ℕ
point_count [] = 0
point_count (row ∷ rows) = length row.processes + point_count rows

After-not_after : (previous : Option ℕ) (n : ℕ) → not_after previous n ≡ false → After previous n
After-not_after none n h = tt
After-not_after (some m) n h = ground arith

module _ {V : Type 0} (view : JsonView V) (layout : Layout) where
  abbrev pub Accepted : (seq scan : Option ℕ) → (points n : ℕ) → List (Observation V) → Type 0
  Accepted seq scan points n rows =
      (n ≡ points + point_count rows)
      × (n ≤ max_points)
      × All IsObservation rows
      × Increasing seq scan rows

  rows_loop-Accepted :
      (seq scan : Option ℕ) (points bytes : ℕ) (counters : Counters) (rows : List (Observation V))
      {n : ℕ}
      → points ≤ max_points
      → rows_loop view layout seq scan points bytes counters rows ≡ ok n
      → Accepted seq scan points n rows
  unfolding rows_loop
  rows_loop-Accepted seq scan points bytes counters [] few e =
      let same : points ≡ _ = ok-injective e in (omega arith, omega arith, tt, tt)
  rows_loop-Accepted seq scan points bytes counters (row ∷ rows) {n} few e =
      let (_, e₁, r₁) = >>=-eq-ok (validate_observation row) _ e in
      let (_, e₂, r₂) =
        >>=-eq-ok (refuse (not_after seq row.seq || not_after scan row.scan_start_ns) unsorted) _
          r₁ in
      let (points', e₃, r₃) =
        >>=-eq-ok (ok_or (checked u64_max (points + length row.processes)) overflow) _ r₂ in
      let (_, e₄, r₄) = >>=-eq-ok (refuse (ltb max_points points') exceeds_limit) _ r₃ in
      let (expanded, e₅, r₅) = >>=-eq-ok (add_psd1_row_expansion layout bytes row.processes) _ r₄ in
      let (counters', e₆, r₆) =
        >>=-eq-ok (check_counters (reset_counters view layout row.quality counters) row.processes) _
          r₅ in
      let sum : points' ≡ points + length row.processes = ground arith in
      let small : points' ≤ max_points = ground arith in
      let (count, bound, members, later) =
        rows_loop-Accepted (some row.seq) (some row.scan_start_ns) points' expanded counters' rows
          small r₆ in
      let (sound, _) = validate_observation_iff row in
      let clocks : (not_after seq row.seq || not_after scan row.scan_start_ns) ≡ false =
        refuse_ok _ _ e₂ in
      (
        omega arith,
        bound,
        (sound e₁, members),
        (
          After-not_after seq row.seq (ground arith),
          After-not_after scan row.scan_start_ns (ground arith),
          later,
        ),
      )

  -- If `validate_rows` accepts rows, it returns their number of processes, which is at most a million;
  -- every row is a well-formed observation; and sequence numbers and scan-start times increase strictly.
  pub validate_rows-Accepted :
      (cpu_timebase : Timebase) (rows : List (Observation V)) {n : ℕ}
      → validate_rows view layout cpu_timebase rows ≡ ok n
      → Accepted none none 0 n rows
  unfolding validate_rows
  validate_rows-Accepted cpu_timebase rows {n} e =
      let (_, e₁, r₁) = >>=-eq-ok (refuse (ltb max_points (length rows)) exceeds_limit) _ e in
      let (points, e₂, r₂) = >>=-eq-ok (rows_loop view layout none none 0 0 [] rows) _ r₁ in
      let (_, e₃, r₃) = >>=-eq-ok (validate cpu_timebase) _ r₂ in
      subst (λ k. Accepted none none 0 k rows) (ok-injective r₃)
        (rows_loop-Accepted none none 0 0 [] rows (omega arith) e₂)
