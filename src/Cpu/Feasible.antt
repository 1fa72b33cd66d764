-- ===== src/Cpu/Feasible.antt =====
-- `temporal_run_values_feasible` and `run_values_feasible` of recording/wire.rs: whether some totals
-- explain the floors that a run decodes to. The slices from `start` to `end` are the first point and a
-- list of the points after it.
pub mod Explained
pub mod Encoded
use vim_config.Prelude.{
  ℕ, ◌+◌, ◌≤◌, Bool, true, false, List, [], ◌∷◌, Option, none, some, ltb, if◌then◌else◌, min, max,
}
use vim_config.Outcome.{checked, u64_max, u128_max}
use vim_config.Model.{Profile}
use vim_config.Cpu.Range.{Range, allowed_delta_range, temporal_allowed_delta_range}

-- A decoded floor and the most that the total may be above it.
abbrev pub Floor : Type 0
Floor = ℕ × ℕ

abbrev pub point_min : Floor → ℕ
point_min (floor, residual_max) = floor

abbrev pub point_max : Floor → ℕ
point_max (floor, residual_max) = min (floor + residual_max) u64_max

-- The end of the loop's body: the reachable totals of a point, cut off at its floor and residual.
abbrev pub clamp : {A : Type 0} → Floor → (next_min next_max : ℕ) → (ℕ → ℕ → A) → A → A
clamp p next_min next_max continue refused =
    let reachable_min = max next_min (point_min p) in
    let reachable_max = min next_max (point_max p) in
    if ltb reachable_max reachable_min then refused else continue reachable_min reachable_max

-- The points after the first, each with the duration of the interval that ends at it.
unfoldable pub temporal_reach :
    (quantum cap : ℕ) → List (ℕ × Floor) → (reachable_min reachable_max : ℕ) → Bool
temporal_reach quantum cap [] reachable_min reachable_max = true
temporal_reach quantum cap ((duration, p) ∷ rest) reachable_min reachable_max =
    elim (temporal_allowed_delta_range quantum cap duration) [
      | none ↦ false
      | some (delta_min, delta_max) ↦ elim (checked u128_max (reachable_min + delta_min)) [
        | none ↦ false
        | some next_min ↦ elim (checked u128_max (reachable_max + delta_max)) [
          | none ↦ false
          | some next_max ↦ clamp p next_min next_max (temporal_reach quantum cap rest) false
        ]
      ]
    ]

unfoldable pub temporal_run_values_feasible : Floor → List (ℕ × Floor) → (quantum cap : ℕ) → Bool
unfolding temporal_reach
temporal_run_values_feasible (floor, residual_max) rest quantum cap =
    elim (checked u128_max (floor + residual_max)) [
      | none ↦ false
      | some reachable_max ↦ temporal_reach quantum cap rest floor reachable_max
    ]

abbrev pub saturating_add : ℕ → ℕ → ℕ
saturating_add a b = min (a + b) u128_max

unfoldable pub reach :
    (delta_min delta_max : ℕ) → List Floor → (reachable_min reachable_max : ℕ) → Bool
reach delta_min delta_max [] reachable_min reachable_max = true
reach delta_min delta_max (p ∷ rest) reachable_min reachable_max =
    clamp p (saturating_add reachable_min delta_min) (saturating_add reachable_max delta_max)
      (reach delta_min delta_max rest) false

unfoldable pub run_values_feasible : (start : ℕ) → List Floor → (quantum cap : ℕ) → Profile → Bool
unfolding reach
run_values_feasible start rest quantum cap profile =
    elim (allowed_delta_range profile quantum cap) [
      | none ↦ false
      | some (delta_min, delta_max) ↦ reach delta_min delta_max rest start start
    ]
