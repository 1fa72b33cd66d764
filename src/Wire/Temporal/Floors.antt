-- ===== src/Wire/Temporal/Floors.antt =====
-- The floors that a run of the temporal CSH2 section of recording/wire.rs keeps of its totals.
use vim_config.Prelude.{
  ℕ, ◌+◌, ◌-◌, ◌*◌, ◌/◌, ◌≤◌, ◌<◌, ◌≡◌, sym, subst, true, List, [], ◌∷◌, arith, min,
}
use vim_config.Outcome.{ok, u64_max}
use vim_config.Cpu.Quantum.{temporal_storage_quantum}
use vim_config.Cpu.Feasible.{Floor, temporal_run_values_feasible}
use vim_config.Cpu.Feasible.Encoded.{Chosen, temporal_run_values_feasible-Chosen}
use vim_config.Wire.Temporal.{Step, Point}
use native.Mathlib.Nat.{div-mul-le_self, lt-div-mul-add, le-div_iff_mul-le, mul-le-mul_right}

-- From the total `s` on, the totals rise, and every interval has the one quantum.
abbrev pub Chain : (quantum cap : ℕ) → (s : ℕ) → List Step → Type 0
Chain quantum cap s [] = Unit {0}
Chain quantum cap s ((duration, total) ∷ steps) =
    (s ≤ total)
    × (total ≤ u64_max)
    × (duration ≤ u64_max)
    × (temporal_storage_quantum (total - s) duration cap ≡ ok quantum)
    × Chain quantum cap total steps

-- The largest multiple of the quantum above the anchor that a total has reached.
abbrev pub floor_of : (anchor quantum total : ℕ) → ℕ
floor_of anchor quantum total = anchor + (total - anchor) / quantum * quantum

abbrev pub inner_floors : (anchor quantum : ℕ) → Step → List Step → List Floor
inner_floors anchor quantum (duration, total) [] = []
inner_floors anchor quantum (duration, total) (step ∷ steps) =
    (floor_of anchor quantum total, quantum - 1) ∷ inner_floors anchor quantum step steps

abbrev pub end_of : Step → List Step → ℕ
end_of (duration, total) [] = total
end_of (duration, total) (step ∷ steps) = end_of step steps

-- What a decoder makes of a run: floors with the bound `quantum - 1` inside, and an exact end.
abbrev pub run_points : (anchor quantum : ℕ) → Step → List Step → List Point
run_points anchor quantum (duration, total) [] = (duration, (total, 0)) ∷ []
run_points anchor quantum (duration, total) (step ∷ steps) =
    (duration, (floor_of anchor quantum total, quantum - 1)) ∷ run_points anchor quantum step steps

pub floor_of-le :
    (anchor quantum total : ℕ) → anchor ≤ total → floor_of anchor quantum total ≤ total
floor_of-le anchor quantum total h = omega (arith, div-mul-le_self (total - anchor) quantum)

pub floor_of-near :
    (anchor quantum total : ℕ)
    → 0 < quantum
    → anchor ≤ total
    → total ≤ floor_of anchor quantum total + (quantum - 1)
floor_of-near anchor quantum total positive h =
    let near : total - anchor < (total - anchor) / quantum * quantum + quantum =
      lt-div-mul-add positive in
    omega arith

pub floor_of_mono :
    (anchor quantum s total : ℕ)
    → 0 < quantum
    → s ≤ total
    → floor_of anchor quantum s ≤ floor_of anchor quantum total
floor_of_mono anchor quantum s total positive h =
    let (_, divides) =
      le-div_iff_mul-le {x = (s - anchor) / quantum} {y = total - anchor} positive in
    let back : (s - anchor) / quantum * quantum ≤ s - anchor =
      div-mul-le_self (s - anchor) quantum in
    let quotients : (s - anchor) / quantum ≤ (total - anchor) / quantum = divides (omega arith) in
    let products : (s - anchor) / quantum * quantum ≤ (total - anchor) / quantum * quantum =
      mul-le-mul_right quantum quotients in
    omega arith

pub Chain-end :
    (quantum cap s : ℕ) (step : Step) (steps : List Step)
    → Chain quantum cap s (step ∷ steps)
    → (s ≤ end_of step steps) × (end_of step steps ≤ u64_max)
Chain-end quantum top s (duration, total) [] (rises, small, short, chosen, rest) = (rises, small)
Chain-end quantum top s (duration, total) (step ∷ steps) (rises, small, short, chosen, rest) =
    let (onward, bounded) = Chain-end quantum top total step steps rest in (omega arith, bounded)

Chosen-longer :
    (quantum cap s t duration floor residual : ℕ) (points : List Point)
    → s ≤ t
    → duration ≤ u64_max
    → temporal_storage_quantum (t - s) duration cap ≡ ok quantum
    → floor ≤ t
    → t ≤ min (floor + residual) u64_max
    → Chosen quantum cap points t
    → Chosen quantum cap ((duration, (floor, residual)) ∷ points) s
unfolding Chosen
Chosen-longer quantum top s t duration floor residual points rises short chosen low high rest =
    let same : s + (t - s) ≡ t = omega arith in
    (
      t - s,
      short,
      chosen,
      (omega arith, omega arith),
      subst (λ n. Chosen quantum top points n) (sym same) rest,
    )

run_points-Chosen :
    (quantum cap anchor s : ℕ) (step : Step) (steps : List Step)
    → 0 < quantum
    → anchor ≤ s
    → Chain quantum cap s (step ∷ steps)
    → Chosen quantum cap (run_points anchor quantum step steps) s
unfolding Chosen
run_points-Chosen quantum top anchor s (duration, total) [] positive above
      (rises, small, short, chosen, rest) =
    Chosen-longer quantum top s total duration total 0 [] rises short chosen (omega arith)
      (omega arith) tt
run_points-Chosen quantum top anchor s (duration, total) (step ∷ steps) positive above
      (rises, small, short, chosen, rest) =
    let later = run_points-Chosen quantum top anchor total step steps positive (omega arith) rest in
    let low = floor_of-le anchor quantum total (omega arith) in
    let near = floor_of-near anchor quantum total positive (omega arith) in
    Chosen-longer quantum top s total duration (floor_of anchor quantum total) (quantum - 1)
      (run_points anchor quantum step steps) rises short chosen low (omega arith) later

-- The feasibility test passes a run.
pub run_points-feasible :
    (quantum cap anchor : ℕ) (step : Step) (steps : List Step)
    → 0 < quantum
    → cap ≤ u64_max
    → anchor ≤ u64_max
    → Chain quantum cap anchor (step ∷ steps)
    → temporal_run_values_feasible (anchor, 0) (run_points anchor quantum step steps) quantum cap
      ≡ true
run_points-feasible quantum top anchor step steps positive wide small chain =
    temporal_run_values_feasible-Chosen (anchor, 0) (run_points anchor quantum step steps) quantum
      top anchor wide small (omega arith) (omega arith, omega arith)
      (run_points-Chosen quantum top anchor anchor step steps positive (omega arith) chain)
