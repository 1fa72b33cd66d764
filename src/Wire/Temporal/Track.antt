-- ===== src/Wire/Temporal/Track.antt =====
-- A whole track of the temporal CSH2 section of recording/wire.rs: what a decoder makes of the samples
-- that an encoder was given.
use vim_config.Prelude.{
  ℕ, suc, ◌+◌, ◌-◌, ◌*◌, ◌≤◌, ◌<◌, ◌≡◌, refl, subst, ap, ◌∙◌, List, [], ◌∷◌, ◌++◌, length,
  length-append, arith, Option, none, some, All,
}
use vim_config.Outcome.{Result, ok, u64_max, >>=-eq-ok}
use vim_config.Cpu.Quantum.{temporal_storage_quantum}
use vim_config.Wire.Cursor.{Wrote, Wrote-bind, Reads-bind-pure}
use vim_config.Wire.Put.{put_uvarint, check_wire_size}
use vim_config.Wire.Read.{read_uvarint}
use vim_config.Wire.Varint.RoundTrip.{read_uvarint-put_uvarint}
use vim_config.Wire.Temporal.{Step, Point, Run}
use vim_config.Wire.Temporal.Encode.{Sample, quanta, runs_of, put_runs, put_track}
use vim_config.Wire.Temporal.Decode.{read_runs, read_track}
use vim_config.Wire.Temporal.Floors.{Chain, end_of, run_points, floor_of-le, floor_of-near}
use vim_config.Wire.Temporal.Runs.{timed, length-timed, temporal_storage_quantum-admitted}
use vim_config.Wire.Temporal.RoundTrip.{Good, all_steps, track_points, read_runs-put_runs}
use vim_config.Wire.Temporal.Grouping.{IsWord, steps_between, runs_of-Good}
use vim_config.Wire.Temporal.Counts.{put_runs_grows, runs_count, count_step}

-- The points stand for the totals: each floor is below its total by less than the quantum of the
-- interval that ends there, and the last is exact.
abbrev pub Close : (cap s : ℕ) → List Step → List Point → Type 0
Close cap s [] [] = Unit {0}
Close cap s [] (point ∷ points) = ⊥
Close cap s (step ∷ steps) [] = ⊥
Close cap s ((duration, total) ∷ steps) ((lasted, (floor, residual)) ∷ points) =
    (lasted ≡ duration)
    × (floor ≤ total)
    × (total ≤ floor + residual)
    × ((quantum : ℕ) × (temporal_storage_quantum (total - s) duration cap ≡ ok quantum)
        × (residual < quantum))
    × (steps ≡ [] → residual ≡ 0)
    × Close cap total steps points

run_points-Close :
    (quantum cap anchor s : ℕ) (step : Step) (steps rest : List Step) (points : List Point)
    → 0 < quantum
    → anchor ≤ s
    → Chain quantum cap s (step ∷ steps)
    → Close cap (end_of step steps) rest points
    → Close cap s ((step ∷ steps) ++ rest) (run_points anchor quantum step steps ++ points)
run_points-Close quantum top anchor s (duration, total) [] rest points positive above
      (rises, small, short, chosen, chain) close =
    (refl, omega arith, omega arith, (quantum, chosen, positive), (λ h. refl), close)
run_points-Close quantum top anchor s (duration, total) (step ∷ steps) rest points positive above
      (rises, small, short, chosen, chain) close =
    let later =
      run_points-Close quantum top anchor total step steps rest points positive (omega arith) chain
        close in
    (
      refl,
      floor_of-le anchor quantum total (omega arith),
      floor_of-near anchor quantum total positive (omega arith),
      (quantum, chosen, omega arith),
      (λ h. cc),
      later,
    )

track_points-Close :
    (cap s : ℕ) (previous : Option ℕ) (runs : List Run)
    → cap ≤ u64_max
    → Good cap previous s runs
    → Close cap s (all_steps runs) (track_points s runs)
track_points-Close top s previous [] wide good = tt
track_points-Close top s previous ((quantum, []) ∷ runs) wide good = absurd good
track_points-Close top s previous ((quantum, (duration, total) ∷ steps) ∷ runs) wide
      (differs, (rises, small, short, chosen, chain), good) =
    let (positive, _, _) =
      temporal_storage_quantum-admitted (total - s) duration top quantum wide chosen in
    run_points-Close quantum top s s (duration, total) steps (all_steps runs)
      (track_points (end_of (duration, total) steps) runs) positive (omega arith)
      (rises, small, short, chosen, chain)
      (track_points-Close top (end_of (duration, total) steps) (some quantum) runs wide good)

track_step :
    (cap total : ℕ) (intervals : List (Result ℕ)) (run_count : ℕ) (points : List Point)
    (out out₁ out₂ out' : List ℕ)
    → Wrote out out₁ read_uvarint total
    → Wrote out₁ out₂ read_uvarint run_count
    → run_count ≤ length intervals
    → (run_count ≡ 0 → length intervals ≡ 0)
    → length out₂ + 2 * run_count ≤ length out'
    → Wrote out₂ out' (read_runs run_count cap none intervals (total, 0)) points
    → Wrote out out' (read_track cap intervals) (total, points)
unfolding read_track
track_step top total intervals run_count points out out₁ out₂ out' w₁ w₂ fewer some_runs room
      (bs, split, reads) =
    let size : 2 * run_count ≤ length bs = omega (arith, ap length split, length-append out₂ bs) in
    let checked =
      count_step (length intervals) run_count _ bs (total, points) fewer some_runs size
        (Reads-bind-pure _ reads refl) in
    Wrote-bind _ out w₁ (Wrote-bind _ out₁ w₂ (bs, split, checked))

-- What a decoder makes of a track: points that are close to the samples' totals.
abbrev pub Decoded : (cap time total : ℕ) → List Sample → (out out' : List ℕ) → Type 0
Decoded cap time total samples out out' =
    (points : List Point) × Close cap total (steps_between time samples) points
    × Wrote out out' (read_track cap (timed (steps_between time samples))) (total, points)

track_parts :
    (cap time total : ℕ) (samples : List Sample) (runs : List Run) (out out₁ out₂ out' : List ℕ)
    → cap ≤ u64_max
    → total ≤ u64_max
    → length (all_steps runs) ≤ u64_max
    → put_uvarint out total ≡ ok out₁
    → Good cap none total runs
    → all_steps runs ≡ steps_between time samples
    → put_uvarint out₁ (length runs) ≡ ok out₂
    → put_runs total runs out₂ ≡ ok out'
    → Decoded cap time total samples out out'
track_parts top time total samples runs out out₁ out₂ out' wide small short e₁ good flat e₂ e₃ =
    let (fewer, some_runs) = runs_count top total none runs good in
    let size : length (timed (all_steps runs)) ≡ length (all_steps runs) =
      length-timed (all_steps runs) in
    let read = read_runs-put_runs top total none runs out₂ out' wide small short good e₃ in
    let whole =
      track_step top total (timed (all_steps runs)) (length runs) (track_points total runs) out out₁
        out₂ out' (read_uvarint-put_uvarint out total (omega arith) e₁)
        (read_uvarint-put_uvarint out₁ (length runs) (omega arith) e₂) (omega arith)
        (λ h. size ∙ some_runs h) (put_runs_grows top total total none runs out₂ good e₃) read in
    (
      track_points total runs,
      subst (λ steps. Close top total steps (track_points total runs)) flat
          (track_points-Close top total none runs wide good),
      subst
          (λ steps. Wrote out out' (read_track top (timed steps)) (total, track_points total runs))
          flat whole,
    )

length-steps_between :
    (time : ℕ) (samples : List Sample) → length (steps_between time samples) ≡ length samples
length-steps_between time [] = refl
length-steps_between time ((next_time, next_total) ∷ samples) =
    ap suc (length-steps_between next_time samples)

-- A track that was written for samples whose times and totals are u64s is read back, given the
-- durations between the samples: the first total exactly, and for each later sample a floor that is
-- below the total by less than the quantum chosen for its interval, and the last total exactly. The
-- cap is a u64, and so is the count of the samples.
pub read_track-put_track :
    (cap time total : ℕ) (samples : List Sample) (out : List ℕ) {out' : List ℕ}
    → cap ≤ u64_max
    → total ≤ u64_max
    → length samples ≤ u64_max
    → All IsWord samples
    → put_track cap (time, total) samples out ≡ ok out'
    → Decoded cap time total samples out out'
unfolding put_track
read_track-put_track top time total samples out {out'} wide small short words e =
    let (out₁, e₁, r₁) = >>=-eq-ok (put_uvarint out total) _ e in
    let (steps, e₂, r₂) = >>=-eq-ok (quanta top (time, total) samples) _ r₁ in
    let (out₂, e₃, r₃) = >>=-eq-ok (put_uvarint out₁ (length (runs_of steps))) _ r₂ in
    let (good, flat) = runs_of-Good top time total samples steps words e₂ in
    let size : length (all_steps (runs_of steps)) ≤ u64_max =
      omega (arith, ap length flat, length-steps_between time samples) in
    let (out₃, e₄, r₄) = >>=-eq-ok (put_runs total (runs_of steps) out₂) _ r₃ in
    let (_, _, r₅) = >>=-eq-ok (check_wire_size out₃) _ r₄ in
    track_parts top time total samples (runs_of steps) out out₁ out₂ out' wide small size e₁ good
      flat e₃ (e₄ ∙ r₅)
