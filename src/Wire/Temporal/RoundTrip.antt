-- ===== src/Wire/Temporal/RoundTrip.antt =====
-- A track of the temporal CSH2 section of recording/wire.rs, read back.
use vim_config.Prelude.{
  ℕ, suc, ◌+◌, ◌-◌, ◌≤◌, ◌≡◌, refl, sym, subst, ap, false, List, [], ◌∷◌, ◌++◌, length,
  length-append, drop, drop-length-append, arith, Option, some,
}
use vim_config.Outcome.{Result, ok, u64_max, ok-injective, >>=-eq-ok}
use vim_config.Cpu.Feasible.{Floor}
use vim_config.Wire.Cursor.{Wrote, Wrote-bind, Wrote-pure}
use vim_config.Wire.Temporal.{Step, Point, Run}
use vim_config.Wire.Temporal.Encode.{put_run, put_runs}
use vim_config.Wire.Temporal.Decode.{same_quantum, read_run, read_runs}
use vim_config.Wire.Temporal.Floors.{Chain, end_of, run_points, Chain-end}
use vim_config.Wire.Temporal.Runs.{
  timed, length-timed, bad_run_ok, temporal_storage_quantum-admitted, read_run-put_run,
}

-- The runs follow one another from the total `s` on; none is empty, and none has the quantum of the one
-- before it.
abbrev pub Good : (cap : ℕ) → Option ℕ → (s : ℕ) → List Run → Type 0
Good cap previous s [] = Unit {0}
Good cap previous s ((quantum, []) ∷ runs) = ⊥
Good cap previous s ((quantum, step ∷ steps) ∷ runs) =
    (same_quantum previous quantum ≡ false)
    × Chain quantum cap s (step ∷ steps)
    × Good cap (some quantum) (end_of step steps) runs

abbrev pub all_steps : List Run → List Step
all_steps [] = []
all_steps ((quantum, steps) ∷ runs) = steps ++ all_steps runs

abbrev pub track_points : (anchor : ℕ) → List Run → List Point
track_points anchor [] = []
track_points anchor ((quantum, []) ∷ runs) = track_points anchor runs
track_points anchor ((quantum, step ∷ steps) ∷ runs) =
    run_points anchor quantum step steps ++ track_points (end_of step steps) runs

timed-append : (steps more : List Step) → timed (steps ++ more) ≡ timed steps ++ timed more
timed-append [] more = refl
timed-append ((duration, total) ∷ steps) more =
    ap (λ rest. ok duration ∷ rest) (timed-append steps more)

length-run_points :
    (anchor quantum : ℕ) (step : Step) (steps : List Step)
    → length (run_points anchor quantum step steps) ≡ length (timed (step ∷ steps))
length-run_points anchor quantum (duration, total) [] = refl
length-run_points anchor quantum (duration, total) (step ∷ steps) =
    ap suc (length-run_points anchor quantum step steps)

drop-run_points :
    (anchor quantum : ℕ) (step : Step) (steps : List Step) (more : List (Result ℕ))
    → drop (length (run_points anchor quantum step steps)) (timed (step ∷ steps) ++ more) ≡ more
drop-run_points anchor quantum step steps more =
    rw (length-run_points anchor quantum step steps)
      (drop-length-append (timed (step ∷ steps)) more)

runs_step :
    (cap anchor quantum end count : ℕ) (previous : Option ℕ) (intervals left : List (Result ℕ))
    (points rest : List Point) (out mid out' : List ℕ)
    → Wrote out mid (read_run cap previous intervals (anchor, 0)) (quantum, end, points)
    → drop (length points) intervals ≡ left
    → Wrote mid out' (read_runs count cap (some quantum) left (end, 0)) rest
    → Wrote out out' (read_runs (suc count) cap previous intervals (anchor, 0)) (points ++ rest)
unfolding read_runs
runs_step top anchor quantum end count previous intervals left points rest out mid out' first
      dropped later =
    let later' =
      subst (λ i. Wrote mid out' (read_runs count top (some quantum) i (end, 0)) rest) (sym dropped)
        later in
    Wrote-bind _ out first (Wrote-bind _ mid later' (Wrote-pure _ refl))

runs_done :
    (cap : ℕ) (previous : Option ℕ) (start : Floor) (out : List ℕ)
    → Wrote out out (read_runs 0 cap previous [] start) []
unfolding read_runs
runs_done top previous start out = Wrote-pure [] refl

pub read_runs-put_runs :
    (cap anchor : ℕ) (previous : Option ℕ) (runs : List Run) (out out' : List ℕ)
    → cap ≤ u64_max
    → anchor ≤ u64_max
    → length (all_steps runs) ≤ u64_max
    → Good cap previous anchor runs
    → put_runs anchor runs out ≡ ok out'
    → Wrote out out'
        (read_runs (length runs) cap previous (timed (all_steps runs)) (anchor, 0))
        (track_points anchor runs)
unfolding put_runs
read_runs-put_runs top anchor previous [] out out' wide small short good e =
    subst (λ o. Wrote out o (read_runs 0 top previous [] (anchor, 0)) []) (ok-injective e)
      (runs_done top previous (anchor, 0) out)
read_runs-put_runs top anchor previous ((quantum, []) ∷ runs) out out' wide small short good e =
    absurd good
read_runs-put_runs top anchor previous ((quantum, (duration, total) ∷ steps) ∷ runs) out out' wide
      small short (differs, (rises, bounded, brief, chosen, chain), good) e =
    let step : Step = (duration, total) in
    let whole : Chain quantum top anchor (step ∷ steps) = (rises, bounded, brief, chosen, chain) in
    let ((end, mid), e₁, e₂) = >>=-eq-ok (put_run anchor (quantum, step ∷ steps) out) _ e in
    let (positive, below, shape) =
      temporal_storage_quantum-admitted (total - anchor) duration top quantum wide chosen in
    let more = timed (all_steps runs) in
    let size : length (step ∷ steps) ≤ length (timed (step ∷ steps) ++ more) =
      omega (arith, length-append (timed (step ∷ steps)) more, length-timed (step ∷ steps)) in
    let fits : length (step ∷ steps) + length (all_steps runs) ≤ u64_max =
      omega (arith, length-append (step ∷ steps) (all_steps runs)) in
    let admitted =
      bad_run_ok top quantum (length (timed (step ∷ steps) ++ more)) (length (step ∷ steps))
        previous positive below shape differs (omega arith) size in
    let (ends, first) =
      read_run-put_run quantum top anchor positive wide small previous step steps more out whole
        admitted (omega arith) (omega arith) e₁ in
    let (onward, ended) = Chain-end quantum top anchor step steps whole in
    let later =
      read_runs-put_runs top (end_of step steps) (some quantum) runs mid out' wide ended
        (omega arith) good (subst (λ n. put_runs n runs mid ≡ ok out') ends e₂) in
    subst
      (λ i.
        Wrote out out' (read_runs (suc (length runs)) top previous i (anchor, 0))
          (run_points anchor quantum step steps ++ track_points (end_of step steps) runs))
      (sym (timed-append (step ∷ steps) (all_steps runs)))
      (runs_step top anchor quantum (end_of step steps) (length runs) previous
        (timed (step ∷ steps) ++ more) more (run_points anchor quantum step steps)
        (track_points (end_of step steps) runs) out mid out' first
        (drop-run_points anchor quantum step steps more) later)
