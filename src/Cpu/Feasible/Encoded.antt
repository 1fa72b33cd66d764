-- ===== src/Cpu/Feasible/Encoded.antt =====
-- The feasibility tests of recording/wire.rs on the runs that an encoder writes.
use vim_config.Prelude.{
  ℕ, ◌+◌, ◌≤◌, ◌≡◌, refl, true, false, List, [], ◌∷◌, some, ltb, min, max, arith,
}
use vim_config.Outcome.{ok, u64_max}
use vim_config.Model.{Profile}
use vim_config.Cpu.Quantum.{temporal_storage_quantum}
use vim_config.Cpu.Range.{allowed_delta_range}
use vim_config.Cpu.Range.Deltas.{temporal_allowed_delta_range-temporal_storage_quantum}
use vim_config.Cpu.Feasible.{
  Floor, point_min, point_max, temporal_run_values_feasible, reach, run_values_feasible,
  saturating_add,
}
use vim_config.Cpu.Feasible.Explained.{At, Explained, Starts, temporal_run_values_feasible_iff}

-- From `total` on: the quantum of every interval is the one that the encoder chooses for its delta and
-- duration.
unfoldable pub Chosen : (quantum cap : ℕ) → List (ℕ × Floor) → (total : ℕ) → Type 0
Chosen quantum cap [] total = Unit
Chosen quantum cap ((duration, p) ∷ rest) total =
    (delta : ℕ) × (duration ≤ u64_max)
    × (temporal_storage_quantum delta duration cap ≡ ok quantum)
    × At p (total + delta)
    × Chosen quantum cap rest (total + delta)

Chosen-Explained :
    (quantum cap : ℕ) (rest : List (ℕ × Floor)) (t : ℕ)
    → cap ≤ u64_max
    → Chosen quantum cap rest t
    → Explained quantum cap rest t
unfolding Chosen Explained
Chosen-Explained quantum top [] t wide h = tt
Chosen-Explained quantum top ((duration, p) ∷ rest) t wide
      (delta, short, chosen, (above, below), h) =
    let (lo, hi, e, at_least, at_most, _) =
      temporal_allowed_delta_range-temporal_storage_quantum delta duration top quantum (omega arith)
        short wide chosen in
    (
      delta,
      lo,
      hi,
      e,
      at_least,
      at_most,
      (above, below),
      Chosen-Explained quantum top rest (t + delta) wide h,
    )

-- A decoder never refuses a run of an encoder as infeasible: if the true totals lie between each
-- point's floor and the floor plus the residual, and every interval's quantum is the one chosen for
-- its delta and duration, the run is feasible. The cap, the durations, the first floor and the first
-- residual are u64s.
pub temporal_run_values_feasible-Chosen :
    (p : Floor) (rest : List (ℕ × Floor)) (quantum cap t : ℕ)
    → cap ≤ u64_max
    → p.0 ≤ u64_max
    → p.1 ≤ u64_max
    → At p t
    → Chosen quantum cap rest t
    → temporal_run_values_feasible p rest quantum cap ≡ true
unfolding Starts
temporal_run_values_feasible-Chosen p rest quantum top t wide small_floor small_residual
      (above, below) h =
    let (_, accept) =
      temporal_run_values_feasible_iff p rest quantum top small_floor small_residual in
    accept (t, above, omega arith, Chosen-Explained quantum top rest t wide h)

-- From `total` on, a total at every point, each the one before it plus a delta from `lo` to `hi`.
unfoldable pub Within : (lo hi : ℕ) → List Floor → (total : ℕ) → Type 0
Within lo hi [] total = Unit
Within lo hi (p ∷ rest) total =
    (delta : ℕ) × (lo ≤ delta)
    × (delta ≤ hi)
    × At p (total + delta)
    × Within lo hi rest (total + delta)

reach-Within :
    (lo hi : ℕ) (rest : List Floor) (a b t : ℕ)
    → a ≤ t
    → t ≤ b
    → Within lo hi rest t
    → reach lo hi rest a b ≡ true
unfolding Within reach
reach-Within lo hi [] a b t low high h = refl
reach-Within lo hi (p ∷ rest) a b t low high (delta, at_least, at_most, (above, below), h) =
    let next_min = max (saturating_add a lo) (point_min p) in
    let next_max = min (saturating_add b hi) (point_max p) in
    let low_next : next_min ≤ t + delta = omega arith in
    let high_next : t + delta ≤ next_max = omega arith in
    let order : ltb next_max next_min ≡ false = ground arith in
    rw order (reach-Within lo hi rest next_min next_max (t + delta) low_next high_next h)

-- A run of the profiles without deadlines is feasible if, from the first point's exact total on, there
-- is a total at every point, between its floor and the floor plus its residual and at most the largest
-- u64, each the one before it plus a delta in the range of the run's quantum.
pub run_values_feasible-Within :
    (start : ℕ) (rest : List Floor) (quantum cap lo hi : ℕ) (profile : Profile)
    → allowed_delta_range profile quantum cap ≡ some (lo, hi)
    → Within lo hi rest start
    → run_values_feasible start rest quantum cap profile ≡ true
unfolding run_values_feasible
run_values_feasible-Within start rest quantum top lo hi profile e h =
    rw (e, run_values_feasible)
      (reach-Within lo hi rest start start start (omega arith) (omega arith) h)
