-- ===== src/Cpu/Feasible/Explained.antt =====
-- What the feasibility tests of recording/wire.rs decide: whether totals exist.
use vim_config.Prelude.{
  ℕ, ◌+◌, ◌-◌, ◌≤◌, ◌*◌, ◌≡◌, ◌↔◌, refl, true, false, List, [], ◌∷◌, none, some, ltb, min, max,
  arith, inl, inr, Option-cases, sym, ◌∙◌,
}
use vim_config.Outcome.{u64_max, u128_max}
use vim_config.Cpu.Range.{temporal_allowed_delta_range}
use vim_config.Cpu.Range.Deltas.{
  temporal_allowed_delta_range-Bounded, temporal_allowed_delta_range_order,
}
use vim_config.Cpu.Feasible.{
  Floor, point_min, point_max, temporal_reach, temporal_run_values_feasible,
}

-- The total is between the floor of a point and the floor plus the residual.
abbrev pub At : Floor → ℕ → Type 0
At p total = (point_min p ≤ total) × (total ≤ point_max p)

-- From `total` on, a total at every point, each the one before it plus a delta of the quantum's range.
unfoldable pub Explained : (quantum cap : ℕ) → List (ℕ × Floor) → (total : ℕ) → Type 0
Explained quantum cap [] total = Unit
Explained quantum cap ((duration, p) ∷ rest) total =
    (delta lo hi : ℕ) × (temporal_allowed_delta_range quantum cap duration ≡ some (lo, hi))
    × (lo ≤ delta)
    × (delta ≤ hi)
    × At p (total + delta)
    × Explained quantum cap rest (total + delta)

temporal_reach-step :
    (quantum cap duration : ℕ) (p : Floor) (rest : List (ℕ × Floor)) (a b lo hi : ℕ)
    → temporal_allowed_delta_range quantum cap duration ≡ some (lo, hi)
    → a + lo ≤ u128_max
    → b + hi ≤ u128_max
    → max (a + lo) (point_min p) ≤ min (b + hi) (point_max p)
    → temporal_reach quantum cap ((duration, p) ∷ rest) a b
      ≡ temporal_reach quantum cap rest (max (a + lo) (point_min p)) (min (b + hi) (point_max p))
unfolding temporal_reach
temporal_reach-step quantum top duration p rest a b lo hi e small_min small_max order =
    let min_fits : ltb u128_max (a + lo) ≡ false = ground arith in
    let max_fits : ltb u128_max (b + hi) ≡ false = ground arith in
    let some_left : ltb (min (b + hi) (point_max p)) (max (a + lo) (point_min p)) ≡ false =
      ground arith in
    rw (e, temporal_reach) (rw (min_fits, max_fits, some_left) refl)

temporal_reach-Explained :
    (quantum cap : ℕ) (rest : List (ℕ × Floor)) (a b t : ℕ)
    → a ≤ t
    → t ≤ b
    → b ≤ 2 * u64_max
    → Explained quantum cap rest t
    → temporal_reach quantum cap rest a b ≡ true
unfolding Explained temporal_reach
temporal_reach-Explained quantum top [] a b t low high small h = refl
temporal_reach-Explained quantum top ((duration, p) ∷ rest) a b t low high small
      (delta, lo, hi, e, at_least, at_most, (above, below), h) =
    let bound = temporal_allowed_delta_range-Bounded quantum top duration lo hi e in
    temporal_reach-step quantum top duration p rest a b lo hi e (omega arith) (omega arith)
      (omega arith)
    ∙ temporal_reach-Explained quantum top rest (max (a + lo) (point_min p))
        (min (b + hi) (point_max p)) (t + delta) (omega arith) (omega arith) (omega arith) h

-- A total that a step can reach from an interval is reached from some total of the interval.
step_back :
    (a b lo hi t : ℕ)
    → a ≤ b
    → lo ≤ hi
    → a + lo ≤ t
    → t ≤ b + hi
    → (s delta : ℕ) × (a ≤ s) × (s ≤ b) × (lo ≤ delta) × (delta ≤ hi) × (s + delta ≡ t)
step_back a b lo hi t order range low high = (
  t - max lo (t - b),
  max lo (t - b),
  omega arith,
  omega arith,
  omega arith,
  omega arith,
  omega arith,
)

temporal_reach_order :
    (quantum cap duration : ℕ) (p : Floor) (rest : List (ℕ × Floor)) (a b lo hi : ℕ)
    → temporal_allowed_delta_range quantum cap duration ≡ some (lo, hi)
    → temporal_reach quantum cap ((duration, p) ∷ rest) a b ≡ true
    → (max (a + lo) (point_min p) ≤ min (b + hi) (point_max p))
      × (temporal_reach quantum cap rest (max (a + lo) (point_min p)) (min (b + hi) (point_max p))
          ≡ true)
unfolding temporal_reach
temporal_reach_order quantum top duration p rest a b lo hi e h = ground arith

temporal_reach_unranged :
    (quantum cap duration : ℕ) (p : Floor) (rest : List (ℕ × Floor)) (a b : ℕ)
    → temporal_allowed_delta_range quantum cap duration ≡ none
    → temporal_reach quantum cap ((duration, p) ∷ rest) a b ≡ false
unfolding temporal_reach
temporal_reach_unranged quantum top duration p rest a b e = rw (e, temporal_reach) refl

temporal_reach_accepts :
    (quantum cap duration : ℕ) (p : Floor) (rest : List (ℕ × Floor)) (a b : ℕ)
    → temporal_reach quantum cap ((duration, p) ∷ rest) a b ≡ true
    → (lo hi : ℕ) × (temporal_allowed_delta_range quantum cap duration ≡ some (lo, hi))
      × (max (a + lo) (point_min p) ≤ min (b + hi) (point_max p))
      × (temporal_reach quantum cap rest (max (a + lo) (point_min p)) (min (b + hi) (point_max p))
          ≡ true)
temporal_reach_accepts quantum top duration p rest a b h =
    elim (Option-cases (temporal_allowed_delta_range quantum top duration)) [
      | inl e ↦ let refused = temporal_reach_unranged quantum top duration p rest a b e in cc
      | inr ((lo, hi), e) ↦
          let (some_left, next) = temporal_reach_order quantum top duration p rest a b lo hi e h in
          (lo, hi, e, some_left, next)
    ]

-- The totals, from one of the interval on.
unfoldable pub Starts : (quantum cap : ℕ) → List (ℕ × Floor) → (a b : ℕ) → Type 0
Starts quantum cap rest a b = (t : ℕ) × (a ≤ t) × (t ≤ b) × Explained quantum cap rest t

Explained-temporal_reach :
    (quantum cap : ℕ) (rest : List (ℕ × Floor)) (a b : ℕ)
    → a ≤ b
    → temporal_reach quantum cap rest a b ≡ true
    → Starts quantum cap rest a b
unfolding Explained Starts
Explained-temporal_reach quantum top [] a b order h = (a, omega arith, order, tt)
Explained-temporal_reach quantum top ((duration, p) ∷ rest) a b order h =
    let (lo, hi, e, some_left, next) = temporal_reach_accepts quantum top duration p rest a b h in
    let (t, low, high, later) =
      Explained-temporal_reach quantum top rest (max (a + lo) (point_min p))
        (min (b + hi) (point_max p)) some_left next in
    let (s, delta, from, to, at_least, at_most, same) =
      step_back a b lo hi t order
        (temporal_allowed_delta_range_order quantum top duration lo hi e (omega arith))
        (omega arith) (omega arith) in
    (
      s,
      from,
      to,
      (
        delta,
        lo,
        hi,
        e,
        at_least,
        at_most,
        (rw same (omega arith), rw same (omega arith)),
        rw same later,
      ),
    )

-- For a u64 floor and residual of the first point, a run is feasible exactly if a total of the first
-- point starts a sequence of totals, one between the floor and the floor plus the residual at each
-- later point and at most the largest u64, each the one before it plus a delta that the quantum allows
-- for the duration between them.
pub temporal_run_values_feasible_iff :
    (p : Floor) (rest : List (ℕ × Floor)) (quantum cap : ℕ)
    → p.0 ≤ u64_max
    → p.1 ≤ u64_max
    → (temporal_run_values_feasible p rest quantum cap ≡ true)
      ↔ Starts quantum cap rest (p.0) (p.0 + p.1)
unfolding temporal_run_values_feasible Starts
temporal_run_values_feasible_iff p rest quantum top small_floor small_residual =
    let fits : ltb u128_max (p.0 + p.1) ≡ false = ground arith in
    let opened : temporal_run_values_feasible p rest quantum top
        ≡ temporal_reach quantum top rest (p.0) (p.0 + p.1) =
      rw (fits, temporal_run_values_feasible) refl in
    (
      (λ h.
          Explained-temporal_reach quantum top rest (p.0) (p.0 + p.1) (omega arith)
            (sym opened ∙ h)),
      (λ (t, low, high, e).
          opened
          ∙ temporal_reach-Explained quantum top rest (p.0) (p.0 + p.1) t low high (omega arith) e),
    )
