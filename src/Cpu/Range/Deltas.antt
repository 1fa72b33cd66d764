-- ===== src/Cpu/Range/Deltas.antt =====
-- The decoder's ranges of temporal deltas in recording/wire.rs against the quanta of the encoder.
use vim_config.Prelude.{
  ℕ, ◌+◌, ◌-◌, ◌*◌, ◌/◌, ◌≤◌, ◌<◌, ◌≡◌, ◌⊎◌, inl, inr, refl, false, arith, ltb, subst, ◌==◌, min,
  max, Bool-cases, Option-cases, some, none,
}
use vim_config.Outcome.{ok, u64_max, u128_max}
use vim_config.Model.{div_ceil}
use vim_config.Cpu.Quantum.{adaptive_quantum, temporal_quantum, temporal_storage_quantum}
use vim_config.Cpu.Range.{
  Range, adaptive_range, allowed_delta_range, scaled, scaled_max, scale_range,
  temporal_allowed_delta_range,
}
use vim_config.Cpu.Range.Covers.{Covers, adaptive_range-adaptive_quantum}
use native.Mathlib.Nat.{div-mul-le_self, div-le_self, mul-le-mul_right, lt-div-mul-add}

-- A chosen quantum is the one of the rate per 100 ms.
pub temporal_quantum_ok :
    (delta elapsed cap q : ℕ)
    → temporal_quantum delta elapsed cap ≡ ok q
    → (0 < elapsed)
      × (0 < cap)
      × (delta * 100_000_000 ≤ u128_max)
      × (adaptive_quantum (delta * 100_000_000 / elapsed) cap ≡ q)
unfolding temporal_quantum
temporal_quantum_ok delta elapsed top q h = ground arith

scaled_lower :
    (lo delta d : ℕ)
    → 0 < d
    → delta * 100_000_000 ≤ u128_max
    → lo ≤ delta * 100_000_000 / d
    → (n : ℕ) × (scaled lo d ≡ some n) × (n ≤ delta)
unfolding scaled
scaled_lower lo delta d positive fits h =
    let step : lo * d ≤ delta * 100_000_000 / d * d = mul-le-mul_right d h in
    let prod : lo * d ≤ delta * 100_000_000 =
      omega (arith, div-mul-le_self (delta * 100_000_000) d) in
    let small : ltb u128_max (lo * d) ≡ false = ground arith in
    (div_ceil (lo * d) 100_000_000, rw small refl, omega arith)

scaled_max_open : (hi d : ℕ) → hi ≡ u64_max → scaled_max hi d ≡ some u64_max
unfolding scaled_max
scaled_max_open hi d z = rw z refl

scaled_end :
    (hi x d : ℕ)
    → 0 < d
    → d ≤ u64_max
    → x ≤ u64_max * 100_000_000
    → x / d ≤ hi
    → hi + 1 ≤ 16 + 2 * (x / d)
    → (x < (hi + 1) * d) × ((hi + 1) * d ≤ u128_max)
scaled_end hi x d positive wide narrow h top =
    let past : x < x / d * d + d = lt-div-mul-add positive in
    let back : x / d * d ≤ x = div-mul-le_self x d in
    let lower : (x / d) * d ≤ hi * d = mul-le-mul_right d h in
    let upper : (hi + 1) * d ≤ (16 + 2 * (x / d)) * d = mul-le-mul_right d top in
    (omega arith, omega arith)

scaled_upper :
    (hi delta d : ℕ)
    → 0 < d
    → d ≤ u64_max
    → delta ≤ u64_max
    → delta * 100_000_000 / d ≤ hi
    → hi + 1 ≤ 16 + 2 * (delta * 100_000_000 / d)
    → (n : ℕ) × (scaled_max hi d ≡ some n) × (delta ≤ n)
unfolding scaled scaled_max
scaled_upper hi delta d positive wide narrow h top = elim (Bool-cases (hi == u64_max)) [
  | inl z ↦ (u64_max, rw z refl, narrow)
  | inr z ↦
      let (past, fits) = scaled_end hi (delta * 100_000_000) d positive wide (omega arith) h top in
      let small : ltb u128_max ((hi + 1) * d) ≡ false = ground arith in
      let some_end : ltb (div_ceil ((hi + 1) * d) 100_000_000) 1 ≡ false = ground arith in
      (div_ceil ((hi + 1) * d) 100_000_000 - 1, rw (z, small, some_end) refl, omega arith)
]

scale_range_ends :
    (lo hi d : ℕ) {m n : ℕ}
    → scaled lo d ≡ some m
    → scaled_max hi d ≡ some n
    → scale_range d (some (lo, hi)) ≡ some (m, min n u64_max)
unfolding scale_range
scale_range_ends lo hi d em en = rw (em, en, scale_range) refl

scale_range-Covers :
    (delta d : ℕ) (r : Range)
    → 0 < d
    → d ≤ u64_max
    → delta ≤ u64_max
    → delta * 100_000_000 ≤ u128_max
    → Covers (delta * 100_000_000 / d) r
    → (lo hi : ℕ) × (scale_range d r ≡ some (lo, hi)) × (lo ≤ delta) × (delta ≤ hi) × (hi ≤ u64_max)
unfolding Covers
scale_range-Covers delta d r positive wide narrow fits (lo, hi, e, least, most) =
    let (m, em, below) = scaled_lower lo delta d positive fits least in
    let (n, en, above) : (n : ℕ) × (scaled_max hi d ≡ some n) × (delta ≤ n) = elim most [
      | inl z ↦ (u64_max, scaled_max_open hi d z, narrow)
      | inr (h, top) ↦ scaled_upper hi delta d positive wide narrow h top
    ] in
    (m, min n u64_max, rw e (scale_range_ends lo hi d em en), below, omega arith, omega arith)

-- For a delta and a duration that are u64s, and a u64 cap, the quantum that the encoder stores with
-- an interval has a range in the decoder, no step of which overflows, and the range holds the delta.
pub temporal_allowed_delta_range-temporal_storage_quantum :
    (delta elapsed cap q : ℕ)
    → delta ≤ u64_max
    → elapsed ≤ u64_max
    → cap ≤ u64_max
    → temporal_storage_quantum delta elapsed cap ≡ ok q
    → (lo hi : ℕ) × (temporal_allowed_delta_range q cap elapsed ≡ some (lo, hi))
      × (lo ≤ delta)
      × (delta ≤ hi)
      × (hi ≤ u64_max)
unfolding temporal_storage_quantum temporal_allowed_delta_range allowed_delta_range
temporal_allowed_delta_range-temporal_storage_quantum delta elapsed top q narrow short wide h =
    let (positive, some_cap, fits, chosen) =
      temporal_quantum_ok delta (max elapsed 100_000_000) top q h in
    let rate : delta * 100_000_000 / max elapsed 100_000_000 ≤ delta * 100_000_000 =
      div-le_self (delta * 100_000_000) (max elapsed 100_000_000) in
    let covered =
      adaptive_range-adaptive_quantum (delta * 100_000_000 / max elapsed 100_000_000) top
        (omega arith) some_cap wide in
    let duration : max elapsed 100_000_000 ≤ u64_max = omega arith in
    scale_range-Covers delta (max elapsed 100_000_000) (adaptive_range q top) positive duration
      narrow fits
      (subst (λ q. Covers (delta * 100_000_000 / max elapsed 100_000_000) (adaptive_range q top))
        chosen covered)

-- The upper end of a range of deltas is a u64.
pub temporal_allowed_delta_range-Bounded :
    (quantum cap duration lo hi : ℕ)
    → temporal_allowed_delta_range quantum cap duration ≡ some (lo, hi)
    → hi ≤ u64_max
unfolding temporal_allowed_delta_range scale_range
temporal_allowed_delta_range-Bounded quantum top duration lo hi e = ground arith

adaptive_range_order :
    (quantum cap lo hi : ℕ)
    → adaptive_range quantum cap ≡ some (lo, hi)
    → (lo ≤ hi) ⊎ (hi ≡ u64_max)
unfolding adaptive_range
adaptive_range_order quantum top lo hi e = ground arith

scaled_value : (a d m : ℕ) → scaled a d ≡ some m → m ≡ div_ceil (a * d) 100_000_000
unfolding scaled
scaled_value a d m e = ground arith

scaled_max_value :
    (hi d n : ℕ)
    → (hi == u64_max) ≡ false
    → scaled_max hi d ≡ some n
    → n ≡ div_ceil ((hi + 1) * d) 100_000_000 - 1
unfolding scaled_max scaled
scaled_max_value hi d n z e = ground arith

scaled_order :
    (lo hi d m n : ℕ)
    → 100_000_000 ≤ d
    → (lo ≤ hi) ⊎ (hi ≡ u64_max)
    → scaled lo d ≡ some m
    → scaled_max hi d ≡ some n
    → m ≤ u64_max
    → m ≤ n
unfolding scaled_max
scaled_order lo hi d m n long order em en small = elim (Bool-cases (hi == u64_max)) [
  | inl z ↦ ground arith
  | inr z ↦
      let le : lo ≤ hi = ground arith in
      let step : (lo + 1) * d ≤ (hi + 1) * d = mul-le-mul_right d (omega arith) in
      let start = scaled_value lo d m em in let end = scaled_max_value hi d n z en in omega arith
]

scale_range_inv :
    (r : Range) (d lo hi : ℕ)
    → scale_range d r ≡ some (lo, hi)
    → (a b n : ℕ) × (r ≡ some (a, b))
      × (scaled a d ≡ some lo)
      × (scaled_max b d ≡ some n)
      × (min n u64_max ≡ hi)
unfolding scale_range
scale_range_inv none d lo hi e = cc
scale_range_inv (some (a, b)) d lo hi e = elim (Option-cases (scaled a d)) [
  | inl x ↦ let refused : scale_range d (some (a, b)) ≡ none = rw (x, scale_range) refl in cc
  | inr (m, x) ↦ elim (Option-cases (scaled_max b d)) [
    | inl y ↦ let refused : scale_range d (some (a, b)) ≡ none = rw (x, y, scale_range) refl in cc
    | inr (n, y) ↦
        let found = scale_range_ends a b d x y in
        let same : m ≡ lo = cc in (a, b, n, refl, subst (λ k. scaled a d ≡ some k) same x, y, cc)
  ]
]

-- A range of deltas whose lower end is a u64 is not empty.
pub temporal_allowed_delta_range_order :
    (quantum cap duration lo hi : ℕ)
    → temporal_allowed_delta_range quantum cap duration ≡ some (lo, hi)
    → lo ≤ u64_max
    → lo ≤ hi
unfolding temporal_allowed_delta_range allowed_delta_range
temporal_allowed_delta_range_order quantum top duration lo hi e small =
    let (a, b, n, ea, em, en, same) =
      scale_range_inv (adaptive_range quantum top) (max duration 100_000_000) lo hi e in
    let le =
      scaled_order a b (max duration 100_000_000) lo n (omega arith)
        (adaptive_range_order quantum top a b ea) em en small in
    omega arith
