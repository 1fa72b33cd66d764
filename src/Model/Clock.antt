-- ===== src/Model/Clock.antt =====
-- `Timebase` of recording/model.rs: CPU ticks and nanoseconds.
use vim_config.Prelude.{ℕ, ◌+◌, ◌-◌, ◌*◌, ◌/◌, ◌≤◌, ◌<◌, ◌≡◌, ◌⊎◌, arith}
use vim_config.Outcome.{ok, u64_max}
use vim_config.Model.{Timebase, ns, restore_ns, quantum, validate, div_ceil}
use native.Mathlib.Nat.{div-mul-le_self, lt-div-mul-add, div-eq_of_lt-le}

-- Where a tick is no shorter than a nanosecond, rounding up undoes rounding down.
div_ceil_undoes : (t n d : ℕ) → 0 < d → d ≤ n → div_ceil (t * n / d * d) n ≡ t
div_ceil_undoes t n d hd h =
    let q = t * n / d * d in
    let lo : q ≤ t * n = div-mul-le_self (t * n) d in
    let hi : t * n < q + d = lt-div-mul-add hd in
    div-eq_of_lt-le n {m = q + (n - 1)} (omega arith) (omega (arith))

-- `restore_ns` recovers a u64 count of ticks from the nanoseconds that `ns` made of it, if a tick is no
-- shorter than a nanosecond and `ns` did not overflow.
pub restore_ns-ns :
    (b : Timebase) (ticks n : ℕ)
    → ticks ≤ u64_max
    → b.denom ≤ b.numer
    → ns b ticks ≡ ok n
    → restore_ns b n ≡ ok ticks
unfolding ns restore_ns validate
restore_ns-ns b ticks n small wide e = ground (arith, div_ceil_undoes ticks b.numer b.denom)

-- A quantum that `quantum` returns is a positive u64, and it is 1 or its ticks fit the nanoseconds.
pub quantum_bounds :
    (b : Timebase) (n q : ℕ)
    → quantum b n ≡ ok q
    → (1 ≤ q) × (q ≤ u64_max) × ((q ≡ 1) ⊎ (q * b.numer ≤ n * b.denom))
unfolding quantum validate
quantum_bounds b n q e = ground (arith, div-mul-le_self (n * b.denom) b.numer)
