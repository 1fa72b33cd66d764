-- ===== src/Cpu/Range/Covers.antt =====
-- The decoder's ranges in recording/wire.rs against the quanta that the encoder chooses.
use vim_config.Prelude.{
  ℕ, suc, ◌+◌, ◌-◌, ◌*◌, ◌^◌, ◌≤◌, ◌<◌, ◌≡◌, ◌⊎◌, inl, inr, refl, true, false, arith, ltb, ◌==◌,
  min, max, Bool-cases, ltb→lt, some,
}
use vim_config.Outcome.{u64_max}
use vim_config.Cpu.Bits.{leading_zeros, leading_zeros_bounds, is_power_of_two}
use vim_config.Cpu.Quantum.{adaptive_quantum}
use vim_config.Cpu.Quantum.Bounds.{adaptive_quantum_cases}
use vim_config.Cpu.Range.{Range, rounded_cap, adaptive_range}
use native.Mathlib.Nat.{pow-suc, pow-le-pow_right}

two_pos : 0 < 2
two_pos = omega arith

pow-double : (k e : ℕ) → k < e → 2 * 2 ^ k ≤ 2 ^ e
pow-double k e h =
    let d : 2 ^ suc k ≤ 2 ^ e = pow-le-pow_right two_pos h in omega (arith, pow-suc 2 k)

-- A power of two between another and its double is that other.
pow-between : (k e : ℕ) → 2 ^ k ≤ 2 ^ e → 2 ^ e < 2 * 2 ^ k → k ≡ e
pow-between k e lo hi = elim (Bool-cases (ltb k e)) [
  | inl b ↦ ground (arith, pow-double k e)
  | inr b ↦ elim (Bool-cases (ltb e k)) [
    | inl c ↦ ground (arith, pow-double e k)
    | inr c ↦ ground arith
  ]
]

pub pow-is_power_of_two : (e : ℕ) → e < 64 → is_power_of_two (2 ^ e) ≡ true
unfolding is_power_of_two
pow-is_power_of_two e h =
    let below : 2 * 2 ^ e ≤ 2 ^ 64 = pow-double e 64 h in
    let positive : 2 ^ 0 ≤ 2 ^ e = pow-le-pow_right {n = 2} two_pos {i = 0} {j = e} (omega arith) in
    let (lo, hi, _) = leading_zeros_bounds 63 (2 ^ e) (omega arith) (omega arith) in
    let same = pow-between (63 - leading_zeros 64 (2 ^ e)) e lo hi in rw same (ground arith)

pub pow-lt_back : (k e : ℕ) → 2 ^ k < 2 ^ e → k < e
pow-lt_back k e h = elim (Bool-cases (ltb k e)) [
  | inl b ↦ ltb→lt k e b
  | inr b ↦
      let le : e ≤ k = ground arith in
      let back : 2 ^ e ≤ 2 ^ k = pow-le-pow_right two_pos le in omega arith
]

apart : (a b : ℕ) → (a == b) ≡ false → b ≤ a → b < a
apart a b h le = ground arith

-- No power of two below the rounded cap is a bound of the cap.
rounded_cap-le : (cap e : ℕ) → 0 < cap → cap ≤ u64_max → cap ≤ 2 ^ e → rounded_cap cap ≤ 2 ^ e
unfolding rounded_cap is_power_of_two
rounded_cap-le top e positive wide h =
    let (lo, hi, le) = leading_zeros_bounds 63 top positive (omega arith) in
    let next : 64 - leading_zeros 64 top ≡ suc (63 - leading_zeros 64 top) = omega arith in
    elim (Bool-cases (is_power_of_two top)) [
      | inl p ↦ rw p h
      | inr p ↦
          let off : 2 ^ (63 - leading_zeros 64 top) < top =
            apart top (2 ^ (63 - leading_zeros 64 top)) p lo in
          let below : 63 - leading_zeros 64 top < e =
            pow-lt_back (63 - leading_zeros 64 top) e (omega arith) in
          let double = pow-double (63 - leading_zeros 64 top) e below in
          rw (p, next, pow-suc 2 (63 - leading_zeros 64 top)) (omega arith)
    ]

-- What a range says of a rate: it is at least the lower end, and below the end of an upper end that
-- is not open, which is at most twice the rate, or 16.
unfoldable pub Covers : (per : ℕ) → Range → Type 0
Covers per r =
    (lo hi : ℕ) × (r ≡ some (lo, hi))
    × (lo ≤ per)
    × ((hi ≡ u64_max) ⊎ ((per ≤ hi) × (hi + 1 ≤ 16 + 2 * per)))

Covers-one : (per cap : ℕ) → 0 < cap → per < 16 → Covers per (adaptive_range 1 cap)
unfolding adaptive_range Covers
Covers-one per top positive small = elim (Bool-cases (top == 1)) [
  | inl z ↦ (0, u64_max, rw z refl, omega arith, inl refl)
  | inr z ↦
      let above : ltb 1 top ≡ true = ground arith in
      (0, 15, rw (z, above) refl, omega arith, inr (omega arith, omega arith))
]

Covers-cap :
    (per cap e : ℕ)
    → 1 < cap
    → cap ≤ u64_max
    → cap ≤ 2 ^ e
    → 8 * 2 ^ e ≤ per
    → Covers per (adaptive_range cap cap)
unfolding adaptive_range Covers
Covers-cap per top e big wide h lo =
    let not_one : (top == 1) ≡ false = ground arith in
    let same : (top == top) ≡ true = ground arith in
    let above : ltb 1 top ≡ true = ground arith in
    let rounded = rounded_cap-le top e (omega arith) wide h in
    (8 * rounded_cap top, u64_max, rw (not_one, same, above) refl, omega arith, inl refl)

Covers-reached :
    (per cap e : ℕ)
    → 0 < cap
    → cap ≤ u64_max
    → cap ≤ 2 ^ e
    → 8 * 2 ^ e ≤ per
    → Covers per (adaptive_range cap cap)
unfolding adaptive_range Covers
Covers-reached per top e positive wide h lo = elim (Bool-cases (top == 1)) [
  | inl z ↦ (0, u64_max, rw z refl, omega arith, inl refl)
  | inr z ↦ Covers-cap per top e (ground arith) wide h lo
]

Covers-power :
    (per cap e : ℕ)
    → 1 < 2 ^ e
    → 2 ^ e < cap
    → cap ≤ u64_max
    → 8 * 2 ^ e ≤ per
    → per < 16 * 2 ^ e
    → Covers per (adaptive_range (2 ^ e) cap)
unfolding adaptive_range Covers
Covers-power per top e big below wide lo hi =
    let not_one : (2 ^ e == 1) ≡ false = ground arith in
    let not_cap : (2 ^ e == top) ≡ false = ground arith in
    let cap_not_one : (top == 1) ≡ false = ground arith in
    let above : ltb 1 (2 ^ e) ≡ true = ground arith in
    let above_cap : ltb 1 top ≡ true = ground arith in
    let under : ltb (2 ^ e) top ≡ true = ground arith in
    let narrow : e < 64 = pow-lt_back e 64 (omega arith) in
    let power = pow-is_power_of_two e narrow in
    (
      8 * 2 ^ e,
      16 * 2 ^ e - 1,
      rw (cap_not_one, above_cap, not_one, not_cap, above, under, power) refl,
      lo,
      inr (omega arith, omega arith),
    )

-- The decoder's range of the quantum that the encoder chooses for a rate covers the rate.
pub adaptive_range-adaptive_quantum :
    (per cap : ℕ)
    → per < 2 ^ 128
    → 0 < cap
    → cap ≤ u64_max
    → Covers per (adaptive_range (adaptive_quantum per cap) cap)
adaptive_range-adaptive_quantum per top fits positive wide =
    elim (adaptive_quantum_cases per top fits) [
      | inl (small, e) ↦ rw e (Covers-one per top positive (omega arith))
      | inr (e, lo, hi, chosen) ↦ elim (Bool-cases (ltb (2 ^ e) top)) [
        | inl b ↦ elim (Bool-cases (ltb 1 (2 ^ e))) [
          | inl big ↦
              let same : max (min (2 ^ e) top) 1 ≡ 2 ^ e = ground arith in
              rw (chosen, same)
                (Covers-power per top e (ltb→lt 1 (2 ^ e) big) (ltb→lt (2 ^ e) top b) wide lo hi)
          | inr one ↦
              let same : max (min (2 ^ e) top) 1 ≡ 1 = ground arith in
              let least : 2 ^ e ≤ 1 = ground arith in
              rw (chosen, same) (Covers-one per top positive (omega arith))
        ]
        | inr b ↦
            let reaches : top ≤ 2 ^ e = ground arith in
            let same : max (min (2 ^ e) top) 1 ≡ top = ground arith in
            rw (chosen, same) (Covers-reached per top e positive wide reaches lo)
      ]
    ]
