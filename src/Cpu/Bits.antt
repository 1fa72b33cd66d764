-- ===== src/Cpu/Bits.antt =====
-- `leading_zeros`, `trailing_zeros` and `is_power_of_two` of Rust's unsigned integers, whose width is
-- the first argument.
use vim_config.Prelude.{
  ℕ, zero, suc, ◌-◌, ◌*◌, ◌/◌, ◌%◌, ◌^◌, ◌≤◌, ◌<◌, ◌≡◌, inl, inr, Bool, arith, ltb, ◌==◌,
  if◌then◌else◌, Bool-cases,
}
use native.Mathlib.Nat.{pow-suc}

-- The top bit of a number below 2 ^ (w + 1) is set if the number is at least 2 ^ w.
unfoldable pub leading_zeros : ℕ → ℕ → ℕ
leading_zeros zero n = 0
leading_zeros (suc w) n = let below = leading_zeros w n in if ltb n (2 ^ w) then suc below else 0

unfoldable pub trailing_zeros : ℕ → ℕ → ℕ
trailing_zeros zero n = 0
trailing_zeros (suc w) n =
    let above = trailing_zeros w (n / 2) in if n % 2 == 0 then suc above else 0

unfoldable pub is_power_of_two : ℕ → Bool
unfolding leading_zeros
is_power_of_two n = n == 2 ^ (63 - leading_zeros 64 n)

-- The exponent of the highest bit, `width - 1 - leading_zeros`.
pub leading_zeros_bounds :
    (w n : ℕ)
    → 0 < n
    → n < 2 ^ suc w
    → (2 ^ (w - leading_zeros (suc w) n) ≤ n)
      × (n < 2 * 2 ^ (w - leading_zeros (suc w) n))
      × (leading_zeros (suc w) n ≤ w)
unfolding leading_zeros
leading_zeros_bounds zero n h k = ground arith
leading_zeros_bounds (suc w) n h k = elim (Bool-cases (ltb n (2 ^ suc w))) [
  | inl e ↦
      let small : n < 2 ^ suc w = ground arith in
      let (lo, hi, le) = leading_zeros_bounds w n h small in
      let same : suc w - suc (leading_zeros (suc w) n) ≡ w - leading_zeros (suc w) n =
        omega arith in
      rw (e, same) (lo, hi, omega arith)
  | inr e ↦
      let same : suc w - 0 ≡ suc w = omega arith in
      let big : 2 ^ suc w ≤ n = ground arith in
      rw (e, same) (big, omega (arith, pow-suc 2 (suc w)), omega arith)
]
