-- ===== src/Wire/Put.antt =====
-- The writers of recording/wire.rs. A `Vec<u8>` that is appended to is the list of its bytes; on an
-- error the caller gives it up. In the variable-length integers `(v & 0x7f) | 0x80` is
-- `v % 128 + 128` and `v >>= 7` is `v / 128`.
use vim_config.Prelude.{
  ℕ, ◌+◌, ◌-◌, ◌*◌, ◌/◌, ◌%◌, ◌<◌, List, [], ◌∷◌, ◌++◌, arith, length, ltb, if◌then◌else◌, dec_lt,
  Option, none, some,
}
use vim_config.Prelude.Order.{lt_wf}
use vim_config.Prelude.Int.{ℤ, pos, negsuc}
use vim_config.Outcome.{
  overflow, exceeds_limit, Result, ok, err, refuse, ok_or, checked, u64_max, u128_max, ◌>>=◌, ◌>>◌,
}
use mathlib.Core.Logic.{dite}
use mathlib.Core.WellFounded.{Acc}

abbrev pub max_block_bytes : ℕ
max_block_bytes = 64 * 1024 * 1024

abbrev pub max_name_bytes : ℕ
max_name_bytes = 4096

unfoldable pub put_bytes : List ℕ → List ℕ → Result (List ℕ)
put_bytes out bytes =
    let end = length out + length bytes in
    if ltb u64_max end
    then err overflow
    else if ltb max_block_bytes end
    then err exceeds_limit
    else ok (out ++ bytes)

unfoldable pub check_wire_size : List ℕ → Result (Unit {0})
check_wire_size out = refuse (ltb max_block_bytes (length out)) exceeds_limit

pub shift_shrinks : (value : ℕ) → 127 < value → value / 128 < value
shift_shrinks value h = omega arith

-- The loop goes on while `value >= 0x80`, and each round divides it by 128.
unfoldable pub put_loop : List ℕ → (value : ℕ) → Acc ◌<◌ value → Result (List ℕ)
unfolding shift_shrinks
put_loop out value (Acc.intro _ smaller) =
    dite (dec_lt 127 value)
      (λ more. do
        out' ← put_bytes out ((value % 128 + 128) ∷ [])
        put_loop out' (value / 128) (smaller _ (shift_shrinks value more)))
      (λ _. put_bytes out (value ∷ []))

unfoldable pub put_uvarint128 : List ℕ → ℕ → Result (List ℕ)
put_uvarint128 out value = put_loop out value (lt_wf.apply value)

unfoldable pub put_uvarint : List ℕ → ℕ → Result (List ℕ)
put_uvarint out value = put_loop out value (lt_wf.apply value)

-- 0, -1, 1, -2, … are 0, 1, 2, 3, …
unfoldable pub zigzag : ℤ → Option ℕ
zigzag (pos n) = checked u128_max (n * 2)
zigzag (negsuc n) = if ltb u128_max ((n + 1) * 2) then none else some ((n + 1) * 2 - 1)

unfoldable pub put_svarint : List ℕ → ℤ → Result (List ℕ)
put_svarint out value = do encoded ← ok_or (zigzag value) overflow; put_uvarint128 out encoded

unfoldable pub put_string : List ℕ → List ℕ → Result (List ℕ)
put_string out bytes = do
  refuse (ltb max_name_bytes (length bytes)) exceeds_limit
  out' ← put_uvarint out (length bytes)
  put_bytes out' bytes
