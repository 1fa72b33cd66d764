-- ===== src/Store/Uvarint.antt =====
-- `write_uvarint`, `varint_len` and `read_uvarint` of recording/store.rs, which has its own
-- variable-length integers for a frame's payload.
pub mod RoundTrip
use vim_config.Prelude.{
  ℕ, zero, suc, ◌+◌, ◌*◌, ◌/◌, ◌%◌, ◌^◌, ◌<◌, List, [], ◌∷◌, ◌++◌, dec_lt, ltb, ◌==◌, ◌&&◌, not,
  if◌then◌else◌,
}
use vim_config.Prelude.Order.{lt_wf}
use vim_config.Outcome.{err, ok, truncated, overflow, noncanonical, refuse}
use vim_config.Wire.Put.{shift_shrinks}
use vim_config.Wire.Cursor.{Reader, Cursor, at, pure, lift, ◌>>=◌, ◌>>◌}
use mathlib.Core.Logic.{dite}
use mathlib.Core.WellFounded.{Acc}

-- `while value >= 0x80`, and each round divides the value by 128.
unfoldable pub write_loop : (value : ℕ) → Acc ◌<◌ value → List ℕ → List ℕ
write_loop value (Acc.intro _ smaller) output =
    dite (dec_lt 127 value)
      (λ more.
        write_loop (value / 128) (smaller _ (shift_shrinks value more))
          (output ++ (value % 128 + 128) ∷ []))
      (λ _. output ++ value ∷ [])

unfoldable pub write_uvarint : ℕ → List ℕ → List ℕ
write_uvarint value output = write_loop value (lt_wf.apply value) output

unfoldable pub len_loop : (value : ℕ) → Acc ◌<◌ value → ℕ → ℕ
len_loop value (Acc.intro _ smaller) n =
    dite (dec_lt 127 value)
      (λ more. len_loop (value / 128) (smaller _ (shift_shrinks value more)) (n + 1)) (λ _. n)

unfoldable pub varint_len : ℕ → ℕ
varint_len value = len_loop value (lt_wf.apply value) 1

-- `read_exact` of one byte.
unfoldable pub read_exact_byte : Reader ℕ
read_exact_byte c = elim c.rest [ [] ↦ err truncated | b ∷ bs ↦ ok (b, at (c.offset + 1) bs) ]

-- `for index in 0..10`, with the rounds that are left. `value |= group << shift` is a sum, since
-- `value` has no bit as high as that, and a shift of at most 63 is never refused.
unfoldable pub read_rounds : (rounds index shift value : ℕ) → Reader ℕ
read_rounds zero index shift value = lift (err overflow)
read_rounds (suc rounds) index shift value = do
  byte ← read_exact_byte
  lift (refuse ((shift == 63) && ltb 1 byte) overflow)
  let group = value + byte % 128 * 2 ^ shift
  let next = read_rounds rounds (index + 1) (shift + 7) group
  if ltb byte 128
      then lift (refuse (not (varint_len group == index + 1)) noncanonical) >> pure group
      else next

unfoldable pub read_uvarint : Reader ℕ
read_uvarint = read_rounds 10 0 0 0
