-- ===== src/Wire/Read.antt =====
-- The readers of recording/wire.rs. `value |= group << (index * 7)` is a sum, since `value` has no bit
-- as high as that. A text is its bytes; whether they are UTF-8 is a test that the caller gives.
use vim_config.Prelude.{
  ℕ, zero, suc, ◌+◌, ◌-◌, ◌*◌, ◌/◌, ◌%◌, ◌^◌, Bool, ◌&&◌, List, ltb, ◌==◌, if◌then◌else◌, not,
}
use vim_config.Prelude.Int.{ℤ, pos, negsuc}
use vim_config.Outcome.{
  overflow, exceeds_limit, noncanonical, invalid, Result, err, refuse, u64_max,
}
use vim_config.Wire.Put.{max_name_bytes}
use vim_config.Wire.Cursor.{Reader, pure, lift, ◌>>=◌, ◌>>◌, read_byte, read_slice}

-- `for index in 0..19`, with the rounds that are left.
unfoldable pub read_loop : ℕ → (index value : ℕ) → Reader ℕ
read_loop zero index value = lift (err overflow)
read_loop (suc rounds) index value = do
  byte ← read_byte
  let group = value + byte % 128 * 2 ^ (index * 7)
  let next = read_loop rounds (index + 1) group
  if (index == 18) && ltb 3 byte
      then lift (err overflow)
      else if ltb 127 byte
      then next
      else if ltb 1 (index + 1) && (byte == 0)
      then lift (err noncanonical)
      else pure group

unfoldable pub read_uvarint128 : Reader ℕ
read_uvarint128 = read_loop 19 0 0

unfoldable pub read_uvarint : Reader ℕ
read_uvarint = do
  value ← read_uvarint128
  if ltb u64_max value then lift (err overflow) else pure value

-- `i128::try_from(encoded / 2)`, and `-value - 1` if the lowest bit is set.
unfoldable pub unzigzag : ℕ → Result ℤ
unzigzag encoded =
    if ltb (2 ^ 127 - 1) (encoded / 2)
    then err overflow
    else if encoded % 2 == 0
    then Result.ok (pos (encoded / 2))
    else Result.ok (negsuc (encoded / 2))

unfoldable pub read_svarint : Reader ℤ
read_svarint = do encoded ← read_uvarint128; lift (unzigzag encoded)

-- The cursor moves behind the text only if it is UTF-8, and no caller goes on after an error.
unfoldable pub read_string : (List ℕ → Bool) → Reader (List ℕ)
read_string is_utf8 = do
  size ← read_uvarint
  lift (refuse (ltb max_name_bytes size) exceeds_limit)
  value ← read_slice size
  lift (refuse (not (is_utf8 value)) invalid)
  pure value
