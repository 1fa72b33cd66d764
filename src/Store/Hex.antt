-- ===== src/Store/Hex.antt =====
-- `hex`, `decode_hex_32` and `hex_nibble` of recording/store.rs.
pub mod RoundTrip
use vim_config.Prelude.{
  ℕ, ◌+◌, ◌-◌, ◌*◌, ◌/◌, ◌%◌, List, [], ◌∷◌, length, Option, none, some, ltb, ◌==◌, ◌&&◌, not,
  if◌then◌else◌, leb,
}
use vim_config.Outcome.{Result, ok, err, refuse, ok_or, invalid, ◌>>=◌, ◌>>◌}

-- `DIGITS[n]`
abbrev pub digit : ℕ → ℕ
digit n = if ltb n 10 then b'0' + n else b'a' + (n - 10)

unfoldable pub hex : List ℕ → List ℕ
hex [] = []
hex (byte ∷ bytes) = digit (byte / 16) ∷ digit (byte % 16) ∷ hex bytes

unfoldable pub hex_nibble : ℕ → Option ℕ
hex_nibble byte =
    if leb b'0' byte && leb byte b'9'
    then some (byte - b'0')
    else if leb b'a' byte && leb byte b'f'
    then some (byte - b'a' + 10)
    else none

-- The loop over `chunks_exact(2)`, which leaves out an odd byte at the end.
unfoldable pub decode_pairs : List ℕ → Result (List ℕ)
decode_pairs [] = ok []
decode_pairs (a ∷ []) = ok []
decode_pairs (a ∷ b ∷ text) = do
  high ← ok_or (hex_nibble a) invalid
  low ← ok_or (hex_nibble b) invalid
  rest ← decode_pairs text
  ok ((high * 16 + low) ∷ rest)

unfoldable pub decode_hex_32 : List ℕ → Result (List ℕ)
decode_hex_32 text = do refuse (not (length text == 64)) invalid; decode_pairs text
