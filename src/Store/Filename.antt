-- ===== src/Store/Filename.antt =====
-- `frame_filename` and `parse_frame_filename` of recording/store.rs, with the functions of Rust's texts that
-- they call. A u64 has at most 20 decimal digits.
pub mod RoundTrip
use vim_config.Prelude.{
  ℕ, zero, suc, ◌+◌, ◌-◌, ◌*◌, ◌/◌, ◌%◌, List, [], ◌∷◌, ◌++◌, length, take, drop, all, Bool, not,
  ltb, leb, ◌==◌, ◌&&◌, ◌||◌, if◌then◌else◌, Option, none, some,
}
use vim_config.Prelude.Bytes.{same}
use vim_config.Outcome.{Result, ok, refuse, ok_or, checked, u64_max, invalid, ◌>>=◌, ◌>>◌}
use vim_config.Wire.Whole.{has_magic}

abbrev pub frame_prefix : List ℕ
frame_prefix = b'f' ∷ b'r' ∷ b'a' ∷ b'm' ∷ b'e' ∷ b'-' ∷ []

abbrev pub frame_suffix : List ℕ
frame_suffix = b'.' ∷ b'p' ∷ b'c' ∷ b'r' ∷ []

-- `{:020}`, with the width as an argument.
unfoldable pub decimal : ℕ → ℕ → List ℕ
decimal zero v = []
decimal (suc n) v = decimal n (v / 10) ++ (b'0' + v % 10) ∷ []

unfoldable pub frame_filename : (first last : ℕ) → List ℕ
frame_filename first last =
    frame_prefix ++ (decimal 20 first ++ b'-' ∷ (decimal 20 last ++ frame_suffix))

unfoldable pub strip_prefix : (prefix text : List ℕ) → Option (List ℕ)
strip_prefix prefix text = if has_magic prefix text then some (drop (length prefix) text) else none

unfoldable pub strip_suffix : (suffix text : List ℕ) → Option (List ℕ)
strip_suffix suffix text =
    let n = length text - length suffix in
    if same (drop n text) suffix then some (take n text) else none

-- The texts before and behind the first `separator`.
unfoldable pub split_once : (separator : ℕ) → (text : List ℕ) → Option (List ℕ × List ℕ)
split_once separator [] = none
split_once separator (c ∷ text) =
    if c == separator then some ([], text) else elim (split_once separator text) [
      | none ↦ none
      | some (before, after) ↦ some (c ∷ before, after)
    ]

abbrev pub is_ascii_digit : ℕ → Bool
is_ascii_digit c = leb b'0' c && leb c b'9'

unfoldable pub digits_from : (value : ℕ) → (text : List ℕ) → ℕ
digits_from value [] = value
digits_from value (c ∷ text) = digits_from (value * 10 + (c - b'0')) text

-- `text.parse::<u64>()` of a text of digits.
unfoldable pub parse_u64 : List ℕ → Option ℕ
unfolding digits_from
parse_u64 text = checked u64_max (digits_from 0 text)

unfoldable pub is_id : List ℕ → Bool
is_id text = (length text == 20) && all is_ascii_digit text

unfoldable pub parse_frame_filename : List ℕ → Result (ℕ × ℕ)
unfolding strip_prefix strip_suffix split_once is_id parse_u64
parse_frame_filename name = do
  stripped ← ok_or (strip_prefix frame_prefix name) invalid
  middle ← ok_or (strip_suffix frame_suffix stripped) invalid
  (a, b) ← ok_or (split_once b'-' middle) invalid
  refuse (not (is_id a && is_id b)) invalid
  first ← ok_or (parse_u64 a) invalid
  last ← ok_or (parse_u64 b) invalid
  ok (first, last)
