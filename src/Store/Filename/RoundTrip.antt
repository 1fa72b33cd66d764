-- ===== src/Store/Filename/RoundTrip.antt =====
-- A frame's file name gives back the ids that it was made from.
use vim_config.Prelude.{
  ℕ, zero, suc, ◌+◌, ◌-◌, ◌*◌, ◌/◌, ◌%◌, ◌^◌, ◌≤◌, ◌<◌, ◌≡◌, refl, ◌∙◌, List, [], ◌∷◌, ◌++◌, arith,
  length, all, true, some, length-append, append_assoc, take-append_left, drop-length-append,
}
use vim_config.Prelude.Bytes.{same_self}
use vim_config.Outcome.{ok, u64_max}
use vim_config.Wire.Whole.{has_magic-append}
use vim_config.Store.Filename.{
  frame_prefix, frame_suffix, decimal, frame_filename, strip_prefix, strip_suffix, split_once,
  is_ascii_digit, digits_from, parse_u64, is_id, parse_frame_filename,
}

length-decimal : (n v : ℕ) → length (decimal n v) ≡ n
unfolding decimal
length-decimal zero v = refl
length-decimal (suc n) v =
    omega
      (arith, length-decimal n (v / 10), length-append (decimal n (v / 10)) ((b'0' + v % 10) ∷ []))

all-append :
    (xs ys : List ℕ)
    → all is_ascii_digit xs ≡ true
    → all is_ascii_digit ys ≡ true
    → all is_ascii_digit (xs ++ ys) ≡ true
all-append [] ys hx hy = hy
all-append (x ∷ xs) ys hx hy = ground (arith, all-append xs ys)

all-decimal : (n v : ℕ) → all is_ascii_digit (decimal n v) ≡ true
unfolding decimal
all-decimal zero v = refl
all-decimal (suc n) v =
    all-append (decimal n (v / 10)) ((b'0' + v % 10) ∷ []) (all-decimal n (v / 10)) (ground arith)

digits_from-append :
    (value : ℕ) (xs ys : List ℕ)
    → digits_from value (xs ++ ys) ≡ digits_from (digits_from value xs) ys
unfolding digits_from
digits_from-append value [] ys = refl
digits_from-append value (x ∷ xs) ys = digits_from-append (value * 10 + (x - b'0')) xs ys

next_digit : (n : ℕ) → 10 ^ suc n ≡ 10 * 10 ^ n
next_digit n = omega arith

digits_from-decimal : (n v : ℕ) → v < 10 ^ n → digits_from 0 (decimal n v) ≡ v
unfolding decimal digits_from
digits_from-decimal zero v h = omega arith
digits_from-decimal (suc n) v h =
    digits_from-append 0 (decimal n (v / 10)) ((b'0' + v % 10) ∷ [])
    ∙ omega (arith, digits_from-decimal n (v / 10) (omega (arith, next_digit n)))

split_once-digits :
    (xs ys : List ℕ)
    → all is_ascii_digit xs ≡ true
    → split_once b'-' (xs ++ b'-' ∷ ys) ≡ some (xs, ys)
unfolding split_once
split_once-digits [] ys h = refl
split_once-digits (x ∷ xs) ys h = ground (arith, split_once-digits xs ys)

strip_prefix-append : (prefix text : List ℕ) → strip_prefix prefix (prefix ++ text) ≡ some text
unfolding strip_prefix
strip_prefix-append prefix text = rw (has_magic-append prefix text, drop-length-append prefix text)

strip_suffix-append : (text suffix : List ℕ) → strip_suffix suffix (text ++ suffix) ≡ some text
unfolding strip_suffix
strip_suffix-append text suffix =
    let n : length (text ++ suffix) - length suffix ≡ length text =
      omega (arith, length-append text suffix) in
    rw (
      n,
      drop-length-append text suffix,
      same_self suffix,
      take-append_left (length text) text suffix refl,
    )

is_id-decimal : (v : ℕ) → is_id (decimal 20 v) ≡ true
unfolding is_id
is_id-decimal v = rw (length-decimal 20 v, all-decimal 20 v)

parse_u64-decimal : (v : ℕ) → v ≤ u64_max → parse_u64 (decimal 20 v) ≡ some v
unfolding parse_u64
parse_u64-decimal v h = rw (digits_from-decimal 20 v (omega arith)) (ground arith)

-- The name of a frame of u64 ids is parsed as the first and the last id.
pub parse_frame_filename-frame_filename :
    (first last : ℕ)
    → first ≤ u64_max
    → last ≤ u64_max
    → parse_frame_filename (frame_filename first last) ≡ ok (first, last)
unfolding frame_filename parse_frame_filename
parse_frame_filename-frame_filename first last hf hl =
    let a = decimal 20 first in
    let b = decimal 20 last in
    let inner : a ++ b'-' ∷ (b ++ frame_suffix) ≡ (a ++ b'-' ∷ b) ++ frame_suffix =
      simp append_assoc in
    rw (
      strip_prefix-append frame_prefix (a ++ b'-' ∷ (b ++ frame_suffix)),
      inner,
      strip_suffix-append (a ++ b'-' ∷ b) frame_suffix,
      split_once-digits a b (all-decimal 20 first),
      is_id-decimal first,
      is_id-decimal last,
      parse_u64-decimal first hf,
      parse_u64-decimal last hl,
    )
