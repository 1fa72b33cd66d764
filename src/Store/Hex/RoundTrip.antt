-- ===== src/Store/Hex/RoundTrip.antt =====
-- A digest in hexadecimal is the digest.
use vim_config.Prelude.{
  ℕ, zero, suc, ◌+◌, ◌*◌, ◌/◌, ◌%◌, ◌<◌, ◌≡◌, refl, subst, List, [], ◌∷◌, length, some, arith, not,
  ◌==◌, false,
}
use vim_config.Outcome.{ok, ok_or, ok_or_ok, refuse, refuse_ok, invalid, >>=-eq-ok, ok-injective}
use vim_config.Prelude.{All}
use vim_config.Wire.Varint.{IsByte}
use vim_config.Store.Hex.{digit, hex, hex_nibble, decode_pairs, decode_hex_32}

hex_nibble-digit : (n : ℕ) → n < 16 → hex_nibble (digit n) ≡ some n
unfolding hex_nibble
hex_nibble-digit n h = ground arith

pub length-hex : (bytes : List ℕ) → length (hex bytes) ≡ length bytes * 2
unfolding hex
length-hex [] = refl
length-hex (b ∷ bytes) = omega (arith, length-hex bytes)

decode_pairs-hex : (bytes : List ℕ) → All IsByte bytes → decode_pairs (hex bytes) ≡ ok bytes
unfolding hex decode_pairs
decode_pairs-hex [] h = refl
decode_pairs-hex (b ∷ bytes) h =
    let whole : b / 16 * 16 + b % 16 ≡ b = omega arith in
    rw (
      hex_nibble-digit (b / 16) (omega arith),
      hex_nibble-digit (b % 16) (omega arith),
      decode_pairs-hex bytes h.1,
      whole,
    )

-- 32 bytes in hexadecimal are decoded to the same bytes.
pub decode_hex_32-hex :
    (bytes : List ℕ) → length bytes ≡ 32 → All IsByte bytes → decode_hex_32 (hex bytes) ≡ ok bytes
unfolding decode_hex_32
decode_hex_32-hex bytes e h =
    let n : length (hex bytes) ≡ 64 = omega (arith, length-hex bytes) in
    rw n (decode_pairs-hex bytes h)

digit-hex_nibble : (a : ℕ) {n : ℕ} → hex_nibble a ≡ some n → (n < 16) × (digit n ≡ a)
unfolding hex_nibble
digit-hex_nibble a h = ground arith

hex-nil : hex [] ≡ []
unfolding hex
hex-nil = refl

hex-pair :
    (high low : ℕ) (rest : List ℕ)
    → low < 16
    → hex ((high * 16 + low) ∷ rest) ≡ digit high ∷ digit low ∷ hex rest
unfolding hex
hex-pair high low rest h =
    let a : (high * 16 + low) / 16 ≡ high = omega arith in
    let b : (high * 16 + low) % 16 ≡ low = omega arith in rw (a, b)

hex-decode_pairs :
    (k : ℕ) (text : List ℕ) {bytes : List ℕ}
    → length text ≡ k * 2
    → decode_pairs text ≡ ok bytes
    → (hex bytes ≡ text) × All IsByte bytes × (length bytes ≡ k)
unfolding decode_pairs
hex-decode_pairs zero [] e h =
    subst (λ bs. (hex bs ≡ []) × All IsByte bs × (length bs ≡ 0)) (ok-injective h)
      (hex-nil, tt, refl)
hex-decode_pairs (suc k) [] e h = absurd (omega arith)
hex-decode_pairs zero (a ∷ []) e h = absurd (omega arith)
hex-decode_pairs (suc k) (a ∷ []) e h = absurd (omega arith)
hex-decode_pairs zero (a ∷ b ∷ text) e h = absurd (omega arith)
hex-decode_pairs (suc k) (a ∷ b ∷ text) {bytes} e h =
    let (high, eh, h₁) = >>=-eq-ok (ok_or (hex_nibble a) invalid) _ h in
    let (low, el, h₂) = >>=-eq-ok (ok_or (hex_nibble b) invalid) _ h₁ in
    let (rest, er, h₃) = >>=-eq-ok (decode_pairs text) _ h₂ in
    let (sh, dh) = digit-hex_nibble a (ok_or_ok _ _ eh) in
    let (sl, dl) = digit-hex_nibble b (ok_or_ok _ _ el) in
    let (back, small, n) = hex-decode_pairs k text (omega arith) er in
    subst (λ bs. (hex bs ≡ a ∷ b ∷ text) × All IsByte bs × (length bs ≡ suc k)) (ok-injective h₃)
      (rw (hex-pair high low rest sl, dh, dl, back), (omega arith, small), omega arith)

-- What is decoded is 32 bytes, and their text is the one that was decoded.
pub hex-decode_hex_32 :
    (text : List ℕ) {bytes : List ℕ}
    → decode_hex_32 text ≡ ok bytes
    → (hex bytes ≡ text) × All IsByte bytes × (length bytes ≡ 32)
unfolding decode_hex_32
hex-decode_hex_32 text h =
    let (_, right, h₁) = >>=-eq-ok (refuse (not (length text == 64)) invalid) _ h in
    let e : not (length text == 64) ≡ false = refuse_ok _ _ right in
    hex-decode_pairs 32 text (ground arith) h₁
