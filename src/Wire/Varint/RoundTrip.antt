-- ===== src/Wire/Varint/RoundTrip.antt =====
-- The readers of recording/wire.rs read back what the writers wrote.
use vim_config.Prelude.{
  ℕ, zero, suc, ◌+◌, ◌*◌, ◌/◌, ◌%◌, ◌^◌, ◌<◌, ◌≡◌, refl, ap, List, [], ◌∷◌, arith, length, some,
  ltb, ◌==◌, true, false, Bool,
}
use vim_config.Outcome.{
  ok, u64_max, >>=-eq-ok, ok_or, ok_or_ok, refuse, refuse_ok, overflow, exceeds_limit,
}
use vim_config.Prelude.Int.{ℤ, pos, negsuc}
use vim_config.Wire.Put.{
  put_uvarint, put_uvarint128, put_svarint, put_string, zigzag, max_name_bytes,
}
use vim_config.Wire.Cursor.{
  Reads, Reads-bind, Reads-byte, Reads-equal, Reads-bind-pure, Reads-slice, Wrote, Wrote-bind,
  Reads-pure,
}
use vim_config.Wire.Read.{
  read_loop, read_uvarint, read_uvarint128, unzigzag, read_svarint, read_string,
}
use vim_config.Wire.Varint.{Encodes, last, more, put_uvarint_ok, put_uvarint128_ok, put_bytes_ok}
use native.Mathlib.Nat.{div-add-mod}
use native.Mathlib.Numerals.{towards_suc}

pub next_weight : (i : ℕ) → 2 ^ ((i + 1) * 7) ≡ 128 * 2 ^ (i * 7)
next_weight i =
    let e : (i + 1) * 7 ≡ i * 7 + 7 = omega arith in rw e (simp towards_suc (omega arith))

-- The lowest group of `w` and the others, at the weight of group `i`.
pub split_group : (w i : ℕ) → w * 2 ^ (i * 7) ≡ w % 128 * 2 ^ (i * 7) + w / 128 * 2 ^ ((i + 1) * 7)
split_group w i = omega (
  arith,
  ap (λ (t : ℕ). t * 2 ^ (i * 7)) (div-add-mod w 128),
  ap (λ (t : ℕ). w / 128 * t) (next_weight i),
)

-- One round, on a last byte and on another.
read_last :
    (rounds i value w : ℕ)
    → w < 128
    → (i ≡ 18 → w < 4)
    → (0 < i → 0 < w)
    → Reads (read_loop (suc rounds) i value) (w ∷ []) (value + w * 2 ^ (i * 7))
unfolding read_loop
read_last rounds i value w h top nz =
    Reads-bind _ (Reads-byte w) (Reads-equal (ground arith) (Reads-pure (value + w * 2 ^ (i * 7))))

read_more :
    (rounds i value g : ℕ) (bs : List ℕ) (v : ℕ)
    → g < 128
    → i < 18
    → Reads (read_loop rounds (i + 1) (value + g * 2 ^ (i * 7))) bs v
    → Reads (read_loop (suc rounds) i value) ((g + 128) ∷ bs) v
unfolding read_loop
read_more rounds i value g bs v h top r =
    let low : (g + 128) % 128 ≡ g = omega arith in
    let inner : (i == 18) ≡ false = ground arith in
    let goes_on : ltb 127 (g + 128) ≡ true = ground arith in
    Reads-bind _ (Reads-byte (g + 128)) (rw (inner, goes_on, low) r)

next_bound : (k : ℕ) → 2 ^ (suc k * 7 + 2) ≡ 128 * 2 ^ (k * 7 + 2)
next_bound k =
    let e : suc k * 7 + 2 ≡ (k * 7 + 2) + 7 = omega arith in rw e (simp towards_suc (omega arith))

-- The rounds that are left read the code of `w`, which counts from group `i` on.
read_loop-Encodes :
    (k i value : ℕ) {w : ℕ} {bs : List ℕ}
    → Encodes w bs
    → i + k ≡ 18
    → w < 2 ^ (k * 7 + 2)
    → (0 < i → 0 < w)
    → Reads (read_loop (suc k) i value) bs (value + w * 2 ^ (i * 7))
read_loop-Encodes zero i value (last w p) hk hw nz = read_last zero i value w p (λ _. hw) nz
read_loop-Encodes zero i value (more w p e) hk hw nz = absurd (omega arith)
read_loop-Encodes (suc k) i value (last w p) hk hw nz =
    read_last (suc k) i value w p (λ q. absurd (omega arith)) nz
read_loop-Encodes (suc k) i value (more w {bs} p e) hk hw nz =
    let value' = value + w % 128 * 2 ^ (i * 7) in
    let sum : value' + w / 128 * 2 ^ ((i + 1) * 7) ≡ value + w * 2 ^ (i * 7) =
      omega (arith, split_group w i) in
    read_more (suc k) i value (w % 128) bs _ (omega arith) (omega arith) (
      rw sum at (
        read_loop-Encodes k (i + 1) value' e (omega arith) (omega (arith, next_bound k))
          (λ _. omega arith)))

pub read_uvarint128-Encodes :
    {v : ℕ} {bs : List ℕ} → Encodes v bs → v < 2 ^ 128 → Reads read_uvarint128 bs v
unfolding read_uvarint128
read_uvarint128-Encodes {v} e h =
    let sum : 0 + v * 2 ^ (0 * 7) ≡ v = omega arith in
    rw sum at (read_loop-Encodes 18 0 0 e refl h (λ q. absurd (omega arith)))

pub read_uvarint-Encodes :
    {v : ℕ} {bs : List ℕ} → Encodes v bs → v < 2 ^ 64 → Reads read_uvarint bs v
unfolding read_uvarint
read_uvarint-Encodes {v} e h =
    let small : ltb u64_max v ≡ false = ground arith in
    Reads-bind-pure _ (read_uvarint128-Encodes e (omega arith)) (rw small)

-- If `put_uvarint` wrote a u64, `read_uvarint` reads it, wherever the code stands and whatever follows,
-- and moves behind it.
pub read_uvarint-put_uvarint :
    (out : List ℕ) (v : ℕ) {out' : List ℕ}
    → v < 2 ^ 64
    → put_uvarint out v ≡ ok out'
    → Wrote out out' read_uvarint v
read_uvarint-put_uvarint out v h e =
    let ((bs, e', enc), _) = put_uvarint_ok out v e in (bs, e', read_uvarint-Encodes enc h)

pub read_uvarint128-put_uvarint128 :
    (out : List ℕ) (v : ℕ) {out' : List ℕ}
    → v < 2 ^ 128
    → put_uvarint128 out v ≡ ok out'
    → Wrote out out' read_uvarint128 v
read_uvarint128-put_uvarint128 out v h e =
    let ((bs, e', enc), _) = put_uvarint128_ok out v e in (bs, e', read_uvarint128-Encodes enc h)

pub unzigzag-zigzag : (z : ℤ) {n : ℕ} → zigzag z ≡ some n → (n < 2 ^ 128) × (unzigzag n ≡ ok z)
unfolding zigzag unzigzag
unzigzag-zigzag (pos k) h = ground arith
unzigzag-zigzag (negsuc k) h = ground arith

-- If `put_svarint` wrote an integer, `read_svarint` reads it, wherever the code stands and whatever
-- follows, and moves behind it.
pub read_svarint-put_svarint :
    (out : List ℕ) (z : ℤ) {out' : List ℕ}
    → put_svarint out z ≡ ok out'
    → Wrote out out' read_svarint z
unfolding put_svarint read_svarint
read_svarint-put_svarint out z e =
    let (n, en, e') = >>=-eq-ok (ok_or (zigzag z) overflow) _ e in
    let (fits, back) = unzigzag-zigzag z (ok_or_ok _ _ en) in
    let (bs, eb, r) = read_uvarint128-put_uvarint128 out n fits e' in
    (bs, eb, Reads-bind-pure _ r (rw back))

-- If `put_string` wrote a text that is UTF-8, `read_string` reads it, wherever it stands and whatever
-- follows, and moves behind it.
pub read_string-put_string :
    (is_utf8 : List ℕ → Bool) (out text : List ℕ) {out' : List ℕ}
    → is_utf8 text ≡ true
    → put_string out text ≡ ok out'
    → Wrote out out' (read_string is_utf8) text
unfolding put_string read_string
read_string-put_string is_utf8 out text {out'} u e =
    let (_, small, e₁) = >>=-eq-ok (refuse (ltb max_name_bytes (length text)) exceeds_limit) _ e in
    let short : ltb max_name_bytes (length text) ≡ false = refuse_ok _ _ small in
    let (mid, e₂, e₃) = >>=-eq-ok (put_uvarint out (length text)) _ e₁ in
    Wrote-bind _ out (read_uvarint-put_uvarint out (length text) (ground arith) e₂)
      (rw short (text, (put_bytes_ok mid text e₃).0, Reads-bind-pure _ (Reads-slice text) (rw u)))
