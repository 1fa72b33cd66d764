-- ===== src/Wire/Varint/Canonical.antt =====
-- The readers of recording/wire.rs on any bytes: a number is accepted in one form only.
use vim_config.Prelude.{
  ℕ, zero, suc, ◌+◌, ◌*◌, ◌/◌, ◌%◌, ◌^◌, ◌≤◌, ◌<◌, ◌≡◌, sym, ap, ◌∙◌, List, [], ◌∷◌, ◌++◌, arith,
  length, ltb, if◌then◌else◌, All, inl, inr, ◌⊎◌,
}
use vim_config.Outcome.{ok, err, u64_max, overflow}
use vim_config.Wire.Cursor.{Cursor, at, read_byte, pure, lift, >>=-eq-ok}
use vim_config.Wire.Read.{read_loop, read_uvarint, read_uvarint128}
use vim_config.Wire.Varint.{Encodes, last, more, IsByte, put_uvarint128-Encodes}
use vim_config.Wire.Put.{put_uvarint128}
use vim_config.Wire.Varint.RoundTrip.{split_group}

-- From `at o bs` a reader came to `c`, past the code of `w`.
pub record Past (o : ℕ) (bs : List ℕ) (c : Cursor) (rounds w : ℕ) : Type 0 where
  pub taken : List ℕ
  pub code : Encodes w taken
  pub split : bs ≡ taken ++ c.rest
  pub short : length taken ≤ rounds
  pub moved : c.offset ≡ o + length taken

-- What one round does, by the byte that it reads.
read_round :
    (rounds i value o b : ℕ) (bs : List ℕ) {v : ℕ} {c : Cursor}
    → b < 256
    → read_loop (suc rounds) i value (at o (b ∷ bs)) ≡ ok (v, c)
    → (127 < b)
        × (read_loop rounds (i + 1) (value + b % 128 * 2 ^ (i * 7)) (at (o + 1) bs) ≡ ok (v, c))
      ⊎ (b < 128) × (0 < i → 0 < b) × (v ≡ value + b * 2 ^ (i * 7)) × (c ≡ at (o + 1) bs)
unfolding read_loop read_byte
read_round rounds i value o b bs small h = ground arith

Encodes-cons :
    (b w : ℕ) {bs : List ℕ}
    → b < 256
    → 127 < b
    → 0 < w
    → Encodes w bs
    → Encodes (b % 128 + 128 * w) (b ∷ bs)
Encodes-cons b w {bs} small p nz e =
    let w' = b % 128 + 128 * w in
    let rest : w ≡ w' / 128 = omega arith in
    let byte : w' % 128 + 128 ≡ b = omega arith in
    rw byte at (more w' {bs = bs} (omega arith) (rw rest at e))

read_loop-Past :
    (rounds i value o : ℕ) (bs : List ℕ) {v : ℕ} {c : Cursor}
    → All IsByte bs
    → read_loop rounds i value (at o bs) ≡ ok (v, c)
    → (w : ℕ) × Past o bs c rounds w × (v ≡ value + w * 2 ^ (i * 7)) × (0 < i → 0 < w)
read_loop-Past zero i value o bs small h = unfold read_loop in cc
read_loop-Past (suc k) i value o [] small h = unfold read_loop read_byte in cc
read_loop-Past (suc k) i value o (b ∷ bs) (sb, small) h = elim (read_round k i value o b bs sb h) [
  | inl (p, h') ↦
      let (w, past, e, nz) = read_loop-Past k (i + 1) _ (o + 1) bs small h' in
      let sum = split_group (b % 128 + 128 * w) i in
      let w' = b % 128 + 128 * w in
      let top : w' / 128 ≡ w = omega arith in
      let low : w' % 128 ≡ b % 128 = omega arith in
      (
        w',
        record {
          taken = b ∷ past.taken;
          code = Encodes-cons b w sb p (nz (omega arith)) past.code;
          split = ap (λ t. b ∷ t) past.split;
          short = omega (arith, past.short);
          moved = omega (arith, past.moved);
        },
        e ∙ omega (arith, rw (low, top) at sum),
        λ q. omega (arith, nz (omega arith)),
      )
  | inr (p, nz, e, ec) ↦ (
    b,
    record {
      taken = b ∷ [];
      code = last b p;
      split = ap (λ t. b ∷ t) (sym (ap Cursor.rest ec));
      short = omega arith;
      moved = ap Cursor.offset ec;
    },
    e,
    nz,
  )
]

-- What `read_uvarint128` accepts is the code of the number that it returns.
pub read_uvarint128-Past :
    (o : ℕ) (bs : List ℕ) {v : ℕ} {c : Cursor}
    → All IsByte bs
    → read_uvarint128 (at o bs) ≡ ok (v, c)
    → Past o bs c 19 v
unfolding read_uvarint128
read_uvarint128-Past o bs {v} {c} small h =
    let (w, past, e, _) = read_loop-Past 19 0 0 o bs small h in
    let same : w ≡ v = omega arith in rw same at past

narrow :
    (w : ℕ) (mid : Cursor) {v : ℕ} {c : Cursor}
    → (if ltb u64_max w then lift (err overflow) else pure w) mid ≡ ok (v, c)
    → (w ≤ u64_max) × (w ≡ v) × (mid ≡ c)
narrow w mid h = ground arith

pub read_uvarint-Past :
    (o : ℕ) (bs : List ℕ) {v : ℕ} {c : Cursor}
    → All IsByte bs
    → read_uvarint (at o bs) ≡ ok (v, c)
    → Past o bs c 19 v × (v ≤ u64_max)
unfolding read_uvarint
read_uvarint-Past o bs {v} {c} small h =
    let (w, mid, e, h') = >>=-eq-ok read_uvarint128 _ (at o bs) h in
    let past = read_uvarint128-Past o bs small e in
    let (fits, same, end) = narrow w mid h' in (rw (same, end) at past, rw same at fits)

-- What `read_uvarint128` accepts at the front of a list of bytes is the code that `put_uvarint128` writes
-- for the number, and it moves behind that code.
pub put_uvarint128-read_uvarint128 :
    (o : ℕ) (bs : List ℕ) {v : ℕ} {c : Cursor}
    → All IsByte bs
    → read_uvarint128 (at o bs) ≡ ok (v, c)
    → (code : List ℕ) × (put_uvarint128 [] v ≡ ok code)
      × (bs ≡ code ++ c.rest)
      × (c.offset ≡ o + length code)
put_uvarint128-read_uvarint128 o bs small h =
    let past = read_uvarint128-Past o bs small h in
    (
      past.taken,
      put_uvarint128-Encodes [] past.code (omega (arith, past.short)),
      past.split,
      past.moved,
    )
