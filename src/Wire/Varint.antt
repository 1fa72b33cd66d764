-- ===== src/Wire/Varint.antt =====
-- What the variable-length integers of recording/wire.rs stand for: an independent description of
-- the code of a number, and that the writers write it.
pub mod RoundTrip
pub mod Canonical
use vim_config.Prelude.{
  ℕ, zero, suc, ◌+◌, ◌*◌, ◌/◌, ◌%◌, ◌^◌, ◌≤◌, ◌<◌, ◌≡◌, refl, sym, ap, ◌∙◌, List, [], ◌∷◌, ◌++◌,
  arith, length, length-append, append_assoc, dec_lt, All,
}
use vim_config.Prelude.Order.{lt_wf}
use vim_config.Outcome.{Error, Result, ok, err, ◌>>=◌, >>=-eq-ok, exceeds_limit}
use vim_config.Wire.Put.{
  max_block_bytes, put_bytes, shift_shrinks, put_loop, put_uvarint, put_uvarint128,
}
use native.Mathlib.Bridge.{le_prop}
use mathlib.Core.WellFounded.{Acc}
use mathlib.Core.Logic.{dif_pos, dif_neg}

-- The groups of seven bits of a number, lowest first, and the highest is not 0 but in the code of 0.
pub data Encodes : ℕ → List ℕ → Type 0 where
  last : (v : ℕ) → v < 128 → Encodes v (v ∷ [])
  more : (v : ℕ) {bs : List ℕ} → 127 < v → Encodes (v / 128) bs → Encodes v ((v % 128 + 128) ∷ bs)

abbrev pub IsByte : ℕ → Type 0
IsByte b = b < 256

-- `out'` is `out` with the code of `v` behind it.
abbrev pub Appends : List ℕ → ℕ → List ℕ → Type 0
Appends out v out' = (bs : List ℕ) × (out' ≡ out ++ bs) × Encodes v bs

pub put_bytes_ok :
    (out bytes : List ℕ) {out' : List ℕ}
    → put_bytes out bytes ≡ ok out'
    → (out' ≡ out ++ bytes) × (length out' ≤ max_block_bytes)
unfolding put_bytes
put_bytes_ok out bytes h = ground (arith, length-append out bytes)

put_loop_ok :
    (out : List ℕ) (v : ℕ) (w : Acc ◌<◌ v) {out' : List ℕ}
    → put_loop out v w ≡ ok out'
    → Appends out v out' × (length out' ≤ max_block_bytes)
unfolding put_loop
put_loop_ok out v (Acc.intro _ smaller) h = elim (dec_lt 127 v) [
  | yes p ↦
      let round = dif_pos (dec_lt 127 v) le_prop p _ _ in
      let (mid, e, h') = >>=-eq-ok _ _ (sym round ∙ h) in
      let ((bs, e', enc), fits) = put_loop_ok mid (v / 128) (smaller _ (shift_shrinks v p)) h' in
      (((v % 128 + 128) ∷ bs, e' ∙ rw ((put_bytes_ok out _ e).0, append_assoc), more v p enc), fits)
  | no p ↦
      let round = dif_neg (dec_lt 127 v) p _ _ in
      let (e, fits) = put_bytes_ok out (v ∷ []) (sym round ∙ h) in
      ((v ∷ [], e, last v (omega arith)), fits)
]

pub put_uvarint128_ok :
    (out : List ℕ) (v : ℕ) {out' : List ℕ}
    → put_uvarint128 out v ≡ ok out'
    → Appends out v out' × (length out' ≤ max_block_bytes)
unfolding put_uvarint128
put_uvarint128_ok out v h = put_loop_ok out v _ h

pub put_uvarint_ok :
    (out : List ℕ) (v : ℕ) {out' : List ℕ}
    → put_uvarint out v ≡ ok out'
    → Appends out v out' × (length out' ≤ max_block_bytes)
unfolding put_uvarint
put_uvarint_ok out v h = put_loop_ok out v _ h

-- The code of a number below 128 ^ k has at most k bytes, each of them a byte.
pub Encodes-lengths :
    (k : ℕ) {v : ℕ} {bs : List ℕ}
    → Encodes v bs
    → v < 128 ^ suc k
    → (1 ≤ length bs) × (length bs ≤ suc k) × All IsByte bs
Encodes-lengths k (last v p) h = omega arith
Encodes-lengths zero (more v p e) h = absurd (omega arith)
Encodes-lengths (suc k) (more v p e) h =
    let (a, b, c) = Encodes-lengths k e (omega arith) in
    (omega arith, omega arith, (omega arith, c))

pub put_bytes_fits :
    (out bytes : List ℕ)
    → length out + length bytes ≤ max_block_bytes
    → put_bytes out bytes ≡ ok (out ++ bytes)
unfolding put_bytes
put_bytes_fits out bytes h = ground arith

put_loop-Encodes :
    (out : List ℕ) {v : ℕ} (w : Acc ◌<◌ v) {bs : List ℕ}
    → Encodes v bs
    → length out + length bs ≤ max_block_bytes
    → put_loop out v w ≡ ok (out ++ bs)
unfolding put_loop
put_loop-Encodes out (Acc.intro _ smaller) (last v p) h =
    dif_neg (dec_lt 127 v) (omega arith) _ _ ∙ put_bytes_fits out (v ∷ []) h
put_loop-Encodes out (Acc.intro _ smaller) (more v {bs} p e) h =
    let byte : List ℕ = (v % 128 + 128) ∷ [] in
    dif_pos (dec_lt 127 v) le_prop p _ _
    ∙ rw (put_bytes_fits out byte (omega arith)) (
        put_loop-Encodes (out ++ byte) (smaller _ (shift_shrinks v p)) e
          (omega (arith, length-append out byte))
        ∙ ap ok (append_assoc out byte bs))

-- The writer appends the code, if the block has room for it.
pub put_uvarint128-Encodes :
    (out : List ℕ) {v : ℕ} {bs : List ℕ}
    → Encodes v bs
    → length out + length bs ≤ max_block_bytes
    → put_uvarint128 out v ≡ ok (out ++ bs)
unfolding put_uvarint128
put_uvarint128-Encodes out e h = put_loop-Encodes out _ e h

put_loop_total :
    (k : ℕ) (out : List ℕ) (v : ℕ) (w : Acc ◌<◌ v)
    → v < 128 ^ suc k
    → length out + suc k ≤ max_block_bytes
    → (out' : List ℕ) × (put_loop out v w ≡ ok out')
unfolding put_loop
put_loop_total zero out v (Acc.intro _ smaller) h r = (
  out ++ v ∷ [],
  dif_neg (dec_lt 127 v) (omega arith) _ _ ∙ put_bytes_fits out (v ∷ []) (omega arith),
)
put_loop_total (suc k) out v (Acc.intro _ smaller) h r = elim (dec_lt 127 v) [
  | yes p ↦
      let byte : List ℕ = (v % 128 + 128) ∷ [] in
      let (out', e) =
        put_loop_total k (out ++ byte) (v / 128) (smaller _ (shift_shrinks v p)) (omega arith)
          (omega (arith, length-append out byte)) in
      (out', dif_pos (dec_lt 127 v) le_prop p _ _ ∙ rw (put_bytes_fits out byte (omega arith)) e)
  | no p ↦ (out ++ v ∷ [], dif_neg (dec_lt 127 v) p _ _ ∙ put_bytes_fits out (v ∷ []) (omega arith))
]

-- With room for 19 more bytes in the block, `put_uvarint128` succeeds on every u128.
pub put_uvarint128_total :
    (out : List ℕ) (v : ℕ)
    → v < 2 ^ 128
    → length out + 19 ≤ max_block_bytes
    → (out' : List ℕ) × (put_uvarint128 out v ≡ ok out')
unfolding put_uvarint128
put_uvarint128_total out v h r = put_loop_total 18 out v _ (omega arith) (omega arith)
