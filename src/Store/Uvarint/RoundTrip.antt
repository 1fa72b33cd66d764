-- ===== src/Store/Uvarint/RoundTrip.antt =====
-- `write_uvarint` writes the code of a number, `varint_len` is its length, `read_uvarint` reads it.
use vim_config.Prelude.{
  ℕ, zero, suc, ◌+◌, ◌*◌, ◌/◌, ◌%◌, ◌^◌, ◌≤◌, ◌<◌, ◌≡◌, refl, ap, ◌∙◌, List, [], ◌∷◌, ◌++◌, arith,
  length, length-append, append_assoc, dec_lt, ltb, ◌==◌, ◌&&◌, not, true, false,
}
use vim_config.Wire.Put.{shift_shrinks}
use vim_config.Wire.Varint.{Encodes, last, more, Appends, Encodes-lengths}
use vim_config.Wire.Varint.RoundTrip.{split_group}
use vim_config.Wire.Cursor.{Reads, Reads-bind, Reads-equal, Reads-pure, Wrote}
use vim_config.Store.Uvarint.{
  write_loop, write_uvarint, len_loop, varint_len, read_exact_byte, read_rounds, read_uvarint,
}
use native.Mathlib.Bridge.{le_prop}
use native.Mathlib.Numerals.{towards_suc}
use mathlib.Core.WellFounded.{Acc}
use mathlib.Core.Logic.{dif_pos, dif_neg}

write_loop-Appends : (v : ℕ) (w : Acc ◌<◌ v) (out : List ℕ) → Appends out v (write_loop v w out)
unfolding write_loop
write_loop-Appends v (Acc.intro _ smaller) out = elim (dec_lt 127 v) [
  | yes p ↦
      let byte : List ℕ = (v % 128 + 128) ∷ [] in
      let (bs, e, enc) =
        write_loop-Appends (v / 128) (smaller _ (shift_shrinks v p)) (out ++ byte) in
      (
        (v % 128 + 128) ∷ bs,
        dif_pos (dec_lt 127 v) le_prop p _ _ ∙ e ∙ append_assoc out byte bs,
        more v p enc,
      )
  | no p ↦ (v ∷ [], dif_neg (dec_lt 127 v) p _ _, last v (omega arith))
]

-- Whatever stands before it, `write_uvarint` appends the code of the number.
pub write_uvarint-Appends : (v : ℕ) (out : List ℕ) → Appends out v (write_uvarint v out)
unfolding write_uvarint
write_uvarint-Appends v out = write_loop-Appends v _ out

len_loop-Encodes :
    {v : ℕ} (w : Acc ◌<◌ v) (n : ℕ) {bs : List ℕ}
    → Encodes v bs
    → len_loop v w n + 1 ≡ n + length bs
unfolding len_loop
len_loop-Encodes (Acc.intro _ smaller) n (last v p) =
    ap (λ k. k + 1) (dif_neg (dec_lt 127 v) (omega arith) _ _)
len_loop-Encodes (Acc.intro _ smaller) n (more v p e) =
    let round = dif_pos (dec_lt 127 v) le_prop p _ _ in
    ap (λ k. k + 1) round
    ∙ omega (arith, len_loop-Encodes (smaller _ (shift_shrinks v p)) (n + 1) e)

-- `varint_len` is the length of the code.
pub varint_len-Encodes : {v : ℕ} {bs : List ℕ} → Encodes v bs → varint_len v ≡ length bs
unfolding varint_len
varint_len-Encodes e = omega (arith, len_loop-Encodes _ 1 e)

Reads-exact_byte : (b : ℕ) → Reads read_exact_byte (b ∷ []) b
unfolding read_exact_byte
Reads-exact_byte b = record { run = λ o rest h. refl }

-- One round, on a last byte and on another.
read_last :
    (rounds i s value w : ℕ)
    → w < 128
    → (s ≡ 63 → w < 2)
    → varint_len (value + w * 2 ^ s) ≡ i + 1
    → Reads (read_rounds (suc rounds) i s value) (w ∷ []) (value + w * 2 ^ s)
unfolding read_rounds
read_last rounds i s value w h top len =
    let fits : ((s == 63) && ltb 1 w) ≡ false = ground arith in
    let ends : ltb w 128 ≡ true = ground arith in
    let low : w % 128 ≡ w = omega arith in
    let canonical : not (varint_len (value + w * 2 ^ s) == i + 1) ≡ false = ground arith in
    Reads-bind _ (Reads-exact_byte w)
      (Reads-equal (rw (fits, ends, low, canonical)) (Reads-pure (value + w * 2 ^ s)))

read_more :
    (rounds i s value g : ℕ) (bs : List ℕ) (v : ℕ)
    → g < 128
    → s < 63
    → Reads (read_rounds rounds (i + 1) (s + 7) (value + g * 2 ^ s)) bs v
    → Reads (read_rounds (suc rounds) i s value) ((g + 128) ∷ bs) v
unfolding read_rounds
read_more rounds i s value g bs v h top r =
    let fits : ((s == 63) && ltb 1 (g + 128)) ≡ false = ground arith in
    let goes_on : ltb (g + 128) 128 ≡ false = ground arith in
    let low : (g + 128) % 128 ≡ g = omega arith in
    Reads-bind _ (Reads-exact_byte (g + 128)) (rw (fits, goes_on, low) r)

next_bound : (k : ℕ) → 2 ^ (suc k * 7 + 1) ≡ 128 * 2 ^ (k * 7 + 1)
next_bound k =
    let e : suc k * 7 + 1 ≡ (k * 7 + 1) + 7 = omega arith in rw e (simp towards_suc (omega arith))

-- The rounds that are left read the code of `w`, which counts from group `i` on, up to the number `v`.
read_rounds-Encodes :
    (k i value v : ℕ) {w : ℕ} {bs : List ℕ}
    → Encodes w bs
    → i + k ≡ 9
    → w < 2 ^ (k * 7 + 1)
    → value + w * 2 ^ (i * 7) ≡ v
    → varint_len v ≡ i + length bs
    → Reads (read_rounds (suc k) i (i * 7) value) bs v
read_rounds-Encodes zero i value v (last w p) hk hw sum len =
    rw sum at (read_last zero i (i * 7) value w p (λ _. omega arith) (rw sum (omega (arith, len))))
read_rounds-Encodes zero i value v (more w p e) hk hw sum len = absurd (omega arith)
read_rounds-Encodes (suc k) i value v (last w p) hk hw sum len = rw sum at (
    read_last (suc k) i (i * 7) value w p (λ q. absurd (omega arith)) (rw sum (omega (arith, len))))
read_rounds-Encodes (suc k) i value v (more w {bs} p e) hk hw sum len =
    let sum' : value + w % 128 * 2 ^ (i * 7) + w / 128 * 2 ^ ((i + 1) * 7) ≡ v =
      omega (arith, split_group w i) in
    let shift : (i + 1) * 7 ≡ i * 7 + 7 = omega arith in
    read_more (suc k) i (i * 7) value (w % 128) bs v (omega arith) (omega arith) (
      rw shift at (
        read_rounds-Encodes k (i + 1) (value + w % 128 * 2 ^ (i * 7)) v e (omega arith)
          (omega (arith, next_bound k)) sum' (omega arith)))

pub read_uvarint-Encodes :
    {v : ℕ} {bs : List ℕ} → Encodes v bs → v < 2 ^ 64 → Reads read_uvarint bs v
unfolding read_uvarint
read_uvarint-Encodes {v} e h =
    read_rounds-Encodes 9 0 0 v e refl h (omega arith) (omega (arith, varint_len-Encodes e))

-- The number written by `write_uvarint`, if it is a u64, is read by `read_uvarint`.
pub read_uvarint-write_uvarint :
    (v : ℕ) (out : List ℕ) → v < 2 ^ 64 → Wrote out (write_uvarint v out) read_uvarint v
read_uvarint-write_uvarint v out h =
    let (bs, e, enc) = write_uvarint-Appends v out in (bs, e, read_uvarint-Encodes enc h)

-- `varint_len` bytes are written.
pub length-write_uvarint :
    (v : ℕ) (out : List ℕ) → length (write_uvarint v out) ≡ length out + varint_len v
length-write_uvarint v out =
    let (bs, e, enc) = write_uvarint-Appends v out in
    omega (arith, ap length e, length-append out bs, varint_len-Encodes enc)

-- A u64 has from 1 to 10 bytes.
pub varint_len_bounds : (v : ℕ) → v < 2 ^ 64 → (1 ≤ varint_len v) × (varint_len v ≤ 10)
varint_len_bounds v h =
    let (bs, e, enc) = write_uvarint-Appends v [] in
    let (a, b, _) = Encodes-lengths 9 enc (omega arith) in omega (arith, varint_len-Encodes enc)
