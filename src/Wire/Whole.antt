-- ===== src/Wire/Whole.antt =====
-- The decoders of recording/wire.rs that read all of their bytes: they begin behind a magic of four
-- bytes and refuse what trails, `if offset != bytes.len() { return Err(..) }`.
use vim_config.Prelude.{
  ℕ, ◌+◌, ◌≤◌, ◌≡◌, refl, sym, ap, ◌∙◌, List, [], ◌∷◌, ◌++◌, length, drop, arith, append-nil,
  length-append, append_assoc, Bool, true, false, ◌==◌, ◌&&◌, drop-length-append,
}
use vim_config.Outcome.{trailing, Result, ok, err, u64_max}
use vim_config.Wire.Cursor.{at, Reader, ◌>>=◌, lift, lift-bind, Fits, Reads, Fits-append, Wrote}

unfoldable pub at_end {ℓ} : {A : Type ℓ} → A → Reader A
at_end a c = elim c.rest [ [] ↦ ok (a, c) | b ∷ bs ↦ err trailing ]

unfoldable pub after_magic {ℓ} : {A : Type ℓ} → Reader A → List ℕ → Result A
after_magic r bytes = elim (r (at 4 (drop 4 bytes))) [ ok (a, c) ↦ ok a | err e ↦ err e ]

-- `bytes.len() >= magic.len() && &bytes[..magic.len()] == magic`
unfoldable pub has_magic : List ℕ → List ℕ → Bool
has_magic [] bytes = true
has_magic (m ∷ magic) [] = false
has_magic (m ∷ magic) (b ∷ bytes) = (m == b) && has_magic magic bytes

pub has_magic-append : (magic bs : List ℕ) → has_magic magic (magic ++ bs) ≡ true
unfolding has_magic
has_magic-append [] bs = refl
has_magic-append (m ∷ magic) bs = ground (arith, has_magic-append magic bs)

pub has_magic_split :
    (magic bytes : List ℕ)
    → has_magic magic bytes ≡ true
    → bytes ≡ magic ++ drop (length magic) bytes
unfolding has_magic
has_magic_split [] bytes h = refl
has_magic_split (m ∷ magic) [] h = cc
has_magic_split (m ∷ magic) (b ∷ bytes) h = ground (arith, has_magic_split magic bytes)

-- On `bs`, with nothing behind it, the reader returns `a` and is at the end.
pub record ReadsAll {ℓ} {A : Type ℓ} (r : Reader A) (bs : List ℕ) (a : A) : Type ℓ where
  pub run : (o : ℕ) → Fits o bs → r (at o bs) ≡ ok (a, at (o + length bs) [])

pub ReadsAll-at_end {ℓ} : {A : Type ℓ} (a : A) → ReadsAll (at_end a) [] a
unfolding at_end
ReadsAll-at_end a = record { run = λ o fits. ap (λ n. ok (a, at n [])) (omega arith) }

pub ReadsAll-bind {ℓ κ} :
    {A : Type ℓ} {B : Type κ} {r : Reader A} (f : A → Reader B) {bs cs : List ℕ} {a : A} {b : B}
    → Reads r bs a
    → ReadsAll (f a) cs b
    → ReadsAll (r >>= f) (bs ++ cs) b
ReadsAll-bind f {bs} {cs} {b} p q = record {
  run = λ o fits.
      rw (p.run o cs fits, q.run (o + length bs) (Fits-append o bs cs fits))
        (ap (λ n. ok (b, at n [])) (omega (arith, length-append bs cs)));
}

-- A writer took `out` to `out'`, and the reader returns `a` on what it appended, up to the end.
abbrev pub WroteAll {ℓ} : {A : Type ℓ} → List ℕ → List ℕ → Reader A → A → Type ℓ
WroteAll out out' r a = (bs : List ℕ) × (out' ≡ out ++ bs) × ReadsAll r bs a

pub WroteAll-bind {ℓ κ} :
    {A : Type ℓ} {B : Type κ} {r : Reader A} (f : A → Reader B) (out : List ℕ) {mid out' : List ℕ}
    {a : A} {b : B}
    → Wrote out mid r a
    → WroteAll mid out' (f a) b
    → WroteAll out out' (r >>= f) b
WroteAll-bind f out (bs, e, p) (cs, e', q) =
    (bs ++ cs, e' ∙ ap (λ t. t ++ cs) e ∙ append_assoc out bs cs, ReadsAll-bind f p q)

pub WroteAll-at_end {ℓ} : {A : Type ℓ} (out : List ℕ) (a : A) → WroteAll out out (at_end a) a
WroteAll-at_end out a = ([], sym (append-nil out), ReadsAll-at_end a)

drop-magic : (magic bs : List ℕ) → length magic ≡ 4 → drop 4 (magic ++ bs) ≡ bs
drop-magic magic bs e = rw (sym e) (drop-length-append magic bs)

-- What was written behind a magic is decoded, if a `usize` can index it.
pub after_magic-WroteAll {ℓ} :
    {A : Type ℓ} (r : Reader A) (magic : List ℕ) {out : List ℕ} {a : A}
    → length magic ≡ 4
    → length out ≤ u64_max
    → WroteAll magic out r a
    → after_magic r out ≡ ok a
unfolding after_magic
after_magic-WroteAll r magic {out} four fits (bs, e, p) =
    let bound : Fits 4 bs = omega (arith, four, ap length e, length-append magic bs) in
    rw (e, after_magic, drop-magic magic bs four, p.run 4 bound)

pub WroteAll-lift {ℓ κ} :
    {A : Type ℓ} {B : Type κ} {r : Result A} (f : A → Reader B) (out : List ℕ) {out' : List ℕ}
    {a : A} {b : B}
    → r ≡ ok a
    → WroteAll out out' (f a) b
    → WroteAll out out' (lift r >>= f) b
WroteAll-lift f out {out'} {b} e w = rw (lift-bind f e) w
