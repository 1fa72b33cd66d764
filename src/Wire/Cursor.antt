-- ===== src/Wire/Cursor.antt =====
-- `bytes: &[u8], offset: &mut usize`, which every reader of recording/wire.rs takes: the offset, and
-- the bytes from there on. A reader returns the moved cursor; after an error nothing is read again.
use vim_config.Prelude.{
  ℕ, ◌+◌, ◌≤◌, ◌≡◌, refl, sym, ap, ◌∙◌, List, [], ◌∷◌, ◌++◌, arith, length, length-append,
  append_assoc, append-nil, take, drop, ltb, take-length-append, drop-length-append, if◌then◌else◌,
}
use vim_config.Outcome.{truncated, overflow, Result, ok, err, u64_max}

pub record Cursor : Type 0 where
  pub offset : ℕ
  pub rest : List ℕ

abbrev pub at : ℕ → List ℕ → Cursor
at o bs = record { offset = o; rest = bs }

abbrev pub Reader {ℓ} : Type ℓ → Type ℓ
Reader A = Cursor → Result (A × Cursor)

module _ {ℓ} {A : Type ℓ} where
  abbrev pub pure : A → Reader A
  pure a c = ok (a, c)

  abbrev pub lift : Result A → Reader A
  lift (ok a) c = ok (a, c)
  lift (err e) c = err e

module _ {ℓ κ} {A : Type ℓ} {B : Type κ} where
  abbrev pub continue : Result (A × Cursor) → (A → Reader B) → Result (B × Cursor)
  continue (ok (a, c)) f = f a c
  continue (err e) f = err e

  infixl 5 ◌>>=◌
  abbrev pub ◌>>=◌ : Reader A → (A → Reader B) → Reader B
  ◌>>=◌ m f c = continue (m c) f

  pub >>=-eq-ok :
      (m : Reader A) (f : A → Reader B) (c : Cursor) {b : B} {c' : Cursor}
      → (m >>= f) c ≡ ok (b, c')
      → (a : A) × (mid : Cursor) × (m c ≡ ok (a, mid)) × (f a mid ≡ ok (b, c'))
  >>=-eq-ok m f c {b} {c'} h = go (m c) refl h
    where
      go :
          (r : Result (A × Cursor))
          → m c ≡ r
          → continue r f ≡ ok (b, c')
          → (a : A) × (mid : Cursor) × (m c ≡ ok (a, mid)) × (f a mid ≡ ok (b, c'))
      go (ok (a, mid)) e h = (a, mid, e, h)
      go (err x) e h = absurd (cc)

infixl 5 ◌>>◌
abbrev pub ◌>>◌ {ℓ} : {B : Type ℓ} → Reader (Unit {0}) → Reader B → Reader B
m >> k = m >>= λ _. k

-- `*bytes.get(*offset)?`, then `*offset = offset.checked_add(1)?`.
unfoldable pub read_byte : Reader ℕ
read_byte c = elim c.rest [
  | [] ↦ err truncated
  | b ∷ bs ↦ if ltb u64_max (c.offset + 1) then err overflow else ok (b, at (c.offset + 1) bs)
]

-- `bytes.get(*offset..offset.checked_add(n)?)`, then `*offset = end`.
unfoldable pub read_slice : ℕ → Reader (List ℕ)
read_slice n c =
    if ltb u64_max (c.offset + n)
    then err overflow
    else if ltb (length c.rest) n
    then err truncated
    else ok (take n c.rest, at (c.offset + n) (drop n c.rest))

-- A slice is no longer than a `usize` can say.
abbrev pub Fits : ℕ → List ℕ → Type 0
Fits o bs = o + length bs ≤ u64_max

-- On `bs`, whatever follows it, the reader returns `a` and moves behind `bs`.
pub record Reads {ℓ} {A : Type ℓ} (r : Reader A) (bs : List ℕ) (a : A) : Type ℓ where
  pub run :
      (o : ℕ) (rest : List ℕ)
      → Fits o (bs ++ rest)
      → r (at o (bs ++ rest)) ≡ ok (a, at (o + length bs) rest)

pub Fits-append : (o : ℕ) (bs rest : List ℕ) → Fits o (bs ++ rest) → Fits (o + length bs) rest
Fits-append o bs rest h = omega (arith, length-append bs rest)

pub Reads-pure {ℓ} : {A : Type ℓ} (a : A) → Reads (pure a) [] a
Reads-pure a = record { run = λ o rest h. ap (λ n. ok (a, at n rest)) (omega arith) }

-- Readers in sequence read what stands in sequence.
pub Reads-bind {ℓ κ} :
    {A : Type ℓ} {B : Type κ} {r : Reader A} (f : A → Reader B) {bs cs : List ℕ} {a : A} {b : B}
    → Reads r bs a
    → Reads (f a) cs b
    → Reads (r >>= f) (bs ++ cs) b
Reads-bind f {bs} {cs} {b} p q = record {
  run = λ o rest h.
      let h' : Fits o (bs ++ (cs ++ rest)) = rw append_assoc at h in
      rw (append_assoc, p.run o (cs ++ rest) h', q.run (o + length bs) rest (Fits-append o bs _ h'))
        (ap (λ n. ok (b, at n rest)) (omega (arith, length-append bs cs)));
}

-- A reader that is equal to a good one is good.
pub Reads-equal {ℓ} :
    {A : Type ℓ} {r s : Reader A} {bs : List ℕ} {a : A} → r ≡ s → Reads s bs a → Reads r bs a
Reads-equal e p = rw e p

pub Reads-bind-pure {ℓ κ} :
    {A : Type ℓ} {B : Type κ} {r : Reader A} (f : A → Reader B) {bs : List ℕ} {a : A} {b : B}
    → Reads r bs a
    → f a ≡ pure b
    → Reads (r >>= f) bs b
Reads-bind-pure f {b} p e = rw append-nil at (Reads-bind f p (Reads-equal e (Reads-pure b)))

pub Reads-byte : (b : ℕ) → Reads read_byte (b ∷ []) b
unfolding read_byte
Reads-byte b = record { run = λ o rest h. ground arith }

pub Reads-slice : (bs : List ℕ) → Reads (read_slice (length bs)) bs bs
unfolding read_slice
Reads-slice bs = record {
  run = λ o rest h.
      ground (arith, length-append bs rest, take-length-append bs rest, drop-length-append bs rest);
}

-- A writer took `out` to `out'`, and the reader returns `a` on what it appended.
abbrev pub Wrote {ℓ} : {A : Type ℓ} → List ℕ → List ℕ → Reader A → A → Type ℓ
Wrote out out' r a = (bs : List ℕ) × (out' ≡ out ++ bs) × Reads r bs a

pub Wrote-bind {ℓ κ} :
    {A : Type ℓ} {B : Type κ} {r : Reader A} (f : A → Reader B) (out : List ℕ) {mid out' : List ℕ}
    {a : A} {b : B}
    → Wrote out mid r a
    → Wrote mid out' (f a) b
    → Wrote out out' (r >>= f) b
Wrote-bind f out (bs, e, p) (cs, e', q) =
    (bs ++ cs, e' ∙ ap (λ t. t ++ cs) e ∙ append_assoc out bs cs, Reads-bind f p q)

pub Wrote-pure {ℓ} :
    {A : Type ℓ} {out out' : List ℕ} (a : A) → out ≡ out' → Wrote out out' (pure a) a
Wrote-pure {out} a e = ([], sym e ∙ sym (append-nil out), Reads-pure a)

-- A step that reads nothing.
pub lift-bind {ℓ κ} :
    {A : Type ℓ} {B : Type κ} {r : Result A} (f : A → Reader B) {a : A}
    → r ≡ ok a
    → (lift r >>= f) ≡ f a
lift-bind f {a} e = rw e

pub Wrote-lift {ℓ κ} :
    {A : Type ℓ} {B : Type κ} {r : Result A} (f : A → Reader B) (out : List ℕ) {out' : List ℕ}
    {a : A} {b : B}
    → r ≡ ok a
    → Wrote out out' (f a) b
    → Wrote out out' (lift r >>= f) b
Wrote-lift f out e (bs, eb, p) = (bs, eb, Reads-equal (lift-bind f e) p)

pub Wrote-done {ℓ} :
    {A : Type ℓ} {out out' : List ℕ} {a b : A} → a ≡ b → out ≡ out' → Wrote out out' (pure a) b
Wrote-done {out} {b} e eo =
    ([], sym eo ∙ sym (append-nil out), Reads-equal (ap pure e) (Reads-pure b))
