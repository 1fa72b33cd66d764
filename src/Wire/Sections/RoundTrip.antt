-- ===== src/Wire/Sections/RoundTrip.antt =====
-- `unpack_sections` and `unpack_v2_sections` return the sections that were packed.
use vim_config.Prelude.{
  ℕ, ◌^◌, ◌≤◌, ◌<◌, ◌≡◌, ◌∙◌, ap, sym, append-nil, List, [], ◌∷◌, length, Option, none, some, arith,
  length-append,
}
use vim_config.Outcome.{ok, ok-injective, >>=-eq-ok}
use vim_config.Wire.Put.{put_uvarint, max_block_bytes}
use vim_config.Wire.Cursor.{at, Reader, Wrote, Wrote-bind, Reads, Reads-slice, read_byte, ◌>>=◌}
use vim_config.Wire.Whole.{WroteAll, WroteAll-bind, WroteAll-at_end, after_magic-WroteAll, at_end}
use vim_config.Wire.Read.{read_uvarint, read_uvarint128, read_loop}
use vim_config.Wire.Varint.{put_bytes_ok}
use vim_config.Wire.Varint.RoundTrip.{read_uvarint-put_uvarint}
use vim_config.Wire.Sections.{
  put_section, put_sections, flatten_four, pack_sections, pack_sections_with_optional_fourth,
  read_section, read_fourth, unpack_sections, unpack_v2_sections,
}

-- `read_section` returns the section that the packing loop wrote.
read_section-put_section :
    (out section : List ℕ) {out' : List ℕ}
    → put_section out section ≡ ok out'
    → Wrote out out' read_section section × (length out' ≤ max_block_bytes)
unfolding put_section read_section
read_section-put_section out section e =
    let (mid, e₁, e₂) = >>=-eq-ok (put_uvarint out (length section)) _ e in
    let (appended, fits) = put_bytes_ok mid section e₂ in
    let short : length section < 2 ^ 64 =
      omega (arith, ap length appended, length-append mid section) in
    (
      Wrote-bind _ out (read_uvarint-put_uvarint out _ short e₁)
          (section, appended, Reads-slice section),
      fits,
    )

Reads-read_fourth :
    {bs section : List ℕ} → Reads read_section bs section → Reads read_fourth bs (some section)
unfolding read_fourth
Reads-read_fourth {bs = []} {section} p = absurd (
    unfold read_section read_uvarint read_uvarint128 read_loop read_byte in
    cc (p.run 0 [] (omega arith)))
Reads-read_fourth {bs = b ∷ bs} p = record { run = λ o rest fits. rw (p.run o rest fits) }

-- What is left to read behind the three sections, with and without the fourth.
abbrev Sections : Type 0
Sections = List ℕ × List ℕ × List ℕ × Option (List ℕ)

abbrev rest_of : (header cpu metadata : List ℕ) → Reader Sections
rest_of header cpu metadata = read_fourth >>= λ memory. at_end (header, cpu, metadata, memory)

no_fourth :
    (header cpu metadata out : List ℕ)
    → WroteAll out out (rest_of header cpu metadata) (header, cpu, metadata, none)
unfolding read_fourth at_end
no_fourth header cpu metadata out = (
  [],
  sym (append-nil out),
  record { run = λ o fits. ap (λ n. ok ((header, cpu, metadata, none), at n [])) (omega arith) },
)

-- The three sections that every block has, and what is read behind them.
three_sections {ℓ} :
    {A : Type ℓ} (f : List ℕ → List ℕ → List ℕ → Reader A) (magic header cpu metadata : List ℕ)
    (more : List (List ℕ)) {out : List ℕ} {a : A}
    → put_sections magic (header ∷ cpu ∷ metadata ∷ more) ≡ ok out
    → (mid : List ℕ) × (length mid ≤ max_block_bytes)
      × (put_sections mid more ≡ ok out)
      × (WroteAll mid out (f header cpu metadata) a
          → WroteAll magic out
              (read_section >>= λ x. read_section >>= λ y. read_section >>= λ z. f x y z)
              a)
unfolding put_sections
three_sections f magic header cpu metadata more e =
    let (m₁, e₁, r₁) = >>=-eq-ok (put_section magic header) _ e in
    let (m₂, e₂, r₂) = >>=-eq-ok (put_section m₁ cpu) _ r₁ in
    let (m₃, e₃, r₃) = >>=-eq-ok (put_section m₂ metadata) _ r₂ in
    let (w₁, _) = read_section-put_section magic header e₁ in
    let (w₂, _) = read_section-put_section m₁ cpu e₂ in
    let (w₃, fits) = read_section-put_section m₂ metadata e₃ in
    let join = λ (w : WroteAll m₃ _ (f header cpu metadata) _).
      WroteAll-bind _ magic w₁ (WroteAll-bind _ m₁ w₂ (WroteAll-bind _ m₂ w₃ w)) in
    (m₃, fits, r₃, join)

module _ (magic : List ℕ) {out : List ℕ} (four : length magic ≡ 4) where
  -- Behind a magic of four bytes, sections that were packed are read back as they were, the fourth too
  -- if it is there, and as missing if it is not.
  pub unpack_v2_sections-pack :
      (header cpu metadata : List ℕ) (fourth : Option (List ℕ))
      → pack_sections_with_optional_fourth magic header cpu metadata fourth ≡ ok out
      → unpack_v2_sections out ≡ ok (header, cpu, metadata, fourth)
  unfolding pack_sections_with_optional_fourth unpack_v2_sections put_sections flatten_four
  unpack_v2_sections-pack header cpu metadata none e =
      let (mid, fits, r, join) = three_sections rest_of magic header cpu metadata [] e in
      let same : mid ≡ out = ok-injective r in
      after_magic-WroteAll _ magic four (omega (arith, ap length same))
        (join (rw same (no_fourth header cpu metadata out)))
  unpack_v2_sections-pack header cpu metadata (some fourth) e =
      let (mid, _, r, join) = three_sections rest_of magic header cpu metadata (fourth ∷ []) e in
      let (out', e', r') = >>=-eq-ok (put_section mid fourth) _ r in
      let ((bs, eb, w), fits) = read_section-put_section mid fourth e' in
      let same : out' ≡ out = ok-injective r' in
      after_magic-WroteAll _ magic four (omega (arith, ap length same)) (
        join (WroteAll-bind _ mid (bs, sym same ∙ eb, Reads-read_fourth w) (WroteAll-at_end out _)))

  -- Behind a magic of four bytes, three sections that were packed are read back as they were.
  pub unpack_sections-pack_sections :
      (header cpu metadata : List ℕ)
      → pack_sections magic header cpu metadata ≡ ok out
      → unpack_sections out ≡ ok (header, cpu, metadata)
  unfolding pack_sections unpack_sections put_sections flatten_four
  unpack_sections-pack_sections header cpu metadata e =
      let (mid, fits, r, join) =
        three_sections (λ x y z. at_end (x, y, z)) magic header cpu metadata [] e in
      let same : mid ≡ out = ok-injective r in
      after_magic-WroteAll _ magic four (omega (arith, ap length same))
        (join (rw same (WroteAll-at_end out (header, cpu, metadata))))
