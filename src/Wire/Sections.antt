-- ===== src/Wire/Sections.antt =====
-- The sections of a block in recording/wire.rs: after a magic of four bytes each section is its
-- length and its bytes. The last of four is optional.
pub mod RoundTrip
use vim_config.Prelude.{ℕ, ◌+◌, List, [], ◌∷◌, length, Option, none, some, drop}
use vim_config.Outcome
use vim_config.Outcome.{Error, trailing, Result, ok, err}
use vim_config.Wire.Put.{put_bytes, put_uvarint}
use vim_config.Wire.Cursor.{Cursor, at, Reader, pure, lift, ◌>>=◌, read_slice}
use vim_config.Wire.Whole.{at_end, after_magic}
use vim_config.Wire.Read.{read_uvarint}

-- The body of the loop, and the loop.
unfoldable pub put_section : List ℕ → List ℕ → Result (List ℕ)
put_section out section =
    Outcome.◌>>=◌ (put_uvarint out (length section)) λ out'. put_bytes out' section

unfoldable pub put_sections : List ℕ → List (List ℕ) → Result (List ℕ)
unfolding put_section
put_sections out [] = ok out
put_sections out (section ∷ rest) =
    Outcome.◌>>=◌ (put_section out section) λ out'. put_sections out' rest

-- `[Some(header), Some(cpu), Some(metadata), fourth].into_iter().flatten()`
unfoldable pub flatten_four : (header cpu metadata : List ℕ) → Option (List ℕ) → List (List ℕ)
flatten_four header cpu metadata none = header ∷ cpu ∷ metadata ∷ []
flatten_four header cpu metadata (some fourth) = header ∷ cpu ∷ metadata ∷ fourth ∷ []

unfoldable pub pack_sections_with_optional_fourth :
    (magic header cpu metadata : List ℕ) → Option (List ℕ) → Result (List ℕ)
pack_sections_with_optional_fourth magic header cpu metadata fourth =
    put_sections magic (flatten_four header cpu metadata fourth)

unfoldable pub pack_sections : (magic header cpu metadata : List ℕ) → Result (List ℕ)
unfolding pack_sections_with_optional_fourth
pack_sections magic header cpu metadata =
    pack_sections_with_optional_fourth magic header cpu metadata none

unfoldable pub read_section : Reader (List ℕ)
read_section = do size ← read_uvarint; read_slice size

-- The fourth section is there if `offset < bytes.len()`.
unfoldable pub read_fourth : Reader (Option (List ℕ))
unfolding read_section
read_fourth c = elim c.rest [
  | [] ↦ ok (none, c)
  | b ∷ bs ↦ (read_section >>= λ section. pure (some section)) c
]

-- Both begin with `let mut offset = 4`.
unfoldable pub unpack_sections : List ℕ → Result (List ℕ × List ℕ × List ℕ)
unpack_sections = after_magic (do
  header ← read_section
  cpu ← read_section
  metadata ← read_section
  at_end (header, cpu, metadata))

unfoldable pub unpack_v2_sections : List ℕ → Result (List ℕ × List ℕ × List ℕ × Option (List ℕ))
unpack_v2_sections = after_magic (do
  header ← read_section
  cpu ← read_section
  metadata ← read_section
  memory ← read_fourth
  at_end (header, cpu, metadata, memory))
