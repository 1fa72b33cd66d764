-- ===== src/Wire/Memory/Size.antt =====
-- The PMM1 section that `encode_pmm1` returns is within the limit of a block.
use vim_config.Prelude.{ℕ, ◌≤◌, ◌≡◌, ap, subst, false, List, [], ◌∷◌, length, none, arith, ltb}
use vim_config.Outcome.{exceeds_limit, ok, ok-injective, >>=-eq-ok, refuse, refuse_ok}
use vim_config.Model.{Process, MemoryColumn, MemoryEncoding}
use vim_config.Wire.Put.{max_block_bytes, check_wire_size, put_uvarint}
use vim_config.Wire.Memory.{Previous}
use vim_config.Wire.Memory.Encode.{
  absent_from, put_absent, put_row, put_values, put_rows, put_columns,
}

-- The size of a section is checked behind every row.
put_row-le :
    (memory : MemoryEncoding) (column : MemoryColumn) (previous : Previous) (ps : List Process)
    (out out' : List ℕ) (after : Previous)
    → put_row memory column previous ps out ≡ ok (after, out')
    → length out' ≤ max_block_bytes
unfolding put_row check_wire_size
put_row-le memory column previous ps out out' after e =
    let (out₁, e₁, r₁) = >>=-eq-ok (put_uvarint out (length (absent_from column 0 ps))) _ e in
    let (out₂, e₂, r₂) = >>=-eq-ok (put_absent none (absent_from column 0 ps) out₁) _ r₁ in
    let ((after', out₃), e₃, r₃) = >>=-eq-ok (put_values memory column previous ps out₂) _ r₂ in
    let (_, e₄, r₄) = >>=-eq-ok (refuse (ltb max_block_bytes (length out₃)) exceeds_limit) _ r₃ in
    let end : Path (Previous × List ℕ) (after', out₃) (after, out') = ok-injective r₄ in
    let small : ltb max_block_bytes (length out₃) ≡ false = refuse_ok _ _ e₄ in
    let fits : length out₃ ≤ max_block_bytes = ground arith in
    subst (λ (t : Previous × List ℕ). length t.1 ≤ max_block_bytes) end fits

put_rows-le :
    (memory : MemoryEncoding) (column : MemoryColumn) (previous : Previous)
    (rows : List (List Process)) (out out' : List ℕ)
    → length out ≤ max_block_bytes
    → put_rows memory column previous rows out ≡ ok out'
    → length out' ≤ max_block_bytes
unfolding put_rows
put_rows-le memory column previous [] out out' h e = omega (arith, ap length (ok-injective e))
put_rows-le memory column previous (row ∷ rows) out out' h e =
    let ((previous₁, out₁), e₁, e₂) = >>=-eq-ok (put_row memory column previous row out) _ e in
    put_rows-le memory column previous₁ rows out₁ out'
      (put_row-le memory column previous row out out₁ previous₁ e₁) e₂

pub put_columns-le :
    (memory : MemoryEncoding) (columns : List MemoryColumn) (rows : List (List Process))
    (out out' : List ℕ)
    → length out ≤ max_block_bytes
    → put_columns memory columns rows out ≡ ok out'
    → length out' ≤ max_block_bytes
unfolding put_columns
put_columns-le memory [] rows out out' h e = omega (arith, ap length (ok-injective e))
put_columns-le memory (column ∷ columns) rows out out' h e =
    let (out₁, e₁, e₂) = >>=-eq-ok (put_rows memory column [] rows out) _ e in
    put_columns-le memory columns rows out₁ out' (put_rows-le memory column [] rows out out₁ h e₁)
      e₂
