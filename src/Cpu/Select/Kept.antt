-- ===== src/Cpu/Select/Kept.antt =====
-- Which samples `select_temporal_points` of recording/wire.rs keeps.
use vim_config.Prelude.{ℕ, ◌≡◌, refl, sym, ap, subst, ◌∙◌, List, [], ◌∷◌, Option, none, some}
use vim_config.Outcome.{ok, ok-injective, >>=-eq-ok}
use vim_config.Model.{Profile}
use vim_config.Cpu.Select.{TemporalSample, select_loop, onto, from_first, select_temporal_points}
use vim_config.Cpu.Select.Picks.{Picks, bottom, pick, pass, Newest, select_loop-Picks}

-- The first list has some of the second's samples, in the same order.
pub data Kept : List TemporalSample → List TemporalSample → Type 0 where
  nothing : Kept [] []
  keep : (x : TemporalSample) {xs ys : List TemporalSample} → Kept xs ys → Kept (x ∷ xs) (x ∷ ys)
  skip : (y : TemporalSample) {xs ys : List TemporalSample} → Kept xs ys → Kept xs (y ∷ ys)

onto_one : (a : TemporalSample) (rest : List TemporalSample) → onto (a ∷ []) rest ≡ a ∷ rest
unfolding onto
onto_one a rest = refl

Kept-onto :
    {picked seen out rest : List TemporalSample}
    → Picks picked seen
    → Kept out rest
    → (first : TemporalSample) × (xs ys : List TemporalSample) × (onto picked out ≡ first ∷ xs)
      × (onto seen rest ≡ first ∷ ys)
      × Kept xs ys
unfolding onto
Kept-onto {out} {rest} (bottom x) k = (x, out, rest, refl, refl, k)
Kept-onto (pick x p) k = Kept-onto p (keep x k)
Kept-onto (pass y p) k = Kept-onto p (skip y k)

-- The row of the last sample of a list.
unfoldable pub last_row : List TemporalSample → Option ℕ
last_row [] = none
last_row (x ∷ []) = some x.row_index
last_row (x ∷ y ∷ rest) = last_row (y ∷ rest)

last_row-onto :
    (xs : List TemporalSample) (y : TemporalSample) (ys : List TemporalSample)
    → last_row (onto xs (y ∷ ys)) ≡ last_row (y ∷ ys)
unfolding last_row onto
last_row-onto [] y ys = refl
last_row-onto (x ∷ xs) y ys = last_row-onto xs x (y ∷ ys)

last_row-Newest :
    (xs : List TemporalSample) (row : ℕ) → Newest xs row → last_row (onto xs []) ≡ some row
unfolding last_row onto
last_row-Newest [] row h = absurd h
last_row-Newest (x ∷ xs) row h = last_row-onto xs x [] ∙ ap some h

abbrev pub first_of : List TemporalSample → Option TemporalSample
first_of [] = none
first_of (x ∷ rest) = some x

Kept-all : (samples : List TemporalSample) → Kept samples samples
Kept-all [] = nothing
Kept-all (x ∷ rest) = keep x (Kept-all rest)

picked :
    (selected : List TemporalSample) (last : TemporalSample) (others samples : List TemporalSample)
    → Picks selected (last ∷ others)
    → Newest selected last.row_index
    → onto (last ∷ others) [] ≡ samples
    → Kept (onto selected []) samples
      × (first_of (onto selected []) ≡ first_of samples)
      × (last_row (onto selected []) ≡ last_row samples)
unfolding onto
picked selected last others samples p n whole =
    let (first, xs, ys, eo, es, k) = Kept-onto p nothing in
    let kept : Kept (onto selected []) (onto (last ∷ others) []) = rw (eo, es) (keep first k) in
    let firsts : first_of (onto selected []) ≡ first_of (onto (last ∷ others) []) =
      rw (eo, es) refl in
    let lasts : last_row (onto selected []) ≡ last_row (onto (last ∷ others) []) =
      last_row-Newest selected last.row_index n
      ∙ sym (last_row-Newest (last ∷ others) last.row_index refl) in
    (
      subst (λ l. Kept (onto selected []) l) whole kept,
      firsts ∙ ap first_of whole,
      lasts ∙ ap last_row whole,
    )

-- If a selection succeeds, the checkpoints are some of the samples in their order, the first of them is
-- the first sample, and the last of them is of the last sample's row.
pub select_temporal_points-Kept :
    (cap qbusy : ℕ) (profile : Profile) (samples : List TemporalSample) {out : List TemporalSample}
    → select_temporal_points cap qbusy profile samples ≡ ok out
    → Kept out samples × (first_of out ≡ first_of samples) × (last_row out ≡ last_row samples)
unfolding select_temporal_points
select_temporal_points-Kept top qbusy profile [] e = rw (← ok-injective e) (nothing, refl, refl)
select_temporal_points-Kept top qbusy profile (a ∷ []) e =
    rw (← ok-injective e) (Kept-all (a ∷ []), refl, refl)
select_temporal_points-Kept top qbusy profile (a ∷ b ∷ []) e =
    rw (← ok-injective e) (Kept-all (a ∷ b ∷ []), refl, refl)
select_temporal_points-Kept top qbusy profile (a ∷ b ∷ c ∷ samples) {out} e =
    let (selected, e₁, e₂) =
      >>=-eq-ok (select_loop top qbusy profile 1 a (b ∷ c ∷ samples) (from_first a)) _ e in
    let (last, others, whole, p, n) =
      select_loop-Picks top qbusy profile 1 a (b ∷ c ∷ samples) [] (from_first a) (bottom a) e₁ in
    let same : onto selected [] ≡ out = ok-injective e₂ in
    subst
      (λ o.
        Kept o (a ∷ b ∷ c ∷ samples)
        × (first_of o ≡ first_of (a ∷ b ∷ c ∷ samples))
        × (last_row o ≡ last_row (a ∷ b ∷ c ∷ samples)))
      same
      (picked selected last others (a ∷ b ∷ c ∷ samples) p n (whole ∙ onto_one a (b ∷ c ∷ samples)))
