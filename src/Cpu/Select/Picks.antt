-- ===== src/Cpu/Select/Picks.antt =====
-- The loop of `select_temporal_points` of recording/wire.rs: what it has picked of what it has seen, both
-- with the latest first.
use vim_config.Prelude.{
  ℕ, ◌+◌, ◌≡◌, refl, subst, Bool, true, List, [], ◌∷◌, arith, ltb, ◌==◌, ◌&&◌, ◌||◌, Bool-cases,
  inl, inr, leb, min,
}
use vim_config.Outcome.{ok, invalid, ok_or, checked_sub, ok-injective, >>=-eq-ok}
use vim_config.Model.{Profile}
use vim_config.Cpu.Quantum.{temporal_quantum, temporal_target}
use vim_config.Cpu.Select.{
  TemporalSample, Selection, push, positive_gap, shorten, metadata_change, keep_due, settle,
  select_step, select_loop, onto,
}

-- The first list has some of the second's samples, in the same order, and the one at the bottom.
pub data Picks : List TemporalSample → List TemporalSample → Type 0 where
  bottom : (x : TemporalSample) → Picks (x ∷ []) (x ∷ [])
  pick : (x : TemporalSample) {xs ys : List TemporalSample} → Picks xs ys → Picks (x ∷ xs) (x ∷ ys)
  pass : (y : TemporalSample) {xs ys : List TemporalSample} → Picks xs ys → Picks xs (y ∷ ys)

row_same : (sample : TemporalSample) → (sample.row_index == sample.row_index) ≡ true
row_same sample = ground arith

-- The latest of the selected samples is of this row.
abbrev pub Newest : List TemporalSample → ℕ → Type 0
Newest [] row = ⊥
Newest (x ∷ xs) row = x.row_index ≡ row

push-new :
    (sample : TemporalSample) (selected : List TemporalSample) {seen : List TemporalSample}
    → Picks selected seen
    → Picks (push sample selected) (sample ∷ seen)
unfolding push
push-new sample [] p = pick sample p
push-new sample (last ∷ rest) p = elim (Bool-cases (last.row_index == sample.row_index)) [
  | inl b ↦ rw b (pass sample p)
  | inr b ↦ rw b (pick sample p)
]

-- To keep the newest sample again changes nothing.
push-Picks :
    (sample : TemporalSample) {selected seen : List TemporalSample}
    → Picks selected (sample ∷ seen)
    → Picks (push sample selected) (sample ∷ seen)
unfolding push
push-Picks sample (bottom x) = rw (row_same sample) (bottom sample)
push-Picks sample (pick x p) = rw (row_same sample) (pick sample p)
push-Picks sample {selected} (pass y p) = push-new sample selected p

-- So the newest sample can come back from the rows.
push-Newest :
    (sample : TemporalSample) (selected : List TemporalSample)
    → Newest (push sample selected) sample.row_index
unfolding push
push-Newest sample [] = refl
push-Newest sample (last ∷ rest) = elim (Bool-cases (last.row_index == sample.row_index)) [
  | inl b ↦ let same : last.row_index ≡ sample.row_index = ground arith in rw b same
  | inr b ↦ rw b refl
]

shorten-Picks :
    (index desired elapsed : ℕ) (previous : TemporalSample) {seen : List TemporalSample}
    (s : Selection)
    → Picks s.selected (previous ∷ seen)
    → Picks ((shorten index desired elapsed previous s).selected) (previous ∷ seen)
unfolding shorten
shorten-Picks index desired elapsed previous s p =
    elim (Bool-cases
      (ltb desired s.pending_ns && (ltb (s.anchor + 1) index && ltb desired elapsed))) [
        | inl b ↦ rw b (push-Picks previous p)
        | inr b ↦ rw b p
      ]

keep_due-Picks :
    (index since : ℕ) (changed : Bool) (current : TemporalSample) {seen : List TemporalSample}
    (s : Selection)
    → Picks s.selected seen
    → Picks ((keep_due index since changed current s).selected) (current ∷ seen)
unfolding keep_due
keep_due-Picks index since changed current s p =
    elim (Bool-cases (leb s.pending_ns since || changed)) [
      | inl b ↦ rw b (push-new current s.selected p)
      | inr b ↦ rw b (pass current p)
    ]

settle-Picks :
    (index desired : ℕ) (previous current : TemporalSample) {seen : List TemporalSample}
    (s : Selection) {s' : Selection}
    → Picks s.selected seen
    → settle index desired previous current s ≡ ok s'
    → Picks s'.selected (current ∷ seen)
unfolding settle
settle-Picks index desired previous current {seen} s {s'} p e =
    let (since, e₁, e₂) = >>=-eq-ok (ok_or (checked_sub current.time s.anchor_time) invalid) _ e in
    let cut : Selection = record s { pending_ns = min s.pending_ns desired } in
    let same : keep_due index since (metadata_change previous current) current cut ≡ s' =
      ok-injective e₂ in
    subst (λ t. Picks (Selection.selected t) (current ∷ seen)) same
      (keep_due-Picks index since (metadata_change previous current) current cut p)

module _ (cap qbusy : ℕ) (profile : Profile) where
  select_step-Picks :
      (index : ℕ) (previous current : TemporalSample) {seen : List TemporalSample} (s : Selection)
      {s' : Selection}
      → Picks s.selected (previous ∷ seen)
      → select_step cap qbusy profile index previous current s ≡ ok s'
      → Picks s'.selected (current ∷ previous ∷ seen)
  unfolding select_step
  select_step-Picks index previous current {seen} s {s'} p e =
      let (gap, e₁, r₁) = >>=-eq-ok (positive_gap previous.time current.time) _ e in
      let (delta, e₂, r₂) =
        >>=-eq-ok (ok_or (checked_sub current.total previous.total) invalid) _ r₁ in
      let (q, e₃, r₃) = >>=-eq-ok (temporal_quantum delta gap cap) _ r₂ in
      let (desired, e₄, r₄) = >>=-eq-ok (temporal_target q qbusy profile) _ r₃ in
      let (elapsed, e₅, r₅) = >>=-eq-ok (positive_gap s.anchor_time current.time) _ r₄ in
      settle-Picks index desired previous current (shorten index desired elapsed previous s)
        (shorten-Picks index desired elapsed previous s p) r₅

  pub select_loop-Picks :
      (index : ℕ) (previous : TemporalSample) (samples seen : List TemporalSample) (s : Selection)
      {out : List TemporalSample}
      → Picks s.selected (previous ∷ seen)
      → select_loop cap qbusy profile index previous samples s ≡ ok out
      → (last : TemporalSample) × (others : List TemporalSample) × (onto (last ∷ others) []
          ≡ onto (previous ∷ seen) samples)
        × Picks out (last ∷ others)
        × Newest out last.row_index
  unfolding select_loop onto
  select_loop-Picks index previous [] seen s p e =
      let same = ok-injective e in
      (
        previous,
        seen,
        refl,
        subst (λ o. Picks o (previous ∷ seen)) same (push-Picks previous p),
        subst (λ o. Newest o previous.row_index) same (push-Newest previous s.selected),
      )
  select_loop-Picks index previous (current ∷ samples) seen s p e =
      let (s', e₁, e₂) = >>=-eq-ok (select_step cap qbusy profile index previous current s) _ e in
      select_loop-Picks (index + 1) current samples (previous ∷ seen) s'
        (select_step-Picks index previous current s p e₁) e₂
