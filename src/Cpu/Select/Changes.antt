-- ===== src/Cpu/Select/Changes.antt =====
-- `select_temporal_points` of recording/wire.rs keeps the samples at which a process changes its name or
-- its parent.
use vim_config.Prelude.{
  ℕ, ◌+◌, ◌≡◌, ◌≢◌, ◌⊎◌, inl, inr, refl, subst, Bool, true, ◌&&◌, ◌||◌, List, [], ◌∷◌, arith, ltb,
  leb, ◌==◌, min, Bool-cases,
}
use vim_config.Outcome.{ok, invalid, ok_or, checked_sub, ok-injective, >>=-eq-ok}
use vim_config.Model.{Profile}
use vim_config.Cpu.Quantum.{temporal_quantum, temporal_target}
use vim_config.Cpu.Select.{
  TemporalSample, Selection, push, positive_gap, shorten, same_name, metadata_change, keep_due,
  settle, select_step, select_loop, onto, from_first, select_temporal_points,
}

-- Some sample of the list is of this row.
abbrev pub HasRow : ℕ → List TemporalSample → Type 0
HasRow row [] = ⊥
HasRow row (x ∷ xs) = (x.row_index ≡ row) ⊎ HasRow row xs

push-HasRow :
    (row : ℕ) (sample : TemporalSample) (xs : List TemporalSample)
    → HasRow row xs
    → HasRow row (push sample xs)
unfolding push
push-HasRow row sample [] h = absurd h
push-HasRow row sample (x ∷ xs) h = elim (Bool-cases (x.row_index == sample.row_index)) [
  | inl b ↦ rw b h
  | inr b ↦ rw b (inr h)
]

push-row :
    (sample : TemporalSample) (xs : List TemporalSample) → HasRow sample.row_index (push sample xs)
unfolding push
push-row sample [] = inl refl
push-row sample (x ∷ xs) = elim (Bool-cases (x.row_index == sample.row_index)) [
  | inl b ↦ let same : x.row_index ≡ sample.row_index = ground arith in rw b (inl same)
  | inr b ↦ rw b (inl refl)
]

shorten-HasRow :
    (row index desired elapsed : ℕ) (previous : TemporalSample) (s : Selection)
    → HasRow row s.selected
    → HasRow row ((shorten index desired elapsed previous s).selected)
unfolding shorten
shorten-HasRow row index desired elapsed previous s h =
    elim (Bool-cases
      (ltb desired s.pending_ns && (ltb (s.anchor + 1) index && ltb desired elapsed))) [
        | inl b ↦ rw b (push-HasRow row previous s.selected h)
        | inr b ↦ rw b h
      ]

keep_due-HasRow :
    (row index since : ℕ) (changed : Bool) (current : TemporalSample) (s : Selection)
    → HasRow row s.selected
    → HasRow row ((keep_due index since changed current s).selected)
unfolding keep_due
keep_due-HasRow row index since changed current s h =
    elim (Bool-cases (leb s.pending_ns since || changed)) [
      | inl b ↦ rw b (push-HasRow row current s.selected h)
      | inr b ↦ rw b h
    ]

keep_due-changed :
    (index since : ℕ) (changed : Bool) (current : TemporalSample) (s : Selection)
    → changed ≡ true
    → HasRow current.row_index ((keep_due index since changed current s).selected)
unfolding keep_due
keep_due-changed index since changed current s h =
    let due : (leb s.pending_ns since || changed) ≡ true = ground arith in
    rw due (push-row current s.selected)

-- A step keeps the rows there are, and the current one if its metadata changed.
Steps : (previous current : TemporalSample) → (s s' : Selection) → Type 0
Steps previous current s s' =
    ((row : ℕ) → HasRow row s.selected → HasRow row s'.selected)
    × (metadata_change previous current ≡ true → HasRow current.row_index s'.selected)

settle-Steps :
    (index desired : ℕ) (previous current : TemporalSample) (s : Selection) {s' : Selection}
    → settle index desired previous current s ≡ ok s'
    → Steps previous current s s'
unfolding settle Steps
settle-Steps index desired previous current s {s'} e =
    let (since, e₁, e₂) = >>=-eq-ok (ok_or (checked_sub current.time s.anchor_time) invalid) _ e in
    let cut : Selection = record s { pending_ns = min s.pending_ns desired } in
    let changed = metadata_change previous current in
    let same : keep_due index since changed current cut ≡ s' = ok-injective e₂ in
    (
      (λ row h.
          subst (λ t. HasRow row (Selection.selected t)) same
            (keep_due-HasRow row index since changed current cut h)),
      (λ c.
          subst (λ t. HasRow current.row_index (Selection.selected t)) same
            (keep_due-changed index since changed current cut c)),
    )

module _ (cap qbusy : ℕ) (profile : Profile) where
  select_step-Steps :
      (index : ℕ) (previous current : TemporalSample) (s : Selection) {s' : Selection}
      → select_step cap qbusy profile index previous current s ≡ ok s'
      → Steps previous current s s'
  unfolding select_step Steps
  select_step-Steps index previous current s {s'} e =
      let (gap, e₁, r₁) = >>=-eq-ok (positive_gap previous.time current.time) _ e in
      let (delta, e₂, r₂) =
        >>=-eq-ok (ok_or (checked_sub current.total previous.total) invalid) _ r₁ in
      let (q, e₃, r₃) = >>=-eq-ok (temporal_quantum delta gap cap) _ r₂ in
      let (desired, e₄, r₄) = >>=-eq-ok (temporal_target q qbusy profile) _ r₃ in
      let (elapsed, e₅, r₅) = >>=-eq-ok (positive_gap s.anchor_time current.time) _ r₄ in
      let (keeps, changes) =
        settle-Steps index desired previous current (shorten index desired elapsed previous s) r₅ in
      ((λ row h. keeps row (shorten-HasRow row index desired elapsed previous s h)), changes)

same_name_eq : (a b : List ℕ) → same_name a b ≡ true → a ≡ b
unfolding same_name
same_name_eq [] [] h = refl
same_name_eq [] (y ∷ b) h = cc
same_name_eq (x ∷ a) [] h = cc
same_name_eq (x ∷ a) (y ∷ b) h = ground (arith, same_name_eq a b)

-- A sample of another name, or of another parent, than the one before it.
abbrev pub Changed : (previous current : TemporalSample) → Type 0
Changed previous current = (current.name ≢ previous.name) ⊎ (current.ppid ≢ previous.ppid)

Changed-metadata_change :
    (previous current : TemporalSample)
    → Changed previous current
    → metadata_change previous current ≡ true
unfolding metadata_change
Changed-metadata_change previous current (inl name) =
    elim (Bool-cases (same_name current.name previous.name)) [
      | inl same ↦ absurd (name (same_name_eq current.name previous.name same))
      | inr other ↦ rw other refl
    ]
Changed-metadata_change previous current (inr parent) = ground arith

-- Every sample whose name or parent differs from that of the one before it has its row in the list.
abbrev pub ChangesIn : List TemporalSample → TemporalSample → List TemporalSample → Type 0
ChangesIn out previous [] = Unit {0}
ChangesIn out previous (current ∷ samples) =
    (Changed previous current → HasRow current.row_index out) × ChangesIn out current samples

HasRow-onto :
    (row : ℕ) (xs ys : List TemporalSample)
    → HasRow row xs ⊎ HasRow row ys
    → HasRow row (onto xs ys)
unfolding onto
HasRow-onto row [] ys (inl h) = absurd h
HasRow-onto row [] ys (inr h) = h
HasRow-onto row (x ∷ xs) ys (inl (inl h)) = HasRow-onto row xs (x ∷ ys) (inr (inl h))
HasRow-onto row (x ∷ xs) ys (inl (inr h)) = HasRow-onto row xs (x ∷ ys) (inl h)
HasRow-onto row (x ∷ xs) ys (inr h) = HasRow-onto row xs (x ∷ ys) (inr (inr h))

module _ (cap qbusy : ℕ) (profile : Profile) where
  select_loop-ChangesIn :
      (index : ℕ) (previous : TemporalSample) (samples : List TemporalSample) (s : Selection)
      {out : List TemporalSample}
      → select_loop cap qbusy profile index previous samples s ≡ ok out
      → ((row : ℕ) → HasRow row s.selected → HasRow row out) × ChangesIn out previous samples
  unfolding select_loop Steps
  select_loop-ChangesIn index previous [] s e =
      let same = ok-injective e in
      ((λ row h. subst (λ o. HasRow row o) same (push-HasRow row previous s.selected h)), tt)
  select_loop-ChangesIn index previous (current ∷ samples) s e =
      let (s', e₁, e₂) = >>=-eq-ok (select_step cap qbusy profile index previous current s) _ e in
      let (keeps, changes) = select_step-Steps cap qbusy profile index previous current s e₁ in
      let (later, rest) = select_loop-ChangesIn (index + 1) current samples s' e₂ in
      (
        (λ row h. later row (keeps row h)),
        (
          (λ c. later current.row_index (changes (Changed-metadata_change previous current c))),
          rest,
        ),
      )

ChangesIn-onto :
    (xs : List TemporalSample) (a : TemporalSample) (samples : List TemporalSample)
    → ChangesIn xs a samples
    → ChangesIn (onto xs []) a samples
ChangesIn-onto xs a [] h = tt
ChangesIn-onto xs a (b ∷ samples) (h, rest) =
    ((λ c. HasRow-onto b.row_index xs [] (inl (h c))), ChangesIn-onto xs b samples rest)

-- If a selection succeeds, every sample whose name or parent differs from that of the sample before it
-- has a checkpoint of its row.
pub select_temporal_points-ChangesIn :
    (cap qbusy : ℕ) (profile : Profile) (a : TemporalSample) (samples : List TemporalSample)
    {out : List TemporalSample}
    → select_temporal_points cap qbusy profile (a ∷ samples) ≡ ok out
    → ChangesIn out a samples
unfolding select_temporal_points
select_temporal_points-ChangesIn top qbusy profile a [] e = tt
select_temporal_points-ChangesIn top qbusy profile a (b ∷ []) e =
    rw (← ok-injective e) ((λ c. inr (inl refl)), tt)
select_temporal_points-ChangesIn top qbusy profile a (b ∷ c ∷ samples) {out} e =
    let (selected, e₁, e₂) =
      >>=-eq-ok (select_loop top qbusy profile 1 a (b ∷ c ∷ samples) (from_first a)) _ e in
    let (_, changes) =
      select_loop-ChangesIn top qbusy profile 1 a (b ∷ c ∷ samples) (from_first a) e₁ in
    let same : onto selected [] ≡ out = ok-injective e₂ in
    subst (λ o. ChangesIn o a (b ∷ c ∷ samples)) same
      (ChangesIn-onto selected a (b ∷ c ∷ samples) changes)
