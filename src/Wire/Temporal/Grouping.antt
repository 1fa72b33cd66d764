-- ===== src/Wire/Temporal/Grouping.antt =====
-- The quanta and runs that `encode_csh2_temporal` of recording/wire.rs forms from a segment's samples.
use vim_config.Prelude.{
  ℕ, ◌-◌, ◌≤◌, ◌≡◌, refl, subst, ap, ◌∙◌, List, [], ◌∷◌, arith, none, All, ◌==◌, Bool-cases, inl,
  inr,
}
use vim_config.Outcome.{ok, invalid, ok_or, checked_sub, u64_max, ok-injective, >>=-eq-ok}
use vim_config.Cpu.Quantum.{temporal_storage_quantum}
use vim_config.Wire.Temporal.{Step, Run}
use vim_config.Wire.Temporal.Encode.{Sample, interval_duration, quanta, prepend, runs_of}
use vim_config.Wire.Temporal.RoundTrip.{Good, all_steps}

-- The intervals between samples, and the totals at their ends.
abbrev pub steps_between : ℕ → List Sample → List Step
steps_between time [] = []
steps_between time ((next_time, next_total) ∷ samples) =
    (next_time - time, next_total) ∷ steps_between next_time samples

prepend-Good :
    (cap quantum s duration total : ℕ) (runs : List Run)
    → s ≤ total
    → total ≤ u64_max
    → duration ≤ u64_max
    → temporal_storage_quantum (total - s) duration cap ≡ ok quantum
    → Good cap none total runs
    → Good cap none s (prepend quantum (duration, total) runs)
unfolding prepend
prepend-Good top quantum s duration total [] rises small short chosen good =
    (refl, (rises, small, short, chosen, tt), tt)
prepend-Good top quantum s duration total ((next, []) ∷ runs) rises small short chosen good =
    absurd good
prepend-Good top quantum s duration total ((next, step ∷ steps) ∷ runs) rises small short chosen
      (differs, chain, good) =
    elim (Bool-cases (quantum == next)) [
      | inl b ↦
          let same : quantum ≡ next = ground arith in
          let chosen' : temporal_storage_quantum (total - s) duration top ≡ ok next =
            chosen ∙ ap ok same in
          rw b (refl, (rises, small, short, chosen', chain), good)
      | inr b ↦ rw b (refl, (rises, small, short, chosen, tt), (b, chain, good))
    ]

all_steps-prepend :
    (quantum : ℕ) (step : Step) (runs : List Run)
    → all_steps (prepend quantum step runs) ≡ step ∷ all_steps runs
unfolding prepend
all_steps-prepend quantum step [] = refl
all_steps-prepend quantum step ((next, steps) ∷ runs) = elim (Bool-cases (quantum == next)) [
  | inl b ↦ rw b refl
  | inr b ↦ rw b refl
]

interval_duration_ok :
    (start end duration : ℕ)
    → interval_duration start end ≡ ok duration
    → (duration ≡ end - start) × (duration ≤ end)
unfolding interval_duration
interval_duration_ok start end duration e = ground arith

abbrev pub IsWord : Sample → Type 0
IsWord (time, total) = (time ≤ u64_max) × (total ≤ u64_max)

pub runs_of-Good :
    (cap time total : ℕ) (samples : List Sample) (steps : List (ℕ × Step))
    → All IsWord samples
    → quanta cap (time, total) samples ≡ ok steps
    → Good cap none total (runs_of steps) × (all_steps (runs_of steps) ≡ steps_between time samples)
unfolding quanta runs_of
runs_of-Good top time total [] steps words e =
    subst (λ s. Good top none total (runs_of s) × (all_steps (runs_of s) ≡ [])) (ok-injective e)
      (tt, refl)
runs_of-Good top time total ((next_time, next_total) ∷ samples) steps
      ((word_time, word_total), words) e =
    let (delta, e₁, r₁) = >>=-eq-ok (ok_or (checked_sub next_total total) invalid) _ e in
    let (duration, e₂, r₂) = >>=-eq-ok (interval_duration time next_time) _ r₁ in
    let (quantum, e₃, r₃) = >>=-eq-ok (temporal_storage_quantum delta duration top) _ r₂ in
    let (rest, e₄, r₄) = >>=-eq-ok (quanta top (next_time, next_total) samples) _ r₃ in
    let (lasts, short) = interval_duration_ok time next_time duration e₂ in
    let rises : total ≤ next_total = ground arith in
    let grows : delta ≡ next_total - total = ground arith in
    let (good, flat) = runs_of-Good top next_time next_total samples rest words e₄ in
    let chosen = subst (λ n. temporal_storage_quantum n duration top ≡ ok quantum) grows e₃ in
    subst
      (λ s.
        Good top none total (runs_of s)
        × (all_steps (runs_of s)
            ≡ (next_time - time, next_total) ∷ steps_between next_time samples))
      (ok-injective r₄)
      (
        prepend-Good top quantum total duration next_total (runs_of rest) rises word_total
            (omega arith) chosen good,
        all_steps-prepend quantum (duration, next_total) (runs_of rest)
            ∙ ap (λ d. (d, next_total) ∷ all_steps (runs_of rest)) lasts
            ∙ ap (λ tail. (next_time - time, next_total) ∷ tail) flat,
      )
