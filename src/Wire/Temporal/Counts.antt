-- ===== src/Wire/Temporal/Counts.antt =====
-- The count of runs in a track of recording/wire.rs, which a decoder checks against the intervals and
-- against the bytes that are left.
use vim_config.Prelude.{
  ℕ, zero, suc, ◌+◌, ◌*◌, ◌/◌, ◌≤◌, ◌≡◌, refl, ap, false, List, [], ◌∷◌, ◌++◌, length,
  length-append, arith, Option, some,
}
use vim_config.Outcome.{ok, invalid, ok_or, checked_sub, refuse, >>=-eq-ok}
use vim_config.Wire.Cursor.{Reader, lift, ◌>>=◌, ◌>>◌, Reads}
use vim_config.Wire.Put.{put_uvarint}
use vim_config.Wire.Varint.{Encodes, last, more, put_uvarint_ok}
use vim_config.Wire.Temporal.{Step, Run}
use vim_config.Wire.Temporal.Encode.{put_run_values, put_run, put_runs}
use vim_config.Wire.Temporal.Decode.{bytes_left, bad_run_count}
use vim_config.Wire.Temporal.Floors.{end_of}
use vim_config.Wire.Temporal.RoundTrip.{Good, all_steps}

code_length : {v : ℕ} {bs : List ℕ} → Encodes v bs → 1 ≤ length bs
code_length (last v p) = omega arith
code_length (more v p e) = omega arith

put_uvarint_grows :
    (out : List ℕ) (v : ℕ) {out' : List ℕ}
    → put_uvarint out v ≡ ok out'
    → length out + 1 ≤ length out'
put_uvarint_grows out v e =
    let ((bs, split, code), _) = put_uvarint_ok out v e in
    omega (arith, ap length split, length-append out bs, code_length code)

put_run_values_grows :
    (anchor quantum : ℕ) (step : Step) (steps : List Step) (out : List ℕ) {end : ℕ} {out' : List ℕ}
    → put_run_values anchor quantum step steps out ≡ ok (end, out')
    → length out ≤ length out'
unfolding put_run_values
put_run_values_grows anchor quantum (duration, total) [] out {out'} e =
    let (difference, e₁, e₂) = >>=-eq-ok (ok_or (checked_sub total anchor) invalid) _ e in
    let (mid, e₃, e₄) = >>=-eq-ok (put_uvarint out difference) _ e₂ in
    let written : mid ≡ out' = cc in
    omega (arith, ap length written, put_uvarint_grows out difference e₃)
put_run_values_grows anchor quantum (duration, total) (step ∷ steps) out e =
    let (difference, e₁, e₂) = >>=-eq-ok (ok_or (checked_sub total anchor) invalid) _ e in
    let (mid, e₃, e₄) = >>=-eq-ok (put_uvarint out (difference / quantum)) _ e₂ in
    omega (
      arith,
      put_uvarint_grows out (difference / quantum) e₃,
      put_run_values_grows anchor quantum step steps mid e₄,
    )

put_run_grows :
    (anchor quantum : ℕ) (step : Step) (steps : List Step) (out : List ℕ) {end : ℕ} {out' : List ℕ}
    → put_run anchor (quantum, step ∷ steps) out ≡ ok (end, out')
    → length out + 2 ≤ length out'
unfolding put_run
put_run_grows anchor quantum step steps out e =
    let (out₁, e₁, r₁) = >>=-eq-ok (put_uvarint out (length (step ∷ steps))) _ e in
    let (out₂, e₂, r₂) = >>=-eq-ok (put_uvarint out₁ quantum) _ r₁ in
    omega (
      arith,
      put_uvarint_grows out (length (step ∷ steps)) e₁,
      put_uvarint_grows out₁ quantum e₂,
      put_run_values_grows anchor quantum step steps out₂ r₂,
    )

-- Every run takes at least two bytes, as `decode_csh2_temporal` expects of its count.
pub put_runs_grows :
    (cap s anchor : ℕ) (previous : Option ℕ) (runs : List Run) (out : List ℕ) {out' : List ℕ}
    → Good cap previous s runs
    → put_runs anchor runs out ≡ ok out'
    → length out + 2 * length runs ≤ length out'
unfolding put_runs
put_runs_grows top s anchor previous [] out {out'} good e =
    let written : out ≡ out' = cc in omega (arith, ap length written)
put_runs_grows top s anchor previous ((quantum, []) ∷ runs) out good e = absurd good
put_runs_grows top s anchor previous ((quantum, step ∷ steps) ∷ runs) out (differs, chain, good) e =
    let ((end, mid), e₁, e₂) = >>=-eq-ok (put_run anchor (quantum, step ∷ steps) out) _ e in
    omega (
      arith,
      put_run_grows anchor quantum step steps out e₁,
      put_runs_grows top (end_of step steps) end (some quantum) runs mid good e₂,
    )

-- There are runs if there are intervals, and no more of them.
pub runs_count :
    (cap s : ℕ) (previous : Option ℕ) (runs : List Run)
    → Good cap previous s runs
    → (length runs ≤ length (all_steps runs)) × (length runs ≡ 0 → length (all_steps runs) ≡ 0)
runs_count top s previous [] good = (omega arith, λ h. refl)
runs_count top s previous ((quantum, []) ∷ runs) good = absurd good
runs_count top s previous ((quantum, step ∷ steps) ∷ runs) (differs, chain, good) =
    let (fewer, _) = runs_count top (end_of step steps) (some quantum) runs good in
    let size : length (all_steps ((quantum, step ∷ steps) ∷ runs))
        ≡ suc (length steps) + length (all_steps runs) =
      length-append (step ∷ steps) (all_steps runs) in
    (omega arith, λ h. omega arith)

bad_run_count_ok :
    (interval_count run_count left : ℕ)
    → run_count ≤ interval_count
    → (run_count ≡ 0 → interval_count ≡ 0)
    → 2 * run_count ≤ left
    → bad_run_count interval_count run_count left ≡ false
unfolding bad_run_count
bad_run_count_ok interval_count zero left fewer some_runs room =
    let none : interval_count ≡ 0 = some_runs refl in ground arith
bad_run_count_ok interval_count (suc run_count) left fewer some_runs room = ground arith

-- The count of runs is checked against the bytes that are left.
pub count_step :
    {A : Type 0} (interval_count run_count : ℕ) (k : Reader A) (bs : List ℕ) (a : A)
    → run_count ≤ interval_count
    → (run_count ≡ 0 → interval_count ≡ 0)
    → 2 * run_count ≤ length bs
    → Reads k bs a
    → Reads
        (bytes_left >>= λ left.
          lift (refuse (bad_run_count interval_count run_count left) invalid) >> k)
        bs
        a
unfolding bytes_left
count_step interval_count run_count k bs a fewer some_runs room reads = record {
  run = λ o rest fits.
      let left : 2 * run_count ≤ length (bs ++ rest) = omega (arith, length-append bs rest) in
      rw (bad_run_count_ok interval_count run_count (length (bs ++ rest)) fewer some_runs left)
        (reads.run o rest fits);
}
