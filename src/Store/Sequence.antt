-- ===== src/Store/Sequence.antt =====
-- `validate_frame_sequence` of recording/store.rs, and that it accepts exactly the frames that cover the
-- block ids from 0 on without a gap or an overlap.
use vim_config.Prelude.{
  ℕ, ◌+◌, ◌-◌, ◌≤◌, ◌<◌, ◌≡◌, ◌↔◌, refl, subst, some, List, [], ◌∷◌, arith, length, ltb, ◌==◌, ◌||◌,
  not, Bool, false,
}
use vim_config.Outcome.{
  Result, ok, refuse, refuse_ok, ok_or, ok_or_ok, checked, u64_max, invalid, exceeds_limit,
  exhausted, ◌>>=◌, ◌>>◌, >>=-eq-ok, ok-injective,
}
use vim_config.Store.{FrameInfo, max_archive_frames}

-- `frame.count != frame.last - frame.first + 1` stands behind the test that `last` is not below `first`.
-- The sum overflows a u64 only for a frame from 0 to u64::MAX, which has more ids than a count can say.
unfoldable pub breaks_range : ℕ → FrameInfo → Bool
breaks_range expected f =
    not (f.first == expected) || ltb f.last f.first || not (f.count == f.last - f.first + 1)

unfoldable pub validate_from : ℕ → List FrameInfo → Result ℕ
unfolding breaks_range
validate_from expected [] = ok expected
validate_from expected (f ∷ frames) = do
  refuse (breaks_range expected f) invalid
  next ← ok_or (checked u64_max (f.last + 1)) exhausted
  validate_from next frames

unfoldable pub validate_frame_sequence : List FrameInfo → Result (Unit {0})
unfolding validate_from
validate_frame_sequence frames = do
  refuse (ltb max_archive_frames (length frames)) exceeds_limit
  expected ← validate_from 0 frames
  ok tt

-- Frames that cover the ids from `n` to below `end`, each at least one and as many as it counts.
pub data Covers : ℕ → List FrameInfo → ℕ → Type 0 where
  done : (n : ℕ) → Covers n [] n
  next :
      {n end : ℕ} (f : FrameInfo) {frames : List FrameInfo}
      → f.first ≡ n
      → 0 < f.count
      → f.last + 1 ≡ n + f.count
      → f.last < u64_max
      → Covers (n + f.count) frames end
      → Covers n (f ∷ frames) end

breaks_range-false :
    (n : ℕ) (f : FrameInfo)
    → breaks_range n f ≡ false
    → (f.first ≡ n) × (0 < f.count) × (f.last + 1 ≡ n + f.count)
unfolding breaks_range
breaks_range-false n f h = ground arith

checked-some : (n : ℕ) {m : ℕ} → checked u64_max n ≡ some m → (n ≡ m) × (n ≤ u64_max)
checked-some n h = ground arith

pub validate_from-Covers :
    (n : ℕ) (frames : List FrameInfo) {end : ℕ}
    → validate_from n frames ≡ ok end
    → Covers n frames end
unfolding validate_from
validate_from-Covers n [] h = subst (Covers n []) (ok-injective h) (done n)
validate_from-Covers n (f ∷ frames) {end} h =
    let (_, e₁, h₁) = >>=-eq-ok (refuse (breaks_range n f) invalid) _ h in
    let (m, e₂, h₂) = >>=-eq-ok (ok_or (checked u64_max (f.last + 1)) exhausted) _ h₁ in
    let fine : breaks_range n f ≡ false = refuse_ok _ _ e₁ in
    let (first, count, last) = breaks_range-false n f fine in
    let (em, small) = checked-some (f.last + 1) (ok_or_ok _ _ e₂) in
    next f first count last (omega arith)
      (subst (λ k. Covers k frames end) (omega arith) (validate_from-Covers m frames h₂))

pub Covers-validate_from :
    {n end : ℕ} {frames : List FrameInfo} → Covers n frames end → validate_from n frames ≡ ok end
unfolding validate_from
Covers-validate_from (done n) = refl
Covers-validate_from {n} (next f first count last small rest) =
    let fine : breaks_range n f ≡ false = unfold breaks_range in ground arith in
    let room : ltb u64_max (f.last + 1) ≡ false = ground arith in
    rw (fine, room, last) (Covers-validate_from rest)

-- `validate_frame_sequence` accepts frames exactly if they cover the ids from 0 up to some id without a gap
-- or an overlap, each counting its ids, and are no more than an archive may have.
pub validate_frame_sequence_iff :
    (frames : List FrameInfo)
    → (validate_frame_sequence frames ≡ ok tt)
      ↔ ((length frames ≤ max_archive_frames) × (end : ℕ) × Covers 0 frames end)
unfolding validate_frame_sequence
validate_frame_sequence_iff frames = (
  λ h.
      let (_, e₁, h₁) =
        >>=-eq-ok (refuse (ltb max_archive_frames (length frames)) exceeds_limit) _ h in
      let (end, e₂, h₂) = >>=-eq-ok (validate_from 0 frames) _ h₁ in
      let few : ltb max_archive_frames (length frames) ≡ false = refuse_ok _ _ e₁ in
      (ground arith, end, validate_from-Covers 0 frames e₂),
  λ (few, end, covers).
      let few' : ltb max_archive_frames (length frames) ≡ false = ground arith in
      rw (few', Covers-validate_from covers),
)
