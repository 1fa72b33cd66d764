-- ===== src/Cpu/Select.antt =====
-- `select_temporal_points` of recording/wire.rs: which samples of a segment a temporal profile keeps as
-- checkpoints. A sample comes with what its indices name: the scan-start time of its row, and the name
-- and the parent of its process.
pub mod Picks
pub mod Kept
pub mod Changes
use vim_config.Prelude.{
  ℕ, zero, suc, ◌+◌, ◌-◌, Bool, true, false, ◌&&◌, ◌||◌, not, List, [], ◌∷◌, length, Option, none,
  some, ltb, leb, ◌==◌, if◌then◌else◌, min,
}
use vim_config.Outcome.{Result, ok, err, invalid, ok_or, checked_sub, refuse, ◌>>=◌, ◌>>◌}
use vim_config.Model.{Profile}
use vim_config.Cpu.Quantum.{temporal_quantum, temporal_target, longest_ns}

pub record TemporalSample : Type 0 where
  pub row_index : ℕ
  pub total : ℕ
  pub time : ℕ
  pub name : List ℕ
  pub ppid : ℕ

-- The local variables of the loop; `selected` has the latest first.
pub record Selection : Type 0 where
  pub selected : List TemporalSample
  pub anchor : ℕ
  pub anchor_time : ℕ
  pub pending_ns : ℕ

-- `is_none_or(|last| last.row_index != sample.row_index)`, then `push`
unfoldable pub push : TemporalSample → List TemporalSample → List TemporalSample
push sample [] = sample ∷ []
push sample (last ∷ rest) =
    if last.row_index == sample.row_index then last ∷ rest else sample ∷ last ∷ rest

unfoldable pub positive_gap : (from to : ℕ) → Result ℕ
positive_gap from to = do
  duration ← ok_or (checked_sub to from) invalid
  refuse (duration == 0) invalid
  ok duration

-- A shorter deadline that has passed already: the sample before is kept, and counts from now on.
unfoldable pub shorten : (index desired elapsed : ℕ) → TemporalSample → Selection → Selection
unfolding push
shorten index desired elapsed previous s =
    if ltb desired s.pending_ns && (ltb (s.anchor + 1) index && ltb desired elapsed)
    then record {
      selected = push previous s.selected;
      anchor = index - 1;
      anchor_time = previous.time;
      pending_ns = longest_ns;
    }
    else s

unfoldable pub same_name : List ℕ → List ℕ → Bool
same_name [] [] = true
same_name (a ∷ rest) (b ∷ others) = (a == b) && same_name rest others
same_name _ _ = false

unfoldable pub metadata_change : (previous current : TemporalSample) → Bool
unfolding same_name
metadata_change previous current =
    not (same_name current.name previous.name) || not (current.ppid == previous.ppid)

unfoldable pub keep_due :
    (index since : ℕ) → (changed : Bool) → TemporalSample → Selection → Selection
unfolding push
keep_due index since changed current s =
    if leb s.pending_ns since || changed
    then record {
      selected = push current s.selected;
      anchor = index;
      anchor_time = current.time;
      pending_ns = longest_ns;
    }
    else s

-- From `pending_ns.min(desired)` on.
unfoldable pub settle :
    (index desired : ℕ) → (previous current : TemporalSample) → Selection → Result Selection
unfolding metadata_change keep_due
settle index desired previous current s = do
  since ← ok_or (checked_sub current.time s.anchor_time) invalid
  ok (
      keep_due index since (metadata_change previous current) current
        (record s { pending_ns = min s.pending_ns desired }))

-- In the order in which they were pushed.
unfoldable pub onto : List TemporalSample → List TemporalSample → List TemporalSample
onto [] later = later
onto (sample ∷ earlier) later = onto earlier (sample ∷ later)

abbrev pub from_first : TemporalSample → Selection
from_first a = record {
  selected = a ∷ [];
  anchor = 0;
  anchor_time = a.time;
  pending_ns = longest_ns;
}

module _ (cap qbusy : ℕ) (profile : Profile) where
  -- The body of the loop.
  unfoldable pub select_step :
      ℕ → (previous current : TemporalSample) → Selection → Result Selection
  unfolding positive_gap shorten settle
  select_step index previous current s = do
    adjacent_elapsed ← positive_gap previous.time current.time
    adjacent_delta ← ok_or (checked_sub current.total previous.total) invalid
    q ← temporal_quantum adjacent_delta adjacent_elapsed cap
    desired ← temporal_target q qbusy profile
    elapsed ← positive_gap s.anchor_time current.time
    settle index desired previous current (shorten index desired elapsed previous s)

  -- `for index in 1..samples.len()`. Afterwards the last sample is kept.
  unfoldable pub select_loop :
      ℕ → TemporalSample → List TemporalSample → Selection → Result (List TemporalSample)
  unfolding select_step
  select_loop index previous [] s = ok (push previous s.selected)
  select_loop index previous (current ∷ samples) s = do
    s' ← select_step index previous current s
    select_loop (index + 1) current samples s'

  unfoldable pub select_temporal_points : List TemporalSample → Result (List TemporalSample)
  unfolding select_loop onto
  select_temporal_points [] = ok []
  select_temporal_points (a ∷ []) = ok (a ∷ [])
  select_temporal_points (a ∷ b ∷ []) = ok (a ∷ b ∷ [])
  select_temporal_points (a ∷ b ∷ c ∷ samples) = do
    selected ← select_loop 1 a (b ∷ c ∷ samples) (from_first a)
    ok (onto selected [])
