-- ===== src/Wire/Validate.antt =====
-- What recording/wire.rs checks of the rows before it writes them: `validate_rows`, with
-- `temporal_quality_boundary` and `add_psd1_row_expansion`. A quality value is JSON: what serde_json
-- finds in it is a parameter, and so are the sizes that the compiler gives two structs.
pub mod Increasing
use vim_config.Prelude.{
  ℕ, zero, suc, ◌+◌, ◌*◌, Bool, true, false, ◌&&◌, ◌||◌, not, List, [], ◌∷◌, length, Option, none,
  some, ltb, leb, ◌==◌, if◌then◌else◌, any,
}
use vim_config.Outcome.{
  Result, ok, err, invalid, overflow, exceeds_limit, unsorted, refuse, ok_or, checked, u64_max,
  ◌>>=◌, ◌>>◌,
}
use vim_config.Model.{
  Identity, Timebase, validate, Process, identity, same_id, total, Observation,
  validate_observation, max_points,
}

abbrev pub max_decoded_bytes : ℕ
max_decoded_bytes = 256 * 1024 * 1024

-- `.get("kind").and_then(Value::as_str).unwrap_or("")`, and `.get("identity")` with the `as_u64` of its
-- "pid", "start_sec" and "start_usec".
pub record JsonView (V : Type 0) : Type 0 where
  pub kind : V → List ℕ
  pub identity_fields : V → Option (Option ℕ × Option ℕ × Option ℕ)

unfoldable pub starts_with : (pattern text : List ℕ) → Bool
starts_with [] text = true
starts_with (p ∷ pattern) [] = false
starts_with (p ∷ pattern) (t ∷ text) = (p == t) && starts_with pattern text

unfoldable pub contains : (pattern text : List ℕ) → Bool
unfolding starts_with
contains pattern [] = starts_with pattern []
contains pattern (t ∷ text) = starts_with pattern (t ∷ text) || contains pattern text

abbrev pub is_text : (a b : List ℕ) → Bool
is_text [] [] = true
is_text (a ∷ rest) (b ∷ others) = (a == b) && is_text rest others
is_text _ _ = false

abbrev pub continuity_unknown : List ℕ
continuity_unknown =
    b'c' ∷ b'o' ∷ b'n' ∷ b't' ∷ b'i' ∷ b'n' ∷ b'u' ∷ b'i' ∷ b't' ∷ b'y' ∷ b'-' ∷ b'u' ∷ b'n' ∷ b'k'
    ∷ b'n' ∷ b'o' ∷ b'w' ∷ b'n' ∷ []

abbrev pub component_regression : List ℕ
component_regression =
    b'c' ∷ b'p' ∷ b'u' ∷ b'-' ∷ b'c' ∷ b'o' ∷ b'm' ∷ b'p' ∷ b'o' ∷ b'n' ∷ b'e' ∷ b'n' ∷ b't' ∷ b'-'
    ∷ b'r' ∷ b'e' ∷ b'g' ∷ b'r' ∷ b'e' ∷ b's' ∷ b's' ∷ b'i' ∷ b'o' ∷ b'n' ∷ []

abbrev pub clock_gap : List ℕ
clock_gap = b'c' ∷ b'l' ∷ b'o' ∷ b'c' ∷ b'k' ∷ b'-' ∷ b'g' ∷ b'a' ∷ b'p' ∷ []

abbrev pub acquisition_gap : List ℕ
acquisition_gap =
    b'a' ∷ b'c' ∷ b'q' ∷ b'u' ∷ b'i' ∷ b's' ∷ b'i' ∷ b't' ∷ b'i' ∷ b'o' ∷ b'n' ∷ b'-' ∷ b'g' ∷ b'a'
    ∷ b'p' ∷ []

abbrev pub gap : List ℕ
gap = b'g' ∷ b'a' ∷ b'p' ∷ []

abbrev pub source_gap : List ℕ
source_gap = b's' ∷ b'o' ∷ b'u' ∷ b'r' ∷ b'c' ∷ b'e' ∷ b'-' ∷ b'g' ∷ b'a' ∷ b'p' ∷ []

abbrev pub sequence_gap : List ℕ
sequence_gap =
    b's' ∷ b'e' ∷ b'q' ∷ b'u' ∷ b'e' ∷ b'n' ∷ b'c' ∷ b'e' ∷ b'-' ∷ b'g' ∷ b'a' ∷ b'p' ∷ []

abbrev pub field_is : Option ℕ → ℕ → Bool
field_is none n = false
field_is (some m) n = m == n

abbrev pub names_identity : Option (Option ℕ × Option ℕ × Option ℕ) → Identity → Bool
names_identity none id = false
names_identity (some (pid, sec, usec)) (a, b, c) =
    field_is pid a && (field_is sec b && field_is usec c)

abbrev pub is_missing : Option (Option ℕ × Option ℕ × Option ℕ) → Bool
is_missing none = true
is_missing (some fields) = false

module _ {V : Type 0} (view : JsonView V) where
  -- The closure of `any`.
  unfoldable pub is_boundary : Identity → V → Bool
  unfolding contains
  is_boundary id quality =
      let kind = view.kind quality in
      let fields = view.identity_fields quality in
      let unknown = contains continuity_unknown kind in
      (names_identity fields id && (unknown || is_text kind component_regression))
      || ((unknown && is_missing fields)
          || (is_text kind clock_gap
              || (contains acquisition_gap kind
                  || ((is_text kind gap || (is_text kind source_gap || is_text kind sequence_gap))
                      && is_missing fields))))

  unfoldable pub temporal_quality_boundary : List V → Identity → Bool
  unfolding is_boundary
  temporal_quality_boundary qualities id = any (is_boundary id) qualities

-- The sizes of `MetaRow` and `MetaProcess`.
pub record Layout : Type 0 where
  pub meta_row : ℕ
  pub meta_process : ℕ

unfoldable pub row_bytes : Layout → (size : ℕ) → List Process → Result ℕ
row_bytes layout size [] = ok size
row_bytes layout size (p ∷ ps) = do
  with_process ← ok_or (checked u64_max (size + layout.meta_process)) overflow
  with_name ← ok_or (checked u64_max (with_process + length p.name)) overflow
  row_bytes layout with_name ps

unfoldable pub add_psd1_row_expansion : Layout → (expanded_bytes : ℕ) → List Process → Result ℕ
unfolding row_bytes
add_psd1_row_expansion layout expanded_bytes processes = do
  row ← row_bytes layout layout.meta_row processes
  expanded ← ok_or (checked u64_max (expanded_bytes + row)) overflow
  refuse (ltb max_decoded_bytes expanded) exceeds_limit
  ok expanded

-- The `HashMap` from identities to user and system time, the latest entry first.
abbrev pub Counters : Type 0
Counters = List (Identity × ℕ × ℕ)

unfoldable pub regressed : Counters → Process → Bool
regressed [] p = false
regressed ((id, user, system) ∷ rest) p =
    if same_id id (identity p) then ltb p.user user || ltb p.system system else regressed rest p

unfoldable pub check_counters : Counters → List Process → Result Counters
unfolding regressed
check_counters counters [] = ok counters
check_counters counters (p ∷ ps) = do
  refuse (regressed counters p) invalid
  t ← total p
  check_counters ((identity p, p.user, p.system) ∷ counters) ps

abbrev pub not_after : Option ℕ → ℕ → Bool
not_after none n = false
not_after (some previous) n = leb n previous

module _ {V : Type 0} (view : JsonView V) (layout : Layout) where
  -- `counters.remove` of every identity at a boundary.
  unfoldable pub reset_counters : List V → Counters → Counters
  reset_counters quality [] = []
  reset_counters quality ((id, user, system) ∷ rest) =
      let kept = reset_counters quality rest in
      if temporal_quality_boundary view quality id then kept else (id, user, system) ∷ kept

  unfoldable pub rows_loop :
      (previous_seq previous_scan : Option ℕ)
      → (points expanded_bytes : ℕ) → Counters
      → List (Observation V)
      → Result ℕ
  unfolding reset_counters add_psd1_row_expansion check_counters
  rows_loop previous_seq previous_scan points expanded_bytes counters [] = ok points
  rows_loop previous_seq previous_scan points expanded_bytes counters (row ∷ rows) = do
    validate_observation row
    refuse (not_after previous_seq row.seq || not_after previous_scan row.scan_start_ns) unsorted
    points' ← ok_or (checked u64_max (points + length row.processes)) overflow
    refuse (ltb max_points points') exceeds_limit
    expanded' ← add_psd1_row_expansion layout expanded_bytes row.processes
    counters' ← check_counters (reset_counters row.quality counters) row.processes
    rows_loop (some row.seq) (some row.scan_start_ns) points' expanded' counters' rows

  unfoldable pub validate_rows : Timebase → List (Observation V) → Result ℕ
  unfolding rows_loop
  validate_rows cpu_timebase rows = do
    refuse (ltb max_points (length rows)) exceeds_limit
    points ← rows_loop none none 0 0 [] rows
    validate cpu_timebase
    ok points
