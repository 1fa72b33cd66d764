-- ===== src/Examples/Validation.antt =====
-- The check of rows on small data.
use vim_config.Prelude.{ℕ, refl, List, [], ◌∷◌, none}
use vim_config.Prelude.Int.{pos}
use vim_config.Model.{Process, Observation, validate, validate_observation, validate_processes}
use vim_config.Wire.Validate.{JsonView, Layout, validate_rows, temporal_quality_boundary}
use vim_config.Wire.Validate.Increasing.{Accepted, validate_rows-Accepted}

-- A quality value that is its own kind, with no identity.
abbrev view : JsonView (List ℕ)
view = record { kind = λ text. text; identity_fields = λ text. none }

abbrev layout : Layout
layout = record { meta_row = 56; meta_process = 80 }

abbrev process : ℕ → Process
process user = record {
  pid = 7;
  ppid = 1;
  start_sec = 50;
  start_usec = 9;
  name = b's' ∷ b'h' ∷ [];
  user = user;
  system = 12;
  rss = 4096;
  owned = none;
  peak = none;
  evicted = none;
}

abbrev row : ℕ → ℕ → ℕ → List (List ℕ) → Observation (List ℕ)
row seq time user quality = record {
  seq = seq;
  wall_start_ns = pos 0;
  scan_start_ns = time;
  scan_end_ns = time;
  processes = process user ∷ [];
  quality = quality;
}

-- The user time falls where a gap is marked.
abbrev some_rows : List (Observation (List ℕ))
some_rows = row 1 10 30 [] ∷ row 2 20 31 [] ∷ row 5 30 3 ((b'g' ∷ b'a' ∷ b'p' ∷ []) ∷ []) ∷ []

validate_rows-Accepted_example : Accepted view layout none none 0 3 some_rows
unfolding validate_rows validate_observation validate validate_processes temporal_quality_boundary
validate_rows-Accepted_example =
    validate_rows-Accepted view layout (record { numer = 1; denom = 1 }) some_rows refl
