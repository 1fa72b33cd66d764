-- ===== src/Examples/Blocks.antt =====
-- The wire format and the recording model on small data.
use vim_config.Prelude.{
  ℕ, ◌+◌, ◌≤◌, ◌≡◌, ◌≢◌, ◌↔◌, ◌⊎◌, ◌*◌, ◌-◌, ◌^◌, refl, true, List, [], ◌∷◌, ◌++◌, none, some,
  arith, length, dec_lt,
}
use vim_config.Prelude.Order.{lt_wf}
use vim_config.Prelude.Int.{pos, negsuc, ◌-ℤ◌}
use vim_config.Outcome.{ok}
use vim_config.Model.{
  Timebase, ns, restore_ns, quantum, Process, Observation, DecodedProcess, DecodedObservation,
  owned, peak, evicted, MemoryEncoding, validate_memory, validate_observation,
}
use vim_config.Model.Clock.{restore_ns-ns, quantum_bounds}
use vim_config.Model.Validity.{IsObservation, validate_observation_iff}
use vim_config.Wire.Cursor.{at, Wrote, read_byte}
use vim_config.Wire.Put.{
  put_bytes, put_loop, put_uvarint, put_uvarint128, put_svarint, put_string, zigzag,
  check_wire_size,
}
use vim_config.Wire.Read.{read_loop, read_uvarint, read_uvarint128, read_svarint, read_string}
use vim_config.Wire.Varint.{put_uvarint128_total}
use vim_config.Wire.Varint.RoundTrip.{
  read_uvarint-put_uvarint, read_svarint-put_svarint, read_string-put_string,
}
use vim_config.Wire.Varint.Canonical.{put_uvarint128-read_uvarint128}
use vim_config.Wire.Sections.{
  pack_sections, pack_sections_with_optional_fourth, unpack_sections, unpack_v2_sections,
  put_sections, flatten_four,
}
use vim_config.Wire.Sections.RoundTrip.{unpack_v2_sections-pack, unpack_sections-pack_sections}
use vim_config.Wire.Memory.{selected_memory, sorted_processes, memory_units, previous_of}
use vim_config.Wire.Memory.Encode.{
  encode_pmm1, put_columns, put_rows, put_row, absent_from, put_absent, put_values, put_value,
}
use vim_config.Wire.Memory.Decode.{decode_pmm1}
use vim_config.Wire.Memory.RoundTrip.{decode_pmm1-encode_pmm1}
use vim_config.Wire.Memory.Sorted.{Ascending, sorted_processes-Ascending}
use mathlib.Core.List.{Perm}
use vim_config.Wire.Memory.Selected.{Thinned, selected_memory_iff}

abbrev shell : Process
shell = record {
  pid = 7;
  ppid = 1;
  start_sec = 50;
  start_usec = 9;
  name = b's' ∷ b'h' ∷ [];
  user = 30;
  system = 12;
  rss = 4096;
  owned = some 3072;
  peak = some 5120;
  evicted = none;
}

abbrev editor : Process
editor = record {
  pid = 3;
  ppid = 7;
  start_sec = 60;
  start_usec = 1;
  name = b'v' ∷ b'i' ∷ [];
  user = 5;
  system = 0;
  rss = 8192;
  owned = none;
  peak = none;
  evicted = none;
}

abbrev first_row : Observation (Unit {0})
first_row = record {
  seq = 1;
  wall_start_ns = pos 0;
  scan_start_ns = 10;
  scan_end_ns = 20;
  processes = shell ∷ editor ∷ [];
  quality = [];
}

abbrev rows : List (Observation (Unit {0}))
rows = first_row ∷ []

abbrev decoded_shell : DecodedProcess
decoded_shell = record {
  pid = 7;
  ppid = 1;
  start_sec = 50;
  start_usec = 9;
  name = b's' ∷ b'h' ∷ [];
  cpu = none;
  rss = 4096;
  owned = none;
  peak = none;
  evicted = none;
}

abbrev decoded_editor : DecodedProcess
decoded_editor = record {
  pid = 3;
  ppid = 7;
  start_sec = 60;
  start_usec = 1;
  name = b'v' ∷ b'i' ∷ [];
  cpu = none;
  rss = 8192;
  owned = none;
  peak = none;
  evicted = none;
}

abbrev decoded_rows : List (DecodedObservation (Unit {0}))
decoded_rows =
    record {
      seq = 1;
      wall_start_ns = pos 0;
      scan_start_ns = 10;
      scan_end_ns = 20;
      processes = decoded_editor ∷ decoded_shell ∷ [];
      quality = [];
    }
    ∷ []

abbrev all_columns : MemoryEncoding
all_columns = record { columns = owned ∷ peak ∷ evicted ∷ []; unit_bytes = 1024 }

abbrev two_columns : MemoryEncoding
two_columns = record { columns = owned ∷ peak ∷ []; unit_bytes = 1024 }

two_columns_selected : selected_memory all_columns rows ≡ some two_columns
unfolding selected_memory
two_columns_selected = refl

decode_pmm1-encode_pmm1_example :
    decode_pmm1 two_columns (b'P' ∷ b'M' ∷ b'M' ∷ b'1' ∷ 1 ∷ 0 ∷ 6 ∷ 1 ∷ 0 ∷ 4 ∷ []) decoded_rows
    ≡ ok (
        record {
          seq = 1;
          wall_start_ns = pos 0;
          scan_start_ns = 10;
          scan_end_ns = 20;
          processes =
              decoded_editor ∷ record decoded_shell { owned = some 3072; peak = some 5120 } ∷ [];
          quality = [];
        }
        ∷ [])
unfolding validate_memory encode_pmm1 sorted_processes put_loop lt_wf dec_lt put_bytes put_columns
    put_rows put_row put_uvarint absent_from put_absent put_values put_value memory_units ◌-ℤ◌
    previous_of put_svarint zigzag put_uvarint128 check_wire_size
decode_pmm1-encode_pmm1_example =
    decode_pmm1-encode_pmm1 all_columns two_columns rows decoded_rows two_columns_selected refl
      (
        omega arith,
        (
          record { same = refl; empty = refl; fits = (tt, tt, tt) },
          (record { same = refl; empty = refl; fits = (omega arith, omega arith, tt) }, tt),
        ),
        tt,
      )
      refl

selected_memory_iff_example : (selected_memory all_columns rows ≡ some two_columns) ↔ (
    Thinned rows (owned ∷ peak ∷ evicted ∷ []) (owned ∷ peak ∷ [])
    × (two_columns.columns ≢ [])
    × (two_columns.unit_bytes ≡ all_columns.unit_bytes))
selected_memory_iff_example = selected_memory_iff all_columns rows two_columns

sorted_processes-Ascending_example :
    Perm (sorted_processes (shell ∷ editor ∷ [])) (shell ∷ editor ∷ [])
    × Ascending (sorted_processes (shell ∷ editor ∷ []))
sorted_processes-Ascending_example = sorted_processes-Ascending (shell ∷ editor ∷ [])

-- 300 is the bytes 172 and 2.
put_uvarint128-read_uvarint128_example :
    (code : List ℕ) × (put_uvarint128 [] 300 ≡ ok code)
    × (172 ∷ 2 ∷ 9 ∷ [] ≡ code ++ 9 ∷ [])
    × (6 ≡ 4 + length code)
unfolding read_uvarint128 read_loop read_byte
put_uvarint128-read_uvarint128_example =
    put_uvarint128-read_uvarint128 4 (172 ∷ 2 ∷ 9 ∷ []) {v = 300} {c = at 6 (9 ∷ [])}
      (omega arith, (omega arith, (omega arith, tt))) refl

put_uvarint128_total_example : (out : List ℕ) × (put_uvarint128 (1 ∷ []) (2 ^ 100) ≡ ok out)
put_uvarint128_total_example = put_uvarint128_total (1 ∷ []) (2 ^ 100) (omega arith) (omega arith)

read_uvarint-put_uvarint_example : Wrote (7 ∷ []) (7 ∷ 172 ∷ 2 ∷ []) read_uvarint 300
unfolding put_uvarint put_loop lt_wf dec_lt put_bytes
read_uvarint-put_uvarint_example = read_uvarint-put_uvarint (7 ∷ []) 300 (omega arith) refl

read_svarint-put_svarint_example : Wrote [] (131 ∷ 2 ∷ []) read_svarint (negsuc 129)
unfolding put_svarint zigzag put_uvarint128 put_loop lt_wf dec_lt put_bytes
read_svarint-put_svarint_example = read_svarint-put_svarint [] (negsuc 129) refl

read_string-put_string_example :
    Wrote [] (2 ∷ b's' ∷ b'h' ∷ []) (read_string (λ bytes. true)) (b's' ∷ b'h' ∷ [])
unfolding put_string put_uvarint put_loop lt_wf dec_lt put_bytes
read_string-put_string_example =
    read_string-put_string (λ bytes. true) [] (b's' ∷ b'h' ∷ []) refl refl

abbrev pst2 : List ℕ
pst2 = b'P' ∷ b'S' ∷ b'T' ∷ b'2' ∷ []

unpack_v2_sections-pack_example :
    unpack_v2_sections (b'P' ∷ b'S' ∷ b'T' ∷ b'2' ∷ 2 ∷ 1 ∷ 2 ∷ 0 ∷ 1 ∷ 9 ∷ 0 ∷ [])
    ≡ ok (1 ∷ 2 ∷ [], [], 9 ∷ [], some [])
unfolding pack_sections_with_optional_fourth put_sections put_uvarint put_loop lt_wf dec_lt
    put_bytes flatten_four
unpack_v2_sections-pack_example =
    unpack_v2_sections-pack pst2 refl (1 ∷ 2 ∷ []) [] (9 ∷ []) (some []) refl

abbrev pst1 : List ℕ
pst1 = b'P' ∷ b'S' ∷ b'T' ∷ b'1' ∷ []

unpack_sections-pack_sections_example :
    unpack_sections (b'P' ∷ b'S' ∷ b'T' ∷ b'1' ∷ 2 ∷ 1 ∷ 2 ∷ 0 ∷ 1 ∷ 9 ∷ [])
    ≡ ok (1 ∷ 2 ∷ [], [], 9 ∷ [])
unfolding pack_sections put_sections put_uvarint put_loop lt_wf dec_lt put_bytes flatten_four
unpack_sections-pack_sections_example =
    unpack_sections-pack_sections pst1 refl (1 ∷ 2 ∷ []) [] (9 ∷ []) refl

-- A tick of 125 / 3 nanoseconds.
abbrev clock : Timebase
clock = record { numer = 125; denom = 3 }

abbrev ticks : ℕ
ticks = 24

restore_ns-ns_example : restore_ns clock 4166 ≡ ok 100
unfolding ns
restore_ns-ns_example = restore_ns-ns clock 100 4166 (omega arith) (omega arith) refl

quantum_bounds_example :
    (1 ≤ ticks) × (ticks ≤ 2 ^ 64 - 1) × ((ticks ≡ 1) ⊎ (ticks * 125 ≤ 1000 * 3))
unfolding quantum
quantum_bounds_example = quantum_bounds clock 1000 ticks refl

validate_observation_iff_example :
    (validate_observation first_row ≡ ok tt) ↔ IsObservation first_row
validate_observation_iff_example = validate_observation_iff first_row
