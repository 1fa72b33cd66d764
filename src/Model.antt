-- ===== src/Model.antt =====
-- recording/model.rs: what the recorder samples. Machine words are numbers; a type that they fill is
-- named beside the field. JSON values come from serde_json, so their type is a parameter `V`. Texts
-- are their bytes.
pub mod Clock
pub mod Validity
use vim_config.Prelude.{
  ℕ, zero, suc, ◌+◌, ◌-◌, ◌*◌, ◌/◌, ◌^◌, Bool, true, false, ◌&&◌, ◌||◌, not, List, [], ◌∷◌, length,
  Option, none, some, ltb, leb, ◌==◌, if◌then◌else◌, max, any,
}
use vim_config.Prelude.Int.{ℤ}
use vim_config.Outcome.{
  Error, invalid, overflow, exceeds_limit, unsorted, mismatch, Result, ok, err, refuse, checked,
  ok_or, u64_max, ◌>>=◌, ◌>>◌,
}

abbrev pub max_points : ℕ
max_points = 1_000_000

abbrev pub max_name_bytes : ℕ
max_name_bytes = 4096

abbrev pub rss_quantum : ℕ
rss_quantum = 256 * 1024

-- (pid: u32, start_sec: u64, start_usec: u32)
abbrev pub Identity : Type 0
Identity = ℕ × ℕ × ℕ

-- numer: u64, denom: u64
pub record Timebase : Type 0 where
  pub numer : ℕ
  pub denom : ℕ

unfoldable pub validate : Timebase → Result (Unit {0})
validate t = refuse (t.numer == 0 || t.denom == 0) invalid

-- A u64 times a u64 fits the u128 in which the source multiplies.
unfoldable pub ns : Timebase → ℕ → Result ℕ
unfolding validate
ns t ticks = validate t >> ok_or (checked u64_max (ticks * t.numer / t.denom)) overflow

abbrev pub div_ceil : ℕ → ℕ → ℕ
div_ceil a b = (a + (b - 1)) / b

unfoldable pub restore_ns : Timebase → ℕ → Result ℕ
unfolding ns validate
restore_ns t n = do
  validate t
  refuse (ltb t.numer t.denom) invalid
  ticks ← ok_or (checked u64_max (div_ceil (n * t.denom) t.numer)) overflow
  back ← ns t ticks
  refuse (not (back == n)) mismatch
  ok ticks

unfoldable pub quantum : Timebase → ℕ → Result ℕ
unfolding validate
quantum t n = validate t >> ok_or (checked u64_max (max (n * t.denom / t.numer) 1)) overflow

-- numbers u32, u32, u64, u32; u64 counters and sizes
pub record Process : Type 0 where
  pub pid : ℕ
  pub ppid : ℕ
  pub start_sec : ℕ
  pub start_usec : ℕ
  pub name : List ℕ
  pub user : ℕ
  pub system : ℕ
  pub rss : ℕ
  pub owned : Option ℕ
  pub peak : Option ℕ
  pub evicted : Option ℕ

abbrev pub identity : Process → Identity
identity p = (p.pid, p.start_sec, p.start_usec)

unfoldable pub total : Process → Result ℕ
total p = ok_or (checked u64_max (p.user + p.system)) overflow

pub record Observation (V : Type 0) : Type 0 where
  pub seq : ℕ
  pub wall_start_ns : ℤ
  pub scan_start_ns : ℕ
  pub scan_end_ns : ℕ
  pub processes : List Process
  pub quality : List V

abbrev pub same_id : Identity → Identity → Bool
same_id (a, b, c) (x, y, z) = (a == x) && ((b == y) && (c == z))

-- The order of the derived `Ord` on identities.
abbrev pub id_ltb : Identity → Identity → Bool
id_ltb (a, b, c) (x, y, z) = ltb a x || ((a == x) && (ltb b y || ((b == y) && ltb c z)))

-- The body of the loop of `Observation::validate`; `seen` holds the identities above.
unfoldable pub bad_process : List Identity → Process → Bool
bad_process seen p =
    (p.pid == 0)
    || (ltb (2 ^ 31 - 1) p.pid
        || (ltb (2 ^ 31 - 1) p.ppid
            || (leb 1_000_000 p.start_usec
                || (ltb max_name_bytes (length p.name) || any (same_id (identity p)) seen))))

unfoldable pub validate_processes : List Identity → List Process → Result (Unit {0})
unfolding bad_process total
validate_processes seen [] = ok tt
validate_processes seen (p ∷ rest) = do
  refuse (bad_process seen p) invalid
  t ← total p
  validate_processes (identity p ∷ seen) rest

unfoldable pub validate_observation : {V : Type 0} → Observation V → Result (Unit {0})
validate_observation o = do
  refuse (ltb o.scan_end_ns o.scan_start_ns || ltb max_points (length o.processes)) invalid
  validate_processes [] o.processes

-- start_seq, start_time_ns, end_time_ns, duration_ns, delta, error_bound: u64
pub record CpuInterval : Type 0 where
  pub start_seq : ℕ
  pub start_time_ns : ℕ
  pub end_time_ns : ℕ
  pub duration_ns : ℕ
  pub delta : ℕ
  pub error_bound : ℕ

pub record CpuCheckpoint : Type 0 where
  pub total : ℕ
  pub error_bound : ℕ
  pub components : Option (ℕ × ℕ)
  pub interval : Option CpuInterval

pub record DecodedProcess : Type 0 where
  pub pid : ℕ
  pub ppid : ℕ
  pub start_sec : ℕ
  pub start_usec : ℕ
  pub name : List ℕ
  pub cpu : Option CpuCheckpoint
  pub rss : ℕ
  pub owned : Option ℕ
  pub peak : Option ℕ
  pub evicted : Option ℕ

abbrev pub decoded_identity : DecodedProcess → Identity
decoded_identity p = (p.pid, p.start_sec, p.start_usec)

pub record DecodedObservation (V : Type 0) : Type 0 where
  pub seq : ℕ
  pub wall_start_ns : ℤ
  pub scan_start_ns : ℕ
  pub scan_end_ns : ℕ
  pub processes : List DecodedProcess
  pub quality : List V

pub data MemoryColumn : Type 0 where
  owned peak evicted : MemoryColumn

-- columns, unit_bytes: u64
pub record MemoryEncoding : Type 0 where
  pub columns : List MemoryColumn
  pub unit_bytes : ℕ

-- The derived order on columns is that of declaration.
unfoldable pub rank : MemoryColumn → ℕ
rank owned = 0
rank peak = 1
rank evicted = 2

unfoldable pub out_of_order : List MemoryColumn → Bool
unfolding rank
out_of_order [] = false
out_of_order (a ∷ []) = false
out_of_order (a ∷ b ∷ rest) = leb (rank b) (rank a) || out_of_order (b ∷ rest)

unfoldable pub validate_memory : MemoryEncoding → Result (Unit {0})
unfolding out_of_order
validate_memory m = refuse (m.unit_bytes == 0) invalid >> refuse (out_of_order m.columns) unsorted

pub data Profile : Type 0 where
  legacy_1ms fixed_100us adaptive adaptive_inverse adaptive_log : Profile
