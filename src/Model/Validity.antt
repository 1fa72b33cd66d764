-- ===== src/Model/Validity.antt =====
-- What `Observation::validate` and `MemoryEncoding::validate` of recording/model.rs accept.
use vim_config.Prelude.{
  ◌+◌, ◌^◌, ◌≤◌, ◌<◌, ◌≡◌, ◌≢◌, ◌↔◌, refl, true, false, List, [], ◌∷◌, length, arith, any, All, ltb,
  ◌||◌,
}
use vim_config.Outcome.{ok, invalid, u64_max, >>=-eq-ok, refuse, refuse_ok}
use vim_config.Model.{
  Identity, identity, Process, Observation, same_id, bad_process, validate_processes,
  validate_observation, total, max_points, max_name_bytes,
}

pub record IsProcess (p : Process) : Type 0 where
  pub pid_pos : 0 < p.pid
  pub pid_small : p.pid < 2 ^ 31
  pub ppid_small : p.ppid < 2 ^ 31
  pub usec_small : p.start_usec < 1_000_000
  pub name_short : length p.name ≤ max_name_bytes
  pub total_fits : p.user + p.system ≤ u64_max

abbrev pub Unlike : Identity → List Identity → Type 0
Unlike a seen = All (λ b. a ≢ b) seen

-- No two processes of the list, and none of it and of `seen`, have one identity.
abbrev pub Distinct : List Identity → List Process → Type 0
Distinct seen [] = Unit {0}
Distinct seen (p ∷ ps) = Unlike (identity p) seen × Distinct (identity p ∷ seen) ps

pub record IsObservation {V : Type 0} (o : Observation V) : Type 0 where
  pub ordered : o.scan_start_ns ≤ o.scan_end_ns
  pub bounded : length o.processes ≤ max_points
  pub members : All IsProcess o.processes
  pub distinct : Distinct [] o.processes

pub same_id_iff : (a b : Identity) → (same_id a b ≡ true) ↔ (a ≡ b)
same_id_iff (a, b, c) (x, y, z) = ground arith

not_seen : (a : Identity) (seen : List Identity) → any (same_id a) seen ≡ false → Unlike a seen
not_seen a [] h = tt
not_seen a (b ∷ seen) h = (λ e. ground (arith, same_id_iff a b), not_seen a seen (ground arith))

unseen : (a : Identity) (seen : List Identity) → Unlike a seen → any (same_id a) seen ≡ false
unseen a [] h = refl
unseen a (b ∷ seen) (n, h) = ground (arith, same_id_iff a b, unseen a seen h)

accepted_process :
    (seen : List Identity) (p : Process)
    → bad_process seen p ≡ false
    → p.user + p.system ≤ u64_max
    → IsProcess p × Unlike (identity p) seen
unfolding bad_process
accepted_process seen p h t = (ground arith, not_seen (identity p) seen (ground arith))

processes_sound :
    (seen : List Identity) (ps : List Process)
    → validate_processes seen ps ≡ ok tt
    → All IsProcess ps × Distinct seen ps
unfolding validate_processes
processes_sound seen [] h = (tt, tt)
processes_sound seen (p ∷ ps) h =
    let (_, e₁, h₁) = >>=-eq-ok (refuse (bad_process seen p) invalid) _ h in
    let (t, e₂, h₂) = >>=-eq-ok (total p) _ h₁ in
    let fits : p.user + p.system ≤ u64_max = unfold total in ground arith in
    let (good, new) = accepted_process seen p (refuse_ok _ _ e₁) fits in
    let (rest, apart) = processes_sound (identity p ∷ seen) ps h₂ in ((good, rest), (new, apart))

processes_complete :
    (seen : List Identity) (ps : List Process)
    → All IsProcess ps
    → Distinct seen ps
    → validate_processes seen ps ≡ ok tt
unfolding validate_processes
processes_complete seen [] g d = refl
processes_complete seen (p ∷ ps) (g, gs) (d, ds) =
    ground (arith, unseen (identity p) seen d, processes_complete (identity p ∷ seen) ps gs ds)

-- `Observation::validate` accepts exactly the well-formed observations: ordered scan times, at most a
-- million processes, each with its fields and its total in range, and no identity twice.
pub validate_observation_iff :
    {V : Type 0} (o : Observation V) → (validate_observation o ≡ ok tt) ↔ IsObservation o
unfolding validate_observation
validate_observation_iff o = (
  λ h.
      let (_, e, h') =
        >>=-eq-ok
          (refuse (ltb o.scan_end_ns o.scan_start_ns || ltb max_points (length o.processes))
            invalid)
          _ h in
      let (members, distinct) = processes_sound [] o.processes h' in
      record {
        ordered = ground arith;
        bounded = ground arith;
        members = members;
        distinct = distinct;
      },
  λ g. ground (arith, processes_complete [] o.processes g.members g.distinct),
)
