-- ===== src/Wire/Memory/Sorted.antt =====
-- `sorted_processes` of recording/wire.rs, by which both directions of the memory section go through a row.
use vim_config.Prelude.{
  ◌<◌, ◌≤◌, ◌≡◌, ◌⊎◌, inl, inr, true, false, List, [], ◌∷◌, All, Bool-cases, arith,
}
use vim_config.Model.{Process, identity, id_ltb}
use vim_config.Wire.Memory.{insert_process, sorted_processes}
use mathlib.Core.List.{Perm}
use mathlib.Core.List.Perm

-- Not after: by the pid, then by the second and the microsecond of the start.
abbrev pub NotAfter : (p q : Process) → Type 0
NotAfter p q =
    (p.pid < q.pid)
    ⊎ ((p.pid ≡ q.pid)
        × ((p.start_sec < q.start_sec)
            ⊎ ((p.start_sec ≡ q.start_sec) × (p.start_usec ≤ q.start_usec))))

abbrev pub Ascending : List Process → Type 0
Ascending [] = Unit {0}
Ascending (p ∷ ps) = All (NotAfter p) ps × Ascending ps

NotAfter-later : (p q : Process) → id_ltb (identity q) (identity p) ≡ true → NotAfter q p
NotAfter-later p q e = ground arith

NotAfter-here : (p q : Process) → id_ltb (identity q) (identity p) ≡ false → NotAfter p q
NotAfter-here p q e = ground arith

NotAfter-trans : (p q r : Process) → NotAfter p q → NotAfter q r → NotAfter p r
NotAfter-trans p q r h k = ground arith

All-NotAfter :
    (p q : Process) (qs : List Process) → NotAfter p q → All (NotAfter q) qs → All (NotAfter p) qs
All-NotAfter p q [] h k = tt
All-NotAfter p q (r ∷ qs) h (k, ks) = (NotAfter-trans p q r h k, All-NotAfter p q qs h ks)

All-insert_process :
    (P : Process → Type 0) (p : Process) (qs : List Process)
    → P p
    → All P qs
    → All P (insert_process p qs)
unfolding insert_process
All-insert_process P p [] h k = (h, tt)
All-insert_process P p (q ∷ qs) h (k, ks) = elim (Bool-cases (id_ltb (identity q) (identity p))) [
  | inl b ↦ rw b (k, All-insert_process P p qs h ks)
  | inr b ↦ rw b (h, (k, ks))
]

Ascending-insert_process :
    (p : Process) (qs : List Process) → Ascending qs → Ascending (insert_process p qs)
unfolding insert_process
Ascending-insert_process p [] h = (tt, tt)
Ascending-insert_process p (q ∷ qs) (k, ks) = elim (Bool-cases (id_ltb (identity q) (identity p))) [
  | inl b ↦ rw b (
    All-insert_process (NotAfter q) p qs (NotAfter-later p q b) k,
    Ascending-insert_process p qs ks,
  )
  | inr b ↦
      let before = NotAfter-here p q b in rw b ((before, All-NotAfter p q qs before k), (k, ks))
]

Perm-insert_process : (p : Process) (qs : List Process) → Perm (insert_process p qs) (p ∷ qs)
unfolding insert_process
Perm-insert_process p [] = Perm.rfl
Perm-insert_process p (q ∷ qs) = elim (Bool-cases (id_ltb (identity q) (identity p))) [
  | inl b ↦ rw b (Perm.trans (Perm.cons q (Perm-insert_process p qs)) (Perm.swap p q qs))
  | inr b ↦ rw b Perm.rfl
]

-- `sorted_processes` gives the same processes, each as often, in ascending order of the pid, the second and
-- the microsecond of the start.
pub sorted_processes-Ascending :
    (ps : List Process) → Perm (sorted_processes ps) ps × Ascending (sorted_processes ps)
unfolding sorted_processes
sorted_processes-Ascending [] = (Perm.rfl, tt)
sorted_processes-Ascending (p ∷ ps) =
    let (same, ordered) = sorted_processes-Ascending ps in
    (
      Perm.trans (Perm-insert_process p (sorted_processes ps)) (Perm.cons p same),
      Ascending-insert_process p (sorted_processes ps) ordered,
    )
