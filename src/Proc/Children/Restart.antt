-- ===== src/Proc/Children/Restart.antt =====
-- `exec_exited_child_processes` of src/proc_helper.c: what it does to the slots, to its count and to
-- the heap.
use mathlib.Core.Path.{subst}
use alarm4pi.Prelude.{
  ◌≡◌, refl, ℤ, pos, negsuc, Bool, true, Option, none, some, List, [], ◌∷◌, arith, Bool-cases,
  Option-cases, ◌∙◌, inl, inr, ◌⊎◌, if◌then◌else◌, ◌==◌,
}
use alarm4pi.CString.{Bytes, codes}
use alarm4pi.Proc.Paths.{ExecEnv}
use alarm4pi.Proc.Args.{Heap, replace_relative_path_array, used_cur_abs_path}
use alarm4pi.Proc.Args.Memory.{Outcome}
use alarm4pi.Proc.Args.Granted.{replace_relative_path_array-Outcome}
use alarm4pi.Proc.Children.{
  is_dead, Fork, fork, run_background_command_out_log, increment, nonneg, Exec, exec_slot,
  keep_slot, exec_slots, exec_exited_child_processes,
}

-- A slot that holds a PID keeps it.
abbrev pub Keeps : List ℤ → List ℤ → Type 0
Keeps [] [] = Unit {0}
Keeps [] (q ∷ qs) = ⊥
Keeps (p ∷ ps) [] = ⊥
Keeps (p ∷ ps) (q ∷ qs) = ((is_dead p ≡ true) ⊎ (q ≡ p)) × Keeps ps qs

Keeps-refl : (ps : List ℤ) → Keeps ps ps
Keeps-refl [] = tt
Keeps-refl (p ∷ ps) = (inr refl, Keeps-refl ps)

increment-nonneg :
    (b : Bool) (n : ℤ) → nonneg n ≡ true → nonneg (increment (if b then n else negsuc 0)) ≡ true
unfolding increment
increment-nonneg b n h = ground arith

-- One slot: the count stays at 0 or more, and the blocks of the argument list are given back.
abbrev Slot : ℤ → Heap → ℤ × ℤ × List Fork × Heap → Type 0
Slot n heap s = (nonneg n ≡ true → nonneg s.1 ≡ true) × (s.3.live ≡ heap.live)

module _ (env : ExecEnv) (argv : List Bytes) (n : ℤ) (forks : List Fork) (heap : Heap) where
  exec_slot_after :
      (r : Option (List Bytes)) (h1 : Heap)
      → replace_relative_path_array env argv heap ≡ some (r, h1)
      → Outcome (codes "./") (used_cur_abs_path env) argv heap r h1
      → (s : ℤ × ℤ × List Fork × Heap) → exec_slot env argv n forks heap ≡ some s
      → Slot n heap s
  unfolding exec_slot
  exec_slot_after none h1 e o s h = ground arith
  exec_slot_after (some args) h1 e o s h = (
    λ ok.
        ground
          (arith, increment-nonneg ((run_background_command_out_log (fork forks).0).1 == 0) n ok),
    ground arith,
  )

exec_slot-Slot :
    (env : ExecEnv) (argv : List Bytes) (n : ℤ) (forks : List Fork) (heap : Heap)
    (s : ℤ × ℤ × List Fork × Heap)
    → exec_slot env argv n forks heap ≡ some s
    → Slot n heap s
exec_slot-Slot env argv n forks heap s h =
    let (r, h1, e, o) = replace_relative_path_array-Outcome env argv heap in
    exec_slot_after env argv n forks heap r h1 e o s h

-- What the caller of `exec_exited_child_processes` can rely on.
abbrev pub Restarted : List ℤ → Heap → Exec → Type 0
Restarted process_ids heap e =
    Keeps process_ids e.process_ids × (nonneg e.n_run_procs ≡ true) × (e.heap.live ≡ heap.live)

keep_slot-Restarted :
    (p q : ℤ) (ps : List ℤ) (heap : Heap) (rest : Option Exec)
    → (is_dead p ≡ true) ⊎ (q ≡ p)
    → ((e : Exec) → rest ≡ some e → Restarted ps heap e)
    → (e : Exec) → keep_slot q rest ≡ some e
    → Restarted (p ∷ ps) heap e
keep_slot-Restarted p q ps heap none same ih e h = absurd (cc h)
keep_slot-Restarted p q ps heap (some e0) same ih e h =
    let (k, n, l) = ih e0 refl in
    let back : record e0 { process_ids = q ∷ e0.process_ids } ≡ e = ground arith in
    subst (Restarted (p ∷ ps) heap) back ((same, k), n, l)

exec_slots-Restarted :
    (env : ExecEnv) (argvs : List (List Bytes)) (ps : List ℤ) (n : ℤ) (forks : List Fork)
    (heap : Heap)
    → nonneg n ≡ true
    → (e : Exec) → exec_slots env argvs ps n forks heap ≡ some e
    → Restarted ps heap e
unfolding exec_slots
exec_slots-Restarted env argvs [] n forks heap ok e h =
    subst (Restarted [] heap)
      (let back : record { process_ids = []; n_run_procs = n; forks = forks; heap = heap } ≡ e =
          ground arith in
        back)
      (tt, ok, refl)
exec_slots-Restarted env [] (p ∷ ps) n forks heap ok e h = absurd (cc h)
exec_slots-Restarted env (argv ∷ argvs) (p ∷ ps) n forks heap ok e h =
    elim (Bool-cases (is_dead p)) [
      | inr lives ↦
          keep_slot-Restarted p p ps heap (exec_slots env argvs ps n forks heap) (inr refl)
            (exec_slots-Restarted env argvs ps n forks heap ok) e (ground arith)
      | inl dead ↦ elim (Option-cases (exec_slot env argv n forks heap)) [
        | inl e0 ↦ absurd (ground arith)
        | inr (s, es) ↦
            let (ok', l) = exec_slot-Slot env argv n forks heap s es in
            keep_slot-Restarted p s.0 ps heap (exec_slots env argvs ps s.1 s.2 s.3) (inl dead)
              (λ e1 h1.
                let (k, n', l') = exec_slots-Restarted env argvs ps s.1 s.2 s.3 (ok' ok) e1 h1 in
                (k, n', l' ∙ l))
              e (ground arith)
      ]
    ]

-- Unless it dereferences a NULL array, `exec_exited_child_processes` leaves each slot of a living
-- child alone, returns a count that is never negative, also when a `fork` fails, and leaves no
-- block allocated.
pub exec_exited_child_processes-Restarted :
    (env : ExecEnv) (argvs : List (List Bytes)) (process_ids : List ℤ) (forks : List Fork)
    (heap : Heap) (e : Exec)
    → exec_exited_child_processes env argvs process_ids forks heap ≡ some e
    → Restarted process_ids heap e
unfolding exec_exited_child_processes
exec_exited_child_processes-Restarted env argvs process_ids forks heap e h =
    exec_slots-Restarted env argvs process_ids (pos 0) forks heap refl e h
