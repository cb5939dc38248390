-- ===== src/Proc/Children/Revive.antt =====
-- `exec_exited_child_processes` of src/proc_helper.c when the system gives what it asks for.
use alarm4pi.Prelude.{
  ℕ, zero, suc, ◌+◌, ◌≤◌, ◌≡◌, refl, ℤ, pos, some, List, [], ◌∷◌, arith, length, Bool-cases, inl,
  inr, if◌then◌else◌,
}
use alarm4pi.CString.{Bytes}
use alarm4pi.Proc.Paths.{ExecEnv}
use alarm4pi.Proc.Args.{Heap, free_substring_array}
use alarm4pi.Proc.Args.Granted.{
  Plenty, replace_relative_path_array-Plenty, free_substring_array-Plenty,
}
use alarm4pi.Proc.Children.{
  is_dead, Fork, child, failed, fork, run_background_command_out_log, increment, Exec, exec_slot,
  exec_slots, exec_exited_child_processes, count_running_child_processes,
}

-- The next `n` calls of `fork` create a child.
abbrev pub Children : ℕ → List Fork → Type 0
Children zero fs = Unit {0}
Children (suc n) [] = ⊥
Children (suc n) (failed e ∷ fs) = ⊥
Children (suc n) (child pid ∷ fs) = Children n fs

abbrev pub dead_slots : List ℤ → ℕ
dead_slots [] = 0
dead_slots (p ∷ ps) = let rest = dead_slots ps in if is_dead p then suc rest else rest

next_child :
    (n : ℕ) (fs : List Fork)
    → Children (suc n) fs
    → (pid : ℕ) × (fs' : List Fork) × (fs ≡ child pid ∷ fs') × Children n fs'
next_child n [] c = absurd c
next_child n (failed e ∷ fs) c = absurd c
next_child n (child pid ∷ fs) c = (pid, fs, refl, c)

exec_slot_revives :
    (env : ExecEnv) (argv : List Bytes) (m pid : ℕ) (fs fs' : List Fork) (heap : Heap)
    → Plenty heap
    → fs ≡ child pid ∷ fs'
    → (h' : Heap) × (exec_slot env argv (pos m) fs heap ≡ some (pos pid, pos (m + 1), fs', h'))
      × Plenty h'
unfolding exec_slot fork run_background_command_out_log increment
exec_slot_revives env argv m pid fs fs' heap p f =
    let (args, h1, e, p1) = replace_relative_path_array-Plenty env argv heap p in
    (
      free_substring_array args h1,
      rw (e, exec_slot) (ground arith),
      free_substring_array-Plenty args h1 p1,
    )

exec_slots_revive :
    (env : ExecEnv) (argvs : List (List Bytes)) (ps : List ℤ) (m : ℕ) (fs : List Fork) (heap : Heap)
    → Plenty heap
    → length ps ≤ length argvs
    → Children (dead_slots ps) fs
    → (e : Exec) × (exec_slots env argvs ps (pos m) fs heap ≡ some e)
      × (count_running_child_processes e.process_ids ≡ length ps)
      × (e.n_run_procs ≡ pos (m + dead_slots ps))
unfolding exec_slots count_running_child_processes
exec_slots_revive env argvs [] m fs heap p le c = (
  record { process_ids = []; n_run_procs = pos m; forks = fs; heap = heap },
  refl,
  refl,
  ground arith,
)
exec_slots_revive env [] (q ∷ ps) m fs heap p le c = absurd (omega arith)
exec_slots_revive env (argv ∷ argvs) (q ∷ ps) m fs heap p le c = elim (Bool-cases (is_dead q)) [
  | inr lives ↦
      let (e, ee, run, n) =
        exec_slots_revive env argvs ps m fs heap p (omega arith) (rw lives at c) in
      (record e { process_ids = q ∷ e.process_ids }, ground arith, ground arith, ground arith)
  | inl dead ↦
      let (pid, fs', f, c') = next_child (dead_slots ps) fs (rw dead at c) in
      let (h', s, p') = exec_slot_revives env argv m pid fs fs' heap p f in
      let (e, ee, run, n) = exec_slots_revive env argvs ps (m + 1) fs' h' p' (omega arith) c' in
      (record e { process_ids = pos pid ∷ e.process_ids }, ground arith, ground arith, ground arith)
]

-- If every `malloc` succeeds, the next calls of `fork` create a child for each dead slot, and each
-- slot has an argument list, then no NULL array is dereferenced, every slot holds a living child
-- afterwards, and the count returned is the number of slots that were dead.
pub exec_exited_child_processes_revive :
    (env : ExecEnv) (argvs : List (List Bytes)) (process_ids : List ℤ) (forks : List Fork)
    (heap : Heap)
    → Plenty heap
    → length process_ids ≤ length argvs
    → Children (dead_slots process_ids) forks
    → (e : Exec) × (exec_exited_child_processes env argvs process_ids forks heap ≡ some e)
      × (count_running_child_processes e.process_ids ≡ length process_ids)
      × (e.n_run_procs ≡ pos (dead_slots process_ids))
unfolding exec_exited_child_processes
exec_exited_child_processes_revive env argvs process_ids forks heap p le c =
    let (e, ee, run, n) = exec_slots_revive env argvs process_ids 0 forks heap p le c in
    (e, ee, run, ground arith)
