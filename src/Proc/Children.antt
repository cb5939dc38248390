-- ===== src/Proc/Children.antt =====
-- src/proc_helper.c, lines 275 to 514: the list of child processes. A slot of the list holds the PID
-- of a child, or -1. What the operating system answers is an argument. The messages that
-- `log_printf` writes are left out.
pub mod Reap
pub mod Restart
pub mod Revive
use alarm4pi.Prelude.{
  ℕ, zero, suc, ◌+◌, ℤ, pos, negsuc, eq_ℤ, minus_one, Bool, true, false, not, ◌&&◌, ◌||◌, Option,
  none, some, List, [], ◌∷◌, ◌==◌, ltb, if◌then◌else◌, length, echild, eagain,
}
use alarm4pi.CString.{Bytes}
use alarm4pi.Proc.Paths.{ExecEnv}
use alarm4pi.Proc.Args.{Heap, replace_relative_path_array, free_substring_array}

abbrev pub is_dead : ℤ → Bool
is_dead pid = eq_ℤ pid minus_one

-- The PIDs that SIGTERM is sent to, in order.
unfoldable pub kill_processes : List ℤ → List ℤ
kill_processes [] = []
kill_processes (pid ∷ process_ids) =
    let rest = kill_processes process_ids in if is_dead pid then rest else pid ∷ rest

unfoldable pub count_running_child_processes : List ℤ → ℕ
count_running_child_processes [] = 0
count_running_child_processes (pid ∷ process_ids) =
    let rest = count_running_child_processes process_ids in if is_dead pid then rest else suc rest

-- What `waitpid` reports of a child: WIFEXITED, WIFSIGNALED or another change.
pub data Status : Type 0 where
  exited signaled : ℕ → Status
  other : Status

-- The calls of `waitpid(-1, …, WNOHANG)` of one loop: children that changed their state, and then 0
-- or an error.
pub record Reports : Type 0 where
  pub changed : List (ℕ × Status)
  pub failure : Option ℕ

abbrev pub has_ended : Status → Bool
has_ended other = false
has_ended _ = true

-- The inner `for`: the first slot that holds the PID is marked as dead.
unfoldable pub mark_dead : List ℤ → ℕ → List ℤ
mark_dead [] wait_ret = []
mark_dead (pid ∷ process_ids) wait_ret =
    let rest = mark_dead process_ids wait_ret in
    if eq_ℤ pid (pos wait_ret) then minus_one ∷ process_ids else pid ∷ rest

unfoldable pub mark_changed : List ℤ → List (ℕ × Status) → List ℤ
mark_changed process_ids [] = process_ids
mark_changed process_ids ((wait_ret, status) ∷ reports) =
    mark_changed (if has_ended status then mark_dead process_ids wait_ret else process_ids) reports

-- ECHILD is no error.
unfoldable pub wait_error : Option ℕ → ℕ
wait_error none = 0
wait_error (some e) = if e == echild then 0 else e

unfoldable pub update_child_processes_state : List ℤ → Reports → List ℤ × ℕ
update_child_processes_state process_ids r =
    (mark_changed process_ids r.changed, wait_error r.failure)

-- What `fork` answers in the parent: the PID of the child, or the errno of the failure.
pub data Fork : Type 0 where
  child : ℕ → Fork
  failed : ℕ → Fork

-- Answers to come; when they end, EAGAIN.
unfoldable pub fork : List Fork → Fork × List Fork
fork [] = (failed eagain, [])
fork (f ∷ fs) = (f, fs)

-- The parent's side of `run_background_command_out_log`: the new PID and the code. (The files that
-- it flushes, and the child, which never returns to the caller, are left out.)
unfoldable pub run_background_command_out_log : Fork → ℤ × ℕ
run_background_command_out_log (child pid) = (pos pid, 0)
run_background_command_out_log (failed errno) = (minus_one, errno)

-- n_run_procs++
unfoldable pub increment : ℤ → ℤ
increment (pos n) = pos (n + 1)
increment (negsuc zero) = pos 0
increment (negsuc (suc n)) = negsuc n

abbrev pub nonneg : ℤ → Bool
nonneg (pos n) = true
nonneg (negsuc n) = false

abbrev pub positive : ℤ → Bool
positive (pos n) = ltb 0 n
positive (negsuc n) = false

pub record Exec : Type 0 where
  pub process_ids : List ℤ
  pub n_run_procs : ℤ
  pub forks : List Fork
  pub heap : Heap

-- A slot that is dead is executed again: the new PID, the count, the answers left and the heap.
-- `none` is the dereference of a NULL array.
unfoldable pub exec_slot :
    ExecEnv → List Bytes → ℤ → List Fork → Heap → Option (ℤ × ℤ × List Fork × Heap)
exec_slot env argv n_run_procs forks heap = elim (replace_relative_path_array env argv heap) [
  | none ↦ none
  | some (none, h1) ↦ none
  | some (some exec_abs_args, h1) ↦
      let (answer, forks1) = fork forks in
      let (pid, ret) = run_background_command_out_log answer in
      some (
        pid,
        increment (if ret == 0 then n_run_procs else minus_one),
        forks1,
        free_substring_array exec_abs_args h1,
      )
]

abbrev pub keep_slot : ℤ → Option Exec → Option Exec
keep_slot pid none = none
keep_slot pid (some e) = some (record e { process_ids = pid ∷ e.process_ids })

-- The `for` of `exec_exited_child_processes`; an argument list that is missing is a fault too.
unfoldable pub exec_slots :
    ExecEnv → List (List Bytes) → List ℤ → ℤ → List Fork → Heap → Option Exec
exec_slots env argvs [] n forks heap =
    some (record { process_ids = []; n_run_procs = n; forks = forks; heap = heap })
exec_slots env [] (pid ∷ process_ids) n forks heap = none
exec_slots env (argv ∷ argvs) (pid ∷ process_ids) n forks heap = elim (nonneg n) [
  | false ↦
      some (record { process_ids = pid ∷ process_ids; n_run_procs = n; forks = forks; heap = heap })
  | true ↦ elim (is_dead pid) [
    | false ↦ keep_slot pid (exec_slots env argvs process_ids n forks heap)
    | true ↦ elim (exec_slot env argv n forks heap) [
      | none ↦ none
      | some (pid', n', forks', heap') ↦
          keep_slot pid' (exec_slots env argvs process_ids n' forks' heap')
    ]
  ]
]

unfoldable pub exec_exited_child_processes :
    ExecEnv → List (List Bytes) → List ℤ → List Fork → Heap → Option Exec
exec_exited_child_processes env argvs process_ids forks heap =
    exec_slots env argvs process_ids (pos 0) forks heap
