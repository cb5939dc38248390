-- ===== src/Tests/OnProc.antt =====
-- The theorems on src/proc_helper.c at concrete inputs.
use alarm4pi.Prelude.{
  ℕ, ◌+◌, ◌*◌, ◌≤◌, ◌≡◌, refl, ℤ, pos, minus_one, true, false, Option, none, some, List, [], ◌∷◌,
  map, arith, length, inl, inr,
}
use alarm4pi.CString.{Bytes, codes}
use alarm4pi.Proc.Substrings.{
  initial_strstr, count_initial_substrings, replace_initial_substrings, alloc_size,
}
use alarm4pi.Proc.Substrings.FirstWord.{IsFirst, initial_strstr-IsFirst}
use alarm4pi.Proc.Substrings.Replace.{
  Replaced, replace_initial_substrings-Replaced, alloc_size_exact,
}
use alarm4pi.Proc.Paths.{ExecEnv, target}
use alarm4pi.Proc.Args.{Heap, replace_initial_substring_array}
use alarm4pi.Proc.Args.Memory.{Outcome, replace_initial_substring_array-Outcome}
use alarm4pi.Proc.Children.{
  exited, Reports, Fork, child, Exec, count_running_child_processes, update_child_processes_state,
  mark_changed, mark_dead, exec_exited_child_processes,
}
use alarm4pi.Proc.Children.Reap.{bury, update_child_processes_state-bury}
use alarm4pi.Proc.Children.Restart.{Restarted, exec_exited_child_processes-Restarted}
use alarm4pi.Proc.Children.Revive.{exec_exited_child_processes_revive}
use alarm4pi.Proc.Wait.{
  sigchld, timeout, Round, Wait, returned, on_sigchld, on_timeout, round, wait_loop, Setup,
  wait_child_processes,
}
use alarm4pi.Proc.Wait.Safety.{Safe, wait_child_processes-Safe}
use alarm4pi.Proc.Wait.Exit.{Finished, wait_child_processes-Finished, wait_child_processes-Exiting}

abbrev a_command : Bytes
a_command = codes "a./b ./c ./d"

abbrev here : Bytes
here = codes "./"

abbrev there : Bytes
there = codes "/opt/alarm/"

initial_strstr-IsFirst_example :
    (r : Option ℕ) × (initial_strstr a_command here ≡ some r) × IsFirst a_command here r
initial_strstr-IsFirst_example = initial_strstr-IsFirst a_command here (omega arith)

replace_initial_substrings-Replaced_example :
    (out : Bytes) × (replace_initial_substrings a_command here there ≡ some out)
    × Replaced here there a_command out
replace_initial_substrings-Replaced_example =
    replace_initial_substrings-Replaced a_command here there (omega arith)

alloc_size_exact_example :
    (n : ℕ) × (out : Bytes) × (count_initial_substrings a_command here ≡ some n)
    × (n * length here ≤ length a_command)
    × (replace_initial_substrings a_command here there ≡ some out)
    × (alloc_size a_command here there ≡ some (length out + 1))
alloc_size_exact_example = alloc_size_exact a_command here there (omega arith) (omega arith)

abbrev an_env : ExecEnv
an_env = record {
  self_exe = target (codes "/opt/alarm/alarm4pi");
  dirname = λ t. codes "/opt/alarm";
  errno = 0;
}

abbrev an_argv : List Bytes
an_argv = codes "./mjpg_streamer" ∷ codes "-o ./www" ∷ []

-- The array and the first string are allocated, the second string is not.
abbrev short_heap : Heap
short_heap = record { granted = true ∷ true ∷ false ∷ []; live = 4 }

replace_initial_substring_array-Outcome_example :
    (r : Option (List Bytes)) × (h' : Heap) × (replace_initial_substring_array an_argv here there
        short_heap
      ≡ some (r, h'))
    × Outcome here there an_argv short_heap r h'
replace_initial_substring_array-Outcome_example =
    replace_initial_substring_array-Outcome here there (omega arith) an_argv short_heap

abbrev three_slots : List ℤ
three_slots = pos 10 ∷ minus_one ∷ pos 12 ∷ []

abbrev one_exited : Reports
one_exited = record { changed = (12, exited 0) ∷ []; failure = some 10 }

update_child_processes_state-bury_example :
    (update_child_processes_state three_slots one_exited).0
    ≡ map (bury one_exited.changed) three_slots
update_child_processes_state-bury_example =
    update_child_processes_state-bury three_slots one_exited
      (inr (refl, (refl, tt)), (inl refl, (inr tt, tt)))

abbrev three_argvs : List (List Bytes)
three_argvs = an_argv ∷ an_argv ∷ an_argv ∷ []

abbrev full_heap : Heap
full_heap = record { granted = []; live = 4 }

abbrev one_child : List Fork
one_child = child 33 ∷ []

revived :
    (e : Exec) × (exec_exited_child_processes an_env three_argvs three_slots one_child full_heap
      ≡ some e)
    × (count_running_child_processes e.process_ids ≡ length three_slots)
    × (e.n_run_procs ≡ pos 1)
revived =
    exec_exited_child_processes_revive an_env three_argvs three_slots one_child full_heap refl
      (omega arith) tt

exec_exited_child_processes_revive_example :
    (e : Exec) × (exec_exited_child_processes an_env three_argvs three_slots one_child full_heap
      ≡ some e)
    × (count_running_child_processes e.process_ids ≡ length three_slots)
    × (e.n_run_procs ≡ pos 1)
exec_exited_child_processes_revive_example =
    exec_exited_child_processes_revive an_env three_argvs three_slots one_child full_heap refl
      (omega arith) tt

exec_exited_child_processes-Restarted_example : Restarted three_slots full_heap revived.0
exec_exited_child_processes-Restarted_example =
    exec_exited_child_processes-Restarted an_env three_argvs three_slots one_child full_heap
      revived.0 revived.1

abbrev clean_setup : Setup
clean_setup = record {
  sigset_error = none;
  block_error = none;
  already = record { changed = []; failure = none };
  restore_error = none;
}

-- The only child exits after the exit flag is set.
abbrev last_rounds : List Round
last_rounds =
    record { exit_at_test = true; signal = timeout; exit_at_retry = true }
    ∷ record {
      exit_at_test = true;
      signal = sigchld (record { changed = (7, exited 0) ∷ []; failure = none });
      exit_at_retry = true;
    }
    ∷ record { exit_at_test = true; signal = timeout; exit_at_retry = true }
    ∷ []

abbrev one_running : Wait
one_running = record {
  process_ids = pos 7 ∷ [];
  exec_retries_left = minus_one;
  forks = [];
  heap = full_heap;
}

abbrev none_running : Wait
none_running = record one_running { process_ids = minus_one ∷ [] }

ends :
    wait_child_processes an_env (an_argv ∷ []) clean_setup last_rounds one_running
    ≡ (none_running, returned 0)
unfolding wait_child_processes wait_loop round on_sigchld on_timeout update_child_processes_state
    mark_changed mark_dead count_running_child_processes
ends = refl

wait_child_processes-Finished_example : Finished last_rounds none_running
wait_child_processes-Finished_example =
    wait_child_processes-Finished an_env (an_argv ∷ []) clean_setup last_rounds one_running
      none_running (refl, refl, refl) ends

wait_child_processes-Exiting_example :
    ((wait_child_processes an_env (an_argv ∷ []) clean_setup last_rounds one_running).0.forks ≡ [])
    × ((wait_child_processes an_env (an_argv ∷ []) clean_setup last_rounds one_running).0.heap
        ≡ full_heap)
wait_child_processes-Exiting_example =
    wait_child_processes-Exiting an_env (an_argv ∷ []) clean_setup last_rounds one_running
      (refl, (refl, (refl, tt)))

wait_child_processes-Safe_example :
    Safe one_running
      (wait_child_processes an_env (an_argv ∷ []) clean_setup last_rounds one_running).0
wait_child_processes-Safe_example =
    wait_child_processes-Safe an_env (an_argv ∷ []) clean_setup last_rounds one_running
