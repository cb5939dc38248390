-- ===== src/Proc/Wait.antt =====
-- `wait_child_processes` of src/proc_helper.c, lines 371 to 453. What the environment does is a list
-- of rounds; when it ends the function is still waiting.
pub mod Safety
pub mod Exit
use alarm4pi.Prelude.{
  ℕ, zero, suc, ◌-◌, ℤ, pos, negsuc, Bool, true, false, not, ◌&&◌, ◌||◌, Option, none, some, List,
  [], ◌∷◌, ◌==◌, ltb, if◌then◌else◌, eintr, eq_ℤ, minus_one,
}
use alarm4pi.CString.{Bytes}
use alarm4pi.Proc.Paths.{ExecEnv}
use alarm4pi.Proc.Args.{Heap}
use alarm4pi.Proc.Children.{
  Reports, Fork, Exec, positive, count_running_child_processes, update_child_processes_state,
  exec_exited_child_processes,
}

-- What `sigtimedwait` returns: SIGCHLD, with the reports that `waitpid` then gives; -1 with EAGAIN;
-- or -1 with another errno.
pub data Signal : Type 0 where
  sigchld : Reports → Signal
  timeout : Signal
  error : ℕ → Signal

-- One round of the loop: the exit flag at the test of the loop, the signal, and the exit flag when a
-- timeout tests it again.
pub record Round : Type 0 where
  pub exit_at_test : Bool
  pub signal : Signal
  pub exit_at_retry : Bool

pub record Wait : Type 0 where
  pub process_ids : List ℤ
  pub exec_retries_left : ℤ
  pub forks : List Fork
  pub heap : Heap

pub data End : Type 0 where
  returned : ℕ → End
  waiting fault : End

-- exec_retries_left>0 || exec_retries_left==-1
abbrev pub has_retries : ℤ → Bool
has_retries n = positive n || eq_ℤ n minus_one

abbrev pub goes_on : Wait → Bool → Bool
goes_on w exit_flag =
    ltb 0 (count_running_child_processes w.process_ids)
    || not exit_flag && has_retries w.exec_retries_left

unfoldable pub decrement : ℤ → ℤ
decrement (pos zero) = negsuc 0
decrement (pos (suc n)) = pos n
decrement (negsuc n) = negsuc (suc n)

unfoldable pub on_sigchld : Reports → Wait → Wait
on_sigchld r w = record w { process_ids = (update_child_processes_state w.process_ids r).0 }

retried : Wait → Exec → Wait
unfolding decrement
retried w e = record {
  process_ids = e.process_ids;
  exec_retries_left =
      if positive e.n_run_procs && positive w.exec_retries_left
      then decrement w.exec_retries_left
      else w.exec_retries_left;
  forks = e.forks;
  heap = e.heap;
}

-- `none` is the fault of `exec_exited_child_processes`.
unfoldable pub on_timeout : ExecEnv → List (List Bytes) → Bool → Wait → Option Wait
unfolding retried
on_timeout env argvs exit_flag w =
    if not exit_flag && has_retries w.exec_retries_left
    then elim (exec_exited_child_processes env argvs w.process_ids w.forks w.heap) [
      | none ↦ none
      | some e ↦ some (retried w e)
    ]
    else some w

-- EINTR is no error. (An errno of 0 would not end the loop either.)
abbrev pub ignored : ℕ → Bool
ignored errno = errno == eintr || errno == 0

-- The loop goes on from a state, or stops in one.
pub data Next : Type 0 where
  again : Wait → Next
  stop : Wait → End → Next

on_signal : ExecEnv → List (List Bytes) → Signal → Bool → Wait → Next
on_signal env argvs (sigchld reports) exit_flag w = again (on_sigchld reports w)
on_signal env argvs timeout exit_flag w = elim (on_timeout env argvs exit_flag w) [
  | none ↦ stop w fault
  | some w' ↦ again w'
]
on_signal env argvs (error errno) exit_flag w =
    if ignored errno then again w else stop w (returned errno)

-- The test of the `while` and its body.
unfoldable pub round : ExecEnv → List (List Bytes) → Round → Wait → Next
unfolding on_signal
round env argvs r w =
    if goes_on w r.exit_at_test
    then on_signal env argvs r.signal r.exit_at_retry w
    else stop w (returned 0)

-- The `while` loop.
unfoldable pub wait_loop : ExecEnv → List (List Bytes) → List Round → Wait → Wait × End
wait_loop env argvs [] w = (w, waiting)
wait_loop env argvs (r ∷ rounds) w = elim (round env argvs r w) [
  | again w' ↦ wait_loop env argvs rounds w'
  | stop w' e ↦ (w', e)
]

-- The answers around the loop: the errno of the calls on signal sets, of blocking SIGCHLD and of
-- restoring the mask, and the children that changed their state before SIGCHLD was blocked.
pub record Setup : Type 0 where
  pub sigset_error : Option ℕ
  pub block_error : Option ℕ
  pub already : Reports
  pub restore_error : Option ℕ

restored : Option ℕ → Wait × End → Wait × End
restored none r = r
restored (some errno) (w, returned ret) = (w, returned errno)
restored (some errno) (w, waiting) = (w, waiting)
restored (some errno) (w, fault) = (w, fault)

unfoldable pub wait_child_processes :
    ExecEnv → List (List Bytes) → Setup → List Round → Wait → Wait × End
unfolding restored
wait_child_processes env argvs s rounds w = elim s.sigset_error [
  | some errno ↦ (w, returned errno)
  | none ↦ elim s.block_error [
    | some errno ↦ (w, returned errno)
    | none ↦ restored s.restore_error (wait_loop env argvs rounds (on_sigchld s.already w))
  ]
]
