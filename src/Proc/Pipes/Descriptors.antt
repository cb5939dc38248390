-- ===== src/Proc/Pipes/Descriptors.antt =====
-- The descriptors of the pipes of src/proc_helper.c in the parent.
use alarm4pi.Prelude.{
  ℕ, ◌+◌, ◌≡◌, refl, ℤ, true, false, Option, none, some, List, [], arith, ◌==◌, Option-cases, inl,
  inr, ◌⊎◌,
}
use alarm4pi.CString.{Bytes}
use alarm4pi.Proc.Children.{Fork, child, failed}
use alarm4pi.Proc.Pipes.{
  Turn, fork_answered, run_background_command_out_fd, run_background_command_in_fd, read_output,
  write_input, nothing_sent, run_background_command_out_array, run_background_command_in_array,
}
use alarm4pi.Proc.Pipes.Text.{has_errno}

-- Code 0 with one more descriptor, or another code with those before.
abbrev pub OneMore : ℕ → (ℤ × ℕ) × ℕ → Type 0
OneMore fds r = (((r.0.1 == 0) ≡ true) × (r.1 ≡ fds + 1)) ⊎ (((r.0.1 == 0) ≡ false) × (r.1 ≡ fds))

-- A call that fails has an errno.
abbrev pub fork_errno : Fork → Option ℕ
fork_errno (child pid) = none
fork_errno (failed errno) = some errno

fork_answered-OneMore :
    (answer : Fork) (fds : ℕ)
    → has_errno (fork_errno answer) ≡ true
    → OneMore fds (fork_answered true answer (fds + 2))
unfolding fork_answered
fork_answered-OneMore (child pid) fds h = inl (refl, omega arith)
fork_answered-OneMore (failed errno) fds h = inr (ground arith, omega arith)

out_fd-OneMore :
    (pipe_error : Option ℕ) (answer : Fork) (pid : ℤ) (fds : ℕ)
    → has_errno pipe_error ≡ true
    → has_errno (fork_errno answer) ≡ true
    → OneMore fds (run_background_command_out_fd pipe_error answer true pid fds)
unfolding run_background_command_out_fd
out_fd-OneMore none answer pid fds h f = fork_answered-OneMore answer fds f
out_fd-OneMore (some e) answer pid fds h f = inr (ground arith, refl)

in_fd-OneMore :
    (pipe_error : Option ℕ) (answer : Fork) (pid : ℤ) (fds : ℕ)
    → has_errno pipe_error ≡ true
    → has_errno (fork_errno answer) ≡ true
    → OneMore fds (run_background_command_in_fd pipe_error answer true pid fds)
unfolding run_background_command_in_fd
in_fd-OneMore none answer pid fds h f = fork_answered-OneMore answer fds f
in_fd-OneMore (some e) answer pid fds h f = inr (ground arith, refl)

-- If a `pipe` or a `fork` that fails has an errno, `run_background_command_out_array` leaves the end of the pipe
-- that it reads open whenever it has written the array, and nothing else.
pub run_background_command_out_array_keeps :
    (pipe_error : Option ℕ) (answer : Fork) (output_array_len : ℕ) (turns : List (Turn Bytes))
    (pid : ℤ) (fds : ℕ)
    → has_errno pipe_error ≡ true
    → has_errno (fork_errno answer) ≡ true
    → let r = run_background_command_out_array pipe_error answer output_array_len turns pid fds in
      ((r.1 ≡ none) × (r.3 ≡ fds)) ⊎ ((text : Bytes) × (r.1 ≡ some text) × (r.3 ≡ fds + 1))
unfolding run_background_command_out_array
run_background_command_out_array_keeps pipe_error answer len turns pid fds h f =
    elim (out_fd-OneMore pipe_error answer pid fds h f) [
      | inl (e, n) ↦ rw e (inr ((read_output len turns []).0, refl, n))
      | inr (e, n) ↦ rw e (inl (refl, n))
    ]

-- If a `pipe` or a `fork` that fails has an errno, `run_background_command_in_array` has closed both ends of the
-- pipe when it returns, on each of its branches.
pub run_background_command_in_array_closes :
    (pipe_error : Option ℕ) (answer : Fork) (input_array : Bytes) (turns : List (Turn ℕ)) (pid : ℤ)
    (fds : ℕ)
    → has_errno pipe_error ≡ true
    → has_errno (fork_errno answer) ≡ true
    → let r = run_background_command_in_array pipe_error answer input_array turns pid fds in
      (r.2 ≡ none) ⊎ (r.3 ≡ fds)
unfolding run_background_command_in_array
run_background_command_in_array_closes pipe_error answer input turns pid fds h f =
    elim (in_fd-OneMore pipe_error answer pid fds h f) [
      | inr (e, n) ↦ rw e (inr n)
      | inl (e, n) ↦ elim (Option-cases (write_input input turns nothing_sent).1) [
        | inl waits ↦ rw e (inl waits)
        | inr (c, ends) ↦ rw (e, ends) (inr (omega arith))
      ]
    ]
