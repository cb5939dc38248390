-- ===== src/Proc/Pipes.antt =====
-- src/proc_helper.c, lines 516 to 817: children with a pipe, in the parent. What the operating system
-- answers is an argument; `fds` is the number of descriptors that the parent has open.
pub mod Text
pub mod Descriptors
use alarm4pi.Prelude.{
  ℕ, ◌+◌, ◌-◌, ℤ, pos, minus_one, Bool, true, false, not, ◌&&◌, ◌||◌, Option, none, some, List, [],
  ◌∷◌, ◌++◌, ◌==◌, ltb, if◌then◌else◌, length, take, drop, eintr,
}
use alarm4pi.CString.{Bytes}
use alarm4pi.Proc.Children.{Fork, child, failed}

-- PROC_OUTPUT_READ_TIMEOUT, in seconds, and MIN_VALID_PROC_OUTPUT.
abbrev pub proc_output_read_timeout : ℕ
proc_output_read_timeout = 12

abbrev pub min_valid_proc_output : ℕ
min_valid_proc_output = 30

-- After `fork` in the parent: the PID, the code and the descriptors. Each end of the pipe is closed,
-- but the one that the caller wants.
unfoldable pub fork_answered : Bool → Fork → ℕ → (ℤ × ℕ) × ℕ
fork_answered wanted (child pid) fds = ((pos pid, 0), (if wanted then fds - 1 else fds - 1 - 1))
fork_answered wanted (failed errno) fds = ((minus_one, errno), fds - 1 - 1)

-- `pipe_error` is the errno of a `pipe` that fails. The PID (which a failing `pipe` leaves as it was),
-- the code and the descriptors.
unfoldable pub run_background_command_out_fd : Option ℕ → Fork → Bool → ℤ → ℕ → (ℤ × ℕ) × ℕ
unfolding fork_answered
run_background_command_out_fd none answer wanted pid fds = fork_answered wanted answer (fds + 2)
run_background_command_out_fd (some pipe_error) answer wanted pid fds = ((pid, pipe_error), fds)

-- The same code with the ends of the pipe exchanged.
unfoldable pub run_background_command_in_fd : Option ℕ → Fork → Bool → ℤ → ℕ → (ℤ × ℕ) × ℕ
unfolding fork_answered
run_background_command_in_fd none answer wanted pid fds = fork_answered wanted answer (fds + 2)
run_background_command_in_fd (some pipe_error) answer wanted pid fds = ((pid, pipe_error), fds)

-- What `select` answers, with what `read` or `write` then does: the bytes that are there to read
-- (none at the end of the file), or the number of bytes that the pipe takes.
pub data Answer (A : Type 0) : Type 0 where
  ready : A → Answer A
  ready_failed : ℕ → Answer A
  timeout : Answer A
  select_failed : ℕ → Answer A

-- One iteration: the answer, and the whole seconds elapsed at its end.
pub record Turn (A : Type 0) : Type 0 where
  pub answer : Answer A
  pub tv_sec : ℕ

-- num_fds_ready, with errno when it is -1.
pub data NumFdsReady : Type 0 where
  some_ready none_ready interrupted : NumFdsReady
  broken : ℕ → NumFdsReady

abbrev pub of_errno : ℕ → NumFdsReady
of_errno errno = if errno == eintr then interrupted else broken errno

-- num_fds_ready >= 0 || (num_fds_ready == -1 && errno == EINTR)
abbrev pub is_fine : NumFdsReady → Bool
is_fine (broken errno) = false
is_fine _ = true

abbrev pub is_none_ready : NumFdsReady → Bool
is_none_ready none_ready = true
is_none_ready _ = false

unfoldable pub code_after : NumFdsReady → ℕ
code_after (broken errno) = errno
code_after _ = 0

-- The end of the file, or the array and the answer at the end of the iteration.
pub data Turned : Type 0 where
  end_of_file : Turned
  turned : Bytes → NumFdsReady → Turned

unfoldable pub chunk_read : Bytes → Bytes → Turned
chunk_read output [] = end_of_file
chunk_read output (c ∷ cs) = turned (output ++ (c ∷ cs)) some_ready

-- `read` gives at most the bytes that it is asked for.
unfoldable pub read_turn : ℕ → Bytes → Answer Bytes → Turned
unfolding chunk_read
read_turn output_array_len output (ready there) =
    chunk_read output (take (output_array_len - length output - 1) there)
read_turn output_array_len output (ready_failed errno) = turned output (of_errno errno)
read_turn output_array_len output timeout = turned output none_ready
read_turn output_array_len output (select_failed errno) = turned output (of_errno errno)

abbrev pub reads_on : ℕ → ℕ → Bytes → NumFdsReady → Bool
reads_on output_array_len tv_sec output fds_ready =
    is_fine fds_ready
    && ltb tv_sec proc_output_read_timeout
    && ltb (length output) (output_array_len - 1)
    && (not (is_none_ready fds_ready) || ltb (length output) min_valid_proc_output)

-- The loop: the text read, and the code when it has ended.
unfoldable pub read_output : ℕ → List (Turn Bytes) → Bytes → Bytes × Option ℕ
unfolding read_turn code_after
read_output output_array_len [] output = (output, none)
read_output output_array_len (t ∷ ts) output = elim (read_turn output_array_len output t.answer) [
  | end_of_file ↦ (output, some 0)
  | turned output1 fds_ready ↦ elim (reads_on output_array_len t.tv_sec output1 fds_ready) [
    | true ↦ read_output output_array_len ts output1
    | false ↦ (output1, some (code_after fds_ready))
  ]
]

-- The PID, the text in `output_array` if it is written, the code when the function has returned, and
-- the descriptors.
unfoldable pub run_background_command_out_array :
    Option ℕ → Fork → ℕ → List (Turn Bytes) → ℤ → ℕ → ℤ × Option Bytes × Option ℕ × ℕ
unfolding run_background_command_out_fd read_output
run_background_command_out_array pipe_error answer output_array_len turns pid fds =
    let ((pid1, ret), fds1) = run_background_command_out_fd pipe_error answer true pid fds in
    if ret == 0
    then (let (output, code) = read_output output_array_len turns [] in
        (pid1, some output, code, fds1))
    else (pid1, none, some ret, fds1)

-- What went through the pipe: `num_input_chars`, and the bytes themselves.
pub record Sent : Type 0 where
  pub num_input_chars : ℕ
  pub bytes : Bytes

-- `write` of the pending bytes, of which the pipe takes at most `room`.
unfoldable pub bytes_written : Bytes → ℕ → ℕ → Bytes
bytes_written input_array num_input_chars room =
    take room (take (length input_array - num_input_chars) (drop num_input_chars input_array))

-- What is sent and the answer, after one iteration.
unfoldable pub write_turn : Bytes → Sent → Answer ℕ → Sent × NumFdsReady
unfolding bytes_written
write_turn input_array s (ready room) =
    let written = bytes_written input_array s.num_input_chars room in
    (
      record { num_input_chars = s.num_input_chars + length written; bytes = s.bytes ++ written },
      some_ready,
    )
write_turn input_array s (ready_failed errno) = (s, of_errno errno)
write_turn input_array s timeout = (s, none_ready)
write_turn input_array s (select_failed errno) = (s, of_errno errno)

abbrev pub writes_on : ℕ → ℕ → ℕ → NumFdsReady → Bool
writes_on input_array_len tv_sec num_input_chars fds_ready =
    is_fine fds_ready && ltb tv_sec proc_output_read_timeout && ltb num_input_chars input_array_len

unfoldable pub write_input : Bytes → List (Turn ℕ) → Sent → Sent × Option ℕ
unfolding write_turn code_after
write_input input_array [] s = (s, none)
write_input input_array (t ∷ ts) s =
    let (s1, fds_ready) = write_turn input_array s t.answer in
    elim (writes_on (length input_array) t.tv_sec s1.num_input_chars fds_ready) [
      | true ↦ write_input input_array ts s1
      | false ↦ (s1, some (code_after fds_ready))
    ]

abbrev pub nothing_sent : Sent
nothing_sent = record { num_input_chars = 0; bytes = [] }

-- The PID, what was sent, the code when the function has returned, and the descriptors.
unfoldable pub run_background_command_in_array :
    Option ℕ → Fork → Bytes → List (Turn ℕ) → ℤ → ℕ → ℤ × Sent × Option ℕ × ℕ
unfolding run_background_command_in_fd write_input
run_background_command_in_array pipe_error answer input_array turns pid fds =
    let ((pid1, ret), fds1) = run_background_command_in_fd pipe_error answer true pid fds in
    if ret == 0
    then (let (s, code) = write_input input_array turns nothing_sent in
        (pid1, s, code, elim code [ none ↦ fds1 | some c ↦ fds1 - 1 ]))
    else (pid1, nothing_sent, some ret, fds1)
