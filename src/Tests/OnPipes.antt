-- ===== src/Tests/OnPipes.antt =====
-- The theorems on the pipes of src/proc_helper.c at concrete inputs.
use alarm4pi.Prelude.{
  ℕ, ◌+◌, ◌≤◌, ◌≡◌, refl, minus_one, none, some, List, [], ◌∷◌, arith, length, ◌⊎◌,
}
use alarm4pi.CString.{Bytes, codes}
use alarm4pi.Proc.Children.{child}
use alarm4pi.Proc.Pipes.{
  Turn, ready, timeout, read_output, write_turn, write_input, bytes_written, Sent, nothing_sent,
  code_after, run_background_command_out_array, run_background_command_in_array,
}
use alarm4pi.Proc.Pipes.Text.{read_output_fits, read_output_ends, write_input_whole}
use alarm4pi.Proc.Pipes.Descriptors.{
  run_background_command_out_array_keeps, run_background_command_in_array_closes,
}

-- More text than fits, in two pieces, and then silence until the time is up.
abbrev some_output : List (Turn Bytes)
some_output =
    record { answer = ready (codes "created"); tv_sec = 0 }
    ∷ record { answer = timeout; tv_sec = 1 }
    ∷ record { answer = ready (codes "tunnel"); tv_sec = 12 }
    ∷ []

read_output_fits_example : length (read_output 10 some_output []).0 + 1 ≤ 10
read_output_fits_example = read_output_fits 10 some_output [] (omega arith)

read_output_ends_example : (code : ℕ) × ((read_output 10 some_output []).1 ≡ some code)
read_output_ends_example = read_output_ends 10 some_output [] refl

abbrev some_room : List (Turn ℕ)
some_room =
    record { answer = ready 4; tv_sec = 0 }
    ∷ record { answer = timeout; tv_sec = 0 }
    ∷ record { answer = ready 4; tv_sec = 1 }
    ∷ []

abbrev secret : Bytes
secret = codes "secret"

abbrev all_sent : Sent
all_sent = record { num_input_chars = 6; bytes = secret }

all_written : write_input secret some_room nothing_sent ≡ (all_sent, some 0)
unfolding write_input write_turn code_after bytes_written
all_written = refl

write_input_whole_example : all_sent.bytes ≡ secret
write_input_whole_example =
    write_input_whole secret some_room nothing_sent all_sent (refl, secret, refl) refl all_written

run_background_command_out_array_keeps_example :
    let r = run_background_command_out_array none (child 40) 10 some_output minus_one 3 in
    ((r.1 ≡ none) × (r.3 ≡ 3)) ⊎ ((text : Bytes) × (r.1 ≡ some text) × (r.3 ≡ 4))
run_background_command_out_array_keeps_example =
    run_background_command_out_array_keeps none (child 40) 10 some_output minus_one 3 refl refl

run_background_command_in_array_closes_example :
    let r = run_background_command_in_array none (child 40) secret some_room minus_one 3 in
    (r.2 ≡ none) ⊎ (r.3 ≡ 3)
run_background_command_in_array_closes_example =
    run_background_command_in_array_closes none (child 40) secret some_room minus_one 3 refl refl
