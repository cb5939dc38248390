-- ===== src/Tests/OnTime.antt =====
-- The theorems on the times of src/proc_helper.c at concrete inputs.
use alarm4pi.Prelude.{◌+◌, ◌*◌, ◌≡◌, some, List, [], ◌∷◌, arith}
use alarm4pi.Proc.Time.{
  Timespec, get_elapsed_time, Nanosleep, slept, interrupted, time_to_wait, millisleep,
}
use alarm4pi.Proc.Time.Elapsed.{
  nanoseconds, IsTime, get_elapsed_time_exact, Remains, AllAsked, millisleep-AllAsked,
}

abbrev before : Timespec
before = record { tv_sec = 5; tv_nsec = 900000000 }

abbrev after : Timespec
after = record { tv_sec = 7; tv_nsec = 100000000 }

get_elapsed_time_exact_example :
    (nanoseconds before + nanoseconds (get_elapsed_time (some before) (some after))
      ≡ nanoseconds after)
    × IsTime (get_elapsed_time (some before) (some after))
get_elapsed_time_exact_example =
    get_elapsed_time_exact before after (omega arith) (omega arith) (omega arith)

abbrev one_signal : List Nanosleep
one_signal = interrupted (record { tv_sec = 0; tv_nsec = 400000000 }) ∷ slept ∷ []

one_signal-Remains : Remains (time_to_wait 1000) one_signal
unfolding time_to_wait
one_signal-Remains = ((omega arith, omega arith), tt)

millisleep-AllAsked_example : AllAsked (1000 * 1000000) (millisleep one_signal 1000).1
millisleep-AllAsked_example = millisleep-AllAsked one_signal 1000 one_signal-Remains
