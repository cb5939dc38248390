-- ===== src/Proc/Time/Elapsed.antt =====
-- The times that src/proc_helper.c measures and asks for.
use alarm4pi.Prelude.{ℕ, ◌+◌, ◌*◌, ◌≤◌, ◌<◌, ◌≡◌, some, List, [], ◌∷◌, arith, Bool-cases, inl, inr}
use alarm4pi.Proc.Time.{
  Timespec, time_since, get_elapsed_time, Nanosleep, slept, interrupted, failed, is_left,
  time_to_wait, sleep_loop, millisleep,
}

abbrev pub nanoseconds : Timespec → ℕ
nanoseconds t = t.tv_sec * 1000000000 + t.tv_nsec

-- The nanoseconds are less than a second.
abbrev pub IsTime : Timespec → Type 0
IsTime t = t.tv_nsec < 1000000000

-- Of two times of a clock that does not go back, `get_elapsed_time` gives the exact difference, as a
-- time with less than a second of nanoseconds.
pub get_elapsed_time_exact :
    (since curr : Timespec)
    → IsTime since
    → IsTime curr
    → nanoseconds since ≤ nanoseconds curr
    → (nanoseconds since + nanoseconds (get_elapsed_time (some since) (some curr))
        ≡ nanoseconds curr)
      × IsTime (get_elapsed_time (some since) (some curr))
unfolding get_elapsed_time time_since
get_elapsed_time_exact since curr s c le = (ground arith, ground arith)

time_to_wait_exact :
    (ms_pause : ℕ)
    → (nanoseconds (time_to_wait ms_pause) ≡ ms_pause * 1000000) × IsTime (time_to_wait ms_pause)
unfolding time_to_wait
time_to_wait_exact ms = (omega arith, omega arith)

-- An interrupted `nanosleep` leaves no more time than it was asked for.
abbrev pub Remains : Timespec → List Nanosleep → Type 0
Remains t [] = Unit
Remains t (interrupted rest ∷ answers) =
    (IsTime rest × (nanoseconds rest ≤ nanoseconds t)) × Remains rest answers
Remains t (_ ∷ answers) = Unit

abbrev pub AllAsked : ℕ → List Timespec → Type 0
AllAsked n [] = Unit
AllAsked n (t ∷ ts) = (IsTime t × (nanoseconds t ≤ n)) × AllAsked n ts

sleep_loop-AllAsked :
    (answers : List Nanosleep) (t : Timespec) (n : ℕ)
    → Remains t answers
    → IsTime t
    → nanoseconds t ≤ n
    → AllAsked n (sleep_loop answers t).1
unfolding sleep_loop
sleep_loop-AllAsked [] t n r v le = tt
sleep_loop-AllAsked (slept ∷ answers) t n r v le = ((v, le), tt)
sleep_loop-AllAsked (failed ∷ answers) t n r v le = ((v, le), tt)
sleep_loop-AllAsked (interrupted rest ∷ answers) t n ((v', le'), r) v le =
    elim (Bool-cases (is_left rest)) [
      | inl more ↦ rw more ((v, le), sleep_loop-AllAsked answers rest n r v' (omega arith))
      | inr done ↦ rw done ((v, le), tt)
    ]

-- If an interrupted `nanosleep` leaves no more time than it was asked for, then each time that
-- `millisleep` asks for is one that `nanosleep` accepts, with less than a second of nanoseconds, and
-- is at most the pause.
pub millisleep-AllAsked :
    (answers : List Nanosleep) (ms_pause : ℕ)
    → Remains (time_to_wait ms_pause) answers
    → AllAsked (ms_pause * 1000000) (millisleep answers ms_pause).1
unfolding millisleep
millisleep-AllAsked answers ms r =
    let (exact, valid) = time_to_wait_exact ms in
    sleep_loop-AllAsked answers (time_to_wait ms) (ms * 1000000) r valid (omega arith)
