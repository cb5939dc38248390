-- ===== src/Proc/Time.antt =====
-- src/proc_helper.c, lines 27 to 78: pauses and the time elapsed. Times are not negative, so that a
-- field is a natural number and a difference that would be negative is tested for before.
pub mod Elapsed
use alarm4pi.Prelude.{
  ℕ, ◌+◌, ◌-◌, ◌*◌, ◌/◌, ◌%◌, Bool, true, false, ◌||◌, Option, none, some, List, [], ◌∷◌, ◌==◌, ltb,
  leb, if◌then◌else◌,
}

-- struct timespec
pub record Timespec : Type 0 where
  pub tv_sec : ℕ
  pub tv_nsec : ℕ

-- `clock_gettime` gives `none` when it fails; `since_time` is `none` for NULL.
unfoldable pub time_since : Option Timespec → Timespec → Timespec
time_since none curr = curr
time_since (some since) curr =
    if ltb curr.tv_nsec since.tv_nsec
    then record {
      tv_sec = curr.tv_sec - since.tv_sec - 1;
      tv_nsec = curr.tv_nsec + 1000000000 - since.tv_nsec;
    }
    else record { tv_sec = curr.tv_sec - since.tv_sec; tv_nsec = curr.tv_nsec - since.tv_nsec }

unfoldable pub get_elapsed_time : Option Timespec → Option Timespec → Timespec
unfolding time_since
get_elapsed_time since_time none = record { tv_sec = 0; tv_nsec = 0 }
get_elapsed_time since_time (some curr) = time_since since_time curr

-- What `nanosleep` answers: it has slept, it was interrupted with that time left, or it failed with
-- another error.
pub data Nanosleep : Type 0 where
  slept : Nanosleep
  interrupted : Timespec → Nanosleep
  failed : Nanosleep

unfoldable pub time_to_wait : ℕ → Timespec
time_to_wait ms_pause = record { tv_sec = ms_pause / 1000; tv_nsec = ms_pause % 1000 * 1000000 }

-- At least 1 ms is left.
abbrev pub is_left : Timespec → Bool
is_left t = ltb 0 t.tv_sec || leb 1000000 t.tv_nsec

-- The `do` loop on the answers of `nanosleep`: whether it returns 0 or -1, or nothing yet; with the
-- times that `nanosleep` was asked for.
unfoldable pub sleep_loop : List Nanosleep → Timespec → Option Bool × List Timespec
sleep_loop [] t = (none, [])
sleep_loop (slept ∷ answers) t = (some true, t ∷ [])
sleep_loop (failed ∷ answers) t = (some false, t ∷ [])
sleep_loop (interrupted rest ∷ answers) t =
    let (ret, asked) = sleep_loop answers rest in
    if is_left rest then (ret, t ∷ asked) else (some true, t ∷ [])

unfoldable pub millisleep : List Nanosleep → ℕ → Option Bool × List Timespec
unfolding sleep_loop time_to_wait
millisleep answers ms_pause = sleep_loop answers (time_to_wait ms_pause)
