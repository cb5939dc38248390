-- ===== src/Daemon/Exit.antt =====
-- The polling thread of src/gpio_polling.c when it is told to exit, and the calls that its events make.
use alarm4pi.Prelude.{
  ℕ, ◌∙◌, ◌||◌, ◌∷◌, ℤ, pos, List, true, length, ◌≡◌, refl, Bool, false, not, [], ◌==◌, inl, inr,
  Bool-cases,
}
use alarm4pi.CString.{Bytes}
use alarm4pi.Gpio.Device.{Gpiod}
use alarm4pi.Gpio.{Gpio}
use alarm4pi.Polling.{Poll, poll_round, poll_rounds, polling_thread}
use alarm4pi.Web.{Web, WebOwnership}
use alarm4pi.Alarm.{Alarm, on_alarm_event}
use alarm4pi.Alarm.Keeps.{resolvers-on_alarm_event}
use alarm4pi.Alarm.Life.{AlarmCall, event_call, run_alarm_call, run_alarm_calls}
use alarm4pi.Daemon.{calls_of}

-- Some test of the exit flag reads that it is set.
abbrev pub is_exiting : List ℕ → Bool
is_exiting [] = false
is_exiting (exit_polling ∷ later) = not (exit_polling == 0) || is_exiting later

poll_rounds-ended :
    (lib : Gpiod) (exits : List ℕ) (s : List ℤ × Poll lib)
    → is_exiting exits ≡ true
    → (poll_rounds lib exits s).0 ≡ true
unfolding poll_rounds
poll_rounds-ended lib [] s h = absurd (cc h)
poll_rounds-ended lib (x ∷ xs) s h = elim (Bool-cases (x == 0)) [
  | inr e ↦ rw e refl
  | inl e ↦ rw e (poll_rounds-ended lib xs (poll_round lib s) (rw e at h))
]

pub polling_thread-ended :
    (lib : Gpiod) (exits : List ℕ) (armed value : ℤ) (g : Gpio lib)
    → is_exiting exits ≡ true
    → (polling_thread lib exits armed value g).0 ≡ true
unfolding polling_thread
polling_thread-ended lib exits armed value g h = poll_rounds-ended lib exits _ h

one_more :
    (web : Web) (own : WebOwnership web) (stamp : Bytes) (pin value : ℤ) (later : List AlarmCall)
    → ((a : Alarm web) → (run_alarm_calls web later a).resolvers ≡ a.resolvers)
    → (a : Alarm web)
    → (run_alarm_calls web (event_call stamp pin value ∷ later) a).resolvers ≡ a.resolvers
unfolding run_alarm_calls run_alarm_call
one_more web own stamp pin value later h a =
    h (on_alarm_event web stamp pin value a) ∙ resolvers-on_alarm_event web own stamp pin value a

-- The events of the thread leave no resolver state.
pub resolvers-calls_of :
    (web : Web) (own : WebOwnership web) (stamp : ℕ → Bytes) (events : List (ℕ × ℤ))
    (later : List AlarmCall)
    → ((a : Alarm web) → (run_alarm_calls web later a).resolvers ≡ a.resolvers)
    → (a : Alarm web)
    → (run_alarm_calls web (calls_of stamp events later) a).resolvers ≡ a.resolvers
unfolding calls_of
resolvers-calls_of web own stamp [] later h a = h a
resolvers-calls_of web own stamp ((pin, value) ∷ before) later h a =
    resolvers-calls_of web own stamp before
      (event_call (stamp (length before)) (pos pin) value ∷ later)
      (one_more web own (stamp (length before)) (pos pin) value later h) a
