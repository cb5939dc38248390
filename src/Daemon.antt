-- ===== src/Daemon.antt =====
-- src/gpio_polling.c, lines 281 to 353, and src/alarm4pi.c, lines 170 to 174 and 186: the alarm from
-- `init_polling` over the life of the thread to `deinit_polling`.
pub mod Exit
pub mod Life
use alarm4pi.Prelude.{
  ℕ, ◌-◌, ℤ, pos, Bool, true, false, not, ◌&&◌, Option, none, some, List, [], ◌∷◌, ◌==◌,
  if◌then◌else◌, length, eexist,
}
use alarm4pi.CString.{Bytes}
use alarm4pi.Proc.Paths.{ExecEnv, get_absolute_path}
use alarm4pi.Gpio.Device.{Gpiod}
use alarm4pi.Gpio.{Gpio}
use alarm4pi.Gpio.Pins.{open_gpios, close_gpios}
use alarm4pi.Gpio.Configure.{configure_gpios}
use alarm4pi.Polling.{Poll, polling_thread}
use alarm4pi.Web.{Web}
use alarm4pi.Alarm.{Alarm, Asked, start_services, update_ip_msg, deinit_polling}
use alarm4pi.Alarm.Life.{AlarmCall, event_call, run_alarm_calls}

pub record Daemon (lib : Gpiod) (web : Web) : Type 0 where
  pub gpio : Gpio lib
  pub alarm : Alarm web
  pub full_capture_path : Bytes

-- What `init_polling` is given or asks: the executable, the path, the texts that `msg_info_fmt` makes,
-- what `get_public_ip` does, what `pthread_create` returns, and the value that an int has which
-- `get_absolute_path` never sets.
pub record Start : Type 0 where
  pub env : ExecEnv
  pub capture_path : Bytes
  pub formatted : Bytes → Bytes
  pub wan : Asked
  pub thread_error : ℕ
  pub unset : ℕ

-- What the thread reads and when: the exit flag, the first values of its variables, and the time of
-- the n-th event; and what `pthread_join` returns when the thread has ended.
pub record Thread : Type 0 where
  pub exits : List ℕ
  pub armed : ℤ
  pub value : ℤ
  pub stamp : ℕ → Bytes
  pub join_error : ℕ

-- The events of the thread, the last first, as calls in their order.
unfoldable pub calls_of : (ℕ → Bytes) → List (ℕ × ℤ) → List AlarmCall → List AlarmCall
calls_of stamp [] later = later
calls_of stamp ((pin, value) ∷ before) later =
    calls_of stamp before (event_call (stamp (length before)) (pos pin) value ∷ later)

module _ (lib : Gpiod) (web : Web) where
  open web.host use {World, errno, mkdir}

  unfoldable pub services_started :
      Start → Daemon lib web → Option (Alarm web) → Option (ℕ × Daemon lib web)
  services_started s d none = none
  services_started s d (some a) =
      let (ret_err, a1) = update_ip_msg web s.formatted s.wan (record a { msg_info_str = [] }) in
      some (s.thread_error, record d { alarm = a1 })

  unfoldable pub pins_configured :
      Start → Daemon lib web → ℕ × Gpio lib → Option (ℕ × Daemon lib web)
  unfolding services_started
  pins_configured s d (ret_err, g) =
      let d1 = record d { gpio = g } in
      let started = services_started s d1 (start_services web s.env d.full_capture_path d.alarm) in
      if ret_err == 0 then started else some (ret_err, d1)

  unfoldable pub pins_opened : Start → Daemon lib web → ℕ × Gpio lib → Option (ℕ × Daemon lib web)
  unfolding pins_configured
  pins_opened s d (ret_err, g) =
      let configured = pins_configured s d (configure_gpios lib g) in
      if ret_err == 0 then configured else some (ret_err, record d { gpio = g })

  -- `mkdir` and its test.
  unfoldable pub directory_made :
      Start → Daemon lib web → Bool × World → Option (ℕ × Daemon lib web)
  unfolding pins_opened
  directory_made s d (made, w) =
      let d1 = record d { alarm = record d.alarm { world = w } } in
      let opened = pins_opened s d1 (open_gpios lib d.gpio) in
      if not made && not (errno w == eexist) then some (errno w, d1) else opened

  -- `none` is a loop that does not end.
  unfoldable pub init_polling : Start → Daemon lib web → Option (ℕ × Daemon lib web)
  unfolding directory_made
  init_polling s d =
      let (ret, path) = get_absolute_path s.env d.full_capture_path s.capture_path in
      let ret_err : ℕ = elim ret [ some code ↦ code | none ↦ s.unset ] in
      let d1 = record d { full_capture_path = path } in
      let made = directory_made s d1 (mkdir path d.alarm.world) in
      if ret_err == 0 then made else some (ret_err, d1)

  -- The thread until it ends, which `pthread_join` waits for; `none` is a thread that does not end.
  unfoldable pub wait_polling_end : Thread → Daemon lib web → Option (ℕ × Daemon lib web)
  unfolding calls_of
  wait_polling_end t d =
      let (ended, (lasts, p)) = polling_thread lib t.exits t.armed t.value d.gpio in
      let d1 = record d {
        gpio = (close_gpios lib p.gpio).1;
        alarm = run_alarm_calls web (calls_of t.stamp p.events []) d.alarm;
      } in
      elim ended [ true ↦ some (t.join_error, d1) | false ↦ none ]

  abbrev pub deinitialized : ℕ → Option (ℕ × Daemon lib web) → Option (ℕ × Daemon lib web)
  deinitialized main_err none = none
  deinitialized main_err (some (ret, d)) =
      some (main_err, record d { alarm = deinit_polling web d.alarm })

  unfoldable pub life_ended : Thread → Option (ℕ × Daemon lib web) → Option (ℕ × Daemon lib web)
  unfolding wait_polling_end
  life_ended t none = none
  life_ended t (some (main_err, d)) =
      let waited = wait_polling_end t d in
      deinitialized main_err (if main_err == 0 then waited else some (0, d))

  -- The calls of `main`.
  unfoldable pub polling_life : Start → Thread → Daemon lib web → Option (ℕ × Daemon lib web)
  unfolding life_ended init_polling
  polling_life s t d = life_ended t (init_polling s d)
