-- ===== src/Polling.antt =====
-- src/gpio_polling.c, lines 44 to 48 and 219 to 279: the thread that watches the sensors.
pub mod Alternation
pub mod Changes
pub mod Report
pub mod Owned
use alarm4pi.Prelude.{ℕ, ℤ, pos, Bool, true, false, List, [], ◌∷◌, ◌==◌, eq_ℤ, if◌then◌else◌}
use alarm4pi.Gpio.Device.{Gpiod}
use alarm4pi.Gpio.{Gpio, pin_low_val}
use alarm4pi.Gpio.Pins.{gpio_read}
use alarm4pi.Gpio.Configure.{contact1_gpio, contact2_gpio, arming_gpio}

-- Alarm_gpios
abbrev pub alarm_gpios : List ℕ
alarm_gpios = contact1_gpio ∷ contact2_gpio ∷ []

-- The variables of `polling_thread` but `last_pin_value`, with what it did so far, the last first:
-- `reads` are the calls of `gpio_read`, each with its pin, its code and what it left in the variable,
-- `events` the calls of `on_alarm_event`, and `logged` the error lines, each with its code and its
-- pin.
pub record Poll (lib : Gpiod) : Type 0 where
  pub gpio : Gpio lib
  pub alarm_armed : ℤ
  pub curr_pin_value : ℤ
  pub read_err : ℕ
  pub reads : List (ℕ × (ℕ × ℤ))
  pub events : List (ℕ × ℤ)
  pub logged : List (ℕ × ℕ)

module _ (lib : Gpiod) where
  -- `if(read_err==0)` and what it guards
  unfoldable pub log_error : ℕ → ℕ → Poll lib → Poll lib
  log_error ret_err pin p =
      if p.read_err == 0
      then record p { read_err = ret_err; logged = (ret_err, pin) ∷ p.logged }
      else p

  -- After `gpio_read` of a sensor: the new `last_pin_value[pin_ind]` and the rest.
  unfoldable pub sensor_read : ℕ → ℤ → (ℕ × ℤ) × Gpio lib → Poll lib → ℤ × Poll lib
  unfolding log_error
  sensor_read pin last ((ret_err, value), g) p =
      let p1 = record p {
        gpio = g;
        curr_pin_value = value;
        reads = (pin, (ret_err, value)) ∷ p.reads;
      } in
      if ret_err == 0
      then (if eq_ℤ value last
          then (last, p1)
          else (value, record p1 { events = (pin, value) ∷ p1.events }))
      else (last, log_error ret_err pin p1)

  -- The inner loop over the pins and their last values.
  unfoldable pub poll_sensors : List ℕ → List ℤ → Poll lib → List ℤ × Poll lib
  unfolding sensor_read
  poll_sensors [] lasts p = (lasts, p)
  poll_sensors (pin ∷ pins) [] p = ([], p)
  poll_sensors (pin ∷ pins) (last ∷ lasts) p =
      let (last1, p1) = sensor_read pin last (gpio_read lib (pos pin) p.curr_pin_value p.gpio) p in
      let (lasts2, p2) = poll_sensors pins lasts p1 in (last1 ∷ lasts2, p2)

  unfoldable pub arming_read : (ℕ × ℤ) × Gpio lib → List ℤ × Poll lib → List ℤ × Poll lib
  unfolding log_error poll_sensors
  arming_read ((ret_err, armed), g) (lasts, p) =
      let p1 = record p {
        gpio = g;
        alarm_armed = armed;
        reads = (arming_gpio, (ret_err, armed)) ∷ p.reads;
      } in
      if ret_err == 0
      then (if eq_ℤ armed pin_low_val then poll_sensors alarm_gpios lasts p1 else (lasts, p1))
      else (lasts, log_error ret_err arming_gpio p1)

  -- The body of the outer loop.
  unfoldable pub poll_round : List ℤ × Poll lib → List ℤ × Poll lib
  unfolding arming_read
  poll_round (lasts, p) =
      arming_read (gpio_read lib (pos arming_gpio) p.alarm_armed p.gpio) (lasts, p)

  -- The outer loop on the values that its tests read from `*exit_polling`; the Boolean tells
  -- whether one of them ended it.
  unfoldable pub poll_rounds : List ℕ → List ℤ × Poll lib → Bool × (List ℤ × Poll lib)
  unfolding poll_round
  poll_rounds [] s = (false, s)
  poll_rounds (exit_polling ∷ later) s =
      let ended = poll_rounds later (poll_round s) in if exit_polling == 0 then ended else (true, s)

  -- `alarm_armed` and `curr_pin_value` have no value yet in the source: `armed` and `value`.
  unfoldable pub polling_thread : List ℕ → ℤ → ℤ → Gpio lib → Bool × (List ℤ × Poll lib)
  unfolding poll_rounds
  polling_thread exits armed value g = poll_rounds exits (
    pos 0 ∷ pos 0 ∷ [],
    record {
      gpio = g;
      alarm_armed = armed;
      curr_pin_value = value;
      read_err = 0;
      reads = [];
      events = [];
      logged = [];
    },
  )
