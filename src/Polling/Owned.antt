-- ===== src/Polling/Owned.antt =====
-- `polling_thread` of src/gpio_polling.c: the GPIO library over its rounds.
use alarm4pi.Prelude.{ℕ, ℤ, pos, List, [], ◌∷◌, ◌==◌, eq_ℤ, Bool-cases, inl, inr}
use alarm4pi.Gpio.Device.{Gpiod, Ownership}
use alarm4pi.Gpio.{Gpio, pin_low_val}
use alarm4pi.Gpio.Pins.{gpio_read}
use alarm4pi.Gpio.Pins.Owned.{IsWellFormed}
use alarm4pi.Gpio.Pins.Cycle.{gpio_read-IsWellFormed}
use alarm4pi.Gpio.Configure.{arming_gpio}
use alarm4pi.Polling.{
  Poll, alarm_gpios, log_error, sensor_read, poll_sensors, arming_read, poll_round, poll_rounds,
  polling_thread,
}

module _ (lib : Gpiod) (own : Ownership lib) (base : ℕ) where
  abbrev WellFormed : Gpio lib → Type 0
  WellFormed g = IsWellFormed lib own base g

  log_error-WellFormed :
      (ret_err pin : ℕ) (p : Poll lib)
      → WellFormed p.gpio
      → WellFormed (log_error lib ret_err pin p).gpio
  unfolding log_error
  log_error-WellFormed ret_err pin p h = elim (Bool-cases (p.read_err == 0)) [
    | inl e ↦ simp e h
    | inr e ↦ simp e h
  ]

  sensor_read-WellFormed :
      (pin : ℕ) (last : ℤ) (r : (ℕ × ℤ) × Gpio lib) (p : Poll lib)
      → WellFormed r.1
      → WellFormed (sensor_read lib pin last r p).1.gpio
  unfolding sensor_read
  sensor_read-WellFormed pin last ((ret, v), g) p h = elim (Bool-cases (ret == 0)) [
    | inl e ↦ elim (Bool-cases (eq_ℤ v last)) [
      | inl same ↦ rw (e, same) h
      | inr changed ↦ rw (e, changed) h
    ]
    | inr e ↦ rw e (
        log_error-WellFormed ret pin
          (record p { gpio = g; curr_pin_value = v; reads = (pin, (ret, v)) ∷ p.reads }) h)
  ]

  poll_sensors-WellFormed :
      (pins : List ℕ) (lasts : List ℤ) (p : Poll lib)
      → WellFormed p.gpio
      → WellFormed (poll_sensors lib pins lasts p).1.gpio
  unfolding poll_sensors
  poll_sensors-WellFormed [] lasts p h = h
  poll_sensors-WellFormed (pin ∷ pins) [] p h = h
  poll_sensors-WellFormed (pin ∷ pins) (last ∷ lasts) p h =
      let r = gpio_read lib (pos pin) p.curr_pin_value p.gpio in
      poll_sensors-WellFormed pins lasts (sensor_read lib pin last r p).1 (
        sensor_read-WellFormed pin last r p
          (gpio_read-IsWellFormed lib own base (pos pin) p.curr_pin_value p.gpio h))

  arming_read-WellFormed :
      (r : (ℕ × ℤ) × Gpio lib) (lasts : List ℤ) (p : Poll lib)
      → WellFormed r.1
      → WellFormed (arming_read lib r (lasts, p)).1.gpio
  unfolding arming_read
  arming_read-WellFormed ((ret, armed), g) lasts p h =
      let p1 = record p {
        gpio = g;
        alarm_armed = armed;
        reads = (arming_gpio, (ret, armed)) ∷ p.reads;
      } in
      elim (Bool-cases (ret == 0)) [
        | inr e ↦ rw e (log_error-WellFormed ret arming_gpio p1 h)
        | inl e ↦ elim (Bool-cases (eq_ℤ armed pin_low_val)) [
          | inl on ↦ rw (e, on) (poll_sensors-WellFormed alarm_gpios lasts p1 h)
          | inr off ↦ rw (e, off) h
        ]
      ]

  poll_rounds-WellFormed :
      (exits : List ℕ) (lasts : List ℤ) (p : Poll lib)
      → WellFormed p.gpio
      → WellFormed (poll_rounds lib exits (lasts, p)).1.1.gpio
  unfolding poll_rounds poll_round
  poll_rounds-WellFormed [] lasts p h = h
  poll_rounds-WellFormed (x ∷ xs) lasts p h = elim (Bool-cases (x == 0)) [
    | inr e ↦ rw e h
    | inl e ↦
        let r = gpio_read lib (pos arming_gpio) p.alarm_armed p.gpio in
        let (lasts1, p1) = arming_read lib r (lasts, p) in
        rw e (
          poll_rounds-WellFormed xs lasts1 p1 (
            arming_read-WellFormed r lasts p
              (gpio_read-IsWellFormed lib own base (pos arming_gpio) p.alarm_armed p.gpio h)))
  ]

  pub polling_thread-IsWellFormed :
      (exits : List ℕ) (armed value : ℤ) (g : Gpio lib)
      → IsWellFormed lib own base g
      → IsWellFormed lib own base (polling_thread lib exits armed value g).1.1.gpio
  unfolding polling_thread
  polling_thread-IsWellFormed exits armed value g h =
      poll_rounds-WellFormed exits (pos 0 ∷ pos 0 ∷ [])
        (record {
          gpio = g;
          alarm_armed = armed;
          curr_pin_value = value;
          read_err = 0;
          reads = [];
          events = [];
          logged = [];
        })
        h
