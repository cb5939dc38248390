-- ===== src/Polling/Alternation.antt =====
-- `polling_thread` of src/gpio_polling.c: the alarm events that it raises for each sensor.
use mathlib.Core.Path.{subst}
use alarm4pi.Prelude.{
  ℕ, zero, suc, ◌≡◌, refl, ◌∙◌, ap, sym, ℤ, pos, Bool, true, false, ◌&&◌, not, List, [], ◌∷◌, arith,
  ◌==◌, eq_ℤ, if◌then◌else◌, Bool-cases, inl, inr, ◌⊎◌,
}
use alarm4pi.Gpio.Device.{Gpiod}
use alarm4pi.Gpio.{Gpio, pin_low_val, pin_high_val}
use alarm4pi.Gpio.Pins.{gpio_read}
use alarm4pi.Gpio.Pins.Reading.{IsReading, gpio_read-IsReading}
use alarm4pi.Gpio.Configure.{arming_gpio}
use alarm4pi.Polling.{
  Poll, alarm_gpios, log_error, sensor_read, poll_sensors, arming_read, poll_round, poll_rounds,
  polling_thread,
}

-- The values of a pin's events.
abbrev pub values : ℕ → List (ℕ × ℤ) → List ℤ
values pin [] = []
values pin ((p, value) ∷ events) = if p == pin then value ∷ values pin events else values pin events

-- The last value, 0 before the first.
abbrev pub newest : List ℤ → ℤ
newest [] = pos 0
newest (v ∷ vs) = v

abbrev pub other : ℤ → ℤ
other v = if eq_ℤ v pin_low_val then pin_high_val else pin_low_val

-- The `n` values 1, 0, 1, …, the last first.
abbrev pub alternation : ℕ → List ℤ
alternation zero = []
alternation (suc n) = other (newest (alternation n)) ∷ alternation n

-- The events of a pin alternate, and `last` is the value of the last one.
abbrev pub Alternates : List (ℕ × ℤ) → ℕ → ℤ → Type 0
Alternates events pin last =
    (n : ℕ) × ((values pin events ≡ alternation n) × (last ≡ newest (alternation n)))

abbrev pub AllAlternate : List (ℕ × ℤ) → List ℕ → List ℤ → Type 0
AllAlternate events [] lasts = Unit
AllAlternate events (pin ∷ pins) [] = ⊥
AllAlternate events (pin ∷ pins) (last ∷ lasts) =
    Alternates events pin last × AllAlternate events pins lasts

abbrev pub is_apart : ℕ → List ℕ → Bool
is_apart pin [] = true
is_apart pin (p ∷ pins) = not (pin == p) && is_apart pin pins

abbrev pub are_apart : List ℕ → Bool
are_apart [] = true
are_apart (pin ∷ pins) = is_apart pin pins && are_apart pins

newest_level : (n : ℕ) → (newest (alternation n) ≡ pos 0) ⊎ (newest (alternation n) ≡ pos 1)
newest_level zero = inl refl
newest_level (suc n) = elim (newest_level n) [ inl e ↦ inr (rw e refl) | inr e ↦ inl (rw e refl) ]

-- A level that is not the last one is the other.
changed-other :
    (v l : ℤ)
    → ((v ≡ pos 0) ⊎ (v ≡ pos 1))
    → ((l ≡ pos 0) ⊎ (l ≡ pos 1))
    → eq_ℤ v l ≡ false
    → v ≡ other l
changed-other v l (inl a) (inl b) h = let same : true ≡ false = rw (a, b) at h in absurd (cc same)
changed-other v l (inl a) (inr b) h = rw (a, b) refl
changed-other v l (inr a) (inl b) h = rw (a, b) refl
changed-other v l (inr a) (inr b) h = let same : true ≡ false = rw (a, b) at h in absurd (cc same)

module _ (lib : Gpiod) where
  -- The events of the other pins stay.
  sensor_read_other :
      (pin q : ℕ) (last : ℤ) (r : (ℕ × ℤ) × Gpio lib) (p : Poll lib)
      → (pin == q) ≡ false
      → values q (sensor_read lib pin last r p).1.events ≡ values q p.events
  unfolding sensor_read log_error
  sensor_read_other pin q last ((ret_err, value), g) p ne = ground arith

  poll_sensors_other :
      (pins : List ℕ) (q : ℕ) (lasts : List ℤ) (p : Poll lib)
      → is_apart q pins ≡ true
      → values q (poll_sensors lib pins lasts p).1.events ≡ values q p.events
  unfolding poll_sensors
  poll_sensors_other [] q lasts p h = refl
  poll_sensors_other (pin ∷ pins) q [] p h = refl
  poll_sensors_other (pin ∷ pins) q (last ∷ lasts) p h =
      let r = gpio_read lib (pos pin) p.curr_pin_value p.gpio in
      poll_sensors_other pins q lasts (sensor_read lib pin last r p).1 (ground arith)
      ∙ sensor_read_other pin q last r p (ground arith)

  sensor_read-AllAlternate :
      (pins : List ℕ) (lasts : List ℤ) (pin : ℕ) (last : ℤ) (r : (ℕ × ℤ) × Gpio lib) (p : Poll lib)
      → is_apart pin pins ≡ true
      → AllAlternate p.events pins lasts
      → AllAlternate (sensor_read lib pin last r p).1.events pins lasts
  sensor_read-AllAlternate [] lasts pin last r p h a = tt
  sensor_read-AllAlternate (q ∷ pins) [] pin last r p h a = absurd a
  sensor_read-AllAlternate (q ∷ pins) (l ∷ lasts) pin last r p h ((n, (vs, new)), a) = (
    (n, (sensor_read_other pin q last r p (ground arith) ∙ vs, new)),
    sensor_read-AllAlternate pins lasts pin last r p (ground arith) a,
  )

  log_error-events :
      (ret_err pin : ℕ) (p : Poll lib) → (log_error lib ret_err pin p).events ≡ p.events
  unfolding log_error
  log_error-events ret_err pin p = ground arith

  sensor_read-Alternates :
      (pin : ℕ) (last : ℤ) (r : (ℕ × ℤ) × Gpio lib) (p : Poll lib)
      → IsReading r.0
      → Alternates p.events pin last
      → Alternates (sensor_read lib pin last r p).1.events pin (sensor_read lib pin last r p).0
  unfolding sensor_read
  sensor_read-Alternates pin last ((ret, v), g) p ok (n, (vs, new)) =
      let p1 = record p { gpio = g; curr_pin_value = v; reads = (pin, (ret, v)) ∷ p.reads } in
      elim (Bool-cases (ret == 0)) [
        | inr e ↦ rw e (n, (ap (values pin) (log_error-events ret pin p1) ∙ vs, new))
        | inl e ↦ elim (Bool-cases (eq_ℤ v last)) [
          | inl same ↦ rw (e, same) (n, (vs, new))
          | inr changed ↦
              rw (e, changed) (suc n, (moved (level ok e) changed, next (level ok e) changed))
        ]
      ]
    where
      level : IsReading (ret, v) → (ret == 0) ≡ true → (v ≡ pos 0) ⊎ (v ≡ pos 1)
      level (inl failed) e = absurd (cc (failed, e))
      level (inr l) e = l

      next : (v ≡ pos 0) ⊎ (v ≡ pos 1) → eq_ℤ v last ≡ false → v ≡ other (newest (alternation n))
      next l changed =
          changed-other v last l (rw (sym new) at (newest_level n)) changed ∙ ap other new

      moved :
          (v ≡ pos 0) ⊎ (v ≡ pos 1)
          → eq_ℤ v last ≡ false
          → values pin ((pin, v) ∷ p.events) ≡ alternation (suc n)
      moved l changed =
          let self : (pin == pin) ≡ true = ground arith in
          rw self (
            ap (λ (u : ℤ). u ∷ values pin p.events) (next l changed)
            ∙ ap (λ (us : List ℤ). other (newest (alternation n)) ∷ us) vs)

  poll_sensors-AllAlternate :
      (pins : List ℕ) (lasts : List ℤ) (p : Poll lib)
      → are_apart pins ≡ true
      → AllAlternate p.events pins lasts
      → AllAlternate (poll_sensors lib pins lasts p).1.events pins (poll_sensors lib pins lasts p).0
  unfolding poll_sensors
  poll_sensors-AllAlternate [] lasts p h a = tt
  poll_sensors-AllAlternate (pin ∷ pins) [] p h a = absurd a
  poll_sensors-AllAlternate (pin ∷ pins) (last ∷ lasts) p h ((n, (vs, new)), a) =
      let r = gpio_read lib (pos pin) p.curr_pin_value p.gpio in
      let p1 = (sensor_read lib pin last r p).1 in
      let (m, (ws, new1)) =
        sensor_read-Alternates pin last r p
          (gpio_read-IsReading lib (pos pin) p.curr_pin_value p.gpio) (n, (vs, new)) in
      (
        (m, (poll_sensors_other pins pin lasts p1 (ground arith) ∙ ws, new1)),
        poll_sensors-AllAlternate pins lasts p1 (ground arith)
            (sensor_read-AllAlternate pins lasts pin last r p (ground arith) a),
      )

  arming_read-AllAlternate :
      (r : (ℕ × ℤ) × Gpio lib) (lasts : List ℤ) (p : Poll lib)
      → AllAlternate p.events alarm_gpios lasts
      → AllAlternate
          (arming_read lib r (lasts, p)).1.events
          alarm_gpios
          (arming_read lib r (lasts, p)).0
  unfolding arming_read
  arming_read-AllAlternate ((ret, armed), g) lasts p a =
      let p1 = record p {
        gpio = g;
        alarm_armed = armed;
        reads = (arming_gpio, (ret, armed)) ∷ p.reads;
      } in
      elim (Bool-cases (ret == 0)) [
        | inr e ↦ rw e (
            subst (λ (ev : List (ℕ × ℤ)). AllAlternate ev alarm_gpios lasts)
              (sym (log_error-events ret arming_gpio p1)) a)
        | inl e ↦ elim (Bool-cases (eq_ℤ armed pin_low_val)) [
          | inl on ↦ rw (e, on) (poll_sensors-AllAlternate alarm_gpios lasts p1 refl a)
          | inr off ↦ rw (e, off) a
        ]
      ]

  poll_rounds-AllAlternate :
      (exits : List ℕ) (lasts : List ℤ) (p : Poll lib)
      → AllAlternate p.events alarm_gpios lasts
      → AllAlternate
          (poll_rounds lib exits (lasts, p)).1.1.events
          alarm_gpios
          (poll_rounds lib exits (lasts, p)).1.0
  unfolding poll_rounds poll_round
  poll_rounds-AllAlternate [] lasts p a = a
  poll_rounds-AllAlternate (x ∷ xs) lasts p a = elim (Bool-cases (x == 0)) [
    | inr e ↦ rw e a
    | inl e ↦
        let r = gpio_read lib (pos arming_gpio) p.alarm_armed p.gpio in
        let (lasts1, p1) = arming_read lib r (lasts, p) in
        rw e (poll_rounds-AllAlternate xs lasts1 p1 (arming_read-AllAlternate r lasts p a))
  ]

  -- Whatever the reads of the pins answer, the values of the alarm events of each sensor are 1, 0, 1
  -- and so on: no event repeats the one before, the first one is high, and `last_pin_value` is the
  -- value of the last one.
  pub polling_thread-AllAlternate :
      (exits : List ℕ) (armed value : ℤ) (g : Gpio lib)
      → AllAlternate
          (polling_thread lib exits armed value g).1.1.events
          alarm_gpios
          (polling_thread lib exits armed value g).1.0
  unfolding polling_thread
  polling_thread-AllAlternate exits armed value g =
      poll_rounds-AllAlternate exits (pos 0 ∷ pos 0 ∷ [])
        (record {
          gpio = g;
          alarm_armed = armed;
          curr_pin_value = value;
          read_err = 0;
          reads = [];
          events = [];
          logged = [];
        })
        ((0, (refl, refl)), ((0, (refl, refl)), tt))
