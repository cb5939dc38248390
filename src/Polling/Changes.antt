-- ===== src/Polling/Changes.antt =====
-- `polling_thread` of src/gpio_polling.c: the alarm events against what the reads of the pins answer.
use mathlib.Core.Path.{subst}
use alarm4pi.Prelude.{
  ℕ, ◌≡◌, refl, ◌∙◌, ap, sym, ℤ, pos, true, false, ◌&&◌, List, [], ◌∷◌, arith, ◌==◌, eq_ℤ, eq_ℤ→≡,
  if◌then◌else◌, Bool-cases, inl, inr,
}
use alarm4pi.Gpio.Device.{Gpiod}
use alarm4pi.Gpio.{Gpio, pin_low_val}
use alarm4pi.Gpio.Pins.{gpio_read}
use alarm4pi.Gpio.Configure.{arming_gpio}
use alarm4pi.Polling.{
  Poll, alarm_gpios, log_error, sensor_read, poll_sensors, arming_read, poll_round, poll_rounds,
  polling_thread,
}
use alarm4pi.Polling.Alternation.{
  values, newest, is_apart, are_apart, AllAlternate, polling_thread-AllAlternate,
}

-- What the reads of a pin that succeeded answered.
abbrev pub read_values : ℕ → List (ℕ × (ℕ × ℤ)) → List ℤ
read_values pin [] = []
read_values pin ((p, (ret, value)) ∷ reads) =
    if p == pin && ret == 0 then value ∷ read_values pin reads else read_values pin reads

-- The values that differ from the one before, which is 0 for the first; the last comes first.
abbrev pub changes : List ℤ → List ℤ
changes [] = []
changes (v ∷ vs) = if eq_ℤ v (newest vs) then changes vs else v ∷ changes vs

-- The events of a pin are the changes in what was read from it, and `last` is what was read last.
abbrev pub Changes : List (ℕ × ℤ) → List (ℕ × (ℕ × ℤ)) → ℕ → ℤ → Type 0
Changes events reads pin last =
    (values pin events ≡ changes (read_values pin reads)) × (last ≡ newest (read_values pin reads))

abbrev pub AllChanges : List (ℕ × ℤ) → List (ℕ × (ℕ × ℤ)) → List ℕ → List ℤ → Type 0
AllChanges events reads [] lasts = Unit
AllChanges events reads (pin ∷ pins) [] = ⊥
AllChanges events reads (pin ∷ pins) (last ∷ lasts) =
    Changes events reads pin last × AllChanges events reads pins lasts

-- Events and reads of another pin, and reads that fail, change nothing.
other-Changes :
    (events events1 : List (ℕ × ℤ)) (reads reads1 : List (ℕ × (ℕ × ℤ))) (pin : ℕ) (last : ℤ)
    → values pin events1 ≡ values pin events
    → read_values pin reads1 ≡ read_values pin reads
    → Changes events reads pin last
    → Changes events1 reads1 pin last
other-Changes events events1 reads reads1 pin last e r (c, n) =
    (e ∙ c ∙ ap changes (sym r), n ∙ ap newest (sym r))

module _ (lib : Gpiod) where
  log_error_same :
      (ret_err pin : ℕ) (p : Poll lib)
      → ((log_error lib ret_err pin p).events ≡ p.events)
        × ((log_error lib ret_err pin p).reads ≡ p.reads)
  unfolding log_error
  log_error_same ret_err pin p = (ground arith, ground arith)

  sensor_read_same :
      (pin q : ℕ) (last : ℤ) (r : (ℕ × ℤ) × Gpio lib) (p : Poll lib)
      → (pin == q) ≡ false
      → (values q (sensor_read lib pin last r p).1.events ≡ values q p.events)
        × (read_values q (sensor_read lib pin last r p).1.reads ≡ read_values q p.reads)
  unfolding sensor_read log_error
  sensor_read_same pin q last ((ret_err, value), g) p ne = (ground arith, ground arith)

  poll_sensors_same :
      (pins : List ℕ) (q : ℕ) (lasts : List ℤ) (p : Poll lib)
      → is_apart q pins ≡ true
      → (values q (poll_sensors lib pins lasts p).1.events ≡ values q p.events)
        × (read_values q (poll_sensors lib pins lasts p).1.reads ≡ read_values q p.reads)
  unfolding poll_sensors
  poll_sensors_same [] q lasts p h = (refl, refl)
  poll_sensors_same (pin ∷ pins) q [] p h = (refl, refl)
  poll_sensors_same (pin ∷ pins) q (last ∷ lasts) p h =
      let r = gpio_read lib (pos pin) p.curr_pin_value p.gpio in
      let (e, f) = poll_sensors_same pins q lasts (sensor_read lib pin last r p).1 (ground arith) in
      let (e1, f1) = sensor_read_same pin q last r p (ground arith) in (e ∙ e1, f ∙ f1)

  sensor_read-AllChanges :
      (pins : List ℕ) (lasts : List ℤ) (pin : ℕ) (last : ℤ) (r : (ℕ × ℤ) × Gpio lib) (p : Poll lib)
      → is_apart pin pins ≡ true
      → AllChanges p.events p.reads pins lasts
      → AllChanges
          (sensor_read lib pin last r p).1.events
          (sensor_read lib pin last r p).1.reads
          pins
          lasts
  sensor_read-AllChanges [] lasts pin last r p h a = tt
  sensor_read-AllChanges (q ∷ pins) [] pin last r p h a = absurd a
  sensor_read-AllChanges (q ∷ pins) (l ∷ lasts) pin last r p h (c, a) =
      let p1 = (sensor_read lib pin last r p).1 in
      let (e, f) = sensor_read_same pin q last r p (ground arith) in
      (
        other-Changes p.events p1.events p.reads p1.reads q l e f c,
        sensor_read-AllChanges pins lasts pin last r p (ground arith) a,
      )

  sensor_read-Changes :
      (pin : ℕ) (last : ℤ) (r : (ℕ × ℤ) × Gpio lib) (p : Poll lib)
      → Changes p.events p.reads pin last
      → Changes
          (sensor_read lib pin last r p).1.events
          (sensor_read lib pin last r p).1.reads
          pin
          (sensor_read lib pin last r p).0
  unfolding sensor_read
  sensor_read-Changes pin last ((ret, v), g) p (c, n) =
      let self : (pin == pin) ≡ true = ground arith in
      let p1 = record p { gpio = g; curr_pin_value = v; reads = (pin, (ret, v)) ∷ p.reads } in
      elim (Bool-cases (ret == 0)) [
        | inr e ↦ let (es, rs) = log_error_same ret pin p1 in rw (e, es, rs, self, e) (c, n)
        | inl e ↦ elim (Bool-cases (eq_ℤ v last)) [
          | inl same ↦
              let old : eq_ℤ v (newest (read_values pin p.reads)) ≡ true = rw n at same in
              rw (e, same, self, e, old) (c, sym (eq_ℤ→≡ v last same))
          | inr changed ↦
              let new : eq_ℤ v (newest (read_values pin p.reads)) ≡ false = rw n at changed in
              rw (e, changed, self, e, new) (ap (λ (l : List ℤ). v ∷ l) c, refl)
        ]
      ]

  poll_sensors-AllChanges :
      (pins : List ℕ) (lasts : List ℤ) (p : Poll lib)
      → are_apart pins ≡ true
      → AllChanges p.events p.reads pins lasts
      → AllChanges
          (poll_sensors lib pins lasts p).1.events
          (poll_sensors lib pins lasts p).1.reads
          pins
          (poll_sensors lib pins lasts p).0
  unfolding poll_sensors
  poll_sensors-AllChanges [] lasts p h a = tt
  poll_sensors-AllChanges (pin ∷ pins) [] p h a = absurd a
  poll_sensors-AllChanges (pin ∷ pins) (last ∷ lasts) p h (c, a) =
      let r = gpio_read lib (pos pin) p.curr_pin_value p.gpio in
      let (last1, p1) = sensor_read lib pin last r p in
      let p2 = (poll_sensors lib pins lasts p1).1 in
      let (e, f) = poll_sensors_same pins pin lasts p1 (ground arith) in
      (
        other-Changes p1.events p2.events p1.reads p2.reads pin last1 e f
            (sensor_read-Changes pin last r p c),
        poll_sensors-AllChanges pins lasts p1 (ground arith)
            (sensor_read-AllChanges pins lasts pin last r p (ground arith) a),
      )

  AllChanges-log_error :
      (ret pin : ℕ) (pins : List ℕ) (lasts : List ℤ) (p : Poll lib)
      → AllChanges p.events p.reads pins lasts
      → AllChanges (log_error lib ret pin p).events (log_error lib ret pin p).reads pins lasts
  AllChanges-log_error ret pin pins lasts p a =
      let (es, rs) = log_error_same ret pin p in
      subst (λ (ev : List (ℕ × ℤ)). AllChanges ev (log_error lib ret pin p).reads pins lasts)
        (sym es) (subst (λ (l : List (ℕ × (ℕ × ℤ))). AllChanges p.events l pins lasts) (sym rs) a)

  -- A read of the arming pin is no read of a sensor.
  arming_read-AllChanges :
      (r : (ℕ × ℤ) × Gpio lib) (lasts : List ℤ) (p : Poll lib)
      → AllChanges p.events p.reads alarm_gpios lasts
      → AllChanges
          (arming_read lib r (lasts, p)).1.events
          (arming_read lib r (lasts, p)).1.reads
          alarm_gpios
          (arming_read lib r (lasts, p)).0
  unfolding arming_read
  arming_read-AllChanges ((ret, armed), g) lasts p a =
      let p1 = record p {
        gpio = g;
        alarm_armed = armed;
        reads = (arming_gpio, (ret, armed)) ∷ p.reads;
      } in
      let a1 = arming_read_same lasts p.events p.reads ret armed a in
      elim (Bool-cases (ret == 0)) [
        | inr e ↦ rw e (AllChanges-log_error ret arming_gpio alarm_gpios lasts p1 a1)
        | inl e ↦ elim (Bool-cases (eq_ℤ armed pin_low_val)) [
          | inl on ↦ rw (e, on) (poll_sensors-AllChanges alarm_gpios lasts p1 refl a1)
          | inr off ↦ rw (e, off) a1
        ]
      ]
    where
      arming_read_same :
          (lasts : List ℤ) (events : List (ℕ × ℤ)) (reads : List (ℕ × (ℕ × ℤ))) (ret : ℕ) (v : ℤ)
          → AllChanges events reads alarm_gpios lasts
          → AllChanges events ((arming_gpio, (ret, v)) ∷ reads) alarm_gpios lasts
      arming_read_same [] events reads ret v a = absurd a
      arming_read_same (l ∷ []) events reads ret v a = absurd a.1
      arming_read_same (l ∷ m ∷ lasts) events reads ret v a = a

  poll_rounds-AllChanges :
      (exits : List ℕ) (lasts : List ℤ) (p : Poll lib)
      → AllChanges p.events p.reads alarm_gpios lasts
      → AllChanges
          (poll_rounds lib exits (lasts, p)).1.1.events
          (poll_rounds lib exits (lasts, p)).1.1.reads
          alarm_gpios
          (poll_rounds lib exits (lasts, p)).1.0
  unfolding poll_rounds poll_round
  poll_rounds-AllChanges [] lasts p a = a
  poll_rounds-AllChanges (x ∷ xs) lasts p a = elim (Bool-cases (x == 0)) [
    | inr e ↦ rw e a
    | inl e ↦
        let r = gpio_read lib (pos arming_gpio) p.alarm_armed p.gpio in
        let (lasts1, p1) = arming_read lib r (lasts, p) in
        rw e (poll_rounds-AllChanges xs lasts1 p1 (arming_read-AllChanges r lasts p a))
  ]

  -- Whatever the reads of the pins answer, the alarm events of each sensor are exactly the changes in
  -- what its successful reads answered, from 0 at first: one event with the new value for each read
  -- that differs from the one before, and no other. So their values are 1, 0, 1 and so on, and
  -- `last_pin_value` is what was read last.
  pub polling_thread-AllChanges :
      (exits : List ℕ) (armed value : ℤ) (g : Gpio lib)
      → let (lasts, p) = (polling_thread lib exits armed value g).1 in
        AllChanges p.events p.reads alarm_gpios lasts × AllAlternate p.events alarm_gpios lasts
  unfolding polling_thread
  polling_thread-AllChanges exits armed value g = (
    poll_rounds-AllChanges exits (pos 0 ∷ pos 0 ∷ [])
        (record {
          gpio = g;
          alarm_armed = armed;
          curr_pin_value = value;
          read_err = 0;
          reads = [];
          events = [];
          logged = [];
        })
        ((refl, refl), ((refl, refl), tt)),
    polling_thread-AllAlternate lib exits armed value g,
  )
