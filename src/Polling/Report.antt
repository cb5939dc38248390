-- ===== src/Polling/Report.antt =====
-- `polling_thread` of src/gpio_polling.c: the code that it returns and the error that it logs.
use alarm4pi.Prelude.{
  ℕ, ◌≡◌, refl, sym, ap, ◌∙◌, true, if◌then◌else◌, ℤ, pos, false, List, [], ◌∷◌, ◌==◌, eq_ℤ,
  Bool-cases, inl, inr, ◌⊎◌,
}
use alarm4pi.Gpio.Device.{Gpiod}
use alarm4pi.Gpio.{Gpio, pin_low_val}
use alarm4pi.Gpio.Pins.{gpio_read}
use alarm4pi.Gpio.Configure.{arming_gpio}
use alarm4pi.Polling.{
  Poll, alarm_gpios, log_error, sensor_read, poll_sensors, arming_read, poll_round, poll_rounds,
  polling_thread,
}

-- The first call of `gpio_read` that failed, with its code and its pin; the last call comes first.
abbrev pub or_this : List (ℕ × ℕ) → ℕ → ℕ → List (ℕ × ℕ)
or_this [] ret pin = if ret == 0 then [] else (ret, pin) ∷ []
or_this (earlier ∷ rest) ret pin = earlier ∷ rest

abbrev pub first_failed : List (ℕ × (ℕ × ℤ)) → List (ℕ × ℕ)
first_failed [] = []
first_failed ((pin, (ret, value)) ∷ reads) = or_this (first_failed reads) ret pin

-- The code of a logged error, 0 if there is none.
abbrev pub code_of : List (ℕ × ℕ) → ℕ
code_of [] = 0
code_of ((ret, pin) ∷ rest) = ret

-- What is logged is the first read that failed, if there is one, and the code is that of this read.
abbrev pub Logs : List (ℕ × ℕ) → ℕ → List (ℕ × (ℕ × ℤ)) → Type 0
Logs logged code reads = (logged ≡ first_failed reads) × (code ≡ code_of (first_failed reads))

abbrev pub Reported : {lib : Gpiod} → Poll lib → Type 0
Reported p = Logs p.logged p.read_err p.reads

or_this-code :
    (l : List (ℕ × ℕ)) (ret pin : ℕ)
    → ((l ≡ []) ⊎ ((code_of l == 0) ≡ false))
    → ((or_this l ret pin ≡ []) ⊎ ((code_of (or_this l ret pin) == 0) ≡ false))
or_this-code [] ret pin h = elim (Bool-cases (ret == 0)) [
  | inl e ↦ inl (rw e refl)
  | inr e ↦ inr (rw e e)
]
or_this-code (first ∷ rest) ret pin (inl h) = absurd (cc h)
or_this-code (first ∷ rest) ret pin (inr h) = inr h

-- A failed read has a code.
first_failed-code :
    (reads : List (ℕ × (ℕ × ℤ)))
    → (first_failed reads ≡ []) ⊎ ((code_of (first_failed reads) == 0) ≡ false)
first_failed-code [] = inl refl
first_failed-code ((pin, (ret, value)) ∷ reads) =
    or_this-code (first_failed reads) ret pin (first_failed-code reads)

or_this_good : (l : List (ℕ × ℕ)) (ret pin : ℕ) → (ret == 0) ≡ true → or_this l ret pin ≡ l
or_this_good [] ret pin e = rw e refl
or_this_good (first ∷ rest) ret pin e = refl

or_this_later : (l : List (ℕ × ℕ)) (ret pin : ℕ) → (code_of l == 0) ≡ false → or_this l ret pin ≡ l
or_this_later [] ret pin e = absurd (cc e)
or_this_later (first ∷ rest) ret pin e = refl

-- A read that succeeds changes nothing.
good-Logs :
    (logged : List (ℕ × ℕ)) (code pin ret : ℕ) (value : ℤ) (reads : List (ℕ × (ℕ × ℤ)))
    → (ret == 0) ≡ true
    → Logs logged code reads
    → Logs logged code ((pin, (ret, value)) ∷ reads)
good-Logs logged code pin ret value reads e (l, c) =
    let same = or_this_good (first_failed reads) ret pin e in
    (l ∙ sym same, c ∙ ap code_of (sym same))

module _ (lib : Gpiod) where
  log_error-Reported :
      (ret pin : ℕ) (value : ℤ) (p : Poll lib) (reads : List (ℕ × (ℕ × ℤ)))
      → (ret == 0) ≡ false
      → p.reads ≡ (pin, (ret, value)) ∷ reads
      → Logs p.logged p.read_err reads
      → Reported (log_error lib ret pin p)
  unfolding log_error
  log_error-Reported ret pin value p reads h q (l, c) = elim (Bool-cases (p.read_err == 0)) [
    | inl e ↦ elim (first_failed-code reads) [
      | inl none_yet ↦ rw (e, q, none_yet, h) (ap (λ r. (ret, pin) ∷ r) (l ∙ none_yet), refl)
      | inr failed ↦ absurd (cc (rw c at e, failed))
    ]
    | inr e ↦
        let same = or_this_later (first_failed reads) ret pin (rw c at e) in rw (e, q, same) (l, c)
  ]

  sensor_read-Reported :
      (pin : ℕ) (last : ℤ) (r : (ℕ × ℤ) × Gpio lib) (p : Poll lib)
      → Reported p
      → Reported (sensor_read lib pin last r p).1
  unfolding sensor_read
  sensor_read-Reported pin last ((ret, v), g) p h = elim (Bool-cases (ret == 0)) [
    | inl e ↦ elim (Bool-cases (eq_ℤ v last)) [
      | inl same ↦ rw (e, same) (good-Logs p.logged p.read_err pin ret v p.reads e h)
      | inr changed ↦ rw (e, changed) (good-Logs p.logged p.read_err pin ret v p.reads e h)
    ]
    | inr e ↦ rw e (
        log_error-Reported ret pin v
          (record p { gpio = g; curr_pin_value = v; reads = (pin, (ret, v)) ∷ p.reads }) p.reads e
          refl h)
  ]

  poll_sensors-Reported :
      (pins : List ℕ) (lasts : List ℤ) (p : Poll lib)
      → Reported p
      → Reported (poll_sensors lib pins lasts p).1
  unfolding poll_sensors
  poll_sensors-Reported [] lasts p h = h
  poll_sensors-Reported (pin ∷ pins) [] p h = h
  poll_sensors-Reported (pin ∷ pins) (last ∷ lasts) p h =
      let r = gpio_read lib (pos pin) p.curr_pin_value p.gpio in
      poll_sensors-Reported pins lasts (sensor_read lib pin last r p).1
        (sensor_read-Reported pin last r p h)

  arming_read-Reported :
      (r : (ℕ × ℤ) × Gpio lib) (lasts : List ℤ) (p : Poll lib)
      → Reported p
      → Reported (arming_read lib r (lasts, p)).1
  unfolding arming_read
  arming_read-Reported ((ret, armed), g) lasts p h =
      let p1 = record p {
        gpio = g;
        alarm_armed = armed;
        reads = (arming_gpio, (ret, armed)) ∷ p.reads;
      } in
      elim (Bool-cases (ret == 0)) [
        | inr e ↦ rw e (log_error-Reported ret arming_gpio armed p1 p.reads e refl h)
        | inl e ↦
            let h1 = good-Logs p.logged p.read_err arming_gpio ret armed p.reads e h in
            elim (Bool-cases (eq_ℤ armed pin_low_val)) [
              | inl on ↦ rw (e, on) (poll_sensors-Reported alarm_gpios lasts p1 h1)
              | inr off ↦ rw (e, off) h1
            ]
      ]

  poll_rounds-Reported :
      (exits : List ℕ) (lasts : List ℤ) (p : Poll lib)
      → Reported p
      → Reported (poll_rounds lib exits (lasts, p)).1.1
  unfolding poll_rounds poll_round
  poll_rounds-Reported [] lasts p h = h
  poll_rounds-Reported (x ∷ xs) lasts p h = elim (Bool-cases (x == 0)) [
    | inr e ↦ rw e h
    | inl e ↦
        let r = gpio_read lib (pos arming_gpio) p.alarm_armed p.gpio in
        let (lasts1, p1) = arming_read lib r (lasts, p) in
        rw e (poll_rounds-Reported xs lasts1 p1 (arming_read-Reported r lasts p h))
  ]

  -- Whatever the reads of the pins answer: if none of them failed, nothing is logged and the code of
  -- the thread is 0; otherwise the first read that failed is logged, with its code and its pin, and
  -- nothing else, and the code of the thread is the code of this read.
  pub polling_thread-Reported :
      (exits : List ℕ) (armed value : ℤ) (g : Gpio lib)
      → Reported (polling_thread lib exits armed value g).1.1
  unfolding polling_thread
  polling_thread-Reported exits armed value g =
      poll_rounds-Reported exits (pos 0 ∷ pos 0 ∷ [])
        (record {
          gpio = g;
          alarm_armed = armed;
          curr_pin_value = value;
          read_err = 0;
          reads = [];
          events = [];
          logged = [];
        })
        (refl, refl)
