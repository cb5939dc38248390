-- ===== src/Gpio/Pins/Reading.antt =====
-- `gpio_read` of src/gpio_control.c: the values that it gives.
use alarm4pi.Prelude.{◌≡◌, refl, ℤ, false, ◌==◌, Bool-cases, Option-cases, inl, inr, ◌⊎◌, ℕ}
use alarm4pi.Gpio.Device.{Gpiod, LineValue, error, active, inactive}
use alarm4pi.Gpio.{Gpio, pin_low_val, pin_high_val, get_errno_or_io}
use alarm4pi.Gpio.Line.Balance.{errno_or_io-nonzero}
use alarm4pi.Gpio.Pins.{ctx_at, validate, index, value_read, gpio_read}

-- The code is not 0, or the value is that of a level.
abbrev pub IsReading : ℕ × ℤ → Type 0
IsReading (ret, value) = ((ret == 0) ≡ false) ⊎ ((value ≡ pin_low_val) ⊎ (value ≡ pin_high_val))

module _ (lib : Gpiod) where
  value_read-IsReading :
      (value : ℤ) (g : Gpio lib) (r : LineValue × lib.World)
      → IsReading (value_read lib value g r).0
  unfolding value_read get_errno_or_io
  value_read-IsReading value g (error, w) = inl (errno_or_io-nonzero (lib.errno w))
  value_read-IsReading value g (active, w) = inr (inr refl)
  value_read-IsReading value g (inactive, w) = inr (inl refl)

  -- If `gpio_read` answers 0 then it gives the low or the high level.
  pub gpio_read-IsReading : (pin value : ℤ) (g : Gpio lib) → IsReading (gpio_read lib pin value g).0
  unfolding gpio_read
  gpio_read-IsReading pin value g = elim (Bool-cases (validate lib g pin == 0)) [
    | inr e ↦ rw e (inl e)
    | inl e ↦ elim (Option-cases (ctx_at g.pin_ctxs (index pin)).request) [
      | inl n ↦ rw (e, n) (inl refl)
      | inr (r, s) ↦ rw (e, s) (value_read-IsReading value g (lib.get_value r (index pin) g.world))
    ]
  ]
