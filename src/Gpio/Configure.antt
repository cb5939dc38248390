-- ===== src/Gpio/Configure.antt =====
-- src/gpio_control.c, lines 412 to 465: the pins that alarm4pi uses.
pub mod Ready
use alarm4pi.Prelude.{ℕ, ℤ, pos, ◌==◌, if◌then◌else◌}
use alarm4pi.Gpio.Device.{Gpiod}
use alarm4pi.Gpio.{Gpio, pin_in_dir, pin_in_dir_pullup, pin_out_dir, pin_high_val}
use alarm4pi.Gpio.Pins.{gpio_direction, gpio_write}

abbrev pub pir_gpio : ℕ
pir_gpio = 17

abbrev pub relay1_gpio : ℕ
relay1_gpio = 8

abbrev pub relay2_gpio : ℕ
relay2_gpio = 9

abbrev pub relay3_gpio : ℕ
relay3_gpio = 10

abbrev pub relay4_gpio : ℕ
relay4_gpio = 11

abbrev pub contact1_gpio : ℕ
contact1_gpio = 5

abbrev pub contact2_gpio : ℕ
contact2_gpio = 6

abbrev pub arming_gpio : ℕ
arming_gpio = 18

module _ (lib : Gpiod) where
  -- `ret_err=gpio_direction(curr_gpio, dir); if (0 == ret_err) …`
  unfoldable pub directed : ℕ → ℤ → (Gpio lib → ℕ × Gpio lib) → Gpio lib → ℕ × Gpio lib
  directed curr_gpio dir next g =
      let (ret_err, g1) = gpio_direction lib (pos curr_gpio) dir g in
      if ret_err == 0 then next g1 else (ret_err, g1)

  -- The same for an output, which is set to high first; the code of `gpio_write` is not used.
  unfoldable pub output_high : ℕ → (Gpio lib → ℕ × Gpio lib) → Gpio lib → ℕ × Gpio lib
  unfolding directed
  output_high curr_gpio next =
      directed curr_gpio pin_out_dir (λ g. next (gpio_write lib (pos curr_gpio) pin_high_val g).1)

  unfoldable pub configure_gpios : Gpio lib → ℕ × Gpio lib
  configure_gpios = directed pir_gpio pin_in_dir (
      output_high relay1_gpio (
        output_high relay2_gpio (
          output_high relay3_gpio (
            output_high relay4_gpio (
              directed contact1_gpio pin_in_dir_pullup (
                directed contact2_gpio pin_in_dir_pullup
                  (output_high arming_gpio (λ g. (0, g)))))))))
