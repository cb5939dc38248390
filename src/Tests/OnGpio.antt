-- ===== src/Tests/OnGpio.antt =====
-- The theorems on src/gpio_control.c at concrete inputs.
use alarm4pi.Prelude.{◌≡◌, pos, List, [], ◌∷◌, arith, inl}
use alarm4pi.Gpio.{Gpio, pin_in_dir_pullup, pin_out_dir, pin_high_val}
use alarm4pi.Gpio.Pins.{ctx_at, open_gpios, close_gpios, gpio_direction}
use alarm4pi.Gpio.Pins.Owned.{IsWellFormed}
use alarm4pi.Gpio.Pins.Cycle.{open_gpios-IsWellFormed}
use alarm4pi.Gpio.Pins.Calls.{
  Call, open_call, direction, read, write, run_calls, close_gpios_releases_all,
}
use alarm4pi.Gpio.Pins.Effect.{gpio_direction_other}
use alarm4pi.Gpio.Configure.{configure_gpios}
use alarm4pi.Gpio.Configure.Ready.{Configured, alarm_pins, configure_gpios-Configured}
use alarm4pi.Tests.Bench.{bench, bench_own, closed_gpio, closed_gpio-IsClosed}

-- A pin out of range, one in each direction, and one that changes its direction.
abbrev some_calls : List Call
some_calls =
    open_call
    ∷ direction (pos 99) pin_out_dir
    ∷ direction (pos 8) pin_out_dir
    ∷ write (pos 8) pin_high_val
    ∷ direction (pos 5) pin_in_dir_pullup
    ∷ read (pos 5) (pos 0)
    ∷ direction (pos 8) pin_in_dir_pullup
    ∷ []

abbrev open_gpio : Gpio bench
open_gpio = (open_gpios bench closed_gpio).1

open_gpio-IsWellFormed : IsWellFormed bench bench_own 3 open_gpio
open_gpio-IsWellFormed =
    open_gpios-IsWellFormed bench bench_own 3 closed_gpio (inl closed_gpio-IsClosed)

close_gpios_releases_all_example :
    (close_gpios bench (run_calls bench some_calls closed_gpio)).1.world ≡ 3
close_gpios_releases_all_example =
    close_gpios_releases_all bench bench_own 3 some_calls closed_gpio closed_gpio-IsClosed

gpio_direction_other_example :
    ctx_at (gpio_direction bench (pos 8) pin_out_dir open_gpio).1.pin_ctxs 5
    ≡ ctx_at open_gpio.pin_ctxs 5
gpio_direction_other_example =
    gpio_direction_other bench (pos 8) pin_out_dir open_gpio 5 (omega arith)

configure_gpios-Configured_example :
    Configured bench bench_own 3 alarm_pins (configure_gpios bench open_gpio)
configure_gpios-Configured_example =
    configure_gpios-Configured bench bench_own 3 open_gpio open_gpio-IsWellFormed
