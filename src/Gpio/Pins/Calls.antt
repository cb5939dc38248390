-- ===== src/Gpio/Pins/Calls.antt =====
-- src/gpio_control.c over whole lives: any calls between an `open_gpios` and a `close_gpios`.
use alarm4pi.Prelude.{sym, ℕ, ◌≡◌, ◌∙◌, ℤ, List, [], ◌∷◌, inl}
use alarm4pi.Gpio.Device.{Gpiod, Ownership}
use alarm4pi.Gpio.{Gpio}
use alarm4pi.Gpio.Pins.{open_gpios, close_gpios, gpio_direction, gpio_read, gpio_write}
use alarm4pi.Gpio.Pins.Owned.{IsClosed, IsWellFormed}
use alarm4pi.Gpio.Pins.Keeps.{gpio_direction-IsWellFormed}
use alarm4pi.Gpio.Pins.Cycle.{
  open_gpios-IsWellFormed, close_gpios-IsClosed, gpio_read-IsWellFormed, gpio_write-IsWellFormed,
}

-- A call of the library.
pub data Call : Type 0 where
  open_call close_call : Call
  direction read write : ℤ → ℤ → Call

unfoldable pub run_call : (lib : Gpiod) → Call → Gpio lib → Gpio lib
run_call lib open_call g = (open_gpios lib g).1
run_call lib close_call g = (close_gpios lib g).1
run_call lib (direction pin dir) g = (gpio_direction lib pin dir g).1
run_call lib (read pin value) g = (gpio_read lib pin value g).1
run_call lib (write pin value) g = (gpio_write lib pin value g).1

unfoldable pub run_calls : (lib : Gpiod) → List Call → Gpio lib → Gpio lib
run_calls lib [] g = g
run_calls lib (c ∷ cs) g = run_calls lib cs (run_call lib c g)

module _ (lib : Gpiod) (own : Ownership lib) (base : ℕ) where
  run_call-IsWellFormed :
      (c : Call) (g : Gpio lib)
      → IsWellFormed lib own base g
      → IsWellFormed lib own base (run_call lib c g)
  unfolding run_call
  run_call-IsWellFormed open_call g wf = open_gpios-IsWellFormed lib own base g wf
  run_call-IsWellFormed close_call g wf = inl (close_gpios-IsClosed lib own base g wf)
  run_call-IsWellFormed (direction pin dir) g wf =
      gpio_direction-IsWellFormed lib own base pin dir g wf
  run_call-IsWellFormed (read pin value) g wf = gpio_read-IsWellFormed lib own base pin value g wf
  run_call-IsWellFormed (write pin value) g wf = gpio_write-IsWellFormed lib own base pin value g wf

  -- Any calls of the library, failing or not, lead from a well-formed state to a well-formed one.
  pub run_calls-IsWellFormed :
      (cs : List Call) (g : Gpio lib)
      → IsWellFormed lib own base g
      → IsWellFormed lib own base (run_calls lib cs g)
  unfolding run_calls
  run_calls-IsWellFormed [] g wf = wf
  run_calls-IsWellFormed (c ∷ cs) g wf =
      run_calls-IsWellFormed cs (run_call lib c g) (run_call-IsWellFormed c g wf)

  -- If the library is closed at first, then after any calls of it, failing or not, `close_gpios`
  -- leaves the world with as many objects as before the first one.
  pub close_gpios_releases_all :
      (cs : List Call) (g : Gpio lib)
      → IsClosed lib own base g
      → own.live (close_gpios lib (run_calls lib cs g)).1.world ≡ own.live g.world
  close_gpios_releases_all cs g c =
      (close_gpios-IsClosed lib own base (run_calls lib cs g)
        (run_calls-IsWellFormed cs g (inl c))).balance
      ∙ sym c.balance
