-- ===== src/Gpio/Configure/Ready.antt =====
-- `configure_gpios` of src/gpio_control.c: the pins that it leaves configured.
use alarm4pi.Prelude.{
  ℕ, ◌≡◌, refl, ◌∙◌, ap, ℤ, pos, Bool, true, false, ◌&&◌, not, List, [], ◌∷◌, arith, ◌==◌, inl, inr,
  ◌⊎◌, drop,
}
use alarm4pi.Gpio.Device.{Gpiod, Ownership}
use alarm4pi.Gpio.{Gpio, pin_low_val, pin_in_dir, pin_in_dir_pullup, pin_out_dir, pin_high_val}
use alarm4pi.Gpio.Pins.{ctx_at, gpio_direction, gpio_write}
use alarm4pi.Gpio.Pins.Owned.{IsWellFormed}
use alarm4pi.Gpio.Pins.Keeps.{gpio_direction-IsWellFormed}
use alarm4pi.Gpio.Pins.Cycle.{gpio_write-IsWellFormed}
use alarm4pi.Gpio.Pins.Effect.{gpio_direction_other, gpio_write-ctxs}
use alarm4pi.Gpio.Pins.Direction.{Has, Gets-Has, gpio_direction-Directed}
use alarm4pi.Gpio.Configure.{
  pir_gpio, relay1_gpio, relay2_gpio, relay3_gpio, relay4_gpio, contact1_gpio, contact2_gpio,
  arming_gpio, directed, output_high, configure_gpios,
}

-- Each pin of a list has a request in its direction.
abbrev pub HasAll : {lib : Gpiod} → Gpio lib → List (ℕ × ℤ) → Type 0
HasAll g [] = Unit
HasAll g ((pin, dir) ∷ pins) = Has g pin dir × HasAll g pins

-- The pin is none of a list.
abbrev pub apart : ℕ → List (ℕ × ℤ) → Bool
apart pin [] = true
apart pin ((p, dir) ∷ pins) = not (pin == p) && apart pin pins

-- The state is well formed, and the code is not 0 or each pin of the list is configured.
abbrev pub Configured : (lib : Gpiod) → Ownership lib → ℕ → List (ℕ × ℤ) → ℕ × Gpio lib → Type 0
Configured lib own base pins b =
    IsWellFormed lib own base b.1 × (((b.0 == 0) ≡ false) ⊎ HasAll b.1 pins)

-- The pins of the alarm, in the reverse of the order in which they are configured.
abbrev pub alarm_pins : List (ℕ × ℤ)
alarm_pins =
    (arming_gpio, pin_out_dir)
    ∷ (contact2_gpio, pin_in_dir_pullup)
    ∷ (contact1_gpio, pin_in_dir_pullup)
    ∷ (relay4_gpio, pin_out_dir)
    ∷ (relay3_gpio, pin_out_dir)
    ∷ (relay2_gpio, pin_out_dir)
    ∷ (relay1_gpio, pin_out_dir)
    ∷ (pir_gpio, pin_in_dir)
    ∷ []

HasAll-same :
    {lib : Gpiod} (g h : Gpio lib) (pins : List (ℕ × ℤ))
    → h.pin_ctxs ≡ g.pin_ctxs
    → HasAll g pins
    → HasAll h pins
HasAll-same g h [] e a = a
HasAll-same g h ((pin, dir) ∷ pins) e ((r, is), a) =
    ((r, ap (λ o. ctx_at o pin) e ∙ is), HasAll-same g h pins e a)

module _ (lib : Gpiod) (own : Ownership lib) (base : ℕ) where
  open lib use {World, Request}

  direction-HasAll :
      (pin : ℕ) (dir : ℤ) (g : Gpio lib) (pins : List (ℕ × ℤ))
      → apart pin pins ≡ true
      → HasAll g pins
      → HasAll (gpio_direction lib (pos pin) dir g).1 pins
  direction-HasAll pin dir g [] h a = a
  direction-HasAll pin dir g ((p, d) ∷ pins) h ((r, is), a) = (
    (r, gpio_direction_other lib (pos pin) dir g p (λ e. ground arith) ∙ is),
    direction-HasAll pin dir g pins (ground arith) a,
  )

  directed-Configured :
      (pin : ℕ) (dir : ℤ) (next : Gpio lib → ℕ × Gpio lib) (pins all : List (ℕ × ℤ)) (g : Gpio lib)
      → apart pin pins ≡ true
      → ((h : Gpio lib)
          → IsWellFormed lib own base h
          → HasAll h ((pin, dir) ∷ pins)
          → Configured lib own base all (next h))
      → IsWellFormed lib own base g
      → HasAll g pins
      → Configured lib own base all (directed lib pin dir next g)
  unfolding directed
  directed-Configured pin dir next pins all g free then wf a =
      elim (gpio_direction-Directed lib own base (pos pin) dir g wf) [
        | inl (e, there, gets) ↦ rw e (
            then (gpio_direction lib (pos pin) dir g).1
              (gpio_direction-IsWellFormed lib own base (pos pin) dir g wf)
              (
                Gets-Has g.chip pin dir pin_low_val (gpio_direction lib (pos pin) dir g).1 there
                    gets,
                direction-HasAll pin dir g pins free a,
              ))
        | inr (e, back) ↦ rw e (gpio_direction-IsWellFormed lib own base (pos pin) dir g wf, inl e)
      ]

  output_high-Configured :
      (pin : ℕ) (next : Gpio lib → ℕ × Gpio lib) (pins all : List (ℕ × ℤ)) (g : Gpio lib)
      → apart pin pins ≡ true
      → ((h : Gpio lib)
          → IsWellFormed lib own base h
          → HasAll h ((pin, pin_out_dir) ∷ pins)
          → Configured lib own base all (next h))
      → IsWellFormed lib own base g
      → HasAll g pins
      → Configured lib own base all (output_high lib pin next g)
  unfolding output_high
  output_high-Configured pin next pins all g free then =
      directed-Configured pin pin_out_dir (λ h. next (gpio_write lib (pos pin) pin_high_val h).1)
        pins all g free
        (λ h wf a.
          then (gpio_write lib (pos pin) pin_high_val h).1
            (gpio_write-IsWellFormed lib own base (pos pin) pin_high_val h wf)
            (HasAll-same h (gpio_write lib (pos pin) pin_high_val h).1 ((pin, pin_out_dir) ∷ pins)
              (gpio_write-ctxs lib (pos pin) pin_high_val h) a))

  -- From a well-formed state, `configure_gpios` leads to a well-formed one, and if it answers 0 then
  -- each of the alarm's eight pins has a request in its direction.
  pub configure_gpios-Configured :
      (g : Gpio lib)
      → IsWellFormed lib own base g
      → Configured lib own base alarm_pins (configure_gpios lib g)
  unfolding configure_gpios
  configure_gpios-Configured g wf =
      directed-Configured pir_gpio pin_in_dir _ [] alarm_pins g refl
        (λ g1. output_high-Configured relay1_gpio _ (drop 7 alarm_pins) alarm_pins g1 refl (λ g2.
          output_high-Configured relay2_gpio _ (drop 6 alarm_pins) alarm_pins g2 refl (λ g3.
            output_high-Configured relay3_gpio _ (drop 5 alarm_pins) alarm_pins g3 refl (λ g4.
              output_high-Configured relay4_gpio _ (drop 4 alarm_pins) alarm_pins g4 refl (λ g5.
                directed-Configured contact1_gpio pin_in_dir_pullup _ (drop 3 alarm_pins) alarm_pins
                  g5 refl
                  (λ g6.
                    directed-Configured contact2_gpio pin_in_dir_pullup _ (drop 2 alarm_pins)
                      alarm_pins g6 refl
                      (λ g7.
                        output_high-Configured arming_gpio _ (drop 1 alarm_pins) alarm_pins g7 refl
                          (λ g8 wf8 a. (wf8, inr a)))))))))
        wf tt
