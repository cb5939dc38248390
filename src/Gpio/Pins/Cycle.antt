-- ===== src/Gpio/Pins/Cycle.antt =====
-- `open_gpios`, `close_gpios`, `gpio_read` and `gpio_write` of src/gpio_control.c on the state between
-- two calls.
use mathlib.Core.Path.{ap₂}
use alarm4pi.Prelude.{
  ℕ, ◌+◌, ◌<◌, ◌≡◌, refl, ◌∙◌, ap, ℤ, Bool, true, false, ◌||◌, Option, none, some, List, arith,
  ◌==◌, eq_ℤ, if◌then◌else◌, Bool-cases, Option-cases, inl, inr, replicate, length-replicate,
}
use alarm4pi.Gpio.Device.{Gpiod, Ownership, handed, handed_if, LineValue, error, active, inactive}
use alarm4pi.Gpio.{Gpio, PinCtx, pin_out_dir, pin_low_val, pin_high_val}
use alarm4pi.Gpio.Pins.{
  fresh_ctx, ctx_at, release_all_pin_requests, validate, index, opened, open_info, open_chip,
  open_gpios, free_ctxs, close_chip, close_gpios, value_read, gpio_read, value_written, write_ctx,
  gpio_write, chip_path,
}
use alarm4pi.Gpio.Pins.Owned.{
  requests, requests-replicate, IsClosed, IsOpen, IsWellFormed, IsOpen-world, live-release_all,
}
use alarm4pi.Gpio.Pins.Keeps.{validate-IsOpen}

module _ (lib : Gpiod) (own : Ownership lib) (base : ℕ) where
  open lib use {World, Chip, Info, Request}
  open own use {live}

  IsClosed-world :
      (g : Gpio lib) (w : World)
      → IsClosed lib own base g
      → live w ≡ base
      → IsClosed lib own base (record g { chip = none; world = w })
  IsClosed-world g w c h = record {
    opened = c.opened;
    chip = refl;
    pin_ctxs = c.pin_ctxs;
    num_lines = c.num_lines;
    balance = h;
  }

  opened-IsWellFormed :
      (g : Gpio lib) (chip : Chip) (n : ℕ) (r : Bool × World)
      → IsClosed lib own base g
      → 0 < n
      → live r.1 ≡ base + 1 + (if r.0 then 1 else 0)
      → IsWellFormed lib own base (opened lib g chip n r).1
  unfolding opened
  opened-IsWellFormed g chip n (false, w) c lt h =
      inl (IsClosed-world g (lib.chip_close chip w) c (omega (arith, own.chip_close_live chip w)))
  opened-IsWellFormed g chip n (true, w) c lt h = inr (record {
    the_chip = chip;
    ctxs = replicate n fresh_ctx;
    opened = refl;
    chip = refl;
    pin_ctxs = refl;
    num_lines = length-replicate n fresh_ctx;
    some_lines = lt;
    balance = omega (arith, requests-replicate Request n);
  })

  open_info-IsWellFormed :
      (g : Gpio lib) (chip : Chip) (r : Option Info × World)
      → IsClosed lib own base g
      → live r.1 ≡ base + 1 + handed r.0
      → IsWellFormed lib own base (open_info lib g chip r).1
  unfolding open_info
  open_info-IsWellFormed g chip (none, w) c h =
      inl (IsClosed-world g (lib.chip_close chip w) c (omega (arith, own.chip_close_live chip w)))
  open_info-IsWellFormed g chip (some i, w) c h =
      let w1 = lib.info_free i w in
      let n = lib.info_num_lines i in
      elim (Bool-cases (n == 0)) [
        | inl e ↦ rw e (
            inl (
              IsClosed-world g (lib.chip_close chip w1) c
                (omega (arith, own.chip_close_live chip w1, own.info_free_live i w))))
        | inr e ↦ rw e (
            opened-IsWellFormed g chip n (lib.calloc n w1) c (ground arith) (
              granted (lib.calloc n w1) (live w1) (own.calloc_live n w1)
                (omega (arith, own.info_free_live i w))))
      ]
    where
      granted :
          (r : Bool × World) (n : ℕ)
          → live r.1 ≡ n + handed_if r.0
          → n ≡ base + 1
          → live r.1 ≡ base + 1 + (if r.0 then 1 else 0)
      granted (true, w) n e f = omega arith
      granted (false, w) n e f = omega arith

  open_chip-IsWellFormed :
      (g : Gpio lib) (r : Option Chip × World)
      → IsClosed lib own base g
      → live r.1 ≡ base + handed r.0
      → IsWellFormed lib own base (open_chip lib g r).1
  unfolding open_chip
  open_chip-IsWellFormed g (none, w) c h = inl (IsClosed-world g w c (omega arith))
  open_chip-IsWellFormed g (some chip, w) c h =
      open_info-IsWellFormed g chip (lib.chip_get_info chip w) c
        (omega (arith, own.chip_get_info_live chip w))

  pub open_gpios-IsWellFormed :
      (g : Gpio lib) → IsWellFormed lib own base g → IsWellFormed lib own base (open_gpios lib g).1
  unfolding open_gpios
  open_gpios-IsWellFormed g (inr o) = simp o.opened (inr o)
  open_gpios-IsWellFormed g (inl c) =
      let path = chip_path (lib.getenv "GPIO_CONTROL_CHIP" g.world) in
      simp c.opened (
        open_chip-IsWellFormed g (lib.chip_open path g.world) c (
          own.chip_open_live path g.world
          ∙ ap (λ (n : ℕ). n + handed (lib.chip_open path g.world).0) c.balance))

  live-close :
      (chip : Chip) (ctxs : List (PinCtx Request)) (w : World)
      → live w ≡ base + (2 + requests ctxs)
      → live (close_chip lib (some chip) (free_ctxs lib (some ctxs) w)) ≡ base
  unfolding close_chip free_ctxs
  live-close chip ctxs w h =
      let w1 = release_all_pin_requests lib ctxs w in
      omega (
        arith,
        live-release_all lib own base ctxs w,
        own.free_live w1,
        own.chip_close_live chip (lib.free w1),
      )

  -- From any well-formed state `close_gpios` closes the library, and gives back the chip, the array
  -- and every request.
  pub close_gpios-IsClosed :
      (g : Gpio lib) → IsWellFormed lib own base g → IsClosed lib own base (close_gpios lib g).1
  unfolding close_gpios
  close_gpios-IsClosed g (inl c) = simp c.opened c
  close_gpios-IsClosed g (inr o) = simp o.opened (record {
    opened = refl;
    chip = refl;
    pin_ctxs = refl;
    num_lines = refl;
    balance =
        ap₂
          (λ (k : Option Chip) (p : Option (List (PinCtx Request))).
            live (close_chip lib k (free_ctxs lib p g.world)))
          o.chip o.pin_ctxs
        ∙ live-close o.the_chip o.ctxs g.world o.balance;
  })

  value_read-IsOpen :
      (v : ℤ) (g : Gpio lib) (r : LineValue × World)
      → IsOpen lib own base g
      → live r.1 ≡ live g.world
      → IsOpen lib own base (value_read lib v g r).1
  unfolding value_read
  value_read-IsOpen v g (error, w) o h = IsOpen-world lib own base g w o h
  value_read-IsOpen v g (active, w) o h = IsOpen-world lib own base g w o h
  value_read-IsOpen v g (inactive, w) o h = IsOpen-world lib own base g w o h

  pub gpio_read-IsWellFormed :
      (pin value : ℤ) (g : Gpio lib)
      → IsWellFormed lib own base g
      → IsWellFormed lib own base (gpio_read lib pin value g).1
  unfolding gpio_read
  gpio_read-IsWellFormed pin value g wf = elim (Bool-cases (validate lib g pin == 0)) [
    | inr e ↦ rw e wf
    | inl e ↦ elim (Option-cases (ctx_at g.pin_ctxs (index pin)).request) [
      | inl n ↦ rw (e, n) wf
      | inr (r, s) ↦
          rw (e, s)
            (inr (
              value_read-IsOpen value g (lib.get_value r (index pin) g.world)
                (validate-IsOpen lib own base g pin wf e).0
                (own.get_value_live r (index pin) g.world)))
    ]
  ]

  value_written-IsOpen :
      (g : Gpio lib) (r : Bool × World)
      → IsOpen lib own base g
      → live r.1 ≡ live g.world
      → IsOpen lib own base (value_written lib g r).1
  unfolding value_written
  value_written-IsOpen g (true, w) o h = IsOpen-world lib own base g w o h
  value_written-IsOpen g (false, w) o h = IsOpen-world lib own base g w o h

  write_ctx-IsOpen :
      (g : Gpio lib) (pin : ℕ) (value : ℤ) (ctx : PinCtx Request)
      → IsOpen lib own base g
      → IsOpen lib own base (write_ctx lib g pin value ctx).1
  unfolding write_ctx
  write_ctx-IsOpen g pin value ctx o = elim (Option-cases ctx.request) [
    | inl n ↦ rw n o
    | inr (r, s) ↦ elim (Bool-cases (eq_ℤ ctx.direction pin_out_dir)) [
      | inl out ↦
          let level : LineValue = if eq_ℤ value pin_high_val then active else inactive in
          rw (s, out)
            (value_written-IsOpen g (lib.set_value r pin level g.world) o
              (own.set_value_live r pin level g.world))
      | inr other ↦ rw (s, other) o
    ]
  ]

  pub gpio_write-IsWellFormed :
      (pin value : ℤ) (g : Gpio lib)
      → IsWellFormed lib own base g
      → IsWellFormed lib own base (gpio_write lib pin value g).1
  unfolding gpio_write
  gpio_write-IsWellFormed pin value g wf =
      elim (Bool-cases (eq_ℤ value pin_low_val || eq_ℤ value pin_high_val)) [
        | inr bad ↦ rw bad wf
        | inl good ↦ elim (Bool-cases (validate lib g pin == 0)) [
          | inr e ↦ rw (good, e) wf
          | inl e ↦
              rw (good, e)
                (inr (
                  write_ctx-IsOpen g (index pin) value (ctx_at g.pin_ctxs (index pin))
                    (validate-IsOpen lib own base g pin wf e).0))
        ]
      ]
