-- ===== src/Gpio/Pins/Effect.antt =====
-- What `gpio_direction` and `gpio_write` of src/gpio_control.c do to the array of pins.
use alarm4pi.Prelude.{
  ℕ, zero, suc, ◌≡◌, ◌≢◌, refl, ◌∙◌, ap, ℤ, Bool, true, false, Option, none, some, List, [], ◌∷◌,
  arith, eq_ℤ, if◌then◌else◌, Option-cases, inl, inr, get_or, set,
}
use alarm4pi.Gpio.Device.{Gpiod, LineValue, error, active, inactive}
use alarm4pi.Gpio.{Gpio, PinCtx, pin_low_val, pin_high_val}
use alarm4pi.Gpio.Line.{build_line_request}
use alarm4pi.Gpio.Pins.{
  fresh_ctx, ctx_at, set_ctx, release_request, with_ctx, index, restored, restore, built, rebuild,
  old_value_read, direct, gpio_direction, value_written, write_ctx, gpio_write,
}

get_or-set_ne :
    {R : Type 0} (ctxs : List (PinCtx R)) (i j : ℕ) (ctx : PinCtx R)
    → i ≢ j
    → get_or (set ctxs i ctx) j fresh_ctx ≡ get_or ctxs j fresh_ctx
get_or-set_ne [] i j ctx h = refl
get_or-set_ne (x ∷ ctxs) zero zero ctx h = absurd (h refl)
get_or-set_ne (x ∷ ctxs) zero (suc j) ctx h = refl
get_or-set_ne (x ∷ ctxs) (suc i) zero ctx h = refl
get_or-set_ne (x ∷ ctxs) (suc i) (suc j) ctx h = get_or-set_ne ctxs i j ctx (λ e. h (ap suc e))

set_ctx_ne :
    {R : Type 0} (o : Option (List (PinCtx R))) (i j : ℕ) (ctx : PinCtx R)
    → i ≢ j
    → ctx_at (set_ctx o i ctx) j ≡ ctx_at o j
set_ctx_ne none i j ctx h = refl
set_ctx_ne (some ctxs) i j ctx h = get_or-set_ne ctxs i j ctx h

module _ (lib : Gpiod) (pin j : ℕ) (ne : pin ≢ j) where
  open lib use {World, Request}

  -- The element of another pin is the one before.
  Same : Gpio lib → Gpio lib → Type 0
  Same g g' = ctx_at g'.pin_ctxs j ≡ ctx_at g.pin_ctxs j

  restored-Same :
      (g : Gpio lib) (d : ℤ) (b : (ℕ × Option Request) × World) → Same g (restored lib g pin d b)
  unfolding Same restored with_ctx
  restored-Same g d ((ret, r), w) =
      ground (arith, set_ctx_ne g.pin_ctxs pin j (record { request = r; direction = d }) ne)

  restore-Same : (g : Gpio lib) (d v : ℤ) → Same g (restore lib g pin d v)
  unfolding Same restore
  restore-Same g d v =
      ground (arith, restored-Same g d (build_line_request lib g.chip pin d v g.world))

  built-Same :
      (g : Gpio lib) (dir d v : ℤ) (b : (ℕ × Option Request) × World)
      → Same g (built lib g pin dir d v b).1
  unfolding Same built with_ctx
  built-Same g dir d v ((ret, r), w) = ground (
    arith,
    set_ctx_ne g.pin_ctxs pin j (record { request = r; direction = dir }) ne,
    restore-Same (record g { world = w }) d v,
  )

  rebuild-Same : (g : Gpio lib) (dir v : ℤ) → Same g (rebuild lib g pin dir v).1
  unfolding Same rebuild with_ctx
  rebuild-Same g dir v =
      let ctx = ctx_at g.pin_ctxs pin in
      let empty : PinCtx Request = record ctx { request = none } in
      let g1 = with_ctx lib g pin empty (release_request lib ctx.request g.world) in
      built-Same g1 dir ctx.direction v
        (build_line_request lib g1.chip pin dir pin_low_val g1.world)
      ∙ set_ctx_ne g.pin_ctxs pin j empty ne

  old_value_read-Same :
      (g : Gpio lib) (dir : ℤ) (r : LineValue × World) → Same g (old_value_read lib g pin dir r).1
  unfolding Same old_value_read
  old_value_read-Same g dir (error, w) = refl
  old_value_read-Same g dir (active, w) = rebuild-Same (record g { world = w }) dir pin_high_val
  old_value_read-Same g dir (inactive, w) = rebuild-Same (record g { world = w }) dir pin_low_val

  direct-Same :
      (g : Gpio lib) (dir : ℤ) (ctx : PinCtx Request) → Same g (direct lib g pin dir ctx).1
  unfolding Same direct
  direct-Same g dir ctx = elim (Option-cases ctx.request) [
    | inl e ↦ rw e (rebuild-Same g dir pin_low_val)
    | inr (r, e) ↦ rw e (
        ground (
          arith,
          rebuild-Same g dir pin_low_val,
          old_value_read-Same g dir (lib.get_value r pin g.world),
        ))
  ]

-- Whatever it answers, `gpio_direction` leaves every other pin alone.
pub gpio_direction_other :
    (lib : Gpiod) (pin dir : ℤ) (g : Gpio lib) (j : ℕ)
    → index pin ≢ j
    → ctx_at (gpio_direction lib pin dir g).1.pin_ctxs j ≡ ctx_at g.pin_ctxs j
unfolding gpio_direction Same
gpio_direction_other lib pin dir g j ne =
    ground (arith, direct-Same lib (index pin) j ne g dir (ctx_at g.pin_ctxs (index pin)))

value_written-ctxs :
    (lib : Gpiod) (g : Gpio lib) (r : Bool × lib.World)
    → (value_written lib g r).1.pin_ctxs ≡ g.pin_ctxs
unfolding value_written
value_written-ctxs lib g (true, w) = refl
value_written-ctxs lib g (false, w) = refl

write_ctx-ctxs :
    (lib : Gpiod) (g : Gpio lib) (pin : ℕ) (value : ℤ) (ctx : PinCtx lib.Request)
    → (write_ctx lib g pin value ctx).1.pin_ctxs ≡ g.pin_ctxs
unfolding write_ctx
write_ctx-ctxs lib g pin value ctx = elim (Option-cases ctx.request) [
  | inl e ↦ rw e refl
  | inr (r, e) ↦ rw e (
      ground (
        arith,
        value_written-ctxs lib g
            (lib.set_value r pin (if eq_ℤ value pin_high_val then active else inactive) g.world),
      ))
]

-- Whatever it answers, `gpio_write` leaves the array of pins alone.
pub gpio_write-ctxs :
    (lib : Gpiod) (pin value : ℤ) (g : Gpio lib)
    → (gpio_write lib pin value g).1.pin_ctxs ≡ g.pin_ctxs
unfolding gpio_write
gpio_write-ctxs lib pin value g =
    ground (arith, write_ctx-ctxs lib g (index pin) value (ctx_at g.pin_ctxs (index pin)))
