-- ===== src/Gpio/Pins/Keeps.antt =====
-- `gpio_direction` of src/gpio_control.c on the state between two calls.
use alarm4pi.Prelude.{
  ℕ, ◌<◌, ◌≡◌, refl, ap, ℤ, pos, negsuc, true, false, Option, none, some, arith, ◌==◌, eq_ℤ,
  Bool-cases, Option-cases, inl, inr,
}
use alarm4pi.Gpio.Device.{Gpiod, Ownership, handed, LineValue, error, active, inactive}
use alarm4pi.Gpio.{
  Gpio, PinCtx, validate_library_opened, validate_pin, pin_out_dir, pin_low_val, pin_high_val,
}
use alarm4pi.Gpio.Line.{build_line_request}
use alarm4pi.Gpio.Line.Balance.{is_some, Balanced, build_line_request-Balanced}
use alarm4pi.Gpio.Pins.{
  ctx_at, release_request, with_ctx, validate, index, is_direction, restored, restore, built,
  rebuild, old_value_read, direct, gpio_direction,
}
use alarm4pi.Gpio.Pins.Owned.{
  IsOpen, IsWellFormed, IsOpen-world, IsOpen-with_ctx, ctx_at-with_ctx, live-release_request,
  handed-ctx_at-le,
}

-- A pin that passes the checks is the index of an element.
pub validate_pin-lt :
    (num_lines : ℕ) (pin : ℤ) → (validate_pin num_lines pin == 0) ≡ true → index pin < num_lines
unfolding validate_pin
validate_pin-lt n (pos pin) h = ground arith
validate_pin-lt n (negsuc pin) h = ground arith

pub handed-none : {R : Type 0} (r : Option R) → is_some r ≡ false → handed r ≡ 0
handed-none none h = refl
handed-none (some r) h = absurd (cc h)

module _ (lib : Gpiod) (own : Ownership lib) (base : ℕ) where
  open lib use {World, Chip, Info, Request}
  open own use {live}

  -- An operation on a pin goes on only if the library is open and the pin is in range.
  pub validate-IsOpen :
      (g : Gpio lib) (pin : ℤ)
      → IsWellFormed lib own base g
      → (validate lib g pin == 0) ≡ true
      → IsOpen lib own base g × (index pin < g.num_lines)
  unfolding validate validate_library_opened
  validate-IsOpen g pin (inl c) h = absurd (ground arith)
  validate-IsOpen g pin (inr o) h = (o, validate_pin-lt g.num_lines pin (ground arith))

  restored-IsOpen :
      (g : Gpio lib) (pin : ℕ) (d : ℤ) (b : (ℕ × Option Request) × World)
      → IsOpen lib own base g
      → pin < g.num_lines
      → (ctx_at g.pin_ctxs pin).request ≡ none
      → Balanced lib own (live g.world) b
      → IsOpen lib own base (restored lib g pin d b)
  unfolding restored
  restored-IsOpen g pin d ((ret, r), w) o lt empty (l, z) = elim (Bool-cases (ret == 0)) [
    | inl e ↦ rw e (
        IsOpen-with_ctx lib own base g pin (record { request = r; direction = d }) w o lt
          (omega (arith, ap handed empty)))
    | inr e ↦ rw e (IsOpen-world lib own base g w o (omega (arith, handed-none r (cc (z, e)))))
  ]

  restore-IsOpen :
      (g : Gpio lib) (pin : ℕ) (d v : ℤ)
      → IsOpen lib own base g
      → pin < g.num_lines
      → (ctx_at g.pin_ctxs pin).request ≡ none
      → IsOpen lib own base (restore lib g pin d v)
  unfolding restore
  restore-IsOpen g pin d v o lt empty = elim (Bool-cases (is_direction d)) [
    | inl e ↦ rw e (
        restored-IsOpen g pin d (build_line_request lib g.chip pin d v g.world) o lt empty
          (build_line_request-Balanced lib own g.chip pin d v g.world))
    | inr e ↦ rw e o
  ]

  built-IsOpen :
      (g : Gpio lib) (pin : ℕ) (dir d v : ℤ) (b : (ℕ × Option Request) × World)
      → IsOpen lib own base g
      → pin < g.num_lines
      → (ctx_at g.pin_ctxs pin).request ≡ none
      → Balanced lib own (live g.world) b
      → IsOpen lib own base (built lib g pin dir d v b).1
  unfolding built
  built-IsOpen g pin dir d v ((ret, r), w) o lt empty (l, z) = elim (Bool-cases (ret == 0)) [
    | inl e ↦ rw e (
        IsOpen-with_ctx lib own base g pin (record { request = r; direction = dir }) w o lt
          (omega (arith, ap handed empty)))
    | inr e ↦ rw e (
        restore-IsOpen (record g { world = w }) pin d v
          (IsOpen-world lib own base g w o (omega (arith, handed-none r (cc (z, e))))) lt empty)
  ]

  rebuild-IsOpen :
      (g : Gpio lib) (pin : ℕ) (dir v : ℤ)
      → IsOpen lib own base g
      → pin < g.num_lines
      → IsOpen lib own base (rebuild lib g pin dir v).1
  unfolding rebuild
  rebuild-IsOpen g pin dir v o lt =
      let ctx = ctx_at g.pin_ctxs pin in
      let empty : PinCtx Request = record ctx { request = none } in
      let w = release_request lib ctx.request g.world in
      let g1 = with_ctx lib g pin empty w in
      let o1 = IsOpen-with_ctx lib own base g pin empty w o lt (
        omega (
          arith,
          live-release_request lib own base ctx.request g.world,
          handed-ctx_at-le lib own base g pin o lt,
        )) in
      built-IsOpen g1 pin dir ctx.direction v
        (build_line_request lib g1.chip pin dir pin_low_val g1.world) o1 lt
        (ap (λ (c : PinCtx Request). c.request) (ctx_at-with_ctx lib own base g pin empty w o lt))
        (build_line_request-Balanced lib own g1.chip pin dir pin_low_val g1.world)

  direct-IsOpen :
      (g : Gpio lib) (pin : ℕ) (dir : ℤ) (ctx : PinCtx Request)
      → IsOpen lib own base g
      → pin < g.num_lines
      → IsOpen lib own base (direct lib g pin dir ctx).1
  unfolding direct
  direct-IsOpen g pin dir ctx o lt = elim (Option-cases ctx.request) [
    | inl e ↦ rw e (rebuild-IsOpen g pin dir pin_low_val o lt)
    | inr (r, e) ↦ elim (Bool-cases (eq_ℤ ctx.direction pin_out_dir)) [
      | inl out ↦
          rw (e, out) (read (lib.get_value r pin g.world) (own.get_value_live r pin g.world))
      | inr other ↦ rw (e, other) (rebuild-IsOpen g pin dir pin_low_val o lt)
    ]
  ]
    where
      read :
          (v : LineValue × World)
          → live v.1 ≡ live g.world
          → IsOpen lib own base (old_value_read lib g pin dir v).1
      read (error, w) h = IsOpen-world lib own base g w o h
      read (active, w) h =
          rebuild-IsOpen (record g { world = w }) pin dir pin_high_val
            (IsOpen-world lib own base g w o h) lt
      read (inactive, w) h =
          rebuild-IsOpen (record g { world = w }) pin dir pin_low_val
            (IsOpen-world lib own base g w o h) lt

  -- `gpio_direction` keeps the state well formed on every branch, the failing ones included.
  pub gpio_direction-IsWellFormed :
      (pin dir : ℤ) (g : Gpio lib)
      → IsWellFormed lib own base g
      → IsWellFormed lib own base (gpio_direction lib pin dir g).1
  unfolding gpio_direction
  gpio_direction-IsWellFormed pin dir g wf = elim (Bool-cases (validate lib g pin == 0)) [
    | inl e ↦
        let (o, lt) = validate-IsOpen g pin wf e in
        rw e (inr (direct-IsOpen g (index pin) dir (ctx_at g.pin_ctxs (index pin)) o lt))
    | inr e ↦ rw e wf
  ]
