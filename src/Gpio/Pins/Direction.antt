-- ===== src/Gpio/Pins/Direction.antt =====
-- `gpio_direction` of src/gpio_control.c on its own pin, when it succeeds and when it fails.
use alarm4pi.Prelude.{
  sym, if◌then◌else◌, ℕ, ◌<◌, ◌≡◌, refl, ◌∙◌, ap, ℤ, true, false, Option, none, some, arith, ◌==◌,
  eq_ℤ, Bool-cases, Option-cases, inl, inr, ◌⊎◌,
}
use alarm4pi.Gpio.Device.{Gpiod, Ownership, LineValue, error, active, inactive}
use alarm4pi.Gpio.{Gpio, PinCtx, pin_out_dir, pin_low_val, pin_high_val}
use alarm4pi.Gpio.Line.{build_line_request}
use alarm4pi.Gpio.Line.Balance.{
  is_some, Balanced, build_line_request-Balanced, get_errno_or_io-nonzero,
}
use alarm4pi.Gpio.Pins.{
  ctx_at, is_direction, release_request, with_ctx, validate, index, restored, restore, built,
  rebuild, old_value_read, direct, gpio_direction,
}
use alarm4pi.Gpio.Pins.Owned.{
  IsOpen, IsWellFormed, IsOpen-world, ctx_at-with_ctx, handed-ctx_at-le, live-release_request,
  IsOpen-with_ctx,
}
use alarm4pi.Gpio.Pins.Keeps.{validate-IsOpen, handed-none}

-- The element of the pin is the request that `build_line_request` made in the direction `d`, NULL if
-- it failed, and that direction; nothing was done after it.
abbrev pub Gets : {lib : Gpiod} → Option lib.Chip → ℕ → ℤ → ℤ → Gpio lib → Type 0
Gets {lib} chip pin d v g =
    (w : lib.World) × (let ((ret, request), after) = build_line_request lib chip pin d v w in
      (ctx_at g.pin_ctxs pin ≡ record { request = request; direction = d }) × (g.world ≡ after))

-- What there is again after a failure: the element as it was, or the request is gone, and one in the
-- old direction with the old value was made in its place if that direction was one.
abbrev pub Restored :
    {lib : Gpiod} → Option lib.Chip → ℕ → PinCtx lib.Request → ℤ → Gpio lib → Type 0
Restored chip pin ctx v g =
    (ctx_at g.pin_ctxs pin ≡ ctx)
    ⊎ (((is_direction ctx.direction ≡ true) × Gets chip pin ctx.direction v g)
        ⊎ ((is_direction ctx.direction ≡ false)
            × (ctx_at g.pin_ctxs pin ≡ record ctx { request = none })))

-- The code is 0 and there is a request, made in the new direction, or it is not 0.
abbrev pub Directed :
    {lib : Gpiod} → Option lib.Chip → ℕ → ℤ → PinCtx lib.Request → ℤ → ℕ × Gpio lib → Type 0
Directed chip pin dir ctx v b =
    (((b.0 == 0) ≡ true)
      × (is_some (ctx_at b.1.pin_ctxs pin).request ≡ true)
      × Gets chip pin dir pin_low_val b.1)
    ⊎ (((b.0 == 0) ≡ false) × Restored chip pin ctx v b.1)

-- The value of an output before, low for all other lines.
abbrev pub level : LineValue → ℤ
level active = pin_high_val
level inactive = pin_low_val
level error = pin_low_val

abbrev pub value_of : (lib : Gpiod) → ℕ → lib.World → PinCtx lib.Request → ℤ
value_of lib pin w ctx = elim ctx.request [
  | none ↦ pin_low_val
  | some r ↦ if eq_ℤ ctx.direction pin_out_dir then level (lib.get_value r pin w).0 else pin_low_val
]

-- The element of a pin that has a request in the direction `dir`.
abbrev pub Has : {lib : Gpiod} → Gpio lib → ℕ → ℤ → Type 0
Has {lib} g pin dir =
    (r : lib.Request) × (ctx_at g.pin_ctxs pin ≡ record { request = some r; direction = dir })

is_some-some : {R : Type 0} (o : Option R) → is_some o ≡ true → (r : R) × (o ≡ some r)
is_some-some none h = absurd (cc h)
is_some-some (some r) h = (r, refl)

pub Gets-Has :
    {lib : Gpiod} (chip : Option lib.Chip) (pin : ℕ) (dir v : ℤ) (g : Gpio lib)
    → is_some (ctx_at g.pin_ctxs pin).request ≡ true
    → Gets chip pin dir v g
    → Has g pin dir
Gets-Has {lib} chip pin dir v g there (w, (stored, after)) =
    let (r, is) = is_some-some (ctx_at g.pin_ctxs pin).request there in
    let made = ap (λ (c : PinCtx lib.Request). c.request) stored in
    (
      r,
      stored
          ∙ ap (λ (q : Option lib.Request). record { request = q; direction = dir })
              (sym made ∙ is),
    )

is_some-none : {R : Type 0} (o : Option R) → is_some o ≡ false → o ≡ none
is_some-none none h = refl
is_some-none (some r) h = absurd (cc h)

module _ (lib : Gpiod) (own : Ownership lib) (base : ℕ) (pin : ℕ) where
  open lib use {World, Chip, Request}
  open own use {live}

  restored-Gets :
      (g : Gpio lib) (d v : ℤ) (w0 : World)
      → IsOpen lib own base g
      → pin < g.num_lines
      → ctx_at g.pin_ctxs pin ≡ record { request = none; direction = d }
      → Gets g.chip pin d v (restored lib g pin d (build_line_request lib g.chip pin d v w0))
  unfolding restored
  restored-Gets g d v w0 o lt same = (
    w0,
    stored (build_line_request lib g.chip pin d v w0)
        (build_line_request-Balanced lib own g.chip pin d v w0),
  )
    where
      stored :
          (b : (ℕ × Option Request) × World)
          → Balanced lib own (live w0) b
          → (ctx_at (restored lib g pin d b).pin_ctxs pin
              ≡ record { request = b.0.1; direction = d })
            × ((restored lib g pin d b).world ≡ b.1)
      stored ((ret, r), w) (l, z) = elim (Bool-cases (ret == 0)) [
        | inl e ↦ rw e (
          ctx_at-with_ctx lib own base g pin (record { request = r; direction = d }) w o lt,
          refl,
        )
        | inr e ↦ rw e (
          same
              ∙ ap (λ (q : Option Request). record { request = q; direction = d })
                  (sym (is_some-none r (sym z ∙ e))),
          refl,
        )
      ]

  restore-Restored :
      (g : Gpio lib) (ctx : PinCtx Request) (v : ℤ)
      → IsOpen lib own base g
      → pin < g.num_lines
      → ctx_at g.pin_ctxs pin ≡ record ctx { request = none }
      → Restored g.chip pin ctx v (restore lib g pin ctx.direction v)
  unfolding restore
  restore-Restored g ctx v o lt same = elim (Bool-cases (is_direction ctx.direction)) [
    | inl e ↦ rw e (inr (inl (refl, restored-Gets g ctx.direction v g.world o lt same)))
    | inr e ↦ rw e (inr (inr (refl, same)))
  ]

  built-Directed :
      (g : Gpio lib) (dir : ℤ) (ctx : PinCtx Request) (v : ℤ) (w0 : World)
      → IsOpen lib own base g
      → pin < g.num_lines
      → ctx_at g.pin_ctxs pin ≡ record ctx { request = none }
      → live w0 ≡ live g.world
      → Directed g.chip pin dir ctx v (
          built lib g pin dir ctx.direction v
            (build_line_request lib g.chip pin dir pin_low_val w0))
  unfolding built with_ctx
  built-Directed g dir ctx v w0 o lt same l0 =
      outcome (build_line_request lib g.chip pin dir pin_low_val w0) refl
        (build_line_request-Balanced lib own g.chip pin dir pin_low_val w0)
    where
      outcome :
          (b : (ℕ × Option Request) × World)
          → build_line_request lib g.chip pin dir pin_low_val w0 ≡ b
          → Balanced lib own (live w0) b
          → Directed g.chip pin dir ctx v (built lib g pin dir ctx.direction v b)
      outcome ((ret, r), w) q (l, z) = elim (Bool-cases (ret == 0)) [
        | inl e ↦
            let stored =
              ctx_at-with_ctx lib own base g pin (record { request = r; direction = dir }) w o lt in
            let there : is_some
                  (ctx_at (with_ctx lib g pin (record { request = r; direction = dir }) w).pin_ctxs
                    pin).request
                ≡ true =
              ap (λ (c : PinCtx Request). is_some c.request) stored ∙ sym z ∙ e in
            rw e (inl (refl, there, (w0, rw q (stored, refl))))
        | inr e ↦
            let g1 = record g { world = w } in
            let o1 =
              IsOpen-world lib own base g w o (omega (arith, l0, handed-none r (sym z ∙ e))) in
            rw e (inr (e, restore-Restored g1 ctx v o1 lt same))
      ]

  rebuild-Directed :
      (g : Gpio lib) (dir v : ℤ)
      → IsOpen lib own base g
      → pin < g.num_lines
      → Directed g.chip pin dir (ctx_at g.pin_ctxs pin) v (rebuild lib g pin dir v)
  unfolding rebuild
  rebuild-Directed g dir v o lt =
      let ctx = ctx_at g.pin_ctxs pin in
      let empty : PinCtx Request = record ctx { request = none } in
      let w = release_request lib ctx.request g.world in
      let g1 = with_ctx lib g pin empty w in
      let o1 = IsOpen-with_ctx lib own base g pin empty w o lt (
        omega (
          arith,
          live-release_request lib own base ctx.request g.world,
          handed-ctx_at-le lib own base g pin o lt,
        )) in
      built-Directed g1 dir ctx v g1.world o1 lt (ctx_at-with_ctx lib own base g pin empty w o lt)
        refl

  old_value_read-Directed :
      (g : Gpio lib) (dir : ℤ) (r : LineValue × World)
      → IsOpen lib own base g
      → pin < g.num_lines
      → live r.1 ≡ live g.world
      → Directed g.chip pin dir (ctx_at g.pin_ctxs pin) (level r.0) (old_value_read lib g pin dir r)
  unfolding old_value_read
  old_value_read-Directed g dir (error, w) o lt l =
      inr (get_errno_or_io-nonzero lib own w, inl refl)
  old_value_read-Directed g dir (active, w) o lt l =
      rebuild-Directed (record g { world = w }) dir pin_high_val (IsOpen-world lib own base g w o l)
        lt
  old_value_read-Directed g dir (inactive, w) o lt l =
      rebuild-Directed (record g { world = w }) dir pin_low_val (IsOpen-world lib own base g w o l)
        lt

  direct-Directed :
      (g : Gpio lib) (dir : ℤ) (ctx : PinCtx Request)
      → IsOpen lib own base g
      → pin < g.num_lines
      → Directed g.chip pin dir
          (ctx_at g.pin_ctxs pin)
          (value_of lib pin g.world ctx)
          (direct lib g pin dir ctx)
  unfolding direct
  direct-Directed g dir ctx o lt = elim (Option-cases ctx.request) [
    | inl e ↦ rw e (rebuild-Directed g dir pin_low_val o lt)
    | inr (r, e) ↦ elim (Bool-cases (eq_ℤ ctx.direction pin_out_dir)) [
      | inl out ↦
          rw (e, out)
            (old_value_read-Directed g dir (lib.get_value r pin g.world) o lt
              (own.get_value_live r pin g.world))
      | inr other ↦ rw (e, other) (rebuild-Directed g dir pin_low_val o lt)
    ]
  ]

pub gpio_direction-Directed :
    (lib : Gpiod) (own : Ownership lib) (base : ℕ) (pin dir : ℤ) (g : Gpio lib)
    → IsWellFormed lib own base g
    → let ctx = ctx_at g.pin_ctxs (index pin) in
      Directed g.chip
        (index pin)
        dir
        ctx
        (value_of lib (index pin) g.world ctx)
        (gpio_direction lib pin dir g)
unfolding gpio_direction
gpio_direction-Directed lib own base pin dir g wf = elim (Bool-cases (validate lib g pin == 0)) [
  | inl e ↦
      let (o, lt) = validate-IsOpen lib own base g pin wf e in
      rw e (direct-Directed lib own base (index pin) g dir (ctx_at g.pin_ctxs (index pin)) o lt)
  | inr e ↦ rw e (inr (e, inl refl))
]
