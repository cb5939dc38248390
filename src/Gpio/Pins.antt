-- ===== src/Gpio/Pins.antt =====
-- src/gpio_control.c, lines 52 to 70 and 213 to 409: the operations of the library.
pub mod Owned
pub mod Keeps
pub mod Cycle
pub mod Calls
pub mod Effect
pub mod Direction
pub mod Reading
use alarm4pi.Prelude.{
  ℕ, ℤ, pos, negsuc, Bool, true, false, not, ◌&&◌, ◌||◌, Option, none, some, List, [], ◌∷◌, ◌==◌,
  eq_ℤ, if◌then◌else◌, get_or, set, replicate, einval, eperm, enodev, enomem, String,
}
use alarm4pi.CString.{Bytes, codes}
use alarm4pi.Gpio.Device.{Gpiod, LineValue, error, inactive, active}
use alarm4pi.Gpio.{
  Gpio, PinCtx, pin_in_dir, pin_in_dir_pulldown, pin_in_dir_pullup, pin_out_dir, pin_low_val,
  pin_high_val, get_errno_or_io, validate_library_opened, validate_pin,
}
use alarm4pi.Gpio.Line.{build_line_request}

-- What `calloc` puts in an element.
abbrev pub fresh_ctx : {R : Type 0} → PinCtx R
fresh_ctx = record { request = none; direction = pos 0 }

-- g_pin_ctxs[pin]; a pin that `validate_pin` accepts is in range.
abbrev pub ctx_at : {R : Type 0} → Option (List (PinCtx R)) → ℕ → PinCtx R
ctx_at none pin = fresh_ctx
ctx_at (some ctxs) pin = get_or ctxs pin fresh_ctx

abbrev pub set_ctx :
    {R : Type 0} → Option (List (PinCtx R)) → ℕ → PinCtx R → Option (List (PinCtx R))
set_ctx none pin ctx = none
set_ctx (some ctxs) pin ctx = some (set ctxs pin ctx)

-- chip_path
unfoldable pub chip_path : Option Bytes → Bytes
chip_path none = codes "/dev/gpiochip0"
chip_path (some []) = codes "/dev/gpiochip0"
chip_path (some (c ∷ s)) = c ∷ s

-- The array index of a pin.
abbrev pub index : ℤ → ℕ
index (pos pin) = pin
index (negsuc n) = 0

abbrev pub is_direction : ℤ → Bool
is_direction d =
    eq_ℤ d pin_in_dir
    || eq_ℤ d pin_in_dir_pulldown
    || eq_ℤ d pin_in_dir_pullup
    || eq_ℤ d pin_out_dir

module _ (lib : Gpiod) where
  open lib use {
    World, Chip, Info, Request, getenv, calloc, free, chip_open, chip_close, chip_get_info,
    info_num_lines, info_free, request_release, get_value, set_value,
  }

  unfoldable pub release_request : Option Request → World → World
  release_request none w = w
  release_request (some r) w = request_release r w

  -- The array after the loop is not read again.
  unfoldable pub release_all_pin_requests : List (PinCtx Request) → World → World
  release_all_pin_requests [] w = w
  release_all_pin_requests (ctx ∷ ctxs) w =
      release_all_pin_requests ctxs (release_request ctx.request w)

  opened : Gpio lib → Chip → ℕ → Bool × World → ℕ × Gpio lib
  opened g chip num_lines (false, w) = (enomem, record g { chip = none; world = chip_close chip w })
  opened g chip num_lines (true, w) = (
    0,
    record {
      chip = some chip;
      pin_ctxs = some (replicate num_lines fresh_ctx);
      num_lines = num_lines;
      library_opened = true;
      world = w;
    },
  )

  open_info : Gpio lib → Chip → Option Info × World → ℕ × Gpio lib
  unfolding opened
  open_info g chip (none, w) =
      let w1 = chip_close chip w in (get_errno_or_io lib w1, record g { chip = none; world = w1 })
  open_info g chip (some info, w) =
      let num_lines = info_num_lines info in
      let w1 = info_free info w in
      if num_lines == 0
      then (enodev, record g { chip = none; world = chip_close chip w1 })
      else opened g chip num_lines (calloc num_lines w1)

  open_chip : Gpio lib → Option Chip × World → ℕ × Gpio lib
  unfolding open_info
  open_chip g (none, w) = (get_errno_or_io lib w, record g { chip = none; world = w })
  open_chip g (some chip, w) = open_info g chip (chip_get_info chip w)

  unfoldable pub open_gpios : Gpio lib → ℕ × Gpio lib
  unfolding open_chip
  open_gpios g =
      if g.library_opened
      then (0, g)
      else open_chip g (chip_open (chip_path (getenv "GPIO_CONTROL_CHIP" g.world)) g.world)

  free_ctxs : Option (List (PinCtx Request)) → World → World
  free_ctxs none w = w
  free_ctxs (some ctxs) w = free (release_all_pin_requests ctxs w)

  close_chip : Option Chip → World → World
  close_chip none w = w
  close_chip (some chip) w = chip_close chip w

  -- `release_all_pin_requests` returns at once if the array is NULL.
  unfoldable pub close_gpios : Gpio lib → ℕ × Gpio lib
  unfolding free_ctxs close_chip
  close_gpios g =
      if g.library_opened
      then (
        0,
        record {
          chip = none;
          pin_ctxs = none;
          num_lines = 0;
          library_opened = false;
          world = close_chip g.chip (free_ctxs g.pin_ctxs g.world);
        },
      )
      else (0, g)

  -- validate_library_opened, then validate_pin
  unfoldable pub validate : Gpio lib → ℤ → ℕ
  validate g pin =
      let ret = validate_library_opened lib g in
      if ret == 0 then validate_pin g.num_lines pin else ret

  pub with_ctx : Gpio lib → ℕ → PinCtx Request → World → Gpio lib
  with_ctx g pin ctx w = record g { pin_ctxs = set_ctx g.pin_ctxs pin ctx; world = w }

  -- The second `build_line_request`, with the direction before the call.
  restored : Gpio lib → ℕ → ℤ → (ℕ × Option Request) × World → Gpio lib
  unfolding with_ctx
  restored g pin old_direction ((ret, request), w) =
      if ret == 0
      then with_ctx g pin (record { request = request; direction = old_direction }) w
      else record g { world = w }

  restore : Gpio lib → ℕ → ℤ → ℤ → Gpio lib
  unfolding restored
  restore g pin old_direction old_value =
      if is_direction old_direction
      then restored g pin old_direction
          (build_line_request lib g.chip pin old_direction old_value g.world)
      else g

  built : Gpio lib → ℕ → ℤ → ℤ → ℤ → (ℕ × Option Request) × World → ℕ × Gpio lib
  unfolding with_ctx restore
  built g pin dir old_direction old_value ((ret, request), w) =
      if ret == 0
      then (0, with_ctx g pin (record { request = request; direction = dir }) w)
      else (ret, restore (record g { world = w }) pin old_direction old_value)

  -- From `release_pin_request` on.
  rebuild : Gpio lib → ℕ → ℤ → ℤ → ℕ × Gpio lib
  unfolding with_ctx built
  rebuild g pin dir old_value =
      let ctx = ctx_at g.pin_ctxs pin in
      let g1 =
        with_ctx g pin (record ctx { request = none }) (release_request ctx.request g.world) in
      built g1 pin dir ctx.direction old_value
        (build_line_request lib g1.chip pin dir pin_low_val g1.world)

  old_value_read : Gpio lib → ℕ → ℤ → LineValue × World → ℕ × Gpio lib
  unfolding rebuild
  old_value_read g pin dir (error, w) = (get_errno_or_io lib w, record g { world = w })
  old_value_read g pin dir (active, w) = rebuild (record g { world = w }) pin dir pin_high_val
  old_value_read g pin dir (inactive, w) = rebuild (record g { world = w }) pin dir pin_low_val

  direct : Gpio lib → ℕ → ℤ → PinCtx Request → ℕ × Gpio lib
  unfolding old_value_read
  direct g pin dir ctx = elim ctx.request [
    | none ↦ rebuild g pin dir pin_low_val
    | some r ↦
        if eq_ℤ ctx.direction pin_out_dir
        then old_value_read g pin dir (get_value r pin g.world)
        else rebuild g pin dir pin_low_val
  ]

  unfoldable pub gpio_direction : ℤ → ℤ → Gpio lib → ℕ × Gpio lib
  unfolding direct
  gpio_direction pin dir g =
      let ret = validate g pin in
      if ret == 0 then direct g (index pin) dir (ctx_at g.pin_ctxs (index pin)) else (ret, g)

  value_read : ℤ → Gpio lib → LineValue × World → (ℕ × ℤ) × Gpio lib
  value_read value g (error, w) = ((get_errno_or_io lib w, value), record g { world = w })
  value_read value g (active, w) = ((0, pin_high_val), record g { world = w })
  value_read value g (inactive, w) = ((0, pin_low_val), record g { world = w })

  -- The code and what `*value` holds afterwards; `value` is what it held before. (No caller passes
  -- NULL.)
  unfoldable pub gpio_read : ℤ → ℤ → Gpio lib → (ℕ × ℤ) × Gpio lib
  unfolding value_read
  gpio_read pin value g =
      let ret = validate g pin in
      if ret == 0
      then elim (ctx_at g.pin_ctxs (index pin)).request [
        | none ↦ ((einval, value), g)
        | some r ↦ value_read value g (get_value r (index pin) g.world)
      ]
      else ((ret, value), g)

  value_written : Gpio lib → Bool × World → ℕ × Gpio lib
  value_written g (true, w) = (0, record g { world = w })
  value_written g (false, w) = (get_errno_or_io lib w, record g { world = w })

  write_ctx : Gpio lib → ℕ → ℤ → PinCtx Request → ℕ × Gpio lib
  unfolding value_written
  write_ctx g pin value ctx = elim ctx.request [
    | none ↦ (einval, g)
    | some r ↦
        if eq_ℤ ctx.direction pin_out_dir
        then value_written g
            (set_value r pin (if eq_ℤ value pin_high_val then active else inactive) g.world)
        else (eperm, g)
  ]

  unfoldable pub gpio_write : ℤ → ℤ → Gpio lib → ℕ × Gpio lib
  unfolding write_ctx
  gpio_write pin value g =
      if eq_ℤ value pin_low_val || eq_ℤ value pin_high_val
      then (let ret = validate g pin in
          if ret == 0
          then write_ctx g (index pin) value (ctx_at g.pin_ctxs (index pin))
          else (ret, g))
      else (einval, g)
