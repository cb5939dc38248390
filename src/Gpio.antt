-- ===== src/Gpio.antt =====
-- src/gpio_control.c over libgpiod. The static variables of the file are the fields of `Gpio`.
pub mod Device
pub mod Line
pub mod Pins
pub mod Configure
use alarm4pi.Prelude.{
  ℕ, ℤ, pos, negsuc, Bool, true, false, Option, none, some, List, [], ◌∷◌, ◌==◌, leb, eq_ℤ,
  if◌then◌else◌, eio, ebadf, einval,
}
use Device.{Gpiod}

-- Directions and values of a pin, as gpio_control.h numbers them.
abbrev pub pin_in_dir : ℤ
pin_in_dir = pos 0

abbrev pub pin_in_dir_pulldown : ℤ
pin_in_dir_pulldown = pos 1

abbrev pub pin_in_dir_pullup : ℤ
pin_in_dir_pullup = pos 2

abbrev pub pin_out_dir : ℤ
pin_out_dir = pos 3

abbrev pub pin_low_val : ℤ
pin_low_val = pos 0

abbrev pub pin_high_val : ℤ
pin_high_val = pos 1

-- gpio_pin_ctx_t
pub record PinCtx (Request : Type 0) : Type 0 where
  pub request : Option Request
  pub direction : ℤ

-- `none` is NULL. The world is that of libgpiod and of the operating system.
pub record Gpio (lib : Gpiod) : Type 0 where
  pub chip : Option lib.Chip
  pub pin_ctxs : Option (List (PinCtx lib.Request))
  pub num_lines : ℕ
  pub library_opened : Bool
  pub world : lib.World

-- get_errno_or_io, with the value of `errno`
unfoldable pub errno_or_io : ℕ → ℕ
errno_or_io errno = if errno == 0 then eio else errno

module _ (lib : Gpiod) where
  open lib use {World, Chip, Request, errno, request_release}

  unfoldable pub get_errno_or_io : World → ℕ
  unfolding errno_or_io
  get_errno_or_io w = errno_or_io (errno w)

  unfoldable pub validate_library_opened : Gpio lib → ℕ
  validate_library_opened g =
      if g.library_opened
      then elim g.chip [ none ↦ ebadf | some c ↦ elim g.pin_ctxs [ none ↦ ebadf | some p ↦ 0 ] ]
      else ebadf

-- `num_lines` is the file's `g_num_lines`.
unfoldable pub validate_pin : ℕ → ℤ → ℕ
validate_pin num_lines (negsuc n) = einval
validate_pin num_lines (pos pin) = if leb num_lines pin then einval else 0
