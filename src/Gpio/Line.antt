-- ===== src/Gpio/Line.antt =====
-- src/gpio_control.c, lines 72 to 211: the request of one line.
pub mod Balance
use alarm4pi.Prelude.{
  ℕ, ℤ, Bool, true, false, Option, none, some, ◌==◌, eq_ℤ, if◌then◌else◌, einval,
}
use alarm4pi.Gpio.Device.{
  Gpiod, Direction, input, output, Bias, disabled, pull_down, pull_up, LineValue, active, inactive,
}
use alarm4pi.Gpio.{
  pin_in_dir, pin_in_dir_pulldown, pin_in_dir_pullup, pin_out_dir, pin_high_val, get_errno_or_io,
}

module _ (lib : Gpiod) where
  open lib use {
    World, Chip, Settings, LineConfig, RequestConfig, Request, settings_new, settings_free,
    set_direction, set_bias, set_output_value, line_config_new, line_config_free, add_line_settings,
    request_config_new, request_config_free, set_consumer, request_lines,
  }

  -- The code that follows a call: 0, or what `get_errno_or_io` makes of the error.
  unfoldable pub code_of : Bool × World → ℕ × World
  code_of (true, w) = (0, w)
  code_of (false, w) = (get_errno_or_io lib w, w)

  -- A step is made only if the code so far is 0.
  unfoldable pub then_code : ℕ × World → (World → ℕ × World) → ℕ × World
  then_code (ret, w) next = if ret == 0 then next w else (ret, w)

  -- A case of the `switch` for an input: the direction and the bias.
  unfoldable pub input_settings : Settings → Bias → World → ℕ × World
  unfolding code_of then_code
  input_settings settings bias w =
      then_code (code_of (set_direction settings input w))
        (λ w1. code_of (set_bias settings bias w1))

  unfoldable pub output_settings : Settings → ℤ → World → ℕ × World
  unfolding code_of then_code
  output_settings settings initial_value w =
      then_code
        (then_code (code_of (set_direction settings output w))
          (λ w1. code_of (set_bias settings disabled w1)))
        (λ w2. code_of (
          set_output_value settings (if eq_ℤ initial_value pin_high_val then active else inactive)
            w2))

  -- The settings are not NULL at the only call.
  unfoldable pub configure_line_settings : Settings → ℤ → ℤ → World → ℕ × World
  unfolding input_settings output_settings
  configure_line_settings settings dir initial_value w =
      if eq_ℤ dir pin_in_dir
      then input_settings settings disabled w
      else if eq_ℤ dir pin_in_dir_pulldown
      then input_settings settings pull_down w
      else if eq_ℤ dir pin_in_dir_pullup
      then input_settings settings pull_up w
      else if eq_ℤ dir pin_out_dir
      then output_settings settings initial_value w
      else (einval, w)

  -- The code and `*request_out`.
  abbrev pub Built : Type 0
  Built = (ℕ × Option Request) × World

  requested : Option Request × World → Built
  requested (none, w) = ((get_errno_or_io lib w, none), w)
  requested (some r, w) = ((0, some r), w)

  -- The part of the `do` block after `gpiod_request_config_new`, and what frees its object.
  with_req_cfg : Option Chip → LineConfig → Option RequestConfig × World → Built
  unfolding requested
  with_req_cfg chip line_cfg (none, w) = ((get_errno_or_io lib w, none), w)
  with_req_cfg chip line_cfg (some req_cfg, w) =
      let (r, w1) =
        requested (request_lines chip req_cfg line_cfg (set_consumer req_cfg "gpio_control" w)) in
      (r, request_config_free req_cfg w1)

  added : Option Chip → LineConfig → Bool × World → Built
  unfolding with_req_cfg
  added chip line_cfg (false, w) = ((get_errno_or_io lib w, none), w)
  added chip line_cfg (true, w) = with_req_cfg chip line_cfg (request_config_new w)

  -- The part after `gpiod_line_config_new`.
  with_line_cfg : Option Chip → ℕ → Settings → Option LineConfig × World → Built
  unfolding added
  with_line_cfg chip pin settings (none, w) = ((get_errno_or_io lib w, none), w)
  with_line_cfg chip pin settings (some line_cfg, w) =
      let (r, w1) = added chip line_cfg (add_line_settings line_cfg pin settings w) in
      (r, line_config_free line_cfg w1)

  configured : Option Chip → ℕ → Settings → ℕ × World → Built
  unfolding with_line_cfg
  configured chip pin settings (ret, w) =
      if ret == 0 then with_line_cfg chip pin settings (line_config_new w) else ((ret, none), w)

  -- The part after `gpiod_line_settings_new`.
  with_settings : Option Chip → ℕ → ℤ → ℤ → Option Settings × World → Built
  unfolding configured
  with_settings chip pin dir initial_value (none, w) = ((get_errno_or_io lib w, none), w)
  with_settings chip pin dir initial_value (some settings, w) =
      let (r, w1) =
        configured chip pin settings (configure_line_settings settings dir initial_value w) in
      (r, settings_free settings w1)

  unfoldable pub build_line_request : Option Chip → ℕ → ℤ → ℤ → World → Built
  unfolding with_settings
  build_line_request chip pin dir initial_value w =
      with_settings chip pin dir initial_value (settings_new w)
