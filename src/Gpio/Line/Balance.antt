-- ===== src/Gpio/Line/Balance.antt =====
-- `build_line_request` of src/gpio_control.c: its code, its request and the objects that it frees.
use alarm4pi.Prelude.{
  ℕ, ◌+◌, ◌≡◌, refl, ◌∙◌, ℤ, Bool, true, false, Option, none, some, arith, ◌==◌, eq_ℤ,
  if◌then◌else◌, Bool-cases, inl, inr,
}
use alarm4pi.Gpio.Device.{
  Gpiod, Ownership, handed, Bias, input, output, disabled, pull_down, pull_up, LineValue, active,
  inactive,
}
use alarm4pi.Gpio.{errno_or_io, get_errno_or_io, pin_high_val}
use alarm4pi.Gpio.Line.{
  code_of, then_code, input_settings, output_settings, configure_line_settings, Built, requested,
  with_req_cfg, added, with_line_cfg, configured, with_settings, build_line_request,
}

abbrev pub is_some {ℓ} : {A : Type ℓ} → Option A → Bool
is_some none = false
is_some (some a) = true

-- An error code is never 0.
pub errno_or_io-nonzero : (e : ℕ) → (errno_or_io e == 0) ≡ false
unfolding errno_or_io
errno_or_io-nonzero e = ground arith

module _ (lib : Gpiod) (own : Ownership lib) where
  open lib use {World, Chip, Settings, LineConfig, RequestConfig, Request}
  open own use {live}

  pub get_errno_or_io-nonzero : (w : World) → (get_errno_or_io lib w == 0) ≡ false
  unfolding get_errno_or_io
  get_errno_or_io-nonzero w = errno_or_io-nonzero (lib.errno w)

  live-code_of : (r : Bool × World) → live (code_of lib r).1 ≡ live r.1
  unfolding code_of
  live-code_of (true, w) = refl
  live-code_of (false, w) = refl

  live-then_code :
      (r : ℕ × World) (next : World → ℕ × World)
      → ((w : World) → live (next w).1 ≡ live w)
      → live (then_code lib r next).1 ≡ live r.1
  unfolding then_code
  live-then_code (ret, w) next h = ground (arith, h w)

  live-input_settings :
      (s : Settings) (b : Bias) (w : World) → live (input_settings lib s b w).1 ≡ live w
  unfolding input_settings
  live-input_settings s b w =
      live-then_code (code_of lib (lib.set_direction s input w))
        (λ w1. code_of lib (lib.set_bias s b w1))
        (λ w1. live-code_of (lib.set_bias s b w1) ∙ own.set_bias_live s b w1)
      ∙ live-code_of (lib.set_direction s input w)
      ∙ own.set_direction_live s input w

  live-output_settings :
      (s : Settings) (v : ℤ) (w : World) → live (output_settings lib s v w).1 ≡ live w
  unfolding output_settings
  live-output_settings s v w =
      live-then_code
        (then_code lib (code_of lib (lib.set_direction s output w))
          (λ w1. code_of lib (lib.set_bias s disabled w1)))
        (λ w2. code_of lib (lib.set_output_value s (level v) w2))
        (λ w2.
          live-code_of (lib.set_output_value s (level v) w2)
          ∙ own.set_output_value_live s (level v) w2)
      ∙ live-input_settings_with
    where
      level : ℤ → LineValue
      level u = if eq_ℤ u pin_high_val then active else inactive

      live-input_settings_with :
          live
            (then_code lib
              (code_of lib (lib.set_direction s output w))
              (λ w1. code_of lib (lib.set_bias s disabled w1))).1
          ≡ live w
      live-input_settings_with =
          live-then_code (code_of lib (lib.set_direction s output w))
            (λ w1. code_of lib (lib.set_bias s disabled w1))
            (λ w1. live-code_of (lib.set_bias s disabled w1) ∙ own.set_bias_live s disabled w1)
          ∙ live-code_of (lib.set_direction s output w)
          ∙ own.set_direction_live s output w

  live-configure_line_settings :
      (s : Settings) (dir v : ℤ) (w : World)
      → live (configure_line_settings lib s dir v w).1 ≡ live w
  unfolding configure_line_settings
  live-configure_line_settings s dir v w = ground (
    arith,
    live-input_settings s disabled w,
    live-input_settings s pull_down w,
    live-input_settings s pull_up w,
    live-output_settings s v w,
  )

  -- The request that comes out is the only object more than the `n` before, and the code is 0
  -- exactly if there is one.
  abbrev pub Balanced : ℕ → Built lib → Type 0
  Balanced n b = (live b.1 ≡ n + handed b.0.1) × ((b.0.0 == 0) ≡ is_some b.0.1)

  requested-Balanced :
      (n : ℕ) (r : Option Request × World)
      → live r.1 ≡ n + handed r.0
      → Balanced n (requested lib r)
  unfolding requested
  requested-Balanced n (none, w) h = (h, get_errno_or_io-nonzero w)
  requested-Balanced n (some r, w) h = (h, refl)

  with_req_cfg-Balanced :
      (n : ℕ) (chip : Option Chip) (c : LineConfig) (r : Option RequestConfig × World)
      → live r.1 ≡ n + handed r.0
      → Balanced n (with_req_cfg lib chip c r)
  unfolding with_req_cfg
  with_req_cfg-Balanced n chip c (none, w) h = (h, get_errno_or_io-nonzero w)
  with_req_cfg-Balanced n chip c (some q, w) h =
      let w0 = lib.set_consumer q "gpio_control" w in
      let inner = requested-Balanced (n + 1) (lib.request_lines chip q c w0) (
        omega
          (arith, own.request_lines_live chip q c w0, own.set_consumer_live q "gpio_control" w)) in
      (
        omega (
          arith,
          inner.0,
          own.request_config_free_live q (requested lib (lib.request_lines chip q c w0)).1,
        ),
        inner.1,
      )

  added-Balanced :
      (n : ℕ) (chip : Option Chip) (c : LineConfig) (r : Bool × World)
      → live r.1 ≡ n
      → Balanced n (added lib chip c r)
  unfolding added
  added-Balanced n chip c (false, w) h = (omega arith, get_errno_or_io-nonzero w)
  added-Balanced n chip c (true, w) h =
      with_req_cfg-Balanced n chip c (lib.request_config_new w)
        (omega (arith, own.request_config_new_live w))

  with_line_cfg-Balanced :
      (n : ℕ) (chip : Option Chip) (pin : ℕ) (s : Settings) (r : Option LineConfig × World)
      → live r.1 ≡ n + handed r.0
      → Balanced n (with_line_cfg lib chip pin s r)
  unfolding with_line_cfg
  with_line_cfg-Balanced n chip pin s (none, w) h = (h, get_errno_or_io-nonzero w)
  with_line_cfg-Balanced n chip pin s (some c, w) h =
      let inner =
        added-Balanced (n + 1) chip c (lib.add_line_settings c pin s w)
          (omega (arith, own.add_line_settings_live c pin s w)) in
      (
        omega (
          arith,
          inner.0,
          own.line_config_free_live c (added lib chip c (lib.add_line_settings c pin s w)).1,
        ),
        inner.1,
      )

  configured-Balanced :
      (n : ℕ) (chip : Option Chip) (pin : ℕ) (s : Settings) (r : ℕ × World)
      → live r.1 ≡ n
      → Balanced n (configured lib chip pin s r)
  unfolding configured
  configured-Balanced n chip pin s (ret, w) h = elim (Bool-cases (ret == 0)) [
    | inl e ↦ rw e (
        with_line_cfg-Balanced n chip pin s (lib.line_config_new w)
          (omega (arith, own.line_config_new_live w)))
    | inr e ↦ rw e (omega arith, e)
  ]

  with_settings-Balanced :
      (n : ℕ) (chip : Option Chip) (pin : ℕ) (dir v : ℤ) (r : Option Settings × World)
      → live r.1 ≡ n + handed r.0
      → Balanced n (with_settings lib chip pin dir v r)
  unfolding with_settings
  with_settings-Balanced n chip pin dir v (none, w) h = (h, get_errno_or_io-nonzero w)
  with_settings-Balanced n chip pin dir v (some s, w) h =
      let c = configure_line_settings lib s dir v w in
      let inner =
        configured-Balanced (n + 1) chip pin s c
          (omega (arith, live-configure_line_settings s dir v w)) in
      (omega (arith, inner.0, own.settings_free_live s (configured lib chip pin s c).1), inner.1)

  -- On each of its branches `build_line_request` frees every object that it made but the request,
  -- and its code is 0 exactly if it hands out a request.
  pub build_line_request-Balanced :
      (chip : Option Chip) (pin : ℕ) (dir initial_value : ℤ) (w : World)
      → Balanced (live w) (build_line_request lib chip pin dir initial_value w)
  unfolding build_line_request
  build_line_request-Balanced chip pin dir v w =
      with_settings-Balanced (live w) chip pin dir v (lib.settings_new w) (own.settings_new_live w)
