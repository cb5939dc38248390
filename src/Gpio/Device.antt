-- ===== src/Gpio/Device.antt =====
-- What src/gpio_control.c asks of libgpiod and of the allocator, which are not part of the repository:
-- a parameter of the model. An operation takes and returns the state of the world; an `Option` is a
-- pointer that may be NULL, and a `Bool` tells whether the call succeeded.
use alarm4pi.Prelude.{ℕ, ◌+◌, ◌-◌, ◌≡◌, Bool, Option, String}
pub use alarm4pi.Prelude.{handed, handed_if}
use alarm4pi.CString.{Bytes}

pub data Direction : Type 0 where
  input output : Direction

pub data Bias : Type 0 where
  disabled pull_down pull_up : Bias

-- GPIOD_LINE_VALUE_ERROR, _INACTIVE and _ACTIVE.
pub data LineValue : Type 0 where
  error inactive active : LineValue

pub record Gpiod : Type 1 where
  pub World : Type 0
  pub Chip : Type 0
  pub Info : Type 0
  pub Settings : Type 0
  pub LineConfig : Type 0
  pub RequestConfig : Type 0
  pub Request : Type 0
  pub errno : World → ℕ
  pub getenv : String → World → Option Bytes
  pub calloc : ℕ → World → Bool × World
  pub free : World → World
  pub chip_open : Bytes → World → Option Chip × World
  pub chip_close : Chip → World → World
  pub chip_get_info : Chip → World → Option Info × World
  pub info_num_lines : Info → ℕ
  pub info_free : Info → World → World
  pub settings_new : World → Option Settings × World
  pub settings_free : Settings → World → World
  pub set_direction : Settings → Direction → World → Bool × World
  pub set_bias : Settings → Bias → World → Bool × World
  pub set_output_value : Settings → LineValue → World → Bool × World
  pub line_config_new : World → Option LineConfig × World
  pub line_config_free : LineConfig → World → World
  pub add_line_settings : LineConfig → ℕ → Settings → World → Bool × World
  pub request_config_new : World → Option RequestConfig × World
  pub request_config_free : RequestConfig → World → World
  pub set_consumer : RequestConfig → String → World → World
  pub request_lines : Option Chip → RequestConfig → LineConfig → World → Option Request × World
  pub request_release : Request → World → World
  pub get_value : Request → ℕ → World → LineValue × World
  pub set_value : Request → ℕ → LineValue → World → Bool × World

-- The ownership that libgpiod and the C library document: each object that a call hands out counts
-- until the call that frees it, and no other call hands out or frees one.
pub record Ownership (lib : Gpiod) : Type 0 where
  pub live : lib.World → ℕ
  pub calloc_live :
      (n : ℕ) (w : lib.World) → live (lib.calloc n w).1 ≡ live w + handed_if (lib.calloc n w).0
  pub free_live : (w : lib.World) → live (lib.free w) ≡ live w - 1
  pub chip_open_live :
      (p : Bytes) (w : lib.World)
      → live (lib.chip_open p w).1 ≡ live w + handed (lib.chip_open p w).0
  pub chip_close_live : (c : lib.Chip) (w : lib.World) → live (lib.chip_close c w) ≡ live w - 1
  pub chip_get_info_live :
      (c : lib.Chip) (w : lib.World)
      → live (lib.chip_get_info c w).1 ≡ live w + handed (lib.chip_get_info c w).0
  pub info_free_live : (i : lib.Info) (w : lib.World) → live (lib.info_free i w) ≡ live w - 1
  pub settings_new_live :
      (w : lib.World) → live (lib.settings_new w).1 ≡ live w + handed (lib.settings_new w).0
  pub settings_free_live :
      (s : lib.Settings) (w : lib.World) → live (lib.settings_free s w) ≡ live w - 1
  pub set_direction_live :
      (s : lib.Settings) (d : Direction) (w : lib.World) → live (lib.set_direction s d w).1 ≡ live w
  pub set_bias_live :
      (s : lib.Settings) (b : Bias) (w : lib.World) → live (lib.set_bias s b w).1 ≡ live w
  pub set_output_value_live :
      (s : lib.Settings) (v : LineValue) (w : lib.World)
      → live (lib.set_output_value s v w).1 ≡ live w
  pub line_config_new_live :
      (w : lib.World) → live (lib.line_config_new w).1 ≡ live w + handed (lib.line_config_new w).0
  pub line_config_free_live :
      (c : lib.LineConfig) (w : lib.World) → live (lib.line_config_free c w) ≡ live w - 1
  pub add_line_settings_live :
      (c : lib.LineConfig) (n : ℕ) (s : lib.Settings) (w : lib.World)
      → live (lib.add_line_settings c n s w).1 ≡ live w
  pub request_config_new_live :
      (w : lib.World)
      → live (lib.request_config_new w).1 ≡ live w + handed (lib.request_config_new w).0
  pub request_config_free_live :
      (c : lib.RequestConfig) (w : lib.World) → live (lib.request_config_free c w) ≡ live w - 1
  pub set_consumer_live :
      (c : lib.RequestConfig) (n : String) (w : lib.World) → live (lib.set_consumer c n w) ≡ live w
  pub request_lines_live :
      (o : Option lib.Chip) (r : lib.RequestConfig) (c : lib.LineConfig) (w : lib.World)
      → live (lib.request_lines o r c w).1 ≡ live w + handed (lib.request_lines o r c w).0
  pub request_release_live :
      (r : lib.Request) (w : lib.World) → live (lib.request_release r w) ≡ live w - 1
  pub get_value_live :
      (r : lib.Request) (n : ℕ) (w : lib.World) → live (lib.get_value r n w).1 ≡ live w
  pub set_value_live :
      (r : lib.Request) (n : ℕ) (v : LineValue) (w : lib.World)
      → live (lib.set_value r n v w).1 ≡ live w
