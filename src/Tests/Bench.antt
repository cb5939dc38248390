-- ===== src/Tests/Bench.antt =====
-- A libgpiod in which every call succeeds: its world counts the objects handed out, and the line of
-- the first contact is high.
use alarm4pi.Prelude.{ℕ, ◌+◌, ◌-◌, refl, true, false, none, some, ◌==◌, if◌then◌else◌}
use alarm4pi.Gpio.Device.{Gpiod, Ownership, active, inactive}
use alarm4pi.Gpio.{Gpio}
use alarm4pi.Gpio.Pins.Owned.{IsClosed}

abbrev pub bench : Gpiod
bench = record {
  World = ℕ;
  Chip = Unit;
  Info = Unit;
  Settings = Unit;
  LineConfig = Unit;
  RequestConfig = Unit;
  Request = Unit;
  errno = λ w. 5;
  getenv = λ name w. none;
  calloc = λ n w. (true, w + 1);
  free = λ w. w - 1;
  chip_open = λ path w. (some tt, w + 1);
  chip_close = λ chip w. w - 1;
  chip_get_info = λ chip w. (some tt, w + 1);
  info_num_lines = λ info. 54;
  info_free = λ info w. w - 1;
  settings_new = λ w. (some tt, w + 1);
  settings_free = λ settings w. w - 1;
  set_direction = λ settings d w. (true, w);
  set_bias = λ settings b w. (true, w);
  set_output_value = λ settings v w. (true, w);
  line_config_new = λ w. (some tt, w + 1);
  line_config_free = λ c w. w - 1;
  add_line_settings = λ c n s w. (true, w);
  request_config_new = λ w. (some tt, w + 1);
  request_config_free = λ c w. w - 1;
  set_consumer = λ c name w. w;
  request_lines = λ chip r c w. (some tt, w + 1);
  request_release = λ r w. w - 1;
  get_value = λ r pin w. (if pin == 5 then active else inactive, w);
  set_value = λ r pin v w. (true, w);
}

abbrev pub bench_own : Ownership bench
bench_own = record {
  live = λ w. w;
  calloc_live = λ n w. refl;
  free_live = λ w. refl;
  chip_open_live = λ p w. refl;
  chip_close_live = λ c w. refl;
  chip_get_info_live = λ c w. refl;
  info_free_live = λ i w. refl;
  settings_new_live = λ w. refl;
  settings_free_live = λ s w. refl;
  set_direction_live = λ s d w. refl;
  set_bias_live = λ s b w. refl;
  set_output_value_live = λ s v w. refl;
  line_config_new_live = λ w. refl;
  line_config_free_live = λ c w. refl;
  add_line_settings_live = λ c n s w. refl;
  request_config_new_live = λ w. refl;
  request_config_free_live = λ c w. refl;
  set_consumer_live = λ c n w. refl;
  request_lines_live = λ o r c w. refl;
  request_release_live = λ r w. refl;
  get_value_live = λ r n w. refl;
  set_value_live = λ r n v w. refl;
}

-- Before the first call; three objects belong to the rest of the program.
abbrev pub closed_gpio : Gpio bench
closed_gpio = record {
  chip = none;
  pin_ctxs = none;
  num_lines = 0;
  library_opened = false;
  world = 3;
}

pub closed_gpio-IsClosed : IsClosed bench bench_own 3 closed_gpio
closed_gpio-IsClosed = record {
  opened = refl;
  chip = refl;
  pin_ctxs = refl;
  num_lines = refl;
  balance = refl;
}
