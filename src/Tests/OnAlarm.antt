-- ===== src/Tests/OnAlarm.antt =====
-- The theorem on a life of the alarm in src/gpio_polling.c at a concrete input.
use alarm4pi.Prelude.{true, refl, pos, false, [], ◌∷◌, ◌++◌, arith}
use alarm4pi.CString.{Bytes, codes}
use alarm4pi.Proc.Paths.{ExecEnv, target}
use alarm4pi.Web.{Web}
use alarm4pi.Alarm.{Alarm}
use alarm4pi.Daemon.{Daemon, Start, Thread, polling_life}
use alarm4pi.Daemon.Life.{Ends, polling_life-Ends}
use alarm4pi.Tests.Bench.{bench, bench_own, closed_gpio, closed_gpio-IsClosed}
use alarm4pi.Tests.Network.{network, network_own}

abbrev an_env : ExecEnv
an_env = record {
  self_exe = target (codes "/opt/alarm/a");
  dirname = λ t. codes "/opt/alarm";
  errno = 0;
}

-- Telegram starts on this file, the others do not.
abbrev a_conf : Bytes
a_conf = codes "chat_id=-1001 api_token=12:ab"

abbrev a_web : Web
a_web = network a_conf []

abbrev off : Alarm a_web
off = record {
  msg_info_str = [];
  telegram = record { chat_id = []; api_token = []; telegram_initialized = 0; world = 2 };
  pushover = record {
    token_id = [];
    user_id = [];
    server_url = [];
    pushover_initialized = 0;
    world = 2;
  };
  owncloud = record {
    full_capture_path = [];
    remote_destin_dir = [];
    server_url = [];
    user_id = [];
    user_password = [];
    owncloud_initialized = 0;
    world = 2;
  };
  capturer = record {
    capture_path = [];
    snapshot_url = [];
    initialized = false;
    curl_global_initialized = false;
    world = 2;
  };
  resolvers = 0;
  world = 2;
}

abbrev a_daemon : Daemon bench a_web
a_daemon = record { gpio = closed_gpio; alarm = off; full_capture_path = [] }

abbrev a_start : Start
a_start = record {
  env = an_env;
  capture_path = codes "captures/";
  formatted = λ address. codes "Server: " ++ address;
  wan = record { resolver_made = true; ip_err = 0; wan_address = codes "1.2.3.4" };
  thread_error = 0;
  unset = 0;
}

-- Two rounds.
abbrev a_thread : Thread
a_thread = record {
  exits = 0 ∷ 0 ∷ 1 ∷ [];
  armed = pos 0;
  value = pos 0;
  stamp = λ n. codes "2026-01-02_03h04m05s";
  join_error = 0;
}

polling_life-Ends_example :
    Ends bench bench_own a_web
      (network_own a_conf [])
      3
      2
      1
      (polling_life bench a_web a_start a_thread a_daemon)
polling_life-Ends_example =
    polling_life-Ends bench bench_own a_web (network_own a_conf []) 3 (λ f w. refl) a_start a_thread
      a_daemon refl
      (
        refl,
        refl,
        refl,
        (omega arith, omega arith, omega arith, omega arith, omega arith),
        refl,
        refl,
      )
      closed_gpio-IsClosed
