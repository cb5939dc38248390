-- ===== src/Telegram/Life.antt =====
-- The life of src/telegram.c: what its calls take and give back.
use alarm4pi.Prelude.{
  ℕ, ◌+◌, ◌-◌, ◌≤◌, ◌≡◌, Bool, Option, none, some, List, arith, inl, inr, handed,
}
use alarm4pi.CString.{Bytes}
use alarm4pi.Proc.Paths.{ExecEnv}
use alarm4pi.Config.{conf_path}
use alarm4pi.Web.{Web, ReadsAll, WebOwnership}
use alarm4pi.Web.Response.{Response, perform}
use alarm4pi.Web.Memory.{live-perform, live-free_response}
use alarm4pi.Web.Session.{Service, session, Closes, session-Closes}
use alarm4pi.Telegram.{
  Telegram, telegram_url, telegram_fields, telegram_init, posted, message_escaped, handle_made,
  send_telegram_message, telegram_deinit,
}
use alarm4pi.Telegram.Start.{Returns, telegram_init-Returns}

module _ (web : Web) (own : WebOwnership web) where
  open web.host use {World, File, Curl}
  open own.own use {live}

  live-posted :
      (curl : Curl) (escaped_msg : Bytes) (r : Bool × (Response × World))
      → live (posted web curl escaped_msg r).1 ≡ live r.1.1 - handed r.1.0.block - 2
  unfolding posted
  live-posted curl s (ok, (buf, w)) =
      let w1 = web.curl_free s w in
      let w2 = web.host.curl_easy_cleanup curl w1 in
      omega (
        arith,
        own.curl_free_live s w,
        own.own.curl_easy_cleanup_live curl w1,
        live-free_response web own buf w2,
      )

  live-message_escaped :
      (t : Telegram web) (curl : Curl) (n : ℕ) (r : Option Bytes × World)
      → live r.1 ≡ n + 1 + handed r.0
      → live (message_escaped web t curl r).1 ≡ n
  unfolding message_escaped
  live-message_escaped t curl n (none, w) h = omega (arith, own.own.curl_easy_cleanup_live curl w)
  live-message_escaped t curl n (some s, w) h =
      let url = telegram_url t.api_token in
      let fields = telegram_fields t.chat_id s in
      omega (
        arith,
        live-posted curl s (perform web curl url fields w),
        live-perform web own curl url fields w,
      )

  live-handle_made :
      (t : Telegram web) (msg_str : Bytes) (n : ℕ) (r : Option Curl × World)
      → live r.1 ≡ n + handed r.0
      → live (handle_made web t msg_str r).1 ≡ n
  unfolding handle_made
  live-handle_made t msg n (none, w) h = omega arith
  live-handle_made t msg n (some curl, w) h =
      live-message_escaped t curl n (web.escape curl msg w)
        (omega (arith, own.escape_live curl msg w))

  pub live-send_telegram_message :
      (msg_str : Bytes) (t : Telegram web)
      → live (send_telegram_message web msg_str t).1.world ≡ live t.world
  unfolding send_telegram_message
  live-send_telegram_message msg t = ground (
    arith,
    live-handle_made t msg (live t.world) (web.host.curl_easy_init t.world)
        (own.own.curl_easy_init_live t.world),
  )

  pub initialized-send_telegram_message :
      (msg_str : Bytes) (t : Telegram web)
      → (send_telegram_message web msg_str t).1.telegram_initialized ≡ t.telegram_initialized
  unfolding send_telegram_message
  initialized-send_telegram_message msg t = ground arith

  pub live-telegram_deinit :
      (t : Telegram web)
      → t.telegram_initialized ≤ 1
      → live (telegram_deinit web t).world ≡ live t.world - t.telegram_initialized
  unfolding telegram_deinit
  live-telegram_deinit t le = ground (arith, own.own.curl_global_cleanup_live t.world)

  abbrev pub Held : Telegram web → Option (ℕ × Telegram web) → Type 0
  Held t r =
      (code : ℕ) × (t1 : Telegram web) × (r ≡ some (code, t1))
      × (t1.telegram_initialized ≤ 1)
      × (live t1.world ≡ live t.world + t1.telegram_initialized)

  pub Started-Held :
      (t : Telegram web) (e : ℕ) (r : Option (ℕ × Telegram web))
      → Returns web own (live t.world) e r
      → Held t r
  Started-Held t e r ((code, t1), p, inl (z, f, h, c)) = (code, t1, p, omega arith, omega arith)
  Started-Held t e r ((code, t1), p, inr (f, h, c)) = (code, t1, p, omega arith, omega arith)

  -- Telegram, started from a configuration file; an act sends a message.
  abbrev pub telegram_service : ReadsAll web → ExecEnv → Bytes → Service web own
  telegram_service reads env conf_filename = record {
    State = Telegram web;
    Act = Bytes;
    flag = λ t. t.telegram_initialized;
    world = λ t. t.world;
    Idle = λ t. t.telegram_initialized ≡ 0;
    start = telegram_init web env conf_filename;
    act = λ msg_str t. (send_telegram_message web msg_str t).1;
    stop = telegram_deinit web;
    start_held = λ t off. Started-Held t _ _ (
        telegram_init-Returns web own env conf_filename t off
          (λ fd q. reads fd (web.host.fopen (conf_path env conf_filename) t.world).1));
    act_flag = initialized-send_telegram_message;
    act_live = live-send_telegram_message;
    stop_live = live-telegram_deinit;
  }

  -- Whatever libcurl, the server and the file system answer, from `telegram_init`, called when Telegram
  -- is not started and no read of a file fails, over the messages sent to `telegram_deinit`, each call returns, and all handles,
  -- texts, files and blocks that the calls took are given back, libcurl's global state included.
  pub telegram_session-Closes :
      (reads : ReadsAll web) (env : ExecEnv) (conf_filename : Bytes) (msgs : List Bytes)
      (t : Telegram web)
      → t.telegram_initialized ≡ 0
      → Closes
          (telegram_service reads env conf_filename)
          t
          (session (telegram_service reads env conf_filename) msgs t)
  telegram_session-Closes reads env name msgs t off =
      session-Closes (telegram_service reads env name) msgs t off
