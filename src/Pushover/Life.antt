-- ===== src/Pushover/Life.antt =====
-- The life of src/pushover2.c: what its calls take and give back.
use alarm4pi.Prelude.{
  ℕ, ◌+◌, ◌-◌, ◌≤◌, ◌≡◌, Bool, Option, none, some, List, arith, inl, inr, handed,
}
use alarm4pi.CString.{Bytes}
use alarm4pi.Proc.Paths.{ExecEnv}
use alarm4pi.Config.{conf_path}
use alarm4pi.Web.{Web, ReadsAll, WebOwnership}
use alarm4pi.Web.Response.{Response, no_response, perform}
use alarm4pi.Web.Memory.{live-perform, live-free_response}
use alarm4pi.Web.Session.{Service, session, Closes, session-Closes}
use alarm4pi.Pushover.{
  Pushover, Escaped, post_fields, pushover_init, free_text, released, posted, texts_escaped,
  handle_made, send_pushover_notification, pushover_deinit,
}
use alarm4pi.Pushover.Start.{Returns, pushover_init-Returns}

-- The texts that libcurl handed out.
abbrev texts : Escaped → ℕ
texts e =
    handed e.escaped_msg
    + handed e.escaped_token
    + handed e.escaped_user
    + handed e.escaped_priority

module _ (web : Web) (own : WebOwnership web) where
  open web.host use {World, File, Curl}
  open own.own use {live}

  live-free_text : (s : Option Bytes) (w : World) → live (free_text web s w) ≡ live w - handed s
  live-free_text none w = omega arith
  live-free_text (some s) w = own.curl_free_live s w

  live-released :
      (curl : Curl) (e : Escaped) (r : Response) (w : World)
      → live (released web curl e r w) ≡ live w - texts e - 1 - handed r.block
  unfolding released
  live-released curl e r w =
      let w1 = free_text web e.escaped_msg w in
      let w2 = free_text web e.escaped_token w1 in
      let w3 = free_text web e.escaped_user w2 in
      let w4 = free_text web e.escaped_priority w3 in
      let w5 = web.host.curl_easy_cleanup curl w4 in
      omega (
        arith,
        live-free_text e.escaped_msg w,
        live-free_text e.escaped_token w1,
        live-free_text e.escaped_user w2,
        live-free_text e.escaped_priority w3,
        own.own.curl_easy_cleanup_live curl w4,
        live-free_response web own r w5,
      )

  live-posted :
      (curl : Curl) (e : Escaped) (r : Bool × (Response × World))
      → live (posted web curl e r).1 ≡ live r.1.1 - texts e - 1 - handed r.1.0.block
  unfolding posted
  live-posted curl e (ok, (buf, w)) = live-released curl e buf w

  live-texts_escaped :
      (p : Pushover web) (curl : Curl) (e : Escaped) (fields : Option Bytes) (n : ℕ) (w : World)
      → live w ≡ n + 1 + texts e
      → live (texts_escaped web p curl e fields w).1 ≡ n
  unfolding texts_escaped
  live-texts_escaped p curl e none n w h = omega (arith, live-released curl e no_response w)
  live-texts_escaped p curl e (some fields) n w h = omega (
    arith,
    live-posted curl e (perform web curl p.server_url fields w),
    live-perform web own curl p.server_url fields w,
  )

  live-handle_made :
      (p : Pushover web) (msg_str msg_priority : Bytes) (n : ℕ) (r : Option Curl × World)
      → live r.1 ≡ n + handed r.0
      → live (handle_made web p msg_str msg_priority r).1 ≡ n
  unfolding handle_made
  live-handle_made p msg priority n (none, w) h = omega arith
  live-handle_made p msg priority n (some curl, w) h =
      let (m, w1) = web.escape curl msg w in
      let (t, w2) = web.escape curl p.token_id w1 in
      let (u, w3) = web.escape curl p.user_id w2 in
      let (q, w4) = web.escape curl priority w3 in
      let e : Escaped = record {
        escaped_msg = m;
        escaped_token = t;
        escaped_user = u;
        escaped_priority = q;
      } in
      live-texts_escaped p curl e (post_fields priority e) n w4 (
        omega (
          arith,
          own.escape_live curl msg w,
          own.escape_live curl p.token_id w1,
          own.escape_live curl p.user_id w2,
          own.escape_live curl priority w3,
        ))

  pub live-send_pushover_notification :
      (msg_str msg_priority : Bytes) (p : Pushover web)
      → live (send_pushover_notification web msg_str msg_priority p).1.world ≡ live p.world
  unfolding send_pushover_notification
  live-send_pushover_notification msg priority p = ground (
    arith,
    live-handle_made p msg priority (live p.world) (web.host.curl_easy_init p.world)
        (own.own.curl_easy_init_live p.world),
  )

  pub initialized-send_pushover_notification :
      (msg_str msg_priority : Bytes) (p : Pushover web)
      → (send_pushover_notification web msg_str msg_priority p).1.pushover_initialized
        ≡ p.pushover_initialized
  unfolding send_pushover_notification
  initialized-send_pushover_notification msg priority p = ground arith

  pub live-pushover_deinit :
      (p : Pushover web)
      → p.pushover_initialized ≤ 1
      → live (pushover_deinit web p).world ≡ live p.world - p.pushover_initialized
  unfolding pushover_deinit
  live-pushover_deinit p le = ground (arith, own.own.curl_global_cleanup_live p.world)

  abbrev pub Held : Pushover web → Option (ℕ × Pushover web) → Type 0
  Held p r =
      (code : ℕ) × (p1 : Pushover web) × (r ≡ some (code, p1))
      × (p1.pushover_initialized ≤ 1)
      × (live p1.world ≡ live p.world + p1.pushover_initialized)

  pub Started-Held :
      (p : Pushover web) (e : ℕ) (r : Option (ℕ × Pushover web))
      → Returns web own (live p.world) e r
      → Held p r
  Started-Held p e r ((code, p1), q, inl (z, f, h, c)) = (code, p1, q, omega arith, omega arith)
  Started-Held p e r ((code, p1), q, inr (f, h, c)) = (code, p1, q, omega arith, omega arith)

  -- Pushover, started from a configuration file; an act sends a message with its priority.
  abbrev pub pushover_service : ReadsAll web → ExecEnv → Bytes → Service web own
  pushover_service reads env conf_filename = record {
    State = Pushover web;
    Act = Bytes × Bytes;
    flag = λ p. p.pushover_initialized;
    world = λ p. p.world;
    Idle = λ p. p.pushover_initialized ≡ 0;
    start = pushover_init web env conf_filename;
    act = λ a p. (send_pushover_notification web a.0 a.1 p).1;
    stop = pushover_deinit web;
    start_held = λ p off. Started-Held p _ _ (
        pushover_init-Returns web own env conf_filename p off
          (λ fd q. reads fd (web.host.fopen (conf_path env conf_filename) p.world).1));
    act_flag = λ a p. initialized-send_pushover_notification a.0 a.1 p;
    act_live = λ a p. live-send_pushover_notification a.0 a.1 p;
    stop_live = live-pushover_deinit;
  }

  -- Whatever libcurl, the server and the file system answer, from `pushover_init`, called when Pushover
  -- is not started and no read of a file fails, over the notifications sent to `pushover_deinit`, each call returns, and all
  -- handles, texts, files and blocks that the calls took are given back, libcurl's global state
  -- included.
  pub pushover_session-Closes :
      (reads : ReadsAll web) (env : ExecEnv) (conf_filename : Bytes) (msgs : List (Bytes × Bytes))
      (p : Pushover web)
      → p.pushover_initialized ≡ 0
      → Closes
          (pushover_service reads env conf_filename)
          p
          (session (pushover_service reads env conf_filename) msgs p)
  pushover_session-Closes reads env name msgs p off =
      session-Closes (pushover_service reads env name) msgs p off
