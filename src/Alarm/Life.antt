-- ===== src/Alarm/Life.antt =====
-- src/gpio_polling.c: the services from their start in `init_polling` to `deinit_polling`.
use alarm4pi.Prelude.{
  ℕ, ◌+◌, ◌≤◌, ◌≡◌, refl, ap, ◌∙◌, ℤ, false, Option, some, List, [], ◌∷◌, arith, inl, handed_if,
}
use alarm4pi.CString.{Bytes, codes}
use alarm4pi.Proc.Paths.{ExecEnv}
use alarm4pi.Config.{conf_path}
use alarm4pi.Web.{Web, ReadsAll, WebOwnership}
use alarm4pi.Telegram.{Telegram, telegram_deinit}
use alarm4pi.Telegram.Life as TelegramLife
use alarm4pi.Telegram.Start as TelegramStart
use alarm4pi.Pushover.{Pushover, pushover_deinit}
use alarm4pi.Pushover.Life as PushoverLife
use alarm4pi.Pushover.Start as PushoverStart
use alarm4pi.Owncloud.{Owncloud, owncloud_deinit}
use alarm4pi.Owncloud.Life as OwncloudLife
use alarm4pi.Owncloud.Start as OwncloudStart
use alarm4pi.Capturer.{capturer_init}
use alarm4pi.Capturer.Life.{IsSound, capturer_init-IsSound, live-capturer_deinit}
use alarm4pi.Alarm.Keeps.{Keeps, on_alarm_event-Keeps, update_ip_msg-Keeps}
use alarm4pi.Alarm.{
  Alarm, Asked, at_capturer, update_ip_msg, on_alarm_event, owncloud_started, pushover_started,
  telegram_started, start_owncloud, start_pushover, start_telegram, start_services, deinit_polling,
}

-- What happens between the start and the end: an event with the time, the pin and its value, or a
-- check of the public address.
pub data AlarmCall : Type 0 where
  event_call : Bytes → ℤ → ℤ → AlarmCall
  ip_call : (Bytes → Bytes) → Asked → AlarmCall

unfoldable pub run_alarm_call : (web : Web) → AlarmCall → Alarm web → Alarm web
run_alarm_call web (event_call stamp pin val) a = on_alarm_event web stamp pin val a
run_alarm_call web (ip_call formatted wan) a = (update_ip_msg web formatted wan a).1

unfoldable pub run_alarm_calls : (web : Web) → List AlarmCall → Alarm web → Alarm web
run_alarm_calls web [] a = a
run_alarm_calls web (k ∷ ks) a = run_alarm_calls web ks (run_alarm_call web k a)

abbrev flags : {web : Web} → Alarm web → ℕ
flags a =
    a.telegram.telegram_initialized + a.pushover.pushover_initialized
    + a.owncloud.owncloud_initialized

module _ (web : Web) (own : WebOwnership web) where
  open own.own use {live}

  -- No service is started, and the static strings of ownCloud are within their buffers.
  abbrev pub Idle : Alarm web → Type 0
  Idle a =
      (a.telegram.telegram_initialized ≡ 0)
      × (a.pushover.pushover_initialized ≡ 0)
      × (a.owncloud.owncloud_initialized ≡ 0)
      × OwncloudStart.Fitting web own a.owncloud
      × (a.capturer.initialized ≡ false)
      × (a.capturer.curl_global_initialized ≡ false)

  -- Besides `n` objects exactly the global state of libcurl is held, once for each service started.
  abbrev pub Holding : ℕ → Alarm web → Type 0
  Holding n a =
      (a.telegram.telegram_initialized ≤ 1)
      × (a.pushover.pushover_initialized ≤ 1)
      × (a.owncloud.owncloud_initialized ≤ 1)
      × IsSound web.host own.own (n + flags a) (record a.capturer { world = a.world })

  pub Holding-Keeps : (n : ℕ) (a b : Alarm web) → Keeps web own a b → Holding n a → Holding n b
  Holding-Keeps n a b (t, p, o, r, g, h) (lt, lp, lo, (safe, held)) =
      (omega arith, omega arith, omega arith, (rw (r, g) safe, h ∙ held ∙ cc (t, p, o, g)))

  pub run_alarm_calls-Holding :
      (n : ℕ) (ks : List AlarmCall) (a : Alarm web)
      → Holding n a
      → Holding n (run_alarm_calls web ks a)
  unfolding run_alarm_calls run_alarm_call
  run_alarm_calls-Holding n [] a h = h
  run_alarm_calls-Holding n (event_call stamp pin val ∷ ks) a h =
      let b = on_alarm_event web stamp pin val a in
      run_alarm_calls-Holding n ks b
        (Holding-Keeps n a b (on_alarm_event-Keeps web own stamp pin val a) h)
  run_alarm_calls-Holding n (ip_call formatted wan ∷ ks) a h =
      let b = (update_ip_msg web formatted wan a).1 in
      run_alarm_calls-Holding n ks b
        (Holding-Keeps n a b (update_ip_msg-Keeps web own formatted wan a) h)

  owncloud_step :
      (reads : ReadsAll web) (env : ExecEnv) (path : Bytes) (a : Alarm web)
      → a.owncloud.owncloud_initialized ≡ 0
      → OwncloudStart.Fitting web own a.owncloud
      → (o : Owncloud web) × (start_owncloud web env path a
          ≡ some (record a { owncloud = o; world = o.world }))
        × (o.owncloud_initialized ≤ 1)
        × (live o.world ≡ live a.world + o.owncloud_initialized)
  unfolding start_owncloud owncloud_started
  owncloud_step reads env path a off fits =
      let o = record a.owncloud { world = a.world } in
      let (code, o1, q, le, h) = OwncloudLife.Started-Held web own o _ _ (
        OwncloudStart.owncloud_init-Returns web own env (codes "owncloud_conf.txt") path
          (codes "captures") o off fits
          (λ fd q.
            reads fd (web.host.fopen (conf_path env (codes "owncloud_conf.txt")) a.world).1)) in
      (o1, rw (q, owncloud_started) refl, le, h)

  pushover_step :
      (reads : ReadsAll web) (env : ExecEnv) (a : Alarm web)
      → a.pushover.pushover_initialized ≡ 0
      → (p : Pushover web) × (start_pushover web env a
          ≡ some (record a { pushover = p; world = p.world }))
        × (p.pushover_initialized ≤ 1)
        × (live p.world ≡ live a.world + p.pushover_initialized)
  unfolding start_pushover pushover_started
  pushover_step reads env a off =
      let p = record a.pushover { world = a.world } in
      let (code, p1, q, le, h) = PushoverLife.Started-Held web own p _ _ (
        PushoverStart.pushover_init-Returns web own env (codes "pushover_conf.txt") p off (λ fd q.
          reads fd (web.host.fopen (conf_path env (codes "pushover_conf.txt")) a.world).1)) in
      (p1, rw (q, pushover_started) refl, le, h)

  telegram_step :
      (reads : ReadsAll web) (env : ExecEnv) (a : Alarm web)
      → a.telegram.telegram_initialized ≡ 0
      → (t : Telegram web) × (start_telegram web env a
          ≡ some (record a { telegram = t; world = t.world }))
        × (t.telegram_initialized ≤ 1)
        × (live t.world ≡ live a.world + t.telegram_initialized)
  unfolding start_telegram telegram_started
  telegram_step reads env a off =
      let t = record a.telegram { world = a.world } in
      let (code, t1, q, le, h) = TelegramLife.Started-Held web own t _ _ (
        TelegramStart.telegram_init-Returns web own env (codes "telegram_conf.txt") t off (λ fd q.
          reads fd (web.host.fopen (conf_path env (codes "telegram_conf.txt")) a.world).1)) in
      (t1, rw (q, telegram_started) refl, le, h)

  -- The services start or not, and what they hold is counted by their flags.
  abbrev pub StartsHolding : ℕ → ℕ → Option (Alarm web) → Type 0
  StartsHolding n k r = (a : Alarm web) × (r ≡ some a) × Holding n a × (a.resolvers ≡ k)

  pub start_services-StartsHolding :
      (reads : ReadsAll web) (env : ExecEnv) (path : Bytes) (a : Alarm web)
      → Idle a
      → StartsHolding (live a.world) a.resolvers (start_services web env path a)
  unfolding start_services
  start_services-StartsHolding reads env path a (t0, p0, o0, fits, i, g) =
      let (o, qo, lo, ho) = owncloud_step reads env path a o0 fits in
      let a1 = record a { owncloud = o; world = o.world } in
      let (p, qp, lp, hp) = pushover_step reads env a1 p0 in
      let a2 = record a1 { pushover = p; world = p.world } in
      let (t, qt, lt, ht) = telegram_step reads env a2 t0 in
      let a3 = record a2 { telegram = t; world = t.world } in
      let c = record a.capturer { world = t.world } in
      let n = live a.world + flags a3 in
      let sound : IsSound web.host own.own n c =
        (inl i, omega (arith, ap handed_if g, ho, hp, ht)) in
      (
        (at_capturer (capturer_init web.host path) a3).1,
        rw (qo, qp, qt) refl,
        (lt, lp, lo, capturer_init-IsSound web.host own.own n path c sound),
        refl,
      )

  pub live-deinit_polling :
      (n : ℕ) (a : Alarm web) → Holding n a → live (deinit_polling web a).world ≡ n
  unfolding deinit_polling
  live-deinit_polling n a (lt, lp, lo, (safe, held)) =
      let o = owncloud_deinit web (record a.owncloud { world = a.world }) in
      let p = pushover_deinit web (record a.pushover { world = o.world }) in
      let t = telegram_deinit web (record a.telegram { world = p.world }) in
      let c = record a.capturer { world = t.world } in
      let ho =
        OwncloudLife.live-owncloud_deinit web own (record a.owncloud { world = a.world }) lo in
      let hp =
        PushoverLife.live-pushover_deinit web own (record a.pushover { world = o.world }) lp in
      let ht =
        TelegramLife.live-telegram_deinit web own (record a.telegram { world = p.world }) lt in
      live-capturer_deinit web.host own.own n c (safe, omega (arith, ho, hp, ht, held))

  -- The services end, and hold nothing more than before.
  abbrev pub Closes : Alarm web → List AlarmCall → Option (Alarm web) → Type 0
  Closes a ks r =
      (a1 : Alarm web) × (r ≡ some a1)
      × (live (deinit_polling web (run_alarm_calls web ks a1)).world ≡ live a.world)

  -- Whatever libcurl, the servers and the file system answer: when no service is started and no
  -- read of a file fails, starting the
  -- four services as `init_polling` does returns, and after any alarm events and checks of the public
  -- address `deinit_polling` has given back all handles, texts, files and blocks that the calls took,
  -- and the global state of libcurl as often as it was taken.
  pub start_services-Closes :
      (reads : ReadsAll web) (env : ExecEnv) (path : Bytes) (ks : List AlarmCall) (a : Alarm web)
      → Idle a
      → Closes a ks (start_services web env path a)
  start_services-Closes reads env path ks a idle =
      let (a1, q, h, k) = start_services-StartsHolding reads env path a idle in
      (
        a1,
        q,
        live-deinit_polling (live a.world) (run_alarm_calls web ks a1)
            (run_alarm_calls-Holding (live a.world) ks a1 h),
      )
