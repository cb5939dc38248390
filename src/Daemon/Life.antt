-- ===== src/Daemon/Life.antt =====
-- src/gpio_polling.c and src/alarm4pi.c: what is left of a life of the alarm.
use alarm4pi.Prelude.{
  ℕ, ◌+◌, ◌≤◌, true, ◌≡◌, refl, sym, ap, Bool, false, not, ◌&&◌, Option, none, some, [], ◌==◌,
  arith, inl, inr, ◌⊎◌, Bool-cases, handed_if, eexist,
}
use alarm4pi.Proc.Paths.{get_absolute_path}
use alarm4pi.Gpio.Device.{Gpiod, Ownership}
use alarm4pi.Gpio.{Gpio}
use alarm4pi.Gpio.Pins.{open_gpios, close_gpios}
use alarm4pi.Gpio.Pins.Owned.{IsClosed, IsWellFormed}
use alarm4pi.Gpio.Pins.Cycle.{open_gpios-IsWellFormed, close_gpios-IsClosed}
use alarm4pi.Gpio.Configure.{configure_gpios}
use alarm4pi.Gpio.Configure.Ready.{configure_gpios-Configured}
use alarm4pi.Polling.{polling_thread}
use alarm4pi.Polling.Owned.{polling_thread-IsWellFormed}
use alarm4pi.Web.{Web, ReadsAll, WebOwnership}
use alarm4pi.Alarm.{Alarm, start_services, update_ip_msg, deinit_polling}
use alarm4pi.Alarm.Keeps.{update_ip_msg-Keeps, resolvers-update_ip_msg}
use alarm4pi.Alarm.Life.{
  run_alarm_calls, Idle, Holding, StartsHolding, Holding-Keeps, run_alarm_calls-Holding,
  start_services-StartsHolding, live-deinit_polling,
}
use alarm4pi.Daemon.Exit.{is_exiting, polling_thread-ended, resolvers-calls_of}
use alarm4pi.Daemon.{
  Daemon, Start, Thread, calls_of, services_started, pins_configured, pins_opened, directory_made,
  init_polling, wait_polling_end, life_ended, polling_life,
}

module _ (lib : Gpiod) (own : Ownership lib) (web : Web) (web_own : WebOwnership web)
    (base : ℕ) where
  open web.host use {World}
  open web_own.own use {live}

  -- The pins are consistent, besides `n` objects only the services' state of libcurl is held, and there
  -- are at most `k` resolver states.
  abbrev Holds : ℕ → ℕ → Daemon lib web → Type 0
  Holds n k d =
      Holding web web_own n d.alarm × IsWellFormed lib own base d.gpio × (d.alarm.resolvers ≤ k)

  abbrev Returns : ℕ → ℕ → Option (ℕ × Daemon lib web) → Type 0
  Returns n k r = (a : ℕ × Daemon lib web) × (r ≡ some a) × Holds n k a.1

  -- The resolver states with that of one call of `get_public_ip`.
  abbrev pub after_asking : Start → Daemon lib web → ℕ
  after_asking s d = d.alarm.resolvers + handed_if s.wan.resolver_made

  Idle-Holding : (a : Alarm web) → Idle web web_own a → Holding web web_own (live a.world) a
  Idle-Holding a (t, p, o, fits, i, g) =
      (omega arith, omega arith, omega arith, (inl i, omega (arith, t, p, o, ap handed_if g)))

  services_started-Returns :
      (s : Start) (n : ℕ) (d : Daemon lib web) (r : Option (Alarm web))
      → StartsHolding web web_own n d.alarm.resolvers r
      → IsWellFormed lib own base d.gpio
      → Returns n (after_asking s d) (services_started lib web s d r)
  unfolding services_started
  services_started-Returns s n d r (a, q, h, k) wf =
      let a1 = record a { msg_info_str = [] } in
      let a2 = (update_ip_msg web s.formatted s.wan a1).1 in
      (
        (s.thread_error, record d { alarm = a2 }),
        rw (q, services_started) refl,
        (
          Holding-Keeps web web_own n a1 a2 (update_ip_msg-Keeps web web_own s.formatted s.wan a1)
              h,
          wf,
          omega (arith, k, resolvers-update_ip_msg web web_own s.formatted s.wan a1),
        ),
      )

  pins_configured-Returns :
      (reads : ReadsAll web) (s : Start) (d : Daemon lib web) (r : ℕ × Gpio lib)
      → Idle web web_own d.alarm
      → IsWellFormed lib own base r.1
      → Returns (live d.alarm.world) (after_asking s d) (pins_configured lib web s d r)
  unfolding pins_configured
  pins_configured-Returns reads s d (ret, g) idle wf = elim (Bool-cases (ret == 0)) [
    | inr bad ↦
        rw bad ((ret, record d { gpio = g }), refl, (Idle-Holding d.alarm idle, wf, omega arith))
    | inl ok ↦ rw ok (
        services_started-Returns s (live d.alarm.world) (record d { gpio = g })
          (start_services web s.env d.full_capture_path d.alarm)
          (start_services-StartsHolding web web_own reads s.env d.full_capture_path d.alarm idle)
          wf)
  ]

  pins_opened-Returns :
      (reads : ReadsAll web) (s : Start) (d : Daemon lib web) (r : ℕ × Gpio lib)
      → Idle web web_own d.alarm
      → IsWellFormed lib own base r.1
      → Returns (live d.alarm.world) (after_asking s d) (pins_opened lib web s d r)
  unfolding pins_opened
  pins_opened-Returns reads s d (ret, g) idle wf = elim (Bool-cases (ret == 0)) [
    | inr bad ↦
        rw bad ((ret, record d { gpio = g }), refl, (Idle-Holding d.alarm idle, wf, omega arith))
    | inl ok ↦ rw ok (
        pins_configured-Returns reads s d (configure_gpios lib g) idle
          (configure_gpios-Configured lib own base g wf).0)
  ]

  directory_made-Returns :
      (reads : ReadsAll web) (s : Start) (n : ℕ) (d : Daemon lib web) (r : Bool × World)
      → Idle web web_own d.alarm
      → IsWellFormed lib own base d.gpio
      → live r.1 ≡ n
      → Returns n (after_asking s d) (directory_made lib web s d r)
  unfolding directory_made
  directory_made-Returns reads s n d (made, w) idle wf h =
      let d1 = record d { alarm = record d.alarm { world = w } } in
      elim (Bool-cases (not made && not (web.host.errno w == eexist))) [
        | inl bad ↦ rw bad (
          (web.host.errno w, d1),
          refl,
          (rw (sym h) (Idle-Holding d1.alarm idle), wf, omega arith),
        )
        | inr ok ↦
            rw (ok, sym h)
              (pins_opened-Returns reads s d1 (open_gpios lib d.gpio) idle
                (open_gpios-IsWellFormed lib own base d.gpio wf))
      ]

  init_polling-Returns :
      (reads : ReadsAll web) (s : Start) (d : Daemon lib web)
      → Idle web web_own d.alarm
      → IsWellFormed lib own base d.gpio
      → Returns (live d.alarm.world) (after_asking s d) (init_polling lib web s d)
  unfolding init_polling
  init_polling-Returns reads s d idle wf =
      let (ret, path) = get_absolute_path s.env d.full_capture_path s.capture_path in
      let ret_err : ℕ = elim ret [ some code ↦ code | none ↦ s.unset ] in
      let d1 = record d { full_capture_path = path } in
      elim (Bool-cases (ret_err == 0)) [
        | inr bad ↦ rw bad ((ret_err, d1), refl, (Idle-Holding d.alarm idle, wf, omega arith))
        | inl ok ↦ rw ok (
            directory_made-Returns reads s (live d.alarm.world) d1
              (web.host.mkdir path d.alarm.world) idle wf
              (web_own.own.mkdir_live path d.alarm.world))
      ]

  wait_polling_end-Holds :
      (t : Thread) (n k : ℕ) (d : Daemon lib web)
      → is_exiting t.exits ≡ true
      → Holds n k d
      → (d1 : Daemon lib web) × (wait_polling_end lib web t d ≡ some (t.join_error, d1))
        × Holding web web_own n d1.alarm
        × IsClosed lib own base d1.gpio
        × (d1.alarm.resolvers ≤ k)
  unfolding wait_polling_end run_alarm_calls
  wait_polling_end-Holds t n k d exits (h, wf, le) =
      let (ended, (lasts, p)) = polling_thread lib t.exits t.armed t.value d.gpio in
      let calls = calls_of t.stamp p.events [] in
      let d1 = record d {
        gpio = (close_gpios lib p.gpio).1;
        alarm = run_alarm_calls web calls d.alarm;
      } in
      let over : ended ≡ true = polling_thread-ended lib t.exits t.armed t.value d.gpio exits in
      (
        d1,
        rw (over, wait_polling_end) refl,
        run_alarm_calls-Holding web web_own n calls d.alarm h,
        close_gpios-IsClosed lib own base p.gpio
            (polling_thread-IsWellFormed lib own base t.exits t.armed t.value d.gpio wf),
        omega (arith, resolvers-calls_of web web_own t.stamp p.events [] (λ a. no_calls a) d.alarm),
      )
    where
      no_calls : (a : Alarm web) → (run_alarm_calls web [] a).resolvers ≡ a.resolvers
      no_calls a = refl

  -- The calls return; the services hold nothing more than before, there are at most `k` resolver
  -- states, and either the code is 0 and the GPIO library is closed, with nothing held by it, or the
  -- code is not 0 and its state is consistent, open or closed.
  abbrev pub Ends : ℕ → ℕ → Option (ℕ × Daemon lib web) → Type 0
  Ends n k r =
      (code : ℕ) × (d : Daemon lib web) × (r ≡ some (code, d))
      × (live d.alarm.world ≡ n)
      × (d.alarm.resolvers ≤ k)
      × ((((code == 0) ≡ true) × IsClosed lib own base d.gpio)
          ⊎ (((code == 0) ≡ false) × IsWellFormed lib own base d.gpio))

  life_ended-Ends :
      (t : Thread) (n k : ℕ) (r : Option (ℕ × Daemon lib web))
      → is_exiting t.exits ≡ true
      → Returns n k r
      → Ends n k (life_ended lib web t r)
  unfolding life_ended deinit_polling
  life_ended-Ends t n k r exits ((code, d), q, (h, wf, le)) = elim (Bool-cases (code == 0)) [
    | inr bad ↦ (
      code,
      record d { alarm = deinit_polling web d.alarm },
      rw (q, bad, life_ended) refl,
      live-deinit_polling web web_own n d.alarm h,
      kept d.alarm k le,
      inr (bad, wf),
    )
    | inl ok ↦
        let (d1, w, held, closed, le1) = wait_polling_end-Holds t n k d exits (h, wf, le) in
        (
          code,
          record d1 { alarm = deinit_polling web d1.alarm },
          rw (q, ok, w, life_ended) refl,
          live-deinit_polling web web_own n d1.alarm held,
          kept d1.alarm k le1,
          inl (ok, closed),
        )
  ]
    where
      kept : (a : Alarm web) (k : ℕ) → a.resolvers ≤ k → (deinit_polling web a).resolvers ≤ k
      kept a k le = le

  -- Whatever the devices, the servers and the system answer, when no service is started, the GPIO
  -- library is closed at first, no read of a file fails and the thread sees the exit flag set:
  -- `init_polling`, then, if its code is 0, the thread with the alarm events that it raises and
  -- `wait_polling_end`, and then `deinit_polling` all return. All that the services took is given
  -- back; of the resolver states at most the one of the call of `get_public_ip` stays behind; and if
  -- the code of `init_polling` is 0 the GPIO library is closed, with its objects and its array given
  -- back as well. If it is not 0, the library is left as it is, open or closed.
  pub polling_life-Ends :
      (reads : ReadsAll web) (s : Start) (t : Thread) (d : Daemon lib web)
      → is_exiting t.exits ≡ true
      → Idle web web_own d.alarm
      → IsClosed lib own base d.gpio
      → Ends (live d.alarm.world) (after_asking s d) (polling_life lib web s t d)
  unfolding polling_life
  polling_life-Ends reads s t d exits idle closed =
      life_ended-Ends t (live d.alarm.world) (after_asking s d) (init_polling lib web s d) exits
        (init_polling-Returns reads s d idle (inl closed))
