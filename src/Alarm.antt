-- ===== src/Alarm.antt =====
-- src/gpio_polling.c, lines 37 to 62, 89 to 131, 171 to 214 and 281 to 361: the notifications, what an
-- alarm event does, and the start and the end of it all, over the services that src/telegram.c,
-- src/pushover2.c, src/owncloud.c and src/capturer.c offer. The services are called on one world, the
-- last one's.
pub mod Text
pub mod Keeps
pub mod Life
use alarm4pi.Prelude.{
  ℕ, ℤ, pos, eq_ℤ, Bool, true, false, not, ◌&&◌, Option, none, some, List, [], ◌∷◌, ◌++◌, ◌==◌,
  if◌then◌else◌, eexist, ◌+◌, handed_if,
}
use alarm4pi.CString.{Bytes, codes, snprintf}
use alarm4pi.Proc.Paths.{ExecEnv, get_absolute_path}
use alarm4pi.Gpio.{pin_low_val}
use alarm4pi.Gpio.Device.{Gpiod}
use alarm4pi.Gpio.{Gpio}
use alarm4pi.Gpio.Pins.{open_gpios, close_gpios}
use alarm4pi.Gpio.Configure.{configure_gpios}
use alarm4pi.Web.{Web}
use alarm4pi.Telegram.{Telegram, telegram_init, send_telegram_message, telegram_deinit}
use alarm4pi.Pushover.{Pushover, pushover_init, send_pushover_notification, pushover_deinit}
use alarm4pi.Owncloud.{Owncloud, owncloud_init, upload_capture, owncloud_deinit}
use alarm4pi.Capturer.{Capturer, capturer_init, capturer_deinit}
use alarm4pi.Capturer.Frame.{capturer_get_frame}
use Text.{decimal_int, equal_bytes}

-- MAX_PUSHOVER_MSG_SIZE is larger than MAX_TELEGRAM_MSG_SIZE.
abbrev pub max_notif_msg_size : ℕ
max_notif_msg_size = 4096

-- sizeof(Msg_info_str)
abbrev pub msg_info_size : ℕ
msg_info_size = 146

-- Msg_info_str, the static variables of the services, and the number of resolver states that
-- `get_public_ip` has initialised, which nothing ends.
pub record Alarm (web : Web) : Type 0 where
  pub msg_info_str : Bytes
  pub telegram : Telegram web
  pub pushover : Pushover web
  pub owncloud : Owncloud web
  pub capturer : Capturer web.host
  pub resolvers : ℕ
  pub world : web.host.World

-- What a call of `get_public_ip` does: whether it initialises a resolver state, its code and the
-- address.
pub record Asked : Type 0 where
  pub resolver_made : Bool
  pub ip_err : ℕ
  pub wan_address : Bytes

abbrev pub sensor_msg : ℤ → ℤ → Bytes
sensor_msg pin val =
    codes "Sensor pin (GPIO "
    ++ (decimal_int pin ++ (codes ") changed its value to " ++ (decimal_int val ++ (10 ∷ []))))

-- `stamp` is what `get_localtime_filename` leaves.
abbrev pub compose_capture_filename : Bytes → Bytes
compose_capture_filename stamp = stamp ++ codes ".jpg"

module _ {web : Web} where
  abbrev pub at_telegram : (Telegram web → ℕ × Telegram web) → Alarm web → ℕ × Alarm web
  at_telegram f a =
      let (code, t) = f (record a.telegram { world = a.world }) in
      (code, record a { telegram = t; world = t.world })

  abbrev pub at_pushover : (Pushover web → ℕ × Pushover web) → Alarm web → ℕ × Alarm web
  at_pushover f a =
      let (code, p) = f (record a.pushover { world = a.world }) in
      (code, record a { pushover = p; world = p.world })

  abbrev pub at_owncloud : (Owncloud web → ℕ × Owncloud web) → Alarm web → ℕ × Alarm web
  at_owncloud f a =
      let (code, o) = f (record a.owncloud { world = a.world }) in
      (code, record a { owncloud = o; world = o.world })

  abbrev pub at_capturer : (Capturer web.host → ℕ × Capturer web.host) → Alarm web → ℕ × Alarm web
  at_capturer f a =
      let (code, c) = f (record a.capturer { world = a.world }) in
      (code, record a { capturer = c; world = c.world })

module _ (web : Web) where
  open web.host use {World, errno, mkdir}

  unfoldable pub send_info_notif : Bytes → Bytes → Alarm web → ℕ × Alarm web
  send_info_notif msg_str msg_priority a =
      let tot_msg_str = snprintf max_notif_msg_size (a.msg_info_str ++ (codes ". " ++ msg_str)) in
      let (ret_err1, a1) = at_telegram (send_telegram_message web tot_msg_str) a in
      let (ret_err2, a2) =
        at_pushover (send_pushover_notification web tot_msg_str msg_priority) a1 in
      (if ret_err1 == 0 then ret_err2 else ret_err1, a2)

  -- `formatted` is the text that the format `msg_info_fmt` makes of an address.
  unfoldable pub update_ip_msg : (Bytes → Bytes) → Asked → Alarm web → ℕ × Alarm web
  unfolding send_info_notif
  update_ip_msg formatted wan a =
      let curr_msg_info_str = snprintf msg_info_size (formatted wan.wan_address) in
      let a1 = record a { resolvers = a.resolvers + handed_if wan.resolver_made } in
      let (ret, a2) =
        send_info_notif (codes "Alarm4pi running. Public IP obtained") (codes "-2")
          (record a1 { msg_info_str = curr_msg_info_str }) in
      (
        wan.ip_err,
        if wan.ip_err == 0 && not (equal_bytes curr_msg_info_str a.msg_info_str) then a2 else a1,
      )

  unfoldable pub image_taken : Bytes → Alarm web → Alarm web
  image_taken cap_filename a =
      let (ret_frame, a1) = at_capturer (capturer_get_frame web.host cap_filename) a in
      (at_owncloud (upload_capture web cap_filename) a1).1

  -- RELAY1_ON_ALARM_EVENT is not defined.
  unfoldable pub on_alarm_event : Bytes → ℤ → ℤ → Alarm web → Alarm web
  unfolding send_info_notif image_taken
  on_alarm_event stamp pin val a =
      let notif_msg = snprintf max_notif_msg_size (sensor_msg pin val) in
      let (ret_err, a1) = send_info_notif notif_msg (codes "2") a in
      let a2 = image_taken (compose_capture_filename stamp) a1 in
      if eq_ℤ val pin_low_val then a1 else a2

  owncloud_started : Alarm web → Option (ℕ × Owncloud web) → Option (Alarm web)
  owncloud_started a none = none
  owncloud_started a (some (ret_err, o)) = some (record a { owncloud = o; world = o.world })

  pushover_started : Alarm web → Option (ℕ × Pushover web) → Option (Alarm web)
  pushover_started a none = none
  pushover_started a (some (ret_err, p)) = some (record a { pushover = p; world = p.world })

  telegram_started : Alarm web → Option (ℕ × Telegram web) → Option (Alarm web)
  telegram_started a none = none
  telegram_started a (some (ret_err, t)) = some (record a { telegram = t; world = t.world })

  abbrev pub and_then : Option (Alarm web) → (Alarm web → Option (Alarm web)) → Option (Alarm web)
  and_then none f = none
  and_then (some a) f = f a

  unfoldable pub start_owncloud : ExecEnv → Bytes → Alarm web → Option (Alarm web)
  unfolding owncloud_started
  start_owncloud env path a = owncloud_started a (
      owncloud_init web env (codes "owncloud_conf.txt") path (codes "captures")
        (record a.owncloud { world = a.world }))

  unfoldable pub start_pushover : ExecEnv → Alarm web → Option (Alarm web)
  unfolding pushover_started
  start_pushover env a =
      pushover_started a
        (pushover_init web env (codes "pushover_conf.txt") (record a.pushover { world = a.world }))

  unfoldable pub start_telegram : ExecEnv → Alarm web → Option (Alarm web)
  unfolding telegram_started
  start_telegram env a =
      telegram_started a
        (telegram_init web env (codes "telegram_conf.txt") (record a.telegram { world = a.world }))

  -- The part of `init_polling` that starts the services; `none` is a loop that does not end.
  unfoldable pub start_services : ExecEnv → Bytes → Alarm web → Option (Alarm web)
  unfolding start_owncloud start_pushover start_telegram
  start_services env path a = and_then (start_owncloud env path a) (λ a1.
      and_then (start_pushover env a1) (λ a2.
        and_then (start_telegram env a2)
          (λ a3. some (at_capturer (capturer_init web.host path) a3).1)))

  unfoldable pub deinit_polling : Alarm web → Alarm web
  deinit_polling a =
      let (r1, a1) = at_owncloud (λ o. (0, owncloud_deinit web o)) a in
      let (r2, a2) = at_pushover (λ p. (0, pushover_deinit web p)) a1 in
      let (r3, a3) = at_telegram (λ t. (0, telegram_deinit web t)) a2 in
      (at_capturer (λ c. (0, capturer_deinit web.host c)) a3).1
