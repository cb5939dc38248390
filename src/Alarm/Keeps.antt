-- ===== src/Alarm/Keeps.antt =====
-- src/gpio_polling.c: what notifications and alarm events leave as it was.
use alarm4pi.Prelude.{
  ◌+◌, handed_if, ◌≡◌, refl, ◌∙◌, ℤ, eq_ℤ, not, ◌&&◌, ◌++◌, ◌==◌, Bool-cases, inl, inr,
}
use alarm4pi.CString.{Bytes, codes, snprintf}
use alarm4pi.Gpio.{pin_low_val}
use alarm4pi.Web.{Web, WebOwnership}
use alarm4pi.Telegram.{send_telegram_message}
use alarm4pi.Telegram.Life.{live-send_telegram_message, initialized-send_telegram_message}
use alarm4pi.Pushover.{send_pushover_notification}
use alarm4pi.Pushover.Life.{live-send_pushover_notification, initialized-send_pushover_notification}
use alarm4pi.Owncloud.{upload_capture}
use alarm4pi.Owncloud.Life.{live-upload_capture, initialized-upload_capture}
use alarm4pi.Capturer.Frame.{capturer_get_frame}
use alarm4pi.Capturer.Balance.{capturer_get_frame_closes_all}
use alarm4pi.Capturer.Life.{get_frame-fields}
use alarm4pi.Alarm.Text.{equal_bytes}
use alarm4pi.Alarm.{
  Alarm, max_notif_msg_size, msg_info_size, sensor_msg, compose_capture_filename, at_telegram,
  Asked, at_pushover, at_owncloud, at_capturer, send_info_notif, update_ip_msg, image_taken,
  on_alarm_event,
}

-- The flags of the services are the same, and so is what is held.
abbrev pub Keeps : (web : Web) → WebOwnership web → Alarm web → Alarm web → Type 0
Keeps web own a b =
    (b.telegram.telegram_initialized ≡ a.telegram.telegram_initialized)
    × (b.pushover.pushover_initialized ≡ a.pushover.pushover_initialized)
    × (b.owncloud.owncloud_initialized ≡ a.owncloud.owncloud_initialized)
    × (b.capturer.initialized ≡ a.capturer.initialized)
    × (b.capturer.curl_global_initialized ≡ a.capturer.curl_global_initialized)
    × (own.own.live b.world ≡ own.own.live a.world)

module _ (web : Web) (own : WebOwnership web) where
  open own.own use {live}

  pub Keeps-refl : (a : Alarm web) → Keeps web own a a
  Keeps-refl a = (refl, refl, refl, refl, refl, refl)

  pub Keeps-trans : (a b c : Alarm web) → Keeps web own a b → Keeps web own b c → Keeps web own a c
  Keeps-trans a b c (t, p, o, r, g, h) (t1, p1, o1, r1, g1, h1) =
      (t1 ∙ t, p1 ∙ p, o1 ∙ o, r1 ∙ r, g1 ∙ g, h1 ∙ h)

  telegram-Keeps :
      (msg : Bytes) (a : Alarm web)
      → Keeps web own a (at_telegram (send_telegram_message web msg) a).1
  telegram-Keeps msg a = (
    initialized-send_telegram_message web own msg (record a.telegram { world = a.world }),
    refl,
    refl,
    refl,
    refl,
    live-send_telegram_message web own msg (record a.telegram { world = a.world }),
  )

  pushover-Keeps :
      (msg priority : Bytes) (a : Alarm web)
      → Keeps web own a (at_pushover (send_pushover_notification web msg priority) a).1
  pushover-Keeps msg priority a = (
    refl,
    initialized-send_pushover_notification web own msg priority
        (record a.pushover { world = a.world }),
    refl,
    refl,
    refl,
    live-send_pushover_notification web own msg priority (record a.pushover { world = a.world }),
  )

  owncloud-Keeps :
      (name : Bytes) (a : Alarm web) → Keeps web own a (at_owncloud (upload_capture web name) a).1
  owncloud-Keeps name a = (
    refl,
    refl,
    initialized-upload_capture web own name (record a.owncloud { world = a.world }),
    refl,
    refl,
    live-upload_capture web own name (record a.owncloud { world = a.world }),
  )

  capturer-Keeps :
      (name : Bytes) (a : Alarm web)
      → Keeps web own a (at_capturer (capturer_get_frame web.host name) a).1
  capturer-Keeps name a =
      let c = record a.capturer { world = a.world } in
      let (i, g) = get_frame-fields web.host own.own 0 name c in
      (refl, refl, refl, i, g, capturer_get_frame_closes_all web.host own.own name c)

  pub send_info_notif-Keeps :
      (msg_str msg_priority : Bytes) (a : Alarm web)
      → Keeps web own a (send_info_notif web msg_str msg_priority a).1
  unfolding send_info_notif
  send_info_notif-Keeps msg priority a =
      let tot = snprintf max_notif_msg_size (a.msg_info_str ++ (codes ". " ++ msg)) in
      let a1 = (at_telegram (send_telegram_message web tot) a).1 in
      let a2 = (at_pushover (send_pushover_notification web tot priority) a1).1 in
      Keeps-trans a a1 a2 (telegram-Keeps tot a) (pushover-Keeps tot priority a1)

  image_taken-Keeps : (name : Bytes) (a : Alarm web) → Keeps web own a (image_taken web name a)
  unfolding image_taken
  image_taken-Keeps name a =
      let a1 = (at_capturer (capturer_get_frame web.host name) a).1 in
      let a2 = (at_owncloud (upload_capture web name) a1).1 in
      Keeps-trans a a1 a2 (capturer-Keeps name a) (owncloud-Keeps name a1)

  pub on_alarm_event-Keeps :
      (stamp : Bytes) (pin val : ℤ) (a : Alarm web)
      → Keeps web own a (on_alarm_event web stamp pin val a)
  unfolding on_alarm_event
  on_alarm_event-Keeps stamp pin val a =
      let msg = snprintf max_notif_msg_size (sensor_msg pin val) in
      let a1 = (send_info_notif web msg (codes "2") a).1 in
      let sent = send_info_notif-Keeps msg (codes "2") a in
      elim (Bool-cases (eq_ℤ val pin_low_val)) [
        | inl low ↦ rw low sent
        | inr high ↦ rw high (
            Keeps-trans a a1 (image_taken web (compose_capture_filename stamp) a1) sent
              (image_taken-Keeps (compose_capture_filename stamp) a1))
      ]

  pub update_ip_msg-Keeps :
      (formatted : Bytes → Bytes) (wan : Asked) (a : Alarm web)
      → Keeps web own a (update_ip_msg web formatted wan a).1
  unfolding update_ip_msg
  update_ip_msg-Keeps formatted wan a =
      let curr = snprintf msg_info_size (formatted wan.wan_address) in
      let a1 = record a {
        msg_info_str = curr;
        resolvers = a.resolvers + handed_if wan.resolver_made;
      } in
      let msg = codes "Alarm4pi running. Public IP obtained" in
      elim (Bool-cases (wan.ip_err == 0 && not (equal_bytes curr a.msg_info_str))) [
        | inr same ↦ rw same (refl, refl, refl, refl, refl, refl)
        | inl changed ↦ rw changed (
            Keeps-trans a a1 (send_info_notif web msg (codes "-2") a1).1
              (refl, refl, refl, refl, refl, refl) (send_info_notif-Keeps msg (codes "-2") a1))
      ]

  -- An alarm event asks for no public address.
  pub resolvers-on_alarm_event :
      (stamp : Bytes) (pin val : ℤ) (a : Alarm web)
      → (on_alarm_event web stamp pin val a).resolvers ≡ a.resolvers
  unfolding on_alarm_event send_info_notif image_taken
  resolvers-on_alarm_event stamp pin val a = elim (Bool-cases (eq_ℤ val pin_low_val)) [
    | inl low ↦ rw low refl
    | inr high ↦ rw high refl
  ]

  pub resolvers-update_ip_msg :
      (formatted : Bytes → Bytes) (wan : Asked) (a : Alarm web)
      → (update_ip_msg web formatted wan a).1.resolvers ≡ a.resolvers + handed_if wan.resolver_made
  unfolding update_ip_msg send_info_notif
  resolvers-update_ip_msg formatted wan a =
      let curr = snprintf msg_info_size (formatted wan.wan_address) in
      elim (Bool-cases (wan.ip_err == 0 && not (equal_bytes curr a.msg_info_str))) [
        | inr same ↦ rw same refl
        | inl changed ↦ rw changed refl
      ]
