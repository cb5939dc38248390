-- ===== src/Telegram.antt =====
-- src/telegram.c: the notifications that go to a Telegram bot. The static variables of the file are
-- the fields of `Telegram`; log messages are left out.
pub mod Start
pub mod Life
use alarm4pi.Prelude.{
  ℕ, ◌-◌, ℤ, pos, eq_ℤ, Bool, true, false, Option, none, some, List, [], ◌∷◌, ◌++◌, ◌==◌, ltb,
  if◌then◌else◌, length, get_or, eperm, enomem, einval, ecomm,
}
use alarm4pi.CString.{Bytes, codes, has_byte, snprintf}
use alarm4pi.Proc.Paths.{path_max, ExecEnv}
use alarm4pi.Config.{Variable, load_config, conf_path}
use alarm4pi.Web.{Web}
use alarm4pi.Web.Response.{Response, perform, free_response}

abbrev pub telegram_variables : List Variable
telegram_variables = (codes "chat_id=", 160) ∷ (codes "api_token=", 160) ∷ []

abbrev pub max_url_len : ℕ
max_url_len = 2083

abbrev pub max_post_fields_len : ℕ
max_post_fields_len = 4096

pub record Telegram (web : Web) : Type 0 where
  pub chat_id : Bytes
  pub api_token : Bytes
  pub telegram_initialized : ℕ
  pub world : web.host.World

-- The URL and the fields of the post.
abbrev pub telegram_url : Bytes → Bytes
telegram_url api_token =
    snprintf max_url_len
      (codes "https://api.telegram.org/bot" ++ (api_token ++ codes "/sendMessage"))

abbrev pub telegram_fields : Bytes → Bytes → Bytes
telegram_fields chat_id escaped_msg =
    snprintf max_post_fields_len (codes "chat_id=" ++ (chat_id ++ (codes "&text=" ++ escaped_msg)))

-- The code, from whether `curl_easy_perform` succeeded and the HTTP code, if it could be obtained.
abbrev pub post_code : Bool → Option ℤ → ℕ
post_code true (some http_code) = if eq_ℤ http_code (pos 200) then 0 else einval
post_code true none = einval
post_code false http_code = ecomm

module _ (web : Web) where
  open web.host use {
    World, File, Curl, errno, fopen, fclose, curl_global_init, curl_global_cleanup, curl_easy_init,
    curl_easy_cleanup,
  }

  unfoldable pub global_made : Telegram web → Bool × World → ℕ × Telegram web
  global_made t (true, w) = (0, record t { telegram_initialized = 1; world = w })
  global_made t (false, w) = (einval, record t { telegram_initialized = 0; world = w })

  -- The tests of what the loop has loaded.
  unfoldable pub variables_tested : Telegram web → ℕ × Telegram web
  unfolding global_made
  variables_tested t =
      if ltb 0 (length t.chat_id)
      then (if ltb 0 (length t.api_token)
          then (if has_byte b':' t.api_token
              then global_made t (curl_global_init t.world)
              else (einval, record t { telegram_initialized = 0 }))
          else (einval, record t { telegram_initialized = 0 }))
      else (einval, record t { telegram_initialized = 0 })

  unfoldable pub file_closed : File → ℕ × Telegram web → ℕ × Telegram web
  file_closed conf_fd (ret_error, t) = (ret_error, record t { world = (fclose conf_fd t.world).1 })

  -- Behind the loop: its code, and the variables.
  unfoldable pub file_loaded :
      Telegram web → File → Option (ℕ × List Bytes) → Option (ℕ × Telegram web)
  unfolding variables_tested file_closed
  file_loaded t conf_fd none = none
  file_loaded t conf_fd (some (ret_error, values)) =
      let t1 = record t { chat_id = get_or values 0 []; api_token = get_or values 1 [] } in
      some (
        file_closed conf_fd (
          if ret_error == 0
          then variables_tested t1
          else (ret_error, record t1 { telegram_initialized = 0 })))

  unfoldable pub file_opened : Telegram web → Option File × World → Option (ℕ × Telegram web)
  unfolding file_loaded
  file_opened t (none, w) = some (errno w, record t { telegram_initialized = 0; world = w })
  file_opened t (some conf_fd, w) =
      file_loaded (record t { world = w }) conf_fd
        (load_config (web.read_fails conf_fd w) telegram_variables (web.text conf_fd w))

  -- `none` is a loop that does not end.
  unfoldable pub telegram_init : ExecEnv → Bytes → Telegram web → Option (ℕ × Telegram web)
  unfolding file_opened
  telegram_init env conf_filename t =
      if ltb path_max (length conf_filename)
      then some (einval, t)
      else file_opened t (fopen (conf_path env conf_filename) t.world)

  -- What follows the transfer; the three calls that release things stand on both branches.
  unfoldable pub posted : Curl → Bytes → Bool × (Response × World) → ℕ × World
  posted curl escaped_msg (ok, (post_response, w)) = (
    post_code ok (web.response_info curl w),
    free_response web post_response (curl_easy_cleanup curl (web.curl_free escaped_msg w)),
  )

  unfoldable pub message_escaped : Telegram web → Curl → Option Bytes × World → ℕ × World
  unfolding posted
  message_escaped t curl (none, w) = (enomem, curl_easy_cleanup curl w)
  message_escaped t curl (some escaped_msg, w) =
      posted curl escaped_msg
        (perform web curl (telegram_url t.api_token) (telegram_fields t.chat_id escaped_msg) w)

  unfoldable pub handle_made : Telegram web → Bytes → Option Curl × World → ℕ × World
  unfolding message_escaped
  handle_made t msg_str (none, w) = (enomem, w)
  handle_made t msg_str (some curl, w) = message_escaped t curl (web.escape curl msg_str w)

  unfoldable pub send_telegram_message : Bytes → Telegram web → ℕ × Telegram web
  unfolding handle_made
  send_telegram_message msg_str t =
      if t.telegram_initialized == 0
      then (eperm, t)
      else (let (ret_error, w) = handle_made t msg_str (curl_easy_init t.world) in
          (ret_error, record t { world = w }))

  unfoldable pub telegram_deinit : Telegram web → Telegram web
  telegram_deinit t = if t.telegram_initialized == 0 then t else record t {
    telegram_initialized = t.telegram_initialized - 1;
    world = curl_global_cleanup t.world;
  }
