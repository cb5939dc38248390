-- ===== src/Pushover.antt =====
-- src/pushover2.c: the notifications that go through the Pushover service. The static variables of the
-- file are the fields of `Pushover`; log messages are left out.
pub mod Status
pub mod Start
pub mod Life
pub mod Confirm
use alarm4pi.Prelude.{
  ℕ, ◌+◌, ◌-◌, ◌≡◌, ℤ, pos, eq_ℤ, Bool, true, false, Option, none, some, List, [], ◌∷◌, ◌++◌, ◌==◌,
  leb, ltb, if◌then◌else◌, length, get_or, eperm, enomem, einval, ecomm, eproto, ebadrqc,
}
use alarm4pi.CString.{Bytes, codes, starts_with, snprintf}
use alarm4pi.Proc.Paths.{path_max, ExecEnv}
use alarm4pi.Config.{Variable, load_config, conf_path}
use alarm4pi.Web.{Web}
use alarm4pi.Web.Response.{Response, no_response, perform, free_response}
use Status.{status_code}

abbrev pub pushover_variables : List Variable
pushover_variables = (codes "server_url=", 2083) ∷ (codes "token=", 160) ∷ (codes "user=", 160) ∷ []

abbrev pub pushover_send_msg_url : Bytes
pushover_send_msg_url = codes "https://api.pushover.net/1/messages.json"

abbrev pub max_pushover_msg_size : ℕ
max_pushover_msg_size = 4097

abbrev pub max_url_len : ℕ
max_url_len = 2083

abbrev pub max_post_fields_len : ℕ
max_post_fields_len = 4096

pub record Pushover (web : Web) : Type 0 where
  pub token_id : Bytes
  pub user_id : Bytes
  pub server_url : Bytes
  pub pushover_initialized : ℕ
  pub world : web.host.World

-- The four escaped texts: message, token, user and priority.
pub record Escaped : Type 0 where
  pub escaped_msg : Option Bytes
  pub escaped_token : Option Bytes
  pub escaped_user : Option Bytes
  pub escaped_priority : Option Bytes

-- strcmp(msg_priority,"2") == 0
abbrev pub is_max_priority : Bytes → Bool
is_max_priority [] = false
is_max_priority (c ∷ []) = c == b'2'
is_max_priority (c ∷ d ∷ s) = false

unfoldable pub pushover_fields : Bytes → Bytes → Bytes → Bytes → Bytes → Bytes
pushover_fields msg_priority token user msg priority =
    let fields =
      codes "token="
      ++ (token
          ++ (codes "&user="
              ++ (user ++ (codes "&message=" ++ (msg ++ (codes "&priority=" ++ priority)))))) in
    snprintf max_post_fields_len
      (if is_max_priority msg_priority then fields ++ codes "&retry=31&expire=120" else fields)

-- What is posted, `none` if one of the texts is NULL.
unfoldable pub post_fields : Bytes → Escaped → Option Bytes
post_fields msg_priority e = elim e.escaped_msg [
  | none ↦ none
  | some msg ↦ elim e.escaped_token [
    | none ↦ none
    | some token ↦ elim e.escaped_user [
      | none ↦ none
      | some user ↦ elim e.escaped_priority [
        | none ↦ none
        | some priority ↦ some (pushover_fields msg_priority token user msg priority)
      ]
    ]
  ]
]

-- The code, from whether `curl_easy_perform` succeeded, the HTTP code and the block of the response.
unfoldable pub post_code : Bool → Option ℤ → Option Bytes → ℕ
unfolding status_code
post_code true (some http_code) block =
    if eq_ℤ http_code (pos 200)
    then elim block [ some b ↦ status_code b | none ↦ eproto ]
    else ebadrqc
post_code true none block = einval
post_code false http_code block = ecomm

module _ (web : Web) where
  open web.host use {
    World, File, Curl, errno, fopen, fclose, curl_global_init, curl_global_cleanup, curl_easy_init,
    curl_easy_cleanup,
  }

  abbrev pub not_started : Pushover web → ℕ × Pushover web
  not_started p = (einval, record p { pushover_initialized = 0 })

  unfoldable pub global_made : Pushover web → Bool × World → ℕ × Pushover web
  global_made p (true, w) =
      (0, record p { pushover_initialized = p.pushover_initialized + 1; world = w })
  global_made p (false, w) = (einval, record p { pushover_initialized = 0; world = w })

  -- The tests of what the loop has loaded; `server_url` is the local variable.
  unfoldable pub variables_tested : Bytes → Pushover web → ℕ × Pushover web
  unfolding global_made
  variables_tested server_url p =
      if ltb 0 (length p.token_id)
      then (if ltb 0 (length p.user_id)
          then (if ltb 0 (length server_url)
              then (if starts_with (codes "https://") server_url
                  then (if leb (length server_url) max_url_len
                      then global_made (record p { server_url = server_url })
                          (curl_global_init p.world)
                      else not_started p)
                  else not_started p)
              else global_made (record p { server_url = pushover_send_msg_url })
                  (curl_global_init p.world))
          else not_started p)
      else not_started p

  unfoldable pub file_closed : File → ℕ × Pushover web → ℕ × Pushover web
  file_closed conf_fd (ret_error, p) = (ret_error, record p { world = (fclose conf_fd p.world).1 })

  -- Behind the loop: its code, and the variables. A failed loop leaves `pushover_initialized` alone.
  unfoldable pub file_loaded :
      Pushover web → File → Option (ℕ × List Bytes) → Option (ℕ × Pushover web)
  unfolding variables_tested file_closed
  file_loaded p conf_fd none = none
  file_loaded p conf_fd (some (ret_error, values)) =
      let p1 = record p {
        token_id = get_or values 1 [];
        user_id = get_or values 2 [];
        server_url = [];
      } in
      some (
        file_closed conf_fd
          (if ret_error == 0 then variables_tested (get_or values 0 []) p1 else (ret_error, p1)))

  unfoldable pub file_opened : Pushover web → Option File × World → Option (ℕ × Pushover web)
  unfolding file_loaded
  file_opened p (none, w) = some (errno w, record p { pushover_initialized = 0; world = w })
  file_opened p (some conf_fd, w) =
      file_loaded (record p { world = w }) conf_fd
        (load_config (web.read_fails conf_fd w) pushover_variables (web.text conf_fd w))

  -- `none` is a loop that does not end.
  unfoldable pub pushover_init : ExecEnv → Bytes → Pushover web → Option (ℕ × Pushover web)
  unfolding file_opened
  pushover_init env conf_filename p =
      if ltb path_max (length conf_filename)
      then some (einval, p)
      else file_opened p (fopen (conf_path env conf_filename) p.world)

  -- if(text != NULL) curl_free(text);
  abbrev pub free_text : Option Bytes → World → World
  free_text none w = w
  free_text (some s) w = web.curl_free s w

  -- The frees of both branches: of the texts that are there, the handle and the response.
  unfoldable pub released : Curl → Escaped → Response → World → World
  released curl e post_response w =
      let w1 =
        free_text e.escaped_priority
          (free_text e.escaped_user (free_text e.escaped_token (free_text e.escaped_msg w))) in
      free_response web post_response (curl_easy_cleanup curl w1)

  unfoldable pub posted : Curl → Escaped → Bool × (Response × World) → ℕ × World
  unfolding released post_code
  posted curl e (ok, (post_response, w)) =
      (post_code ok (web.response_info curl w) post_response.block, released curl e post_response w)

  unfoldable pub texts_escaped : Pushover web → Curl → Escaped → Option Bytes → World → ℕ × World
  unfolding posted released
  texts_escaped p curl e none w = (enomem, released curl e no_response w)
  texts_escaped p curl e (some fields) w = posted curl e (perform web curl p.server_url fields w)

  unfoldable pub handle_made : Pushover web → Bytes → Bytes → Option Curl × World → ℕ × World
  unfolding texts_escaped post_fields
  handle_made p msg_str msg_priority (none, w) = (enomem, w)
  handle_made p msg_str msg_priority (some curl, w) =
      let (msg, w1) = web.escape curl msg_str w in
      let (token, w2) = web.escape curl p.token_id w1 in
      let (user, w3) = web.escape curl p.user_id w2 in
      let (priority, w4) = web.escape curl msg_priority w3 in
      let escaped : Escaped = record {
        escaped_msg = msg;
        escaped_token = token;
        escaped_user = user;
        escaped_priority = priority;
      } in
      texts_escaped p curl escaped (post_fields msg_priority escaped) w4

  unfoldable pub send_pushover_notification : Bytes → Bytes → Pushover web → ℕ × Pushover web
  unfolding handle_made
  send_pushover_notification msg_str msg_priority p =
      if p.pushover_initialized == 0
      then (eperm, p)
      else if leb max_pushover_msg_size (length msg_str)
      then (einval, p)
      else (let (ret_error, w) = handle_made p msg_str msg_priority (curl_easy_init p.world) in
          (ret_error, record p { world = w }))

  unfoldable pub pushover_deinit : Pushover web → Pushover web
  pushover_deinit p = if p.pushover_initialized == 0 then p else record p {
    pushover_initialized = p.pushover_initialized - 1;
    world = curl_global_cleanup p.world;
  }
