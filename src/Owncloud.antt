-- ===== src/Owncloud.antt =====
-- src/owncloud.c: the upload of the captured images. The static variables of the file and
-- `Owncloud_initialized` are the fields of `Owncloud`; log messages are left out.
pub mod Start
pub mod Life
pub mod Buffers
use alarm4pi.Prelude.{
  ℕ, zero, suc, ◌+◌, ◌-◌, ℤ, pos, negsuc, Bool, true, false, not, ◌&&◌, ◌||◌, Option, none, some,
  List, [], ◌∷◌, ◌++◌, ◌==◌, leb, ltb, if◌then◌else◌, length, get_or, eperm, enomem, einval, ecomm,
}
use alarm4pi.CString.{Bytes, codes, starts_with, snprintf}
use alarm4pi.Proc.Paths.{path_max, ExecEnv}
use alarm4pi.Config.{Variable, load_config, conf_path}
use alarm4pi.Web.{Web}

abbrev pub max_url_len : ℕ
max_url_len = 2083

abbrev pub owncloud_variables : List Variable
owncloud_variables =
    (codes "server_url=", max_url_len) ∷ (codes "user=", 160) ∷ (codes "password=", 160) ∷ []

pub record Owncloud (web : Web) : Type 0 where
  pub full_capture_path : Bytes
  pub remote_destin_dir : Bytes
  pub server_url : Bytes
  pub user_id : Bytes
  pub user_password : Bytes
  pub owncloud_initialized : ℕ
  pub world : web.host.World

-- s[strlen(s)-1] == '/', of a text that is not empty.
abbrev pub ends_with_slash : Bytes → Bool
ends_with_slash [] = false
ends_with_slash (c ∷ []) = c == b'/'
ends_with_slash (c ∷ d ∷ s) = ends_with_slash (d ∷ s)

-- strcat(s, "/") where it is missing.
unfoldable pub with_slash : Bytes → Bytes
with_slash s = if ltb 0 (length s) && not (ends_with_slash s) then s ++ codes "/" else s

-- http_code >= 200 && http_code < 300
abbrev pub is_http_success : ℤ → Bool
is_http_success (pos http_code) = leb 200 http_code && ltb http_code 300
is_http_success (negsuc n) = false

-- The code, from whether `curl_easy_perform` succeeded and the HTTP code, if it could be obtained.
abbrev pub upload_code : Bool → Option ℤ → ℕ
upload_code true (some http_code) = if is_http_success http_code then 0 else einval
upload_code true none = einval
upload_code false http_code = ecomm

module _ (web : Web) where
  open web.host use {
    World, File, Curl, errno, fopen, fclose, curl_global_init, curl_global_cleanup, curl_easy_init,
    curl_easy_cleanup,
  }

  abbrev pub not_started : Owncloud web → ℕ × Owncloud web
  not_started o = (einval, record o { owncloud_initialized = 0 })

  unfoldable pub global_made : Owncloud web → Bool × World → ℕ × Owncloud web
  global_made o (true, w) = (0, record o { owncloud_initialized = 1; world = w })
  global_made o (false, w) = (einval, record o { owncloud_initialized = 0; world = w })

  -- The tests of what the loop has loaded.
  unfoldable pub variables_tested : Owncloud web → ℕ × Owncloud web
  unfolding global_made
  variables_tested o =
      let o1 = record o { server_url = with_slash o.server_url } in
      if ltb 0 (length o.server_url)
      then (if ltb 0 (length o.user_id)
          then (if ltb 0 (length o.user_password)
              then (if starts_with (codes "http://") o1.server_url
                    || starts_with (codes "https://") o1.server_url
                  then global_made o1 (curl_global_init o.world)
                  else not_started o1)
              else not_started o1)
          else not_started o1)
      else not_started o

  unfoldable pub file_closed : File → ℕ × Owncloud web → ℕ × Owncloud web
  file_closed conf_fd (ret_error, o) = (ret_error, record o { world = (fclose conf_fd o.world).1 })

  -- Behind the loop: its code, and the variables.
  unfoldable pub file_loaded :
      Owncloud web → File → Option (ℕ × List Bytes) → Option (ℕ × Owncloud web)
  unfolding variables_tested file_closed
  file_loaded o conf_fd none = none
  file_loaded o conf_fd (some (ret_error, values)) =
      let o1 = record o {
        server_url = get_or values 0 [];
        user_id = get_or values 1 [];
        user_password = get_or values 2 [];
      } in
      some (
        file_closed conf_fd (
          if ret_error == 0
          then variables_tested o1
          else (ret_error, record o1 { owncloud_initialized = 0 })))

  unfoldable pub file_opened : Owncloud web → Option File × World → Option (ℕ × Owncloud web)
  unfolding file_loaded
  file_opened o (none, w) = some (errno w, record o { owncloud_initialized = 0; world = w })
  file_opened o (some conf_fd, w) =
      file_loaded (record o { world = w }) conf_fd
        (load_config (web.read_fails conf_fd w) owncloud_variables (web.text conf_fd w))

  -- `none` is a loop that does not end.
  unfoldable pub owncloud_init :
      ExecEnv → Bytes → Bytes → Bytes → Owncloud web → Option (ℕ × Owncloud web)
  unfolding file_opened
  owncloud_init env conf_filename full_capture_path remote_destin_directory o =
      if ltb path_max (length conf_filename)
      then some (einval, o)
      else if ltb path_max (length full_capture_path + 1)
      then some (einval, o)
      else if ltb path_max (length remote_destin_directory + 1)
      then some (einval, o)
      else file_opened
          (record o {
            full_capture_path = with_slash full_capture_path;
            remote_destin_dir = with_slash remote_destin_directory;
            server_url = [];
            user_id = [];
            user_password = [];
          })
          (fopen (conf_path env conf_filename) o.world)

  -- The tests of `upload_capture`, and the local path and the URL that it composes when they pass.
  unfoldable pub upload_names : Owncloud web → Bytes → ℕ × (Bytes × Bytes)
  upload_names o filename_to_upload =
      if o.owncloud_initialized == 0
      then (eperm, ([], []))
      else if length filename_to_upload == 0
      then (einval, ([], []))
      else if ltb path_max (length o.full_capture_path + length filename_to_upload)
      then (einval, ([], []))
      else if ltb (max_url_len + 1) (
          length o.server_url
          + length o.user_id
          + length o.remote_destin_dir
          + length filename_to_upload
          + 1)
      then (einval, ([], []))
      else (
        0,
        (
          o.full_capture_path ++ filename_to_upload,
          o.server_url ++ (o.user_id ++ (codes "/" ++ (o.remote_destin_dir ++ filename_to_upload))),
        ),
      )

  abbrev pub uploaded : Curl → Bool × World → ℕ × World
  uploaded curl (ok, w) = (upload_code ok (web.response_info curl w), curl_easy_cleanup curl w)

  unfoldable pub handle_made : Owncloud web → Bytes → File → ℤ → Option Curl × World → ℕ × World
  handle_made o full_server_url file_handle file_size (none, w) = (enomem, w)
  handle_made o full_server_url file_handle file_size (some curl, w) =
      uploaded curl
        (web.upload curl full_server_url o.user_id o.user_password file_handle file_size w)

  unfoldable pub capture_closed : File → ℕ × World → ℕ × World
  capture_closed file_handle (ret_err, w) = (ret_err, (fclose file_handle w).1)

  unfoldable pub capture_opened : Owncloud web → Bytes → Option File × World → ℕ × World
  unfolding handle_made capture_closed
  capture_opened o full_server_url (none, w) = (errno w, w)
  capture_opened o full_server_url (some file_handle, w) =
      let (size, w1) = web.file_size file_handle w in
      capture_closed file_handle
        (handle_made o full_server_url file_handle size (curl_easy_init w1))

  unfoldable pub upload_capture : Bytes → Owncloud web → ℕ × Owncloud web
  unfolding upload_names capture_opened
  upload_capture filename_to_upload o =
      let (ret_err, (path, url)) = upload_names o filename_to_upload in
      let (ret, w) = capture_opened o url (fopen path o.world) in
      if ret_err == 0 then (ret, record o { world = w }) else (ret_err, o)

  -- The `for`, from the index on: so many files are left, and `name` is what the format gives.
  unfoldable pub upload_from : (ℕ → Bytes) → ℕ → ℕ → Owncloud web → ℕ × Owncloud web
  unfolding upload_capture
  upload_from name file_ind zero o = (0, o)
  upload_from name file_ind (suc left) o =
      let (ret_err, o1) = upload_capture (snprintf 160 (name file_ind)) o in
      let later = upload_from name (file_ind + 1) left o1 in
      if ret_err == 0 then later else (ret_err, o1)

  unfoldable pub upload_captures : (ℕ → Bytes) → ℕ → Owncloud web → ℕ × Owncloud web
  unfolding upload_from
  upload_captures name num_of_files o = upload_from name 0 num_of_files o

  -- The flag stays as it is.
  unfoldable pub owncloud_deinit : Owncloud web → Owncloud web
  owncloud_deinit o =
      if o.owncloud_initialized == 0 then o else record o { world = curl_global_cleanup o.world }
