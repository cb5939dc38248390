-- ===== src/Capturer/Frame.antt =====
-- src/capturer.c, lines 134 to 166 and 216 to 356: one frame is fetched into a temporary file, which is
-- then renamed.
use alarm4pi.Prelude.{
  ℕ, ◌+◌, ℤ, pos, negsuc, Bool, true, false, ◌||◌, Option, none, some, [], ◌++◌, ◌==◌, ltb, leb,
  if◌then◌else◌, length, eio, enomem, enodev, einval, enametoolong, econnrefused, etimedout,
}
use alarm4pi.CString.{Bytes, codes}
use alarm4pi.Proc.Paths.{path_max}
use alarm4pi.Capturer.Services.{
  Host, CurlCode, curle_ok, out_of_memory, couldnt_connect, operation_timedout, url_malformat,
}
use alarm4pi.Capturer.{Capturer, validate_filename, build_full_path}

unfoldable pub curl_result_to_errno : CurlCode → ℕ
curl_result_to_errno curle_ok = 0
curl_result_to_errno out_of_memory = enomem
curl_result_to_errno couldnt_connect = econnrefused
curl_result_to_errno operation_timedout = etimedout
curl_result_to_errno url_malformat = einval
curl_result_to_errno _ = eio

abbrev pub is_ok : CurlCode → Bool
is_ok curle_ok = true
is_ok _ = false

-- http_code < 200 || http_code >= 300
abbrev pub is_http_failure : ℤ → Bool
is_http_failure (pos http_code) = ltb http_code 200 || leb 300 http_code
is_http_failure (negsuc n) = true

-- The code of the checks of the names, and the final and the temporary path when it is 0.
unfoldable pub frame_paths : Bytes → Bytes → ℕ × (Bytes × Bytes)
frame_paths capture_path filename_to_save =
    let checked = validate_filename filename_to_save in
    let (ret_final, final_path) = build_full_path (path_max + 1) capture_path filename_to_save in
    let (ret_temp, temp_path) = build_full_path (path_max + 1) capture_path filename_to_save in
    if checked == 0
    then (if ret_final == 0
        then (if ret_temp == 0
            then (if leb (path_max + 1) (length temp_path + 5)
                then (enametoolong, ([], []))
                else (0, (final_path, temp_path ++ codes ".tmp")))
            else (ret_temp, ([], [])))
        else (ret_final, ([], [])))
    else (checked, ([], []))

module _ (host : Host) where
  open host use {
    World, File, Curl, errno, stat, fopen, fclose, fflush, fsync, unlink, rename, curl_easy_init,
    curl_easy_cleanup, curl_easy_perform, response_code,
  }

  -- unlink(temp_path); return(errno);
  unfoldable pub drop_temp : Bytes → World → ℕ × World
  drop_temp temp_path w = let w1 = (unlink temp_path w).1 in (errno w1, w1)

  -- curl_easy_cleanup(curl); fclose(fp); unlink(temp_path);
  unfoldable pub abandon : Bytes → File → Curl → World → World
  abandon temp_path fp curl w = (unlink temp_path (fclose fp (curl_easy_cleanup curl w)).1).1

  unfoldable pub renamed : Bytes → Bool × World → ℕ × World
  unfolding drop_temp
  renamed temp_path (true, w) = (0, w)
  renamed temp_path (false, w) = drop_temp temp_path w

  unfoldable pub previous_removed : Bytes → Bytes → Bool × World → ℕ × World
  unfolding drop_temp renamed
  previous_removed final_path temp_path (true, w) =
      renamed temp_path (rename temp_path final_path w)
  previous_removed final_path temp_path (false, w) = drop_temp temp_path w

  unfoldable pub previous_found : Bytes → Bytes → Option Bool × World → ℕ × World
  unfolding previous_removed
  previous_found final_path temp_path (none, w) = renamed temp_path (rename temp_path final_path w)
  previous_found final_path temp_path (some is_dir, w) =
      previous_removed final_path temp_path (unlink final_path w)

  unfoldable pub closed : Bytes → Bytes → Curl → Bool × World → ℕ × World
  unfolding previous_found drop_temp
  closed final_path temp_path curl (true, w) =
      previous_found final_path temp_path (stat final_path (curl_easy_cleanup curl w))
  closed final_path temp_path curl (false, w) = drop_temp temp_path (curl_easy_cleanup curl w)

  unfoldable pub synced : Bytes → Bytes → File → Curl → Bool × World → ℕ × World
  unfolding closed
  synced final_path temp_path fp curl (true, w) = closed final_path temp_path curl (fclose fp w)
  synced final_path temp_path fp curl (false, w) =
      let w1 = abandon temp_path fp curl w in (errno w1, w1)

  unfoldable pub flushed : Bytes → Bytes → File → Curl → Bool × World → ℕ × World
  unfolding synced
  flushed final_path temp_path fp curl (true, w) = synced final_path temp_path fp curl (fsync fp w)
  flushed final_path temp_path fp curl (false, w) =
      let w1 = abandon temp_path fp curl w in (errno w1, w1)

  unfoldable pub performed : Bytes → Bytes → File → Curl → CurlCode × World → ℕ × World
  unfolding flushed
  performed final_path temp_path fp curl (curl_res, w) =
      if is_ok curl_res
      then (if is_http_failure (response_code curl w)
          then (eio, abandon temp_path fp curl w)
          else flushed final_path temp_path fp curl (fflush fp w))
      else (curl_result_to_errno curl_res, abandon temp_path fp curl w)

  unfoldable pub handle_made : Bytes → Bytes → Bytes → File → Option Curl × World → ℕ × World
  unfolding performed
  handle_made url final_path temp_path fp (none, w) = (enomem, (unlink temp_path (fclose fp w).1).1)
  handle_made url final_path temp_path fp (some curl, w) =
      performed final_path temp_path fp curl (curl_easy_perform curl url fp w)

  unfoldable pub file_opened : Bytes → Bytes → Bytes → Option File × World → ℕ × World
  unfolding handle_made
  file_opened url final_path temp_path (none, w) = (errno w, w)
  file_opened url final_path temp_path (some fp, w) =
      handle_made url final_path temp_path fp (curl_easy_init w)

  unfoldable pub capturer_get_frame : Bytes → Capturer host → ℕ × Capturer host
  unfolding frame_paths file_opened
  capturer_get_frame filename_to_save c =
      if c.initialized
      then (let (ret_error, paths) = frame_paths c.capture_path filename_to_save in
          if ret_error == 0
          then (let (ret, w) = file_opened c.snapshot_url paths.0 paths.1 (fopen paths.1 c.world) in
              (ret, record c { world = w }))
          else (ret_error, c))
      else (enodev, c)
