-- ===== src/Tests/Network.antt =====
-- A libcurl and a file system in which every call but `rename` succeeds; the world counts what is open.
use alarm4pi.Prelude.{ℕ, ◌+◌, ◌-◌, refl, pos, true, false, none, some, List}
use alarm4pi.CString.{Bytes}
use alarm4pi.Capturer.Services.{Host, HostOwnership, curle_ok}
use alarm4pi.Web.{Web, WebOwnership, handed_more}

-- Every transfer works, no path exists, and no file can be renamed.
abbrev pub counting : Host
counting = record {
  World = ℕ;
  File = Unit;
  Curl = Unit;
  errno = λ w. 13;
  stat = λ path w. (none, w);
  mkdir = λ path w. (true, w);
  fopen = λ path w. (some tt, w + 1);
  fclose = λ fp w. (true, w - 1);
  fflush = λ fp w. (true, w);
  fsync = λ fp w. (true, w);
  unlink = λ path w. (true, w);
  rename = λ from to w. (false, w);
  curl_global_init = λ w. (true, w + 1);
  curl_global_cleanup = λ w. w - 1;
  curl_easy_init = λ w. (some tt, w + 1);
  curl_easy_cleanup = λ curl w. w - 1;
  curl_easy_perform = λ curl url fp w. (curle_ok, w);
  response_code = λ curl w. pos 200;
}

abbrev pub counting_own : HostOwnership counting
counting_own = record {
  live = λ w. w;
  stat_live = λ p w. refl;
  mkdir_live = λ p w. refl;
  fopen_live = λ p w. refl;
  fclose_live = λ f w. refl;
  fflush_live = λ f w. refl;
  fsync_live = λ f w. refl;
  unlink_live = λ p w. refl;
  rename_live = λ p q w. refl;
  curl_global_init_live = λ w. refl;
  curl_global_cleanup_live = λ w. refl;
  curl_easy_init_live = λ w. refl;
  curl_easy_cleanup_live = λ c w. refl;
  curl_easy_perform_live = λ c u f w. refl;
}

-- Each file holds this text, and each post is answered by these pieces, with the HTTP code 200.
abbrev pub network : Bytes → List Bytes → Web
network text pieces = record {
  host = counting;
  text = λ f w. text;
  read_fails = λ f w. false;
  file_size = λ f w. (pos 1000, w);
  realloc = λ had n w. (true, w + handed_more had true);
  free = λ w. w - 1;
  escape = λ curl s w. (some s, w + 1);
  curl_free = λ s w. w - 1;
  post = λ curl url fields w. ((true, pieces), w);
  upload = λ curl url user password f size w. (true, w);
  response_info = λ curl w. some (pos 200);
}

abbrev pub network_own : (text : Bytes) (pieces : List Bytes) → WebOwnership (network text pieces)
network_own text pieces = record {
  own = counting_own;
  file_size_live = λ f w. refl;
  realloc_live = λ had n w. refl;
  free_live = λ w. refl;
  escape_live = λ c s w. refl;
  curl_free_live = λ s w. refl;
  post_live = λ c u s w. refl;
  upload_live = λ c u a b f n w. refl;
}
