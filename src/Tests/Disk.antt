-- ===== src/Tests/Disk.antt =====
-- A file system in which every call succeeds and every transfer brings the same picture.
use alarm4pi.Prelude.{
  ℕ, ◌≡◌, ◌≢◌, refl, ◌∙◌, pos, true, false, Option, none, some, [], Bool-cases, inl, inr, arith,
}
use alarm4pi.CString.{Bytes, codes}
use alarm4pi.Capturer.Services.{Host, curle_ok}
use alarm4pi.Capturer.Files.{FileSystem}
use alarm4pi.Capturer.Errors.{Errors}
use alarm4pi.Alarm.Text.{equal_bytes, equal_bytes_refl, equal_bytes_sound}

abbrev pub FileMap : Type 0
FileMap = Bytes → Option Bytes

abbrev pub put : Bytes → Option Bytes → FileMap → FileMap
put p v w = λ q. elim (equal_bytes q p) [ true ↦ v | false ↦ w q ]

pub put_other : (p q : Bytes) (v : Option Bytes) (w : FileMap) → q ≢ p → put p v w q ≡ w q
put_other p q v w n = elim (Bool-cases (equal_bytes q p)) [
  | inl e ↦ absurd (n (equal_bytes_sound q p e))
  | inr e ↦ rw (e, put) refl
]

pub put_self : (p : Bytes) (v : Option Bytes) (w : FileMap) → put p v w p ≡ v
put_self p v w = rw (equal_bytes_refl p, put) refl

abbrev pub disk : Host
disk = record {
  World = FileMap;
  File = Bytes;
  Curl = Unit;
  errno = λ w. 13;
  stat = λ path w. (elim (w path) [ none ↦ none | some b ↦ some false ], w);
  mkdir = λ path w. (true, w);
  fopen = λ path w. (some path, put path (some []) w);
  fclose = λ fp w. (true, w);
  fflush = λ fp w. (true, w);
  fsync = λ fp w. (true, w);
  unlink = λ path w. (true, put path none w);
  rename = λ from to w. (true, put to (w from) (put from none w));
  curl_global_init = λ w. (true, w);
  curl_global_cleanup = λ w. w;
  curl_easy_init = λ w. (some tt, w);
  curl_easy_cleanup = λ curl w. w;
  curl_easy_perform = λ curl url fp w. (curle_ok, put fp (some (codes "a picture")) w);
  response_code = λ curl w. pos 200;
}

pub two_put : (p r q : Bytes) (w : FileMap) → q ≢ p → q ≢ r → put r (w p) (put p none w) q ≡ w q
two_put p r q w np nr = put_other r q (w p) (put p none w) nr ∙ put_other p q none w np

pub opened_path : (p f : Bytes) → some p ≡ some f → f ≡ p
opened_path p f e = cc e

abbrev pub disk_files : FileSystem disk
disk_files = record {
  content = λ q w. w q;
  path_of = λ f. f;
  fopen_path = λ p w f e. opened_path p f e;
  fopen_content = λ p q w n. put_other p q (some []) w n;
  fclose_content = λ f q w n. refl;
  fflush_content = λ f q w n. refl;
  fsync_content = λ f q w n. refl;
  stat_content = λ p q w. refl;
  unlink_content = λ p q w n. put_other p q none w n;
  rename_content = two_put;
  curl_easy_init_content = λ q w. refl;
  curl_easy_cleanup_content = λ c q w. refl;
  curl_easy_perform_content = λ c u f q w n. put_other f q (some (codes "a picture")) w n;
}

pub thirteen : ◌≢◌ {A = ℕ} 13 0
thirteen e = absurd (omega arith)

abbrev pub disk_errors : Errors disk disk_files
disk_errors = record {
  rename_moves = λ p r w e. put_self r (w p) (put p none w);
  rename_fails = λ p r w e. thirteen;
  unlink_fails = λ p w e. thirteen;
  fopen_fails = λ p w e. thirteen;
  fclose_fails = λ f w e. thirteen;
  fsync_fails = λ f w e. thirteen;
  fflush_fails = λ f w e. thirteen;
  unlink_errno = λ p w e. thirteen;
  fclose_errno = λ f w e. thirteen;
  curl_easy_cleanup_errno = λ c w e. thirteen;
}
