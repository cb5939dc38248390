-- ===== src/Capturer/Files.antt =====
-- The files that src/capturer.c touches when it stores a frame.
use alarm4pi.Prelude.{◌≡◌, ◌≢◌, Option, some}
use alarm4pi.CString.{Bytes}
use alarm4pi.Capturer.Services.{Host}
use alarm4pi.Capturer.{Capturer}

-- What is in the file system: the content of each path. A call changes only the paths that it is
-- given, and a call on an open file only the path that it was opened at.
pub record FileSystem (host : Host) : Type 0 where
  pub content : Bytes → host.World → Option Bytes
  pub path_of : host.File → Bytes
  pub fopen_path :
      (p : Bytes) (w : host.World) (f : host.File) → (host.fopen p w).0 ≡ some f → path_of f ≡ p
  pub fopen_content :
      (p q : Bytes) (w : host.World) → q ≢ p → content q (host.fopen p w).1 ≡ content q w
  pub fclose_content :
      (f : host.File) (q : Bytes) (w : host.World)
      → q ≢ path_of f
      → content q (host.fclose f w).1 ≡ content q w
  pub fflush_content :
      (f : host.File) (q : Bytes) (w : host.World)
      → q ≢ path_of f
      → content q (host.fflush f w).1 ≡ content q w
  pub fsync_content :
      (f : host.File) (q : Bytes) (w : host.World)
      → q ≢ path_of f
      → content q (host.fsync f w).1 ≡ content q w
  pub stat_content : (p q : Bytes) (w : host.World) → content q (host.stat p w).1 ≡ content q w
  pub unlink_content :
      (p q : Bytes) (w : host.World) → q ≢ p → content q (host.unlink p w).1 ≡ content q w
  pub rename_content :
      (p r q : Bytes) (w : host.World)
      → q ≢ p
      → q ≢ r
      → content q (host.rename p r w).1 ≡ content q w
  pub curl_easy_init_content :
      (q : Bytes) (w : host.World) → content q (host.curl_easy_init w).1 ≡ content q w
  pub curl_easy_cleanup_content :
      (c : host.Curl) (q : Bytes) (w : host.World)
      → content q (host.curl_easy_cleanup c w) ≡ content q w
  pub curl_easy_perform_content :
      (c : host.Curl) (u : Bytes) (f : host.File) (q : Bytes) (w : host.World)
      → q ≢ path_of f
      → content q (host.curl_easy_perform c u f w).1 ≡ content q w
