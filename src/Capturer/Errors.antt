-- ===== src/Capturer/Errors.antt =====
-- What src/capturer.c relies on in the errors that the C library reports about files.
use alarm4pi.Prelude.{◌≡◌, ◌≢◌, true, false, none}
use alarm4pi.CString.{Bytes}
use alarm4pi.Capturer.Services.{Host}
use alarm4pi.Capturer.Files.{FileSystem}

-- A call that fails sets `errno`, and no call clears it. A file that is renamed keeps its content.
pub record Errors (host : Host) (fs : FileSystem host) : Type 0 where
  pub rename_moves :
      (p r : Bytes) (w : host.World)
      → (host.rename p r w).0 ≡ true
      → fs.content r (host.rename p r w).1 ≡ fs.content p w
  pub rename_fails :
      (p r : Bytes) (w : host.World)
      → (host.rename p r w).0 ≡ false
      → host.errno (host.rename p r w).1 ≢ 0
  pub unlink_fails :
      (p : Bytes) (w : host.World)
      → (host.unlink p w).0 ≡ false
      → host.errno (host.unlink p w).1 ≢ 0
  pub fopen_fails :
      (p : Bytes) (w : host.World) → (host.fopen p w).0 ≡ none → host.errno (host.fopen p w).1 ≢ 0
  pub fclose_fails :
      (f : host.File) (w : host.World)
      → (host.fclose f w).0 ≡ false
      → host.errno (host.fclose f w).1 ≢ 0
  pub fsync_fails :
      (f : host.File) (w : host.World)
      → (host.fsync f w).0 ≡ false
      → host.errno (host.fsync f w).1 ≢ 0
  pub fflush_fails :
      (f : host.File) (w : host.World)
      → (host.fflush f w).0 ≡ false
      → host.errno (host.fflush f w).1 ≢ 0
  pub unlink_errno :
      (p : Bytes) (w : host.World) → host.errno w ≢ 0 → host.errno (host.unlink p w).1 ≢ 0
  pub fclose_errno :
      (f : host.File) (w : host.World) → host.errno w ≢ 0 → host.errno (host.fclose f w).1 ≢ 0
  pub curl_easy_cleanup_errno :
      (c : host.Curl) (w : host.World)
      → host.errno w ≢ 0
      → host.errno (host.curl_easy_cleanup c w) ≢ 0
