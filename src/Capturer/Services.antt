-- ===== src/Capturer/Services.antt =====
-- What src/capturer.c asks of libcurl, of the C library and of the file system, which are not part of
-- the repository: a parameter of the model. A call takes and returns the state of the world.
use alarm4pi.Prelude.{ℕ, ◌+◌, ◌-◌, ◌≡◌, ℤ, Bool, Option, handed, handed_if}
use alarm4pi.CString.{Bytes}

-- The codes of libcurl that capturer.c tells apart.
pub data CurlCode : Type 0 where
  curle_ok out_of_memory couldnt_connect operation_timedout url_malformat : CurlCode
  http_returned_error send_error recv_error write_error got_nothing partial_file : CurlCode
  other_error : CurlCode

-- A Boolean tells whether a call succeeded. `stat` tells whether the path is a directory, if it
-- exists. `curl_easy_perform` is the transfer from a URL into a file with the options that
-- `capturer_get_frame` sets.
pub record Host : Type 1 where
  pub World : Type 0
  pub File : Type 0
  pub Curl : Type 0
  pub errno : World → ℕ
  pub stat : Bytes → World → Option Bool × World
  pub mkdir : Bytes → World → Bool × World
  pub fopen : Bytes → World → Option File × World
  pub fclose : File → World → Bool × World
  pub fflush : File → World → Bool × World
  pub fsync : File → World → Bool × World
  pub unlink : Bytes → World → Bool × World
  pub rename : Bytes → Bytes → World → Bool × World
  pub curl_global_init : World → Bool × World
  pub curl_global_cleanup : World → World
  pub curl_easy_init : World → Option Curl × World
  pub curl_easy_cleanup : Curl → World → World
  pub curl_easy_perform : Curl → Bytes → File → World → CurlCode × World
  pub response_code : Curl → World → ℤ

-- The ownership that libcurl and the C library document: an open file, an easy handle and the global
-- state of libcurl count from the call that makes them to the one that ends them. `fclose` ends a
-- stream also when it fails.
pub record HostOwnership (host : Host) : Type 0 where
  pub live : host.World → ℕ
  pub stat_live : (p : Bytes) (w : host.World) → live (host.stat p w).1 ≡ live w
  pub mkdir_live : (p : Bytes) (w : host.World) → live (host.mkdir p w).1 ≡ live w
  pub fopen_live :
      (p : Bytes) (w : host.World) → live (host.fopen p w).1 ≡ live w + handed (host.fopen p w).0
  pub fclose_live : (f : host.File) (w : host.World) → live (host.fclose f w).1 ≡ live w - 1
  pub fflush_live : (f : host.File) (w : host.World) → live (host.fflush f w).1 ≡ live w
  pub fsync_live : (f : host.File) (w : host.World) → live (host.fsync f w).1 ≡ live w
  pub unlink_live : (p : Bytes) (w : host.World) → live (host.unlink p w).1 ≡ live w
  pub rename_live : (p q : Bytes) (w : host.World) → live (host.rename p q w).1 ≡ live w
  pub curl_global_init_live :
      (w : host.World)
      → live (host.curl_global_init w).1 ≡ live w + handed_if (host.curl_global_init w).0
  pub curl_global_cleanup_live : (w : host.World) → live (host.curl_global_cleanup w) ≡ live w - 1
  pub curl_easy_init_live :
      (w : host.World) → live (host.curl_easy_init w).1 ≡ live w + handed (host.curl_easy_init w).0
  pub curl_easy_cleanup_live :
      (c : host.Curl) (w : host.World) → live (host.curl_easy_cleanup c w) ≡ live w - 1
  pub curl_easy_perform_live :
      (c : host.Curl) (u : Bytes) (f : host.File) (w : host.World)
      → live (host.curl_easy_perform c u f w).1 ≡ live w
