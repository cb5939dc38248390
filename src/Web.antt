-- ===== src/Web.antt =====
-- What src/telegram.c, src/pushover2.c and src/owncloud.c ask of libcurl and of the C library beyond
-- what src/capturer.c does: a parameter of the model.
pub mod Response
pub mod Pieces
pub mod Memory
pub mod Session
use alarm4pi.Prelude.{ℕ, ◌+◌, ◌-◌, ◌≡◌, ℤ, Bool, true, false, Option, List, handed, handed_if}
use alarm4pi.CString.{Bytes}
use alarm4pi.Capturer.Services.{Host, HostOwnership}

abbrev pub handed_more : Bool → Bool → ℕ
handed_more true given = 0
handed_more false given = handed_if given

-- `text` is what an open file holds, and `read_fails` whether a read behind it fails with an error
-- instead of giving the end of the file (that of a directory fails at once). `realloc` gets whether there is a block already and the size;
-- `free` is of a block that is not NULL. `post` and `upload` are `curl_easy_perform` with the URL and
-- the options that decide what is sent; `post` tells whether the transfer succeeded on the side of
-- libcurl, and the pieces of the response that came in. `response_info` is `curl_easy_getinfo` of the
-- response code, `none` if it fails.
pub record Web : Type 1 where
  pub host : Host
  pub text : host.File → host.World → Bytes
  pub read_fails : host.File → host.World → Bool
  pub file_size : host.File → host.World → ℤ × host.World
  pub realloc : Bool → ℕ → host.World → Bool × host.World
  pub free : host.World → host.World
  pub escape : host.Curl → Bytes → host.World → Option Bytes × host.World
  pub curl_free : Bytes → host.World → host.World
  pub post : host.Curl → Bytes → Bytes → host.World → (Bool × List Bytes) × host.World
  pub upload : host.Curl → Bytes → Bytes → Bytes → host.File → ℤ → host.World → Bool × host.World
  pub response_info : host.Curl → host.World → Option ℤ

-- No read of an open file fails.
abbrev pub ReadsAll : Web → Type 0
ReadsAll web = (f : web.host.File) (w : web.host.World) → web.read_fails f w ≡ false

-- The ownership that the C library and libcurl document for these calls.
pub record WebOwnership (web : Web) : Type 0 where
  pub own : HostOwnership web.host
  pub file_size_live :
      (f : web.host.File) (w : web.host.World) → own.live (web.file_size f w).1 ≡ own.live w
  pub realloc_live :
      (had : Bool) (n : ℕ) (w : web.host.World)
      → own.live (web.realloc had n w).1 ≡ own.live w + handed_more had (web.realloc had n w).0
  pub free_live : (w : web.host.World) → own.live (web.free w) ≡ own.live w - 1
  pub escape_live :
      (c : web.host.Curl) (s : Bytes) (w : web.host.World)
      → own.live (web.escape c s w).1 ≡ own.live w + handed (web.escape c s w).0
  pub curl_free_live :
      (s : Bytes) (w : web.host.World) → own.live (web.curl_free s w) ≡ own.live w - 1
  pub post_live :
      (c : web.host.Curl) (u s : Bytes) (w : web.host.World)
      → own.live (web.post c u s w).1 ≡ own.live w
  pub upload_live :
      (c : web.host.Curl) (u a b : Bytes) (f : web.host.File) (n : ℤ) (w : web.host.World)
      → own.live (web.upload c u a b f n w).1 ≡ own.live w
