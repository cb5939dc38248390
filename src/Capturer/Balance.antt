-- ===== src/Capturer/Balance.antt =====
-- The files, handles and global state that src/capturer.c opens and closes.
use alarm4pi.Prelude.{
  ℕ, ◌+◌, ◌-◌, ◌≡◌, refl, ◌∙◌, ap, Bool, true, false, Option, none, some, arith, Bool-cases, inl,
  inr, handed,
}
use alarm4pi.CString.{Bytes}
use alarm4pi.Capturer.Services.{Host, HostOwnership, CurlCode}
use alarm4pi.Capturer.{Capturer}
use alarm4pi.Capturer.Frame.{
  is_ok, is_http_failure, drop_temp, abandon, renamed, previous_removed, previous_found, closed,
  synced, flushed, performed, handle_made, file_opened, frame_paths, capturer_get_frame,
}

module _ (host : Host) (own : HostOwnership host) where
  open host use {World, File, Curl}
  open own use {live}

  live-drop_temp : (temp : Bytes) (w : World) → live (drop_temp host temp w).1 ≡ live w
  unfolding drop_temp
  live-drop_temp temp w = own.unlink_live temp w

  live-abandon :
      (temp : Bytes) (fp : File) (curl : Curl) (w : World)
      → live (abandon host temp fp curl w) ≡ live w - 2
  unfolding abandon
  live-abandon temp fp curl w =
      let w1 = host.curl_easy_cleanup curl w in
      let w2 = (host.fclose fp w1).1 in
      omega
        (arith, own.unlink_live temp w2, own.fclose_live fp w1, own.curl_easy_cleanup_live curl w)

  live-renamed : (temp : Bytes) (r : Bool × World) → live (renamed host temp r).1 ≡ live r.1
  unfolding renamed
  live-renamed temp (true, w) = refl
  live-renamed temp (false, w) = live-drop_temp temp w

  live-previous_removed :
      (final temp : Bytes) (r : Bool × World)
      → live (previous_removed host final temp r).1 ≡ live r.1
  unfolding previous_removed
  live-previous_removed final temp (true, w) =
      live-renamed temp (host.rename temp final w) ∙ own.rename_live temp final w
  live-previous_removed final temp (false, w) = live-drop_temp temp w

  live-previous_found :
      (final temp : Bytes) (r : Option Bool × World)
      → live (previous_found host final temp r).1 ≡ live r.1
  unfolding previous_found
  live-previous_found final temp (none, w) =
      live-renamed temp (host.rename temp final w) ∙ own.rename_live temp final w
  live-previous_found final temp (some is_dir, w) =
      live-previous_removed final temp (host.unlink final w) ∙ own.unlink_live final w

  live-closed :
      (final temp : Bytes) (curl : Curl) (r : Bool × World)
      → live (closed host final temp curl r).1 ≡ live r.1 - 1
  unfolding closed
  live-closed final temp curl (true, w) =
      let w1 = host.curl_easy_cleanup curl w in
      live-previous_found final temp (host.stat final w1)
      ∙ own.stat_live final w1
      ∙ own.curl_easy_cleanup_live curl w
  live-closed final temp curl (false, w) =
      live-drop_temp temp (host.curl_easy_cleanup curl w) ∙ own.curl_easy_cleanup_live curl w

  live-synced :
      (final temp : Bytes) (fp : File) (curl : Curl) (r : Bool × World)
      → live (synced host final temp fp curl r).1 ≡ live r.1 - 2
  unfolding synced
  live-synced final temp fp curl (true, w) =
      omega (arith, live-closed final temp curl (host.fclose fp w), own.fclose_live fp w)
  live-synced final temp fp curl (false, w) = live-abandon temp fp curl w

  live-flushed :
      (final temp : Bytes) (fp : File) (curl : Curl) (r : Bool × World)
      → live (flushed host final temp fp curl r).1 ≡ live r.1 - 2
  unfolding flushed
  live-flushed final temp fp curl (true, w) =
      omega (arith, live-synced final temp fp curl (host.fsync fp w), own.fsync_live fp w)
  live-flushed final temp fp curl (false, w) = live-abandon temp fp curl w

  live-performed :
      (final temp : Bytes) (fp : File) (curl : Curl) (r : CurlCode × World)
      → live (performed host final temp fp curl r).1 ≡ live r.1 - 2
  unfolding performed
  live-performed final temp fp curl (code, w) = elim (Bool-cases (is_ok code)) [
    | inr e ↦ rw e (live-abandon temp fp curl w)
    | inl e ↦ elim (Bool-cases (is_http_failure (host.response_code curl w))) [
      | inl bad ↦ rw (e, bad) (live-abandon temp fp curl w)
      | inr good ↦
          rw (e, good)
            (live-flushed final temp fp curl (host.fflush fp w)
              ∙ ap (λ (n : ℕ). n - 2) (own.fflush_live fp w))
    ]
  ]

  live-handle_made :
      (url final temp : Bytes) (fp : File) (n : ℕ) (r : Option Curl × World)
      → live r.1 ≡ n + 1 + handed r.0
      → live (handle_made host url final temp fp r).1 ≡ n
  unfolding handle_made
  live-handle_made url final temp fp n (none, w) h =
      omega (arith, own.unlink_live temp (host.fclose fp w).1, own.fclose_live fp w)
  live-handle_made url final temp fp n (some curl, w) h = omega (
    arith,
    live-performed final temp fp curl (host.curl_easy_perform curl url fp w),
    own.curl_easy_perform_live curl url fp w,
  )

  live-file_opened :
      (url final temp : Bytes) (n : ℕ) (r : Option File × World)
      → live r.1 ≡ n + handed r.0
      → live (file_opened host url final temp r).1 ≡ n
  unfolding file_opened
  live-file_opened url final temp n (none, w) h = omega arith
  live-file_opened url final temp n (some fp, w) h =
      live-handle_made url final temp fp n (host.curl_easy_init w)
        (omega (arith, own.curl_easy_init_live w))

  -- Whatever libcurl and the file system answer, `capturer_get_frame` closes the file and frees the
  -- handle that it opened, on each of its branches.
  pub capturer_get_frame_closes_all :
      (filename_to_save : Bytes) (c : Capturer host)
      → live (capturer_get_frame host filename_to_save c).1.world ≡ live c.world
  unfolding capturer_get_frame
  capturer_get_frame_closes_all name c =
      let paths = (frame_paths c.capture_path name).1 in
      ground (
        arith,
        live-file_opened c.snapshot_url paths.0 paths.1 (live c.world) (host.fopen paths.1 c.world)
            (own.fopen_live paths.1 c.world),
      )
