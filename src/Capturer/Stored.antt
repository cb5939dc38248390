-- ===== src/Capturer/Stored.antt =====
-- What `capturer_get_frame` of src/capturer.c has done when it returns 0.
use alarm4pi.Prelude.{
  ℕ, ◌<◌, length, length-append, ◌≡◌, ◌≢◌, refl, sym, ap, ◌∙◌, Bool, true, false, Option, none,
  some, ◌++◌, ◌==◌, arith, Bool-cases, inl, inr,
}
use alarm4pi.CString.{Bytes, codes}
use alarm4pi.Capturer.Services.{
  Host, CurlCode, curle_ok, out_of_memory, couldnt_connect, operation_timedout, url_malformat,
  http_returned_error, send_error, recv_error, write_error, got_nothing, partial_file, other_error,
}
use alarm4pi.Capturer.{Capturer}
use alarm4pi.Capturer.Names.{IsLocal, frame_paths-IsUsable}
use alarm4pi.Capturer.Files.{FileSystem}
use alarm4pi.Capturer.Errors.{Errors}
use alarm4pi.Capturer.Frame.{
  curl_result_to_errno, is_ok, is_http_failure, drop_temp, abandon, renamed, previous_removed,
  previous_found, closed, synced, flushed, performed, handle_made, file_opened, frame_paths,
  capturer_get_frame,
}

curl_result_to_errno-fails : (code : CurlCode) → is_ok code ≡ false → curl_result_to_errno code ≢ 0
unfolding curl_result_to_errno
curl_result_to_errno-fails curle_ok h = absurd (cc h)
curl_result_to_errno-fails out_of_memory h = omega arith
curl_result_to_errno-fails couldnt_connect h = omega arith
curl_result_to_errno-fails operation_timedout h = omega arith
curl_result_to_errno-fails url_malformat h = omega arith
curl_result_to_errno-fails http_returned_error h = omega arith
curl_result_to_errno-fails send_error h = omega arith
curl_result_to_errno-fails recv_error h = omega arith
curl_result_to_errno-fails write_error h = omega arith
curl_result_to_errno-fails got_nothing h = omega arith
curl_result_to_errno-fails partial_file h = omega arith
curl_result_to_errno-fails other_error h = omega arith

module _ (host : Host) (fs : FileSystem host) (final temp : Bytes) where
  open host use {World, File, Curl}
  open fs use {content}

  -- It is closed, and what it holds then is what `final` has now.
  abbrev pub IsClosedTo : File → World → World → Type 0
  IsClosedTo fp w after =
      ((host.fclose fp w).0 ≡ true) × (content final after ≡ content temp (host.fclose fp w).1)

  -- It is synchronised and closed.
  abbrev pub IsSyncedTo : File → World → World → Type 0
  IsSyncedTo fp w after = ((host.fsync fp w).0 ≡ true) × IsClosedTo fp (host.fsync fp w).1 after

  -- The transfer succeeded, with a good HTTP code, and all of the file went to the disk.
  abbrev pub IsFetched : File → Curl → CurlCode × World → World → Type 0
  IsFetched fp curl (code, w) after =
      (is_ok code ≡ true)
      × (is_http_failure (host.response_code curl w) ≡ false)
      × ((host.fflush fp w).0 ≡ true)
      × IsSyncedTo fp (host.fflush fp w).1 after

  -- A transfer from the URL into the file did.
  abbrev pub IsTransferred : Bytes → File → World → Type 0
  IsTransferred url fp after =
      (curl : Curl) × (w : World) × IsFetched fp curl (host.curl_easy_perform curl url fp w) after

module _ (host : Host) (fs : FileSystem host) (err : Errors host fs) (final temp : Bytes)
    (apart : temp ≢ final) where
  open host use {World, File, Curl}
  open fs use {content}

  drop_temp-fails : (w : World) → host.errno w ≢ 0 → (drop_temp host temp w).0 ≢ 0
  unfolding drop_temp
  drop_temp-fails w e = err.unlink_errno temp w e

  abandon-fails :
      (fp : File) (curl : Curl) (w : World)
      → host.errno w ≢ 0
      → host.errno (abandon host temp fp curl w) ≢ 0
  unfolding abandon
  abandon-fails fp curl w e =
      let w1 = host.curl_easy_cleanup curl w in
      err.unlink_errno temp (host.fclose fp w1).1
        (err.fclose_errno fp w1 (err.curl_easy_cleanup_errno curl w e))

  -- The code is 0 only if `final` holds `s` now.
  abbrev Has : Option Bytes → ℕ × World → Type 0
  Has s r = r.0 ≡ 0 → content final r.1 ≡ s

  renamed-Has :
      (s : Option Bytes) (r : Bool × World)
      → (r.0 ≡ true → content final r.1 ≡ s)
      → (r.0 ≡ false → host.errno r.1 ≢ 0)
      → Has s (renamed host temp r)
  unfolding renamed
  renamed-Has s (true, w) good bad z = good refl
  renamed-Has s (false, w) good bad z = absurd (drop_temp-fails w (bad refl) z)

  moved-Has : (w : World) → Has (content temp w) (renamed host temp (host.rename temp final w))
  moved-Has w =
      renamed-Has (content temp w) (host.rename temp final w) (err.rename_moves temp final w)
        (err.rename_fails temp final w)

  previous_removed-Has :
      (r : Bool × World)
      → (r.0 ≡ false → host.errno r.1 ≢ 0)
      → Has (content temp r.1) (previous_removed host final temp r)
  unfolding previous_removed
  previous_removed-Has (true, w) bad z = moved-Has w z
  previous_removed-Has (false, w) bad z = absurd (drop_temp-fails w (bad refl) z)

  previous_found-Has :
      (r : Option Bool × World) → Has (content temp r.1) (previous_found host final temp r)
  unfolding previous_found
  previous_found-Has (none, w) z = moved-Has w z
  previous_found-Has (some is_dir, w) z =
      previous_removed-Has (host.unlink final w) (err.unlink_fails final w) z
      ∙ fs.unlink_content final temp w apart

  closed-Has :
      (curl : Curl) (r : Bool × World)
      → (r.0 ≡ false → host.errno r.1 ≢ 0)
      → (closed host final temp curl r).0 ≡ 0
      → (r.0 ≡ true) × (content final (closed host final temp curl r).1 ≡ content temp r.1)
  unfolding closed
  closed-Has curl (true, w) bad z =
      let w1 = host.curl_easy_cleanup curl w in
      (
        refl,
        previous_found-Has (host.stat final w1) z
            ∙ fs.stat_content final temp w1
            ∙ fs.curl_easy_cleanup_content curl temp w,
      )
  closed-Has curl (false, w) bad z = absurd (
      drop_temp-fails (host.curl_easy_cleanup curl w)
        (err.curl_easy_cleanup_errno curl w (bad refl)) z)

  synced-IsClosedTo :
      (fp : File) (curl : Curl) (r : Bool × World)
      → (r.0 ≡ false → host.errno r.1 ≢ 0)
      → (synced host final temp fp curl r).0 ≡ 0
      → (r.0 ≡ true) × IsClosedTo host fs final temp fp r.1 (synced host final temp fp curl r).1
  unfolding synced
  synced-IsClosedTo fp curl (true, w) bad z =
      (refl, closed-Has curl (host.fclose fp w) (err.fclose_fails fp w) z)
  synced-IsClosedTo fp curl (false, w) bad z = absurd (abandon-fails fp curl w (bad refl) z)

  flushed-IsSyncedTo :
      (fp : File) (curl : Curl) (r : Bool × World)
      → (r.0 ≡ false → host.errno r.1 ≢ 0)
      → (flushed host final temp fp curl r).0 ≡ 0
      → (r.0 ≡ true) × IsSyncedTo host fs final temp fp r.1 (flushed host final temp fp curl r).1
  unfolding flushed
  flushed-IsSyncedTo fp curl (true, w) bad z =
      (refl, synced-IsClosedTo fp curl (host.fsync fp w) (err.fsync_fails fp w) z)
  flushed-IsSyncedTo fp curl (false, w) bad z = absurd (abandon-fails fp curl w (bad refl) z)

  performed-IsFetched :
      (fp : File) (curl : Curl) (r : CurlCode × World)
      → (performed host final temp fp curl r).0 ≡ 0
      → IsFetched host fs final temp fp curl r (performed host final temp fp curl r).1
  unfolding performed
  performed-IsFetched fp curl (code, w) z = elim (Bool-cases (is_ok code)) [
    | inr e ↦ absurd (curl_result_to_errno-fails code e (rw e at z))
    | inl e ↦ elim (Bool-cases (is_http_failure (host.response_code curl w))) [
      | inl bad ↦ absurd (ground arith)
      | inr good ↦
          let (whole, synced_to) =
            flushed-IsSyncedTo fp curl (host.fflush fp w) (err.fflush_fails fp w)
              (rw (e, good) at z) in
          rw (e, good) (refl, refl, whole, synced_to)
    ]
  ]

  handle_made-IsTransferred :
      (url : Bytes) (fp : File) (r : Option Curl × World)
      → (handle_made host url final temp fp r).0 ≡ 0
      → IsTransferred host fs final temp url fp (handle_made host url final temp fp r).1
  unfolding handle_made
  handle_made-IsTransferred url fp (none, w) z = absurd (omega arith)
  handle_made-IsTransferred url fp (some curl, w) z =
      (curl, w, performed-IsFetched fp curl (host.curl_easy_perform curl url fp w) z)

  file_opened-IsTransferred :
      (url : Bytes) (r : Option File × World)
      → (r.0 ≡ none → host.errno r.1 ≢ 0)
      → (file_opened host url final temp r).0 ≡ 0
      → (fp : File) × (r.0 ≡ some fp)
        × IsTransferred host fs final temp url fp (file_opened host url final temp r).1
  unfolding file_opened
  file_opened-IsTransferred url (none, w) bad z = absurd (bad refl z)
  file_opened-IsTransferred url (some fp, w) bad z =
      (fp, refl, handle_made-IsTransferred url fp (host.curl_easy_init w) z)

apart_by_length : (s t : Bytes) → 0 < length t → (s ++ t) ≢ s
apart_by_length s t n e = absurd (omega (arith, length-append s t, ap (λ (l : Bytes). length l) e))

module _ (host : Host) (fs : FileSystem host) where
  -- The second path is the first with ".tmp", the file of the second one was opened, and what a successful transfer from the
  -- URL left in it when it was closed is in the file of the first one now.
  abbrev pub IsStored : Bytes → Bytes × Bytes → host.World → host.World → Type 0
  IsStored url (final, temp) before after =
      (temp ≡ final ++ codes ".tmp")
      × (fp : host.File) × ((host.fopen temp before).0 ≡ some fp)
      × IsTransferred host fs final temp url fp after

module _ (host : Host) (fs : FileSystem host) (err : Errors host fs) where
  file_opened-IsStored :
      (url final temp : Bytes) (w : host.World)
      → temp ≡ final ++ codes ".tmp"
      → (file_opened host url final temp (host.fopen temp w)).0 ≡ 0
      → IsStored host fs url (final, temp) w (file_opened host url final temp (host.fopen temp w)).1
  file_opened-IsStored url final temp w e z =
      let apart : temp ≢ final =
        λ same. apart_by_length final (codes ".tmp") (omega arith) (sym e ∙ same) in
      let (fp, q, t) =
        file_opened-IsTransferred host fs err final temp apart url (host.fopen temp w)
          (err.fopen_fails temp w) z in
      (e, fp, q, t)

  -- When `capturer_get_frame` returns 0, the capturer is initialised, the name is local, and the file of
  -- the picture holds what the temporary file beside it held when it was closed: the transfer from the
  -- camera into that file succeeded with an HTTP code from 200 to 299, and the file was flushed,
  -- synchronised and closed without an error.
  pub capturer_get_frame-IsStored :
      (filename_to_save : Bytes) (c : Capturer host)
      → (capturer_get_frame host filename_to_save c).0 ≡ 0
      → (c.initialized ≡ true)
        × IsLocal filename_to_save
        × IsStored host fs c.snapshot_url
            (frame_paths c.capture_path filename_to_save).1
            c.world
            (capturer_get_frame host filename_to_save c).1.world
  unfolding capturer_get_frame
  capturer_get_frame-IsStored name c z = elim (Bool-cases c.initialized) [
    | inr off ↦ absurd (ground arith)
    | inl on ↦ elim (frame_paths-IsUsable c.capture_path name) [
      | inl bad ↦ absurd (ground arith)
      | inr (local, usable) ↦ elim (Bool-cases ((frame_paths c.capture_path name).0 == 0)) [
        | inr bad ↦ absurd (ground arith)
        | inl ok ↦
            let (final, temp) = (frame_paths c.capture_path name).1 in
            let opened = file_opened host c.snapshot_url final temp (host.fopen temp c.world) in
            let zero : opened.0 ≡ 0 = ground arith in
            let stored = file_opened-IsStored c.snapshot_url final temp c.world usable.1 zero in
            let same : (capturer_get_frame host name c).1.world ≡ opened.1 = ground arith in
            (on, local, rw same stored)
      ]
    ]
  ]
