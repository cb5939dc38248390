-- ===== src/Owncloud/Life.antt =====
-- The life of src/owncloud.c: what its calls take and give back.
use alarm4pi.Prelude.{
  ℕ, zero, suc, ◌+◌, ◌-◌, ◌≤◌, ◌≡◌, refl, ℤ, Option, none, some, List, arith, inl, inr, handed,
}
use alarm4pi.CString.{Bytes, snprintf}
use alarm4pi.Proc.Paths.{ExecEnv}
use alarm4pi.Config.{conf_path}
use alarm4pi.Web.{Web, ReadsAll, WebOwnership}
use alarm4pi.Web.Session.{Service, session, Closes, session-Closes}
use alarm4pi.Owncloud.{
  Owncloud, owncloud_init, upload_names, handle_made, capture_closed, capture_opened,
  upload_capture, upload_from, upload_captures, owncloud_deinit,
}
use alarm4pi.Owncloud.Start.{Fitting, Returns, owncloud_init-Returns}

module _ (web : Web) (own : WebOwnership web) where
  open web.host use {World, File, Curl}
  open own.own use {live}

  live-handle_made :
      (o : Owncloud web) (url : Bytes) (file_handle : File) (size : ℤ) (n : ℕ)
      (r : Option Curl × World)
      → live r.1 ≡ n + handed r.0
      → live (handle_made web o url file_handle size r).1 ≡ n
  unfolding handle_made
  live-handle_made o url f size n (none, w) h = omega arith
  live-handle_made o url f size n (some curl, w) h =
      let w1 = (web.upload curl url o.user_id o.user_password f size w).1 in
      omega (
        arith,
        own.own.curl_easy_cleanup_live curl w1,
        own.upload_live curl url o.user_id o.user_password f size w,
      )

  live-capture_closed :
      (file_handle : File) (r : ℕ × World)
      → live (capture_closed web file_handle r).1 ≡ live r.1 - 1
  unfolding capture_closed
  live-capture_closed f (code, w) = own.own.fclose_live f w

  live-capture_opened :
      (o : Owncloud web) (url : Bytes) (n : ℕ) (r : Option File × World)
      → live r.1 ≡ n + handed r.0
      → live (capture_opened web o url r).1 ≡ n
  unfolding capture_opened
  live-capture_opened o url n (none, w) h = omega arith
  live-capture_opened o url n (some f, w) h =
      let (size, w1) = web.file_size f w in
      let made = web.host.curl_easy_init w1 in
      omega (
        arith,
        live-capture_closed f (handle_made web o url f size made),
        live-handle_made o url f size (n + 1) made
            (omega (arith, own.own.curl_easy_init_live w1, own.file_size_live f w)),
      )

  pub live-upload_capture :
      (name : Bytes) (o : Owncloud web) → live (upload_capture web name o).1.world ≡ live o.world
  unfolding upload_capture
  live-upload_capture name o =
      let (path, url) = (upload_names web o name).1 in
      ground (
        arith,
        live-capture_opened o url (live o.world) (web.host.fopen path o.world)
            (own.own.fopen_live path o.world),
      )

  pub initialized-upload_capture :
      (name : Bytes) (o : Owncloud web)
      → (upload_capture web name o).1.owncloud_initialized ≡ o.owncloud_initialized
  unfolding upload_capture
  initialized-upload_capture name o = ground arith

  -- The world's objects and the flag are as they were.
  abbrev pub Same : Owncloud web → Owncloud web → Type 0
  Same o o1 = (o1.owncloud_initialized ≡ o.owncloud_initialized) × (live o1.world ≡ live o.world)

  upload_from-Same :
      (name : ℕ → Bytes) (file_ind left : ℕ) (o : Owncloud web)
      → Same o (upload_from web name file_ind left o).1
  unfolding upload_from
  upload_from-Same name i zero o = (refl, refl)
  upload_from-Same name i (suc left) o =
      let text = snprintf 160 (name i) in
      let o1 = (upload_capture web text o).1 in
      let (f, h) = upload_from-Same name (i + 1) left o1 in
      (
        ground (arith, initialized-upload_capture text o),
        ground (arith, live-upload_capture text o),
      )

  pub upload_captures-Same :
      (name : ℕ → Bytes) (num_of_files : ℕ) (o : Owncloud web)
      → Same o (upload_captures web name num_of_files o).1
  unfolding upload_captures
  upload_captures-Same name num o = upload_from-Same name 0 num o

  pub live-owncloud_deinit :
      (o : Owncloud web)
      → o.owncloud_initialized ≤ 1
      → live (owncloud_deinit web o).world ≡ live o.world - o.owncloud_initialized
  unfolding owncloud_deinit
  live-owncloud_deinit o le = ground (arith, own.own.curl_global_cleanup_live o.world)

  abbrev pub Held : Owncloud web → Option (ℕ × Owncloud web) → Type 0
  Held o r =
      (code : ℕ) × (o1 : Owncloud web) × (r ≡ some (code, o1))
      × (o1.owncloud_initialized ≤ 1)
      × (live o1.world ≡ live o.world + o1.owncloud_initialized)

  pub Started-Held :
      (o : Owncloud web) (e : ℕ) (r : Option (ℕ × Owncloud web))
      → Returns web own (live o.world) e r
      → Held o r
  Started-Held o e r ((code, o1), q, (g, inl (z, f, h, c))) =
      (code, o1, q, omega arith, omega arith)
  Started-Held o e r ((code, o1), q, (g, inr (f, h, c))) = (code, o1, q, omega arith, omega arith)

  -- ownCloud, started from a configuration file; an act uploads a number of files, of which the names
  -- follow from their indices.
  abbrev pub owncloud_service : ReadsAll web → ExecEnv → Bytes → Bytes → Bytes → Service web own
  owncloud_service reads env conf_filename full_capture_path remote_destin_directory = record {
    State = Owncloud web;
    Act = (ℕ → Bytes) × ℕ;
    flag = λ o. o.owncloud_initialized;
    world = λ o. o.world;
    Idle = λ o. (o.owncloud_initialized ≡ 0) × Fitting web own o;
    start = owncloud_init web env conf_filename full_capture_path remote_destin_directory;
    act = λ a o. (upload_captures web a.0 a.1 o).1;
    stop = owncloud_deinit web;
    start_held = λ o idle. Started-Held o _ _ (
        owncloud_init-Returns web own env conf_filename full_capture_path remote_destin_directory o
          idle.0 idle.1
          (λ fd q. reads fd (web.host.fopen (conf_path env conf_filename) o.world).1));
    act_flag = λ a o. (upload_captures-Same a.0 a.1 o).0;
    act_live = λ a o. (upload_captures-Same a.0 a.1 o).1;
    stop_live = live-owncloud_deinit;
  }

  -- Whatever libcurl, the server and the file system answer, from `owncloud_init`, called when ownCloud
  -- is not started, the static strings are within their buffers and no read of a file fails, over the uploads to
  -- `owncloud_deinit`, each call returns, and all handles and files that the calls took are given back,
  -- libcurl's global state included.
  pub owncloud_session-Closes :
      (reads : ReadsAll web) (env : ExecEnv)
      (conf_filename full_capture_path remote_destin_directory : Bytes)
      (uploads : List ((ℕ → Bytes) × ℕ)) (o : Owncloud web)
      → o.owncloud_initialized ≡ 0
      → Fitting web own o
      → Closes
          (owncloud_service reads env conf_filename full_capture_path remote_destin_directory)
          o
          (session
            (owncloud_service reads env conf_filename full_capture_path remote_destin_directory)
            uploads
            o)
  owncloud_session-Closes reads env name capture remote uploads o off fits =
      session-Closes (owncloud_service reads env name capture remote) uploads o (off, fits)
