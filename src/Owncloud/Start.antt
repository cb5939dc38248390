-- ===== src/Owncloud/Start.antt =====
-- How `owncloud_init` of src/owncloud.c starts the service.
use alarm4pi.Prelude.{
  ℕ, ◌+◌, ◌≤◌, ◌<◌, ◌≡◌, refl, sym, if◌then◌else◌, Bool, true, false, ◌||◌, Option, none, some,
  List, [], ◌∷◌, arith, ◌==◌, ltb, Bool-cases, inl, inr, ◌⊎◌, length, length-append, handed,
  handed_if, einval,
}
use alarm4pi.CString.{Bytes, codes, starts_with}
use alarm4pi.Proc.Paths.{path_max, ExecEnv}
use alarm4pi.Config.{load_config, conf_path}
use alarm4pi.Config.Load.{Ends, load_config-Ends}
use alarm4pi.Web.{Web, WebOwnership}
use alarm4pi.Owncloud.{
  owncloud_variables, max_url_len, Owncloud, with_slash, not_started, global_made, variables_tested,
  file_closed, file_loaded, file_opened, owncloud_init,
}

length-with_slash : (s : Bytes) → length (with_slash s) ≤ length s + 1
unfolding with_slash
length-with_slash s = ground (arith, length-append s (codes "/"))

module _ (web : Web) (own : WebOwnership web) where
  open web.host use {World, File}
  open own.own use {live}

  -- The static buffers hold their strings and the 0.
  abbrev pub Fitting : Owncloud web → Type 0
  Fitting o =
      (length o.full_capture_path ≤ path_max)
      × (length o.remote_destin_dir ≤ path_max)
      × (length o.server_url ≤ max_url_len + 1)
      × (length o.user_id ≤ 160)
      × (length o.user_password ≤ 160)

  -- The user and the password are there, and the server's URL begins with http:// or https://.
  abbrev pub IsConfigured : Owncloud web → Type 0
  IsConfigured o =
      (0 < length o.user_id)
      × (0 < length o.user_password)
      × ((starts_with (codes "http://") o.server_url || starts_with (codes "https://") o.server_url)
          ≡ true)

  -- The buffers are kept, and either it is started, or it is not and there is an error: EINVAL, or the
  -- given one.
  abbrev pub Started : ℕ → ℕ → ℕ × Owncloud web → Type 0
  Started n e (code, o) =
      Fitting o
      × (((code ≡ 0) × (o.owncloud_initialized ≡ 1) × (live o.world ≡ n + 1) × IsConfigured o)
          ⊎ ((o.owncloud_initialized ≡ 0) × (live o.world ≡ n) × ((code ≡ einval) ⊎ (code ≡ e))))

  global_made-Started :
      (n e : ℕ) (o : Owncloud web) (r : Bool × World)
      → Fitting o
      → IsConfigured o
      → live r.1 ≡ n + handed_if r.0
      → Started n e (global_made web o r)
  unfolding global_made
  global_made-Started n e o (true, w) f c h = (f, inl (refl, refl, h, c))
  global_made-Started n e o (false, w) f c h = (f, inr (refl, omega arith, inl refl))

  not_started-Started :
      (n e : ℕ) (o : Owncloud web) → Fitting o → live o.world ≡ n → Started n e (not_started web o)
  not_started-Started n e o f h = (f, inr (refl, h, inl refl))

  Fitting-with_slash :
      (o : Owncloud web)
      → length o.server_url ≤ max_url_len
      → Fitting o
      → Fitting (record o { server_url = with_slash o.server_url })
  Fitting-with_slash o le (a, b, c, u, p) =
      (a, b, omega (arith, length-with_slash o.server_url), u, p)

  variables_tested-Started :
      (e : ℕ) (o : Owncloud web)
      → length o.server_url ≤ max_url_len
      → Fitting o
      → Started (live o.world) e (variables_tested web o)
  unfolding variables_tested
  variables_tested-Started e o le f =
      let o1 = record o { server_url = with_slash o.server_url } in
      let f1 = Fitting-with_slash o le f in
      let not_so = not_started-Started (live o.world) e o1 f1 refl in
      elim (Bool-cases (ltb 0 (length o.server_url))) [
        | inr a ↦ rw a (not_started-Started (live o.world) e o f refl)
        | inl a ↦ elim (Bool-cases (ltb 0 (length o.user_id))) [
          | inr b ↦ rw (a, b) not_so
          | inl b ↦ elim (Bool-cases (ltb 0 (length o.user_password))) [
            | inr c ↦ rw (a, b, c) not_so
            | inl c ↦
                elim (Bool-cases (
                  starts_with (codes "http://") o1.server_url
                  || starts_with (codes "https://") o1.server_url)) [
                    | inr d ↦ rw (a, b, c, d) not_so
                    | inl d ↦
                        rw (a, b, c, d)
                          (global_made-Started (live o.world) e o1
                            (web.host.curl_global_init o.world) f1 (ground arith, ground arith, d)
                            (own.own.curl_global_init_live o.world))
                  ]
          ]
        ]
      ]

  file_closed-Started :
      (n e : ℕ) (conf_fd : File) (r : ℕ × Owncloud web)
      → Started (n + 1) e r
      → Started n e (file_closed web conf_fd r)
  unfolding file_closed
  file_closed-Started n e fd (code, o) (f, inl (z, i, h, c)) =
      (f, inl (z, i, omega (arith, own.own.fclose_live fd o.world), c))
  file_closed-Started n e fd (code, o) (f, inr (i, h, c)) =
      (f, inr (i, omega (arith, own.own.fclose_live fd o.world), c))

  -- The call returns, and has started the service or not.
  abbrev pub Returns : ℕ → ℕ → Option (ℕ × Owncloud web) → Type 0
  Returns n e r = (a : ℕ × Owncloud web) × (r ≡ some a) × Started n e a

  loaded-Started :
      (n e code : ℕ) (o : Owncloud web)
      → (code ≡ 0) ⊎ (code ≡ einval)
      → live o.world ≡ n
      → length o.server_url ≤ max_url_len
      → Fitting o
      → Started n e (
          if code == 0
          then variables_tested web o
          else (code, record o { owncloud_initialized = 0 }))
  loaded-Started n e code o (inl z) h le f = rw (z, sym h) (variables_tested-Started e o le f)
  loaded-Started n e code o (inr i) h le f = rw i (f, inr (refl, h, inl refl))

  file_loaded-Returns :
      (n e : ℕ) (o : Owncloud web) (conf_fd : File) (r : Option (ℕ × List Bytes))
      → Fitting o
      → live o.world ≡ n + 1
      → Ends owncloud_variables r
      → Returns n e (file_loaded web o conf_fd r)
  unfolding file_loaded
  file_loaded-Returns n e o fd r f h (code, (url ∷ user ∷ pass ∷ []), q, c, g) = (
    _,
    rw (q, file_loaded) refl,
    file_closed-Started n e fd _ (
        loaded-Started (n + 1) e code
          (record o { server_url = url; user_id = user; user_password = pass }) c h g.0
          (f.0, f.1, omega (arith, g.0), g.1.0, g.1.1.0)),
  )
  file_loaded-Returns n e o fd r f h (code, [], q, c, g) = absurd g
  file_loaded-Returns n e o fd r f h (code, (a ∷ []), q, c, g) = absurd g.1
  file_loaded-Returns n e o fd r f h (code, (a ∷ b ∷ []), q, c, g) = absurd g.1.1
  file_loaded-Returns n e o fd r f h (code, (a ∷ b ∷ d ∷ v ∷ l), q, c, g) = absurd g.1.1.1

  file_opened-Returns :
      (n e : ℕ) (o : Owncloud web) (r : Option File × World)
      → Fitting o
      → e ≡ web.host.errno r.1
      → live r.1 ≡ n + handed r.0
      → ((fd : File) → r.0 ≡ some fd → web.read_fails fd r.1 ≡ false)
      → Returns n e (file_opened web o r)
  unfolding file_opened
  file_opened-Returns n e o (none, w) f q h reads =
      (_, refl, (f, inr (refl, omega arith, inr (sym q))))
  file_opened-Returns n e o (some fd, w) f q h reads =
      file_loaded-Returns n e (record o { world = w }) fd
        (load_config (web.read_fails fd w) owncloud_variables (web.text fd w)) f h
        (load_config-Ends (web.read_fails fd w) owncloud_variables (web.text fd w) (reads fd refl)
          refl)

  -- Called when ownCloud is not started and the static strings are within their buffers, whatever the
  -- arguments and the file hold, `owncloud_init` returns, if no read of the file fails, and the strings are within their buffers
  -- again. Either the code is 0, the service is started, the user and the password are not empty, and
  -- the server's URL begins with http:// or https:// (the forms owncloud:// and ownclouds:// of
  -- owncloud.h are refused with EINVAL); or it is not started, nothing is held, and the
  -- code is EINVAL or the error of `fopen`.
  pub owncloud_init-Returns :
      (env : ExecEnv) (conf_filename full_capture_path remote_destin_directory : Bytes)
      (o : Owncloud web)
      → o.owncloud_initialized ≡ 0
      → Fitting o
      → ((fd : File)
          → (web.host.fopen (conf_path env conf_filename) o.world).0 ≡ some fd
          → web.read_fails fd (web.host.fopen (conf_path env conf_filename) o.world).1 ≡ false)
      → Returns
          (live o.world)
          (web.host.errno (web.host.fopen (conf_path env conf_filename) o.world).1)
          (owncloud_init web env conf_filename full_capture_path remote_destin_directory o)
  unfolding owncloud_init
  owncloud_init-Returns env name capture remote o off f reads =
      let stays : Returns (live o.world)
          (web.host.errno (web.host.fopen (conf_path env name) o.world).1) (some (einval, o)) =
        ((einval, o), refl, (f, inr (off, refl, inl refl))) in
      elim (Bool-cases (ltb path_max (length name))) [
        | inl long ↦ rw long stays
        | inr fits ↦ elim (Bool-cases (ltb path_max (length capture + 1))) [
          | inl long ↦ rw (fits, long) stays
          | inr fits1 ↦ elim (Bool-cases (ltb path_max (length remote + 1))) [
            | inl long ↦ rw (fits, fits1, long) stays
            | inr fits2 ↦
                let opened = web.host.fopen (conf_path env name) o.world in
                let o1 = record o {
                  full_capture_path = with_slash capture;
                  remote_destin_dir = with_slash remote;
                  server_url = [];
                  user_id = [];
                  user_password = [];
                } in
                rw (fits, fits1, fits2)
                  (file_opened-Returns (live o.world) (web.host.errno opened.1) o1 opened
                    (
                      ground (arith, length-with_slash capture),
                      ground (arith, length-with_slash remote),
                      omega arith,
                      omega arith,
                      omega arith,
                    )
                    refl (own.own.fopen_live (conf_path env name) o.world) reads)
          ]
        ]
      ]
