-- ===== src/Pushover/Start.antt =====
-- How `pushover_init` of src/pushover2.c starts the service.
use alarm4pi.Prelude.{
  ℕ, ◌+◌, ◌≤◌, ◌<◌, ◌≡◌, refl, sym, if◌then◌else◌, Bool, true, false, Option, none, some, List, [],
  ◌∷◌, arith, ◌==◌, ltb, leb, Bool-cases, inl, inr, ◌⊎◌, length, handed, handed_if, einval,
}
use alarm4pi.CString.{Bytes, codes, starts_with}
use alarm4pi.Proc.Paths.{path_max, ExecEnv}
use alarm4pi.Config.{load_config, conf_path}
use alarm4pi.Config.Load.{Ends, load_config-Ends}
use alarm4pi.Web.{Web, WebOwnership}
use alarm4pi.Pushover.{
  pushover_variables, pushover_send_msg_url, max_url_len, Pushover, not_started, global_made,
  variables_tested, file_closed, file_loaded, file_opened, pushover_init,
}

default_is_https : starts_with (codes "https://") pushover_send_msg_url ≡ true
unfolding starts_with
default_is_https = refl

module _ (web : Web) (own : WebOwnership web) where
  open web.host use {World, File}
  open own.own use {live}

  -- The token and the user are there and within their widths, and the server is an https one.
  abbrev pub IsConfigured : Pushover web → Type 0
  IsConfigured p =
      (0 < length p.token_id)
      × (length p.token_id ≤ 160)
      × (0 < length p.user_id)
      × (length p.user_id ≤ 160)
      × (starts_with (codes "https://") p.server_url ≡ true)
      × (length p.server_url ≤ max_url_len)

  abbrev pub Stays : ℕ → ℕ → ℕ × Pushover web → Type 0
  Stays n e (code, p) =
      (p.pushover_initialized ≡ 0) × (live p.world ≡ n) × ((code ≡ einval) ⊎ (code ≡ e))

  -- It is started, or it is not and there is an error: EINVAL, or the given one.
  abbrev pub Started : ℕ → ℕ → ℕ × Pushover web → Type 0
  Started n e (code, p) =
      ((code ≡ 0) × (p.pushover_initialized ≡ 1) × (live p.world ≡ n + 1) × IsConfigured p)
      ⊎ Stays n e (code, p)

  global_made-Started :
      (n e : ℕ) (p : Pushover web) (r : Bool × World)
      → p.pushover_initialized ≡ 0
      → IsConfigured p
      → live r.1 ≡ n + handed_if r.0
      → Started n e (global_made web p r)
  unfolding global_made
  global_made-Started n e p (true, w) off c h = inl (refl, omega arith, h, c)
  global_made-Started n e p (false, w) off c h = inr (refl, omega arith, inl refl)

  not_started-Started :
      (n e : ℕ) (p : Pushover web) → live p.world ≡ n → Started n e (not_started web p)
  not_started-Started n e p h = inr (refl, h, inl refl)

  variables_tested-Started :
      (e : ℕ) (server_url : Bytes) (p : Pushover web)
      → p.pushover_initialized ≡ 0
      → length p.token_id ≤ 160
      → length p.user_id ≤ 160
      → Started (live p.world) e (variables_tested web server_url p)
  unfolding variables_tested
  variables_tested-Started e url p off tok usr =
      let init = web.host.curl_global_init p.world in
      let held = own.own.curl_global_init_live p.world in
      let not_so = not_started-Started (live p.world) e p refl in
      elim (Bool-cases (ltb 0 (length p.token_id))) [
        | inr a ↦ rw a not_so
        | inl a ↦ elim (Bool-cases (ltb 0 (length p.user_id))) [
          | inr b ↦ rw (a, b) not_so
          | inl b ↦ elim (Bool-cases (ltb 0 (length url))) [
            | inr c ↦
                rw (a, b, c)
                  (global_made-Started (live p.world) e
                    (record p { server_url = pushover_send_msg_url }) init off
                    (ground arith, tok, ground arith, usr, default_is_https, omega arith) held)
            | inl c ↦ elim (Bool-cases (starts_with (codes "https://") url)) [
              | inr d ↦ rw (a, b, c, d) not_so
              | inl d ↦ elim (Bool-cases (leb (length url) max_url_len)) [
                | inr l ↦ rw (a, b, c, d, l) not_so
                | inl l ↦
                    rw (a, b, c, d, l)
                      (global_made-Started (live p.world) e (record p { server_url = url }) init off
                        (ground arith, tok, ground arith, usr, d, ground arith) held)
              ]
            ]
          ]
        ]
      ]

  file_closed-Started :
      (n e : ℕ) (conf_fd : File) (r : ℕ × Pushover web)
      → Started (n + 1) e r
      → Started n e (file_closed web conf_fd r)
  unfolding file_closed
  file_closed-Started n e fd (code, p) (inl (z, f, h, c)) =
      inl (z, f, omega (arith, own.own.fclose_live fd p.world), c)
  file_closed-Started n e fd (code, p) (inr (f, h, c)) =
      inr (f, omega (arith, own.own.fclose_live fd p.world), c)

  -- The call returns, and has started the service or not.
  abbrev pub Returns : ℕ → ℕ → Option (ℕ × Pushover web) → Type 0
  Returns n e r = (a : ℕ × Pushover web) × (r ≡ some a) × Started n e a

  loaded-Started :
      (n e code : ℕ) (server_url : Bytes) (p : Pushover web)
      → (code ≡ 0) ⊎ (code ≡ einval)
      → p.pushover_initialized ≡ 0
      → live p.world ≡ n
      → length p.token_id ≤ 160
      → length p.user_id ≤ 160
      → Started n e (if code == 0 then variables_tested web server_url p else (code, p))
  loaded-Started n e code url p (inl z) off h a b =
      rw (z, sym h) (variables_tested-Started e url p off a b)
  loaded-Started n e code url p (inr i) off h a b = rw i (inr (off, h, inl refl))

  file_loaded-Returns :
      (n e : ℕ) (p : Pushover web) (conf_fd : File) (r : Option (ℕ × List Bytes))
      → p.pushover_initialized ≡ 0
      → live p.world ≡ n + 1
      → Ends pushover_variables r
      → Returns n e (file_loaded web p conf_fd r)
  unfolding file_loaded
  file_loaded-Returns n e p fd r off h (code, (url ∷ token ∷ user ∷ []), q, c, f) = (
    _,
    rw (q, file_loaded) refl,
    file_closed-Started n e fd _ (
        loaded-Started (n + 1) e code url
          (record p { token_id = token; user_id = user; server_url = [] }) c off h f.1.0 f.1.1.0),
  )
  file_loaded-Returns n e p fd r off h (code, [], q, c, f) = absurd f
  file_loaded-Returns n e p fd r off h (code, (a ∷ []), q, c, f) = absurd f.1
  file_loaded-Returns n e p fd r off h (code, (a ∷ b ∷ []), q, c, f) = absurd f.1.1
  file_loaded-Returns n e p fd r off h (code, (a ∷ b ∷ d ∷ v ∷ l), q, c, f) = absurd f.1.1.1

  file_opened-Returns :
      (n e : ℕ) (p : Pushover web) (r : Option File × World)
      → p.pushover_initialized ≡ 0
      → e ≡ web.host.errno r.1
      → live r.1 ≡ n + handed r.0
      → ((fd : File) → r.0 ≡ some fd → web.read_fails fd r.1 ≡ false)
      → Returns n e (file_opened web p r)
  unfolding file_opened
  file_opened-Returns n e p (none, w) off q h reads =
      (_, refl, inr (refl, omega arith, inr (sym q)))
  file_opened-Returns n e p (some fd, w) off q h reads =
      file_loaded-Returns n e (record p { world = w }) fd
        (load_config (web.read_fails fd w) pushover_variables (web.text fd w)) off h
        (load_config-Ends (web.read_fails fd w) pushover_variables (web.text fd w) (reads fd refl)
          refl)

  -- Called when Pushover is not started, whatever the file holds, `pushover_init` returns if no read of the file fails. Either the
  -- code is 0, the service is started, the token and the user are not empty and fit in their
  -- variables, and the server's URL begins with https:// and is at most 2083 long; or it is not
  -- started, nothing is held, and the code is EINVAL or the error of `fopen`.
  pub pushover_init-Returns :
      (env : ExecEnv) (conf_filename : Bytes) (p : Pushover web)
      → p.pushover_initialized ≡ 0
      → ((fd : File)
          → (web.host.fopen (conf_path env conf_filename) p.world).0 ≡ some fd
          → web.read_fails fd (web.host.fopen (conf_path env conf_filename) p.world).1 ≡ false)
      → Returns
          (live p.world)
          (web.host.errno (web.host.fopen (conf_path env conf_filename) p.world).1)
          (pushover_init web env conf_filename p)
  unfolding pushover_init
  pushover_init-Returns env name p off reads = elim (Bool-cases (ltb path_max (length name))) [
    | inl long ↦ rw long ((einval, p), refl, inr (off, refl, inl refl))
    | inr fits ↦
        let opened = web.host.fopen (conf_path env name) p.world in
        rw fits (
          file_opened-Returns (live p.world) (web.host.errno opened.1) p opened off refl
            (own.own.fopen_live (conf_path env name) p.world) reads)
  ]
