-- ===== src/Telegram/Start.antt =====
-- How `telegram_init` of src/telegram.c starts the service.
use alarm4pi.Prelude.{
  ℕ, ◌+◌, ◌≤◌, ◌<◌, ◌≡◌, refl, sym, if◌then◌else◌, Bool, true, false, Option, none, some, List, [],
  ◌∷◌, arith, ◌==◌, ltb, Bool-cases, inl, inr, ◌⊎◌, length, handed, handed_if, einval,
}
use alarm4pi.CString.{Bytes, has_byte}
use alarm4pi.Proc.Paths.{path_max, ExecEnv}
use alarm4pi.Config.{load_config, conf_path}
use alarm4pi.Config.Load.{Ends, load_config-Ends}
use alarm4pi.Web.{Web, WebOwnership}
use alarm4pi.Telegram.{
  telegram_variables, Telegram, global_made, variables_tested, file_closed, file_loaded,
  file_opened, telegram_init,
}

module _ (web : Web) (own : WebOwnership web) where
  open web.host use {World, File, Curl}
  open own.own use {live}

  -- Both variables are there and within their widths, and the token has a colon.
  abbrev pub IsConfigured : Telegram web → Type 0
  IsConfigured t =
      (0 < length t.chat_id)
      × (length t.chat_id ≤ 160)
      × (length t.api_token ≤ 160)
      × (has_byte b':' t.api_token ≡ true)

  -- It is started, or it is not and there is an error: EINVAL, or the given one.
  abbrev pub Started : ℕ → ℕ → ℕ × Telegram web → Type 0
  Started n e (code, t) =
      ((code ≡ 0) × (t.telegram_initialized ≡ 1) × (live t.world ≡ n + 1) × IsConfigured t)
      ⊎ ((t.telegram_initialized ≡ 0) × (live t.world ≡ n) × ((code ≡ einval) ⊎ (code ≡ e)))

  global_made-Started :
      (n e : ℕ) (t : Telegram web) (r : Bool × World)
      → IsConfigured t
      → live r.1 ≡ n + handed_if r.0
      → Started n e (global_made web t r)
  unfolding global_made
  global_made-Started n e t (true, w) c h = inl (refl, refl, h, c)
  global_made-Started n e t (false, w) c h = inr (refl, omega arith, inl refl)

  variables_tested-Started :
      (e : ℕ) (t : Telegram web)
      → length t.chat_id ≤ 160
      → length t.api_token ≤ 160
      → Started (live t.world) e (variables_tested web t)
  unfolding variables_tested
  variables_tested-Started e t c a = elim (Bool-cases (ltb 0 (length t.chat_id))) [
    | inr no_id ↦ rw no_id (inr (refl, refl, inl refl))
    | inl id ↦ elim (Bool-cases (ltb 0 (length t.api_token))) [
      | inr no_token ↦ rw (id, no_token) (inr (refl, refl, inl refl))
      | inl token ↦ elim (Bool-cases (has_byte b':' t.api_token)) [
        | inr no_colon ↦ rw (id, token, no_colon) (inr (refl, refl, inl refl))
        | inl colon ↦
            rw (id, token, colon)
              (global_made-Started (live t.world) e t (web.host.curl_global_init t.world)
                (ground arith, c, a, colon) (own.own.curl_global_init_live t.world))
      ]
    ]
  ]

  file_closed-Started :
      (n e : ℕ) (conf_fd : File) (r : ℕ × Telegram web)
      → Started (n + 1) e r
      → Started n e (file_closed web conf_fd r)
  unfolding file_closed
  file_closed-Started n e fd (code, t) (inl (z, f, h, c)) =
      inl (z, f, omega (arith, own.own.fclose_live fd t.world), c)
  file_closed-Started n e fd (code, t) (inr (f, h, c)) =
      inr (f, omega (arith, own.own.fclose_live fd t.world), c)

  -- The call returns, and has started the service or not.
  abbrev pub Returns : ℕ → ℕ → Option (ℕ × Telegram web) → Type 0
  Returns n e r = (a : ℕ × Telegram web) × (r ≡ some a) × Started n e a

  loaded-Started :
      (n e code : ℕ) (t : Telegram web)
      → (code ≡ 0) ⊎ (code ≡ einval)
      → live t.world ≡ n
      → length t.chat_id ≤ 160
      → length t.api_token ≤ 160
      → Started n e (
          if code == 0
          then variables_tested web t
          else (code, record t { telegram_initialized = 0 }))
  loaded-Started n e code t (inl z) h c a = rw (z, sym h) (variables_tested-Started e t c a)
  loaded-Started n e code t (inr i) h c a = rw i (inr (refl, h, inl refl))

  file_loaded-Returns :
      (n e : ℕ) (t : Telegram web) (conf_fd : File) (r : Option (ℕ × List Bytes))
      → live t.world ≡ n + 1
      → Ends telegram_variables r
      → Returns n e (file_loaded web t conf_fd r)
  unfolding file_loaded
  file_loaded-Returns n e t fd r h (code, (chat_id ∷ api_token ∷ []), p, c, f) = (
    _,
    rw (p, file_loaded) refl,
    file_closed-Started n e fd _ (
        loaded-Started (n + 1) e code (record t { chat_id = chat_id; api_token = api_token }) c h
          f.0 f.1.0),
  )
  file_loaded-Returns n e t fd r h (code, [], p, c, f) = absurd f
  file_loaded-Returns n e t fd r h (code, (chat_id ∷ []), p, c, f) = absurd f.1
  file_loaded-Returns n e t fd r h (code, (chat_id ∷ api_token ∷ v ∷ l), p, c, f) = absurd f.1.1

  file_opened-Returns :
      (n e : ℕ) (t : Telegram web) (r : Option File × World)
      → e ≡ web.host.errno r.1
      → live r.1 ≡ n + handed r.0
      → ((fd : File) → r.0 ≡ some fd → web.read_fails fd r.1 ≡ false)
      → Returns n e (file_opened web t r)
  unfolding file_opened
  file_opened-Returns n e t (none, w) q h reads = (_, refl, inr (refl, omega arith, inr (sym q)))
  file_opened-Returns n e t (some fd, w) q h reads =
      file_loaded-Returns n e (record t { world = w }) fd
        (load_config (web.read_fails fd w) telegram_variables (web.text fd w)) h
        (load_config-Ends (web.read_fails fd w) telegram_variables (web.text fd w) (reads fd refl)
          refl)

  -- Called when Telegram is not started, whatever the file holds, `telegram_init` returns if no read of the file fails. Either the
  -- code is 0, the service is started, and the chat id, which is not empty, and the token, which has a
  -- colon, fit in their variables; or it is not started, nothing is held, and the code is EINVAL or
  -- the error of `fopen`.
  pub telegram_init-Returns :
      (env : ExecEnv) (conf_filename : Bytes) (t : Telegram web)
      → t.telegram_initialized ≡ 0
      → ((fd : File)
          → (web.host.fopen (conf_path env conf_filename) t.world).0 ≡ some fd
          → web.read_fails fd (web.host.fopen (conf_path env conf_filename) t.world).1 ≡ false)
      → Returns
          (live t.world)
          (web.host.errno (web.host.fopen (conf_path env conf_filename) t.world).1)
          (telegram_init web env conf_filename t)
  unfolding telegram_init
  telegram_init-Returns env name t off reads = elim (Bool-cases (ltb path_max (length name))) [
    | inl long ↦ rw long ((einval, t), refl, inr (off, refl, inl refl))
    | inr fits ↦
        let opened = web.host.fopen (conf_path env name) t.world in
        rw fits (
          file_opened-Returns (live t.world) (web.host.errno opened.1) t opened refl
            (own.own.fopen_live (conf_path env name) t.world) reads)
  ]
