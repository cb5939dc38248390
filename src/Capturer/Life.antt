-- ===== src/Capturer/Life.antt =====
-- src/capturer.c over whole lives: any calls between the first one and a `capturer_deinit`.
use alarm4pi.Prelude.{
  ℕ, ◌+◌, ◌≡◌, refl, ◌∙◌, ap, Bool, true, false, Option, none, some, List, [], ◌∷◌, ◌++◌, arith,
  ◌==◌, Bool-cases, inl, inr, ◌⊎◌, length, ltb, handed_if,
}
use alarm4pi.CString.{Bytes}
use alarm4pi.Proc.Paths.{path_max}
use alarm4pi.Capturer.Services.{Host, HostOwnership}
use alarm4pi.Capturer.{
  Capturer, made, directory_found, make_directory, make_parents, make_directory_recursive,
  global_ready, stored, capturer_init, capturer_deinit, capturer_snapshot_url,
}
use alarm4pi.Capturer.Frame.{capturer_get_frame}
use alarm4pi.Capturer.Balance.{capturer_get_frame_closes_all}

-- What the capturer itself keeps open is the global state of libcurl.
abbrev pub global_count : {host : Host} → Capturer host → ℕ
global_count c = handed_if c.curl_global_initialized

-- A call of capturer.c.
pub data CapturerCall : Type 0 where
  init_call get_frame_call : Bytes → CapturerCall
  deinit_call : CapturerCall

unfoldable pub run_capturer_call : (host : Host) → CapturerCall → Capturer host → Capturer host
run_capturer_call host (init_call path) c = (capturer_init host path c).1
run_capturer_call host (get_frame_call name) c = (capturer_get_frame host name c).1
run_capturer_call host deinit_call c = capturer_deinit host c

unfoldable pub run_capturer_calls :
    (host : Host) → List CapturerCall → Capturer host → Capturer host
run_capturer_calls host [] c = c
run_capturer_calls host (k ∷ ks) c = run_capturer_calls host ks (run_capturer_call host k c)

module _ (host : Host) (own : HostOwnership host) (base : ℕ) where
  open host use {World}
  open own use {live}

  -- Frames are fetched only with libcurl ready, and nothing else is open between two calls.
  abbrev pub IsSound : Capturer host → Type 0
  IsSound c =
      ((c.initialized ≡ false) ⊎ (c.curl_global_initialized ≡ true))
      × (live c.world ≡ base + global_count c)

  live-made : (r : Bool × World) → live (made host r).1 ≡ live r.1
  unfolding made
  live-made (true, w) = refl
  live-made (false, w) = refl

  live-directory_found :
      (p : Bytes) (r : Option Bool × World) → live (directory_found host p r).1 ≡ live r.1
  unfolding directory_found
  live-directory_found p (none, w) = live-made (host.mkdir p w) ∙ own.mkdir_live p w
  live-directory_found p (some true, w) = refl
  live-directory_found p (some false, w) = refl

  live-make_directory : (p : Bytes) (w : World) → live (make_directory host p w).1 ≡ live w
  unfolding make_directory
  live-make_directory p w = live-directory_found p (host.stat p w) ∙ own.stat_live p w

  live-make_parents :
      (seen rest : Bytes) (w : World) → live (make_parents host seen rest w).1 ≡ live w
  unfolding make_parents
  live-make_parents seen [] w = refl
  live-make_parents seen (c ∷ rest) w = elim (Bool-cases (c == b'/')) [
    | inr e ↦ rw e (live-make_parents (seen ++ (c ∷ [])) rest w)
    | inl e ↦
        let w1 = (make_directory host seen w).1 in
        rw e
          (ground (arith, live-make_parents (seen ++ (c ∷ [])) rest w1, live-make_directory seen w))
  ]

  live-make_directory_recursive :
      (path : Bytes) (w : World) → live (make_directory_recursive host path w).1 ≡ live w
  unfolding make_directory_recursive
  live-make_directory_recursive [] w = refl
  live-make_directory_recursive (c ∷ path) w = ground (
    arith,
    live-make_parents (c ∷ []) path w,
    live-make_directory (c ∷ path) (make_parents host (c ∷ []) path w).1,
  )

  global_ready-IsSound :
      (c : Capturer host) (r : Bool × World)
      → (c.initialized ≡ false) ⊎ (c.curl_global_initialized ≡ true)
      → c.curl_global_initialized ≡ false
      → live r.1 ≡ base + handed_if r.0
      → IsSound (global_ready host c r).1
  unfolding global_ready
  global_ready-IsSound c (true, w) safe off h = (inr refl, h)
  global_ready-IsSound c (false, w) safe off h = (safe, simp off h)

  stored-IsSound : (path : Bytes) (c : Capturer host) → IsSound c → IsSound (stored host path c).1
  unfolding stored
  stored-IsSound path c (safe, h) = elim (Bool-cases c.curl_global_initialized) [
    | inl on ↦ simp on (inr refl, rw on at h)
    | inr off ↦
        let there : live c.world ≡ base + 0 = h ∙ ap (λ (b : Bool). base + handed_if b) off in
        simp off (
          global_ready-IsSound
            (record c {
              capture_path = path;
              snapshot_url = capturer_snapshot_url;
              curl_global_initialized = false;
            })
            (host.curl_global_init c.world)
            (elim safe [ inl e ↦ inl e | inr on ↦ absurd (cc (on, off)) ]) refl
            (omega (arith, own.curl_global_init_live c.world)))
  ]

  pub capturer_init-IsSound :
      (path : Bytes) (c : Capturer host) → IsSound c → IsSound (capturer_init host path c).1
  unfolding capturer_init
  capturer_init-IsSound path c (safe, h) =
      let made_path = make_directory_recursive host path c.world in
      let same = live-make_directory_recursive path c.world in
      elim (Bool-cases (length path == 0)) [
        | inl e ↦ rw e (safe, h)
        | inr e ↦ elim (Bool-cases (ltb path_max (length path))) [
          | inl long ↦ rw (e, long) (safe, h)
          | inr fits ↦ elim (Bool-cases (made_path.0 == 0)) [
            | inl ok ↦
                rw (e, fits, ok)
                  (stored-IsSound path (record c { world = made_path.1 }) (safe, same ∙ h))
            | inr bad ↦ rw (e, fits, bad) (safe, same ∙ h)
          ]
        ]
      ]

  -- After `capturer_deinit` nothing is open.
  pub live-capturer_deinit :
      (c : Capturer host) → IsSound c → live (capturer_deinit host c).world ≡ base
  unfolding capturer_deinit
  live-capturer_deinit c (safe, h) = elim (Bool-cases c.curl_global_initialized) [
    | inl on ↦
        let there : live c.world ≡ base + 1 = h ∙ ap (λ (b : Bool). base + handed_if b) on in
        simp on (omega (arith, own.curl_global_cleanup_live c.world))
    | inr off ↦
        let there : live c.world ≡ base + 0 = h ∙ ap (λ (b : Bool). base + handed_if b) off in
        simp off (omega arith)
  ]

  capturer_deinit-IsSound : (c : Capturer host) → IsSound c → IsSound (capturer_deinit host c)
  unfolding capturer_deinit
  capturer_deinit-IsSound c s = let closed = live-capturer_deinit c s in (inl refl, omega arith)

  pub get_frame-fields :
      (name : Bytes) (c : Capturer host)
      → ((capturer_get_frame host name c).1.initialized ≡ c.initialized)
        × ((capturer_get_frame host name c).1.curl_global_initialized ≡ c.curl_global_initialized)
  unfolding capturer_get_frame
  get_frame-fields name c = (ground arith, ground arith)

  capturer_get_frame-IsSound :
      (name : Bytes) (c : Capturer host) → IsSound c → IsSound (capturer_get_frame host name c).1
  capturer_get_frame-IsSound name c (safe, h) =
      let (i, g) = get_frame-fields name c in
      rw (i, g) (safe, capturer_get_frame_closes_all host own name c ∙ h)

  run_capturer_call-IsSound :
      (k : CapturerCall) (c : Capturer host) → IsSound c → IsSound (run_capturer_call host k c)
  unfolding run_capturer_call
  run_capturer_call-IsSound (init_call path) c s = capturer_init-IsSound path c s
  run_capturer_call-IsSound (get_frame_call name) c s = capturer_get_frame-IsSound name c s
  run_capturer_call-IsSound deinit_call c s = capturer_deinit-IsSound c s

  -- Any calls of the capturer, failing or not, keep its flags consistent: it is initialized only with
  -- libcurl ready, and between two calls nothing of it is open but the global state of libcurl, and
  -- that exactly if its flag is set.
  pub run_capturer_calls-IsSound :
      (ks : List CapturerCall) (c : Capturer host)
      → IsSound c
      → IsSound (run_capturer_calls host ks c)
  unfolding run_capturer_calls
  run_capturer_calls-IsSound [] c s = s
  run_capturer_calls-IsSound (k ∷ ks) c s =
      run_capturer_calls-IsSound ks (run_capturer_call host k c) (run_capturer_call-IsSound k c s)

  -- From a state in which nothing is open but the `base` and what the flags tell, any calls of the
  -- capturer, failing or not, and then `capturer_deinit` leave exactly the `base` open.
  pub capturer_deinit_closes_all :
      (ks : List CapturerCall) (c : Capturer host)
      → IsSound c
      → live (capturer_deinit host (run_capturer_calls host ks c)).world ≡ base
  capturer_deinit_closes_all ks c s =
      live-capturer_deinit (run_capturer_calls host ks c) (run_capturer_calls-IsSound ks c s)
