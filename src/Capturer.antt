-- ===== src/Capturer.antt =====
-- src/capturer.c: the client that stores a frame of the camera. The static variables of the file are the
-- fields of `Capturer`; log messages are left out.
pub mod Services
pub mod Frame
pub mod Names
pub mod Balance
pub mod Life
pub mod Files
pub mod Errors
pub mod Stored
use alarm4pi.Prelude.{
  ℕ, ◌+◌, Bool, true, false, Option, none, some, List, [], ◌∷◌, ◌++◌, ◌==◌, ltb, leb, if◌then◌else◌,
  length, eio, eexist, enotdir, einval, enametoolong,
}
use alarm4pi.CString.{Bytes, codes, strstr, has_byte}
use alarm4pi.Proc.Paths.{path_max}
use Services.{Host}

pub record Capturer (host : Host) : Type 0 where
  pub capture_path : Bytes
  pub snapshot_url : Bytes
  pub initialized : Bool
  pub curl_global_initialized : Bool
  pub world : host.World

abbrev pub capturer_snapshot_url : Bytes
capturer_snapshot_url = codes "http://127.0.0.1:8008/?action=snapshot"

-- The names passed are never NULL.
unfoldable pub validate_filename : Bytes → ℕ
validate_filename filename_to_save =
    if length filename_to_save == 0
    then einval
    else if ltb path_max (length filename_to_save)
    then einval
    else if has_byte b'/' filename_to_save
    then einval
    else elim (strstr filename_to_save (codes "..")) [ some k ↦ einval | none ↦ 0 ]

-- The code, and what `snprintf` leaves in `dst` when it fits. (Its encoding errors do not happen with
-- `%s`.)
unfoldable pub build_full_path : ℕ → Bytes → Bytes → ℕ × Bytes
build_full_path dst_size dir file =
    let path = dir ++ codes "/" ++ file in
    if leb dst_size (length path) then (enametoolong, []) else (0, path)

module _ (host : Host) where
  open host use {World, errno, stat, mkdir, curl_global_init, curl_global_cleanup}

  made : Bool × World → ℕ × World
  made (true, w) = (0, w)
  made (false, w) = (if errno w == eexist then 0 else errno w, w)

  directory_found : Bytes → Option Bool × World → ℕ × World
  unfolding made
  directory_found path (none, w) = made (mkdir path w)
  directory_found path (some true, w) = (0, w)
  directory_found path (some false, w) = (enotdir, w)

  unfoldable pub make_directory : Bytes → World → ℕ × World
  unfolding directory_found
  make_directory path w = directory_found path (stat path w)

  -- The `for`: `seen` is tmp[0..i) and the other argument the rest.
  unfoldable pub make_parents : Bytes → Bytes → World → ℕ × World
  make_parents seen [] w = (0, w)
  make_parents seen (c ∷ rest) w =
      let (ret, w1) = if c == b'/' then make_directory seen w else (0, w) in
      let later = make_parents (seen ++ (c ∷ [])) rest w1 in if ret == 0 then later else (ret, w1)

  unfoldable pub make_directory_recursive : Bytes → World → ℕ × World
  unfolding make_parents
  make_directory_recursive [] w = (einval, w)
  make_directory_recursive (c ∷ path) w =
      if ltb path_max (length (c ∷ path))
      then (einval, w)
      else (let (ret, w1) = make_parents (c ∷ []) path w in
          if ret == 0 then make_directory (c ∷ path) w1 else (ret, w1))

  global_ready : Capturer host → Bool × World → ℕ × Capturer host
  global_ready c (true, w) =
      (0, record c { curl_global_initialized = true; initialized = true; world = w })
  global_ready c (false, w) = (eio, record c { world = w })

  -- From the copies of the path and the URL on.
  stored : Bytes → Capturer host → ℕ × Capturer host
  unfolding global_ready
  stored path c =
      let c1 = record c { capture_path = path; snapshot_url = capturer_snapshot_url } in
      if c1.curl_global_initialized
      then (0, record c1 { initialized = true })
      else global_ready c1 (curl_global_init c1.world)

  -- After the first test the path fits in `g_capture_path`, and the URL is shorter than its buffer.
  unfoldable pub capturer_init : Bytes → Capturer host → ℕ × Capturer host
  unfolding stored
  capturer_init full_capture_path c =
      if length full_capture_path == 0
      then (einval, c)
      else if ltb path_max (length full_capture_path)
      then (einval, c)
      else (let (ret_error, w) = make_directory_recursive full_capture_path c.world in
          if ret_error == 0
          then stored full_capture_path (record c { world = w })
          else (ret_error, record c { world = w }))

  unfoldable pub capturer_deinit : Capturer host → Capturer host
  capturer_deinit c = record {
    capture_path = [];
    snapshot_url = [];
    initialized = false;
    curl_global_initialized = false;
    world = if c.curl_global_initialized then curl_global_cleanup c.world else c.world;
  }
