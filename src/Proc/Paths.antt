-- ===== src/Proc/Paths.antt =====
-- src/proc_helper.c, lines 80 to 143: the directory of the executable and absolute paths.
-- A `char` buffer is the string in it, and a function that fills one returns what is in it
-- afterwards.
pub mod Bounds
pub mod Result
use alarm4pi.Prelude.{
  ℕ, ◌+◌, Bool, true, false, Option, none, some, [], ◌∷◌, ◌++◌, ltb, leb, ◌==◌, if◌then◌else◌,
  length, einval,
}
use alarm4pi.CString.{Bytes, codes}

abbrev pub path_max : ℕ
path_max = 4096

-- What the operating system answers: the target of /proc/self/exe, or the errno of the failure.
pub data Readlink : Type 0 where
  target : Bytes → Readlink
  failed : ℕ → Readlink

-- `dirname` is the C library's, applied to a copy of the target.
-- `errno` is the value that the variable has before the call.
pub record ExecEnv : Type 0 where
  pub self_exe : Readlink
  pub dirname : Bytes → Bytes
  pub errno : ℕ

abbrev pub errno_after : ExecEnv → ℕ
errno_after env = elim env.self_exe [ target t ↦ env.errno | failed e ↦ e ]

exec_path_of : Readlink → (Bytes → Bytes) → ℕ → ℕ × Bytes
exec_path_of (target t) dirname path_buff_len =
    if ltb (length (dirname t) + 1) path_buff_len then (0, dirname t ++ codes "/") else (einval, [])
exec_path_of (failed e) dirname path_buff_len = (e, [])

-- The error code and the content of `exec_path`, which a length of 0 leaves alone.
unfoldable pub get_current_exec_path : ExecEnv → Bytes → ℕ → ℕ × Bytes
unfolding exec_path_of
get_current_exec_path env exec_path path_buff_len =
    if ltb 0 path_buff_len
    then exec_path_of env.self_exe env.dirname path_buff_len
    else (einval, exec_path)

-- orig_file_path[0] == '/'
abbrev pub is_absolute : Bytes → Bool
is_absolute [] = false
is_absolute (c ∷ s) = c == b'/'

-- The block that `get_absolute_path` and the `_init` functions share: the directory of the
-- executable in front of a relative path, if that is known and the whole is not too long.
unfoldable pub in_exec_dir : ℕ × Bytes → Bytes → Bytes
in_exec_dir (ret_error, dir) path =
    if ret_error == 0
    then (if leb (length dir + length path) path_max then dir ++ path else path)
    else path

-- The error code is `none` where the C variable is returned without a value.
-- A path that is NULL is not modelled: every caller passes a string.
unfoldable pub get_absolute_path : ExecEnv → Bytes → Bytes → Option ℕ × Bytes
unfolding in_exec_dir
get_absolute_path env full_abs_path orig_file_path =
    if ltb path_max (length orig_file_path)
    then (some einval, full_abs_path)
    else if is_absolute orig_file_path
    then (none, orig_file_path)
    else let found = get_current_exec_path env full_abs_path path_max in
      (some (if found.0 == 0 then 0 else errno_after env), in_exec_dir found orig_file_path)
