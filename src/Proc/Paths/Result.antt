-- ===== src/Proc/Paths/Result.antt =====
-- What `get_absolute_path` of src/proc_helper.c answers for each kind of path.
use alarm4pi.Prelude.{
  ℕ, ◌+◌, ◌≤◌, ◌<◌, ◌≡◌, true, false, none, some, arith, length, ◌++◌, length-append,
}
use alarm4pi.CString.{Bytes, codes}
use alarm4pi.Proc.Paths.{
  path_max, ExecEnv, target, get_current_exec_path, is_absolute, exec_path_of, in_exec_dir,
  get_absolute_path,
}

-- With a known directory that leaves room, the buffer gets that directory and a slash, and the code
-- is 0.
pub get_current_exec_path-known :
    (env : ExecEnv) (exec_path t : Bytes) (len : ℕ)
    → env.self_exe ≡ target t
    → length (env.dirname t) + 1 < len
    → get_current_exec_path env exec_path len ≡ (0, env.dirname t ++ codes "/")
unfolding get_current_exec_path exec_path_of
get_current_exec_path-known env exec_path t len e room = rw (e, exec_path_of) (ground arith)

-- A relative path gets the directory of the executable in front, and the code is 0, if that
-- directory is known and the whole is at most PATH_MAX long.
pub get_absolute_path_relative :
    (env : ExecEnv) (full_abs_path orig_file_path t : Bytes)
    → is_absolute orig_file_path ≡ false
    → env.self_exe ≡ target t
    → length (env.dirname t) + 1 < path_max
    → length (env.dirname t) + 1 + length orig_file_path ≤ path_max
    → get_absolute_path env full_abs_path orig_file_path
      ≡ (some 0, (env.dirname t ++ codes "/") ++ orig_file_path)
unfolding get_absolute_path in_exec_dir
get_absolute_path_relative env full orig t rel e room fits = ground (
  arith,
  get_current_exec_path-known env full t path_max e room,
  length-append (env.dirname t) (codes "/"),
)

-- An absolute path that is at most PATH_MAX long comes back unchanged, with a code that the
-- function never sets.
pub get_absolute_path_absolute :
    (env : ExecEnv) (full_abs_path orig_file_path : Bytes)
    → is_absolute orig_file_path ≡ true
    → length orig_file_path ≤ path_max
    → get_absolute_path env full_abs_path orig_file_path ≡ (none, orig_file_path)
unfolding get_absolute_path
get_absolute_path_absolute env full orig abs fits = ground arith
