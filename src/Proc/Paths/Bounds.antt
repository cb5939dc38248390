-- ===== src/Proc/Paths/Bounds.antt =====
-- The buffers of the path functions of src/proc_helper.c.
use alarm4pi.Prelude.{ℕ, ◌+◌, ◌≤◌, ◌<◌, arith, length, length-append}
use alarm4pi.CString.{Bytes, codes}
use alarm4pi.Proc.Paths.{
  path_max, ExecEnv, Readlink, target, failed, get_current_exec_path, exec_path_of, in_exec_dir,
  get_absolute_path,
}

exec_path_of-fits :
    (r : Readlink) (dirname : Bytes → Bytes) (len : ℕ)
    → 0 < len
    → length (exec_path_of r dirname len).1 + 1 ≤ len
unfolding exec_path_of
exec_path_of-fits (target t) dirname len h = ground (arith, length-append (dirname t) (codes "/"))
exec_path_of-fits (failed e) dirname len h = ground arith

-- The string left in `exec_path` and its terminating 0 fit in the buffer, if what it held before
-- does.
pub get_current_exec_path-fits :
    (env : ExecEnv) (exec_path : Bytes) (len : ℕ)
    → length exec_path + 1 ≤ len
    → length (get_current_exec_path env exec_path len).1 + 1 ≤ len
unfolding get_current_exec_path
get_current_exec_path-fits env exec_path len h =
    ground (arith, exec_path_of-fits env.self_exe env.dirname len)

in_exec_dir-fits :
    (found : ℕ × Bytes) (path : Bytes)
    → length path ≤ path_max
    → length (in_exec_dir found path) ≤ path_max
unfolding in_exec_dir
in_exec_dir-fits (ret, dir) path h = ground (arith, length-append dir path)

-- Whatever the path, relative, absolute or too long, and whatever the system answers, a buffer of
-- PATH_MAX + 1 bytes holds the string that `get_absolute_path` leaves in it and its 0, if it held
-- one before.
pub get_absolute_path-fits :
    (env : ExecEnv) (full_abs_path orig_file_path : Bytes)
    → length full_abs_path ≤ path_max
    → length (get_absolute_path env full_abs_path orig_file_path).1 ≤ path_max
unfolding get_absolute_path
get_absolute_path-fits env full orig h =
    ground (arith, in_exec_dir-fits (get_current_exec_path env full path_max) orig)
