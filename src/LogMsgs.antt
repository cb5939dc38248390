-- ===== src/LogMsgs.antt =====
-- src/log_msgs.c, lines 92 to 189: the files of the messages. A file is its content; what a call of
-- the operating system answers is an argument. The writing of messages is left out.
pub mod Tail
use alarm4pi.Prelude.{
  ℕ, ◌+◌, ◌-◌, Bool, true, false, Option, none, some, List, [], ◌∷◌, ◌++◌, ltb, leb, if◌then◌else◌,
  length, take, drop,
}
use alarm4pi.CString.{Bytes, codes}
use alarm4pi.Proc.Paths.{path_max}

abbrev pub max_prev_msg_file_size : ℕ
max_prev_msg_file_size = 32768

-- What happens in one call of `open_msg_file`: whether the two calls of `fopen` and `malloc` succeed,
-- how many bytes `fread` loads, and the time stamps written.
pub record Opening : Type 0 where
  pub is_opened : Bool
  pub has_memory : Bool
  pub is_emptied : Bool
  pub loaded : ℕ
  pub deleted_stamp : Bytes
  pub log_stamp : Bytes

abbrev pub deleted_line : Bytes → Bytes
deleted_line stamp =
    10 ∷ (codes "[" ++ (stamp ++ (codes "] <Old messages deleted>" ++ (10 ∷ 10 ∷ []))))

abbrev pub initiated_lines : Bytes → Bytes
initiated_lines stamp =
    10
    ∷ (codes "["
        ++ (stamp
            ++ (codes "] --------------------- Log initiated ---------------------"
                ++ (10
                    ∷ (codes "[" ++ (stamp ++ (codes "] alarm4pi daemon running" ++ (10 ∷ []))))))))

-- What `fread` loads of the last `max_file_len` bytes.
abbrev pub log_tail : ℕ → ℕ → Bytes → Bytes
log_tail max_file_len loaded content = take loaded (drop (length content - max_file_len) content)

-- Whether the file is open again, and its content.
unfoldable pub truncated : Opening → ℕ → Bytes → Bool × Bytes
truncated o max_file_len content =
    if o.has_memory
    then (if o.is_emptied
        then (true, deleted_line o.deleted_stamp ++ log_tail max_file_len o.loaded content)
        else (false, content))
    else (true, content)

-- Whether a file is returned, and its content.
unfoldable pub open_msg_file : Opening → ℕ → Bytes → Bool × Bytes
unfolding truncated
open_msg_file o max_file_len content =
    let (is_open, kept_content) =
      if ltb max_file_len (length content)
      then truncated o max_file_len content
      else (true, content) in
    if o.is_opened
    then (if is_open
        then (true, kept_content ++ initiated_lines o.log_stamp)
        else (false, kept_content))
    else (false, content)

abbrev pub log_file_name : Bytes
log_file_name = codes "daemon.log"

abbrev pub event_file_name : Bytes
event_file_name = codes "events.log"

-- The names that `open_log_files` opens below the directory: `none` is a file that is not tried. The
-- buffer holds the name of the log when the length of the other one is tested.
unfoldable pub log_filenames : Bytes → Option Bytes × Option Bytes
log_filenames dir =
    let is_log = leb (length dir + length log_file_name) path_max in
    let full_log_filename = if is_log then dir ++ log_file_name else dir in
    (
      if is_log then some (dir ++ log_file_name) else none,
      if leb (length full_log_filename + length event_file_name) path_max
          then some (dir ++ event_file_name)
          else none,
    )
