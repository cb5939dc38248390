-- ===== src/LogMsgs/Tail.antt =====
-- What `open_msg_file` of src/log_msgs.c leaves of an old file.
use alarm4pi.Prelude.{ℕ, ◌≡◌, Bool, true, false, [], ◌++◌, ◌⊎◌, length}
use alarm4pi.CString.{Bytes}
use alarm4pi.LogMsgs.{Opening, deleted_line, initiated_lines}

-- The file is a part of the old one and the new lines: all of the old one, or its last `max` bytes
-- behind the note that the others are deleted.
abbrev pub IsKept : Opening → ℕ → Bytes → Bytes → Type 0
IsKept o max content after =
    (lost : Bytes) × (rest : Bytes) × (before : Bytes) × (content ≡ lost ++ rest)
    × (after ≡ before ++ (rest ++ initiated_lines o.log_stamp))
    × (((lost ≡ []) × (before ≡ []))
        ⊎ ((length rest ≡ max) × (before ≡ deleted_line o.deleted_stamp)))

abbrev pub Opened : Opening → ℕ → Bytes → Bool × Bytes → Type 0
Opened o max content (is_open, after) =
    ((is_open ≡ false) × (after ≡ content)) ⊎ ((is_open ≡ true) × IsKept o max content after)
