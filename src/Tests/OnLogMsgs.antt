-- ===== src/Tests/OnLogMsgs.antt =====
-- The theorem on src/log_msgs.c at a concrete input.
use alarm4pi.Prelude.{true}
use alarm4pi.CString.{codes}
use alarm4pi.LogMsgs.{Opening}

abbrev all_works : Opening
all_works = record {
  is_opened = true;
  has_memory = true;
  is_emptied = true;
  loaded = 4;
  deleted_stamp = codes "2026-01-02 03:04:05";
  log_stamp = codes "2026-01-02 03:04:06";
}
