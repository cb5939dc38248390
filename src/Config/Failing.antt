-- ===== src/Config/Failing.antt =====
-- The loops that load the configuration files when a read of the file fails: `feof` stays false.
use alarm4pi.Prelude.{ℕ, ◌≡◌, Option, none, some, List, einval}
use alarm4pi.CString.{Bytes}

-- A loop that ends does so with EINVAL.
abbrev pub Refuses : Option (ℕ × List Bytes) → Type 0
Refuses none = Unit
Refuses (some (code, values)) = code ≡ einval
