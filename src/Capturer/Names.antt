-- ===== src/Capturer/Names.antt =====
-- The names of the files that src/capturer.c writes.
use alarm4pi.Prelude.{
  ℕ, ◌+◌, ◌≤◌, ◌≡◌, refl, true, false, ◌++◌, arith, ◌==◌, Bool-cases, Option-cases, inl, inr, ◌⊎◌,
  length, leb, length-append, drop,
}
use alarm4pi.CString.{Bytes, codes, starts_with, strstr, has_byte}
use alarm4pi.CString.Search.{strstr-none}
use alarm4pi.Proc.Paths.{path_max}
use alarm4pi.Capturer.{validate_filename, build_full_path}
use alarm4pi.Capturer.Frame.{frame_paths}

-- A name below the directory: no slash, and no two dots anywhere.
abbrev pub IsLocal : Bytes → Type 0
IsLocal name =
    (has_byte b'/' name ≡ false) × ((j : ℕ) → starts_with (codes "..") (drop j name) ≡ false)

-- The two paths are in the directory and fit in buffers of PATH_MAX + 1 bytes.
abbrev pub IsUsable : Bytes → Bytes → Bytes × Bytes → Type 0
IsUsable dir name (final_path, temp_path) =
    (final_path ≡ dir ++ codes "/" ++ name)
    × (temp_path ≡ final_path ++ codes ".tmp")
    × (length final_path ≤ path_max)
    × (length temp_path ≤ path_max)

validate_filename-IsLocal : (name : Bytes) → (validate_filename name == 0) ≡ true → IsLocal name
unfolding validate_filename
validate_filename-IsLocal name h = elim (Option-cases (strstr name (codes ".."))) [
  | inl e ↦ (ground arith, λ j. strstr-none name (codes "..") j e)
  | inr (k, e) ↦ absurd (ground arith)
]

-- Either `capturer_get_frame` refuses the names before it opens a file, or the name is local, and
-- both paths lie in the capture directory and fit in their buffers.
pub frame_paths-IsUsable :
    (dir name : Bytes)
    → (((frame_paths dir name).0 == 0) ≡ false)
      ⊎ (IsLocal name × IsUsable dir name (frame_paths dir name).1)
unfolding frame_paths build_full_path
frame_paths-IsUsable dir name =
    let path = dir ++ codes "/" ++ name in
    elim (Bool-cases (validate_filename name == 0)) [
      | inr bad ↦ rw bad (inl bad)
      | inl ok ↦ elim (Bool-cases (leb (path_max + 1) (length path))) [
        | inl long ↦ rw (ok, long) (inl refl)
        | inr fits ↦ elim (Bool-cases (leb (path_max + 1) (length path + 5))) [
          | inl long ↦ rw (ok, fits, long) (inl refl)
          | inr room ↦
              let size = length-append path (codes ".tmp") in
              rw (ok, fits, room)
                (inr (
                  validate_filename-IsLocal name ok,
                  (refl, refl, ground arith, ground (arith, size)),
                ))
        ]
      ]
    ]
