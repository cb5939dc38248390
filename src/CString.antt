-- ===== src/CString.antt =====
-- C strings as the lists of their bytes, without the terminating 0, and what the program uses of
-- <string.h> on them.
pub mod Search
use Prim.Native.Char.{code}
use alarm4pi.Prelude.{
  ℕ, suc, Bool, true, false, ◌&&◌, Option, none, some, List, [], ◌∷◌, ◌==◌, String, ◌-◌, take,
}

abbrev pub Bytes : Type 0
Bytes = List ℕ

-- The bytes of an ASCII literal.
abbrev pub codes : String → Bytes
codes String.[] = []
codes (String.◌∷◌ c s) = code c ∷ codes s

-- strncmp(s, prefix, strlen(prefix)) == 0
unfoldable pub starts_with : Bytes → Bytes → Bool
starts_with [] s = true
starts_with (p ∷ ps) [] = false
starts_with (p ∷ ps) (c ∷ s) = p == c && starts_with ps s

abbrev pub bump : Option ℕ → Option ℕ
bump none = none
bump (some n) = some (suc n)

-- The offset that strstr(s, sub) points at, `none` for NULL.
unfoldable pub strstr : Bytes → Bytes → Option ℕ
strstr [] sub = elim (starts_with sub []) [ true ↦ some 0 | false ↦ none ]
strstr (c ∷ s) sub =
    let rest = strstr s sub in elim (starts_with sub (c ∷ s)) [ true ↦ some 0 | false ↦ bump rest ]

-- strchr(s, c) != NULL
unfoldable pub has_byte : ℕ → Bytes → Bool
has_byte c [] = false
has_byte c (b ∷ s) = elim (b == c) [ true ↦ true | false ↦ has_byte c s ]

-- The string that snprintf(buffer, size, …) leaves, of a text that may be cut.
abbrev pub snprintf : ℕ → Bytes → Bytes
snprintf size text = take (size - 1) text
