-- ===== src/Pushover/Status.antt =====
-- The status in the body of a response, in `send_pushover_notification` of src/pushover2.c.
use alarm4pi.Prelude.{
  ℕ, ◌+◌, ◌*◌, ◌-◌, ℤ, pos, negsuc, eq_ℤ, Bool, ◌||◌, ◌&&◌, Option, none, some, [], ◌∷◌, ◌++◌, ◌==◌,
  leb, if◌then◌else◌, drop, eproto, ebadrqc,
}
use alarm4pi.CString.{Bytes, codes, strstr}

-- The string in a block: what stands before the first 0.
unfoldable pub string_of : Bytes → Bytes
string_of [] = []
string_of (c ∷ s) = let rest = string_of s in if c == 0 then [] else c ∷ rest

abbrev pub is_digit : ℕ → Bool
is_digit c = leb 48 c && leb c 57

-- `%*[^0-9-]`: the characters that are neither digits nor `-`.
unfoldable pub skip_to_number : Bytes → Bytes
skip_to_number [] = []
skip_to_number (c ∷ s) =
    let rest = skip_to_number s in if is_digit c || c == b'-' then c ∷ s else rest

-- The digits of `%d`, behind the number read so far. (A number that is too large for an `int`, whose
-- conversion C leaves undefined, is kept.)
unfoldable pub read_digits : ℕ → Bytes → ℕ
read_digits n [] = n
read_digits n (c ∷ s) =
    let rest = read_digits (n * 10 + (c - 48)) s in if is_digit c then rest else n

abbrev pub negated : ℕ → ℤ
negated n = if n == 0 then pos 0 else negsuc (n - 1)

-- `%d` of a text that begins with a digit or `-`: `none` if no digit follows the `-`.
unfoldable pub read_int : Bytes → Option ℤ
unfolding read_digits
read_int [] = none
read_int (c ∷ []) = if is_digit c then some (pos (c - 48)) else none
read_int (c ∷ d ∷ s) =
    if is_digit c
    then some (pos (read_digits 0 (c ∷ d ∷ s)))
    else if is_digit d
    then some (negated (read_digits 0 (d ∷ s)))
    else none

-- sscanf(status_ptr, "\"status\"%*[^0-9-]%d", &notif_state), of the text behind `"status"`: the set
-- has to match a character.
unfoldable pub scan_status : Bytes → Option ℤ
unfolding skip_to_number read_int
scan_status [] = none
scan_status (c ∷ s) = if is_digit c || c == b'-' then none else read_int (skip_to_number s)

-- "\"status\""
abbrev pub status_name : Bytes
status_name = b'"' ∷ (codes "status" ++ (b'"' ∷ []))

abbrev pub notif_code : Option ℤ → ℕ
notif_code (some notif_state) = if eq_ℤ notif_state (pos 1) then 0 else ebadrqc
notif_code none = eproto

-- The code, from the block of a response with the HTTP code 200.
unfoldable pub status_code : Bytes → ℕ
unfolding string_of scan_status
status_code block =
    let response = string_of block in
    elim (strstr response status_name) [
      | none ↦ eproto
      | some k ↦ notif_code (scan_status (drop (k + 8) response))
    ]
