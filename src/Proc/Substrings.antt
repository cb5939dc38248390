-- ===== src/Proc/Substrings.antt =====
-- src/proc_helper.c, lines 145 to 216: the replacement of a substring at the start of a word.
-- A pointer into a string is an offset or the suffix that it points at. Loops take fuel, and
-- `none` outside an `Option` of the result means that it ran out.
pub mod FirstWord
pub mod Replace
use alarm4pi.Prelude.{
  ℕ, zero, suc, ◌+◌, ◌-◌, ◌*◌, ◌%◌, ◌^◌, true, false, Option, none, some, [], ◌++◌, ◌==◌, length,
  get_or, take, drop,
}
use alarm4pi.CString.{Bytes, strstr}

-- The `while` of `initial_strstr`, with `sub_str_occ` at the offset `at`.
initial_strstr_from : ℕ → Bytes → Bytes → ℕ → Option (Option ℕ)
initial_strstr_from zero str sub_str at = none
initial_strstr_from (suc fuel) str sub_str at = elim (strstr (drop at str) sub_str) [
  | none ↦ some none
  | some k ↦ elim (at + k == 0) [
    | true ↦ some (some (at + k))
    | false ↦ elim (get_or str (at + k - 1) 0 == 32) [
      | true ↦ some (some (at + k))
      | false ↦ initial_strstr_from fuel str sub_str (at + k + 1)
    ]
  ]
]

unfoldable pub initial_strstr : Bytes → Bytes → Option (Option ℕ)
unfolding initial_strstr_from
initial_strstr str sub_str = initial_strstr_from (suc (length str)) str sub_str 0

-- The `while` of `count_initial_substrings`, with `cur_str` the suffix still to be searched.
count_from : ℕ → Bytes → Bytes → ℕ → Option ℕ
count_from zero cur_str sub_str n_strs = none
count_from (suc fuel) cur_str sub_str n_strs = elim (initial_strstr cur_str sub_str) [
  | none ↦ none
  | some none ↦ some n_strs
  | some (some k) ↦ count_from fuel (drop (k + length sub_str) cur_str) sub_str (n_strs + 1)
]

unfoldable pub count_initial_substrings : Bytes → Bytes → Option ℕ
unfolding count_from
count_initial_substrings str sub_str = count_from (suc (length str)) str sub_str 0

-- The `while` of `replace_initial_substrings`: `dest` is what has been written before
-- `prev_dest_str`, and `src` is the suffix at `prev_src_str`.
replace_from : ℕ → Bytes → Bytes → Bytes → Bytes → Option Bytes
replace_from zero dest src old new = none
replace_from (suc fuel) dest src old new = elim (initial_strstr src old) [
  | none ↦ none
  | some none ↦ some (dest ++ src)
  | some (some k) ↦
      replace_from fuel ((dest ++ take k src) ++ new) (drop (k + length old) src) old new
]

unfoldable pub replace_initial_substrings : Bytes → Bytes → Bytes → Option Bytes
unfolding replace_from
replace_initial_substrings src old new = replace_from (suc (length src)) [] src old new

-- A `size_t` of 32 bits, as on a 32-bit Raspberry Pi.
abbrev pub size_t : ℕ → ℕ
size_t n = n % 2 ^ 32

-- The number of bytes that `alloc_replace_initial_substrings` asks `malloc` for; the second term is
-- what is subtracted.
unfoldable pub alloc_size : Bytes → Bytes → Bytes → Option ℕ
alloc_size src old new = elim (count_initial_substrings src old) [
  | none ↦ none
  | some n ↦
      let rest = size_t (length src + (2 ^ 32 - size_t (n * length old))) in
      let size_dest_str_len = size_t (rest + size_t (n * length new)) in
      some (size_t (size_dest_str_len + 1))
]
