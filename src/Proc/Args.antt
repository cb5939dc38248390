-- ===== src/Proc/Args.antt =====
-- src/proc_helper.c, lines 203 to 273: argument arrays on the heap. An array that ends in NULL is
-- the list of its strings.
pub mod Memory
pub mod Granted
use alarm4pi.Prelude.{
  ℕ, ◌+◌, ◌-◌, Bool, true, false, Option, none, some, List, [], ◌∷◌, ◌++◌, ◌==◌, if◌then◌else◌,
}
use alarm4pi.CString.{Bytes, codes}
use alarm4pi.Proc.Substrings.{replace_initial_substrings}
use alarm4pi.Proc.Paths.{path_max, ExecEnv, get_current_exec_path}

-- `granted` are the answers of the calls of `malloc` to come (when it ends, they succeed), and
-- `live` is the number of blocks allocated and not freed.
pub record Heap : Type 0 where
  pub granted : List Bool
  pub live : ℕ

malloc_next : List Bool → ℕ → Bool × Heap
malloc_next [] live = (true, record { granted = []; live = live + 1 })
malloc_next (true ∷ more) live = (true, record { granted = more; live = live + 1 })
malloc_next (false ∷ more) live = (false, record { granted = more; live = live })

unfoldable pub malloc : Heap → Bool × Heap
unfolding malloc_next
malloc h = malloc_next h.granted h.live

unfoldable pub free : Heap → Heap
free h = record h { live = h.live - 1 }

-- The inner `none` is NULL, the outer one a loop that does not end.
unfoldable pub alloc_replace_initial_substrings :
    Bytes → Bytes → Bytes → Heap → Option (Option Bytes × Heap)
alloc_replace_initial_substrings src old new h =
    let (granted, h1) = malloc h in
    elim (replace_initial_substrings src old new) [
      | none ↦ none
      | some dest ↦ some (if granted then (some dest, h1) else (none, h1))
    ]

-- The `for` of `replace_initial_substring_array`: the strings stored before the loop ended, and
-- whether it went through all of them.
pub fill_array : List Bytes → Bytes → Bytes → Heap → Option ((List Bytes × Bool) × Heap)
fill_array [] old new h = some (([], true), h)
fill_array (src ∷ srcs) old new h = elim (alloc_replace_initial_substrings src old new h) [
  | none ↦ none
  | some (none, h1) ↦ some (([], false), h1)
  | some (some dest, h1) ↦ elim (fill_array srcs old new h1) [
    | none ↦ none
    | some ((dests, full), h2) ↦ some ((dest ∷ dests, full), h2)
  ]
]

free_strings : List Bytes → Heap → Heap
free_strings [] h = h
free_strings (s ∷ ss) h = free_strings ss (free h)

unfoldable pub free_substring_array : List Bytes → Heap → Heap
unfolding free_strings
free_substring_array ss h = free (free_strings ss h)

filled : (List Bytes × Bool) × Heap → Option (List Bytes) × Heap
filled ((dests, true), h) = (some dests, h)
filled ((dests, false), h) = (none, free_substring_array dests h)

unfoldable pub replace_initial_substring_array :
    List Bytes → Bytes → Bytes → Heap → Option (Option (List Bytes) × Heap)
unfolding fill_array filled
replace_initial_substring_array srcs old new h =
    let (granted, h1) = malloc h in
    if granted
    then elim (fill_array srcs old new h1) [ none ↦ none | some r ↦ some (filled r) ]
    else some (none, h1)

-- The directory of the executable, or nothing if that is not known.
unfoldable pub used_cur_abs_path : ExecEnv → Bytes
used_cur_abs_path env =
    let found = get_current_exec_path env [] (path_max + 1) in if found.0 == 0 then found.1 else []

unfoldable pub replace_relative_path_array :
    ExecEnv → List Bytes → Heap → Option (Option (List Bytes) × Heap)
replace_relative_path_array env argv h =
    replace_initial_substring_array argv (codes "./") (used_cur_abs_path env) h
