-- ===== src/Proc/Args/Granted.antt =====
-- The arrays of src/proc_helper.c when every `malloc` succeeds.
use alarm4pi.Prelude.{◌<◌, ◌≡◌, refl, true, Option, some, List, [], ◌∷◌, arith, length}
use alarm4pi.CString.{Bytes, codes}
use alarm4pi.Proc.Substrings.Replace.{replace_initial_substrings-Replaced}
use alarm4pi.Proc.Paths.{ExecEnv}
use alarm4pi.Proc.Args.{
  Heap, malloc, free, alloc_replace_initial_substrings, fill_array, free_strings,
  free_substring_array, filled, replace_initial_substring_array, used_cur_abs_path,
  replace_relative_path_array,
}
use alarm4pi.Proc.Args.Memory.{Outcome, replace_initial_substring_array-Outcome}

-- Every call of `malloc` to come succeeds.
abbrev pub Plenty : Heap → Type 0
Plenty h = h.granted ≡ []

malloc-Plenty : (h : Heap) → Plenty h → ((malloc h).0 ≡ true) × Plenty (malloc h).1
unfolding malloc
malloc-Plenty h p = ground arith

free_strings-Plenty : (ss : List Bytes) (h : Heap) → Plenty h → Plenty (free_strings ss h)
unfolding free_strings free
free_strings-Plenty [] h p = p
free_strings-Plenty (s ∷ ss) h p = free_strings-Plenty ss (free h) p

pub free_substring_array-Plenty :
    (ss : List Bytes) (h : Heap) → Plenty h → Plenty (free_substring_array ss h)
unfolding free_substring_array free
free_substring_array-Plenty ss h p = free_strings-Plenty ss h p

module _ (old new : Bytes) (ne : 0 < length old) where
  fill_array-Plenty :
      (srcs : List Bytes) (h : Heap)
      → Plenty h
      → (outs : List Bytes) × (h' : Heap) × (fill_array srcs old new h ≡ some ((outs, true), h'))
        × Plenty h'
  unfolding fill_array alloc_replace_initial_substrings
  fill_array-Plenty [] h p = ([], h, refl, p)
  fill_array-Plenty (src ∷ srcs) h p =
      let (out, e, _) = replace_initial_substrings-Replaced src old new ne in
      let (g, p1) = malloc-Plenty h p in
      let (outs, h', e', p') = fill_array-Plenty srcs (malloc h).1 p1 in
      (out ∷ outs, h', rw (e, fill_array, alloc_replace_initial_substrings, g) (ground arith), p')

  replace_initial_substring_array-Plenty :
      (srcs : List Bytes) (h : Heap)
      → Plenty h
      → (outs : List Bytes) × (h' : Heap) × (replace_initial_substring_array srcs old new h
          ≡ some (some outs, h'))
        × Plenty h'
  unfolding replace_initial_substring_array filled
  replace_initial_substring_array-Plenty srcs h p =
      let (g, p1) = malloc-Plenty h p in
      let (outs, h', e', p') = fill_array-Plenty srcs (malloc h).1 p1 in
      (outs, h', ground arith, p')

-- What a caller of `replace_relative_path_array` gets, whatever the allocator answers.
pub replace_relative_path_array-Outcome :
    (env : ExecEnv) (argv : List Bytes) (h : Heap)
    → (r : Option (List Bytes)) × (h' : Heap) × (replace_relative_path_array env argv h
        ≡ some (r, h'))
      × Outcome (codes "./") (used_cur_abs_path env) argv h r h'
unfolding replace_relative_path_array
replace_relative_path_array-Outcome env argv h =
    replace_initial_substring_array-Outcome (codes "./") (used_cur_abs_path env) (omega arith) argv
      h

pub replace_relative_path_array-Plenty :
    (env : ExecEnv) (argv : List Bytes) (h : Heap)
    → Plenty h
    → (outs : List Bytes) × (h' : Heap) × (replace_relative_path_array env argv h
        ≡ some (some outs, h'))
      × Plenty h'
unfolding replace_relative_path_array
replace_relative_path_array-Plenty env argv h p =
    replace_initial_substring_array-Plenty (codes "./") (used_cur_abs_path env) (omega arith) argv h
      p
