-- ===== src/Proc/Substrings/Replace.antt =====
-- `replace_initial_substrings` of src/proc_helper.c against a relation, and the size that
-- `alloc_replace_initial_substrings` allocates for its result.
use mathlib.Core.List.{append_assoc}
use alarm4pi.Prelude.{
  ℕ, zero, suc, ◌+◌, ◌-◌, ◌*◌, ◌^◌, ◌≤◌, ◌<◌, ◌≡◌, ap, none, some, arith, length, drop, take, [],
  ◌++◌, length-drop, length-take, length-append, inl, inr, ◌∙◌,
}
use native.Mathlib.Nat.{mul-le-mul_right}
use alarm4pi.CString.{Bytes}
use alarm4pi.Proc.Substrings.{
  count_from, count_initial_substrings, replace_from, replace_initial_substrings, alloc_size,
  size_t,
}
use alarm4pi.Proc.Substrings.FirstWord.{IsFirst, FirstFound-cases, starts_with-fits}

-- `out` is `src` with each occurrence of `old` at the start of a word replaced by `new`, where the
-- rest after an occurrence is taken as a text of its own.
pub data Replaced (old new : Bytes) : Bytes → Bytes → Type 0 where
  rest : (src : Bytes) → IsFirst src old none → Replaced old new src src
  hit :
      (src out : Bytes) (k : ℕ)
      → IsFirst src old (some k)
      → Replaced old new (drop (k + length old) src) out
      → Replaced old new src (take k src ++ (new ++ out))

module _ (old new : Bytes) where
  -- What the two loops do from the same suffix, with enough fuel.
  record Steps (fuel n_strs : ℕ) (dest src : Bytes) : Type 0 where
    count : ℕ
    out : Bytes
    counted : count_from fuel src old n_strs ≡ some (n_strs + count)
    written : replace_from fuel dest src old new ≡ some (dest ++ out)
    replaced : Replaced old new src out
    room : count * length old ≤ length src
    size : length out + count * length old ≡ length src + count * length new

  steps :
      (fuel n_strs : ℕ) (dest src : Bytes)
      → 0 < length old
      → length src < fuel
      → Steps fuel n_strs dest src
  unfolding count_from replace_from
  steps zero n_strs dest src ne enough = absurd (omega arith)
  steps (suc fuel) n_strs dest src ne enough = elim (FirstFound-cases src old ne) [
    | inl (e, first) ↦ record {
      count = 0;
      out = src;
      counted = rw (e, count_from) (ground arith);
      written = rw (e, replace_from);
      replaced = rest src first;
      room = omega arith;
      size = omega arith;
    }
    | inr (k, (e, first)) ↦
        let fits = starts_with-fits old src k ne first.0.0 in
        let later =
          steps fuel (n_strs + 1) ((dest ++ take k src) ++ new) (drop (k + length old) src) ne
            (omega (arith, fits, length-drop (k + length old) src)) in
        record {
          count = later.count + 1;
          out = take k src ++ (new ++ later.out);
          counted = rw (e, count_from, later.counted) (ground arith);
          written = rw (e, replace_from, later.written) (simp append_assoc);
          replaced = hit src later.out k first later.replaced;
          room = omega (arith, fits, later.room, length-drop (k + length old) src);
          size = omega (
            arith,
            fits,
            later.size,
            length-drop (k + length old) src,
            length-take k src,
            length-append (take k src) (new ++ later.out),
            length-append new later.out,
          );
        }
  ]

-- For an `old` that is not empty `replace_initial_substrings` ends, and what it writes is the
-- source with each occurrence of `old` at the start of a word replaced, where the text behind an
-- occurrence counts as the start of a text: of two occurrences in a row both are replaced.
pub replace_initial_substrings-Replaced :
    (src old new : Bytes)
    → 0 < length old
    → (out : Bytes) × (replace_initial_substrings src old new ≡ some out) × Replaced old new src out
unfolding replace_initial_substrings
replace_initial_substrings-Replaced src old new ne =
    let s = steps old new (suc (length src)) 0 [] src ne (omega arith) in
    (s.out, s.written, s.replaced)

size_t_fits : (n : ℕ) → n < 2 ^ 32 → size_t n ≡ n
size_t_fits n lt = omega arith

size_t_wraps : (n : ℕ) → n < 2 ^ 32 → size_t (n + 2 ^ 32) ≡ n
size_t_wraps n lt = omega arith

-- No step of the computation loses anything when its result fits.
size_t_sum :
    (len freed added : ℕ)
    → freed ≤ len
    → len < 2 ^ 32
    → len - freed + added + 1 < 2 ^ 32
    → size_t (size_t (size_t (len + (2 ^ 32 - size_t freed)) + size_t added) + 1)
      ≡ len - freed + added + 1
size_t_sum len freed added le lt fits = omega arith

alloc_size-count :
    (src old new : Bytes) (n : ℕ)
    → count_initial_substrings src old ≡ some n
    → n * length old ≤ length src
    → length src < 2 ^ 32
    → length src - n * length old + n * length new + 1 < 2 ^ 32
    → alloc_size src old new ≡ some (length src - n * length old + n * length new + 1)
unfolding alloc_size
alloc_size-count src old new n e le lt fits =
    rw (e, alloc_size)
      (ap some (size_t_sum (length src) (n * length old) (n * length new) le lt fits))

count-le : (n len old : ℕ) → 0 < old → n * old ≤ len → n ≤ len
count-le n len zero ne le = absurd (omega arith)
count-le n len (suc old) ne le = omega (arith, le)

-- For an `old` that is not empty, when the source would fit in 2^32 - 1 bytes with `new` put in as
-- often as it has bytes: both loops end, the occurrences counted fit in the source, and the size
-- asked for, computed in a `size_t` of 32 bits, is exactly that of the text written and its
-- terminating 0.
pub alloc_size_exact :
    (src old new : Bytes)
    → 0 < length old
    → length src + length src * length new + 1 < 2 ^ 32
    → (n : ℕ) × (out : Bytes) × (count_initial_substrings src old ≡ some n)
      × (n * length old ≤ length src)
      × (replace_initial_substrings src old new ≡ some out)
      × (alloc_size src old new ≡ some (length out + 1))
unfolding count_initial_substrings replace_initial_substrings
alloc_size_exact src old new ne small =
    let s = steps old new (suc (length src)) 0 [] src ne (omega arith) in
    let n_eq : 0 + s.count ≡ s.count = omega arith in
    let few =
      mul-le-mul_right (length new) (count-le s.count (length src) (length old) ne s.room) in
    (
      s.count,
      s.out,
      s.counted ∙ ap some n_eq,
      s.room,
      s.written,
      alloc_size-count src old new s.count (s.counted ∙ ap some n_eq) s.room (omega arith)
            (omega (arith, few))
          ∙ ap some (omega (arith, s.size, s.room)),
    )
