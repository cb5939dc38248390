-- ===== src/Proc/Args/Memory.antt =====
-- The blocks that the arrays of src/proc_helper.c allocate and free.
use alarm4pi.Prelude.{
  suc, ◌+◌, ◌-◌, ◌<◌, ◌≡◌, refl, Bool, true, false, Option, none, some, List, [], ◌∷◌, arith,
  length, Bool-cases, inl, inr, ◌⊎◌, ap, if◌then◌else◌,
}
use alarm4pi.CString.{Bytes}
use alarm4pi.Proc.Substrings.Replace.{Replaced, replace_initial_substrings-Replaced}
use alarm4pi.Proc.Args.{
  Heap, malloc, free, alloc_replace_initial_substrings, fill_array, free_strings,
  free_substring_array, filled, replace_initial_substring_array,
}

-- Each string of the second list is the replacement of the one of the first at its place.
pub data AllReplaced (old new : Bytes) : List Bytes → List Bytes → Type 0 where
  nil : AllReplaced old new [] []
  cons :
      {src out : Bytes} {srcs outs : List Bytes}
      → Replaced old new src out
      → AllReplaced old new srcs outs
      → AllReplaced old new (src ∷ srcs) (out ∷ outs)

live-free_strings : (ss : List Bytes) (h : Heap) → (free_strings ss h).live ≡ h.live - length ss
unfolding free_strings free
live-free_strings [] h = omega arith
live-free_strings (s ∷ ss) h = omega (arith, live-free_strings ss (free h))

live-malloc : (h : Heap) → (malloc h).1.live ≡ (if (malloc h).0 then h.live + 1 else h.live)
unfolding malloc
live-malloc h = ground arith

-- What the caller of `replace_initial_substring_array` gets.
abbrev pub Outcome : Bytes → Bytes → List Bytes → Heap → Option (List Bytes) → Heap → Type 0
Outcome old new srcs h none h' = h'.live ≡ h.live
Outcome old new srcs h (some outs) h' =
    AllReplaced old new srcs outs
    × (h'.live ≡ h.live + 1 + length srcs)
    × ((free_substring_array outs h').live ≡ h.live)

module _ (old new : Bytes) (ne : 0 < length old) where
  -- One string: either it is replaced in a new block, or nothing is allocated.
  AllocEnd : Bytes → Heap → Type 0
  AllocEnd src h =
      ((out : Bytes) × (h' : Heap) × (alloc_replace_initial_substrings src old new h
          ≡ some (some out, h'))
        × Replaced old new src out
        × (h'.live ≡ h.live + 1))
      ⊎ ((h' : Heap) × (alloc_replace_initial_substrings src old new h ≡ some (none, h'))
          × (h'.live ≡ h.live))

  alloc_replace_initial_substrings-AllocEnd : (src : Bytes) (h : Heap) → AllocEnd src h
  unfolding alloc_replace_initial_substrings AllocEnd
  alloc_replace_initial_substrings-AllocEnd src h =
      let (out, e, r) = replace_initial_substrings-Replaced src old new ne in
      elim (Bool-cases (malloc h).0) [
        | inl g ↦ inl (
          out,
          (malloc h).1,
          rw (e, g, alloc_replace_initial_substrings),
          r,
          ground (arith, live-malloc h),
        )
        | inr g ↦ inr (
          (malloc h).1,
          rw (e, g, alloc_replace_initial_substrings),
          ground (arith, live-malloc h),
        )
      ]

  record FillEnd (srcs : List Bytes) (h : Heap) : Type 0 where
    dests : List Bytes
    full : Bool
    after : Heap
    fills : fill_array srcs old new h ≡ some ((dests, full), after)
    live : after.live ≡ h.live + length dests
    all : full ≡ true → AllReplaced old new srcs dests × (length dests ≡ length srcs)

  fill_array-FillEnd : (srcs : List Bytes) (h : Heap) → FillEnd srcs h
  unfolding fill_array AllocEnd
  fill_array-FillEnd [] h = record {
    dests = [];
    full = true;
    after = h;
    fills = refl;
    live = omega arith;
    all = λ _. (nil, refl);
  }
  fill_array-FillEnd (src ∷ srcs) h = elim (alloc_replace_initial_substrings-AllocEnd src h) [
    | inl (out, h1, e, r, l) ↦
        let f = fill_array-FillEnd srcs h1 in
        record {
          dests = out ∷ f.dests;
          full = f.full;
          after = f.after;
          fills = rw (e, fill_array, f.fills);
          live = omega (arith, f.live);
          all = λ t. (cons r (f.all t).0, ap suc (f.all t).1);
        }
    | inr (h1, e, l) ↦ record {
      dests = [];
      full = false;
      after = h1;
      fills = rw (e, fill_array);
      live = omega arith;
      all = λ t. cc;
    }
  ]

  filled-Outcome :
      (srcs : List Bytes) (h h1 : Heap)
      → h1.live ≡ h.live + 1
      → (f : FillEnd srcs h1) → (b : Bool) → f.full ≡ b
      → Outcome old new srcs h (filled ((f.dests, b), f.after)).0 (filled ((f.dests, b), f.after)).1
  unfolding filled free_substring_array free
  filled-Outcome srcs h h1 l f true t = (
    (f.all t).0,
    omega (arith, f.live, (f.all t).1),
    omega (arith, f.live, (f.all t).1, live-free_strings f.dests f.after),
  )
  filled-Outcome srcs h h1 l f false t = omega (arith, f.live, live-free_strings f.dests f.after)

  -- Whatever the allocator answers, `replace_initial_substring_array` ends. It returns NULL and
  -- leaves no block behind, or it returns the replacements of all the strings, holds one block for
  -- each and one for the array, and `free_substring_array` gives them all back.
  pub replace_initial_substring_array-Outcome :
      (srcs : List Bytes) (h : Heap)
      → (r : Option (List Bytes)) × (h' : Heap) × (replace_initial_substring_array srcs old new h
          ≡ some (r, h'))
        × Outcome old new srcs h r h'
  unfolding replace_initial_substring_array
  replace_initial_substring_array-Outcome srcs h =
      let f = fill_array-FillEnd srcs (malloc h).1 in
      let r = filled ((f.dests, f.full), f.after) in
      elim (Bool-cases (malloc h).0) [
        | inl g ↦ (
          r.0,
          r.1,
          ground (arith, f.fills),
          filled-Outcome srcs h (malloc h).1 (ground (arith, live-malloc h)) f f.full refl,
        )
        | inr g ↦ (none, (malloc h).1, ground arith, ground (arith, live-malloc h))
      ]
