-- ===== src/Proc/Substrings/FirstWord.antt =====
-- `initial_strstr` of src/proc_helper.c: which occurrence it finds.
use native.Mathlib.Decide.{dec_lt}
use alarm4pi.Prelude.{
  ℕ, zero, suc, ◌+◌, ◌-◌, ◌≤◌, ◌<◌, ◌≡◌, ap, Bool, true, false, Option, none, some, arith, length,
  drop, get_or, if◌then◌else◌, Bool-cases, Option-cases, inl, inr, ◌⊎◌, length-drop, ◌==◌,
}
use alarm4pi.CString.{Bytes, starts_with, strstr}
use alarm4pi.CString.Search.{
  drop-drop, starts_with-length, strstr-starts_with, strstr-before, strstr-none,
}
use alarm4pi.Proc.Substrings.{initial_strstr, initial_strstr_from}

-- The byte before `i` is a space, or there is none.
abbrev pub word_start : Bytes → ℕ → Bool
word_start str i = if i == 0 then true else get_or str (i - 1) 0 == 32

abbrev pub Occurs : Bytes → Bytes → ℕ → Type 0
Occurs str sub i = (starts_with sub (drop i str) ≡ true) × (word_start str i ≡ true)

abbrev pub IsFirst : Bytes → Bytes → Option ℕ → Type 0
IsFirst str sub none = (j : ℕ) → ¬ (Occurs str sub j)
IsFirst str sub (some i) = Occurs str sub i × ((j : ℕ) → j < i → ¬ (Occurs str sub j))

pub starts_with-fits :
    (sub str : Bytes) (i : ℕ)
    → 0 < length sub
    → starts_with sub (drop i str) ≡ true
    → i + length sub ≤ length str
starts_with-fits sub str i ne h =
    omega (arith, starts_with-length sub (drop i str) h, length-drop i str)

module _ (str sub : Bytes) where
  -- Nothing before the occurrence that `strstr` finds from `at` on.
  none_before :
      (at k : ℕ)
      → strstr (drop at str) sub ≡ some k
      → ((j : ℕ) → j < at → ¬ (Occurs str sub j))
      → (j : ℕ) → j < at + k
      → ¬ (Occurs str sub j)
  none_before at k e h j lt o = elim (dec_lt j at) [
    | yes below ↦ h j below o
    | no above ↦
        let back : at + (j - at) ≡ j = omega arith in
        let clash : starts_with sub (drop (at + (j - at)) str) ≡ false =
          rw (← drop-drop (j - at) at str)
            (strstr-before (drop at str) sub k (j - at) e (omega arith)) in
        cc (o.0, ap (λ (m : ℕ). starts_with sub (drop m str)) back, clash)
  ]

  none_after :
      (at : ℕ)
      → strstr (drop at str) sub ≡ none
      → ((j : ℕ) → j < at → ¬ (Occurs str sub j))
      → (j : ℕ) → ¬ (Occurs str sub j)
  none_after at e h j o = elim (dec_lt j at) [
    | yes below ↦ h j below o
    | no above ↦
        let back : at + (j - at) ≡ j = omega arith in
        let clash : starts_with sub (drop (at + (j - at)) str) ≡ false =
          rw (← drop-drop (j - at) at str) (strstr-none (drop at str) sub (j - at) e) in
        cc (o.0, ap (λ (m : ℕ). starts_with sub (drop m str)) back, clash)
  ]

  none_past :
      (i : ℕ)
      → word_start str i ≡ false
      → ((j : ℕ) → j < i → ¬ (Occurs str sub j))
      → (j : ℕ) → j < i + 1
      → ¬ (Occurs str sub j)
  none_past i w h j lt o = elim (dec_lt j i) [
    | yes below ↦ h j below o
    | no above ↦
        let same : j ≡ i = omega arith in cc (o.1, ap (λ (m : ℕ). word_start str m) same, w)
  ]

  initial_strstr_from-IsFirst :
      (fuel at : ℕ)
      → 0 < length sub
      → at ≤ length str
      → length str < at + fuel
      → ((j : ℕ) → j < at → ¬ (Occurs str sub j))
      → (r : Option ℕ) × (initial_strstr_from fuel str sub at ≡ some r) × IsFirst str sub r
  unfolding initial_strstr_from
  initial_strstr_from-IsFirst zero at ne le enough h = absurd (omega arith)
  initial_strstr_from-IsFirst (suc fuel) at ne le enough h =
      elim (Option-cases (strstr (drop at str) sub)) [
        | inl e ↦ (none, rw (e, initial_strstr_from), none_after at e h)
        | inr (k, e) ↦
            let found : starts_with sub (drop (at + k) str) ≡ true =
              rw (← drop-drop k at str) (strstr-starts_with (drop at str) sub k e) in
            elim (Bool-cases (word_start str (at + k))) [
              | inl w ↦ (some (at + k), ground arith, ((found, w), none_before at k e h))
              | inr w ↦
                  let (r, p, q) =
                    initial_strstr_from-IsFirst fuel (at + k + 1) ne
                      (omega (arith, starts_with-fits sub str (at + k) ne found)) (omega arith)
                      (none_past (at + k) w (none_before at k e h)) in
                  (r, ground arith, q)
            ]
      ]

  -- For a substring that is not empty the search ends, with the first occurrence that starts a
  -- word, or with none if there is no such occurrence.
  pub initial_strstr-IsFirst :
      0 < length sub → (r : Option ℕ) × (initial_strstr str sub ≡ some r) × IsFirst str sub r
  unfolding initial_strstr
  initial_strstr-IsFirst ne =
      initial_strstr_from-IsFirst (suc (length str)) 0 ne (omega arith) (omega arith)
        (λ j lt o. absurd (omega arith))

-- The same by cases, for a split in the loops that call `initial_strstr`.
abbrev pub FirstFound : Bytes → Bytes → Option ℕ → Type 0
FirstFound str sub r = (initial_strstr str sub ≡ some r) × IsFirst str sub r

FirstFound-split :
    (str sub : Bytes) (r : Option ℕ)
    → FirstFound str sub r
    → FirstFound str sub none ⊎ ((k : ℕ) × FirstFound str sub (some k))
FirstFound-split str sub none s = inl s
FirstFound-split str sub (some k) s = inr (k, s)

pub FirstFound-cases :
    (str sub : Bytes)
    → 0 < length sub
    → FirstFound str sub none ⊎ ((k : ℕ) × FirstFound str sub (some k))
FirstFound-cases str sub ne =
    let (r, e, first) = initial_strstr-IsFirst str sub ne in FirstFound-split str sub r (e, first)
