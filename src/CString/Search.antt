-- ===== src/CString/Search.antt =====
-- What `strstr` and `starts_with` find.
use alarm4pi.Prelude.{
  ℕ, zero, suc, ◌+◌, ◌≤◌, ◌<◌, ◌≡◌, refl, true, false, none, some, [], ◌∷◌, arith, length, drop,
}
use native.Mathlib.Nat.{zero-add, suc-add}
use alarm4pi.CString.{Bytes, starts_with, strstr}

pub drop-nil : (j : ℕ) → drop {A = ℕ} j [] ≡ []
drop-nil zero = refl
drop-nil (suc j) = refl

pub drop-drop : (j i : ℕ) (s : Bytes) → drop j (drop i s) ≡ drop (i + j) s
drop-drop j zero s = rw zero-add
drop-drop j (suc i) [] = rw (suc-add, drop-nil)
drop-drop j (suc i) (c ∷ s) = rw suc-add (drop-drop j i s)

pub starts_with-length : (p s : Bytes) → starts_with p s ≡ true → length p ≤ length s
unfolding starts_with
starts_with-length [] s h = omega arith
starts_with-length (c ∷ p) [] h = cc
starts_with-length (c ∷ p) (d ∷ s) h = ground (arith, starts_with-length p s)

-- `strstr` points at an occurrence, and none is before it.
pub strstr-starts_with :
    (s sub : Bytes) (k : ℕ) → strstr s sub ≡ some k → starts_with sub (drop k s) ≡ true
unfolding strstr
strstr-starts_with [] sub zero h = ground arith
strstr-starts_with [] sub (suc k) h = ground arith
strstr-starts_with (c ∷ s) sub zero h = ground arith
strstr-starts_with (c ∷ s) sub (suc k) h = ground (arith, strstr-starts_with s sub k)

pub strstr-before :
    (s sub : Bytes) (k j : ℕ) → strstr s sub ≡ some k → j < k → starts_with sub (drop j s) ≡ false
unfolding strstr
strstr-before [] sub k j h lt = ground arith
strstr-before (c ∷ s) sub k zero h lt = ground arith
strstr-before (c ∷ s) sub zero (suc j) h lt = absurd (omega arith)
strstr-before (c ∷ s) sub (suc k) (suc j) h lt = ground (arith, strstr-before s sub k j)

pub strstr-none : (s sub : Bytes) (j : ℕ) → strstr s sub ≡ none → starts_with sub (drop j s) ≡ false
unfolding strstr
strstr-none [] sub j h = rw drop-nil (ground arith)
strstr-none (c ∷ s) sub zero h = ground arith
strstr-none (c ∷ s) sub (suc j) h = ground (arith, strstr-none s sub j)
