-- ===== src/Prelude/Int.antt =====
-- A signed C `int`, as the code compares and tests it: `negsuc n` is -(n + 1).
use Prim.Native.Nat.{ℕ}
use mathlib.Core.Path.{◌≡◌, ap}
use mathlib.Core.Bool.{Bool, true, false}
use native.Mathlib.Omega.{arith}
use alarm4pi.Prelude.Tests.{◌==◌}

pub data ℤ : Type 0 where
  pos : ℕ → ℤ
  negsuc : ℕ → ℤ

-- a == b
abbrev pub eq_ℤ : ℤ → ℤ → Bool
eq_ℤ (pos a) (pos b) = a == b
eq_ℤ (negsuc a) (negsuc b) = a == b
eq_ℤ (pos a) (negsuc b) = false
eq_ℤ (negsuc a) (pos b) = false

abbrev pub minus_one : ℤ
minus_one = negsuc 0

pub eq_ℤ→pos : (a : ℤ) (n : ℕ) → eq_ℤ a (pos n) ≡ true → a ≡ pos n
eq_ℤ→pos (pos a) n h = ap pos (ground arith)
eq_ℤ→pos (negsuc a) n h = absurd (cc h)

pub eq_ℤ→≡ : (a b : ℤ) → eq_ℤ a b ≡ true → a ≡ b
eq_ℤ→≡ (pos a) (pos b) h = ap pos (ground arith)
eq_ℤ→≡ (negsuc a) (negsuc b) h = ap negsuc (ground arith)
eq_ℤ→≡ (pos a) (negsuc b) h = absurd (cc h)
eq_ℤ→≡ (negsuc a) (pos b) h = absurd (cc h)
