-- ===== src/Prelude/Handles.antt =====
-- The objects that calls of other libraries hand out.
use Prim.Native.Nat.{ℕ}
use mathlib.Core.Bool.{Bool, true, false}
use mathlib.Core.Option.{Option, none, some}

-- The objects that a call which may return NULL hands out.
abbrev pub handed {ℓ} : {A : Type ℓ} → Option A → ℕ
handed none = 0
handed (some a) = 1

abbrev pub handed_if : Bool → ℕ
handed_if true = 1
handed_if false = 0
