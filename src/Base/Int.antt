-- ===== src/Base/Int.antt =====
-- Go's signed `int`, as far as the program decides by its sign or prints it: an integer without
-- wrap-around. `negsuc n` is -(n + 1).
use Prim.Native.Nat.{ℕ}
use mathlib.Core.Bool.{Bool, true}
use husky_ci.Base.Tests.{ltb}

pub data ℤ : Type 0 where
  pos : ℕ → ℤ
  negsuc : ℕ → ℤ

-- `z < n` for a constant `n` of the source.
abbrev pub lt_const : ℤ → ℕ → Bool
lt_const (pos a) n = ltb a n
lt_const (negsuc a) n = true

-- The rounds of `for i := 0; i < z; i++`.
abbrev pub rounds : ℤ → ℕ
rounds (pos n) = n
rounds (negsuc n) = 0
