-- ===== src/Common/Float.antt =====
-- Go's float64 is a parameter: the operations that the code uses, with the one law of IEEE comparison
-- that theorems use. There is no NaN among the values that the code reads from JSON.
use Prim.Native.Nat.{ℕ}
use foliot.Common.Int.{ℤ}
use mathlib.Core.Path.{◌≡◌}
use mathlib.Core.Bool.{Bool, true}

pub record Float : Type 1 where
  pub F : Type 0
  pub zero_f : F
  pub add : F → F → F
  pub sub : F → F → F
  pub mul : F → F → F
  pub div : F → F → F
  pub of_ℕ : ℕ → F
  pub of_ℤ : ℤ → F
  pub lt_f : F → F → Bool  -- a < b
  pub le_f : F → F → Bool  -- a <= b
  pub not_lt : (a b : F) → lt_f a b ≡ Bool.false → le_f b a ≡ true
