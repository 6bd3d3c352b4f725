-- ===== src/Tests/Numbers.antt =====
-- Natural numbers as the float64 of the examples.
use Prim.Native.Nat.{◌*◌}
use foliot.Common.{ℕ, ℤ, pos, negsuc, ◌+◌, ◌-◌, ◌/◌, ◌≡◌, true, false, ltb, leb, arith}
use foliot.Common.Float.{Float}

abbrev pub of_ℤ : ℤ → ℕ
of_ℤ (pos n) = n
of_ℤ (negsuc n) = 0

pub not_lt : (a b : ℕ) → ltb a b ≡ false → leb b a ≡ true
not_lt a b h = ground (arith, h)

abbrev pub numbers : Float
numbers = record {
  F = ℕ;
  zero_f = 0;
  add = λ a b. a + b;
  sub = λ a b. a - b;
  mul = λ a b. a * b;
  div = λ a b. a / b;
  of_ℕ = λ n. n;
  of_ℤ = of_ℤ;
  lt_f = ltb;
  le_f = leb;
  not_lt = not_lt;
}
