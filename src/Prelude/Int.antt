-- ===== src/Prelude/Int.antt =====
-- Go's int and time.Duration: signed integers, under the library's name. Their range is not
-- bounded here.
use Prim.Native.Nat.{ℕ, zero, suc}
use mathlib.Core.Bool.{Bool, true, false}
use keelith.Prelude.Tests.{ltb, leb}

-- `negsuc n` is -(n + 1).
pub data ℤ : Type 0 where
  pos : ℕ → ℤ
  negsuc : ℕ → ℤ

-- 0 < a
abbrev pub is_pos : ℤ → Bool
is_pos (pos n) = ltb 0 n
is_pos (negsuc _) = false

abbrev pub is_neg : ℤ → Bool
is_neg (pos _) = false
is_neg (negsuc _) = true

-- a ≤ n, a < n and n ≤ a, for a signed a and a natural n.
abbrev pub le_nat : ℤ → ℕ → Bool
le_nat (pos a) n = leb a n
le_nat (negsuc _) n = true

abbrev pub lt_nat : ℤ → ℕ → Bool
lt_nat (pos a) n = ltb a n
lt_nat (negsuc _) n = true

-- The natural number of a value that has been tested to be non-negative.
abbrev pub to_nat : ℤ → ℕ
to_nat (pos n) = n
to_nat (negsuc _) = 0

-- a + 1 and a - 1
abbrev pub succ : ℤ → ℤ
succ (pos n) = pos (suc n)
succ (negsuc zero) = pos 0
succ (negsuc (suc n)) = negsuc n

abbrev pub pred : ℤ → ℤ
pred (pos zero) = negsuc 0
pred (pos (suc n)) = pos n
pred (negsuc n) = negsuc (suc n)
