-- ===== src/Prelude/Floats.antt =====
-- What the source uses of float64: constants, the conversion of uint64 values and one division,
-- rounded to nearest even as IEEE 754 binary64 says.
use Prim.Native.Nat.{ℕ, zero, suc, ◌*◌, ◌/◌, ◌%◌, ◌^◌}
use mathlib.Core.Bool.{Bool, true, false, ◌&&◌, ◌||◌}
use keelith.Prelude.Tests.{ltb, leb, ◌==◌, if◌then◌else◌}
use keelith.Prelude.Int.{ℤ, pos, negsuc}

-- A float64; `finite s e` is s / 2 ^ e.
pub data Float : Type 0 where
  nan : Float
  positive_infinity : Float
  negative_infinity : Float
  finite : ℤ → ℕ → Float

-- x <= 0
unfoldable pub not_positive : Float → Bool
not_positive nan = false
not_positive positive_infinity = false
not_positive negative_infinity = true
not_positive (finite (pos n) e) = n == 0
not_positive (finite (negsuc n) e) = true

-- x > 1
unfoldable pub above_one : Float → Bool
above_one nan = false
above_one positive_infinity = true
above_one negative_infinity = false
above_one (finite (pos n) e) = ltb (2 ^ e) n
above_one (finite (negsuc n) e) = false

-- The 53 bits of a significand.
abbrev two52 : ℕ
two52 = 4503599627370496

abbrev two53 : ℕ
two53 = 9007199254740992

-- n / d rounded to an integer, a tie to the even one.
unfoldable pub round_half_even : ℕ → ℕ → ℕ
round_half_even n d =
    let q = n / d in let r = n % d in if ltb d (2 * r) || 2 * r == d && q % 2 == 1 then suc q else q

-- float64(n) of a uint64: below 2 ^ 53 exact, else a multiple of a power of two. The spacing of
-- a uint64 is at most 2 ^ 11, so eleven doublings are enough.
unfoldable pub from_u64_at : ℕ → ℕ → ℕ → ℕ
unfolding round_half_even
from_u64_at zero spacing n = round_half_even n spacing * spacing
from_u64_at (suc fuel) spacing n =
    let rest = from_u64_at fuel (2 * spacing) n in
    if ltb n (two53 * spacing) then round_half_even n spacing * spacing else rest

unfoldable pub from_u64 : ℕ → ℕ
unfolding from_u64_at
from_u64 = from_u64_at 11 1

-- The quotient of 0 < n and 0 < d as a significand over 2 ^ e. Both are at most 2 ^ 64, so that
-- 117 doublings bring the significand to 53 bits.
unfoldable pub quotient_at : ℕ → ℕ → ℕ → ℕ → ℕ × ℕ
unfolding round_half_even
quotient_at zero e n d = (round_half_even n d, e)
quotient_at (suc fuel) e n d =
    let rest = quotient_at fuel (suc e) (2 * n) d in
    if leb (two52 * d) n then (round_half_even n d, e) else rest

unfoldable pub quotient : ℕ → ℕ → ℕ × ℕ
unfolding quotient_at
quotient = quotient_at 117 0

-- float64(n) / float64(d) >= x, for n ≤ d and 0 < d.
unfoldable pub ratio_reaches : ℕ → ℕ → Float → Bool
unfolding from_u64 quotient
ratio_reaches n d nan = false
ratio_reaches n d positive_infinity = false
ratio_reaches n d negative_infinity = true
ratio_reaches n d (finite (negsuc s) e) = true
ratio_reaches n d (finite (pos s) e) =
    if n == 0
    then s == 0
    else (let q = quotient (from_u64 n) (from_u64 d) in leb (s * 2 ^ q.1) (q.0 * 2 ^ e))
