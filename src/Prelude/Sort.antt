-- ===== src/Prelude/Sort.antt =====
-- sort.Strings: the strings in bytewise order.
use Prim.Native.Nat.{suc}
use mathlib.Core.Path.{◌≡◌, refl}
use mathlib.Core.List.{List, [], ◌∷◌}
use native.Mathlib.Omega.{arith}
use keelith.Prelude.Tests.{if◌then◌else◌}
use keelith.Prelude.Lists.{length, All}
use keelith.Prelude.Text.{Text, text_lt}

unfoldable pub place : Text → List Text → List Text
place s [] = s ∷ []
place s (t ∷ ts) = if text_lt t s then t ∷ place s ts else s ∷ t ∷ ts

unfoldable pub sort : List Text → List Text
unfolding place
sort [] = []
sort (s ∷ ss) = place s (sort ss)

length-place : (s : Text) (ts : List Text) → length (place s ts) ≡ suc (length ts)
unfolding place
length-place s [] = refl
length-place s (t ∷ ts) = ground (arith, length-place s ts)

pub length-sort : (ts : List Text) → length (sort ts) ≡ length ts
unfolding sort
length-sort [] = refl
length-sort (t ∷ ts) = omega (arith, length-place t (sort ts), length-sort ts)

place-All {κ} :
    (P : Text → Type κ) (s : Text) (ts : List Text) → P s → All P ts → All P (place s ts)
unfolding place
place-All P s [] p h = (p, tt)
place-All P s (t ∷ ts) p h = ground (arith, place-All P s ts p h.1)

pub sort-All {κ} : (P : Text → Type κ) (ts : List Text) → All P ts → All P (sort ts)
unfolding sort
sort-All P [] h = tt
sort-All P (t ∷ ts) h = place-All P t (sort ts) h.0 (sort-All P ts h.1)
