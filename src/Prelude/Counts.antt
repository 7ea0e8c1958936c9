-- ===== src/Prelude/Counts.antt =====
-- How often a string stands in a list: what sorting keeps, and what measures lists without
-- repetition.
use Prim.Native.Nat.{ℕ, suc, ◌+◌, ◌≤◌, ◌<◌}
use mathlib.Core.Path.{◌≡◌, refl}
use mathlib.Core.Logic.{inl, inr}
use mathlib.Core.Bool.{false}
use mathlib.Core.List.{List, [], ◌∷◌, ◌++◌}
use native.Mathlib.Omega.{arith}
use keelith.Prelude.Tests.{if◌then◌else◌, Bool-cases}
use keelith.Prelude.Lists.{length}
use keelith.Prelude.Text.{Text, text_eq, text_eq_iff, text_eq_refl}
use keelith.Prelude.Sort.{place, sort}

-- 1 for the same string, 0 for another.
unfoldable pub same : Text → Text → ℕ
same x y = if text_eq x y then 1 else 0

unfoldable pub occurs : Text → List Text → ℕ
unfolding same
occurs x [] = 0
occurs x (y ∷ ys) = same y x + occurs x ys

pub same_self : (x : Text) → same x x ≡ 1
unfolding same
same_self x = rw (text_eq_refl x) refl

pub same_other : (x y : Text) → text_eq x y ≡ false → same x y ≡ 0
unfolding same
same_other x y e = rw e refl

pub same_iff : (x y : Text) → same x y ≡ 1 → x ≡ y
unfolding same
same_iff x y e = ground (arith, text_eq_iff x y, e)

pub occurs-append : (x : Text) (xs ys : List Text) → occurs x (xs ++ ys) ≡ occurs x xs + occurs x ys
unfolding occurs
occurs-append x [] ys = omega arith
occurs-append x (y ∷ xs) ys = omega (arith, occurs-append x xs ys)

occurs-place : (x y : Text) (ys : List Text) → occurs x (place y ys) ≡ same y x + occurs x ys
unfolding occurs place
occurs-place x y [] = refl
occurs-place x y (z ∷ ys) = ground (arith, occurs-place x y ys)

pub occurs-sort : (x : Text) (ys : List Text) → occurs x (sort ys) ≡ occurs x ys
unfolding occurs sort
occurs-sort x [] = refl
occurs-sort x (y ∷ ys) = omega (arith, occurs-place x y (sort ys), occurs-sort x ys)

-- The list without the first x.
unfoldable pub remove_first : Text → List Text → List Text
remove_first x [] = []
remove_first x (y ∷ ys) = let rest = remove_first x ys in if text_eq y x then ys else y ∷ rest

occurs-remove_first :
    (x y : Text) (ys : List Text)
    → 0 < occurs x ys
    → occurs y ys ≡ occurs y (remove_first x ys) + same x y
unfolding occurs remove_first
occurs-remove_first x y [] h = absurd (omega arith)
occurs-remove_first x y (z ∷ ys) h = elim (Bool-cases (text_eq z x)) [
  | inl e ↦ let is_x = (text_eq_iff z x).0 e in rw (remove_first, e, is_x) (omega arith)
  | inr e ↦
      let none_here : same z x ≡ 0 = same_other z x e in
      let rest = occurs-remove_first x y ys (omega (arith, none_here)) in
      rw (remove_first, e) (omega (arith, rest))
]

length-remove_first :
    (x : Text) (ys : List Text) → 0 < occurs x ys → length ys ≡ suc (length (remove_first x ys))
unfolding occurs remove_first
length-remove_first x [] h = absurd (omega arith)
length-remove_first x (z ∷ ys) h = elim (Bool-cases (text_eq z x)) [
  | inl e ↦ rw (remove_first, e) refl
  | inr e ↦
      let none_here : same z x ≡ 0 = same_other z x e in
      rw (remove_first, e) (omega (arith, length-remove_first x ys (omega (arith, none_here))))
]

-- Every string stands in ys at least as often as in xs.
abbrev pub Within : List Text → List Text → Type 0
Within xs ys = (x : Text) → occurs x xs ≤ occurs x ys

Within-tail :
    (x : Text) (xs ys : List Text)
    → Within (x ∷ xs) ys
    → (0 < occurs x ys) × Within xs (remove_first x ys)
unfolding occurs
Within-tail x xs ys h =
    let here : 0 < occurs x ys = omega (arith, h x, same_self x) in
    (here, λ y. omega (arith, h y, occurs-remove_first x y ys here))

pub Within-length : (xs ys : List Text) → Within xs ys → length xs ≤ length ys
Within-length [] ys h = omega arith
Within-length (x ∷ xs) ys h =
    let (here, rest) = Within-tail x xs ys h in
    omega (arith, Within-length xs (remove_first x ys) rest, length-remove_first x ys here)

-- Lists of equal length: then each string stands in them equally often.
pub Within-full : (xs ys : List Text) → Within xs ys → length ys ≤ length xs → Within ys xs
unfolding occurs
Within-full [] [] h l x = omega arith
Within-full [] (y ∷ ys) h l x = absurd (omega arith)
Within-full (x ∷ xs) ys h l y =
    let (here, rest) = Within-tail x xs ys h in
    let shorter = length-remove_first x ys here in
    omega (
      arith,
      Within-full xs (remove_first x ys) rest (omega arith) y,
      occurs-remove_first x y ys here,
    )
