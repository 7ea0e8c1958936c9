-- ===== src/Prelude/Maps.antt =====
-- A Go map with string keys, as an association list. A key stands in it at most once when it is
-- built by `insert` and `delete`.

use mathlib.Core.Path.{◌≡◌, refl}
use mathlib.Core.List.{List, [], ◌∷◌}
use mathlib.Core.Option.{Option, none, some}
use native.Mathlib.Omega.{arith}
use keelith.Prelude.Tests.{if◌then◌else◌}
use keelith.Prelude.Text.{Text, text_eq, text_eq_iff, text_eq_refl}

abbrev pub Map {ℓ} : Type ℓ → Type ℓ
Map V = List (Text × V)

module _ {ℓ} {V : Type ℓ} where
  unfoldable pub lookup : Text → Map V → Option V
  lookup k [] = none
  lookup k ((j, v) ∷ m) = if text_eq j k then some v else lookup k m

  unfoldable pub insert : Text → V → Map V → Map V
  insert k v [] = (k, v) ∷ []
  insert k v ((j, w) ∷ m) = if text_eq j k then (j, v) ∷ m else (j, w) ∷ insert k v m

  unfoldable pub delete : Text → Map V → Map V
  delete k [] = []
  delete k ((j, w) ∷ m) = if text_eq j k then delete k m else (j, w) ∷ delete k m

  abbrev pub keys : Map V → List Text
  keys [] = []
  keys ((k, _) ∷ m) = k ∷ keys m

  pub lookup-insert :
      (k j : Text) (v : V) (m : Map V)
      → lookup j (insert k v m) ≡ (if text_eq k j then some v else lookup j m)
  unfolding lookup insert
  lookup-insert k j v [] = refl
  lookup-insert k j v ((i, w) ∷ m) =
      ground (arith, text_eq_iff k j, text_eq_iff i k, text_eq_iff i j, lookup-insert k j v m)

  pub lookup-insert_self : (k : Text) (v : V) (m : Map V) → lookup k (insert k v m) ≡ some v
  lookup-insert_self k v m = rw (lookup-insert k k v m, text_eq_refl k)

  pub lookup-delete :
      (k j : Text) (m : Map V) → lookup j (delete k m) ≡ (if text_eq k j then none else lookup j m)
  unfolding lookup delete
  lookup-delete k j [] = ground arith
  lookup-delete k j ((i, w) ∷ m) =
      ground (arith, text_eq_iff k j, text_eq_iff i k, text_eq_iff i j, lookup-delete k j m)

  pub lookup-delete_self : (k : Text) (m : Map V) → lookup k (delete k m) ≡ none
  lookup-delete_self k m = rw (lookup-delete k k m, text_eq_refl k)

  -- A property of every entry that the map's own lookup finds.
  abbrev pub Every {κ} : (Text → V → Type κ) → Map V → Type (ℓ ⊔ κ)
  Every P m = (k : Text) (v : V) → lookup k m ≡ some v → P k v

  pub insert-Every {κ} :
      (P : Text → V → Type κ) (k : Text) (v : V) (m : Map V)
      → P k v
      → Every P m
      → Every P (insert k v m)
  insert-Every P k v m p h j w e = ground (arith, lookup-insert k j v m, text_eq_iff k j, h j w, p)

  pub delete-Every {κ} :
      (P : Text → V → Type κ) (k : Text) (m : Map V) → Every P m → Every P (delete k m)
  delete-Every P k m h j w e = ground (arith, lookup-delete k j m, h j w)
