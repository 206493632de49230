-- ===== src/Base/Dict.antt =====
-- Go's `map[string]T` as an association list without order, and string sets.
use Prim.Native.String.{String}
use mathlib.Core.Path.{◌≡◌, refl}
use mathlib.Core.Bool.{Bool, false, ◌||◌}
use mathlib.Core.Option.{Option, none, some}
use mathlib.Core.List.{List, [], ◌∷◌}
use native.Mathlib.Omega.{arith}
use text.Mathlib.Text.{◌==◌}
use text.Mathlib.TextEquality.{eq_iff}
use juicefs_operator.Base.Tests.{if◌then◌else◌}

-- `slices.Contains` on strings.
abbrev pub contains : List String → String → Bool
contains [] k = false
contains (x ∷ xs) k = x == k || contains xs k

module _ {ℓ} {V : Type ℓ} where
  abbrev pub lookup : String → List (String × V) → Option V
  lookup k [] = none
  lookup k ((j, v) ∷ m) = let rest = lookup k m in if j == k then some v else rest

  abbrev pub insert : String → V → List (String × V) → List (String × V)
  insert k v [] = (k, v) ∷ []
  insert k v ((j, w) ∷ m) = let rest = insert k v m in if j == k then (k, v) ∷ m else (j, w) ∷ rest

  abbrev pub delete : String → List (String × V) → List (String × V)
  delete k [] = []
  delete k ((j, w) ∷ m) = let rest = delete k m in if j == k then rest else (j, w) ∷ rest

  pub lookup-insert :
      (k j : String) (v : V) (m : List (String × V))
      → lookup j (insert k v m) ≡ (if k == j then some v else lookup j m)
  lookup-insert k j v [] = refl
  lookup-insert k j v ((i, w) ∷ m) =
      ground (arith, eq_iff k j, eq_iff i k, eq_iff i j, lookup-insert k j v m)

  pub lookup-delete :
      (k j : String) (m : List (String × V))
      → lookup j (delete k m) ≡ (if k == j then none else lookup j m)
  lookup-delete k j [] = ground arith
  lookup-delete k j ((i, w) ∷ m) =
      ground (arith, eq_iff k j, eq_iff i k, eq_iff i j, lookup-delete k j m)

  -- `maps.Copy(m, src)`
  abbrev pub copy_into : List (String × V) → List (String × V) → List (String × V)
  copy_into m [] = m
  copy_into m ((k, v) ∷ src) = copy_into (insert k v m) src

  -- A key that is not copied keeps its value.
  pub lookup-copy_into :
      (k : String) (m src : List (String × V))
      → lookup k src ≡ none
      → lookup k (copy_into m src) ≡ lookup k m
  lookup-copy_into k m [] h = refl
  lookup-copy_into k m ((j, v) ∷ src) h =
      ground (arith, h, eq_iff j k, lookup-insert j k v m, lookup-copy_into k (insert j v m) src)
