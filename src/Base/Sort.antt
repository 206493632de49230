-- ===== src/Base/Sort.antt =====
-- `slices.Sort` on strings, and insertion of a value into a sorted list by a key.
pub mod Order
pub mod Orders
use Prim.Native.String.{String, compare}
use mathlib.Core.Path.{◌≡◌, refl}
use mathlib.Core.Bool.{Bool, ◌||◌}
use mathlib.Core.List.{List, [], ◌∷◌}
use native.Mathlib.Omega.{arith}
use text.Mathlib.Text.{is_le, ◌==◌}
use juicefs_operator.Base.Tests.{if◌then◌else◌}
use juicefs_operator.Base.Dict.{contains}

module _ {ℓ} {A : Type ℓ} (before : A → A → Bool) where
  unfoldable pub insert_by : A → List A → List A
  insert_by a [] = a ∷ []
  insert_by a (x ∷ xs) = let rest = insert_by a xs in if before a x then a ∷ x ∷ xs else x ∷ rest

  -- The result of `sort.Slice` where no two elements are equal for the order.
  unfoldable pub sort_by : List A → List A
  unfolding insert_by
  sort_by [] = []
  sort_by (x ∷ xs) = insert_by x (sort_by xs)

abbrev pub string_before : String → String → Bool
string_before s t = is_le (compare s t)

unfoldable pub sort_strings : List String → List String
unfolding sort_by
sort_strings xs = sort_by string_before xs

contains-insert_by :
    (k x : String) (xs : List String)
    → contains (insert_by string_before x xs) k ≡ (x == k || contains xs k)
unfolding insert_by
contains-insert_by k x [] = refl
contains-insert_by k x (y ∷ xs) = ground (arith, contains-insert_by k x xs)

-- Sorting keeps the members.
pub contains-sort_strings :
    (k : String) (xs : List String) → contains (sort_strings xs) k ≡ contains xs k
unfolding sort_strings
contains-sort_strings k [] = refl
contains-sort_strings k (x ∷ xs) =
    ground (arith, contains-insert_by k x (sort_by string_before xs), contains-sort_strings k xs)
