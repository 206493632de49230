-- ===== src/Base/Sort/Order.antt =====
-- A sorted list: its beginning is before its end, in an order that the test `before` decides.
use mathlib.Core.Path.{◌≡◌, refl}
use mathlib.Core.Bool.{Bool, true, false}
use mathlib.Core.List.{List, [], ◌∷◌}
use Prim.Native.Nat.{ℕ, zero, suc}
use native.Mathlib.Omega.{arith}
use juicefs_operator.Base.Tests.{if_ind}
use juicefs_operator.Base.Lists.{length, take, drop, All, All-zip}
use juicefs_operator.Base.Sort.{insert_by, sort_by}

pub length-insert_by {ℓ} :
    {A : Type ℓ} (before : A → A → Bool) (a : A) (xs : List A)
    → length (insert_by before a xs) ≡ suc (length xs)
unfolding insert_by
length-insert_by before a [] = refl
length-insert_by before a (x ∷ xs) = ground (arith, length-insert_by before a xs)

pub length-sort_by {ℓ} :
    {A : Type ℓ} (before : A → A → Bool) (xs : List A) → length (sort_by before xs) ≡ length xs
unfolding sort_by
length-sort_by before [] = refl
length-sort_by before (x ∷ xs) =
    ground (arith, length-insert_by before x (sort_by before xs), length-sort_by before xs)

module _ {ℓ κ} {A : Type ℓ} (R : A → A → Type κ) where
  -- Each element is before all that follow.
  abbrev pub Sorted : List A → Type κ
  Sorted [] = Unit
  Sorted (x ∷ xs) = All (R x) xs × Sorted xs

  All-drop : (P : A → Type κ) (n : ℕ) (xs : List A) → All P xs → All P (drop n xs)
  All-drop P zero xs h = h
  All-drop P (suc n) [] h = tt
  All-drop P (suc n) (x ∷ xs) (h, hs) = All-drop P n xs hs

  -- What is taken of a sorted list is before what is left.
  pub take-before : (n : ℕ) (xs : List A) → Sorted xs → All (λ t. All (R t) (drop n xs)) (take n xs)
  take-before zero xs h = tt
  take-before (suc n) [] h = tt
  take-before (suc n) (x ∷ xs) (h, hs) = (All-drop (R x) n xs h, take-before n xs hs)

module _ {ℓ κ} {A : Type ℓ} (before : A → A → Bool) (R : A → A → Type κ)
    (left : (a b : A) → before a b ≡ true → R a b) (right : (a b : A) → before a b ≡ false → R b a)
    (trans : (a b c : A) → R a b → R b c → R a c) where
  All-insert_by :
      (P : A → Type κ) (a : A) (xs : List A) → P a → All P xs → All P (insert_by before a xs)
  unfolding insert_by
  All-insert_by P a [] p h = (p, tt)
  All-insert_by P a (x ∷ xs) p (h, hs) =
      if_ind (All P) (before a x) (λ _. (p, (h, hs))) (λ _. (h, All-insert_by P a xs p hs))

  insert_by-Sorted : (a : A) (xs : List A) → Sorted R xs → Sorted R (insert_by before a xs)
  unfolding insert_by
  insert_by-Sorted a [] h = (tt, tt)
  insert_by-Sorted a (x ∷ xs) (h, hs) =
      if_ind (Sorted R) (before a x)
        (λ e. (
          (left a x e, All-zip {P = R x} {Q = R x} (λ y r _. trans a x y (left a x e) r) xs h h),
          (h, hs),
        ))
        (λ e. (All-insert_by (R x) a xs (right a x e) h, insert_by-Sorted a xs hs))

  pub sort_by-Sorted : (xs : List A) → Sorted R (sort_by before xs)
  unfolding sort_by
  sort_by-Sorted [] = tt
  sort_by-Sorted (x ∷ xs) = insert_by-Sorted x (sort_by before xs) (sort_by-Sorted xs)
