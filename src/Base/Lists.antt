-- ===== src/Base/Lists.antt =====
-- Lists measured by native numbers, and predicates on their elements.
use Prim.Native.Nat.{ℕ, suc, ◌+◌, ◌≤◌, zero}
use mathlib.Core.Path.{◌≡◌, refl, subst, sym}
use mathlib.Core.Bool.{Bool, true, false, ◌&&◌, ◌||◌}
use mathlib.Core.List.{List, [], ◌∷◌, ◌++◌, Memᴰ}
use native.Mathlib.Omega.{arith}
use juicefs_operator.Base.Tests.{if◌then◌else◌}

module _ {ℓ} {A : Type ℓ} where
  abbrev pub length : List A → ℕ
  length [] = 0
  length (x ∷ xs) = suc (length xs)

  pub length-append : (xs ys : List A) → length (xs ++ ys) ≡ length xs + length ys
  length-append [] ys = omega arith
  length-append (x ∷ xs) ys = omega (arith, length-append xs ys)

  abbrev pub take : ℕ → List A → List A
  take zero xs = []
  take (suc n) [] = []
  take (suc n) (x ∷ xs) = x ∷ take n xs

  abbrev pub drop : ℕ → List A → List A
  drop zero xs = xs
  drop (suc n) [] = []
  drop (suc n) (x ∷ xs) = drop n xs

  -- Go's `lo.Filter`, `slices.DeleteFunc` with the test negated.
  abbrev pub filterb : (A → Bool) → List A → List A
  filterb p [] = []
  filterb p (x ∷ xs) = let rest = filterb p xs in if p x then x ∷ rest else rest

  abbrev pub countb : (A → Bool) → List A → ℕ
  countb p [] = 0
  countb p (x ∷ xs) = let rest = countb p xs in if p x then suc rest else rest

  abbrev pub any : (A → Bool) → List A → Bool
  any p [] = false
  any p (x ∷ xs) = p x || any p xs

  abbrev pub all : (A → Bool) → List A → Bool
  all p [] = true
  all p (x ∷ xs) = p x && all p xs

  pub countb-le-length : (p : A → Bool) (xs : List A) → countb p xs ≤ length xs
  countb-le-length p [] = omega arith
  countb-le-length p (x ∷ xs) = ground (arith, countb-le-length p xs)

module _ {ℓ κ} {A : Type ℓ} (P : A → Type κ) where
  -- Each element satisfies `P`.
  abbrev pub All : List A → Type κ
  All [] = Unit
  All (x ∷ xs) = P x × All xs

  pub All-append : (xs ys : List A) → All xs → All ys → All (xs ++ ys)
  All-append [] ys _ k = k
  All-append (x ∷ xs) ys (p, h) k = (p, All-append xs ys h k)

module _ {ℓ κ μ ν} {A : Type ℓ} {P : A → Type κ} {Q : A → Type μ} {R : A → Type ν} where
  pub All-zip : ((a : A) → P a → Q a → R a) → (xs : List A) → All P xs → All Q xs → All R xs
  All-zip f [] h k = tt
  All-zip f (x ∷ xs) (h, hs) (k, ks) = (f x h k, All-zip f xs hs ks)

module _ {ℓ κ} {A : Type ℓ} (P : A → Type κ) where
  pub All-mem : {x : A} {xs : List A} → All P xs → Memᴰ x xs → P x
  All-mem h (Memᴰ.head e) = subst P (sym e) h.0
  All-mem h (Memᴰ.tail m) = All-mem h.1 m

module _ {ℓ κ μ} {A : Type ℓ} {P : A → Type κ} {Q : A → Type μ} where
  pub All-map : ((a : A) → P a → Q a) → (xs : List A) → All P xs → All Q xs
  All-map f [] h = tt
  All-map f (x ∷ xs) (h, hs) = (f x h, All-map f xs hs)

module _ {ℓ κ} {A : Type ℓ} (R : A → A → Type κ) where
  -- `R` holds between each element and every later one.
  abbrev pub Pairwise : List A → Type (ℓ ⊔ κ)
  Pairwise [] = Unit
  Pairwise (x ∷ xs) = All (R x) xs × Pairwise xs

  All-snoc : (x y : A) (xs : List A) → All (R x) xs → R x y → All (R x) (xs ++ y ∷ [])
  All-snoc x y xs h r = All-append (R x) xs (y ∷ []) h (r, tt)

  pub Pairwise-snoc :
      (y : A) (xs : List A) → Pairwise xs → All (λ x. R x y) xs → Pairwise (xs ++ y ∷ [])
  Pairwise-snoc y [] h r = (tt, tt)
  Pairwise-snoc y (x ∷ xs) (a, h) (r, rs) = (All-snoc x y xs a r, Pairwise-snoc y xs h rs)

module _ {ℓ} {A B : Type ℓ} (f : A → B → Bool) where
  any-head : (x : B) (xs : List B) (a : A) → any (f a) (x ∷ xs) ≡ false → f a x ≡ false
  any-head x xs a h = ground arith

  any-tail : (x : B) (xs : List B) (a : A) → any (f a) (x ∷ xs) ≡ false → any (f a) xs ≡ false
  any-tail x xs a h = ground arith

  -- No pair satisfies `f`, read by the second list.
  pub All-swap :
      (us : List A) (bs : List B)
      → All (λ a. any (f a) bs ≡ false) us
      → All (λ b. All (λ a. f a b ≡ false) us) bs
  All-swap us [] h = tt
  All-swap us (b ∷ bs) h =
      (All-map (any-head b bs) us h, All-swap us bs (All-map (any-tail b bs) us h))

module _ {ℓ} {A : Type ℓ} where
  members : (ys xs : List A) → ((x : A) → Memᴰ x xs → Memᴰ x ys) → All (λ x. Memᴰ x ys) xs
  members ys [] f = tt
  members ys (x ∷ xs) f = (f x (Memᴰ.head refl), members ys xs (λ y m. f y (Memᴰ.tail m)))

  pub All-self : (xs : List A) → All (λ x. Memᴰ x xs) xs
  All-self xs = members xs xs (λ x m. m)
