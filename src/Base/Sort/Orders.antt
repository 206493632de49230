-- ===== src/Base/Sort/Orders.antt =====
-- Sorting by a total order gives the same list for every order of elements that differ in it.
use juicefs_operator.Base.{refl, All, Pairwise}
use mathlib.Core.Path.{◌≡◌, subst, ap, ◌∙◌}
use mathlib.Core.Bool.{Bool, true, false, ◌&&◌}
use mathlib.Core.List.{List, [], ◌∷◌, Permᴰ, map, ◌++◌}
use native.Mathlib.Omega.{arith}
use juicefs_operator.Base.Sort.{insert_by, sort_by}

module _ {ℓ} {A : Type ℓ} (before : A → A → Bool)
    (total : (a b : A) → before a b ≡ false → before b a ≡ true)
    (trans : (a b c : A) → before a b ≡ true → before b c ≡ true → before a c ≡ true) where
  -- Two insertions of elements of different keys commute.
  insert_by_comm :
      (a b : A) (xs : List A)
      → (before a b && before b a) ≡ false
      → insert_by before a (insert_by before b xs) ≡ insert_by before b (insert_by before a xs)
  unfolding insert_by
  insert_by_comm a b [] h = ground (arith, total a b, total b a)
  insert_by_comm a b (x ∷ xs) h = ground (
    arith,
    total a b,
    total b a,
    total a x,
    total b x,
    trans a x b,
    trans b x a,
    insert_by_comm a b xs h,
  )

module _ {ℓ κ} {A : Type ℓ} (P : A → Type κ) where
  All-perm : {xs ys : List A} → Permᴰ xs ys → All P xs → All P ys
  All-perm Permᴰ.nil h = tt
  All-perm (Permᴰ.cons e p) (h, hs) = (subst P e h, All-perm p hs)
  All-perm (Permᴰ.swap e f) (h, (k, hs)) = (subst P f k, (subst P e h, hs))
  All-perm (Permᴰ.trans p q) h = All-perm q (All-perm p h)

module _ {ℓ κ} {A : Type ℓ} (R : A → A → Type κ) (sym_R : (a b : A) → R a b → R b a) where
  All-left : {a b : A} (xs : List A) → a ≡ b → All (R a) xs → All (R b) xs
  All-left xs e h = subst (λ x. All (R x) xs) e h

  Pairwise-perm : {xs ys : List A} → Permᴰ xs ys → Pairwise R xs → Pairwise R ys
  Pairwise-perm Permᴰ.nil h = tt
  Pairwise-perm (Permᴰ.cons {a} {b} {l₁} {l₂} e p) (h, hs) =
      (All-left l₂ e (All-perm (R a) p h), Pairwise-perm p hs)
  Pairwise-perm (Permᴰ.swap {a} {b} {a'} {b'} {l} e f) ((r, h), (k, hs)) = (
    (subst (λ x. R x b') f (subst (λ x. R b x) e (sym_R a b r)), All-left l f k),
    (All-left l e h, hs),
  )
  Pairwise-perm (Permᴰ.trans p q) h = Pairwise-perm q (Pairwise-perm p h)

module _ {ℓ κ} {A : Type ℓ} {B : Type κ} (before : A → A → Bool)
    (total : (a b : A) → before a b ≡ false → before b a ≡ true)
    (trans : (a b c : A) → before a b ≡ true → before b c ≡ true → before a c ≡ true) (f : B → A)
    (rest : List A) where
  -- The keys of the two differ.
  abbrev pub Apart : B → B → Type 0
  Apart x y = (before (f x) (f y) && before (f y) (f x)) ≡ false

  Apart-sym : (x y : B) → Apart x y → Apart y x
  Apart-sym x y h = ground arith

  -- In front of the same rest, elements whose keys differ may stand in any order.
  pub sort_by-perm :
      {xs ys : List B}
      → Permᴰ xs ys
      → Pairwise Apart xs
      → sort_by before (map f xs ++ rest) ≡ sort_by before (map f ys ++ rest)
  unfolding sort_by
  sort_by-perm Permᴰ.nil h = refl
  sort_by-perm (Permᴰ.cons {a} {b} {l₁} {l₂} e p) (h, hs) =
      ap (insert_by before (f a)) (sort_by-perm p hs)
      ∙ ap (λ x. insert_by before (f x) (sort_by before (map f l₂ ++ rest))) e
  sort_by-perm (Permᴰ.swap {a} {b} {a'} {b'} {l} e f') ((r, h), (k, hs)) =
      insert_by_comm before total trans (f a) (f b) (sort_by before (map f l ++ rest)) r
      ∙ ap (λ x. insert_by before (f x) (insert_by before (f a) (sort_by before (map f l ++ rest))))
          f'
      ∙ ap
          (λ x. insert_by before (f a') (insert_by before (f x) (sort_by before (map f l ++ rest))))
          e
  sort_by-perm (Permᴰ.trans p q) h =
      sort_by-perm p h ∙ sort_by-perm q (Pairwise-perm Apart Apart-sym p h)
