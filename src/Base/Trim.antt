-- ===== src/Base/Trim.antt =====
-- What trimming and cutting a text leave (`strings.TrimSpace`, `strings.Cut`).
use Prim.Native.Nat.{ℕ}
use mathlib.Core.Path.{◌≡◌, refl, ap, ◌∙◌}
use mathlib.Core.Logic.{inl, inr}
use mathlib.Core.Bool.{Bool, true, false}
use mathlib.Core.Option.{Option, none, some}
use mathlib.Core.List.{[], ◌∷◌}
use native.Mathlib.Omega.{arith}
use juicefs_operator.Base.Tests.{◌==◌, if◌then◌else◌, if_ind, Option-cases}
use juicefs_operator.Base.Lists.{any}
use juicefs_operator.Base.Text.{
  Text, cut, add_before, is_space, trim_left, trim_right, trim_cons, trim_space,
}

abbrev pub has_char : ℕ → Text → Bool
has_char c s = any (λ x. x == c) s

pub trim_left-free : (c : ℕ) (s : Text) → has_char c s ≡ false → has_char c (trim_left s) ≡ false
unfolding trim_left
trim_left-free c [] h = refl
trim_left-free c (x ∷ s) h = ground (arith, trim_left-free c s)

pub trim_right-free : (c : ℕ) (s : Text) → has_char c s ≡ false → has_char c (trim_right s) ≡ false
unfolding trim_right
trim_right-free c [] h = refl
trim_right-free c (x ∷ s) h = ground (arith, trim_right-free c s)

pub trim_space-free : (c : ℕ) (s : Text) → has_char c s ≡ false → has_char c (trim_space s) ≡ false
unfolding trim_space
trim_space-free c s h = trim_right-free c (trim_left s) (trim_left-free c s h)

trim_cons_twice : (c : ℕ) (t : Text) → trim_right t ≡ t → trim_right (trim_cons c t) ≡ trim_cons c t
unfolding trim_right
trim_cons_twice c [] h = if_ind (λ t. trim_right t ≡ t) (is_space c) (λ _. refl) (λ e. ground arith)
trim_cons_twice c (d ∷ t) h = ap (trim_cons c) h

pub trim_right_twice : (s : Text) → trim_right (trim_right s) ≡ trim_right s
unfolding trim_right
trim_right_twice [] = refl
trim_right_twice (x ∷ s) = trim_cons_twice x (trim_right s) (trim_right_twice s)

abbrev pub starts_well : Text → Bool
starts_well [] = true
starts_well (x ∷ s) = if is_space x then false else true

pub trim_left-starts : (s : Text) → starts_well (trim_left s) ≡ true
unfolding trim_left
trim_left-starts [] = refl
trim_left-starts (x ∷ s) = ground (arith, trim_left-starts s)

trim_cons-starts : (c : ℕ) (t : Text) → is_space c ≡ false → starts_well (trim_cons c t) ≡ true
trim_cons-starts c [] h = ground arith
trim_cons-starts c (d ∷ t) h = ground arith

pub trim_right-starts : (s : Text) → starts_well s ≡ true → starts_well (trim_right s) ≡ true
unfolding trim_right
trim_right-starts [] h = refl
trim_right-starts (x ∷ s) h = trim_cons-starts x (trim_right s) (ground arith)

pub trim_left_fix : (s : Text) → starts_well s ≡ true → trim_left s ≡ s
unfolding trim_left
trim_left_fix [] h = refl
trim_left_fix (x ∷ s) h = ground arith

pub trim_space_twice : (s : Text) → trim_space (trim_space s) ≡ trim_space s
unfolding trim_space
trim_space_twice s =
    ap trim_right (
      trim_left_fix (trim_right (trim_left s))
        (trim_right-starts (trim_left s) (trim_left-starts s)))
    ∙ trim_right_twice (trim_left s)

pub cut-none-free : (c : ℕ) (s : Text) → cut c s ≡ none → has_char c s ≡ false
unfolding cut
cut-none-free c [] h = refl
cut-none-free c (x ∷ s) h = elim (Option-cases (cut c s)) [
  | inl e ↦ ground (arith, cut-none-free c s)
  | inr ((a, b), e) ↦ absurd (ground arith)
]

abbrev pub front : Option (Text × Text) → Text
front none = []
front (some (a, b)) = a

add_before-free :
    (c x : ℕ) (o : Option (Text × Text))
    → (x == c) ≡ false
    → has_char c (front o) ≡ false
    → has_char c (front (add_before x o)) ≡ false
add_before-free c x none e h = refl
add_before-free c x (some (a, b)) e h = ground arith

pub cut-free : (c : ℕ) (s : Text) → has_char c (front (cut c s)) ≡ false
unfolding cut
cut-free c [] = refl
cut-free c (x ∷ s) =
    if_ind (λ o. has_char c (front o) ≡ false) (x == c) (λ _. refl)
      (λ e. add_before-free c x (cut c s) e (cut-free c s))
