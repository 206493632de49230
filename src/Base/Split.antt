-- ===== src/Base/Split.antt =====
-- Splitting a text (Go's strings.Split) that was joined from parts.
use Prim.Native.Nat.{ℕ}
use mathlib.Core.Path.{◌≡◌, refl, ap, ◌∙◌, subst, sym}
use mathlib.Core.Bool.{false, ◌||◌}
use mathlib.Core.List.{List, [], ◌∷◌, ◌++◌}
use native.Mathlib.Omega.{arith}
use juicefs_operator.Base.Tests.{◌==◌, if◌then◌else◌, if_ind}
use mathlib.Core.Option.{Option, none, some}
use juicefs_operator.Base.Lists.{All, All-append}
use juicefs_operator.Base.Text.{last_line, Text, split, join, cut, add_before}
use juicefs_operator.Base.Trim.{has_char}

pub has_char-append : (c : ℕ) (s t : Text) → has_char c (s ++ t) ≡ (has_char c s || has_char c t)
has_char-append c [] t = refl
has_char-append c (x ∷ s) t = ground (arith, has_char-append c s t)

-- What a character does to the words of the rest.
abbrev step : ℕ → ℕ → List Text → List Text
step c x [] = []
step c x (w ∷ ws) = if x == c then [] ∷ w ∷ ws else (x ∷ w) ∷ ws

split-cons : (c x : ℕ) (s : Text) → split c (x ∷ s) ≡ step c x (split c s)
unfolding split
split-cons c x s =
    elim (split c s)
      as (λ r.
        (elim r [ [] ↦ [] | w ∷ ws ↦ if x == c then [] ∷ w ∷ ws else (x ∷ w) ∷ ws ]) ≡ step c x r) [
          | [] ↦ refl
          | w ∷ ws ↦ refl
        ]

abbrev NonEmpty : List Text → Type 0
NonEmpty [] = ⊥
NonEmpty (w ∷ ws) = Unit

step-NonEmpty : (c x : ℕ) (r : List Text) → NonEmpty r → NonEmpty (step c x r)
step-NonEmpty c x [] h = h
step-NonEmpty c x (w ∷ ws) h = if_ind NonEmpty (x == c) (λ _. tt) (λ _. tt)

split-NonEmpty : (c : ℕ) (s : Text) → NonEmpty (split c s)
unfolding split
split-NonEmpty c [] = tt
split-NonEmpty c (x ∷ s) =
    subst NonEmpty (sym (split-cons c x s)) (step-NonEmpty c x (split c s) (split-NonEmpty c s))

step-append : (c x : ℕ) (r ys : List Text) → NonEmpty r → step c x (r ++ ys) ≡ step c x r ++ ys
step-append c x [] ys h = absurd h
step-append c x (w ∷ ws) ys h = ground arith

step-separator : (c : ℕ) (r : List Text) → NonEmpty r → step c c r ≡ [] ∷ r
step-separator c [] h = absurd h
step-separator c (w ∷ ws) h = ground arith

-- The words of a text are those before a separator and those behind it.
pub split-append : (c : ℕ) (s t : Text) → split c (s ++ c ∷ t) ≡ split c s ++ split c t
unfolding split
split-append c [] t = split-cons c c t ∙ step-separator c (split c t) (split-NonEmpty c t)
split-append c (x ∷ s) t =
    split-cons c x (s ++ c ∷ t)
    ∙ ap (step c x) (split-append c s t)
    ∙ step-append c x (split c s) (split c t) (split-NonEmpty c s)
    ∙ ap (λ r. r ++ split c t) (sym (split-cons c x s))

pub split-free : (c : ℕ) (s : Text) → has_char c s ≡ false → split c s ≡ s ∷ []
unfolding split
split-free c [] h = refl
split-free c (x ∷ s) h = split-cons c x s ∙ ground (arith, split-free c s)

-- A first word without the separator.
pub split-word : (c : ℕ) (w t : Text) → has_char c w ≡ false → split c (w ++ c ∷ t) ≡ w ∷ split c t
split-word c w t h = split-append c w t ∙ ap (λ r. r ++ split c t) (split-free c w h)

last_line-append : (xs ys : List Text) → NonEmpty ys → last_line (xs ++ ys) ≡ last_line ys
last_line-append [] ys h = refl
last_line-append (x ∷ []) [] h = absurd h
last_line-append (x ∷ []) (y ∷ ys) h = refl
last_line-append (x ∷ z ∷ xs) ys h = last_line-append (z ∷ xs) ys h

-- The last of the lines that are joined, where it has no separator.
pub last_line-split-join :
    (c : ℕ) (xs : List Text) (x : Text)
    → has_char c x ≡ false
    → last_line (split c (join c (xs ++ x ∷ []))) ≡ x
unfolding join
last_line-split-join c [] x h = ap last_line (split-free c x h)
last_line-split-join c (y ∷ []) x h =
    ap last_line (split-append c y x)
    ∙ last_line-append (split c y) (split c x) (split-NonEmpty c x)
    ∙ ap last_line (split-free c x h)
last_line-split-join c (y ∷ z ∷ xs) x h =
    ap last_line (split-append c y (join c (z ∷ xs ++ x ∷ [])))
    ∙ last_line-append (split c y) (split c (join c (z ∷ xs ++ x ∷ [])))
        (split-NonEmpty c (join c (z ∷ xs ++ x ∷ [])))
    ∙ last_line-split-join c (z ∷ xs) x h

abbrev pub IsFree : ℕ → Text → Type 0
IsFree c t = has_char c t ≡ false

-- Parts without the separator come back.
pub split-join :
    (c : ℕ) (x : Text) (xs : List Text)
    → IsFree c x
    → All (IsFree c) xs
    → split c (join c (x ∷ xs)) ≡ x ∷ xs
unfolding join
split-join c x [] h hs = split-free c x h
split-join c x (y ∷ xs) h (k, hs) =
    split-word c x (join c (y ∷ xs)) h ∙ ap (λ r. x ∷ r) (split-join c y xs k hs)

pub split-join-snoc :
    (c : ℕ) (xs : List Text) (x : Text)
    → All (IsFree c) xs
    → IsFree c x
    → split c (join c (xs ++ x ∷ [])) ≡ xs ++ x ∷ []
unfolding join
split-join-snoc c [] x hs h = split-free c x h
split-join-snoc c (y ∷ xs) x (k, hs) h =
    split-join c y (xs ++ x ∷ []) k (All-append (IsFree c) xs (x ∷ []) hs (h, tt))

step-IsFree : (c x : ℕ) (r : List Text) → All (IsFree c) r → All (IsFree c) (step c x r)
step-IsFree c x [] h = tt
step-IsFree c x (w ∷ ws) (h, hs) =
    if_ind (All (IsFree c)) (x == c) (λ _. (refl, (h, hs))) (λ e. (ground (arith, e, h), hs))

-- The parts that a text is split into have no separator.
pub split-All-IsFree : (c : ℕ) (s : Text) → All (IsFree c) (split c s)
unfolding split
split-All-IsFree c [] = (refl, tt)
split-All-IsFree c (x ∷ s) =
    subst (All (IsFree c)) (sym (split-cons c x s))
      (step-IsFree c x (split c s) (split-All-IsFree c s))

-- What a cut gives of a text without a character.
abbrev pub AreFree : ℕ → Option (Text × Text) → Type 0
AreFree c none = Unit
AreFree c (some (a, b)) = IsFree c a × IsFree c b

add_before-AreFree :
    (c x : ℕ) (o : Option (Text × Text))
    → (x == c) ≡ false
    → AreFree c o
    → AreFree c (add_before x o)
add_before-AreFree c x none e h = tt
add_before-AreFree c x (some (a, b)) e (h, k) = (ground (arith, e, h), k)

pub cut-AreFree : (c sep : ℕ) (s : Text) → IsFree c s → AreFree c (cut sep s)
unfolding cut
cut-AreFree c sep [] h = tt
cut-AreFree c sep (x ∷ s) h =
    if_ind (AreFree c) (x == sep) (λ _. (refl, ground arith))
      (λ _. add_before-AreFree c x (cut sep s) (ground arith) (cut-AreFree c sep s (ground arith)))
