-- ===== src/Base/Text.antt =====
-- Go's `strings` and `strconv.Atoi` on texts as lists of code points.
use native.Mathlib.Omega.{arith}
use mathlib.Core.Logic.{◌↔◌}
use Prim.Native.Nat.{ℕ, zero, suc, ◌+◌, ◌-◌, ◌*◌}
use Prim.Native.Char.{code}
use Prim.Native.String.{String}
use mathlib.Core.Path.{◌≡◌, refl}
use mathlib.Core.Bool.{Bool, true, false, ◌&&◌, ◌||◌}
use mathlib.Core.Option.{Option, none, some}
use mathlib.Core.List.{List, [], ◌∷◌, ◌++◌}
use juicefs_operator.Base.Tests.{ltb, leb, ◌==◌, if◌then◌else◌}
use juicefs_operator.Base.Int.{ℤ, pos, negsuc}

abbrev pub Text : Type 0
Text = List ℕ

abbrev pub codes : String → Text
codes String.[] = []
codes (String.◌∷◌ c s) = code c ∷ codes s

-- `strings.CutPrefix`.
unfoldable pub strip_prefix : Text → Text → Option Text
strip_prefix [] s = some s
strip_prefix (p ∷ ps) [] = none
strip_prefix (p ∷ ps) (c ∷ s) = let rest = strip_prefix ps s in if p == c then rest else none

unfoldable pub has_prefix : Text → Text → Bool
unfolding strip_prefix
has_prefix p s = elim (strip_prefix p s) [ none ↦ false | some _ ↦ true ]

-- `strings.Contains(s, sub)`.
unfoldable pub contains_text : Text → Text → Bool
unfolding has_prefix
contains_text [] sub = has_prefix sub []
contains_text (c ∷ s) sub = has_prefix sub (c ∷ s) || contains_text s sub

abbrev pub add_before : ℕ → Option (Text × Text) → Option (Text × Text)
add_before c none = none
add_before c (some (a, b)) = some (c ∷ a, b)

-- `strings.Cut(s, sep)` at a separator of one character: before and after it.
unfoldable pub cut : ℕ → Text → Option (Text × Text)
cut sep [] = none
cut sep (c ∷ s) = let rest = add_before c (cut sep s) in if c == sep then some ([], s) else rest

after_last? : ℕ → Text → Option Text
after_last? sep [] = none
after_last? sep (c ∷ s) = elim (after_last? sep s) [
  | some t ↦ some t
  | none ↦ if c == sep then some s else none
]

-- `s[strings.LastIndex(s, sep)+1:]`: what follows the last separator, all of `s` with none.
unfoldable pub after_last : ℕ → Text → Text
unfolding after_last?
after_last sep s = elim (after_last? sep s) [ none ↦ s | some t ↦ t ]

-- `strings.Split(s, sep)` at a separator of one character: never empty.
unfoldable pub split : ℕ → Text → List Text
split sep [] = [] ∷ []
split sep (c ∷ s) = elim (split sep s) [
  | [] ↦ []
  | w ∷ ws ↦ if c == sep then [] ∷ w ∷ ws else (c ∷ w) ∷ ws
]

unfoldable pub is_digit : ℕ → Bool
is_digit c = leb b'0' c && leb c b'9'

-- The longest prefix of digits, and the rest.
unfoldable pub span_digits : Text → Text × Text
unfolding is_digit
span_digits [] = ([], [])
span_digits (c ∷ s) =
    let (ds, rest) = span_digits s in if is_digit c then (c ∷ ds, rest) else ([], c ∷ s)

unfoldable pub parse_digits : Text → ℕ → Option ℕ
unfolding is_digit
parse_digits [] acc = some acc
parse_digits (c ∷ s) acc =
    let rest = parse_digits s (10 * acc + (c - b'0')) in if is_digit c then rest else none

abbrev pub max_int : ℕ
max_int = 9223372036854775807

clamp : ℕ → ℕ → ℕ
clamp limit n = if ltb limit n then limit else n

signed : Bool → Option ℕ → ℤ
unfolding clamp
signed minus none = pos 0
signed false (some n) = pos (clamp max_int n)
signed true (some zero) = pos 0
signed true (some (suc n)) = negsuc (clamp max_int n)

unsigned_digits : Text → Option ℕ
unfolding parse_digits
unsigned_digits [] = none
unsigned_digits (c ∷ s) = parse_digits (c ∷ s) 0

-- `n, _ := strconv.Atoi(s)`: 0 for what is no number, the nearest int64 for what is out of range.
unfoldable pub atoi : Text → ℤ
unfolding signed unsigned_digits
atoi [] = pos 0
atoi (c ∷ s) =
    if c == b'-'
    then signed true (unsigned_digits s)
    else if c == b'+'
    then signed false (unsigned_digits s)
    else signed false (unsigned_digits (c ∷ s))

unfoldable pub text_eq : Text → Text → Bool
text_eq [] [] = true
text_eq (c ∷ s) (d ∷ t) = let rest = text_eq s t in if c == d then rest else false
text_eq _ _ = false

pub text_eq_iff : (s t : Text) → (text_eq s t ≡ true) ↔ (s ≡ t)
unfolding text_eq
text_eq_iff [] [] = (λ _. refl, λ _. refl)
text_eq_iff [] (d ∷ t) = (λ h. cc, λ h. cc)
text_eq_iff (c ∷ s) [] = (λ h. cc, λ h. cc)
text_eq_iff (c ∷ s) (d ∷ t) = (ground (arith, text_eq_iff s t), ground (arith, text_eq_iff s t))

-- `strings.Join(parts, sep)` with a separator of one character.
unfoldable pub join : ℕ → List Text → Text
join sep [] = []
join sep (w ∷ []) = w
join sep (w ∷ v ∷ ws) = w ++ sep ∷ join sep (v ∷ ws)

abbrev pub last_line : List Text → Text
last_line [] = []
last_line (l ∷ []) = l
last_line (l ∷ m ∷ ls) = last_line (m ∷ ls)

has_prefix_self : (p : Text) → has_prefix p p ≡ true
unfolding has_prefix
has_prefix_self [] = refl
has_prefix_self (c ∷ p) = ground (arith, has_prefix_self p)

-- A text contains what was appended to it.
pub contains_text-append : (s sub : Text) → contains_text (s ++ sub) sub ≡ true
unfolding contains_text
contains_text-append [] [] = refl
contains_text-append [] (c ∷ sub) = ground (arith, has_prefix_self sub)
contains_text-append (c ∷ s) sub = ground (arith, contains_text-append s sub)

-- `strings.HasSuffix(s, c)` for a suffix of one character.
unfoldable pub ends_with : ℕ → Text → Bool
ends_with c [] = false
ends_with c (x ∷ []) = x == c
ends_with c (x ∷ y ∷ s) = ends_with c (y ∷ s)

-- `strings.TrimSpace` on the ASCII white space.
abbrev pub is_space : ℕ → Bool
is_space c = c == b' ' || (leb 9 c && leb c 13)

unfoldable pub trim_left : Text → Text
trim_left [] = []
trim_left (c ∷ s) = let rest = trim_left s in if is_space c then rest else c ∷ s

abbrev pub trim_cons : ℕ → Text → Text
trim_cons c [] = if is_space c then [] else c ∷ []
trim_cons c (d ∷ t) = c ∷ d ∷ t

unfoldable pub trim_right : Text → Text
trim_right [] = []
trim_right (c ∷ s) = trim_cons c (trim_right s)

unfoldable pub trim_space : Text → Text
unfolding trim_left trim_right
trim_space s = trim_right (trim_left s)
