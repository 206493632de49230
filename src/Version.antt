-- ===== src/Version.antt =====
-- Image versions: CompareImageVersion of pkg/utils/utils.go and isEEImageAtLeast of pkg/utils/pod.go.
pub mod Order
use Prim.Native.Nat.{Ordering}
use juicefs_operator.Base.{
  Bool, true, false, ◌&&◌, ◌||◌, Option, none, some, List, [], ◌∷◌, ◌>>=◌, if◌then◌else◌,
}
use juicefs_operator.Base.Int.{ℤ, ltb_ℤ}
use juicefs_operator.Base.Text.{
  Text, codes, strip_prefix, contains_text, cut, after_last, split, span_digits, atoi,
}

-- The results -1, 0 and 1 of the source are `lt`, `eq` and `gt`.
nonempty_number : Text → Text → Option (Text × Text)
nonempty_number [] rest = none
nonempty_number (d ∷ ds) rest = some (d ∷ ds, rest)

-- One number of at least one digit, with the text behind it: `(\d+)`.
match_number : Text → Option (Text × Text)
unfolding span_digits nonempty_number
match_number s = let (ds, rest) = span_digits s in nonempty_number ds rest

match_here : Text → Text → Option (List Text)
unfolding match_number strip_prefix
match_here tag s = strip_prefix tag s >>= λ s1. match_number s1 >>= λ m1.
    strip_prefix (codes ".") (m1.1) >>= λ s2. match_number s2 >>= λ m2.
    strip_prefix (codes ".") (m2.1) >>= λ s3.
    match_number s3 >>= λ m3. some (m1.0 ∷ m2.0 ∷ m3.0 ∷ [])

-- `regexp.MustCompile("<tag>(\d+)\.(\d+)\.(\d+)").FindStringSubmatch(s)`, its three groups: the
-- leftmost match. A run of digits that is left before its end meets no dot, so nothing is retried.
find_version : Text → Text → Option (List Text)
unfolding match_here
find_version tag [] = none
find_version tag (c ∷ s) = elim (match_here tag (c ∷ s)) [
  | some groups ↦ some groups
  | none ↦ find_version tag s
]

-- The loop over the parts, and the test behind it.
unfoldable pub compare_parts : List Text → List Text → Ordering
compare_parts [] [] = Ordering.eq
compare_parts [] (t ∷ ts) = Ordering.lt
compare_parts (c ∷ cs) [] = Ordering.gt
compare_parts (c ∷ cs) (t ∷ ts) =
    let rest = compare_parts cs ts in
    if ltb_ℤ (atoi t) (atoi c)
    then Ordering.gt
    else if ltb_ℤ (atoi c) (atoi t)
    then Ordering.lt
    else rest

compare_found : Option (List Text) → Text → Ordering
unfolding compare_parts
compare_found none target = Ordering.lt
compare_found (some parts) target = compare_parts parts (split b'.' target)

abbrev is_moving : Text → Bool
is_moving tag =
    contains_text tag (codes "latest")
    || contains_text tag (codes "master")
    || contains_text tag (codes "main")
    || contains_text tag (codes "nightly")
    || contains_text tag (codes "dev")

compare_tag : Text → Text → Ordering
unfolding compare_found find_version contains_text
compare_tag current target =
    if is_moving current
    then Ordering.gt
    else if contains_text current (codes "ee-")
    then compare_found (find_version (codes "ee-") current) target
    else if contains_text current (codes "ce-")
    then compare_found (find_version (codes "ce-") current) target
    else Ordering.lt

image_tag : Text → Option Text
unfolding cut after_last
image_tag image = elim (cut b':' (after_last b'/' image)) [ none ↦ none | some (_, tag) ↦ some tag ]

unfoldable pub compare_image_version : Text → Text → Ordering
unfolding compare_tag image_tag split atoi
compare_image_version image target = elim (image_tag image) [
  | none ↦ Ordering.lt
  | some tag ↦ compare_tag tag target
]

abbrev pub at_least : Ordering → Bool
at_least Ordering.lt = false
at_least _ = true

unfoldable pub is_ee_image_at_least : Text → Text → Bool
unfolding compare_image_version
is_ee_image_at_least image version = elim (image_tag image) [
  | none ↦ false
  | some tag ↦ contains_text tag (codes "ee-") && at_least (compare_image_version image version)
]
