-- ===== src/Version/Order.antt =====
-- The order of versions, and what it gives for images.
use juicefs_operator.Base.{
  ◌≡◌, refl, true, Option, none, some, List, [], ◌∷◌, arith, inl, inr, Option-cases,
}
use juicefs_operator.Base.Text.{Text, split, codes}
use juicefs_operator.Version.{
  compare_parts, compare_image_version, at_least, compare_found, compare_tag, find_version,
  image_tag,
}

-- at least is transitive
pub compare_parts_trans :
    (a b c : List Text)
    → at_least (compare_parts a b) ≡ true
    → at_least (compare_parts b c) ≡ true
    → at_least (compare_parts a c) ≡ true
unfolding compare_parts
compare_parts_trans [] [] [] h k = refl
compare_parts_trans [] [] (z ∷ c) h k = k
compare_parts_trans [] (y ∷ b) c h k = cc
compare_parts_trans (x ∷ a) b [] h k = refl
compare_parts_trans (x ∷ a) [] (z ∷ c) h k = cc
compare_parts_trans (x ∷ a) (y ∷ b) (z ∷ c) h k = ground (arith, compare_parts_trans a b c)

compare_found_mono :
    (found : Option (List Text)) (v w : Text)
    → at_least (compare_found found v) ≡ true
    → at_least (compare_parts (split b'.' v) (split b'.' w)) ≡ true
    → at_least (compare_found found w) ≡ true
unfolding compare_found
compare_found_mono none v w h k = h
compare_found_mono (some parts) v w h k =
    compare_parts_trans parts (split b'.' v) (split b'.' w) h k

compare_tag_mono :
    (tag v w : Text)
    → at_least (compare_tag tag v) ≡ true
    → at_least (compare_parts (split b'.' v) (split b'.' w)) ≡ true
    → at_least (compare_tag tag w) ≡ true
unfolding compare_tag
compare_tag_mono tag v w h k = ground (
  arith,
  compare_found_mono (find_version (codes "ee-") tag) v w,
  compare_found_mono (find_version (codes "ce-") tag) v w,
)

-- An image that is at least version `v` is at least every version that `v` is not below.
pub compare_image_version_mono :
    (image v w : Text)
    → at_least (compare_image_version image v) ≡ true
    → at_least (compare_parts (split b'.' v) (split b'.' w)) ≡ true
    → at_least (compare_image_version image w) ≡ true
unfolding compare_image_version
compare_image_version_mono image v w h k = elim (Option-cases (image_tag image)) [
  | inl e ↦ absurd (ground arith)
  | inr (tag, e) ↦ ground (arith, compare_tag_mono tag v w)
]
