-- ===== src/Examples/Versions.antt =====
-- The comparison of image versions on concrete images.
use juicefs_operator.Base.Text.{Text, codes}
use juicefs_operator.Version.{at_least, compare_image_version}
use juicefs_operator.Base.{refl, ◌≡◌, true, false}

abbrev image : Text
image = codes "registry:5000/juicedata/mount:ee-5.1.10-3a0a6d8"

image_at_least : at_least (compare_image_version image (codes "5.1.2")) ≡ true
unfolding compare_image_version
image_at_least = refl

not_at_least : at_least (compare_image_version image (codes "5.2.0")) ≡ false
unfolding compare_image_version
not_at_least = refl

no_version : at_least (compare_image_version (codes "juicedata/mount") (codes "0.0.0")) ≡ false
unfolding compare_image_version
no_version = refl

nightly : at_least (compare_image_version (codes "juicedata/mount:nightly") (codes "9.9.9")) ≡ true
unfolding compare_image_version
nightly = refl
