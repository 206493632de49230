-- ===== src/Examples/Labels.antt =====
-- The truncation of labels on concrete texts.
use juicefs_operator.Base.{◌≤◌, ◌<◌, ◌≡◌, ◌⊎◌, refl, some, none, length, arith}
use juicefs_operator.Base.Text.{Text, codes}
use juicefs_operator.Labels.{
  truncate_label_value, truncate_label_value_with_length, truncate_label_value_with_length-le,
}

abbrev md5 : Text → Text
md5 _ = codes "0123456789abcdef0123456789abcdef"

abbrev long_name : Text
long_name = codes "a-name-of-more-than-fifty-two-characters-for-a-cron-job"

shortened :
    truncate_label_value_with_length md5 long_name 52
    ≡ some (codes "a-name-of-more-than-0123456789abcdef0123456789abcdef")
unfolding truncate_label_value_with_length
shortened = refl

fits_a_label : truncate_label_value md5 long_name ≡ some long_name
unfolding truncate_label_value
fits_a_label = refl

-- A limit that the hash does not fit in makes the code panic.
too_narrow : truncate_label_value_with_length md5 long_name 32 ≡ none
unfolding truncate_label_value_with_length
too_narrow = refl

truncate_label_value_with_length-le_example :
    (t : Text) × (truncate_label_value_with_length md5 long_name 52 ≡ some t)
    × (length t ≤ 52)
    × ((t ≡ long_name) ⊎ ((52 < length long_name) × (length t ≡ 52)))
truncate_label_value_with_length-le_example =
    truncate_label_value_with_length-le md5 long_name 52 refl (omega arith)
