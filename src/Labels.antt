-- ===== src/Labels.antt =====
-- Label values and job names that Kubernetes limits in length: TruncateLabelValue and
-- TruncateLabelValueWithLength of pkg/utils/utils.go. The hexadecimal MD5 sum is a parameter, and a
-- slice whose bound is negative, on which Go panics, is `none`.
use juicefs_operator.Base.{
  ℕ, suc, ◌-◌, ◌≤◌, ◌<◌, ◌≡◌, ◌⊎◌, refl, Option, none, some, List, ◌++◌, [], ◌∷◌, arith, leb, ltb,
  length, take, if◌then◌else◌, length-append, zero, inl, inr, Bool-cases,
}
use juicefs_operator.Base.Text.{Text}

abbrev label_max_length : ℕ
label_max_length = 63

-- `s[:limit-len(md5)-1] + "-" + md5`
unfoldable cut_with_hash : Text → ℕ → Text → Option Text
cut_with_hash s limit md5 =
    if leb limit (length md5) then none else some (take (limit - length md5 - 1) s ++ b'-' ∷ md5)

unfoldable pub truncate_label_value_with_length : (Text → Text) → Text → ℕ → Option Text
unfolding cut_with_hash
truncate_label_value_with_length cal_md5 s limit =
    if leb (length s) limit
    then some s
    else cut_with_hash s limit
        (if ltb limit (length (cal_md5 s)) then take limit (cal_md5 s) else cal_md5 s)

unfoldable pub truncate_label_value : (Text → Text) → Text → Option Text
unfolding truncate_label_value_with_length
truncate_label_value cal_md5 s = truncate_label_value_with_length cal_md5 s label_max_length

length-take {ℓ} : {A : Type ℓ} (n : ℕ) (xs : List A) → n ≤ length xs → length (take n xs) ≡ n
length-take zero xs h = refl
length-take (suc n) [] h = absurd (omega arith)
length-take (suc n) (x ∷ xs) h = omega (arith, length-take n xs (omega arith))

cut_with_hash-length :
    (s md5 : Text) (limit : ℕ)
    → limit ≤ length s
    → length md5 < limit
    → (t : Text) × (cut_with_hash s limit md5 ≡ some t) × (length t ≡ limit)
unfolding cut_with_hash
cut_with_hash-length s md5 limit long short = (
  take (limit - length md5 - 1) s ++ b'-' ∷ md5,
  ground arith,
  omega (
    arith,
    length-append (take (limit - length md5 - 1) s) (b'-' ∷ md5),
    length-take (limit - length md5 - 1) s (omega arith),
  ),
)

-- With a hash of 32 characters and a limit above that a text always comes out, no longer than the
-- limit: the value itself where it fits, and else one of exactly that length.
pub truncate_label_value_with_length-le :
    (cal_md5 : Text → Text) (s : Text) (limit : ℕ)
    → length (cal_md5 s) ≡ 32
    → 32 < limit
    → (t : Text) × (truncate_label_value_with_length cal_md5 s limit ≡ some t)
      × (length t ≤ limit)
      × ((t ≡ s) ⊎ ((limit < length s) × (length t ≡ limit)))
unfolding truncate_label_value_with_length
truncate_label_value_with_length-le cal_md5 s limit h wide =
    elim (Bool-cases (leb (length s) limit)) [
      | inl fits ↦ (s, ground arith, ground arith, inl refl)
      | inr long ↦
          let (t, e, n) =
            cut_with_hash-length s (cal_md5 s) limit (ground arith) (omega (arith, h, wide)) in
          (t, ground (arith, e, h), omega (arith, n), inr (ground arith, n))
    ]
