-- ===== src/WarmUp/MountInfo/Spared.antt =====
-- The mount options of a warm-up (getWarmUpMountInfo of pkg/builder/job.go) against the options that
-- only a worker has.
use juicefs_operator.Base.{
  Bool, true, false, none, some, List, [], ◌∷◌, ◌++◌, All, if_ind, ap, ◌∙◌, ◌≡◌, refl,
  if◌then◌else◌, arith,
}
use juicefs_operator.Base.Text.{Text, text_eq}
use juicefs_operator.Builder.{text_contains}
use juicefs_operator.Builder.Options.{IsName}
use juicefs_operator.Builder.RoundTrip.{cut-append, cut-free_text}
use juicefs_operator.WarmUp.MountInfo.{
  ignore_mount_opts, key_of, kept_opts, new_options, option_text, option_texts, adds,
}

abbrev pub IsSpared : Text → Type 0
IsSpared o = text_contains ignore_mount_opts (key_of o) ≡ false

kept_case :
    (o : Text) (os : List Text) (b : Bool)
    → text_contains ignore_mount_opts (key_of o) ≡ b
    → All IsSpared os
    → All IsSpared (if b then os else o ∷ os)
kept_case o os true e h = h
kept_case o os false e h = (e, h)

pub kept_opts-IsSpared : (os : List Text) → All IsSpared (kept_opts os)
unfolding kept_opts
kept_opts-IsSpared [] = tt
kept_opts-IsSpared (o ∷ os) =
    kept_case o (kept_opts os) (text_contains ignore_mount_opts (key_of o)) refl
      (kept_opts-IsSpared os)

-- The name of an option that is written is the name that was read.
key_of-option_text : (o : Text × Text) → IsName o.0 → key_of (option_text o) ≡ o.0
key_of-option_text (k, v) n =
    if_ind (λ t. key_of t ≡ k) (text_eq v [])
      (λ _. ap (λ c. elim c [ none ↦ k | some p ↦ p.0 ]) (cut-free_text b'=' k n.free))
      (λ _. ap (λ c. elim c [ none ↦ k ++ b'=' ∷ v | some p ↦ p.0 ]) (cut-append b'=' k v n.free))

adds-spares :
    (existing : List Text) (k : Text)
    → adds existing k ≡ true
    → text_contains ignore_mount_opts k ≡ false
unfolding adds
adds-spares existing k h = grind arith

added_case :
    (existing : List Text) (o : Text × Text) (b : Bool) (xs ys : List (Text × Text))
    → IsName o.0
    → adds existing o.0 ≡ b
    → All IsSpared (option_texts xs)
    → All IsSpared (option_texts ys)
    → All IsSpared (option_texts (elim b [ false ↦ xs | true ↦ o ∷ ys ]))
added_case existing o false xs ys n e hx hy = hx
added_case existing o true xs ys n e hx hy =
    (ap (text_contains ignore_mount_opts) (key_of-option_text o n) ∙ adds-spares existing o.0 e, hy)

pub new_options-IsSpared :
    (existing : List Text) (os : List (Text × Text))
    → All (λ (o : Text × Text). IsName o.0) os
    → All IsSpared (option_texts (new_options existing os))
unfolding new_options
new_options-IsSpared existing [] h = tt
new_options-IsSpared existing (o ∷ os) (n, h) =
    added_case existing o (adds existing o.0) (new_options existing os)
      (new_options (o.0 ∷ existing) os) n refl (new_options-IsSpared existing os h)
      (new_options-IsSpared (o.0 ∷ existing) os h)
