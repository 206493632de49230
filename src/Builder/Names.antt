-- ===== src/Builder/Names.antt =====
-- The names of the volumes that appendSecretConfigVolumes adds: the search for a free name ends.
use juicefs_operator.Base.{
  ℕ, ◌≡◌, true, false, Option, some, List, [], ◌∷◌, if◌then◌else◌, Pairwise, All,
}
use juicefs_operator.Base.Text.{Text, text_eq}
use juicefs_operator.Builder.{text_contains}
use juicefs_operator.Builder.Configs.{Volumes}

-- All but the first occurrence.
abbrev remove : Text → List Text → List Text
remove t [] = []
remove t (x ∷ xs) = let rest = remove t xs in if text_eq x t then xs else x ∷ rest

-- No two volumes of one name, no two mounts at one path.
pub record IsDistinct (volumes : List (Text × Option Text)) (mounts : List (Text × Text))
    : Type 0 where
  pub names : Pairwise (λ (x y : Text × Option Text). text_eq x.0 y.0 ≡ false) volumes
  pub paths : Pairwise (λ (x y : Text × Text). text_eq x.1 y.1 ≡ false) mounts

record IsKept (v : Volumes) : Type 0 where
  distinct : IsDistinct v.volumes v.mounts
  names_used : All (λ (x : Text × Option Text). text_contains v.used_names x.0 ≡ true) v.volumes
  paths_used : All (λ (x : Text × Text). text_contains v.used_paths x.1 ≡ true) v.mounts

module _ (show : ℕ → Text) (injective : (i j : ℕ) → show i ≡ show j → i ≡ j) where
  abbrev EndsDistinct : Option Volumes → Type 0
  EndsDistinct o = (r : Volumes) × (o ≡ some r) × IsDistinct r.volumes r.mounts
