-- ===== src/Builder/Configs.antt =====
-- The secrets that a worker mounts as volumes: parseSecretConfigs, appendSecretConfigVolumes and
-- nextConfigVolumeName of pkg/builder/cache_group_pod.go. `show` prints a number in decimals.
use juicefs_operator.Base.{
  ℕ, zero, suc, Bool, true, false, ◌||◌, Option, none, some, List, [], ◌∷◌, ◌++◌, if◌then◌else◌,
  ltb, ◌==◌, length, map,
}
use juicefs_operator.Base.Text.{Text, codes, text_eq, trim_space, has_prefix}
use juicefs_operator.Base.Sort.{sort_by}
use juicefs_operator.Builder.{text_contains}

-- `configs[name] = path`
abbrev put : Text → Text → List (Text × Text) → List (Text × Text)
put name path [] = (name, path) ∷ []
put name path ((k, v) ∷ m) =
    let rest = put name path m in if text_eq k name then (name, path) ∷ m else (k, v) ∷ rest

abbrev is_refused : Text → Text → Bool
is_refused name path = text_eq name [] || (if has_prefix (codes "/") path then false else true)

-- The entries of the parsed text; the value is `none` when it is no string.
unfoldable pub valid_configs : List (Text × Option Text) → List (Text × Text) → List (Text × Text)
valid_configs [] m = m
valid_configs ((k, none) ∷ raw) m = valid_configs raw m
valid_configs ((k, some v) ∷ raw) m =
    valid_configs raw
      (if is_refused (trim_space k) (trim_space v) then m else put (trim_space k) (trim_space v) m)

-- `parse` is ParseYamlOrJson, `none` an error.
unfoldable pub parse_secret_configs :
    (parse : Text → Option (List (Text × Option Text))) → (configs : Text) → List (Text × Text)
unfolding valid_configs
parse_secret_configs parse [] = []
parse_secret_configs parse (c ∷ s) = elim (parse (c ∷ s)) [
  | none ↦ []
  | some raw ↦ valid_configs raw []
]

unfoldable pub text_before : Text → Text → Bool
text_before [] t = true
text_before (c ∷ s) [] = false
text_before (c ∷ s) (d ∷ t) =
    let rest = text_before s t in if ltb c d then true else if c == d then rest else false

abbrev pub volume_name : (show : ℕ → Text) → ℕ → Text
volume_name show n = codes "jfs-config-" ++ show n

-- The loop on fuel: the first free name, and the number after it.
unfoldable pub next_config_volume_name :
    (show : ℕ → Text) → (used : List Text) → (next fuel : ℕ) → Option (Text × ℕ)
next_config_volume_name show used next zero = none
next_config_volume_name show used next (suc fuel) =
    let rest = next_config_volume_name show used (suc next) fuel in
    if text_contains used (volume_name show next)
    then rest
    else some (volume_name show next, suc next)

-- A volume by its name, with its secret where it is one; a mount by its volume and its path.
pub record Volumes : Type 0 where
  pub volumes : List (Text × Option Text)
  pub mounts : List (Text × Text)
  pub used_names : List Text
  pub used_paths : List Text
  pub next : ℕ

abbrev pub with_volume : Text → Text → Text × ℕ → Volumes → Volumes
with_volume secret path (name, next) v = record {
  volumes = v.volumes ++ (name, some secret) ∷ [];
  mounts = v.mounts ++ (name, path) ∷ [];
  used_names = name ∷ v.used_names;
  used_paths = path ∷ v.used_paths;
  next = next;
}

unfoldable pub add_configs : (show : ℕ → Text) → List (Text × Text) → Volumes → Option Volumes
unfolding next_config_volume_name
add_configs show [] v = some v
add_configs show ((secret, path) ∷ rest) v = elim (text_contains v.used_paths path) [
  | true ↦ add_configs show rest v
  | false ↦ elim (next_config_volume_name show v.used_names v.next (suc (length v.used_names))) [
    | none ↦ none
    | some named ↦ add_configs show rest (with_volume secret path named v)
  ]
]

abbrev pub start : List (Text × Option Text) → List (Text × Text) → Volumes
start volumes mounts = record {
  volumes = volumes;
  mounts = mounts;
  used_names = map (λ (v : Text × Option Text). v.0) volumes;
  used_paths = map (λ (m : Text × Text). m.1) mounts;
  next = 1;
}

abbrev pub by_secret : List (Text × Text) → List (Text × Text)
by_secret configs = sort_by (λ (a b : Text × Text). text_before a.0 b.0) configs

unfoldable pub append_secret_config_volumes :
    (show : ℕ → Text)
    → List (Text × Text)
    → List (Text × Option Text)
    → List (Text × Text)
    → Option Volumes
unfolding add_configs
append_secret_config_volumes show configs volumes mounts =
    add_configs show (by_secret configs) (start volumes mounts)
