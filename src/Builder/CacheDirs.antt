-- ===== src/Builder/CacheDirs.antt =====
-- The cache directories of a worker: genCacheDirs of pkg/builder/cache_group_pod.go. `show` prints a
-- number in decimals; the script that mounts a device is kept as what it is made from.
use juicefs_operator.Base.{ℕ, suc, Bool, true, false, Option, none, some, List, [], ◌∷◌, ◌++◌}
use juicefs_operator.Base.Text.{Text, codes}

pub data DirType : Type 0 where
  host_path pvc volume_claim_templates : DirType

-- The name of a claim template, and whether its volume mode is Block.
pub record ClaimTemplate : Type 0 where
  pub name : Text
  pub block : Bool

pub record CacheDir : Type 0 where
  pub type : DirType
  pub path : Text
  pub name : Text
  pub block : Bool
  pub format : Bool
  pub volume_claim_template : Option ClaimTemplate

pub data VolumeSource : Type 0 where
  on_host of_claim : Text → VolumeSource

pub record DeviceMount : Type 0 where
  pub device : Text
  pub directory : Text
  pub format : Bool

-- What the builder appends to the pod.
pub record Dirs : Type 0 where
  pub volumes : List (Text × VolumeSource)
  pub volume_mounts : List (Text × Text)
  pub volume_devices : List (Text × Text)
  pub device_mounts : List DeviceMount
  pub in_container : List Text

abbrev pub no_dirs : Dirs
no_dirs = record {
  volumes = [];
  volume_mounts = [];
  volume_devices = [];
  device_mounts = [];
  in_container = [];
}

-- Is it a device, and what backs it; `none` where the code dereferences a missing template.
unfoldable pub backing : (worker : Text) → CacheDir → DirType → Option (Bool × VolumeSource)
backing worker d host_path = some (false, on_host d.path)
backing worker d pvc = some (d.block, of_claim d.name)
backing worker d volume_claim_templates = elim d.volume_claim_template [
  | none ↦ none
  | some t ↦ some (t.block, of_claim (t.name ++ codes "-" ++ worker))
]

abbrev pub volume_name : (show : ℕ → Text) → ℕ → Text
volume_name show i = codes "jfs-cache-dir-" ++ show i

abbrev pub path_of : (show : ℕ → Text) → ℕ → Text
path_of show i = codes "/var/jfsCache-" ++ show i

unfoldable pub add_dir : (name path : Text) → (format : Bool) → Bool × VolumeSource → Dirs → Dirs
add_dir name path format (true, source) r = record {
  volumes = r.volumes ++ (name, source) ∷ [];
  volume_mounts = r.volume_mounts;
  volume_devices = r.volume_devices ++ (name, codes "/dev/" ++ name) ∷ [];
  device_mounts =
      r.device_mounts
      ++ record { device = codes "/dev/" ++ name; directory = path; format = format } ∷ [];
  in_container = r.in_container ++ path ∷ [];
}
add_dir name path format (false, source) r = record r {
  volumes = r.volumes ++ (name, source) ∷ [];
  volume_mounts = r.volume_mounts ++ (name, path) ∷ [];
  in_container = r.in_container ++ path ∷ [];
}

unfoldable pub add_dirs :
    (show : ℕ → Text) → (worker : Text) → ℕ → List CacheDir → Dirs → Option Dirs
unfolding add_dir backing
add_dirs show worker i [] r = some r
add_dirs show worker i (d ∷ ds) r = elim (backing worker d d.type) [
  | none ↦ none
  | some b ↦
      add_dirs show worker (suc i) ds (add_dir (volume_name show i) (path_of show i) d.format b r)
]

-- With no directory, the default one on the host.
unfoldable pub with_default : (show : ℕ → Text) → Dirs → Dirs
with_default show r = elim r.in_container [
  | _ ∷ _ ↦ r
  | [] ↦ record r {
    volumes = r.volumes ++ (volume_name show 0, on_host (codes "/var/jfsCache")) ∷ [];
    volume_mounts = r.volume_mounts ++ (volume_name show 0, codes "/var/jfsCache") ∷ [];
    in_container = codes "/var/jfsCache" ∷ [];
  }
]

unfoldable pub gen_cache_dirs : (show : ℕ → Text) → (worker : Text) → List CacheDir → Option Dirs
unfolding add_dirs with_default
gen_cache_dirs show worker dirs = elim (add_dirs show worker 0 dirs no_dirs) [
  | none ↦ none
  | some r ↦ some (with_default show r)
]
