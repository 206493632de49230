-- ===== src/Sync/Command.antt =====
-- The pods of a sync as far as the operator decides about them: genSyncCommands, genPrepareCommand,
-- genManagerEnvs and genSyncVolumes of pkg/builder/sync_pod.go. `show` prints a number
-- in decimals.
use juicefs_operator.Base.{
  ℕ, suc, Bool, ◌&&◌, Option, none, some, List, [], ◌∷◌, ◌++◌, any, if◌then◌else◌, from_option,
  is_some,
}
use juicefs_operator.Base.Text.{Text, codes, text_eq, join, split, strip_prefix}
use juicefs_operator.Sync.Sinks.{Env, Parsed}

-- The words of the options: `--name=value` becomes two words.
unfoldable pub sync_words : List Text → List Text
sync_words [] = []
sync_words (o ∷ os) =
    let rest = sync_words os in
    elim (split b'=' (from_option o (strip_prefix (codes "--") o))) [
      | [] ↦ rest
      | k ∷ [] ↦ (codes "--" ++ k) ∷ rest
      | k ∷ v ∷ [] ↦ (codes "--" ++ k) ∷ v ∷ rest
      | k ∷ v ∷ w ∷ ws ↦ (codes "--" ++ k) ∷ rest
    ]

abbrev worker_words : List Text → List Text
worker_words [] = []
worker_words (_ ∷ _) = codes "--worker" ∷ codes "$WORKER_IPS" ∷ []

abbrev files_words : Parsed → List Text
files_words p =
    if is_some p.files_from then codes "--files-from" ∷ codes "/tmp/sync-file/files" ∷ [] else []

unfoldable pub gen_sync_commands : (worker_ips : List Text) → List Text → Parsed → Parsed → Text
unfolding sync_words
gen_sync_commands worker_ips options source target = join b' ' (
    (codes "juicefs" ∷ codes "sync" ∷ worker_words worker_ips)
    ++ files_words source
    ++ sync_words options
    ++ source.uri ∷ target.uri ∷ [])

unfoldable pub gen_prepare_command : Parsed → Parsed → Text
gen_prepare_command source target =
    if text_eq source.prepare_command target.prepare_command
    then source.prepare_command
    else (if text_eq source.prepare_command [] then [] else source.prepare_command ++ 10 ∷ [])
      ++ target.prepare_command

-- A variable of the manager pod: the user's own, the workers' addresses, or one of an endpoint.
pub data ManagerEnv : Type 0 where
  user_env : (name value : Text) → ManagerEnv
  worker_ips_env : Text → ManagerEnv
  sink_env : Env → ManagerEnv

abbrev of_sink : List Env → List ManagerEnv
of_sink [] = []
of_sink (e ∷ es) = sink_env e ∷ of_sink es

abbrev ips_env : List Text → List ManagerEnv
ips_env [] = []
ips_env (ip ∷ ips) = worker_ips_env (join b',' (ip ∷ ips)) ∷ []

-- The user's variables come first, so that the operator's take precedence.
unfoldable pub gen_manager_envs :
    List ManagerEnv → (worker_ips : List Text) → Parsed → Parsed → List ManagerEnv
gen_manager_envs user worker_ips source target =
    user ++ ips_env worker_ips ++ of_sink source.envs ++ of_sink target.envs

-- The sources of a volume; for the keys of a distributed sync, the paths of the two items.
pub data VolumeSource : Type 0 where
  files_config : VolumeSource
  of_config_map of_secret of_claim : Text → VolumeSource
  of_host : Text → VolumeSource
  manager_keys worker_keys : VolumeSource

-- Each kind of an extra volume with the path that it is mounted at.
pub record ExtraVolume : Type 0 where
  pub config_map : Option (Text × Text)
  pub secret : Option (Text × Text)
  pub host_path : Option (Text × Text)
  pub pvc : Option (Text × Text)

pub record Volumes : Type 0 where
  pub volumes : List (Text × VolumeSource)
  pub mounts : List (Text × Text)

abbrev has_volume : Text → Volumes → Bool
has_volume name v = any (λ (x : Text × VolumeSource). text_eq x.0 name) v.volumes

abbrev mounted : Text → VolumeSource → Text → Volumes → Volumes
mounted name source path v = record {
  volumes = v.volumes ++ (name, source) ∷ [];
  mounts = v.mounts ++ (name, path) ∷ [];
}

add_pvc : Option (Text × Text) → Volumes → Volumes
add_pvc none v = v
add_pvc (some (claim, path)) v =
    if has_volume claim v then v else mounted claim (of_claim claim) path v

add_host_path : Text → Option (Text × Text) → Volumes → Volumes
add_host_path name none v = v
add_host_path name (some (host, path)) v = mounted name (of_host host) path v

-- A name that is taken ends the whole entry.
after_config_map : Text → ExtraVolume → Volumes → Volumes
unfolding add_pvc add_host_path
after_config_map name e v = elim e.secret [
  | none ↦ add_pvc e.pvc (add_host_path name e.host_path v)
  | some (secret, path) ↦
      if has_volume secret v
      then v
      else add_pvc e.pvc (add_host_path name e.host_path (mounted secret (of_secret secret) path v))
]

unfoldable pub add_extra_volume : Text → ExtraVolume → Volumes → Volumes
unfolding after_config_map
add_extra_volume name e v = elim e.config_map [
  | none ↦ after_config_map name e v
  | some (config, path) ↦
      if has_volume config v
      then v
      else after_config_map name e (mounted config (of_config_map config) path v)
]

unfoldable pub add_extra_volumes : (show : ℕ → Text) → ℕ → List ExtraVolume → Volumes → Volumes
unfolding add_extra_volume
add_extra_volumes show i [] v = v
add_extra_volumes show i (e ∷ es) v =
    add_extra_volumes show (suc i) es (add_extra_volume (codes "hostpath-" ++ show i) e v)

-- `files_config_map`: the source names a config map with the list of files.
unfoldable pub gen_sync_volumes :
    (show : ℕ → Text)
    → (manager distributed files_config_map : Bool) → (source target : List ExtraVolume) → Volumes
unfolding add_extra_volumes
gen_sync_volumes show manager distributed files_config_map source target =
    let none_yet : Volumes = record { volumes = []; mounts = [] } in
    let first =
      if manager && files_config_map
      then mounted (codes "files-from") files_config (codes "/tmp/sync-file") none_yet
      else none_yet in
    let all = add_extra_volumes show 0 (source ++ target) first in
    if distributed
    then mounted (codes "ssh-keys") (if manager then manager_keys else worker_keys)
        (codes "/root/ssh") all
    else all
