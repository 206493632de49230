-- ===== src/Builder/Worker/Parts.antt =====
-- The parts of a worker pod: genEnvs, genInitConfigVolumes and cacheDeviceMountScript of
-- pkg/builder/cache_group_pod.go, and the volumes in the order in which newWorker adds them.
use juicefs_operator.Base.{
  ℕ, String, Bool, true, false, Option, none, some, List, [], ◌∷◌, ◌++◌, from_option, lookup,
  insert, map, drop, length, if◌then◌else◌,
}
use juicefs_operator.Base.Text.{Text, codes, text_eq, trim_space, join}
use juicefs_operator.Base.Sort.{sort_by}
use juicefs_operator.CacheGroup.{CacheGroup}
use juicefs_operator.CacheGroup.Update.{get_pod_name}
use juicefs_operator.Pods.Placement.{NodeAffinity}
use juicefs_operator.Builder.{parse_secret}
use juicefs_operator.Builder.CacheDirs.{CacheDir, VolumeSource, DeviceMount, Dirs, gen_cache_dirs}
use juicefs_operator.Builder.Configs.{
  Volumes, text_before, parse_secret_configs, append_secret_config_volumes,
}

-- The value of an annotation: a text, or the instant that an RFC3339 text stands for.
pub data Value : Type 0 where
  text : Text → Value
  instant : ℕ → Value

abbrev pub text_of : Option Value → Text
text_of (some (text t)) = t
text_of _ = []

-- The annotations with the one of the join phase, where the worker joins.
abbrev pub phased : Bool → Value → List (String × Value) → List (String × Value)
phased join since m = if join then insert "juicefs.io/backup-worker" since m else m

-- A field that is given, has the default that the code writes, or is absent.
pub data Setting (V : Type 0) : Type 0 where
  given : V → Setting V
  built_in unset : Setting V

abbrev pub or_built_in : {V : Type 0} → Option V → Setting V
or_built_in none = built_in
or_built_in (some v) = given v

pub data EnvSource (V : Type 0) : Type 0 where
  plain : Text → EnvSource V
  secret_key : (key : String) → (optional : Bool) → (secret : Text) → EnvSource V
  other : V → EnvSource V

pub record EnvVar (V : Type 0) : Type 0 where
  pub name : Text
  pub source : EnvSource V

pub data Volume (V : Type 0) : Type 0 where
  user_volume : V → Volume V
  backed : VolumeSource → Volume V
  init_config_volume : (secret file : Text) → Volume V
  config_secret : Option Text → Volume V
  worker_opts_volume : Volume V

-- CacheGroupWorkerTemplate, as the builder reads it.
pub record Spec (V : Type 0) : Type 0 where
  pub labels : List (String × Text)
  pub annotations : List (String × Value)
  pub host_network : Option Bool
  pub dns_policy : Option V
  pub image_pull_secrets : Option V
  pub affinity : Option (Option NodeAffinity)
  pub tolerations : V
  pub scheduler_name : V
  pub service_account_name : V
  pub enable_service_links : V
  pub image_pull_policy : V
  pub liveness_probe : V
  pub startup_probe : V
  pub readiness_probe : Option V
  pub security_context : Option V
  pub lifecycle : Option V
  pub resources : Option V
  pub volumes : List (Text × Volume V)
  pub volume_mounts : List (Text × Text)
  pub volume_devices : List (Text × Text)
  pub image : Text
  pub env : List (EnvVar V)
  pub opts : List Text
  pub cache_dirs : List CacheDir

-- PodBuilder before it builds: `secret` is what ParseSecret gives, `secret_ref` the secret's name, and
-- `node_selector` that of the group's template.
pub record PodBuilder (V : Type 0) : Type 0 where
  pub cg : CacheGroup
  pub node : String
  pub spec : Spec V
  pub secret : List (String × Text)
  pub secret_ref : Text
  pub node_selector : Option V
  pub add_join_option : Bool

-- What the builder has gathered in its own fields.
pub record Gathered (V : Type 0) : Type 0 where
  pub volumes : List (Text × Volume V)
  pub volume_mounts : List (Text × Text)
  pub volume_devices : List (Text × Text)
  pub device_mounts : List DeviceMount
  pub in_container : List Text

abbrev script_lines : List Text
script_lines =
    []
    ∷ codes "mkdir -p \"$CACHE_DIR\" || exit 1"
    ∷ codes "FS_TYPE=$(blkid -p -u filesystem -s TYPE -o value \"$CACHE_DEVICE\" 2>/dev/null)"
    ∷ codes "if [ -z \"$FS_TYPE\" ]; then"
    ∷ codes "\tif [ \"$FORMAT_DEVICE\" != \"true\" ]; then"
    ∷ codes
        "\t\techo \"Cache device $CACHE_DEVICE does not contain a recognized filesystem; set cacheDirs[].format to true to format it\" >&2"
    ∷ codes "\t\texit 1"
    ∷ codes "\tfi"
    ∷ codes
        "\tWIPEFS_OUTPUT=$(wipefs --no-act --noheadings --output TYPE \"$CACHE_DEVICE\") || exit 1"
    ∷ codes "\tif [ -n \"$WIPEFS_OUTPUT\" ]; then"
    ∷ codes
        "\t\techo \"Cache device $CACHE_DEVICE contains a recognized signature; refusing to format it automatically\" >&2"
    ∷ codes "\t\texit 1"
    ∷ codes "\tfi"
    ∷ codes "\tmkfs.ext4 \"$CACHE_DEVICE\" || exit 1"
    ∷ codes "\tFS_TYPE=ext4"
    ∷ codes "fi"
    ∷ []
    ∷ codes "mount \"$CACHE_DEVICE\" \"$CACHE_DIR\" || exit 1"
    ∷ codes "if [ \"$FS_TYPE\" = \"ext4\" ]; then"
    ∷ codes "\tresize2fs \"$CACHE_DEVICE\" || exit 1"
    ∷ codes "fi"
    ∷ []

unfoldable pub cache_device_mount_script : DeviceMount → Text
cache_device_mount_script d = join 10 (
    (codes "CACHE_DEVICE=" ++ d.device)
    ∷ (codes "CACHE_DIR=" ++ d.directory)
    ∷ (codes "FORMAT_DEVICE=" ++ (if d.format then codes "true" else codes "false"))
    ∷ script_lines)

unfoldable pub scripts : List DeviceMount → List Text
unfolding cache_device_mount_script
scripts ds = map cache_device_mount_script ds

module _ {V : Type 0} where
  -- The trimmed name and the initial configuration are read where they are used.
  unfoldable pub new_pod_builder :
      CacheGroup
      → (raw : List (String × Text)) → (secret_ref : Text) → Option V
      → String
      → Spec V
      → Bool
      → PodBuilder V
  unfolding parse_secret
  new_pod_builder cg raw secret_ref node_selector node spec add_join_option = record {
    cg = cg;
    node = node;
    spec = spec;
    secret = parse_secret raw [];
    secret_ref = secret_ref;
    node_selector = node_selector;
    add_join_option = add_join_option;
  }

  unfoldable pub vol_name : PodBuilder V → Text
  vol_name p = trim_space (from_option [] (lookup "name" p.secret))

  unfoldable pub init_config : PodBuilder V → Text
  init_config p = from_option [] (lookup "initconfig" p.secret)

  abbrev pub env_before : EnvVar V → EnvVar V → Bool
  env_before a b = text_before a.name b.name

  abbrev pub plain_env : Text × Text → EnvVar V
  plain_env (k, v) = record { name = k; source = plain v }

  -- The variables of the secret, in the order in which the map gives them.
  unfoldable pub secret_envs :
      (parse : Text → Option (List (Text × Text))) → Option Text → List (EnvVar V)
  secret_envs parse none = []
  secret_envs parse (some []) = []
  secret_envs parse (some (c ∷ s)) = elim (parse (c ∷ s)) [
    | none ↦ []
    | some kvs ↦ map plain_env kvs
  ]

  abbrev pub stripped_envs : Text → List (EnvVar V)
  stripped_envs secret_ref =
      record { name = codes "TOKEN"; source = secret_key "token" false secret_ref }
      ∷ record { name = codes "SECRET_KEY"; source = secret_key "secret-key" true secret_ref }
      ∷ record { name = codes "SECRET_KEY_2"; source = secret_key "secret-key2" true secret_ref }
      ∷ []

  -- `sort.SliceStable` by the name: the insertion puts a variable before those of its own name that
  -- come later.
  unfoldable pub gen_envs :
      (parse : Text → Option (List (Text × Text))) → PodBuilder V → List (EnvVar V)
  unfolding secret_envs sort_by text_before
  gen_envs parse p =
      sort_by env_before
        (secret_envs parse (lookup "envs" p.secret) ++ (stripped_envs p.secret_ref ++ p.spec.env))

  unfoldable pub gen_init_config_volumes :
      PodBuilder V → List (Text × Volume V) × List (Text × Text)
  unfolding init_config vol_name
  gen_init_config_volumes p =
      if text_eq (init_config p) [] then (p.spec.volumes, p.spec.volume_mounts) else (
        p.spec.volumes
            ++ (codes "init-config", init_config_volume p.secret_ref (vol_name p ++ codes ".conf"))
              ∷ [],
        p.spec.volume_mounts ++ (codes "init-config", codes "/etc/juicefs") ∷ [],
      )

  abbrev of_dirs : List (Text × VolumeSource) → List (Text × Volume V)
  of_dirs vs =
      map (λ (v : Text × VolumeSource). let r : Text × Volume V = (v.0, backed v.1) in r) vs

  abbrev of_configs : List (Text × Option Text) → List (Text × Volume V)
  of_configs vs =
      map (λ (v : Text × Option Text). let r : Text × Volume V = (v.0, config_secret v.1) in r) vs

  abbrev names_of : List (Text × Volume V) → List (Text × Option Text)
  names_of vs = map (λ (v : Text × Volume V). let r : Text × Option Text = (v.0, none) in r) vs

  with_dirs : PodBuilder V → Dirs → Gathered V
  unfolding gen_init_config_volumes
  with_dirs p d = record {
    volumes = (gen_init_config_volumes p).0 ++ of_dirs d.volumes;
    volume_mounts = (gen_init_config_volumes p).1 ++ d.volume_mounts;
    volume_devices = p.spec.volume_devices ++ d.volume_devices;
    device_mounts = d.device_mounts;
    in_container = d.in_container;
  }

  -- The volumes of the configs come behind those that are there.
  with_configs : Gathered V → Volumes → Gathered V
  with_configs parts v = record parts {
    volumes = parts.volumes ++ of_configs (drop (length parts.volumes) v.volumes);
    volume_mounts = v.mounts;
  }

  unfoldable pub gen_volumes :
      (show : ℕ → Text)
      → (parse : Text → Option (List (Text × Option Text))) → PodBuilder V
      → Option (Gathered V)
  unfolding with_dirs with_configs gen_cache_dirs parse_secret_configs append_secret_config_volumes
  gen_volumes show parse p =
      elim (gen_cache_dirs show (codes (get_pod_name p.cg p.node)) p.spec.cache_dirs) [
        | none ↦ none
        | some d ↦
            let parts = with_dirs p d in
            elim (append_secret_config_volumes show
              (parse_secret_configs parse (from_option [] (lookup "configs" p.secret)))
              (names_of parts.volumes) parts.volume_mounts) [
                | none ↦ none
                | some v ↦ some (with_configs parts v)
              ]
      ]
