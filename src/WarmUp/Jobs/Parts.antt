-- ===== src/WarmUp/Jobs/Parts.antt =====
-- What the jobs of warm-ups are built from (pkg/builder/job.go): the builder's data, and the image, the
-- environment and the volumes. `V` stands for the structures of Kubernetes that are passed on.
use juicefs_operator.Base.{
  ◌>>=◌, ℕ, String, Bool, ◌||◌, Option, none, some, List, [], ◌∷◌, ◌++◌, from_option, lookup, map,
  drop, if◌then◌else◌,
}
use juicefs_operator.Base.Sort.{sort_by}
use juicefs_operator.Base.Text.{Text, codes, text_eq, has_prefix, trim_space}
use juicefs_operator.Builder.Configs.{parse_secret_configs, append_secret_config_volumes}
use juicefs_operator.Builder.Worker.Parts.{
  Setting, given, built_in, EnvVar, env_before, secret_envs, stripped_envs,
}
use juicefs_operator.WarmUp.Command.{Targets}
use juicefs_operator.WarmUp.MountInfo.{Worker}

-- What the builder reads of a worker pod.
pub record WorkerPod (V : Type 0) : Type 0 where
  pub mount : Worker
  pub image : Text
  pub image_pull_policy : V
  pub image_pull_secrets : Option V
  pub env : List (EnvVar V)
  pub volumes : List (Text × V)
  pub volume_mounts : List (Text × Text)
  pub service_account_name : Text
  pub host_network : Bool
  pub scheduler_name : Text
  pub dns_policy : Option V
  pub affinity : Option V
  pub enable_service_links : Option V

-- The resource; `files_from` is the config map of its targets with the key.
pub record Spec (V : Type 0) : Type 0 where
  pub name : Text
  pub namespace : Text
  pub secret_ref : Text
  pub mount_options : List Text
  pub backoff_limit : Option V
  pub labels : List (String × Text)
  pub annotations : List (String × Text)
  pub tolerations : V
  pub node_selector : V
  pub service_account_name : Text
  pub host_network : Option Bool
  pub scheduler_name : Text
  pub dns_policy : Option V
  pub affinity : Option V
  pub enable_service_links : Option V
  pub targets : Targets
  pub files_from : Option (Text × Text)
  pub resources : V
  pub image : Text
  pub image_pull_policy : Option V
  pub image_pull_secrets : Option V
  pub env : List (EnvVar V)
  pub schedule : Text
  pub suspend : Option V

-- `secret` is what ParseSecret gives; it counts where there is no worker.
pub record JobBuilder (V : Type 0) : Type 0 where
  pub wu : Spec V
  pub worker : Option (WorkerPod V)
  pub secret : List (String × Text)
  pub cache_group_name : Text

pub data JobVolume (V : Type 0) : Type 0 where
  of_worker : V → JobVolume V
  init_config config_map_item : (name item : Text) → JobVolume V
  config_secret : Option Text → JobVolume V

pub record Job (V : Type 0) : Type 0 where
  pub name : Text
  pub namespace : Text
  pub backoff_limit : Option V
  pub labels : List (String × Text)
  pub annotations : List (String × Text)
  pub tolerations : V
  pub node_selector : V
  pub service_account_name : Text
  pub host_network : Bool
  pub scheduler_name : Text
  pub dns_policy : Option V
  pub affinity : Option V
  pub enable_service_links : Option V
  pub image_pull_secrets : Option V
  pub image : Text
  pub image_pull_policy : Setting V
  pub command : List Text
  pub env : List (EnvVar V)
  pub resources : V
  pub volumes : List (Text × JobVolume V)
  pub volume_mounts : List (Text × Text)

-- The job of the template is the one that NewWarmUpJob gives, without its name.
pub record CronJob (V : Type 0) : Type 0 where
  pub name : Text
  pub schedule : Text
  pub suspend : Option V
  pub job : Job V
  pub hash : Text

pub record Outside (V : Type 0) : Type 0 where
  pub show : ℕ → Text
  pub parse_envs : Text → Option (List (Text × Text))
  pub parse_configs : Text → Option (List (Text × Option Text))
  pub cal_md5 : Text → Text
  pub gen_hash : CronJob V → Text

-- What the resource gives, or else what the worker has, or else nothing.
abbrev pub or_text : Text → Text → Text
or_text [] other = other
or_text (c ∷ s) other = c ∷ s

abbrev pub or_else : {A : Type 0} → Option A → Option A → Option A
or_else none other = other
or_else (some a) other = some a

module _ {V : Type 0} where
  abbrev pub of_pod : {A : Type 0} → (WorkerPod V → A) → A → JobBuilder V → A
  of_pod field d j = elim j.worker [ none ↦ d | some w ↦ field w ]

  unfoldable pub get_image : JobBuilder V → Text
  get_image j = or_text j.wu.image (of_pod (λ w. w.image) [] j)

  unfoldable pub get_image_pull_secrets : JobBuilder V → Option V
  get_image_pull_secrets j =
      or_else j.wu.image_pull_secrets (of_pod (λ w. w.image_pull_secrets) none j)

  unfoldable pub get_image_pull_policy : JobBuilder V → Setting V
  get_image_pull_policy j = elim j.wu.image_pull_policy [
    | some p ↦ given p
    | none ↦ of_pod (λ w. given w.image_pull_policy) built_in j
  ]

  unfoldable pub get_envs :
      (parse : Text → Option (List (Text × Text))) → JobBuilder V → List (EnvVar V)
  unfolding sort_by secret_envs
  get_envs parse j = elim j.worker [
    | some w ↦ w.env ++ j.wu.env
    | none ↦
        sort_by env_before (
          secret_envs parse (lookup "envs" j.secret) ++ (stripped_envs j.wu.secret_ref ++ j.wu.env))
  ]

  -- The last volume of a name.
  unfoldable pub volume_named : Text → List (Text × V) → Option V
  volume_named name [] = none
  volume_named name ((n, v) ∷ vs) =
      or_else (volume_named name vs) (if text_eq n name then some v else none)

  -- The worker's volumes of configs, in the order of its mounts.
  unfoldable pub worker_volumes :
      List (Text × V) → List (Text × Text) → List (Text × JobVolume V) × List (Text × Text)
  unfolding volume_named
  worker_volumes volumes [] = ([], [])
  worker_volumes volumes ((name, path) ∷ mounts) =
      let (vs, ms) = worker_volumes volumes mounts in
      if text_eq name (codes "init-config") || has_prefix (codes "jfs-config-") name
      then elim (volume_named name volumes) [
        | none ↦ (vs, ms)
        | some v ↦ ((name, of_worker v) ∷ vs, (name, path) ∷ ms)
      ]
      else (vs, ms)

  abbrev of_configs : List (Text × Option Text) → List (Text × JobVolume V)
  of_configs vs =
      map (λ (v : Text × Option Text). let r : Text × JobVolume V = (v.0, config_secret v.1) in r)
        vs

  -- The volumes of the secret: its initial configuration and its configs.
  unfoldable pub secret_volumes :
      Outside V
      → (secret_ref : Text) → List (String × Text)
      → Option (List (Text × JobVolume V) × List (Text × Text))
  unfolding parse_secret_configs append_secret_config_volumes
  secret_volumes o secret_ref secret =
      let configs =
        parse_secret_configs o.parse_configs (from_option [] (lookup "configs" secret)) in
      let file = trim_space (from_option [] (lookup "name" secret)) ++ codes ".conf" in
      if text_eq (from_option [] (lookup "initconfig" secret)) []
      then (append_secret_config_volumes o.show configs [] [] >>= λ v.
          some (of_configs v.volumes, v.mounts))
      else (append_secret_config_volumes o.show configs ((codes "init-config", none) ∷ [])
            ((codes "init-config", codes "/etc/juicefs") ∷ [])
          >>= λ v. some (
            (codes "init-config", init_config secret_ref file) ∷ of_configs (drop 1 v.volumes),
            v.mounts,
          ))

  -- The config map of files is mounted at the path of the list of files.
  abbrev with_files :
      Spec V
      → List (Text × JobVolume V) × List (Text × Text)
      → List (Text × JobVolume V) × List (Text × Text)
  with_files wu (vs, ms) = elim wu.targets.targets_from [
    | none ↦ (vs, ms)
    | some _ ↦ elim wu.files_from [
      | none ↦ (vs, ms)
      | some (config, key) ↦ (
        vs ++ (codes "files-from", config_map_item config key) ∷ [],
        ms ++ (codes "files-from", codes "/tmp/filelist.txt") ∷ [],
      )
    ]
  ]

  unfoldable pub get_warmup_volumes :
      Outside V → JobBuilder V → Option (List (Text × JobVolume V) × List (Text × Text))
  unfolding worker_volumes secret_volumes
  get_warmup_volumes o j =
      elim j.worker [
        | some w ↦ some (worker_volumes w.volumes w.volume_mounts)
        | none ↦ secret_volumes o j.wu.secret_ref j.secret
      ]
      >>= λ v. some (with_files j.wu v)
