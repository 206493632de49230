-- ===== src/Builder/Worker.antt =====
-- The worker pod: newBasicPod, genEnvs, genInitConfigVolumes, addWorkerOptsVolume, genCommands,
-- genCommandsV2, NewCacheGroupWorker, V1WorkerHash and newWorker of pkg/builder/cache_group_pod.go. `V`
-- stands for the structures of Kubernetes that are passed on. Left out: the owner reference, which
-- names the group, and the container's constant name.
pub mod Parts
pub mod Hash
pub mod MapOrder
pub mod ReadBack
pub mod Promise
pub mod Script
use juicefs_operator.Base.{
  ◌>>=◌, ℕ, String, Bool, true, false, not, ◌&&◌, Option, none, some, List, [], ◌∷◌, ◌++◌, str_eq,
  if◌then◌else◌, lookup, insert, is_some, copy_into,
}
use juicefs_operator.Base.Text.{Text, codes, trim_space}
use juicefs_operator.CacheGroup.{CacheGroup}
use juicefs_operator.CacheGroup.GroupStatus.{gen_cache_group_name}
use juicefs_operator.CacheGroup.Update.{get_pod_name}
use juicefs_operator.Labels.{truncate_label_value}
use juicefs_operator.Version.{compare_image_version, is_ee_image_at_least, at_least}
use juicefs_operator.Pods.Placement.{NodeAffinity, add_node_name_node_affinity}
use juicefs_operator.Builder.{gen_mount_opts}
use juicefs_operator.Builder.Commands.{gen_auth_cmds, with_join_option, gen_shell_commands}
use juicefs_operator.Builder.Worker.Parts.{
  Value, text, instant, Setting, given, built_in, unset, or_built_in, EnvVar, Volume, Spec,
  PodBuilder, Gathered, worker_opts_volume, gen_envs, gen_volumes, vol_name, init_config, scripts,
}

pub data Affinity : Type 0 where
  no_affinity spread_workers : Affinity
  by_node : Option NodeAffinity → Affinity

pub record Basic (V : Type 0) : Type 0 where
  pub name : String
  pub namespace : String
  pub labels : List (String × Text)
  pub node_selector : Option V
  pub node_name : String
  pub affinity : Affinity

pub record Worker (V : Type 0) : Type 0 where
  pub name : String
  pub namespace : String
  pub labels : List (String × Text)
  pub annotations : List (String × Value)
  pub node_selector : Option V
  pub node_name : String
  pub affinity : Affinity
  pub host_network : Bool
  pub dns_policy : Option V
  pub image_pull_secrets : Option V
  pub tolerations : V
  pub scheduler_name : V
  pub service_account_name : V
  pub enable_service_links : V
  pub image_pull_policy : V
  pub liveness_probe : V
  pub startup_probe : V
  pub readiness_probe : Setting V
  pub security_context : Setting V
  pub lifecycle : Setting V
  pub resources : Setting V
  pub volumes : List (Text × Volume V)
  pub volume_mounts : List (Text × Text)
  pub volume_devices : List (Text × Text)
  pub image : Text
  pub env : List (EnvVar V)
  pub command : List Text

-- What the builder calls: strconv.Itoa, ParseYamlOrJson with the values as they print or as strings,
-- the MD5 sum, the operator's own pod (namespace and pull secrets), GenHash and the clock.
pub record Outside (V : Type 0) : Type 0 where
  pub show : ℕ → Text
  pub parse_envs : Text → Option (List (Text × Text))
  pub parse_configs : Text → Option (List (Text × Option Text))
  pub cal_md5 : Text → Text
  pub operator_pod : Option (String × V)
  pub gen_hash : Worker V → Text
  pub now : ℕ

unfoldable pub supports_restart_args : Text → Bool
unfolding is_ee_image_at_least
supports_restart_args image = is_ee_image_at_least image (codes "5.4.4")

module _ {V : Type 0} where
  abbrev pull_secrets : Option (String × V) → String → Option V → Option V
  pull_secrets operator_pod namespace (some s) = some s
  pull_secrets none namespace none = none
  pull_secrets (some (operator_namespace, s)) namespace none =
      if str_eq operator_namespace namespace then some s else none

  -- newBasicPod: only a group of replicas spreads its workers, as a preference.
  unfoldable pub new_basic_pod : PodBuilder V → (group_label : Text) → Basic V
  new_basic_pod p group_label =
      let labels =
        ("juicefs.io/cache-group", group_label)
        ∷ ("app.kubernetes.io/name", codes "juicefs-cache-group-worker")
        ∷ [] in
      elim p.cg.spec.replicas [
        | some _ ↦ record {
          name = get_pod_name p.cg p.node;
          namespace = p.cg.namespace;
          labels = labels;
          node_selector = p.node_selector;
          node_name = "";
          affinity = spread_workers;
        }
        | none ↦ record {
          name = get_pod_name p.cg p.node;
          namespace = p.cg.namespace;
          labels = labels;
          node_selector = if p.cg.spec.enable_scheduling then p.node_selector else none;
          node_name = if p.cg.spec.enable_scheduling then "" else p.node;
          affinity = no_affinity;
        }
      ]

  -- The branch of newWorker on the affinity of the template.
  unfoldable pub affinity_of : PodBuilder V → (dryrun : Bool) → Affinity → Affinity
  unfolding add_node_name_node_affinity
  affinity_of p dryrun basic = elim p.cg.spec.replicas [
    | some _ ↦ basic
    | none ↦
        if not p.cg.spec.enable_scheduling
        then basic
        else if dryrun
        then by_node (elim p.spec.affinity [ none ↦ none | some a ↦ a ])
        else by_node (some (add_node_name_node_affinity p.spec.affinity p.node))
  ]

  unfoldable pub mount_opts_of : PodBuilder V → Gathered V → Text
  unfolding gen_mount_opts gen_cache_group_name
  mount_opts_of p parts =
      gen_mount_opts (codes (gen_cache_group_name p.cg)) p.spec.opts parts.in_container

  unfoldable pub joined_opts : PodBuilder V → Text → Text
  unfolding with_join_option compare_image_version
  joined_opts p opts =
      with_join_option p.add_join_option
        (at_least (compare_image_version p.spec.image (codes "5.4.4"))) opts

  unfoldable pub shell : PodBuilder V → Gathered V → Text → List Text
  unfolding gen_auth_cmds gen_shell_commands scripts
  shell p parts mount_opts_arg =
      gen_shell_commands (vol_name p) (gen_auth_cmds (vol_name p) (init_config p) p.secret)
        (scripts parts.device_mounts) mount_opts_arg

  unfoldable pub gen_commands : PodBuilder V → Gathered V → List Text
  unfolding shell mount_opts_of joined_opts
  gen_commands p parts = shell p parts (codes "-o " ++ joined_opts p (mount_opts_of p parts))

  unfoldable pub gen_commands_v2 : PodBuilder V → Gathered V → List Text
  unfolding shell
  gen_commands_v2 p parts = shell p parts (codes "-o \"$(cat /etc/juicefs-worker/mount-opts)\"")

  -- The worker of the first template, as it is hashed.
  unfoldable pub hashed : Outside V → PodBuilder V → (dryrun : Bool) → Text → Gathered V → Worker V
  unfolding new_basic_pod gen_commands affinity_of gen_envs
  hashed o p dryrun group_label parts = record {
    name = (new_basic_pod p group_label).name;
    namespace = (new_basic_pod p group_label).namespace;
    labels = copy_into (new_basic_pod p group_label).labels p.spec.labels;
    annotations = copy_into [] p.spec.annotations;
    node_selector = (new_basic_pod p group_label).node_selector;
    node_name = (new_basic_pod p group_label).node_name;
    affinity = affinity_of p dryrun (new_basic_pod p group_label).affinity;
    host_network = elim p.spec.host_network [ none ↦ true | some b ↦ b ];
    dns_policy = p.spec.dns_policy;
    image_pull_secrets = pull_secrets o.operator_pod p.cg.namespace p.spec.image_pull_secrets;
    tolerations = p.spec.tolerations;
    scheduler_name = p.spec.scheduler_name;
    service_account_name = p.spec.service_account_name;
    enable_service_links = p.spec.enable_service_links;
    image_pull_policy = p.spec.image_pull_policy;
    liveness_probe = p.spec.liveness_probe;
    startup_probe = p.spec.startup_probe;
    readiness_probe = elim p.spec.readiness_probe [ none ↦ unset | some r ↦ given r ];
    security_context = or_built_in p.spec.security_context;
    lifecycle = or_built_in p.spec.lifecycle;
    resources = or_built_in p.spec.resources;
    volumes = parts.volumes;
    volume_mounts = parts.volume_mounts;
    volume_devices = parts.volume_devices;
    image = p.spec.image;
    env = gen_envs o.parse_envs p;
    command = gen_commands p parts;
  }

  -- The same of the second template: its options stand in an annotation, which a volume shows.
  unfoldable pub hashed_v2 :
      Outside V → PodBuilder V → (dryrun : Bool) → Text → Gathered V → Worker V
  unfolding hashed gen_commands_v2 mount_opts_of
  hashed_v2 o p dryrun group_label parts =
      let w = hashed o p dryrun group_label parts in
      record w {
        annotations =
            insert "juicefs.io/worker-mount-opts" (text (mount_opts_of p parts))
              (insert "juicefs.io/worker-template" (text (codes "v2")) w.annotations);
        volumes = w.volumes ++ (codes "jfs-worker-opts", worker_opts_volume) ∷ [];
        volume_mounts =
            w.volume_mounts ++ (codes "jfs-worker-opts", codes "/etc/juicefs-worker") ∷ [];
        command = gen_commands_v2 p parts;
      }

  abbrev with_default_probe : Setting V → Setting V
  with_default_probe unset = built_in
  with_default_probe built_in = built_in
  with_default_probe (given r) = given r

  -- What does not take part in the hash: `opts` are the options of the second template.
  unfoldable pub finished : Outside V → PodBuilder V → (opts : Option Text) → Worker V → Worker V
  unfolding joined_opts
  finished o p opts w =
      let with_hash = insert "juicefs.io/worker-hash" (text (o.gen_hash w)) w.annotations in
      let with_opts : List (String × Value) = elim opts [
        | none ↦ with_hash
        | some s ↦ insert "juicefs.io/worker-mount-opts" (text (joined_opts p s)) with_hash
      ] in
      record w {
        labels = insert "app.kubernetes.io/managed-by" (codes "juicefs-operator") w.labels;
        annotations =
            if p.add_join_option
            then insert "juicefs.io/backup-worker" (instant o.now) with_opts
            else with_opts;
        readiness_probe = with_default_probe w.readiness_probe;
      }

  assemble : Outside V → PodBuilder V → (dryrun v2 : Bool) → Text → Gathered V → Worker V
  unfolding hashed hashed_v2 finished
  assemble o p dryrun true label parts =
      finished o p (some (mount_opts_of p parts)) (hashed_v2 o p dryrun label parts)
  assemble o p dryrun false label parts = finished o p none (hashed o p dryrun label parts)

  -- `none` is a panic: a claim template that is missing, or a slice out of range for the label.
  unfoldable pub new_worker : Outside V → PodBuilder V → (dryrun v2 : Bool) → Option (Worker V)
  unfolding assemble gen_volumes
  new_worker o p dryrun v2 = truncate_label_value o.cal_md5 (codes p.cg.name) >>= λ label.
      gen_volumes o.show o.parse_configs p >>= λ parts. some (assemble o p dryrun v2 label parts)

  unfoldable pub new_cache_group_worker :
      Outside V → PodBuilder V → (dryrun : Bool) → Option (Worker V)
  unfolding new_worker supports_restart_args
  new_cache_group_worker o p dryrun =
      let p' = record p { add_join_option = not dryrun && p.add_join_option } in
      new_worker o p' dryrun (supports_restart_args p.spec.image)

  abbrev pub hash_of : Worker V → Option Value
  hash_of w = lookup "juicefs.io/worker-hash" w.annotations

  unfoldable pub v1_worker_hash : Outside V → PodBuilder V → Option (Option Value)
  unfolding new_worker
  v1_worker_hash o p = elim (new_worker o p false false) [ none ↦ none | some w ↦ some (hash_of w) ]
