-- ===== src/Sync/Template.antt =====
-- The pods of a sync: SyncPodBuilder of pkg/builder/sync_pod.go with NewSyncPodBuilder,
-- UpdateWorkerIPs, newWorkerPod, NewWorkerPods and NewManagerPod. `V` stands for the structures of
-- Kubernetes that are passed on. Left out are constants: the owner reference, the restart policy, the
-- grace period, the capabilities and the container's name. The build of a pod cuts the affinity of
-- the resource in place, so it gives the builder back.
pub mod Script
pub mod Shared
pub mod Apart
use juicefs_operator.Base.{
  ◌>>=◌, ℕ, zero, suc, ◌-◌, String, Bool, true, false, Option, none, some, List, [], ◌∷◌, ◌++◌,
  is_some, from_option, insert, copy_into, leb, if◌then◌else◌,
}
use juicefs_operator.Base.Int.{ℤ, pos}
use juicefs_operator.Base.Text.{Text, codes, text_eq}
use juicefs_operator.Labels.{truncate_label_value}
use juicefs_operator.Sync.{more_than_one}
use juicefs_operator.Sync.Affinity.{Affinity, truncate_sync_affinity}
use juicefs_operator.Sync.Command.{
  ManagerEnv, ExtraVolume, Volumes, gen_sync_commands, gen_prepare_command, gen_manager_envs,
  gen_sync_volumes,
}
use juicefs_operator.Sync.Logs.{get_metrics_port_with_options}
use juicefs_operator.Sync.Sinks.{Parsed}
use juicefs_operator.Sync.Template.Script.{sync_pod_entrypoint, worker_sync_cmd}

-- What the builder reads of the resource, the parsed ends and the addresses of the workers.
pub record SyncPodBuilder (V : Type 0) : Type 0 where
  pub name : Text
  pub namespace : Text
  pub image : Text
  pub image_pull_policy : V
  pub image_pull_secrets : Option V
  pub node_selector : V
  pub tolerations : V
  pub affinity : Option (Affinity V)
  pub env : List ManagerEnv
  pub labels : List (String × Text)
  pub annotations : List (String × Text)
  pub resources : Option V
  pub worker_resources : Option V
  pub manager_resources : Option V
  pub options : List Text
  pub replicas : Option ℕ
  pub source : Parsed
  pub target : Parsed
  pub files_config_map : Bool
  pub source_volumes : List ExtraVolume
  pub target_volumes : List ExtraVolume
  pub worker_ips : List Text

pub record SyncPod (V : Type 0) : Type 0 where
  pub name : Text
  pub namespace : Text
  pub labels : List (String × Text)
  pub annotations : List (String × Text)
  pub node_selector : V
  pub tolerations : V
  pub affinity : Affinity V
  pub image : Text
  pub image_pull_policy : V
  pub image_pull_secrets : Option V
  pub env : List ManagerEnv
  pub resources : Option V
  pub command : List Text
  pub ports : List (ℤ × Text)
  pub volumes : Volumes

-- strconv.Itoa, the MD5 sum and the operator's own pod (its namespace and its pull secrets).
pub record Outside (V : Type 0) : Type 0 where
  pub show : ℕ → Text
  pub cal_md5 : Text → Text
  pub operator_pod : Option (Text × Option V)

-- The affinity that was given is cut where the resource holds it.
abbrev pub kept : {A : Type 0} → Option A → A → Option A
kept none cut = none
kept (some _) cut = some cut

module _ {V : Type 0} where
  unfoldable pub update_worker_ips : List Text → SyncPodBuilder V → SyncPodBuilder V
  update_worker_ips ips b = record b { worker_ips = ips }

  abbrev pub distributed : SyncPodBuilder V → Bool
  distributed b = more_than_one b.replicas

  -- `none` stands for no requirements.
  unfoldable pub get_worker_resources : SyncPodBuilder V → Option V
  get_worker_resources b = elim b.worker_resources [ some r ↦ some r | none ↦ b.resources ]

  unfoldable pub get_manager_resources : SyncPodBuilder V → Option V
  get_manager_resources b = elim b.manager_resources [ some r ↦ some r | none ↦ b.resources ]

  abbrev pub pull_secrets : Option (Text × Option V) → SyncPodBuilder V → Option V
  pull_secrets operator b = elim b.image_pull_secrets [
    | some s ↦ some s
    | none ↦ elim operator [
      | none ↦ none
      | some (namespace, s) ↦ if text_eq namespace b.namespace then s else none
    ]
  ]

  -- The pods of a sync keep apart, as a preference.
  unfoldable pub spread : SyncPodBuilder V → Affinity V
  spread b = record {
    node_affinity = none;
    pod_affinity = none;
    pod_anti_affinity = some (record {
      preferred =
          record {
            weight = 100;
            term = record {
              label_selector = some (record {
                match_labels = ("juicefs.io/sync", b.name) ∷ [];
                match_expressions = [];
              });
              namespaces = b.namespace ∷ [];
              topology_key = codes "kubernetes.io/hostname";
            };
          }
          ∷ [];
      required = [];
    });
  }

  abbrev pub pod_labels : SyncPodBuilder V → (label : Text) → List (String × Text)
  pod_labels b label =
      let own =
        ("juicefs.io/sync", label)
        ∷ ("app.kubernetes.io/name", codes "juicefs-sync-worker")
        ∷ ("app.kubernetes.io/managed-by", codes "juicefs-operator")
        ∷ [] in
      copy_into own b.labels

  abbrev pub volumes_of : Outside V → (manager : Bool) → SyncPodBuilder V → Volumes
  volumes_of o manager b =
      gen_sync_volumes o.show manager (distributed b) b.files_config_map b.source_volumes
        b.target_volumes

  -- The pod around its label and its affinity.
  unfoldable pub worker_pod : Outside V → SyncPodBuilder V → ℕ → Text → Affinity V → SyncPod V
  unfolding get_worker_resources gen_sync_volumes get_metrics_port_with_options sync_pod_entrypoint
      worker_sync_cmd
  worker_pod o b i label affinity =
      let metrics : ℤ × Text = (get_metrics_port_with_options b.options, codes "metrics") in
      record {
        name = codes "juicefs-sync-" ++ b.name ++ codes "-worker-" ++ o.show i;
        namespace = b.namespace;
        labels = pod_labels b label;
        annotations = copy_into [] b.annotations;
        node_selector = b.node_selector;
        tolerations = b.tolerations;
        affinity = affinity;
        image = b.image;
        image_pull_policy = b.image_pull_policy;
        image_pull_secrets = pull_secrets o.operator_pod b;
        env = b.env;
        resources = get_worker_resources b;
        command =
            codes "sh" ∷ codes "-c" ∷ sync_pod_entrypoint (distributed b) [] worker_sync_cmd ∷ [];
        ports = (if distributed b then (pos 22, codes "ssh") ∷ [] else []) ++ metrics ∷ [];
        volumes =
            if distributed b then volumes_of o false b else record { volumes = []; mounts = [] };
      }

  abbrev pub after_cut : SyncPodBuilder V → Affinity V → SyncPodBuilder V
  after_cut b cut = record b { affinity = kept b.affinity cut }

  unfoldable pub placed : Outside V → SyncPodBuilder V → Option (Affinity V)
  unfolding spread truncate_sync_affinity
  placed o b = truncate_sync_affinity o.cal_md5 (from_option (spread b) b.affinity)

  unfoldable pub new_worker_pod :
      Outside V → SyncPodBuilder V → ℕ → Option (SyncPodBuilder V × SyncPod V)
  unfolding placed worker_pod truncate_label_value
  new_worker_pod o b i = truncate_label_value o.cal_md5 b.name >>= λ label.
      placed o b >>= λ cut. some (after_cut b cut, worker_pod o b i label cut)

  unfoldable pub worker_loop :
      Outside V → SyncPodBuilder V → ℕ → ℕ → Option (SyncPodBuilder V × List (SyncPod V))
  unfolding new_worker_pod
  worker_loop o b i zero = some (b, [])
  worker_loop o b i (suc n) = new_worker_pod o b i >>= λ (b1, p).
      worker_loop o b1 (suc i) n >>= λ (b2, ps). some (b2, p ∷ ps)

  unfoldable pub new_worker_pods :
      Outside V → SyncPodBuilder V → Option (SyncPodBuilder V × List (SyncPod V))
  unfolding worker_loop
  new_worker_pods o b = elim b.replicas [
    | none ↦ some (b, [])
    | some n ↦ if leb n 1 then some (b, []) else worker_loop o b 1 (n - 1)
  ]

  unfoldable pub manager_pod : Outside V → SyncPodBuilder V → SyncPod V → SyncPod V
  unfolding gen_manager_envs get_manager_resources sync_pod_entrypoint gen_prepare_command
      gen_sync_commands gen_sync_volumes
  manager_pod o b p = record p {
    env = gen_manager_envs b.env b.worker_ips b.source b.target;
    name = codes "juicefs-sync-" ++ b.name ++ codes "-manager";
    labels = insert "app.kubernetes.io/name" (codes "juicefs-sync-manager") p.labels;
    resources = get_manager_resources b;
    command =
        codes "sh"
        ∷ codes "-c"
        ∷ sync_pod_entrypoint (distributed b) (gen_prepare_command b.source b.target)
            (gen_sync_commands b.worker_ips b.options b.source b.target)
        ∷ [];
    volumes = volumes_of o true b;
  }

  unfoldable pub new_manager_pod :
      Outside V → SyncPodBuilder V → Option (SyncPodBuilder V × SyncPod V)
  unfolding new_worker_pod manager_pod
  new_manager_pod o b = new_worker_pod o b 0 >>= λ (b1, p). some (b1, manager_pod o b1 p)
