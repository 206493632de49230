-- ===== src/CacheGroup/Expected.antt =====
-- The workers that a cache group should have: parseExpectState with its three ways in
-- internal/controller/cachegroup_controller.go, MergeCacheGroupWorkerTemplate of
-- pkg/builder/cache_group_pod.go. `V` stands for the structures of Kubernetes that are passed on.
pub mod Merged
pub mod Replicas
pub mod Placed
use juicefs_operator.Base.{
  ℕ, zero, suc, ◌+◌, String, str_append, Bool, true, false, not, ◌&&◌, ◌||◌, Option, none, some,
  List, [], ◌∷◌, ◌++◌, str_eq, if◌then◌else◌, lookup, insert, delete, contains, from_option, length,
  ◌==◌,
}
use juicefs_operator.Base.Sort.{sort_by, string_before}
use juicefs_operator.CacheGroup.{CacheGroup}
use juicefs_operator.Scheduler.{
  Cluster, Node, Pod, Simulator, Labels, new_simulator, append_pending_pod,
  append_to_be_deleted_pod, can_schedule_pod_on_node,
}

-- CacheGroupWorkerTemplate. A field of strings is absent when it is empty.
pub record WorkerTemplate (V : Type 0) : Type 0 where
  pub labels : Option V
  pub annotations : Option V
  pub node_selector : Option Labels
  pub service_account_name : String
  pub enable_service_links : Option V
  pub host_network : Option V
  pub scheduler_name : String
  pub tolerations : Option V
  pub image : String
  pub image_pull_secrets : Option V
  pub image_pull_policy : String
  pub env : Option V
  pub resources : Option V
  pub liveness_probe : Option V
  pub readiness_probe : Option V
  pub startup_probe : Option V
  pub security_context : Option V
  pub lifecycle : Option V
  pub volume_mounts : Option V
  pub volume_devices : Option V
  pub volumes : Option V
  pub opts : Option V
  pub dns_policy : Option V
  pub cache_dirs : Option V
  pub affinity : Option V

pub record Overwrite (V : Type 0) : Type 0 where
  pub nodes : List String
  pub template : WorkerTemplate V

pub record WorkerSpec (V : Type 0) : Type 0 where
  pub template : WorkerTemplate V
  pub overwrite : List (Overwrite V)

abbrev pub or_else : {A : Type 0} → Option A → Option A → Option A
or_else none d = d
or_else (some a) d = some a

abbrev pub or_string : String → String → String
or_string s d = if str_eq s "" then d else s

-- Labels, annotations, the node selector, pull secrets and the pull policy are not merged.
unfoldable pub merge_cache_group_worker_template :
    {V : Type 0} → WorkerTemplate V → WorkerTemplate V → WorkerTemplate V
merge_cache_group_worker_template t o = record t {
  service_account_name = or_string o.service_account_name t.service_account_name;
  enable_service_links = or_else o.enable_service_links t.enable_service_links;
  host_network = or_else o.host_network t.host_network;
  scheduler_name = or_string o.scheduler_name t.scheduler_name;
  tolerations = or_else o.tolerations t.tolerations;
  image = or_string o.image t.image;
  env = or_else o.env t.env;
  resources = or_else o.resources t.resources;
  liveness_probe = or_else o.liveness_probe t.liveness_probe;
  readiness_probe = or_else o.readiness_probe t.readiness_probe;
  startup_probe = or_else o.startup_probe t.startup_probe;
  security_context = or_else o.security_context t.security_context;
  lifecycle = or_else o.lifecycle t.lifecycle;
  volume_mounts = or_else o.volume_mounts t.volume_mounts;
  volume_devices = or_else o.volume_devices t.volume_devices;
  volumes = or_else o.volumes t.volumes;
  opts = or_else o.opts t.opts;
  dns_policy = or_else o.dns_policy t.dns_policy;
  cache_dirs = or_else o.cache_dirs t.cache_dirs;
  affinity = or_else o.affinity t.affinity;
}

-- pkg/utils/utils.go; a missing label reads as the empty string.
unfoldable pub node_selector_contains : Labels → Labels → Bool
node_selector_contains [] target = true
node_selector_contains ((k, v) ∷ expect) target =
    str_eq (from_option "" (lookup k target)) v && node_selector_contains expect target

abbrev selects : Option Labels → Labels → Bool
selects none labels = false
selects (some expect) labels = node_selector_contains expect labels

-- The worker of a number, which `show` prints.
abbrev pub replica_name : (show : ℕ → String) → String → ℕ → String
replica_name show name i =
    str_append "juicefs-cg-worker-" (str_append name (str_append "-" (show i)))

module _ {V : Type 0} where
  unfoldable pub applies : Overwrite V → Node → Bool
  unfolding node_selector_contains
  applies o n = contains o.nodes n.name || selects o.template.node_selector n.labels

  unfoldable pub overwritten : Node → List (Overwrite V) → WorkerTemplate V → WorkerTemplate V
  unfolding applies merge_cache_group_worker_template
  overwritten n [] t = t
  overwritten n (o ∷ os) t =
      overwritten n os (if applies o n then merge_cache_group_worker_template t o.template else t)

  unfoldable pub states_of :
      WorkerSpec V → List Node → List (String × WorkerTemplate V) → List (String × WorkerTemplate V)
  unfolding overwritten
  states_of w [] m = m
  states_of w (n ∷ ns) m = states_of w ns (insert n.name (overwritten n w.overwrite w.template) m)

  unfoldable pub parse_expect_state_with_node :
      WorkerSpec V → List Node → List (String × WorkerTemplate V)
  unfolding states_of
  parse_expect_state_with_node w nodes = states_of w nodes []

  unfoldable pub replica_states :
      (show : ℕ → String)
      → String
      → WorkerSpec V
      → (from n : ℕ) → List (String × WorkerTemplate V)
      → List (String × WorkerTemplate V)
  replica_states show name w i zero m = m
  replica_states show name w i (suc n) m = replica_states show name w (suc i) n (
      insert (str_append "juicefs-cg-worker-" (str_append name (str_append "-" (show i))))
        w.template m)

  unfoldable pub parse_expect_state_by_replicas :
      (show : ℕ → String) → String → WorkerSpec V → ℕ → List (String × WorkerTemplate V)
  unfolding replica_states
  parse_expect_state_by_replicas show name w n = replica_states show name w 0 n []

  -- `build` is NewCacheGroupWorker for a node and its state.
  module _ (k : Cluster) (build : String → Option (WorkerTemplate V) → Pod k.LabelSelector) where
    abbrev pub States : Type 0
    States = List (String × WorkerTemplate V) × Simulator k.LabelSelector

    unfoldable pub place : List Node → States → Option States
    place [] s = some s
    place (n ∷ ns) (states, sim) =
        let pod = build n.name (lookup n.name states) in
        elim (can_schedule_pod_on_node k sim pod n) [
          | none ↦ none
          | some false ↦ place ns (delete n.name states, append_to_be_deleted_pod pod sim)
          | some true ↦
              place ns (states, append_pending_pod (record pod { node_name = n.name }) sim)
        ]

    abbrev pub by_name : List Node → List Node
    by_name nodes = sort_by (λ (a b : Node). string_before a.name b.name) nodes

    unfoldable pub simulate : WorkerSpec V → List Node → Option States
    unfolding place parse_expect_state_with_node
    simulate w nodes =
        place (by_name nodes) (parse_expect_state_with_node w nodes, new_simulator nodes)

    -- `listed` answers the list of the nodes that the template's node selector selects.
    unfoldable pub parse_expect_state_by_scheduler :
        WorkerSpec V → (listed : Option (List Node)) → Option (List (String × WorkerTemplate V))
    unfolding simulate
    parse_expect_state_by_scheduler w none = none
    parse_expect_state_by_scheduler w (some []) = some []
    parse_expect_state_by_scheduler w (some (n ∷ ns)) = elim (simulate w (n ∷ ns)) [
      | none ↦ none
      | some s ↦ some s.0
    ]

    abbrev parse_expect_state_by_node_selector :
        WorkerSpec V → (listed : Option (List Node)) → Option (List (String × WorkerTemplate V))
    parse_expect_state_by_node_selector w none = none
    parse_expect_state_by_node_selector w (some nodes) = some (parse_expect_state_with_node w nodes)

    unfoldable pub parse_expect_state :
        (show : ℕ → String)
        → CacheGroup
        → WorkerSpec V
        → (listed : Option (List Node)) → Option (List (String × WorkerTemplate V))
    unfolding parse_expect_state_by_replicas parse_expect_state_by_scheduler
    parse_expect_state show cg w listed = elim cg.spec.replicas [
      | some n ↦ some (parse_expect_state_by_replicas show cg.name w n)
      | none ↦
          if cg.spec.enable_scheduling
          then parse_expect_state_by_scheduler w listed
          else parse_expect_state_by_node_selector w listed
    ]
