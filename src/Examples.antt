-- ===== src/Examples.antt =====
-- Concrete objects that the tests and the examples of the theorems share.
pub mod Builders
pub mod Collects
pub mod Crons
pub mod Fleets
pub mod Groups
pub mod Joins
pub mod Labels
pub mod Logs
pub mod Pods
pub mod Scheduling
pub mod Sinks
pub mod SyncPods
pub mod Syncs
pub mod Versions
pub mod Volumes
pub mod WarmUpJobs
pub mod WarmUpLogs
pub mod WarmUps
pub mod Workers
use juicefs_operator.Base.{
  ℕ, String, Bool, true, false, Option, none, some, List, [], ◌∷◌, refl, ◌*◌, if◌then◌else◌,
  is_some, ◌≡◌,
}
use juicefs_operator.Base.Int.{ℤ}
use juicefs_operator.Base.Text.{codes}
use juicefs_operator.Kube.{
  Pod, PodPhase, Condition, ready_condition, containers_ready, Annotations, Container,
}
use juicefs_operator.CacheGroup.{
  CacheGroup, WorkerStats, Template, Rebalance, minute, hour, second, Phase, Status, Spec,
}
use juicefs_operator.CacheGroup.Update.{WorkerBuilder, get_pod_name}

abbrev pub no_duration : String → Option ℕ
no_duration _ = none

abbrev pub plain : Annotations
plain = record {
  backup_worker = none;
  waiting_delete = none;
  template = "v2";
  mount_opts = codes "cache-size=1024";
  worker_hash = "h1";
  extra = [];
}

abbrev pub up : List Condition
up =
    record { type = ready_condition; status_true = true }
    ∷ record { type = containers_ready; status_true = true }
    ∷ []

-- A ready worker with the template of version 2.
abbrev pub worker : String → Pod
worker name = record {
  name = name;
  node_name = "node-a";
  annotations = plain;
  conditions = up;
  phase = PodPhase.running;
  deleting = false;
  containers = [];
  image = codes "juicedata/mount:ee-5.1.10-abc";
  command = codes "/usr/bin/juicefs mount";
}

abbrev pub annotated : Annotations → Pod → Pod
annotated a p = record p { annotations = a }

abbrev pub template : Template
template = record { image = codes "juicedata/mount:ee-5.1.10-abc"; opts = [] }

abbrev pub stats : String → WorkerStats
stats name = record {
  name = name;
  cache_bytes = some 4096;
  capacity_bytes = some 8192;
  transfer_bytes = some 100;
  receive_bytes = some 100;
  transfer_rate = some 0;
  receive_rate = some 0;
  start_time = some 0;
  last_sample_time = some (30 * minute);
}

abbrev pub cache_group : CacheGroup
cache_group = record {
  name = "cg";
  namespace = "default";
  spec = record {
    cache_group = "";
    replicas = none;
    enable_scheduling = false;
    update_strategy = none;
    backup_duration = none;
    waiting_deleted_max_duration = none;
    clean_cache = false;
  };
  status = record {
    phase = Phase.ready;
    rebalance = none;
    stats = [];
    cache_size = "1 GiB";
    file_system = "vol";
    ready_worker = 2;
    backup_worker = 0;
    waiting_deleted_worker = 0;
    expect_worker = 2;
    ready_str = none;
    cache_group = "default-cg";
  };
}

pub builder_joins : (b : Bool) → is_some {A = ℕ} (if b then some 0 else none) ≡ b
builder_joins true = refl
builder_joins false = refl

-- A builder that names a worker after its node and gives every template the hash "h2".
abbrev pub builder : WorkerBuilder
builder = record {
  build = λ cg node t add_join.
      annotated
        (record plain { worker_hash = "h2"; backup_worker = if add_join then some 0 else none })
        (worker (get_pod_name cg node));
  v1_worker_hash = λ cg node t add_join. "h1";
  joins = λ cg node t add_join. builder_joins add_join;
}
