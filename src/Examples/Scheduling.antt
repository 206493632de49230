-- ===== src/Examples/Scheduling.antt =====
-- The theorems about the expected workers and the scheduler simulator on concrete nodes.
use juicefs_operator.Base.{
  ℕ, zero, suc, String, ◌≡◌, refl, sym, ap, ◌∙◌, true, false, Option, none, some, List, [], ◌∷◌,
  length, lookup, Pairwise,
}
use juicefs_operator.Base.Text.{codes}
use juicefs_operator.Base.Sort.{sort_by}
use juicefs_operator.Scheduler.{
  Labels, Pod, Node, Cluster, new_simulator, append_pending_pod, append_to_be_deleted_pod,
  can_schedule_pod_on_node,
}
use juicefs_operator.CacheGroup.Expected.{
  WorkerTemplate, Overwrite, WorkerSpec, node_selector_contains, overwritten, by_name, States,
  simulate, parse_expect_state_with_node, parse_expect_state_by_scheduler,
}
use juicefs_operator.CacheGroup.Expected.Merged.{covered, by_last, applied, overwritten-by_last}
use juicefs_operator.CacheGroup.Expected.Placed.{
  Apart, simulate-Apart, parse_expect_state_by_scheduler_refines,
}

abbrev template : WorkerTemplate String
template = record {
  labels = none;
  annotations = none;
  image_pull_secrets = none;
  image_pull_policy = "";
  node_selector = none;
  service_account_name = "";
  scheduler_name = "";
  image = "mount:ee";
  enable_service_links = none;
  host_network = none;
  tolerations = none;
  env = none;
  resources = none;
  liveness_probe = none;
  readiness_probe = none;
  startup_probe = none;
  security_context = none;
  lifecycle = none;
  volume_mounts = none;
  volume_devices = none;
  volumes = none;
  opts = none;
  dns_policy = none;
  cache_dirs = none;
  affinity = none;
}

abbrev group_workers : Labels
group_workers = ("app", "worker") ∷ []

abbrev cluster : Cluster
cluster = record {
  LabelSelector = Labels;
  Selector = Labels;
  as_selector = some;
  matches = node_selector_contains;
  list = λ ns sel. some [];
  matches_node_affinity = λ p n. true;
  has_untolerated_taint = λ p n. false;
}

-- A worker that tolerates no other one in its zone.
abbrev build : String → Option (WorkerTemplate String) → Pod Labels
build name t = record {
  name = name;
  node_name = "";
  labels = group_workers;
  has_node_affinity = false;
  pod_affinity = none;
  pod_anti_affinity =
      some (record { label_selector = group_workers; topology_key = "zone"; namespaces = [] } ∷ []);
}

abbrev node : String → String → Node
node name zone = record { name = name; labels = ("zone", zone) ∷ [] }

abbrev nodes : List Node
nodes = node "c" "2" ∷ node "a" "1" ∷ node "b" "1" ∷ []

abbrev overwrites : List (Overwrite String)
overwrites =
    record { nodes = "a" ∷ []; template = record template { image = "mount:new"; env = some "x" } }
    ∷ record {
      nodes = [];
      template = record template {
        node_selector = some (("zone", "1") ∷ []);
        image = "";
        env = some "y";
      };
    }
    ∷ []

abbrev spec : WorkerSpec String
spec = record { template = template; overwrite = overwrites }

abbrev on_a : WorkerTemplate String
on_a = record template { image = "mount:new"; env = some "y" }

abbrev placed_on : String → Pod Labels
placed_on name = record (build name none) { node_name = name }

abbrev kept : States cluster build
kept = (
  ("c", template) ∷ ("a", on_a) ∷ [],
  record {
    pending_pods = placed_on "a" ∷ placed_on "c" ∷ [];
    to_be_deleted_pods = ("b", build "b" none) ∷ [];
    nodes = ("c", node "c" "2") ∷ ("a", node "a" "1") ∷ ("b", node "b" "1") ∷ [];
  },
)

kept_lem : simulate cluster build spec nodes ≡ some kept
unfolding simulate sort_by can_schedule_pod_on_node new_simulator append_pending_pod
    append_to_be_deleted_pod
kept_lem = refl

simulate-Apart_example :
    Pairwise
      (Apart {V = String} cluster build
        (by_name {V = String} cluster build nodes)
        (new_simulator nodes))
      (kept.1).pending_pods
simulate-Apart_example = simulate-Apart cluster build spec nodes kept kept_lem

states_lem : parse_expect_state_by_scheduler cluster build spec (some nodes) ≡ some kept.0
unfolding parse_expect_state_by_scheduler sort_by can_schedule_pod_on_node new_simulator
    append_pending_pod append_to_be_deleted_pod
states_lem = refl

parse_expect_state_by_scheduler_refines_example :
    lookup "a" (parse_expect_state_with_node spec nodes) ≡ some on_a
parse_expect_state_by_scheduler_refines_example =
    parse_expect_state_by_scheduler_refines cluster build spec nodes kept.0 "a" on_a states_lem refl

overwritten-by_last_example :
    covered (overwritten (node "a" "1") overwrites template)
    ≡ by_last (applied (node "a" "1") overwrites) template
overwritten-by_last_example = overwritten-by_last (node "a" "1") overwrites template

-- A number as so many strokes.
abbrev strokes : ℕ → String
strokes zero = ""
strokes (suc n) = String.◌∷◌ "I" (strokes n)

length-strokes : (n : ℕ) → length (codes (strokes n)) ≡ n
length-strokes zero = refl
length-strokes (suc n) = ap suc (length-strokes n)

strokes_inj : (i j : ℕ) → strokes i ≡ strokes j → i ≡ j
strokes_inj i j h = sym (length-strokes i) ∙ ap (λ s. length (codes s)) h ∙ length-strokes j
