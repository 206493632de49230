-- ===== src/Examples/Fleets.antt =====
-- The pods of a sync, built out of a concrete resource.
use juicefs_operator.Base.Text.{contains_text, Text, codes}
use juicefs_operator.Labels.{truncate_label_value}
use juicefs_operator.Base.{
  ℕ, zero, suc, ◌≡◌, refl, false, none, some, [], ◌∷◌, lookup, length, is_some, inl, inr, Option,
  List, true,
}
use juicefs_operator.Sync.Affinity.{Affinity, Expression, truncate_sync_affinity, each}
use juicefs_operator.Sync.Sinks.{Parsed}
use juicefs_operator.Sync.Template.Apart.{Built, avoids, new_worker_pod-avoids}
use juicefs_operator.Sync.Template.{
  SyncPodBuilder, Outside, new_worker_pod, new_manager_pod, new_worker_pods, worker_pod,
  manager_pod, spread, SyncPod,
}
use juicefs_operator.Sync.Template.Shared.{pod_of, pods_of, workers, new_worker_pods-each}

abbrev hash : Text
hash = codes "0123456789abcdef0123456789abcdef"

abbrev strokes : ℕ → Text
strokes zero = []
strokes (suc n) = b'I' ∷ strokes n

abbrev outside : Outside ℕ
outside = record { show = strokes; cal_md5 = λ _. hash; operator_pod = none }

abbrev end : Text → Parsed
end uri = record { uri = uri; envs = []; prepare_command = []; files_from = none }

-- Its name is longer than a label may be.
abbrev sync : SyncPodBuilder ℕ
sync = record {
  name = codes "a-sync-whose-name-is-longer-than-the-sixty-three-bytes-of-a-label";
  namespace = codes "default";
  image = codes "juicedata/mount:ee-5.1.10";
  image_pull_policy = 0;
  image_pull_secrets = none;
  node_selector = 0;
  tolerations = 0;
  affinity = none;
  env = [];
  labels = ("team", codes "a") ∷ [];
  annotations = [];
  resources = none;
  worker_resources = some 1;
  manager_resources = some 2;
  options = [];
  replicas = some 3;
  source = end (codes "s3://a/");
  target = end (codes "s3://b/");
  files_config_map = false;
  source_volumes = [];
  target_volumes = [];
  worker_ips = [];
}

abbrev with_expression : Expression → Affinity ℕ
with_expression e = record {
  node_affinity = none;
  pod_affinity = none;
  pod_anti_affinity = some (record {
    preferred = [];
    required =
        record {
          label_selector = some (record { match_labels = []; match_expressions = e ∷ [] });
          namespaces = [];
          topology_key = codes "zone";
        }
        ∷ [];
  });
}

abbrev sync_exists : Expression
sync_exists = record { key = "juicefs.io/sync"; operator = codes "Exists"; values = [] }

abbrev one_of_two : Expression
one_of_two = record {
  key = "juicefs.io/sync";
  operator = codes "In";
  values = codes "a" ∷ codes "b" ∷ [];
}

-- An expression that takes no values is out of range.
panics : truncate_sync_affinity outside.cal_md5 (with_expression sync_exists) ≡ none
unfolding truncate_sync_affinity
panics = refl

-- Of several values the first is kept.
second_lost :
    truncate_sync_affinity outside.cal_md5 (with_expression one_of_two)
    ≡ some (with_expression (record one_of_two { values = codes "a" ∷ [] }))
unfolding truncate_sync_affinity truncate_label_value
second_lost = refl

manager_cut :
    elim (pod_of (new_manager_pod outside sync)) [
      | none ↦ []
      | some p ↦
          lookup "juicefs.io/sync" p.labels
          ∷ lookup "app.kubernetes.io/name" p.labels
          ∷ lookup "team" p.labels
          ∷ []
    ]
    ≡ some (codes "a-sync-whose-name-is-longer-th-0123456789abcdef0123456789abcdef")
      ∷ some (codes "juicefs-sync-manager")
      ∷ some (codes "a")
      ∷ []
unfolding new_manager_pod contains_text
manager_cut = refl

abbrev own : SyncPodBuilder ℕ
own = record sync { affinity = some (with_expression one_of_two) }

new_worker_pods-each_example :
    pods_of (new_worker_pods outside own)
    ≡ each (λ j. pod_of (new_worker_pod outside own j)) (workers (some 3))
new_worker_pods-each_example = new_worker_pods-each outside own (λ s. refl)

abbrev count : Option (List (SyncPod ℕ)) → ℕ
count none = 0
count (some ps) = length ps

two_workers : count (pods_of (new_worker_pods outside own)) ≡ 2
unfolding new_worker_pods
two_workers = refl

abbrev cut_name : Text
cut_name = codes "a-sync-whose-name-is-longer-th-0123456789abcdef0123456789abcdef"

abbrev worker : ℕ → SyncPod ℕ
worker i = worker_pod outside sync i cut_name (spread (record sync { name = cut_name }))

abbrev manager : SyncPod ℕ
manager = manager_pod outside sync (worker 0)

worker-Built : Built outside sync (worker 1)
unfolding new_worker_pod contains_text
worker-Built = inr (1, refl)

manager-Built : Built outside sync manager
unfolding new_manager_pod contains_text
manager-Built = inl refl

new_worker_pod-avoids_example :
    (is_some (new_manager_pod outside sync) ≡ true)
    × (is_some (new_worker_pod outside sync 2) ≡ true)
    × (avoids (worker 1) manager ≡ true)
new_worker_pod-avoids_example =
    new_worker_pod-avoids outside sync (λ s. refl) refl refl 2 (worker 1) manager worker-Built
      manager-Built
