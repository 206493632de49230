-- ===== src/Examples/Joins.antt =====
-- The theorems about join phases, join batches and samples on concrete workers.
use juicefs_operator.CacheGroup.Join.{cache_group_rebalance_delay, should_add_join_option}
use juicefs_operator.CacheGroup.Update.{find_worker, get_pod_name}
use juicefs_operator.Base.Sort.{sort_strings}
use juicefs_operator.CacheGroup.GroupStatus.{
  remaining_members, close_batch, join_batch, rebalance_status, is_through, expected_names,
}
use mathlib.Core.List.{Memᴰ}
use juicefs_operator.Kube.{is_pod_ready, Pod}
use juicefs_operator.Version.{compare_image_version}
use juicefs_operator.Base.{
  ℕ, refl, ◌≡◌, ◌<◌, ◌+◌, ◌*◌, true, false, some, none, [], ◌∷◌, contains, ◌⊎◌, all, ◌/◌,
}
use juicefs_operator.Examples.{cache_group, worker, no_duration, plain, annotated, template, stats}
use juicefs_operator.CacheGroup.{
  minute, hour, second, CacheGroup, Rebalance, WorkerStats, get_backup_worker_duration,
}
use juicefs_operator.CacheGroup.GroupStatus.Batch.{rebalance_status-members, rebalance_status-open}
use juicefs_operator.CacheGroup.Sampling.{next_worker_stats}

abbrev joining : Pod
joining = annotated (record plain { backup_worker = some 0 }) (worker "w1")

keeps_join_option :
    should_add_join_option no_duration minute cache_group (some joining) template ≡ true
unfolding should_add_join_option compare_image_version is_pod_ready
keeps_join_option = refl

-- A group in which the worker's sample, taken after half an hour, shows no reception any more.
abbrev sampled : CacheGroup
sampled = record cache_group {
  status = record cache_group.status { stats = stats "w1" ∷ [] };
  spec = record cache_group.spec { backup_duration = some hour };
}

abbrev batch : Rebalance
batch = record { members = "w1" ∷ []; start_at = 10 * minute }

batch_kept :
    rebalance_status no_duration minute cache_group "vol" (("w1", template) ∷ []) (joining ∷ [])
    ≡ some batch
unfolding rebalance_status join_batch close_batch remaining_members sort_strings expected_names
    get_pod_name find_worker cache_group_rebalance_delay get_backup_worker_duration
batch_kept = refl

rebalance_status-members_example : contains ("w1" ∷ []) "w1" ≡ true
rebalance_status-members_example =
    rebalance_status-members no_duration minute cache_group "vol" (("w1", template) ∷ [])
      (joining ∷ []) {r = batch} joining batch_kept (Memᴰ.head refl) refl

rebalance_status-open_example :
    (minute < batch.start_at + get_backup_worker_duration none)
    × ((minute < batch.start_at)
        ⊎ (all
              (is_through minute cache_group
                (expected_names no_duration minute cache_group "vol"
                  (("w1", template) ∷ [])
                  (joining ∷ []))
                (joining ∷ []))
              batch.members
            ≡ false))
rebalance_status-open_example =
    rebalance_status-open no_duration minute cache_group "vol" (("w1", template) ∷ [])
      (joining ∷ []) {r = batch} batch_kept

abbrev previous : WorkerStats
previous = record (stats "w1") { receive_bytes = some 40; last_sample_time = some (29 * minute) }

abbrev per_second : ℕ → ℕ → ℕ
per_second bytes interval = bytes / (interval / second)

abbrev fresh_sample : WorkerStats
fresh_sample = record (stats "w1") { receive_rate = none; transfer_rate = none }

sample_rated :
    (next_worker_stats per_second previous fresh_sample (30 * minute)).receive_rate ≡ some 1
unfolding next_worker_stats
sample_rated = refl
