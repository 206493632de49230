-- ===== src/Examples/Groups.antt =====
-- The theorems about cache groups on concrete groups.
use juicefs_operator.CacheGroup.Retire.{
  migration_idle, RetireAnswers, graceful_shutdown_worker, can_delete,
}
use juicefs_operator.CacheGroup.Join.{worker_counter_idle}
use juicefs_operator.CacheGroup.Sampling.{same_worker_process}
use juicefs_operator.CacheGroup.{
  get_waiting_deleted_max_duration, rolling_update, minute, hour, Template, UpdateStrategy,
  on_delete_name,
}
use juicefs_operator.CacheGroup.Update.Restart.{Answers, sync_worker}
use juicefs_operator.Kube.{is_pod_ready}
use juicefs_operator.CacheGroup.Update.{
  get_pod_name, find_worker, plan_of, count_unavailable, parse_update_strategy, disrupts,
  sync_workers_plan, plan_workers, recreate, smooth_restart, up_to_date, Plan,
}
use juicefs_operator.CacheGroup.Calls.{calls_only, done}
use juicefs_operator.Base.{
  ◌*◌, String, Option, List, refl, ◌≡◌, ◌≤◌, ◌-◌, true, some, none, [], ◌∷◌, length, countb, arith,
  All, map,
}
use juicefs_operator.Examples.{
  cache_group, builder, worker, no_duration, plain, annotated, template, stats, Pod,
}
use juicefs_operator.CacheGroup.Update.Laws.{
  sync_workers_plan-disrupts, plan_workers-IsJustified, IsJustified,
}
use juicefs_operator.CacheGroup.Update.Restart.Effects.{sync_worker-on_delete, keeps_worker}
use juicefs_operator.CacheGroup.Retire.Begun.{Begun}
use juicefs_operator.CacheGroup.Retire.Laws.{MayDelete, graceful_shutdown_worker-MayDelete}

abbrev node_b : String
node_b = "juicefs-cg-worker-cg-node-b"

abbrev node_c : String
node_c = "juicefs-cg-worker-cg-node-c"

abbrev two_states : List (String × Template)
two_states = ("node-b", template) ∷ ("node-c", template) ∷ []

abbrev two_workers : List Pod
two_workers = worker node_b ∷ worker node_c ∷ []

-- Two workers with an old template: the first is recreated, the second has to wait.
two_outdated :
    map
      (λ (p : Plan). p.update)
      (sync_workers_plan no_duration builder hour cache_group
        (λ _ _. some 1)
        two_states
        two_workers)
    ≡ recreate ∷ up_to_date ∷ []
unfolding sync_workers_plan plan_of find_worker get_pod_name parse_update_strategy is_pod_ready
two_outdated = refl

sync_workers_plan-disrupts_example :
    countb disrupts (
      sync_workers_plan no_duration builder hour cache_group (λ _ _. some 1) two_states two_workers)
    ≤ (parse_update_strategy (λ _ _. some 1) cache_group.spec.update_strategy (length two_states)).1
      - count_unavailable two_workers
sync_workers_plan-disrupts_example =
    sync_workers_plan-disrupts no_duration builder hour cache_group (λ _ _. some 1) two_states
      two_workers

plan_workers-IsJustified_example :
    All
      (IsJustified no_duration builder hour cache_group rolling_update two_workers two_states)
      (plan_workers no_duration builder hour cache_group rolling_update 1 two_workers 0 two_states)
plan_workers-IsJustified_example =
    plan_workers-IsJustified no_duration builder hour cache_group rolling_update 1 two_workers 0
      two_states

-- A worker whose join phase is over.
abbrev joined : Pod
joined = annotated (record plain { backup_worker = some hour }) (worker node_b)

-- Everything is answered without an error; the old process 7 gives way to 8.
abbrev smooth : Answers
smooth = record {
  ensure_pvcs_error = none;
  old_pid = some 7;
  pid_polls = some 7 ∷ none ∷ some 8 ∷ [];
  patch_error = none;
  delete_error = none;
  gone_polls = true ∷ [];
  create_error = none;
}

abbrev ending_join : Plan
ending_join = record {
  name = node_b;
  actual = some joined;
  expect = worker node_b;
  template = template;
  update = smooth_restart;
}

abbrev delete_only : Option UpdateStrategy
delete_only = some record { type = on_delete_name; max_unavailable = none }

sync_worker-on_delete_example :
    calls_only keeps_worker (sync_worker smooth delete_only ending_join) ≡ true
sync_worker-on_delete_example =
    sync_worker-on_delete smooth delete_only ending_join joined refl refl
      (λ e. absurd (ground arith))

abbrev own_annotations : List (String × String)
own_annotations = ("juicefs.io/old", "1") ∷ ("team", "storage") ∷ []

abbrev leaving : Pod
leaving = annotated (record plain { waiting_delete = some (10 * minute) }) (worker node_b)

abbrev answers : RetireAnswers
answers = record {
  mount_point_ready = true;
  current_stats = some (stats node_b);
  update = smooth;
  final_delete = smooth;
  clean_cache = done;
}

graceful_shutdown_idle :
    (graceful_shutdown_worker no_duration
      (31 * minute)
      cache_group
      answers
      leaving
      (stats node_b)).1
    ≡ can_delete
unfolding graceful_shutdown_worker get_waiting_deleted_max_duration is_pod_ready migration_idle
    same_worker_process worker_counter_idle
graceful_shutdown_idle = refl

graceful_shutdown_worker-MayDelete_example :
    MayDelete no_duration (31 * minute) cache_group answers leaving (stats node_b)
graceful_shutdown_worker-MayDelete_example =
    graceful_shutdown_worker-MayDelete no_duration (31 * minute) cache_group answers leaving
      (stats node_b) (graceful_shutdown_idle)
