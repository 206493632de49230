-- ===== src/CacheGroup/Retire.antt =====
-- Retiring workers that are no longer expected: removeRedundantWorkers and gracefulShutdownWorker of
-- internal/controller/cachegroup_worker_lifecycle.go, with UpdateWorkerDecommission and
-- UpdateWorkerGroupWeight of pkg/builder/cache_group_pod.go.
pub mod Begun
pub mod Laws
use juicefs_operator.Base.{
  ℕ, zero, suc, ◌+◌, String, Bool, true, false, not, ◌&&◌, ◌||◌, Option, none, some, List, [], ◌∷◌,
  ◌++◌, str_eq, leb, ltb, length, ◌==◌, if◌then◌else◌, is_some, filterb, max, lookup,
}
use juicefs_operator.Base.Text.{
  Text, codes, strip_prefix, has_prefix, contains_text, cut, split, join, span_digits, text_eq,
}
use juicefs_operator.Version.{is_ee_image_at_least}
use juicefs_operator.Kube.{ApiError, Annotations, Pod, pod_ready}
use juicefs_operator.CacheGroup.{
  second, min_leave_worker_duration, rebalance_delay_margin, WorkerStats, CacheGroup, Template,
  get_waiting_deleted_max_duration,
}
use juicefs_operator.CacheGroup.Calls.{
  Call, create_worker, Failure, exec_failed, Run, ◌>>◌, done, fail, make, answered,
}
use juicefs_operator.CacheGroup.Join.{is_worker_v2, worker_rebalance_delay, worker_counter_idle}
use juicefs_operator.CacheGroup.Sampling.{same_worker_process}
use juicefs_operator.CacheGroup.Update.Restart.{
  Answers, smooth_restart_worker, delete_cache_group_worker, fall_back,
}

-- The name of an option: what stands before "=".
option_name : Text → Text
option_name opt = elim (cut b'=' opt) [ none ↦ opt | some kv ↦ kv.0 ]

unfoldable pub with_decommission : Text → Text
with_decommission cmd =
    if contains_text cmd (codes ",decommission") then cmd else cmd ++ codes ",decommission"

unfoldable pub decommission_opts : Text → Text
unfolding option_name
decommission_opts opts = with_decommission (
    join b','
      (filterb (λ opt. not (text_eq (option_name opt) (codes "commission"))) (split b',' opts)))

on_last_line : (Text → Text) → List Text → List Text
on_last_line f [] = []
on_last_line f (l ∷ []) = f l ∷ []
on_last_line f (l ∷ m ∷ ls) = l ∷ on_last_line f (m ∷ ls)

unfoldable pub update_worker_decommission : Pod → Pod
unfolding on_last_line
update_worker_decommission worker =
    if is_worker_v2 worker
    then record worker {
      annotations = record worker.annotations {
        mount_opts = decommission_opts worker.annotations.mount_opts;
      };
    }
    else record worker {
      command = join b'\n' (on_last_line decommission_opts (split b'\n' worker.command));
    }

-- `regexp.MustCompile("group-weight=[0-9]+").ReplaceAllString(cmd, "group-weight=0")`: `skip` counts
-- the characters of a match that are still to be passed over.
replace_weight : ℕ → Text → Text
replace_weight skip [] = []
replace_weight (suc skip) (c ∷ s) = replace_weight skip s
replace_weight zero (c ∷ s) = elim (strip_prefix (codes "group-weight=") (c ∷ s)) [
  | none ↦ c ∷ replace_weight 0 s
  | some t ↦ elim (span_digits t).0 [
    | [] ↦ c ∷ replace_weight 0 s
    | d ∷ ds ↦ codes "group-weight=0" ++ replace_weight (13 + length ds) s
  ]
]

-- UpdateWorkerGroupWeight(worker, 0).
unfoldable pub update_worker_group_weight_zero : Pod → Pod
unfolding replace_weight
update_worker_group_weight_zero worker = record worker {
  command =
      if contains_text worker.command (codes "group-weight")
      then replace_weight 0 worker.command
      else worker.command ++ codes ",group-weight=0";
}

unfoldable pub supports_decommission : Pod → Bool
supports_decommission worker = is_ee_image_at_least worker.image (codes "5.4.4")

-- The copy of the worker that migrates its cache, marked with the instant `now`.
unfoldable pub leaving_worker : ℕ → Pod → Pod
leaving_worker now worker =
    let leaving =
      if supports_decommission worker
      then update_worker_decommission worker
      else update_worker_group_weight_zero worker in
    record leaving { annotations = record leaving.annotations { waiting_delete = some now } }

-- What the outside answers about one redundant worker; `current_stats` is `none` for an error.
pub record RetireAnswers : Type 0 where
  pub mount_point_ready : Bool
  pub current_stats : Option WorkerStats
  pub update : Answers
  pub final_delete : Answers
  pub clean_cache : Run

-- The result (canDelete, err) of a shutdown with the calls that it made.
pub data Verdict : Type 0 where
  can_delete keep : Verdict
  failed_with : Failure → Verdict

abbrev verdict_of : Run → List Call × Verdict
verdict_of (calls, none) = (calls, keep)
verdict_of (calls, some f) = (calls, failed_with f)

-- Recreate the worker in its leaving form.
recreate_leaving : Answers → Pod → Run
recreate_leaving a worker =
    delete_cache_group_worker a worker.name true
    >> answered (create_worker worker.name) a.create_error

unfoldable pub start_migration : Answers → ℕ → Pod → Run
unfolding recreate_leaving
start_migration a now worker =
    if is_worker_v2 worker
    then fall_back false (smooth_restart_worker a worker (leaving_worker now worker).annotations)
        (recreate_leaving a worker)
    else recreate_leaving a worker

abbrev pub is_cached : WorkerStats → Bool
is_cached s = elim s.cache_bytes [ none ↦ false | some b ↦ not (b == 0) ]

module _ (cg : CacheGroup) where
  unfoldable pub worker_key : Pod → String
  worker_key worker = if is_some cg.spec.replicas then worker.name else worker.node_name

  -- The checks before gracefulShutdownWorker; a worker without a node may still be scheduled.
  unfoldable pub is_redundant : List (String × Template) → Pod → Bool
  is_redundant expect_states worker =
      not (str_eq (worker_key worker) "" && cg.spec.enable_scheduling)
      && not (is_some (lookup (worker_key worker) expect_states))
      && not worker.deleting

module _ (parse_duration : String → Option ℕ) (now : ℕ) (cg : CacheGroup) where
  unfoldable pub min_idle : Pod → ℕ
  min_idle worker =
      max min_leave_worker_duration
        (worker_rebalance_delay parse_duration worker + rebalance_delay_margin)

  unfoldable pub migration_idle : Pod → WorkerStats → WorkerStats → ℕ → Bool
  migration_idle worker stats current waiting_at =
      same_worker_process stats.start_time current.start_time
      && worker_counter_idle now worker stats false waiting_at (min_idle worker)

  migrate : RetireAnswers → Pod → WorkerStats → WorkerStats → Option ℕ → List Call × Verdict
  migrate a worker stats current none = verdict_of (start_migration a.update now worker)
  migrate a worker stats current (some waiting_at) =
      ([], if migration_idle worker stats current waiting_at then can_delete else keep)

  by_cache : RetireAnswers → Pod → WorkerStats → Option WorkerStats → Option ℕ → List Call × Verdict
  unfolding migrate
  by_cache a worker stats none waiting = ([], failed_with exec_failed)
  by_cache a worker stats (some current) waiting =
      if is_cached current then migrate a worker stats current waiting else ([], can_delete)

  by_readiness : RetireAnswers → Pod → WorkerStats → Option ℕ → List Call × Verdict
  unfolding by_cache
  by_readiness a worker stats waiting =
      if not (pod_ready worker) || not a.mount_point_ready
      then ([], if is_some waiting then keep else can_delete)
      else by_cache a worker stats a.current_stats waiting

  unfoldable pub graceful_shutdown_worker : RetireAnswers → Pod → WorkerStats → List Call × Verdict
  unfolding by_readiness
  graceful_shutdown_worker a worker stats =
      if (elim worker.annotations.waiting_delete [
        | none ↦ leb cg.status.ready_worker 1
        | some waiting_at ↦
            ltb (waiting_at + get_waiting_deleted_max_duration cg.spec.waiting_deleted_max_duration)
              now
      ])
      then ([], can_delete)
      else by_readiness a worker stats worker.annotations.waiting_delete

  conclude : RetireAnswers → Pod → List Call × Verdict → Run
  conclude a worker (calls, can_delete) =
      (calls, none) >> delete_cache_group_worker a.final_delete worker.name false >> a.clean_cache
  conclude a worker (calls, keep) = (calls, none)
  conclude a worker (calls, failed_with f) = (calls, some f)

  unfoldable pub remove_worker : List (String × Template) → Pod → WorkerStats → RetireAnswers → Run
  unfolding conclude
  remove_worker expect_states worker stats a =
      if is_redundant cg expect_states worker
      then conclude a worker (graceful_shutdown_worker a worker stats)
      else done

  -- Each worker with its stats, `workerStats[worker.Name]`, and the answers about it.
  unfoldable pub remove_redundant_workers :
      List (String × Template) → List (Pod × WorkerStats × RetireAnswers) → Run
  remove_redundant_workers expect_states [] = done
  remove_redundant_workers expect_states ((worker, stats, a) ∷ rest) =
      remove_worker expect_states worker stats a >> remove_redundant_workers expect_states rest
