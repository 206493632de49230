-- ===== src/CacheGroup/Retire/Laws.antt =====
-- When a redundant worker may be deleted, and that only such a worker is.
use juicefs_operator.Base.{
  ℕ, ◌+◌, ◌<◌, ◌≤◌, String, ◌≡◌, ◌⊎◌, inl, inr, true, false, Option, none, some, List, [], arith,
  leb, ltb, lookup, is_some, Option-cases, Bool-cases, str_eq_iff,
}
use juicefs_operator.Base.Text.{Text, codes, contains_text, contains_text-append}
use juicefs_operator.Kube.{Pod, pod_ready}
use juicefs_operator.CacheGroup.{
  WorkerStats, CacheGroup, Template, get_waiting_deleted_max_duration,
}
use juicefs_operator.CacheGroup.Sampling.{same_worker_process}
use juicefs_operator.CacheGroup.Join.Laws.{IsIdle, worker_counter_idle_sound}
use juicefs_operator.CacheGroup.Retire.{
  decommission_opts, with_decommission, min_idle, migration_idle, RetireAnswers, can_delete,
  graceful_shutdown_worker, is_redundant, worker_key, remove_worker, is_cached,
}

-- Why the migration of a worker's cache is over or not needed.
pub data MayDelete (parse_duration : String → Option ℕ) (now : ℕ) (cg : CacheGroup)
    (a : RetireAnswers) (worker : Pod) (stats : WorkerStats) : Type 0 where
  -- It has waited longer than the group allows.
  overdue :
      (waiting_at : ℕ)
      → worker.annotations.waiting_delete ≡ some waiting_at
      → waiting_at + get_waiting_deleted_max_duration cg.spec.waiting_deleted_max_duration < now
      → MayDelete parse_duration now cg a worker stats
  -- The status of the group counts no more than one ready worker, and no migration was begun.
  last_ready :
      worker.annotations.waiting_delete ≡ none
      → cg.status.ready_worker ≤ 1
      → MayDelete parse_duration now cg a worker stats
  -- It does not serve, and no migration was begun.
  not_serving :
      worker.annotations.waiting_delete ≡ none
      → (pod_ready worker ≡ false) ⊎ (a.mount_point_ready ≡ false)
      → MayDelete parse_duration now cg a worker stats
  no_cache :
      (current : WorkerStats)
      → a.current_stats ≡ some current
      → is_cached current ≡ false
      → MayDelete parse_duration now cg a worker stats
  -- The same process has been idle since the migration began.
  migrated :
      (waiting_at : ℕ) (current : WorkerStats)
      → worker.annotations.waiting_delete ≡ some waiting_at
      → a.current_stats ≡ some current
      → same_worker_process stats.start_time current.start_time ≡ true
      → IsIdle now worker stats false waiting_at (min_idle parse_duration now cg worker)
      → MayDelete parse_duration now cg a worker stats

module _ (parse_duration : String → Option ℕ) (now : ℕ) (cg : CacheGroup) where
  migration_idle-IsIdle :
      (worker : Pod) (stats current : WorkerStats) (waiting_at : ℕ)
      → migration_idle parse_duration now cg worker stats current waiting_at ≡ true
      → (same_worker_process stats.start_time current.start_time ≡ true)
        × IsIdle now worker stats false waiting_at (min_idle parse_duration now cg worker)
  unfolding migration_idle
  migration_idle-IsIdle worker stats current waiting_at h = (
    ground arith,
    worker_counter_idle_sound now worker stats false waiting_at
        (min_idle parse_duration now cg worker) (ground arith),
  )

  graceful_shutdown_waiting :
      (a : RetireAnswers) (worker : Pod) (stats : WorkerStats) (waiting_at : ℕ)
      → worker.annotations.waiting_delete ≡ some waiting_at
      → (graceful_shutdown_worker parse_duration now cg a worker stats).1 ≡ can_delete
      → MayDelete parse_duration now cg a worker stats
  unfolding graceful_shutdown_worker
  graceful_shutdown_waiting a worker stats waiting_at hw h =
      elim (Bool-cases (
        ltb (waiting_at + get_waiting_deleted_max_duration cg.spec.waiting_deleted_max_duration)
          now)) [
            | inl late ↦ overdue waiting_at hw (ground arith)
            | inr soon ↦ elim (Option-cases a.current_stats) [
              | inl none_read ↦ absurd (ground arith)
              | inr (current, read) ↦ elim (Bool-cases (is_cached current)) [
                | inr empty ↦ no_cache current read empty
                | inl cached ↦
                    let idle =
                      migration_idle-IsIdle worker stats current waiting_at (ground arith) in
                    migrated waiting_at current hw read idle.0 idle.1
              ]
            ]
          ]

  graceful_shutdown_first :
      (a : RetireAnswers) (worker : Pod) (stats : WorkerStats)
      → worker.annotations.waiting_delete ≡ none
      → (graceful_shutdown_worker parse_duration now cg a worker stats).1 ≡ can_delete
      → MayDelete parse_duration now cg a worker stats
  unfolding graceful_shutdown_worker
  graceful_shutdown_first a worker stats hw h = elim (Bool-cases (leb cg.status.ready_worker 1)) [
    | inl last ↦ last_ready hw (ground arith)
    | inr more ↦ elim (Bool-cases (pod_ready worker)) [
      | inr down ↦ not_serving hw (inl down)
      | inl up ↦ elim (Bool-cases a.mount_point_ready) [
        | inr unmounted ↦ not_serving hw (inr unmounted)
        | inl mounted ↦ elim (Option-cases a.current_stats) [
          | inl none_read ↦ absurd (ground arith)
          | inr (current, read) ↦ elim (Bool-cases (is_cached current)) [
            | inr empty ↦ no_cache current read empty
            | inl cached ↦ absurd (ground arith)
          ]
        ]
      ]
    ]
  ]

  -- A worker is given up for deletion only if it has waited longer than the group allows, its
  -- migration was not begun and the status of the group counts at most one ready worker, it does not
  -- serve and its migration was not begun, its cache is empty, or the same process has been idle in a
  -- fresh sample since its migration began.
  pub graceful_shutdown_worker-MayDelete :
      (a : RetireAnswers) (worker : Pod) (stats : WorkerStats)
      → (graceful_shutdown_worker parse_duration now cg a worker stats).1 ≡ can_delete
      → MayDelete parse_duration now cg a worker stats
  graceful_shutdown_worker-MayDelete a worker stats h =
      elim (Option-cases worker.annotations.waiting_delete) [
        | inl hw ↦ graceful_shutdown_first a worker stats hw h
        | inr (waiting_at, hw) ↦ graceful_shutdown_waiting a worker stats waiting_at hw h
      ]

  -- A worker that is still expected, is being deleted already, or may still get its node from the
  -- scheduler, is not touched.
  pub remove_worker_spared :
      (expect_states : List (String × Template)) (worker : Pod) (stats : WorkerStats)
      (a : RetireAnswers)
      → (is_some (lookup (worker_key cg worker) expect_states) ≡ true)
        ⊎ (worker.deleting ≡ true)
        ⊎ ((worker_key cg worker ≡ "") × (cg.spec.enable_scheduling ≡ true))
      → remove_worker parse_duration now cg expect_states worker stats a ≡ ([], none)
  unfolding remove_worker is_redundant
  remove_worker_spared expect_states worker stats a h =
      ground (arith, str_eq_iff (worker_key cg worker) "")

with_decommission-contains :
    (cmd : Text) → contains_text (with_decommission cmd) (codes ",decommission") ≡ true
unfolding with_decommission
with_decommission-contains cmd = elim (Bool-cases (contains_text cmd (codes ",decommission"))) [
  | inl has ↦ rw has has
  | inr lacks ↦ rw lacks (contains_text-append cmd (codes ",decommission"))
]

-- The leaving form of any mount options asks for decommission.
pub decommission_opts-contains :
    (opts : Text) → contains_text (decommission_opts opts) (codes ",decommission") ≡ true
unfolding decommission_opts
decommission_opts-contains opts = with_decommission-contains _
