-- ===== src/CacheGroup/Update/Restart.antt =====
-- Carrying a plan out: syncWorker, smoothRestartWorker, createOrUpdateWorker and what they call in
-- internal/controller, with WaitForWorkerRestart of pkg/utils/worker.go.
pub mod Effects
pub mod Ends
pub mod Restarted
pub mod Merged
use juicefs_operator.Base.{
  ℕ, String, Bool, true, false, not, Option, none, some, List, [], ◌∷◌, ◌++◌, ◌==◌, if◌then◌else◌,
  is_some, insert, filterb,
}
use juicefs_operator.Base.Text.{codes, has_prefix}
use juicefs_operator.Kube.{ApiError, not_found, already_exists, Annotations, Pod}
use juicefs_operator.CacheGroup.{on_delete_name, UpdateStrategy}
use juicefs_operator.CacheGroup.Calls.{
  ensure_pvcs, trigger_restart, patch_worker, delete_worker, create_worker, event, worker_created,
  worker_updated, worker_deleted, worker_operation_failed, worker_restart_triggered,
  worker_join_started, worker_join_finished, Failure, api, timed_out, exec_failed, Run, ◌>>◌, done,
  fail, make, answered,
}
use juicefs_operator.CacheGroup.Update.{WorkerUpdate, up_to_date, recreate, smooth_restart, Plan}

-- What the outside answers while one worker is brought up to date. A list of polls ends where the
-- deadline of its loop has passed.
pub record Answers : Type 0 where
  pub ensure_pvcs_error : Option Failure
  pub old_pid : Option ℕ  -- none: the process could not be asked or signalled
  pub pid_polls : List (Option ℕ)
  pub patch_error : Option ApiError
  pub delete_error : Option ApiError
  pub gone_polls : List Bool
  pub create_error : Option ApiError

-- WaitForWorkerRestart: until another process answers.
unfoldable pub wait_for_worker_restart : ℕ → List (Option ℕ) → Run
wait_for_worker_restart old [] = fail timed_out
wait_for_worker_restart old (none ∷ polls) = wait_for_worker_restart old polls
wait_for_worker_restart old (some pid ∷ polls) =
    let rest = wait_for_worker_restart old polls in if not (pid == old) then done else rest

unfoldable pub is_juicefs_key : String → Bool
unfolding has_prefix
is_juicefs_key k = has_prefix (codes "juicefs.io/") (codes k)

insert_juicefs : List (String × String) → List (String × String) → List (String × String)
insert_juicefs [] m = m
insert_juicefs ((k, v) ∷ target) m =
    insert_juicefs target (if is_juicefs_key k then insert k v m else m)

-- The annotations that the patch of smoothRestartWorker leaves: all juicefs.io/ keys are the
-- target's, the others the worker's.
unfoldable pub restarted_annotations : Annotations → Annotations → Annotations
unfolding insert_juicefs
restarted_annotations worker target = record target {
  extra = insert_juicefs target.extra (filterb (λ kv. not (is_juicefs_key kv.0)) worker.extra);
}

unfoldable pub smooth_restart_worker : Answers → Pod → Annotations → Run
smooth_restart_worker a worker target = elim a.old_pid [
  | none ↦ fail exec_failed
  | some old ↦
      make (trigger_restart worker.name target.mount_opts)
      >> make (event worker_restart_triggered worker.name)
      >> wait_for_worker_restart old a.pid_polls
      >> answered (patch_worker worker.name (restarted_annotations worker.annotations target))
          a.patch_error
]

unfoldable pub wait_deleted : List Bool → Run
wait_deleted [] = fail timed_out
wait_deleted (true ∷ polls) = done
wait_deleted (false ∷ polls) = wait_deleted polls

after_delete : Answers → String → Bool → Run
unfolding wait_deleted
after_delete a name waiting =
    make (event worker_deleted name) >> (if waiting then wait_deleted a.gone_polls else done)

-- The deferred event.
unfoldable add_event_on_failure : String → Run → Run
add_event_on_failure name (calls, none) = (calls, none)
add_event_on_failure name (calls, some f) =
    (calls ++ event worker_operation_failed name ∷ [], some f)

unfoldable pub delete_cache_group_worker : Answers → String → (waiting : Bool) → Run
unfolding after_delete add_event_on_failure
delete_cache_group_worker a name waiting = elim a.delete_error [
  | none ↦ add_event_on_failure name (make (delete_worker name) >> after_delete a name waiting)
  | some not_found ↦ make (delete_worker name)
  | some e ↦ add_event_on_failure name (answered (delete_worker name) (some e))
]

unfoldable pub create_cache_group_worker : Answers → String → Run
create_cache_group_worker a name = elim a.create_error [
  | none ↦ make (create_worker name) >> make (event worker_created name)
  | some already_exists ↦ make (create_worker name)
  | some e ↦ make (create_worker name) >> make (event worker_operation_failed name) >> fail (api e)
]

unfoldable pub recreated : Answers → String → Run
recreated a name = elim a.create_error [
  | none ↦ make (create_worker name) >> make (event worker_updated name)
  | some e ↦ make (create_worker name) >> make (event worker_operation_failed name) >> fail (api e)
]

unfoldable pub update_cache_group_worker : Answers → String → String → Run
update_cache_group_worker a old_name name =
    delete_cache_group_worker a old_name true >> recreated a name

unfoldable pub create_or_update_worker : Answers → Option Pod → String → Run
create_or_update_worker a none name = create_cache_group_worker a name
create_or_update_worker a (some actual) name = update_cache_group_worker a actual.name name

abbrev was_joining : Option Pod → Bool
was_joining none = false
was_joining (some p) = is_some p.annotations.backup_worker

unfoldable pub record_worker_join : Option Pod → Pod → Run
record_worker_join actual expect =
    let joining = is_some expect.annotations.backup_worker in
    if joining
    then (if was_joining actual then done else make (event worker_join_started expect.name))
    else (if was_joining actual then make (event worker_join_finished expect.name) else done)

abbrev pub is_on_delete : Option UpdateStrategy → Bool
is_on_delete none = false
is_on_delete (some s) = elim s.type [ on_delete_name ↦ true | _ ↦ false ]

-- A failed smooth restart is final under OnDelete, and is followed by `next` otherwise.
unfoldable pub fall_back : Bool → Run → Run → Run
fall_back on_delete (calls, none) next = (calls, none)
fall_back true (calls, some f) next = (calls, some f)
fall_back false (calls, some f) next = (calls, none) >> next

unfoldable pub restart_or_recreate : Answers → Option UpdateStrategy → Pod → Pod → Run
unfolding fall_back
restart_or_recreate a strategy actual expect =
    fall_back (is_on_delete strategy) (smooth_restart_worker a actual expect.annotations)
      (create_or_update_worker a (some actual) expect.name)

ensured : Option Failure → String → Run
ensured none name = make (ensure_pvcs name)
ensured (some f) name = (ensure_pvcs name ∷ [], some f)

-- A smooth restart is planned only for a worker that exists, so its `none` case is not reached.
unfoldable pub apply_update :
    Answers → Option UpdateStrategy → WorkerUpdate → Option Pod → Pod → Run
apply_update a strategy up_to_date actual expect = done
apply_update a strategy recreate actual expect =
    create_or_update_worker a actual expect.name >> record_worker_join actual expect
apply_update a strategy smooth_restart (some actual) expect =
    restart_or_recreate a strategy actual expect >> record_worker_join (some actual) expect
apply_update a strategy smooth_restart none expect = done

unfoldable pub sync_worker : Answers → Option UpdateStrategy → Plan → Run
unfolding ensured
sync_worker a strategy p =
    ensured a.ensure_pvcs_error p.expect.name >> apply_update a strategy p.update p.actual p.expect
