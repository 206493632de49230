-- ===== src/CacheGroup/Retire/Begun.antt =====
-- How the migration of a worker's cache is begun (gracefulShutdownWorker of
-- internal/controller/cachegroup_worker_lifecycle.go).
use juicefs_operator.Base.{Memᴰ, ℕ, ◌≡◌, true, none, some, List}
use juicefs_operator.Base.Text.{codes, contains_text}
use juicefs_operator.Kube.{Pod, Annotations}
use juicefs_operator.CacheGroup.{CacheGroup}
use juicefs_operator.CacheGroup.Calls.{Call, delete_worker, create_worker}
use juicefs_operator.CacheGroup.Join.{is_worker_v2}
use juicefs_operator.CacheGroup.Update.Restart.{Answers}
use juicefs_operator.CacheGroup.Update.Restart.Restarted.{IsRestarted}
use juicefs_operator.CacheGroup.Retire.{supports_decommission}

-- A migration is begun: a v2 worker was restarted in place with annotations that mark the instant and,
-- from version 5.4.4 on, ask for decommission, or the worker was deleted and the server accepted
-- another one of its name.
pub data Begun (a : Answers) (now : ℕ) (worker : Pod) (calls : List Call) : Type 0 where
  restarted :
      (target : Annotations)
      → is_worker_v2 worker ≡ true
      → target.waiting_delete ≡ some now
      → (supports_decommission worker ≡ true
          → contains_text target.mount_opts (codes ",decommission") ≡ true)
      → IsRestarted a worker target calls
      → Begun a now worker calls
  replaced :
      Memᴰ (delete_worker worker.name) calls
      → Memᴰ (create_worker worker.name) calls
      → a.create_error ≡ none
      → Begun a now worker calls
