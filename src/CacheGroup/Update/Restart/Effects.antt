-- ===== src/CacheGroup/Update/Restart/Effects.antt =====
-- The calls that carrying a plan out makes (syncWorker and what it calls).
use juicefs_operator.Base.{
  ℕ, String, ◌≡◌, ◌≢◌, refl, Bool, true, false, Option, none, some, List, [], ◌∷◌, arith,
  Option-cases, inl, inr,
}
use juicefs_operator.Kube.{Pod, Annotations}
use juicefs_operator.CacheGroup.{UpdateStrategy}
use juicefs_operator.CacheGroup.Calls.{Call, delete_worker, calls_only, calls_only->>, Failure}
use juicefs_operator.CacheGroup.Update.{up_to_date, recreate, smooth_restart, WorkerUpdate, Plan}
use juicefs_operator.CacheGroup.Update.Restart.{
  Answers, is_on_delete, wait_for_worker_restart, wait_deleted, smooth_restart_worker,
  restart_or_recreate, sync_worker, apply_update, ensured, record_worker_join,
}

wait_for_worker_restart-calls :
    (old : ℕ) (polls : List (Option ℕ)) → (wait_for_worker_restart old polls).0 ≡ []
unfolding wait_for_worker_restart
wait_for_worker_restart-calls old [] = refl
wait_for_worker_restart-calls old (none ∷ polls) = wait_for_worker_restart-calls old polls
wait_for_worker_restart-calls old (some pid ∷ polls) =
    ground (arith, wait_for_worker_restart-calls old polls)

wait_deleted-calls : (polls : List Bool) → (wait_deleted polls).0 ≡ []
unfolding wait_deleted
wait_deleted-calls [] = refl
wait_deleted-calls (true ∷ polls) = refl
wait_deleted-calls (false ∷ polls) = wait_deleted-calls polls

abbrev pub keeps_worker : Call → Bool
keeps_worker (delete_worker _) = false
keeps_worker _ = true

smooth_restart_worker-keeps :
    (a : Answers) (worker : Pod) (target : Annotations)
    → calls_only keeps_worker (smooth_restart_worker a worker target) ≡ true
unfolding smooth_restart_worker
smooth_restart_worker-keeps a worker target = elim (Option-cases a.old_pid) [
  | inl e ↦ rw (e, smooth_restart_worker) refl
  | inr (old, e) ↦ ground (arith, wait_for_worker_restart-calls old a.pid_polls)
]

record_worker_join-keeps :
    (actual : Option Pod) (expect : Pod)
    → calls_only keeps_worker (record_worker_join actual expect) ≡ true
unfolding record_worker_join
record_worker_join-keeps none expect = ground arith
record_worker_join-keeps (some a) expect = ground arith

ensured-keeps :
    (e : Option Failure) (name : String) → calls_only keeps_worker (ensured e name) ≡ true
unfolding ensured
ensured-keeps none name = refl
ensured-keeps (some f) name = refl

restart_or_recreate-keeps :
    (a : Answers) (strategy : Option UpdateStrategy) (actual expect : Pod)
    → is_on_delete strategy ≡ true
    → calls_only keeps_worker (restart_or_recreate a strategy actual expect) ≡ true
unfolding restart_or_recreate
restart_or_recreate-keeps a strategy actual expect od =
    ground (arith, smooth_restart_worker-keeps a actual expect.annotations)

apply_update-keeps :
    (a : Answers) (strategy : Option UpdateStrategy) (u : WorkerUpdate) (actual expect : Pod)
    → is_on_delete strategy ≡ true
    → u ≢ recreate
    → calls_only keeps_worker (apply_update a strategy u (some actual) expect) ≡ true
unfolding apply_update
apply_update-keeps a strategy up_to_date actual expect od keep = refl
apply_update-keeps a strategy recreate actual expect od keep = absurd (keep refl)
apply_update-keeps a strategy smooth_restart actual expect od keep =
    calls_only->> keeps_worker (restart_or_recreate a strategy actual expect)
      (record_worker_join (some actual) expect)
      (restart_or_recreate-keeps a strategy actual expect od)
      (record_worker_join-keeps (some actual) expect)

-- Under the OnDelete strategy carrying out a plan for an existing worker never deletes it, whatever
-- fails on the way, if the plan is not to recreate it.
pub sync_worker-on_delete :
    (a : Answers) (strategy : Option UpdateStrategy) (p : Plan) (actual : Pod)
    → is_on_delete strategy ≡ true
    → p.actual ≡ some actual
    → p.update ≢ recreate
    → calls_only keeps_worker (sync_worker a strategy p) ≡ true
unfolding sync_worker
sync_worker-on_delete a strategy p actual od e keep =
    calls_only->> keeps_worker (ensured a.ensure_pvcs_error p.expect.name)
      (apply_update a strategy p.update p.actual p.expect)
      (ensured-keeps a.ensure_pvcs_error p.expect.name)
      (rw e (apply_update-keeps a strategy p.update actual p.expect od keep))
