-- ===== src/CacheGroup/Update/Restart/Restarted.antt =====
-- What a smooth restart that ended well has done (smoothRestartWorker in internal/controller and
-- WaitForWorkerRestart of pkg/utils/worker.go).
use juicefs_operator.Base.{
  Memᴰ, ℕ, ◌≡◌, ◌≢◌, refl, Bool, true, false, not, Option, none, some, List, [], ◌∷◌, arith, any,
  ◌==◌, subst, sym, Option-cases, inl, inr,
}
use juicefs_operator.Kube.{Pod, Annotations}
use juicefs_operator.CacheGroup.Calls.{
  Call, patch_worker, trigger_restart, event, worker_restart_triggered, Run, ◌>>◌, make, answered,
  >>-eq-none, mem->>-left, mem->>-right, answered_well,
}
use juicefs_operator.CacheGroup.Update.Restart.{
  Answers, wait_for_worker_restart, smooth_restart_worker, restarted_annotations,
}

abbrev new_process : ℕ → Option ℕ → Bool
new_process old none = false
new_process old (some pid) = not (pid == old)

wait_for_worker_restart-answered :
    (old : ℕ) (polls : List (Option ℕ))
    → (wait_for_worker_restart old polls).1 ≡ none
    → any (new_process old) polls ≡ true
unfolding wait_for_worker_restart
wait_for_worker_restart-answered old [] h = cc
wait_for_worker_restart-answered old (none ∷ polls) h = wait_for_worker_restart-answered old polls h
wait_for_worker_restart-answered old (some pid ∷ polls) h =
    ground (arith, wait_for_worker_restart-answered old polls)

-- A restart in place: the process was told to restart, another one answered, and the server accepted
-- the annotations of the target.
pub record IsRestarted (a : Answers) (worker : Pod) (target : Annotations) (calls : List Call)
    : Type 0 where
  pub old_process : ℕ
  pub asked : a.old_pid ≡ some old_process
  pub triggered : Memᴰ (trigger_restart worker.name target.mount_opts) calls
  pub answers : any (new_process old_process) a.pid_polls ≡ true
  pub patched :
      Memᴰ (patch_worker worker.name (restarted_annotations worker.annotations target)) calls
  pub accepted : a.patch_error ≡ none

abbrev pub Within : List Call → List Call → Type 0
Within cs ds = (c : Call) → Memᴰ c cs → Memᴰ c ds

pub IsRestarted-Within :
    (a : Answers) (worker : Pod) (target : Annotations) (cs ds : List Call)
    → Within cs ds
    → IsRestarted a worker target cs
    → IsRestarted a worker target ds
IsRestarted-Within a worker target cs ds into h = record {
  old_process = h.old_process;
  asked = h.asked;
  triggered = into _ h.triggered;
  answers = h.answers;
  patched = into _ h.patched;
  accepted = h.accepted;
}

abbrev told : Pod → Annotations → Run
told worker target =
    make (trigger_restart worker.name target.mount_opts)
    >> make (event worker_restart_triggered worker.name)

abbrev patch_of : Pod → Annotations → Call
patch_of worker target = patch_worker worker.name (restarted_annotations worker.annotations target)

-- A smooth restart of a worker whose process could be asked.
abbrev restart_run : Answers → Pod → Annotations → ℕ → Run
restart_run a worker target old =
    told worker target
    >> wait_for_worker_restart old a.pid_polls
    >> answered (patch_of worker target) a.patch_error

restart_run-IsRestarted :
    (a : Answers) (worker : Pod) (target : Annotations) (old : ℕ)
    → a.old_pid ≡ some old
    → (restart_run a worker target old).1 ≡ none
    → IsRestarted a worker target (restart_run a worker target old).0
restart_run-IsRestarted a worker target old e h =
    let waiting = wait_for_worker_restart old a.pid_polls in
    let waited = told worker target >> waiting in
    let patching = answered (patch_of worker target) a.patch_error in
    let ok = >>-eq-none waited patching h in
    let accepted = answered_well (patch_of worker target) a.patch_error ok.1 in
    record {
      old_process = old;
      asked = e;
      triggered =
          mem->>-left waited patching _
            (mem->>-left (told worker target) waiting _ (Memᴰ.head refl));
      answers =
          wait_for_worker_restart-answered old a.pid_polls
            (>>-eq-none (told worker target) waiting ok.0).1;
      patched = mem->>-right waited patching ok.0 (patch_of worker target) accepted.1;
      accepted = accepted.0;
    }

smooth_restart-run :
    (a : Answers) (worker : Pod) (target : Annotations) (old : ℕ)
    → a.old_pid ≡ some old
    → smooth_restart_worker a worker target ≡ restart_run a worker target old
unfolding smooth_restart_worker
smooth_restart-run a worker target old e = rw e refl

smooth_restart-none :
    (a : Answers) (worker : Pod) (target : Annotations)
    → a.old_pid ≡ none
    → (smooth_restart_worker a worker target).1 ≢ none
unfolding smooth_restart_worker
smooth_restart-none a worker target e h = ground arith

pub smooth_restart_worker-IsRestarted :
    (a : Answers) (worker : Pod) (target : Annotations)
    → (smooth_restart_worker a worker target).1 ≡ none
    → IsRestarted a worker target (smooth_restart_worker a worker target).0
smooth_restart_worker-IsRestarted a worker target h = elim (Option-cases a.old_pid) [
  | inl e ↦ absurd (smooth_restart-none a worker target e h)
  | inr (old, e) ↦
      subst (λ (r : Run). r.1 ≡ none → IsRestarted a worker target r.0)
        (sym (smooth_restart-run a worker target old e))
        (restart_run-IsRestarted a worker target old e) h
]
