-- ===== src/CacheGroup/Update/Restart/Ends.antt =====
-- What a run of syncWorker that ended well has done to its worker (syncWorker, smoothRestartWorker and
-- createOrUpdateWorker in internal/controller).
use juicefs_operator.Base.{
  Memᴰ, String, ◌≡◌, refl, Bool, true, false, Option, none, some, List, [], ◌∷◌, ◌++◌,
}
use juicefs_operator.Kube.{ApiError, not_found, already_exists, Pod}
use juicefs_operator.CacheGroup.Calls.{
  Call, delete_worker, create_worker, event, Run, ◌>>◌, make, >>-eq-none, mem-append-left,
  mem-append-right, worker_operation_failed, mem->>-left,
}
use juicefs_operator.CacheGroup.Update.Restart.{
  Answers, delete_cache_group_worker, fall_back, add_event_on_failure, after_delete,
}
use juicefs_operator.CacheGroup.Update.Restart.Restarted.{IsRestarted, Within}

event_kept :
    (name : String) (r : Run) (c : Call) → Memᴰ c r.0 → Memᴰ c (add_event_on_failure name r).0
unfolding add_event_on_failure
event_kept name (calls, none) c m = m
event_kept name (calls, some f) c m =
    mem-append-left c calls (event worker_operation_failed name ∷ []) m

delete_case :
    (a : Answers) (name : String) (waiting : Bool) (e : Option ApiError)
    → a.delete_error ≡ e
    → Memᴰ (delete_worker name) (delete_cache_group_worker a name waiting).0
unfolding delete_cache_group_worker
delete_case a name waiting none e =
    let first = make (delete_worker name) in
    let next = after_delete a name waiting in
    rw e (
      event_kept name (first >> next) (delete_worker name)
        (mem->>-left first next (delete_worker name) (Memᴰ.head refl)))
delete_case a name waiting (some not_found) e = rw e (Memᴰ.head refl)
delete_case a name waiting (some f) e = rw e (Memᴰ.head refl)

pub delete_cache_group_worker-deletes :
    (a : Answers) (name : String) (waiting : Bool)
    → Memᴰ (delete_worker name) (delete_cache_group_worker a name waiting).0
delete_cache_group_worker-deletes a name waiting = delete_case a name waiting a.delete_error refl

-- What carrying out a change has done to a worker by its end: a new one was accepted, the old one was
-- deleted and a new one accepted, the name was taken by a worker that the list did not have, or the
-- worker was restarted in place.
pub data BroughtUp (a : Answers) (actual : Option Pod) (expect : Pod) (calls : List Call)
    : Type 0 where
  created :
      actual ≡ none
      → Memᴰ (create_worker expect.name) calls
      → a.create_error ≡ none
      → BroughtUp a actual expect calls
  taken : actual ≡ none → a.create_error ≡ some already_exists → BroughtUp a actual expect calls
  replaced :
      (old : Pod)
      → actual ≡ some old
      → Memᴰ (delete_worker old.name) calls
      → Memᴰ (create_worker expect.name) calls
      → a.create_error ≡ none
      → BroughtUp a actual expect calls
  restarted :
      (old : Pod)
      → actual ≡ some old
      → IsRestarted a old expect.annotations calls
      → BroughtUp a actual expect calls

-- What both ways give holds of the whole, if it is not lost by the calls of the first.
pub fall_back_ind :
    (Q : List Call → Type 0) (od : Bool) (m next : Run)
    → ((cs ds : List Call) → Within cs ds → Q cs → Q ds)
    → (m.1 ≡ none → Q m.0)
    → (next.1 ≡ none → Q next.0)
    → (fall_back od m next).1 ≡ none
    → Q (fall_back od m next).0
unfolding fall_back
fall_back_ind Q od (calls, none) next wide hm hn h = hm refl
fall_back_ind Q true (calls, some f) next wide hm hn h = cc
fall_back_ind Q false (calls, some f) next wide hm hn h =
    wide next.0 (calls ++ next.0) (λ c. mem-append-right c calls next.0)
      (hn (>>-eq-none (calls, none) next h).1)
