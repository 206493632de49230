-- ===== src/CacheGroup/Reconcile/Group.antt =====
-- One reconciliation of a cache group and the watch of its workers: Reconcile and
-- recordWorkerReadiness of internal/controller/cachegroup_controller.go.
use juicefs_operator.Base.{
  ℕ, Bool, true, false, not, ◌&&◌, ◌||◌, Option, none, some, List, [], ◌∷◌, ◌++◌, ltb,
  if◌then◌else◌, is_some,
}
use juicefs_operator.Kube.{ApiError, not_found, Pod, pod_ready}
use juicefs_operator.CacheGroup.{CacheGroup, Status, minute, ready, Phase}
use juicefs_operator.CacheGroup.Calls.{
  Call, event, update_group, worker_ready, worker_not_ready, Failure, api, Run,
}
use juicefs_operator.CacheGroup.Reconcile.{Synced, failure_list}

pub record Object : Type 0 where
  pub deleting : Bool
  pub has_finalizer : Bool
  pub group : CacheGroup

pub record Outcome : Type 0 where
  pub calls : List Call
  pub patched : Option Status
  pub requeue_after : Option ℕ
  pub failures : List Failure

abbrev pub quiet : List Failure → Outcome
quiet failures = record { calls = []; patched = none; requeue_after = none; failures = failures }

abbrev pub ignore_not_found : Option ApiError → List Failure
ignore_not_found none = []
ignore_not_found (some not_found) = []
ignore_not_found (some e) = api e ∷ []

abbrev is_ready_phase : Phase → Bool
is_ready_phase ready = true
is_ready_phase _ = false

unfoldable pub is_unsettled : Status → Bool
is_unsettled s =
    is_some s.rebalance
    || ltb 0 s.backup_worker
    || ltb 0 s.waiting_deleted_worker
    || not (is_ready_phase s.phase)

-- After the sync: look again in a minute while the group is unsettled.
unfoldable pub after_sync : Synced → Outcome
unfolding is_unsettled
after_sync s = record {
  calls = s.calls;
  patched = s.patched;
  requeue_after = elim s.failures [
    | _ ∷ _ ↦ none
    | [] ↦ if is_unsettled s.status then some minute else none
  ];
  failures = s.failures;
}

-- With the finalizer: what HandleFinalizer did, and the answer to the update that removes it.
unfoldable pub on_deleting : Bool → Run → Option ApiError → Outcome
on_deleting false cleaned update = quiet []
on_deleting true (calls, some f) update = record (quiet (f ∷ [])) { calls = calls }
on_deleting true (calls, none) update = record (quiet (ignore_not_found update)) {
  calls = calls ++ update_group false ∷ [];
}

-- `states` is what parseExpectState gives, `synced` the sync of a group with states.
unfoldable pub on_live :
    (States : Type 0) → Bool → Option ApiError → Option States → (States → Synced) → Outcome
unfolding after_sync
on_live States false update states synced =
    record (quiet (failure_list (elim update [ none ↦ none | some e ↦ some (api e) ]))) {
      calls = update_group true ∷ [];
    }
on_live States true update none synced = quiet (api ApiError.other_error ∷ [])
on_live States true update (some states) synced = after_sync (synced states)

unfoldable pub reconcile_found :
    (States : Type 0)
    → Object
    → (cleaned : Run) → (update : Option ApiError) → Option States
    → (States → Synced)
    → Outcome
unfolding on_live on_deleting
reconcile_found States o cleaned update states synced =
    if o.deleting
    then on_deleting o.has_finalizer cleaned update
    else on_live States o.has_finalizer update states synced

-- A change of a pod as the watch sees it: recordWorkerReadiness.
pub record PodChange : Type 0 where
  pub is_worker : Bool
  pub owned_by_group : Bool
  pub old_pod : Pod
  pub new_pod : Pod

unfoldable pub record_worker_readiness : PodChange → List Call
record_worker_readiness c =
    if not c.is_worker || c.new_pod.deleting
    then []
    else if not c.owned_by_group
    then []
    else if not (pod_ready c.old_pod) && pod_ready c.new_pod
    then event worker_ready c.new_pod.name ∷ []
    else if pod_ready c.old_pod && not (pod_ready c.new_pod)
    then event worker_not_ready c.new_pod.name ∷ []
    else []
