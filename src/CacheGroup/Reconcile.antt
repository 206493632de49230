-- ===== src/CacheGroup/Reconcile.antt =====
-- The sync of a cache group: sync and the goroutines of syncWorkers of
-- internal/controller/cachegroup_controller.go. The file system is the trimmed name in the secret.
pub mod Group
pub mod Laws
use juicefs_operator.Base.{
  ℕ, String, Bool, true, false, not, ◌&&◌, ◌||◌, Option, none, some, List, [], ◌∷◌, ◌++◌, str_eq,
  ltb, if◌then◌else◌, is_some, map,
}
use juicefs_operator.Base.Text.{Text}
use juicefs_operator.Kube.{ApiError, not_found, conflict, Pod, pod_ready}
use juicefs_operator.Builder.{validate_secret}
use juicefs_operator.CacheGroup.{
  CacheGroup, Status, Template, WorkerStats, IntOrString, minute, ready, Phase,
}
use juicefs_operator.CacheGroup.Join.{no_stats}
use juicefs_operator.CacheGroup.Calls.{
  Call, event, worker_ready, worker_not_ready, Failure, api, invalid_spec, Run, done, fail, make,
}
use juicefs_operator.CacheGroup.Update.{WorkerBuilder, Plan, sync_workers_plan}
use juicefs_operator.CacheGroup.Update.Restart.{Answers, sync_worker}
use juicefs_operator.CacheGroup.Retire.{RetireAnswers, remove_redundant_workers}
use juicefs_operator.CacheGroup.GroupStatus.{calculate_status}

-- `workerStats[name]`, with Go's zero value for a worker without stats.
abbrev stats_of : String → List WorkerStats → WorkerStats → WorkerStats
stats_of name [] found = found
stats_of name (s ∷ stats) found = stats_of name stats (if str_eq s.name name then s else found)

-- The calls of several workers and the failures that are aggregated.
abbrev pub Joined : Type 0
Joined = List Call × List Failure

abbrev pub failure_list : Option Failure → List Failure
failure_list none = []
failure_list (some f) = f ∷ []

-- The plans are carried out by a goroutine each; a failure of one stops no other.
unfoldable pub run_plans : (String → Answers) → CacheGroup → List Plan → Joined
run_plans answers cg [] = ([], [])
run_plans answers cg (p ∷ ps) =
    let r = sync_worker (answers p.name) cg.spec.update_strategy p in
    let rest = run_plans answers cg ps in (r.0 ++ rest.0, failure_list r.1 ++ rest.1)

-- What the outside answers in one sync: `listed` and `listed_again` are the two lists of workers.
pub record SyncAnswers : Type 0 where
  pub get_secret : Option ApiError
  pub secret : List (String × Text)
  pub file_system : String
  pub listed : Option (List Pod)
  pub listed_again : Option (List Pod)
  pub about_worker : String → Answers
  pub about_retired : String → RetireAnswers
  pub patch_error : Option ApiError

pub record Synced : Type 0 where
  pub calls : List Call
  pub patched : Option Status
  pub failures : List Failure
  pub status : Status

abbrev ignore_conflict : Option ApiError → List Failure
ignore_conflict none = []
ignore_conflict (some conflict) = []
ignore_conflict (some e) = api e ∷ []

-- `same` is reflect.DeepEqual on statuses.
module _ (parse_duration : String → Option ℕ) (scaled : IntOrString → ℕ → Option ℕ)
    (same : Status → Status → Bool) (builder : WorkerBuilder) (now : ℕ) (a : SyncAnswers) where
  unfoldable pub sync_workers : CacheGroup → List (String × Template) → List Pod → Joined
  unfolding run_plans
  sync_workers cg states workers =
      run_plans a.about_worker cg
        (sync_workers_plan parse_duration builder now cg scaled states workers)

  unfoldable pub removed : CacheGroup → List (String × Template) → List Pod → Run
  removed cg states workers = remove_redundant_workers parse_duration now cg states (
      map (λ (w : Pod). (w, stats_of w.name cg.status.stats no_stats, a.about_retired w.name))
        workers)

  unfoldable pub sync_and_remove : CacheGroup → List (String × Template) → List Pod → Joined
  unfolding sync_workers removed
  sync_and_remove cg states workers =
      let synced = sync_workers cg states workers in
      elim synced.1 [
        | _ ∷ _ ↦ synced
        | [] ↦ let r = removed cg states workers in (synced.0 ++ r.0, failure_list r.1)
      ]

  abbrev pub with_status : CacheGroup → List (String × Template) → List Pod → CacheGroup
  with_status cg states workers = record cg {
    status = calculate_status parse_duration now cg a.file_system states workers;
  }

  unfoldable pub finish :
      (base cg : CacheGroup) → List (String × Template) → Joined → Option (List Pod) → Synced
  finish base cg states joined none = record {
    calls = joined.0;
    patched = none;
    failures = joined.1 ++ api ApiError.other_error ∷ [];
    status = cg.status;
  }
  finish base cg states joined (some workers) =
      let status = (with_status cg states workers).status in
      if same base.status status
      then record { calls = joined.0; patched = none; failures = joined.1; status = status }
      else record {
        calls = joined.0;
        patched = some status;
        failures = joined.1 ++ ignore_conflict a.patch_error;
        status = status;
      }

  unfoldable pub sync_listed : CacheGroup → List (String × Template) → List Pod → Synced
  unfolding sync_and_remove finish
  sync_listed base states workers =
      let cg = with_status base states workers in
      finish base cg states (sync_and_remove cg states workers) a.listed_again

  abbrev pub refused : CacheGroup → Failure → Synced
  refused cg f = record { calls = []; patched = none; failures = f ∷ []; status = cg.status }

  -- By what the Get of the secret, its validation and the list of workers answer.
  unfoldable pub sync_answered :
      CacheGroup
      → List (String × Template)
      → Option ApiError
      → (valid : Bool) → Option (List Pod)
      → Synced
  unfolding sync_listed
  sync_answered cg states (some e) valid listed = refused cg (api e)
  sync_answered cg states none false listed = refused cg invalid_spec
  sync_answered cg states none true none = refused cg (api ApiError.other_error)
  sync_answered cg states none true (some workers) = sync_listed cg states workers

  unfoldable pub sync : CacheGroup → List (String × Template) → Synced
  unfolding sync_answered
  sync cg states = sync_answered cg states a.get_secret (validate_secret (some a.secret)) a.listed
