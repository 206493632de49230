-- ===== src/Examples/Volumes.antt =====
-- The theorems about volume claims, cleaning and whole reconciliations on concrete groups.
use juicefs_operator.CacheGroup.GroupStatus.{join_batch, rebalance_status, calculate_status}
use juicefs_operator.CacheGroup.Retire.{
  worker_key, is_redundant, remove_worker, remove_redundant_workers,
}
use juicefs_operator.Base.Text.{has_prefix, codes}
use juicefs_operator.Base.{
  String, ◌≡◌, refl, true, false, Option, none, some, List, [], ◌∷◌, str_eq, if◌then◌else◌, inr,
}
use juicefs_operator.Kube.{ApiError, not_found, conflict, Pod, is_pod_ready}
use juicefs_operator.CacheGroup.{CacheGroup, Template, hour}
use juicefs_operator.CacheGroup.Calls.{delete_pvc, create_clean_job, done, calls_only}
use juicefs_operator.CacheGroup.Update.Restart.{
  Answers, sync_worker, apply_update, create_or_update_worker, update_cache_group_worker,
  delete_cache_group_worker, recreated, record_worker_join,
}
use juicefs_operator.CacheGroup.Volumes.{
  Got, failed, found, CacheDir, host_path, volume_claim_templates, ensure_pvcs_for_worker, on_host,
  of_claim,
}
use juicefs_operator.CacheGroup.Volumes.Cleaning.{
  CleanAnswers, Worker, FinalAnswers, clean_worker_cache, handle_finalizer,
}
use juicefs_operator.CacheGroup.Volumes.Laws.{
  may_write, ensure_pvcs_for_worker-may_write, may_clean, clean_worker_cache-may_clean,
  handle_finalizer_ends,
}
use juicefs_operator.CacheGroup.Reconcile.{SyncAnswers, sync}
use juicefs_operator.CacheGroup.Reconcile.Group.{Object, Outcome, reconcile_found}
use juicefs_operator.CacheGroup.Reconcile.Laws.{IsSettled, reconcile_found-IsSettled}
use juicefs_operator.Version.{compare_image_version}
use juicefs_operator.Builder.{validate_secret}
use juicefs_operator.CacheGroup.Join.{should_add_join_option}
use juicefs_operator.CacheGroup.Update.{
  sync_workers_plan, plan_of, find_worker, get_pod_name, parse_update_strategy,
}
use juicefs_operator.Examples.{cache_group, builder, worker, no_duration, template}

-- The group's own claim, one of somebody else, and nothing under other names.
abbrev got : String → Got
got name =
    if str_eq name "own-w"
    then found (record { storage = some 10; controlled = true })
    else if str_eq name "foreign"
    then found (record { storage = some 10; controlled = false })
    else failed not_found

abbrev no_error : String → Option ApiError
no_error name = none

abbrev dirs : List CacheDir
dirs =
    volume_claim_templates (some (record { name = "own"; storage = some 20 }))
    ∷ host_path
    ∷ volume_claim_templates (some (record { name = "new"; storage = some 20 }))
    ∷ []

ensure_pvcs_for_worker-may_write_example :
    calls_only (may_write got) (ensure_pvcs_for_worker got no_error "w" dirs) ≡ true
ensure_pvcs_for_worker-may_write_example = ensure_pvcs_for_worker-may_write got no_error "w" dirs

abbrev cleaned_group : CacheGroup
cleaned_group = record cache_group { spec = record cache_group.spec { clean_cache = true } }

abbrev retired : Worker
retired = record {
  volumes =
      record { name = codes "jfs-cache-dir-0"; source = on_host }
      ∷ record { name = codes "jfs-cache-dir-1"; source = of_claim "own-w" }
      ∷ record { name = codes "jfs-cache-dir-2"; source = of_claim "foreign" }
      ∷ [];
  devices = [];
  job_name = "clean";
}

abbrev clean_answers : CleanAnswers
clean_answers = record {
  get = got;
  get_again = got;
  delete = no_error;
  get_job = some not_found;
  create_job = none;
}

-- The job cleans the host path and the foreign claim; the own claim is deleted.
cleaning :
    clean_worker_cache cleaned_group (codes "vol") clean_answers retired
    ≡ (create_clean_job "clean" ∷ delete_pvc "own-w" ∷ [], none)
unfolding clean_worker_cache has_prefix
cleaning = refl

clean_worker_cache-may_clean_example :
    calls_only
      (may_clean cleaned_group got)
      (clean_worker_cache cleaned_group (codes "vol") clean_answers retired)
    ≡ true
clean_worker_cache-may_clean_example =
    clean_worker_cache-may_clean cleaned_group (codes "vol") clean_answers retired

-- The creation of the job fails.
abbrev final_answers : FinalAnswers
final_answers = record {
  expected = some ((retired, record clean_answers { create_job = some conflict }) ∷ []);
  get_secret = some not_found;
}

handle_finalizer_ends_example : (handle_finalizer cleaned_group final_answers).1 ≡ none
handle_finalizer_ends_example =
    handle_finalizer_ends cleaned_group final_answers
      ((retired, record clean_answers { create_job = some conflict }) ∷ []) refl (inr refl)

abbrev worker_a : String
worker_a = "juicefs-cg-worker-cg-node-a"

abbrev one_state : List (String × Template)
one_state = ("node-a", template) ∷ []

abbrev smooth : Answers
smooth = record {
  ensure_pvcs_error = none;
  old_pid = some 7;
  pid_polls = some 8 ∷ [];
  patch_error = none;
  delete_error = none;
  gone_polls = true ∷ [];
  create_error = none;
}

abbrev sync_answers : SyncAnswers
sync_answers = record {
  get_secret = none;
  secret = ("name", codes "vol") ∷ ("token", codes "t") ∷ [];
  file_system = "vol";
  listed = some (worker worker_a ∷ []);
  listed_again = some (worker worker_a ∷ []);
  about_worker = λ name. smooth;
  about_retired = λ name. record {
    mount_point_ready = true;
    current_stats = none;
    update = smooth;
    final_delete = smooth;
    clean_cache = done;
  };
  patch_error = some conflict;
}

abbrev live : Object
live = record { deleting = false; has_finalizer = true; group = cache_group }

abbrev outcome : Outcome
outcome =
    reconcile_found (List (String × Template)) live done none (some one_state)
      (sync no_duration (λ i n. some 1) (λ s t. false) builder hour sync_answers cache_group)

no_failures : outcome.failures ≡ []
unfolding reconcile_found sync validate_secret sync_workers_plan plan_of find_worker get_pod_name
    parse_update_strategy is_pod_ready sync_worker apply_update create_or_update_worker
    update_cache_group_worker delete_cache_group_worker recreated record_worker_join
    should_add_join_option compare_image_version remove_redundant_workers remove_worker is_redundant
    worker_key
no_failures = refl

no_requeue : outcome.requeue_after ≡ none
unfolding reconcile_found sync validate_secret sync_workers_plan plan_of find_worker get_pod_name
    parse_update_strategy is_pod_ready sync_worker apply_update create_or_update_worker
    update_cache_group_worker delete_cache_group_worker recreated record_worker_join
    should_add_join_option compare_image_version remove_redundant_workers remove_worker is_redundant
    worker_key calculate_status rebalance_status join_batch
no_requeue = refl

reconcile_found-IsSettled_example :
    (workers : List Pod) × (sync_answers.listed_again ≡ some workers) × IsSettled 1 workers
reconcile_found-IsSettled_example =
    reconcile_found-IsSettled no_duration (λ i n. some 1) (λ s t. false) builder hour sync_answers
      live done none one_state refl refl no_failures no_requeue
