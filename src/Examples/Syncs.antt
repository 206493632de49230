-- ===== src/Examples/Syncs.antt =====
-- The theorems about syncs on concrete syncs.
use juicefs_operator.Sync.Stats.{
  log_counters, zero_counters, is_positive, ManagerAnswers, calculate_sync_stats,
}
use juicefs_operator.Sync.Pods.{
  delete_workers, list_workers, prepare_manager_pod, prepare_sync_secrets, WorkerPod, WorkerAnswers,
  missing, found, prepare_worker_pod,
}
use juicefs_operator.Sync.Checks.{rejects, check_uris}
use juicefs_operator.Sync.Reconcile.{run_phase, manager, Answers, prepared, reconcile}
use juicefs_operator.Base.Text.{has_prefix, codes}
use juicefs_operator.Base.{
  String, Bool, List, refl, ◌≡◌, ◌⊎◌, true, false, some, none, [], ◌∷◌, arith, is_some, length,
  Memᴰ, ◌<◌,
}
use juicefs_operator.Base.Int.{ℤ, pos}
use juicefs_operator.Kube.{PodPhase, not_found}
use juicefs_operator.Sync.{
  Phase, no_reason, Status, SinkKinds, ParsedSink, Sync, is_distributed, no_manager_log,
  unparsed_log,
}
use juicefs_operator.Sync.Pods.Workers.{IsUp, prepare_worker_pod-IsUp}
use juicefs_operator.Sync.Stats.Ends.{calculate_sync_stats-Clean}
use juicefs_operator.Sync.Reconcile.Life.{Leads}
use juicefs_operator.Sync.Reconcile.Phases.{reconcile-Leads}
use juicefs_operator.Sync.Reconcile.Steps.{has_started, reconcile-unprepared}

abbrev new_status : Status
new_status = record {
  phase = Phase.unset;
  reason = no_reason;
  progress = "";
  stats = zero_counters;
  finish_log = "";
  preparing_at = none;
  start_at = none;
  completed_at = none;
}

abbrev progressing : Status
progressing = record new_status { phase = Phase.progressing }

abbrev kinds : SinkKinds
kinds = record { external = true; juicefs = false; juicefs_ce = false }

-- A sync of three replicas between two external stores.
abbrev sync : Sync
sync = record {
  deleting = false;
  spec = record {
    from_kinds = kinds;
    to_kinds = kinds;
    image = codes "juicedata/mount:ee-5.1.10-abc";
    replicas = some 3;
    preparing_timeout_seconds = none;
    ttl_seconds_after_finished = none;
  };
  status = new_status;
}

abbrev worker : String → String → WorkerPod
worker namespace name = record {
  namespace = namespace;
  sync_label = "copy";
  name = name;
  ready = true;
  phase = PodPhase.running;
}

abbrev own_workers : List WorkerPod
own_workers = worker "default" "copy-0" ∷ worker "default" "copy-1" ∷ []

abbrev source : ParsedSink
source = record { uri = codes "s3://from/"; files_from = false }

abbrev worker_answers : WorkerAnswers
worker_answers = record {
  listed = some [];
  wanted = ("copy-0", none) ∷ ("copy-1", none) ∷ [];
  polls = none ∷ some own_workers ∷ [];
}

abbrev manager_answers : ManagerAnswers
manager_answers = record {
  phase = PodPhase.succeeded;
  ready = false;
  now = 9;
  log = some "found: 5";
  parsed = λ _. some (("found", pos 5) ∷ []);
  metrics = none;
}

-- Everything is answered without an error.
abbrev good : Answers
good = record {
  from = some source;
  to = some source;
  preparing_now = 1;
  timeout_now = 2;
  start_now = 3;
  ttl_now = 4;
  preparing_update = none;
  secrets = record { get_error = some not_found; build_fails = false; create_error = none };
  label = "copy";
  workers = worker_answers;
  manager_pod = record {
    get_error = some not_found;
    create_error = none;
    polls = missing ∷ found true PodPhase.running ∷ [];
  };
  progressing_update = none;
  delete_workers_error = none;
  delete_sync_error = none;
  manager = manager manager_answers;
  final_update = none;
}

-- Another namespace has a sync of the same name, with a worker of its own.
abbrev crowded : WorkerAnswers
crowded = record worker_answers { polls = some (worker "other" "copy-0" ∷ own_workers) ∷ [] }

abbrev bad : Answers
bad = record good { workers = crowded }

abbrev same_status : Status → Status → Bool
same_status a b = false

abbrev whole : ℤ → ℤ → String
whole a b = "100.00%"

runs_through : (reconcile same_status whole sync good).status.phase ≡ Phase.completed
unfolding reconcile rejects check_uris has_prefix prepare_sync_secrets prepare_worker_pod
    is_distributed prepare_manager_pod run_phase delete_workers calculate_sync_stats log_counters
runs_through = refl

reconcile-Leads_example :
    Leads Phase.unset (reconcile same_status whole sync good).status.phase
    ⊎ (is_some (rejects sync.spec (some source) (some source)) ≡ true
        × (reconcile same_status whole sync good).status.phase ≡ Phase.failed)
reconcile-Leads_example = reconcile-Leads same_status whole sync good

is_unprepared : is_some (prepared sync bad).1 ≡ true
unfolding prepare_worker_pod prepare_sync_secrets is_distributed
is_unprepared = refl

reconcile-unprepared_example :
    has_started (reconcile same_status whole sync bad).status.phase ≡ false
reconcile-unprepared_example = reconcile-unprepared same_status whole sync bad is_unprepared refl

workers_prepared : (prepare_worker_pod "copy" sync worker_answers).1 ≡ none
unfolding prepare_worker_pod is_distributed
workers_prepared = refl

prepare_worker_pod-IsUp_example :
    (pods : List WorkerPod) × Memᴰ (some pods) worker_answers.polls × IsUp "copy" 2 pods
unfolding is_distributed
prepare_worker_pod-IsUp_example =
    prepare_worker_pod-IsUp "copy" sync worker_answers refl workers_prepared

crowded_poll : 2 < length (list_workers "copy" (worker "other" "copy-0" ∷ own_workers))
unfolding list_workers
crowded_poll = omega arith

completes : (calculate_sync_stats whole progressing manager_answers).0.phase ≡ Phase.completed
unfolding calculate_sync_stats log_counters
completes = refl

calculate_sync_stats-Clean_example :
    let s = (calculate_sync_stats whole progressing manager_answers).0 in
    ((is_positive s.stats.lost ≡ false) × (is_positive s.stats.failed ≡ false))
    ⊎ (s.reason ≡ no_manager_log)
    ⊎ (s.reason ≡ unparsed_log)
calculate_sync_stats-Clean_example =
    calculate_sync_stats-Clean whole progressing manager_answers refl completes
