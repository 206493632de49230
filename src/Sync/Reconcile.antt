-- ===== src/Sync/Reconcile.antt =====
-- SyncReconciler.Reconcile of internal/controller/sync_controller.go: one call of the handler, from
-- the answers that it gets to the status that it writes and the calls that it makes.
pub mod Life
pub mod Phases
pub mod Steps
use juicefs_operator.Sync.Checks.{rejects}
use juicefs_operator.Base.{
  ℕ, ◌+◌, ◌-◌, ◌*◌, ◌/◌, String, Bool, true, false, not, ◌&&◌, ◌||◌, Option, none, some, List, [],
  ◌∷◌, ◌++◌, leb, ltb, ◌==◌, if◌then◌else◌, is_some,
}
use juicefs_operator.Base.Int.{ℤ}
use juicefs_operator.Base.Text.{Text, codes, has_prefix}
use juicefs_operator.Kube.{ApiError, not_found}
use juicefs_operator.Version.{compare_image_version, at_least}
use juicefs_operator.Sync.{
  Phase, Reason, no_reason, ce_to_ee, bad_from, bad_to, old_ee_for_files, old_ce_for_files,
  hdfs_to_hdfs, trailing_separator, manager_not_found, preparing_timeout, Status, SinkKinds,
  ParsedSink, Spec, Sync,
}
use juicefs_operator.Sync.Pods.{
  Call, update_status, delete_sync, Run, Failure, WorkerAnswers, ManagerPodAnswers, SecretAnswers,
  prepare_sync_secrets, prepare_worker_pod, prepare_manager_pod, delete_workers, ◌>>◌,
}
use juicefs_operator.Sync.Stats.{ManagerAnswers, calculate_sync_stats}

-- `requeue_expired` stands for the delay of an object whose time to live has run out.
pub data Requeue : Type 0 where
  no_requeue requeue_expired : Requeue
  requeue_after : ℕ → Requeue

pub record Outcome : Type 0 where
  pub status : Status
  pub calls : List Call
  pub failed : Bool
  pub requeue : Requeue

-- What a Get of the manager pod answers, with what is read from it.
pub data ManagerGet : Type 0 where
  no_manager : ManagerGet
  manager_error : ApiError → ManagerGet
  manager : ManagerAnswers → ManagerGet

-- The clock's readings and the answers of one call of the handler. `from` and `to` are what
-- ParseSyncSink returns, `none` for an error.
pub record Answers : Type 0 where
  pub from : Option ParsedSink
  pub to : Option ParsedSink
  pub preparing_now : ℕ
  pub timeout_now : ℕ
  pub start_now : ℕ
  pub ttl_now : ℕ
  pub preparing_update : Option ApiError
  pub secrets : SecretAnswers
  pub label : String
  pub workers : WorkerAnswers
  pub manager_pod : ManagerPodAnswers
  pub progressing_update : Option ApiError
  pub delete_workers_error : Option ApiError
  pub delete_sync_error : Option ApiError
  pub manager : ManagerGet
  pub final_update : Option ApiError

-- `Status.Phase = Failed`, with the reason, written back.
unfoldable pub fail_with : Status → List Call → Reason → Option ApiError → Outcome
fail_with status calls reason answer =
    let s = record status { phase = Phase.failed; reason = reason } in
    record {
      status = s;
      calls = calls ++ update_status s ∷ [];
      failed = is_some answer;
      requeue = no_requeue;
    }

abbrev ended : Status → List Call → Bool → Outcome
ended status calls failed = record {
  status = status;
  calls = calls;
  failed = failed;
  requeue = no_requeue;
}

abbrev pub second : ℕ
second = 1000000000

-- The deletion after the time to live; elapsed time is compared in nanoseconds.
after_completion : Sync → Answers → Status → List Call → Outcome
after_completion s a status calls = elim s.spec.ttl_seconds_after_finished [
  | none ↦ ended status calls false
  | some ttl ↦ elim status.completed_at [
    | none ↦ ended status calls false
    | some completed_at ↦
        if leb (completed_at + ttl * second) a.ttl_now
        then elim a.delete_sync_error [
          | none ↦ record {
            status = status;
            calls = calls ++ delete_sync ∷ [];
            failed = false;
            requeue = requeue_expired;
          }
          | some not_found ↦ ended status (calls ++ delete_sync ∷ []) false
          | some e ↦ ended status (calls ++ delete_sync ∷ []) true
        ]
        else record {
          status = status;
          calls = calls;
          failed = false;
          requeue = requeue_after ((completed_at + ttl * second - a.ttl_now) / second * second + 1);
        }
  ]
]

abbrev pub prepared : Sync → Answers → Run
prepared s a =
    prepare_sync_secrets a.secrets
    >> prepare_worker_pod a.label s a.workers
    >> prepare_manager_pod a.manager_pod

timed_out_preparing : Spec → Answers → Status → Bool
timed_out_preparing spec a status = elim spec.preparing_timeout_seconds [
  | none ↦ false
  | some timeout ↦ elim status.preparing_at [
    | none ↦ false
    | some t ↦ ltb (t + timeout * second) a.timeout_now
  ]
]

abbrev timeout_reason : Spec → Reason
timeout_reason spec = elim spec.preparing_timeout_seconds [
  | none ↦ no_reason
  | some t ↦ preparing_timeout t
]

abbrev started : Answers → Status → Status
started a status = record status { start_at = some a.start_now; phase = Phase.progressing }

abbrev accepted : Sync → Answers → Status
accepted s a = record s.status { phase = Phase.preparing; preparing_at = some a.preparing_now }

-- `reflect.DeepEqual(sync.Status, status)` is the argument `unchanged`.
module _ (unchanged : Status → Status → Bool) (percent : ℤ → ℤ → String) where
  with_stats : Answers → Status → List Call → Status × Bool → Outcome
  with_stats a status calls (next, stats_failed) =
      if unchanged status next
      then record {
        status = status;
        calls = calls;
        failed = stats_failed;
        requeue = if stats_failed then no_requeue else requeue_after (3 * second);
      }
      else record {
        status = next;
        calls = calls ++ update_status next ∷ [];
        failed = is_some a.final_update || stats_failed;
        requeue =
            if is_some a.final_update || stats_failed
            then no_requeue
            else requeue_after (3 * second);
      }

  on_progressing : Answers → Status → List Call → Outcome
  unfolding with_stats
  on_progressing a status calls = elim a.manager [
    | no_manager ↦ fail_with status calls manager_not_found a.final_update
    | manager_error e ↦ ended status calls true
    | manager m ↦
        let (deleted, outcome) = delete_workers false a.delete_workers_error in
        elim outcome [
          | some f ↦ ended status (calls ++ deleted) true
          | none ↦ with_stats a status (calls ++ deleted) (calculate_sync_stats percent status m)
        ]
  ]

  on_ended : Sync → Answers → Status → List Call → (completed : Bool) → Outcome
  unfolding after_completion
  on_ended s a status calls completed =
      let (deleted, outcome) = delete_workers true a.delete_workers_error in
      elim outcome [
        | some f ↦ ended status (calls ++ deleted) true
        | none ↦
            if completed
            then after_completion s a status (calls ++ deleted)
            else ended status (calls ++ deleted) false
      ]

  -- What follows once the sync is not being prepared.
  unfoldable pub run_phase : Sync → Answers → Status → List Call → Outcome
  unfolding on_progressing on_ended fail_with
  run_phase s a status calls = elim status.phase [
    | Phase.completed ↦ on_ended s a status calls true
    | Phase.failed ↦ on_ended s a status calls false
    | Phase.progressing ↦ on_progressing a status calls
    | _ ↦ ended status calls false
  ]

  start_progress : Sync → Answers → Status → List Call → Outcome
  start_progress s a status calls =
      if is_some a.progressing_update
      then ended (started a status) (calls ++ update_status (started a status) ∷ []) true
      else run_phase s a (started a status) (calls ++ update_status (started a status) ∷ [])

  after_preparing : Sync → Answers → Status → List Call → Run → Outcome
  unfolding start_progress
  after_preparing s a status calls (made, some f) = ended status (calls ++ made) true
  after_preparing s a status calls (made, none) = start_progress s a status (calls ++ made)

  on_preparing : Sync → Answers → Status → List Call → Outcome
  unfolding timed_out_preparing after_preparing
  on_preparing s a status calls =
      if timed_out_preparing s.spec a status
      then fail_with status calls (timeout_reason s.spec) a.final_update
      else after_preparing s a status calls (prepared s a)

  enter_preparing : Sync → Answers → Outcome
  unfolding on_preparing
  enter_preparing s a =
      if is_some a.preparing_update
      then ended (accepted s a) (update_status (accepted s a) ∷ []) true
      else on_preparing s a (accepted s a) (update_status (accepted s a) ∷ [])

  by_phase : Sync → Answers → Outcome
  unfolding enter_preparing
  by_phase s a = elim s.status.phase [
    | Phase.unset ↦ enter_preparing s a
    | Phase.pending ↦ enter_preparing s a
    | Phase.preparing ↦ on_preparing s a s.status []
    | _ ↦ run_phase s a s.status []
  ]

  judged : Sync → Answers → Option Reason → Outcome
  unfolding by_phase
  judged s a (some reason) = fail_with s.status [] reason a.final_update
  judged s a none = by_phase s a

  unfoldable pub reconcile : Sync → Answers → Outcome
  unfolding judged
  reconcile s a =
      if s.deleting then ended s.status [] false else judged s a (rejects s.spec a.from a.to)
