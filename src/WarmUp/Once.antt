-- ===== src/WarmUp/Once.antt =====
-- onceHandler of internal/controller/warmup_controller.go, with CalculateWarmupProgress of
-- pkg/utils/warmup.go.
pub mod Laws
use juicefs_operator.Base.{
  ℕ, ◌+◌, ◌-◌, ◌*◌, ◌/◌, String, Bool, true, false, not, ◌&&◌, ◌||◌, Option, none, some, List, [],
  ◌∷◌, ◌++◌, leb, if◌then◌else◌, is_some, from_option, str_eq,
}
use juicefs_operator.Base.Int.{ℤ, pos, ltb_ℤ}
use juicefs_operator.Base.Text.{Text, codes}
use juicefs_operator.Kube.{ApiError, not_found, conflict}
use juicefs_operator.Version.{at_least, compare_image_version}
use juicefs_operator.Sync.Stats.{calculate_progress}
use juicefs_operator.WarmUp.{
  Phase, Stats, ConditionType, job_complete, Condition, Status, Job, WarmUp, Call, update_status,
  delete_warm_up, create_job, Requeue, no_requeue, requeue_expired, requeue_after, Outcome, stop,
  blank, finished_condition, supports_stats, fails,
}

abbrev second : ℕ
second = 1000000000

-- A Get of the job.
pub data JobGet : Type 0 where
  no_job : JobGet
  job_error : ApiError → JobGet
  job : Job → JobGet

-- `resolved` is the name that comes with the job builder, `none` for an error; `group_found` is the
-- name of the cache group that is looked up; `stats` and `log` are what GetWarmupJobStats returns,
-- with an error or without; `built` is the job of the builder.
pub record Answers : Type 0 where
  pub ttl_now : ℕ
  pub delete_error : Option ApiError
  pub got : JobGet
  pub resolved : Option String
  pub built : Job
  pub create_error : Option ApiError
  pub group_found : Option String
  pub stats : Stats
  pub log : String
  pub update_error : Option ApiError

after_completion : WarmUp → Answers → Outcome
after_completion wu a = elim wu.ttl_seconds_after_finished [
  | none ↦ stop wu.status [] false
  | some ttl ↦ elim wu.status.last_complete [
    | none ↦ stop wu.status [] false
    | some completed_at ↦
        if leb (completed_at + ttl * second) a.ttl_now
        then elim a.delete_error [
          | none ↦ record {
            status = wu.status;
            calls = delete_warm_up ∷ [];
            failed = false;
            requeue = requeue_expired;
          }
          | some not_found ↦ stop wu.status (delete_warm_up ∷ []) false
          | some e ↦ stop wu.status (delete_warm_up ∷ []) true
        ]
        else record {
          status = wu.status;
          calls = [];
          failed = false;
          requeue = requeue_after ((completed_at + ttl * second - a.ttl_now) / second * second + 1);
        }
  ]
]

-- `parse_bytes` reads a size, `percent` prints a quotient, `duration` prints the time between two
-- instants, `unchanged` is `reflect.DeepEqual`.
module _ (parse_bytes : String → Option ℤ) (percent : ℤ → ℤ → String) (duration : ℕ → ℕ → String)
    (unchanged : Status → Status → Bool) where
  progress_of : Option ℤ → Option ℤ → String
  progress_of (some total) (some done) = calculate_progress percent done total
  progress_of _ _ = "0.00%"

  unfoldable pub calculate_warmup_progress : Stats → String
  unfolding progress_of
  calculate_warmup_progress s =
      if str_eq s.scanned_data "" || str_eq s.completed_data ""
      then "0.00%"
      else progress_of (parse_bytes s.scanned_data) (parse_bytes s.completed_data)

  abbrev ended_phase : ConditionType → Stats → Phase
  ended_phase t s =
      if ltb_ℤ (pos 0) s.failed_blocks
      then Phase.failed
      else elim t [ job_complete ↦ Phase.complete | _ ↦ Phase.failed ]

  status_of : Job → Stats → String → String → Option Condition → Status
  unfolding calculate_warmup_progress
  status_of j stats log cg none = record (blank Phase.running cg) {
    stats = stats;
    progress = calculate_warmup_progress stats;
  }
  status_of j stats log cg (some c) = record {
    phase = ended_phase c.type stats;
    cache_group = cg;
    duration = duration j.created_at c.last_transition;
    conditions = c ∷ [];
    stats = stats;
    progress = calculate_warmup_progress stats;
    finish_log = log;
    last_schedule = j.start_time;
    last_complete = elim c.type [ job_complete ↦ j.completion_time | _ ↦ none ];
  }

  unfoldable pub calculate_status : Job → Stats → String → String → Status
  unfolding status_of
  calculate_status j stats log cg = status_of j stats log cg (finished_condition j.conditions)

  abbrev asks_again : WarmUp → Job → Requeue
  asks_again wu j =
      if supports_stats j.image && elim wu.status.phase [ Phase.running ↦ true | _ ↦ false ]
      then requeue_after (3 * second)
      else no_requeue

  -- What follows once the job is there.
  unfoldable pub with_job : WarmUp → Answers → List Call → Job → String → Outcome
  with_job wu a calls j cg_name =
      let cg = if wu.has_secret then cg_name else from_option cg_name a.group_found in
      let next = calculate_status j a.stats a.log cg in
      if unchanged wu.status next
      then record { status = wu.status; calls = calls; failed = false; requeue = asks_again wu j }
      else record {
        status = next;
        calls = calls ++ update_status next ∷ [];
        failed = fails a.update_error;
        requeue = asks_again wu j;
      }

  start_job : WarmUp → Answers → Option String → Outcome
  unfolding with_job
  start_job wu a none = stop wu.status [] true
  start_job wu a (some cg_name) =
      if is_some a.create_error
      then stop wu.status (create_job ∷ []) true
      else with_job wu a (create_job ∷ []) a.built cg_name

  on_job : WarmUp → Answers → JobGet → Outcome
  unfolding start_job
  on_job wu a no_job = start_job wu a a.resolved
  on_job wu a (job_error e) = stop wu.status [] true
  on_job wu a (job j) = with_job wu a [] j wu.cache_group_name

  sync_phase : WarmUp → Answers → Phase → Outcome
  unfolding on_job after_completion
  sync_phase wu a Phase.failed = stop wu.status [] false
  sync_phase wu a Phase.complete = after_completion wu a
  sync_phase wu a _ = on_job wu a a.got

  -- onceHandler.sync
  unfoldable pub sync_once : WarmUp → Answers → Outcome
  unfolding sync_phase
  sync_once wu a = sync_phase wu a wu.status.phase
