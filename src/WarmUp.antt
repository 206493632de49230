-- ===== src/WarmUp.antt =====
-- internal/controller/warmup_controller.go: the once and the cron handler, from a WarmUp
-- (api/v1/warmup_types.go) and the answers that they get to the status and the calls that they make.
pub mod Once
pub mod Cron
pub mod Command
pub mod Jobs
pub mod MountInfo
pub mod Progress
pub mod Resolve
use juicefs_operator.Base.{
  ℕ, ◌+◌, ◌-◌, ◌*◌, ◌/◌, String, Bool, true, false, not, ◌&&◌, ◌||◌, Option, none, some, List, [],
  ◌∷◌, ◌++◌, leb, if◌then◌else◌, is_some, from_option, str_eq,
}
use juicefs_operator.Base.Int.{ℤ, pos, ltb_ℤ}
use juicefs_operator.Base.Text.{Text, codes}
use juicefs_operator.Kube.{ApiError, not_found, conflict}
use juicefs_operator.Version.{at_least, compare_image_version}
use juicefs_operator.Sync.Stats.{calculate_progress}

-- WarmUpPhase; `unset` is the empty string of a new object.
pub data Phase : Type 0 where
  unset pending running failed complete : Phase

pub record Stats : Type 0 where
  pub scanned : ℤ
  pub completed : ℤ
  pub failed_blocks : ℤ
  pub speed : String
  pub scanned_data : String
  pub completed_data : String
  pub failed_data : String

pub data ConditionType : Type 0 where
  job_complete job_failed other_condition : ConditionType

pub record Condition : Type 0 where
  pub type : ConditionType
  pub status : String
  pub last_transition : ℕ

pub record Status : Type 0 where
  pub phase : Phase
  pub cache_group : String
  pub duration : String
  pub conditions : List Condition
  pub stats : Stats
  pub progress : String
  pub finish_log : String
  pub last_schedule : Option ℕ
  pub last_complete : Option ℕ

-- batchv1.Job, as far as the handler reads it; `image` is that of the first container.
pub record Job : Type 0 where
  pub conditions : List Condition
  pub start_time : Option ℕ
  pub completion_time : Option ℕ
  pub created_at : ℕ
  pub image : Text

pub record WarmUp : Type 0 where
  pub has_secret : Bool
  pub cache_group_name : String
  pub ttl_seconds_after_finished : Option ℕ
  pub status : Status

pub data Call : Type 0 where
  update_status : Status → Call
  delete_warm_up create_job create_cron_job update_cron_job : Call

-- As in the other controllers; `requeue_expired` stands for the delay of an object whose time to
-- live has run out.
pub data Requeue : Type 0 where
  no_requeue requeue_expired : Requeue
  requeue_after : ℕ → Requeue

pub record Outcome : Type 0 where
  pub status : Status
  pub calls : List Call
  pub failed : Bool
  pub requeue : Requeue

abbrev pub stop : Status → List Call → Bool → Outcome
stop status calls has_failed = record {
  status = status;
  calls = calls;
  failed = has_failed;
  requeue = no_requeue;
}

abbrev pub no_stats : Stats
no_stats = record {
  scanned = pos 0;
  completed = pos 0;
  failed_blocks = pos 0;
  speed = "";
  scanned_data = "";
  completed_data = "";
  failed_data = "";
}

-- A status of the phase, with all else empty.
abbrev pub blank : Phase → String → Status
blank phase cache_group = record {
  phase = phase;
  cache_group = cache_group;
  duration = "";
  conditions = [];
  stats = no_stats;
  progress = "";
  finish_log = "";
  last_schedule = none;
  last_complete = none;
}

-- The first condition that says that the job is finished.
unfoldable pub finished_condition : List Condition → Option Condition
finished_condition [] = none
finished_condition (c ∷ cs) =
    let rest = finished_condition cs in
    elim c.type [ job_complete ↦ some c | job_failed ↦ some c | other_condition ↦ rest ]

unfoldable pub supports_stats : Text → Bool
supports_stats image = at_least (compare_image_version image (codes "5.2.11"))

abbrev pub is_conflict : ApiError → Bool
is_conflict e = elim e [ conflict ↦ true | _ ↦ false ]

-- Whether an error is left of an answer once a conflict is ignored.
abbrev pub fails : Option ApiError → Bool
fails none = false
fails (some e) = not (is_conflict e)
