-- ===== src/WarmUp/Cron.antt =====
-- cronHandler of internal/controller/warmup_controller.go.
pub mod Laws
use juicefs_operator.Base.{
  ℕ, ◌+◌, ◌-◌, ◌*◌, ◌/◌, String, Bool, true, false, not, ◌&&◌, ◌||◌, Option, none, some, List, [],
  ◌∷◌, ◌++◌, leb, if◌then◌else◌, is_some, from_option, str_eq,
}
use juicefs_operator.Base.Int.{ℤ, pos, ltb_ℤ}
use juicefs_operator.Base.Text.{Text, codes}
use juicefs_operator.Kube.{ApiError, not_found, conflict}
use juicefs_operator.Version.{at_least, compare_image_version}
use juicefs_operator.Sync.Stats.{calculate_progress}
use juicefs_operator.WarmUp.{
  Phase, Status, WarmUp, update_status, create_cron_job, update_cron_job, Outcome, stop, blank,
  fails,
}

-- A Get of the cron job: its hash annotation, and the times in its status.
pub data CronJobGet : Type 0 where
  no_cron_job : CronJobGet
  cron_job_error : ApiError → CronJobGet
  cron_job : (hash : String) → CronJobGet

-- The cron job that is built has the hash `built_hash` and, once created, the times that the API
-- server answers.
pub record CronAnswers : Type 0 where
  pub cron_resolved : Option String
  pub built_hash : String
  pub cron_got : CronJobGet
  pub cron_create_error : Option ApiError
  pub cron_last_schedule : Option ℕ
  pub cron_last_successful : Option ℕ
  pub cron_update_error : Option ApiError
  pub status_error : Option ApiError

unfoldable pub cron_status : CronAnswers → String → Status
cron_status a cg = record (blank Phase.running cg) {
  last_schedule = a.cron_last_schedule;
  last_complete = a.cron_last_successful;
}

-- The value is compared with a pointer, so the new status always differs and is written.
unfoldable pub on_cron_job : WarmUp → CronAnswers → String → CronJobGet → Outcome
unfolding cron_status
on_cron_job wu a cg no_cron_job =
    if is_some a.cron_create_error
    then stop wu.status (create_cron_job ∷ []) true
    else stop (cron_status a cg) (create_cron_job ∷ update_status (cron_status a cg) ∷ [])
        (fails a.status_error)
on_cron_job wu a cg (cron_job_error e) = stop wu.status [] true
on_cron_job wu a cg (cron_job hash) =
    if str_eq a.built_hash hash
    then stop wu.status [] false
    else stop wu.status (update_cron_job ∷ []) (fails a.cron_update_error)

resolved_cron : WarmUp → CronAnswers → Option String → Outcome
unfolding on_cron_job
resolved_cron wu a none = stop wu.status [] true
resolved_cron wu a (some cg) = on_cron_job wu a cg a.cron_got

-- cronHandler.sync
unfoldable pub sync_cron : WarmUp → CronAnswers → Outcome
unfolding resolved_cron
sync_cron wu a = resolved_cron wu a a.cron_resolved
