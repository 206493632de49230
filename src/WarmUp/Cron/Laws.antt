-- ===== src/WarmUp/Cron/Laws.antt =====
-- When the cron handler writes the status.
use juicefs_operator.Base.{◌≡◌, ◌↔◌, Bool, true, false, any, arith, is_some}
use juicefs_operator.WarmUp.{WarmUp, Call, update_status}
use juicefs_operator.WarmUp.Once.Laws.{starts}
use juicefs_operator.WarmUp.Cron.{CronAnswers, no_cron_job, on_cron_job, resolved_cron, sync_cron}

abbrev pub writes : Call → Bool
writes (update_status _) = true
writes _ = false

-- The cron handler writes the status exactly when it has resolved its job, found no cron job and
-- created one without an error.
pub sync_cron-writes :
    (wu : WarmUp) (a : CronAnswers)
    → (any writes (sync_cron wu a).calls ≡ true) ↔ (
        (is_some a.cron_resolved ≡ true)
        × (a.cron_got ≡ no_cron_job)
        × (is_some a.cron_create_error ≡ false))
unfolding sync_cron resolved_cron on_cron_job
sync_cron-writes wu a = (ground arith, ground arith)

-- The cron handler creates no job of its own.
pub sync_cron-starts : (wu : WarmUp) (a : CronAnswers) → any starts (sync_cron wu a).calls ≡ false
unfolding sync_cron resolved_cron on_cron_job
sync_cron-starts wu a = ground arith
