-- ===== src/WarmUp/Once/Laws.antt =====
-- What the once handler leaves alone, and when a warm-up is complete.
use juicefs_operator.Base.{
  ℕ, String, ◌≡◌, ◌↔◌, refl, Bool, true, false, Option, none, some, [], any, arith, is_some,
}
use juicefs_operator.Base.Int.{ℤ, pos, ltb_ℤ}
use juicefs_operator.WarmUp.{
  Phase, Stats, job_complete, Condition, Status, Job, WarmUp, Call, update_status, create_job,
  finished_condition,
}
use juicefs_operator.WarmUp.Once.{
  Answers, JobGet, no_job, job_error, job, calculate_status, status_of, with_job, start_job, on_job,
  sync_phase, sync_once, after_completion,
}

abbrev pub is_final : Phase → Bool
is_final Phase.failed = true
is_final Phase.complete = true
is_final _ = false

-- A call that writes the status or starts a job.
abbrev pub works : Call → Bool
works (update_status _) = true
works create_job = true
works _ = false

abbrev pub starts : Call → Bool
starts create_job = true
starts _ = false

after_completion-works :
    (wu : WarmUp) (a : Answers)
    → ((after_completion wu a).status ≡ wu.status)
      × (any works (after_completion wu a).calls ≡ false)
unfolding after_completion
after_completion-works wu a = (ground arith, ground arith)

after_completion-starts :
    (wu : WarmUp) (a : Answers) → any starts (after_completion wu a).calls ≡ false
unfolding after_completion
after_completion-starts wu a = ground arith

module _ (parse_bytes : String → Option ℤ) (percent : ℤ → ℤ → String) (duration : ℕ → ℕ → String)
    (unchanged : Status → Status → Bool) where
  sync_phase-works :
      (wu : WarmUp) (a : Answers) (p : Phase)
      → is_final p ≡ true
      → ((sync_phase parse_bytes percent duration unchanged wu a p).status ≡ wu.status)
        × (any works (sync_phase parse_bytes percent duration unchanged wu a p).calls ≡ false)
  unfolding sync_phase
  sync_phase-works wu a Phase.failed h = (refl, refl)
  sync_phase-works wu a Phase.complete h = after_completion-works wu a
  sync_phase-works wu a _ h = absurd (ground arith)

  -- A warm-up that has completed or failed keeps its status, which is not written again, and no job
  -- is created for it.
  pub sync_once-works :
      (wu : WarmUp) (a : Answers)
      → is_final wu.status.phase ≡ true
      → ((sync_once parse_bytes percent duration unchanged wu a).status ≡ wu.status)
        × (any works (sync_once parse_bytes percent duration unchanged wu a).calls ≡ false)
  unfolding sync_once
  sync_once-works wu a h = sync_phase-works wu a wu.status.phase h

  with_job-starts :
      (wu : WarmUp) (a : Answers) (j : Job) (cg : String)
      → any starts (with_job parse_bytes percent duration unchanged wu a [] j cg).calls ≡ false
  unfolding with_job
  with_job-starts wu a j cg = ground arith

  on_job-starts :
      (wu : WarmUp) (a : Answers) (got : JobGet) (r : Option String)
      → a.resolved ≡ r
      → any starts (on_job parse_bytes percent duration unchanged wu a got).calls ≡ true
      → (got ≡ no_job) × (is_some a.resolved ≡ true)
  unfolding on_job start_job
  on_job-starts wu a no_job none e h = absurd (ground arith)
  on_job-starts wu a no_job (some cg) e h = (refl, rw e refl)
  on_job-starts wu a (job_error f) r e h = absurd (ground arith)
  on_job-starts wu a (job j) r e h =
      absurd (ground (arith, with_job-starts wu a j wu.cache_group_name))

  sync_phase-starts :
      (wu : WarmUp) (a : Answers) (p : Phase)
      → any starts (sync_phase parse_bytes percent duration unchanged wu a p).calls ≡ true
      → (is_final p ≡ false) × (a.got ≡ no_job) × (is_some a.resolved ≡ true)
  unfolding sync_phase
  sync_phase-starts wu a Phase.failed h = absurd (ground arith)
  sync_phase-starts wu a Phase.complete h = absurd (ground (arith, after_completion-starts wu a))
  sync_phase-starts wu a _ h =
      let (got, found) = on_job-starts wu a a.got a.resolved refl h in (refl, got, found)

  -- A job is created only for a warm-up that has not ended and has no job yet, once its cache group
  -- or secret has been found.
  pub sync_once-starts :
      (wu : WarmUp) (a : Answers)
      → any starts (sync_once parse_bytes percent duration unchanged wu a).calls ≡ true
      → (is_final wu.status.phase ≡ false) × (a.got ≡ no_job) × (is_some a.resolved ≡ true)
  unfolding sync_once
  sync_once-starts wu a h = sync_phase-starts wu a wu.status.phase h

  status_of-complete :
      (j : Job) (stats : Stats) (log cg : String) (o : Option Condition)
      → ((status_of parse_bytes percent duration unchanged j stats log cg o).phase ≡ Phase.complete)
        ↔ ((c : Condition) × (o ≡ some c)
            × (c.type ≡ job_complete)
            × (ltb_ℤ (pos 0) stats.failed_blocks ≡ false))
  unfolding status_of
  status_of-complete j stats log cg none =
      (λ h. absurd (ground arith), λ (c, e, t, f). absurd (ground arith))
  status_of-complete j stats log cg (some c) =
      (λ h. (c, refl, ground arith, ground arith), λ (d, e, t, f). ground arith)

  -- The status calls a warm-up complete exactly when the first condition that ends its job says that
  -- the job has completed and its statistics count no failed block.
  pub calculate_status-complete :
      (j : Job) (stats : Stats) (log cg : String)
      → ((calculate_status parse_bytes percent duration unchanged j stats log cg).phase
          ≡ Phase.complete)
        ↔ ((c : Condition) × (finished_condition j.conditions ≡ some c)
            × (c.type ≡ job_complete)
            × (ltb_ℤ (pos 0) stats.failed_blocks ≡ false))
  unfolding calculate_status
  calculate_status-complete j stats log cg =
      status_of-complete j stats log cg (finished_condition j.conditions)
