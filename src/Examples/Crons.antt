-- ===== src/Examples/Crons.antt =====
-- The theorems about crons on concrete ones.
use juicefs_operator.Base.Sort.{sort_by}
use juicefs_operator.Base.{ℕ, ◌+◌, String, refl, ◌≡◌, true, none, some, List, [], ◌∷◌, any, false}
use juicefs_operator.Sync.{Phase}
use juicefs_operator.CronSync.{
  replace, CronSync, Job, Answers, reconcile, delete_job, create_job, update_status, expired_jobs,
}
use juicefs_operator.CronSync.History.{IsDivided, expired_jobs-IsDivided}
use juicefs_operator.CronSync.Start.{creates, IsDue, reconcile-IsDue}

abbrev job : String → Phase → ℕ → Job
job name phase created_at = record {
  name = name;
  phase = phase;
  created_at = created_at;
  completed_at = created_at + 5;
}

abbrev jobs : List Job
jobs =
    job "c" Phase.completed 30
    ∷ job "r" Phase.progressing 40
    ∷ job "a" Phase.completed 10
    ∷ job "b" Phase.completed 20
    ∷ []

abbrev cron : CronSync
cron = record {
  suspend = false;
  policy = replace;
  successful_limit = 2;
  failed_limit = 1;
  status = record { last_schedule = some 40; next_schedule = some 50; last_successful = none };
}

abbrev answers : Answers
answers = record {
  now = 51;
  first_update = none;
  listed = some jobs;
  delete_error = λ _. none;
  create_error = none;
  last_update = none;
}

abbrev every_ten : ℕ → ℕ
every_ten t = t + 10

-- The oldest job leaves the history, the running one is replaced, and a new one is created.
replaces :
    (reconcile (some every_ten) cron answers).calls
    ≡ delete_job "a"
      ∷ delete_job "r"
      ∷ create_job 51
      ∷ update_status
          (record { last_schedule = some 51; next_schedule = some 61; last_successful = some 35 })
      ∷ []
unfolding reconcile sort_by
replaces = refl

starts : any creates (reconcile (some every_ten) cron answers).calls ≡ true
unfolding reconcile sort_by
starts = refl

reconcile-IsDue_example : IsDue (some every_ten) cron answers
reconcile-IsDue_example = reconcile-IsDue (some every_ten) cron answers starts

expired_jobs-IsDivided_example : IsDivided 2 jobs (expired_jobs 2 jobs)
expired_jobs-IsDivided_example = expired_jobs-IsDivided 2 jobs
