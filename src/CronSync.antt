-- ===== src/CronSync.antt =====
-- internal/controller/cronsync_controller.go: one call of CronSyncReconciler.Reconcile, from the
-- answers that it gets to the status and the calls that it makes. The parsed schedule, a function
-- from an instant to the next one, is a parameter; `none` is a schedule that cannot be parsed.
pub mod History
pub mod Start
use juicefs_operator.Base.{
  ℕ, ◌-◌, String, Bool, true, false, not, ◌&&◌, ◌||◌, Option, none, some, List, [], ◌∷◌, ◌++◌, ltb,
  if◌then◌else◌, is_some, length, take, filterb, from_option,
}
use juicefs_operator.Base.Sort.{sort_by}
use juicefs_operator.Kube.{ApiError}
use juicefs_operator.Sync.{Phase}

-- batchv1.ConcurrencyPolicy; `other_policy` is any other text, which the switch lets pass.
pub data Policy : Type 0 where
  allow forbid replace other_policy : Policy

pub record Status : Type 0 where
  pub last_schedule : Option ℕ
  pub next_schedule : Option ℕ
  pub last_successful : Option ℕ

-- The limits are pointers in the code; the API server fills their defaults in.
pub record CronSync : Type 0 where
  pub suspend : Bool
  pub policy : Policy
  pub successful_limit : ℕ
  pub failed_limit : ℕ
  pub status : Status

-- A Sync that the cron made; `completed_at` is read for a completed one only.
pub record Job : Type 0 where
  pub name : String
  pub phase : Phase
  pub created_at : ℕ
  pub completed_at : ℕ

pub data Call : Type 0 where
  update_status : Status → Call
  delete_job : String → Call
  create_job : (at : ℕ) → Call

abbrev pub Run : Type 0
Run = List Call × Option ApiError

-- Delete one after the other; the first error ends it.
unfoldable pub delete_jobs : (String → Option ApiError) → List Job → Run
delete_jobs answer [] = ([], none)
delete_jobs answer (j ∷ js) =
    let (calls, e) = delete_jobs answer js in
    elim (answer j.name) [
      | none ↦ (delete_job j.name ∷ calls, e)
      | some failure ↦ (delete_job j.name ∷ [], some failure)
    ]

abbrev pub is_completed : Job → Bool
is_completed j = elim j.phase [ Phase.completed ↦ true | _ ↦ false ]

abbrev pub is_failed : Job → Bool
is_failed j = elim j.phase [ Phase.failed ↦ true | _ ↦ false ]

abbrev pub is_running : Job → Bool
is_running j = elim j.phase [
  | Phase.pending ↦ true
  | Phase.preparing ↦ true
  | Phase.progressing ↦ true
  | _ ↦ false
]

abbrev pub created_before : Job → Job → Bool
created_before a b = ltb a.created_at b.created_at

abbrev completed_after : Job → Job → Bool
completed_after a b = ltb b.completed_at a.completed_at

-- The jobs of one phase that the limit of its history does not keep.
unfoldable pub expired_jobs : ℕ → List Job → List Job
expired_jobs limit jobs =
    if ltb (length jobs) limit then [] else take (length jobs - limit) (sort_by created_before jobs)

abbrev latest_completion : List Job → Option ℕ → Option ℕ
latest_completion [] old = old
latest_completion (j ∷ _) old = some j.completed_at

unfoldable pub with_last_successful : List Job → Status → Status
with_last_successful jobs status = record status {
  last_successful =
      latest_completion (sort_by completed_after (filterb is_completed jobs))
        status.last_successful;
}

abbrev pub both : Run → Run → Run
both (calls, none) (more, e) = (calls ++ more, e)
both (calls, some failure) next = (calls, some failure)

-- The deletions of SyncHistory.
unfoldable pub clean_history : (String → Option ApiError) → CronSync → List Job → Run
unfolding expired_jobs delete_jobs
clean_history answer cron jobs =
    both (delete_jobs answer (expired_jobs cron.successful_limit (filterb is_completed jobs)))
      (delete_jobs answer (expired_jobs cron.failed_limit (filterb is_failed jobs)))

pub record Answers : Type 0 where
  pub now : ℕ
  pub first_update : Option ApiError
  pub listed : Option (List Job)
  pub delete_error : String → Option ApiError
  pub create_error : Option ApiError
  pub last_update : Option ApiError

-- `requeue_after` is `none` where the result asks for no further call.
pub record Outcome : Type 0 where
  pub status : Status
  pub calls : List Call
  pub failed : Bool
  pub requeue_after : Option ℕ

unfoldable pub finish : Status → List Call → Bool → Option ℕ → Outcome
finish status calls failed requeue = record {
  status = status;
  calls = calls;
  failed = failed;
  requeue_after = if failed then none else requeue;
}

-- The switch on the policy: the calls that it makes, and whether a job may be created then.
unfoldable pub make_room : Policy → (String → Option ApiError) → List Job → Run × Bool
unfolding delete_jobs
make_room forbid answer [] = (([], none), true)
make_room forbid answer (_ ∷ _) = (([], none), false)
make_room replace answer running = (delete_jobs answer running, true)
make_room _ answer running = (([], none), true)

module _ (schedule : ℕ → ℕ) where
  abbrev pub scheduled : ℕ → Status → Status
  scheduled now status = record status {
    last_schedule = some now;
    next_schedule = some (schedule now);
  }

  unfoldable pub create : Answers → Status → List Call → Outcome
  unfolding finish
  create a status calls =
      if is_some a.create_error
      then finish status (calls ++ create_job a.now ∷ update_status status ∷ [])
          (is_some a.last_update) none
      else finish (scheduled a.now status)
          (calls ++ create_job a.now ∷ update_status (scheduled a.now status) ∷ [])
          (is_some a.last_update) (some (schedule a.now - a.now))

  -- What follows the switch on the policy.
  unfoldable pub after_room : Answers → Status → List Call → Run × Bool → Outcome
  unfolding create
  after_room a status calls ((made, some failure), go) = finish status (calls ++ made) true none
  after_room a status calls ((made, none), false) = finish status (calls ++ made) false none
  after_room a status calls ((made, none), true) = create a status (calls ++ made)

  -- `cronSchedule.Next(last).After(now)`; the first call has set `last`.
  unfoldable pub is_early : ℕ → Status → Bool
  is_early now status = elim status.last_schedule [
    | none ↦ false
    | some last ↦ ltb now (schedule last)
  ]

  unfoldable pub start_job : CronSync → Answers → Status → List Job → List Call → Outcome
  unfolding is_early make_room after_room
  start_job cron a status jobs calls =
      if is_early a.now status
      then finish status (calls ++ update_status status ∷ []) (is_some a.last_update)
          (some (schedule a.now - a.now))
      else after_room a status calls
          (make_room cron.policy a.delete_error (filterb is_running jobs))

  unfoldable pub after_history : CronSync → Answers → Status → List Job → List Call → Run → Outcome
  unfolding start_job
  after_history cron a status jobs calls (made, some failure) =
      finish status (calls ++ made) true none
  after_history cron a status jobs calls (made, none) = start_job cron a status jobs (calls ++ made)

  unfoldable pub with_jobs : CronSync → Answers → Status → List Call → Option (List Job) → Outcome
  unfolding after_history clean_history with_last_successful
  with_jobs cron a status calls none = finish status calls true none
  with_jobs cron a status calls (some jobs) =
      after_history cron a (with_last_successful jobs status) jobs calls
        (clean_history a.delete_error cron jobs)

  unfoldable pub on_schedule : CronSync → Answers → Outcome
  unfolding with_jobs
  on_schedule cron a =
      if is_some cron.status.last_schedule
      then with_jobs cron a cron.status [] a.listed
      else let first = scheduled a.now cron.status in
        if is_some a.first_update
        then finish first (update_status first ∷ []) true none
        else with_jobs cron a first (update_status first ∷ []) a.listed

unfoldable pub reconcile : Option (ℕ → ℕ) → CronSync → Answers → Outcome
unfolding on_schedule
reconcile schedule cron a =
    if cron.suspend then finish cron.status [] false none else elim schedule [
      | none ↦ finish cron.status [] true none
      | some next ↦ on_schedule next cron a
    ]
