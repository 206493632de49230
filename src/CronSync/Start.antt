-- ===== src/CronSync/Start.antt =====
-- When a cron starts a sync.
use juicefs_operator.Base.{
  ℕ, ◌≤◌, String, ◌-◌, ◌≡◌, ◌∙◌, ◌≢◌, ◌⊎◌, inl, inr, refl, Bool, true, false, Option, none, some,
  List, [], ◌∷◌, ◌++◌, any, arith, is_some, filterb, Bool-cases, Option-cases, ◌∙◌,
}
use juicefs_operator.Kube.{ApiError}
use juicefs_operator.CronSync.{
  Policy, forbid, replace, Status, CronSync, Job, Call, create_job, Run, delete_jobs, is_running,
  Answers, make_room, after_room, is_early, start_job, after_history, with_jobs, on_schedule,
  reconcile, clean_history, both, finish, scheduled, update_status, expired_jobs,
  with_last_successful, is_completed, is_failed,
}

abbrev pub creates : Call → Bool
creates (create_job _) = true
creates _ = false

any-append : (xs ys : List Call) → any creates xs ≡ false → any creates (xs ++ ys) ≡ any creates ys
any-append [] ys h = refl
any-append (x ∷ xs) ys h = ground (arith, any-append xs ys)

delete_jobs-creates :
    (answer : String → Option ApiError) (jobs : List Job)
    → any creates (delete_jobs answer jobs).0 ≡ false
unfolding delete_jobs
delete_jobs-creates answer [] = refl
delete_jobs-creates answer (j ∷ js) = ground (arith, delete_jobs-creates answer js)

-- The running jobs allow another one.
pub record HasRoom (policy : Policy) (answer : String → Option ApiError) (running : List Job)
    : Type 0 where
  pub alone : (policy ≢ forbid) ⊎ (running ≡ [])
  pub replaced : (policy ≢ replace) ⊎ ((delete_jobs answer running).1 ≡ none)

make_room-creates :
    (policy : Policy) (answer : String → Option ApiError) (running : List Job)
    → any creates (make_room policy answer running).0.0 ≡ false
unfolding make_room
make_room-creates forbid answer [] = refl
make_room-creates forbid answer (_ ∷ _) = refl
make_room-creates replace answer running = delete_jobs-creates answer running
make_room-creates _ answer running = refl

make_room-HasRoom :
    (policy : Policy) (answer : String → Option ApiError) (running : List Job)
    → (make_room policy answer running).0.1 ≡ none
    → (make_room policy answer running).1 ≡ true
    → HasRoom policy answer running
unfolding make_room
make_room-HasRoom forbid answer [] h k = record { alone = inr refl; replaced = inl ground arith }
make_room-HasRoom forbid answer (_ ∷ _) h k = absurd (ground arith)
make_room-HasRoom replace answer running h k = record { alone = inl ground arith; replaced = inr h }
make_room-HasRoom _ answer running h k = record {
  alone = inl ground arith;
  replaced = inl ground arith;
}

module _ (schedule : ℕ → ℕ) where
  after_room-creates :
      (a : Answers) (status : Status) (calls : List Call) (room : Run × Bool)
      → any creates calls ≡ false
      → any creates room.0.0 ≡ false
      → any creates (after_room schedule a status calls room).calls ≡ true
      → (room.0.1 ≡ none) × (room.1 ≡ true)
  unfolding after_room finish
  after_room-creates a status calls ((made, some f), go) h k c =
      absurd (ground (arith, any-append calls made h))
  after_room-creates a status calls ((made, none), false) h k c =
      absurd (ground (arith, any-append calls made h))
  after_room-creates a status calls ((made, none), true) h k c = (refl, refl)

  -- What held when a job was created after the history was cleaned.
  record IsReady (cron : CronSync) (a : Answers) (status : Status) (jobs : List Job) : Type 0 where
    reached : is_early schedule a.now status ≡ false
    room : HasRoom cron.policy a.delete_error (filterb is_running jobs)

  finish-creates :
      (status next : Status) (calls : List Call) (failed : Bool) (requeue : Option ℕ)
      → any creates calls ≡ false
      → any creates (finish next (calls ++ update_status status ∷ []) failed requeue).calls ≡ false
  unfolding finish
  finish-creates status next calls failed requeue h =
      ground (arith, any-append calls (update_status status ∷ []) h)

  start_job-IsReady :
      (cron : CronSync) (a : Answers) (status : Status) (jobs : List Job) (calls : List Call)
      → any creates calls ≡ false
      → any creates (start_job schedule cron a status jobs calls).calls ≡ true
      → IsReady cron a status jobs
  unfolding start_job
  start_job-IsReady cron a status jobs calls h c =
      elim (Bool-cases (is_early schedule a.now status)) [
        | inl early ↦ absurd (
            ground (
              arith,
              finish-creates status status calls (is_some a.last_update)
                  (some (schedule a.now - a.now)) h,
            ))
        | inr late ↦
            let room = make_room cron.policy a.delete_error (filterb is_running jobs) in
            let (ok, go) =
              after_room-creates a status calls room h
                (make_room-creates cron.policy a.delete_error (filterb is_running jobs))
                (ground arith) in
            record {
              reached = late;
              room = make_room-HasRoom cron.policy a.delete_error (filterb is_running jobs) ok go;
            }
      ]

  both-creates :
      (r s : Run)
      → any creates r.0 ≡ false
      → any creates s.0 ≡ false
      → any creates (both r s).0 ≡ false
  both-creates (calls, none) (more, e) h k = ground (arith, any-append calls more h)
  both-creates (calls, some f) s h k = h

  clean_history-creates :
      (answer : String → Option ApiError) (cron : CronSync) (jobs : List Job)
      → any creates (clean_history answer cron jobs).0 ≡ false
  unfolding clean_history
  clean_history-creates answer cron jobs =
      let completed = expired_jobs cron.successful_limit (filterb is_completed jobs) in
      let failed = expired_jobs cron.failed_limit (filterb is_failed jobs) in
      both-creates (delete_jobs answer completed) (delete_jobs answer failed)
        (delete_jobs-creates answer completed) (delete_jobs-creates answer failed)

  after_history-IsReady :
      (cron : CronSync) (a : Answers) (status : Status) (jobs : List Job) (calls : List Call)
      (run : Run)
      → any creates calls ≡ false
      → any creates run.0 ≡ false
      → any creates (after_history schedule cron a status jobs calls run).calls ≡ true
      → IsReady cron a status jobs
  unfolding after_history finish
  after_history-IsReady cron a status jobs calls (made, some f) h k c =
      absurd (ground (arith, any-append calls made h))
  after_history-IsReady cron a status jobs calls (made, none) h k c =
      start_job-IsReady cron a status jobs (calls ++ made) (any-append calls made h ∙ k) c

-- When a cron creates a job.
pub record IsDue (schedule : Option (ℕ → ℕ)) (cron : CronSync) (a : Answers) : Type 0 where
  pub next : ℕ → ℕ
  pub parsed : schedule ≡ some next
  pub active : cron.suspend ≡ false
  pub last : ℕ
  pub was_last :
      (cron.status.last_schedule ≡ some last)
      ⊎ ((cron.status.last_schedule ≡ none) × (last ≡ a.now))
  pub reached : next last ≤ a.now
  pub jobs : List Job
  pub listed : a.listed ≡ some jobs
  pub room : HasRoom cron.policy a.delete_error (filterb is_running jobs)

is_early-le :
    (next : ℕ → ℕ) (now last : ℕ) (status : Status)
    → status.last_schedule ≡ some last
    → is_early next now status ≡ false
    → next last ≤ now
unfolding is_early
is_early-le next now last status e h = ground arith

module _ (next : ℕ → ℕ) (cron : CronSync) (a : Answers) where
  with_jobs-IsDue :
      (status : Status) (calls : List Call) (listed : Option (List Job)) (last : ℕ)
      → a.listed ≡ listed
      → cron.suspend ≡ false
      → status.last_schedule ≡ some last
      → (cron.status.last_schedule ≡ some last)
        ⊎ ((cron.status.last_schedule ≡ none) × (last ≡ a.now))
      → any creates calls ≡ false
      → any creates (with_jobs next cron a status calls listed).calls ≡ true
      → IsDue (some next) cron a
  unfolding with_jobs finish
  with_jobs-IsDue status calls none last l active e was h c = absurd (ground arith)
  with_jobs-IsDue status calls (some jobs) last l active e was h c =
      let ready =
        after_history-IsReady next cron a (with_last_successful jobs status) jobs calls
          (clean_history a.delete_error cron jobs) h
          (clean_history-creates next a.delete_error cron jobs) c in
      record {
        next = next;
        parsed = refl;
        active = active;
        last = last;
        was_last = was;
        reached = is_early-le next a.now last (with_last_successful jobs status) e ready.reached;
        jobs = jobs;
        listed = l;
        room = ready.room;
      }

  on_schedule-IsDue :
      cron.suspend ≡ false
      → any creates (on_schedule next cron a).calls ≡ true
      → IsDue (some next) cron a
  unfolding on_schedule finish
  on_schedule-IsDue active c = elim (Option-cases cron.status.last_schedule) [
    | inr (last, e) ↦
        with_jobs-IsDue cron.status [] a.listed last refl active e (inl e) refl (ground arith)
    | inl e ↦ elim (Bool-cases (is_some a.first_update)) [
      | inl failed ↦ absurd (ground arith)
      | inr ok ↦
          with_jobs-IsDue (scheduled next a.now cron.status)
            (update_status (scheduled next a.now cron.status) ∷ []) a.listed a.now refl active refl
            (inr (e, refl)) refl (ground arith)
    ]
  ]

-- A cron creates a job only when it is not suspended, its schedule can be parsed, the instant after
-- its last start has come, its jobs could be listed and its policy has room: under Forbid no job
-- runs, and under Replace every running job has been deleted without an error.
pub reconcile-IsDue :
    (schedule : Option (ℕ → ℕ)) (cron : CronSync) (a : Answers)
    → any creates (reconcile schedule cron a).calls ≡ true
    → IsDue schedule cron a
unfolding reconcile finish
reconcile-IsDue none cron a c = absurd (ground arith)
reconcile-IsDue (some next) cron a c = elim (Bool-cases cron.suspend) [
  | inl off ↦ absurd (ground arith)
  | inr active ↦ on_schedule-IsDue next cron a active (ground arith)
]
