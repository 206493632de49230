-- ===== src/Sync/Reconcile/Phases.antt =====
-- The phases that one call of SyncReconciler.Reconcile can lead to.
use juicefs_operator.Base.{
  Bool, true, false, ◌≡◌, refl, List, arith, String, sym, inl, subst, inr, ap, ◌⊎◌, ◌∙◌, [], some,
  ◌++◌, if_ind, is_some, Option, none, ◌∷◌,
}
use juicefs_operator.Base.Int.{ℤ}
use juicefs_operator.Sync.{Phase, Status, Sync, ApiError, Reason}
use juicefs_operator.Sync.Pods.{Call, delete_workers, update_status, Run}
use juicefs_operator.Sync.Stats.Ends.{may_follow, calculate_sync_stats-may_follow}
use juicefs_operator.Sync.Stats.{calculate_sync_stats}
use juicefs_operator.Sync.Checks.{rejects}
use juicefs_operator.Sync.Reconcile.{
  judged, prepared, accepted, started, Outcome, Answers, after_completion, on_ended, on_progressing,
  with_stats, fail_with, ManagerGet, run_phase, no_manager, manager_error, ManagerAnswers, manager,
  on_preparing, start_progress, by_phase, enter_preparing, reconcile, after_preparing,
  timed_out_preparing,
}
use juicefs_operator.Sync.Reconcile.Life.{
  Moves, accept_new, accept_pending, start, time_out, Leads, stay, go, Leads-may_follow,
}

-- The phases of a sync that is no longer prepared.
abbrev pub past_preparing : Phase → Bool
past_preparing Phase.progressing = true
past_preparing Phase.completed = true
past_preparing Phase.failed = true
past_preparing _ = false

ManagerGet-cases :
    (g : ManagerGet)
    → (g ≡ no_manager)
      ⊎ (((e : ApiError) × (g ≡ manager_error e)) ⊎ ((m : ManagerAnswers) × (g ≡ manager m)))
ManagerGet-cases no_manager = inl refl
ManagerGet-cases (manager_error e) = inr (inl (e, refl))
ManagerGet-cases (manager m) = inr (inr (m, refl))

abbrev is_fresh : Phase → Bool
is_fresh Phase.unset = true
is_fresh Phase.pending = true
is_fresh _ = false

abbrev is_progressing : Phase → Bool
is_progressing Phase.progressing = true
is_progressing _ = false

kept-Leads :
    {next status : Status} {p : Phase} → next ≡ status → status.phase ≡ p → Leads p next.phase
kept-Leads {next} {status} {p} e h = subst (Leads p) (sym (ap (λ (x : Status). x.phase) e ∙ h)) stay

module _ (unchanged : Status → Status → Bool) (percent : ℤ → ℤ → String) where
  with_stats-may_follow :
      (a : Answers) (status : Status) (calls : List Call) (next : Status × Bool)
      → may_follow status.phase ≡ true
      → may_follow next.0.phase ≡ true
      → may_follow (with_stats unchanged percent a status calls next).status.phase ≡ true
  unfolding with_stats
  with_stats-may_follow a status calls next h hn = ground arith

  on_progressing-may_follow :
      (a : Answers) (status : Status) (calls : List Call)
      → may_follow status.phase ≡ true
      → may_follow (on_progressing unchanged percent a status calls).status.phase ≡ true
  unfolding on_progressing fail_with
  on_progressing-may_follow a status calls h = elim (ManagerGet-cases a.manager) [
    | inl e ↦ ground (arith, e)
    | inr (inl (e, q)) ↦ ground (arith, q)
    | inr (inr (m, q)) ↦ ground (
      arith,
      q,
      with_stats-may_follow a status (calls ++ (delete_workers false a.delete_workers_error).0)
          (calculate_sync_stats percent status m) h
          (calculate_sync_stats-may_follow percent status m h),
    )
  ]

  after_completion-phase :
      (s : Sync) (a : Answers) (status : Status) (calls : List Call)
      → (after_completion s a status calls).status ≡ status
  unfolding after_completion
  after_completion-phase s a status calls = ground arith

  on_ended-phase :
      (s : Sync) (a : Answers) (status : Status) (calls : List Call) (completed : Bool)
      → (on_ended unchanged percent s a status calls completed).status ≡ status
  unfolding on_ended
  on_ended-phase s a status calls completed = ground (arith, after_completion-phase s a status)

  run_phase-kept :
      (s : Sync) (a : Answers) (status : Status) (calls : List Call)
      → is_progressing status.phase ≡ false
      → (run_phase unchanged percent s a status calls).status ≡ status
  unfolding run_phase
  run_phase-kept s a status calls h =
      ground (arith, on_ended-phase s a status calls true, on_ended-phase s a status calls false)

  run_phase-progressing :
      (s : Sync) (a : Answers) (status : Status) (calls : List Call)
      → status.phase ≡ Phase.progressing
      → may_follow (run_phase unchanged percent s a status calls).status.phase ≡ true
  unfolding run_phase
  run_phase-progressing s a status calls h =
      ground (arith, on_progressing-may_follow a status calls (rw h refl))

  run_phase-Leads :
      (s : Sync) (a : Answers) (status : Status) (calls : List Call) (p : Phase)
      → status.phase ≡ p
      → Leads p (run_phase unchanged percent s a status calls).status.phase
  run_phase-Leads s a status calls Phase.progressing e =
      Leads-may_follow (run_phase unchanged percent s a status calls).status.phase
        (run_phase-progressing s a status calls e)
  run_phase-Leads s a status calls Phase.completed e =
      kept-Leads (run_phase-kept s a status calls (rw e refl)) e
  run_phase-Leads s a status calls Phase.failed e =
      kept-Leads (run_phase-kept s a status calls (rw e refl)) e
  run_phase-Leads s a status calls Phase.unset e =
      kept-Leads (run_phase-kept s a status calls (rw e refl)) e
  run_phase-Leads s a status calls Phase.pending e =
      kept-Leads (run_phase-kept s a status calls (rw e refl)) e
  run_phase-Leads s a status calls Phase.preparing e =
      kept-Leads (run_phase-kept s a status calls (rw e refl)) e

  start_progress-Leads :
      (s : Sync) (a : Answers) (status : Status) (calls : List Call)
      → Leads Phase.progressing (start_progress unchanged percent s a status calls).status.phase
  unfolding start_progress
  start_progress-Leads s a status calls =
      if_ind (λ (o : Outcome). Leads Phase.progressing o.status.phase)
        (is_some a.progressing_update) (λ _. stay)
        (λ _.
          run_phase-Leads s a (started a status) (calls ++ update_status (started a status) ∷ [])
            Phase.progressing refl)

  after_preparing-Leads :
      (s : Sync) (a : Answers) (status : Status) (calls : List Call) (run : Run)
      → status.phase ≡ Phase.preparing
      → Leads Phase.preparing (after_preparing unchanged percent s a status calls run).status.phase
  unfolding after_preparing
  after_preparing-Leads s a status calls (made, some f) e =
      kept-Leads {next = status} {status = status} refl e
  after_preparing-Leads s a status calls (made, none) e =
      go start (start_progress-Leads s a status (calls ++ made))

  on_preparing-Leads :
      (s : Sync) (a : Answers) (status : Status) (calls : List Call)
      → status.phase ≡ Phase.preparing
      → Leads Phase.preparing (on_preparing unchanged percent s a status calls).status.phase
  unfolding on_preparing fail_with
  on_preparing-Leads s a status calls e =
      if_ind (λ (o : Outcome). Leads Phase.preparing o.status.phase)
        (timed_out_preparing s.spec a status) (λ _. go time_out stay)
        (λ _. after_preparing-Leads s a status calls (prepared s a) e)

  enter_preparing-Leads :
      (s : Sync) (a : Answers)
      → Leads Phase.preparing (enter_preparing unchanged percent s a).status.phase
  unfolding enter_preparing
  enter_preparing-Leads s a =
      if_ind (λ (o : Outcome). Leads Phase.preparing o.status.phase) (is_some a.preparing_update)
        (λ _. stay)
        (λ _. on_preparing-Leads s a (accepted s a) (update_status (accepted s a) ∷ []) refl)

  by_phase-past :
      (s : Sync) (a : Answers)
      → past_preparing s.status.phase ≡ true
      → by_phase unchanged percent s a ≡ run_phase unchanged percent s a s.status []
  unfolding by_phase
  by_phase-past s a h = ground arith

  by_phase-preparing :
      (s : Sync) (a : Answers)
      → s.status.phase ≡ Phase.preparing
      → by_phase unchanged percent s a ≡ on_preparing unchanged percent s a s.status []
  unfolding by_phase
  by_phase-preparing s a h = ground arith

  by_phase-fresh :
      (s : Sync) (a : Answers)
      → is_fresh s.status.phase ≡ true
      → by_phase unchanged percent s a ≡ enter_preparing unchanged percent s a
  unfolding by_phase
  by_phase-fresh s a h = ground arith

  by_phase-Leads-past :
      (s : Sync) (a : Answers) (p : Phase)
      → past_preparing p ≡ true
      → s.status.phase ≡ p
      → Leads p (by_phase unchanged percent s a).status.phase
  by_phase-Leads-past s a p h e =
      subst (λ (o : Outcome). Leads p o.status.phase) (sym (by_phase-past s a (rw e h)))
        (run_phase-Leads s a s.status [] p e)

  by_phase-Leads-fresh :
      (s : Sync) (a : Answers) (p : Phase)
      → is_fresh p ≡ true
      → Moves p Phase.preparing
      → s.status.phase ≡ p
      → Leads p (by_phase unchanged percent s a).status.phase
  by_phase-Leads-fresh s a p h m e =
      subst (λ (o : Outcome). Leads p o.status.phase) (sym (by_phase-fresh s a (rw e h)))
        (go m (enter_preparing-Leads s a))

  by_phase-Leads :
      (s : Sync) (a : Answers) (p : Phase)
      → s.status.phase ≡ p
      → Leads p (by_phase unchanged percent s a).status.phase
  by_phase-Leads s a Phase.unset e = by_phase-Leads-fresh s a Phase.unset refl accept_new e
  by_phase-Leads s a Phase.pending e = by_phase-Leads-fresh s a Phase.pending refl accept_pending e
  by_phase-Leads s a Phase.preparing e =
      subst (λ (o : Outcome). Leads Phase.preparing o.status.phase) (sym (by_phase-preparing s a e))
        (on_preparing-Leads s a s.status [] e)
  by_phase-Leads s a Phase.progressing e = by_phase-Leads-past s a Phase.progressing refl e
  by_phase-Leads s a Phase.completed e = by_phase-Leads-past s a Phase.completed refl e
  by_phase-Leads s a Phase.failed e = by_phase-Leads-past s a Phase.failed refl e

  judged-Leads :
      (s : Sync) (a : Answers) (r : Option Reason)
      → Leads s.status.phase (judged unchanged percent s a r).status.phase
        ⊎ (is_some r ≡ true × (judged unchanged percent s a r).status.phase ≡ Phase.failed)
  unfolding judged fail_with
  judged-Leads s a none = inl (by_phase-Leads s a s.status.phase refl)
  judged-Leads s a (some r) = inr (refl, refl)

  -- One call of the handler for a sync takes the phase along transitions of the life cycle, several
  -- or none of them, unless the checks reject the specification: then the phase is failed.
  pub reconcile-Leads :
      (s : Sync) (a : Answers)
      → Leads s.status.phase (reconcile unchanged percent s a).status.phase
        ⊎ (is_some (rejects s.spec a.from a.to) ≡ true
            × (reconcile unchanged percent s a).status.phase ≡ Phase.failed)
  unfolding reconcile
  reconcile-Leads s a =
      if_ind
        (λ (o : Outcome).
          Leads s.status.phase o.status.phase
          ⊎ (is_some (rejects s.spec a.from a.to) ≡ true × o.status.phase ≡ Phase.failed))
        s.deleting (λ _. inl stay) (λ _. judged-Leads s a (rejects s.spec a.from a.to))
