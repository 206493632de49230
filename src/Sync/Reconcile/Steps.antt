-- ===== src/Sync/Reconcile/Steps.antt =====
-- What a sync that is being prepared needs before it starts.
use mathlib.Core.Bool.{true≢false}
use juicefs_operator.Base.{
  Bool, true, false, ◌≡◌, ◌∷◌, refl, arith, List, Option, none, some, is_some, String, if_ind, [],
  sym,
}
use juicefs_operator.Base.Int.{ℤ}
use juicefs_operator.Sync.{Phase, Status, Sync, Reason}
use juicefs_operator.Sync.Pods.{Call, Run, update_status}
use juicefs_operator.Sync.Checks.{rejects}
use juicefs_operator.Sync.Reconcile.{
  Answers, Outcome, prepared, accepted, judged, reconcile, fail_with, after_preparing, on_preparing,
  enter_preparing, by_phase, timed_out_preparing,
}

-- A sync whose pods are being set up, or have not been asked for yet.
abbrev pub is_before_start : Phase → Bool
is_before_start Phase.unset = true
is_before_start Phase.pending = true
is_before_start Phase.preparing = true
is_before_start _ = false

-- A sync that runs or has ended well.
abbrev pub has_started : Phase → Bool
has_started Phase.progressing = true
has_started Phase.completed = true
has_started _ = false

module _ (unchanged : Status → Status → Bool) (percent : ℤ → ℤ → String) where
  after_preparing-fails :
      (s : Sync) (a : Answers) (status : Status) (calls : List Call) (run : Run)
      → is_some run.1 ≡ true
      → has_started status.phase ≡ false
      → has_started (after_preparing unchanged percent s a status calls run).status.phase ≡ false
  unfolding after_preparing
  after_preparing-fails s a status calls (made, some f) h k = k
  after_preparing-fails s a status calls (made, none) h k = absurd (true≢false (sym h))

  on_preparing-fails :
      (s : Sync) (a : Answers) (status : Status) (calls : List Call)
      → is_some (prepared s a).1 ≡ true
      → has_started status.phase ≡ false
      → has_started (on_preparing unchanged percent s a status calls).status.phase ≡ false
  unfolding on_preparing fail_with
  on_preparing-fails s a status calls h k =
      if_ind (λ (o : Outcome). has_started o.status.phase ≡ false)
        (timed_out_preparing s.spec a status) (λ _. refl)
        (λ _. after_preparing-fails s a status calls (prepared s a) h k)

  by_phase-fails :
      (s : Sync) (a : Answers)
      → is_some (prepared s a).1 ≡ true
      → is_before_start s.status.phase ≡ true
      → has_started (by_phase unchanged percent s a).status.phase ≡ false
  unfolding by_phase enter_preparing
  by_phase-fails s a h k = ground (
    arith,
    on_preparing-fails s a s.status [] h,
    on_preparing-fails s a (accepted s a) (update_status (accepted s a) ∷ []) h refl,
  )

  judged-fails :
      (s : Sync) (a : Answers) (r : Option Reason)
      → is_some (prepared s a).1 ≡ true
      → is_before_start s.status.phase ≡ true
      → has_started (judged unchanged percent s a r).status.phase ≡ false
  unfolding judged fail_with
  judged-fails s a none h k = by_phase-fails s a h k
  judged-fails s a (some r) h k = refl

  -- A sync that has not started yet neither runs nor completes after a call of the handler in which
  -- the secrets, the worker pods or the manager pod could not be prepared.
  pub reconcile-unprepared :
      (s : Sync) (a : Answers)
      → is_some (prepared s a).1 ≡ true
      → is_before_start s.status.phase ≡ true
      → has_started (reconcile unchanged percent s a).status.phase ≡ false
  unfolding reconcile
  reconcile-unprepared s a h k =
      if_ind (λ (o : Outcome). has_started o.status.phase ≡ false) s.deleting (λ _. ground arith)
        (λ _. judged-fails s a (rejects s.spec a.from a.to) h k)
