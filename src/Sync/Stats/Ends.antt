-- ===== src/Sync/Stats/Ends.antt =====
-- How a progressing sync ends: the phases that calculateSyncStats can write.
use juicefs_operator.Base.{
  Bool, true, false, ◌≡◌, Option, none, some, List, arith, String, inl, inr, ◌⊎◌, refl,
  if◌then◌else◌, str_eq,
}
use juicefs_operator.Base.Int.{ℤ}
use juicefs_operator.Sync.{Phase, Status, no_manager_log, unparsed_log}
use juicefs_operator.Sync.Stats.{
  ManagerAnswers, calculate_sync_stats, finished_stats, running_stats, with_log_counters,
  is_positive, stats_for, with_log, PodPhase,
}

-- A phase that a progressing sync can have next.
abbrev pub may_follow : Phase → Bool
may_follow Phase.progressing = true
may_follow Phase.completed = true
may_follow Phase.failed = true
may_follow _ = false

module _ (percent : ℤ → ℤ → String) where
  with_log_counters-may_follow :
      (status : Status) (m : Option (List (String × ℤ)))
      → may_follow status.phase ≡ true
      → may_follow (with_log_counters percent status m).phase ≡ true
  unfolding with_log_counters
  with_log_counters-may_follow status none h = h
  with_log_counters-may_follow status (some m) h = ground arith

  with_log-may_follow :
      (ended : Status) (a : ManagerAnswers) (log : Option String)
      → may_follow ended.phase ≡ true
      → may_follow (with_log percent ended a log).0.phase ≡ true
  unfolding with_log
  with_log-may_follow ended a none h = h
  with_log-may_follow ended a (some log) h = with_log_counters-may_follow _ _ h

  running_stats-phase :
      (status : Status) (a : ManagerAnswers) → (running_stats percent status a).phase ≡ status.phase
  unfolding running_stats
  running_stats-phase status a = ground arith

  stats_for-may_follow :
      (status : Status) (a : ManagerAnswers) (p : PodPhase)
      → may_follow status.phase ≡ true
      → may_follow (stats_for percent status a p).0.phase ≡ true
  unfolding stats_for finished_stats
  stats_for-may_follow status a PodPhase.succeeded h = with_log-may_follow _ a a.log refl
  stats_for-may_follow status a PodPhase.failed h = with_log-may_follow _ a a.log refl
  stats_for-may_follow status a _ h = rw (running_stats-phase status a) h

  pub calculate_sync_stats-may_follow :
      (status : Status) (a : ManagerAnswers)
      → may_follow status.phase ≡ true
      → may_follow (calculate_sync_stats percent status a).0.phase ≡ true
  unfolding calculate_sync_stats
  calculate_sync_stats-may_follow status a h = stats_for-may_follow status a a.phase h

  -- Why a completed sync may not be known to be without losses.
  abbrev Unread : Status → Type 0
  Unread status = (status.reason ≡ no_manager_log) ⊎ (status.reason ≡ unparsed_log)

  abbrev Clean : Status → Type 0
  Clean status = (is_positive status.stats.lost ≡ false) × (is_positive status.stats.failed ≡ false)

  with_log_counters-Clean :
      (status : Status) (m : Option (List (String × ℤ)))
      → (with_log_counters percent status m).phase ≡ Phase.completed
      → Clean (with_log_counters percent status m) ⊎ Unread (with_log_counters percent status m)
  unfolding with_log_counters
  with_log_counters-Clean status none h = inr (inr refl)
  with_log_counters-Clean status (some m) h = inl (ground arith, ground arith)

  with_log-Clean :
      (ended : Status) (a : ManagerAnswers) (log : Option String)
      → (with_log percent ended a log).0.phase ≡ Phase.completed
      → Clean (with_log percent ended a log).0 ⊎ Unread (with_log percent ended a log).0
  unfolding with_log
  with_log-Clean ended a none h = inr (inl refl)
  with_log-Clean ended a (some log) h =
      let finish_log = if str_eq log "" then ended.finish_log else log in
      with_log_counters-Clean (record ended { finish_log = finish_log }) (a.parsed finish_log) h

  stats_for-Clean :
      (status : Status) (a : ManagerAnswers) (p : PodPhase)
      → status.phase ≡ Phase.progressing
      → (stats_for percent status a p).0.phase ≡ Phase.completed
      → Clean (stats_for percent status a p).0 ⊎ Unread (stats_for percent status a p).0
  unfolding stats_for finished_stats
  stats_for-Clean status a PodPhase.succeeded h k = with_log-Clean _ a a.log k
  stats_for-Clean status a PodPhase.failed h k = with_log-Clean _ a a.log k
  stats_for-Clean status a _ h k = absurd (ground (arith, running_stats-phase status a))

  -- A sync that completes has neither lost nor failed objects in its counters, unless the manager's
  -- log could not be read or not be parsed: then the reason says so.
  pub calculate_sync_stats-Clean :
      (status : Status) (a : ManagerAnswers)
      → status.phase ≡ Phase.progressing
      → (calculate_sync_stats percent status a).0.phase ≡ Phase.completed
      → ((is_positive (calculate_sync_stats percent status a).0.stats.lost ≡ false)
          × (is_positive (calculate_sync_stats percent status a).0.stats.failed ≡ false))
        ⊎ ((calculate_sync_stats percent status a).0.reason ≡ no_manager_log)
        ⊎ ((calculate_sync_stats percent status a).0.reason ≡ unparsed_log)
  unfolding calculate_sync_stats
  calculate_sync_stats-Clean status a h k = stats_for-Clean status a a.phase h k
