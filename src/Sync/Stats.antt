-- ===== src/Sync/Stats.antt =====
-- calculateSyncStats of internal/controller/sync_controller.go and CalculateProgress of
-- pkg/utils/sync.go.
pub mod Ends
use juicefs_operator.Base.{
  ℕ, ◌+◌, ◌*◌, String, Bool, true, false, not, ◌||◌, Option, none, some, List, str_eq, leb, ltb,
  ◌==◌, if◌then◌else◌, is_some, from_option, lookup, ◌-◌,
}
use juicefs_operator.Base.Int.{ℤ, pos, negsuc, pos_part, neg_part, ltb_ℤ}
use juicefs_operator.Kube.{PodPhase}
use juicefs_operator.Sync.{Phase, no_manager_log, unparsed_log, Counters, Status}

-- a - b, as an integer.
abbrev pub sub_ℕ : ℕ → ℕ → ℤ
sub_ℕ a b = if leb b a then pos (a - b) else negsuc (b - a - 1)

unfoldable pub ◌-ℤ◌ : ℤ → ℤ → ℤ
◌-ℤ◌ a b = sub_ℕ (pos_part a + neg_part b) (neg_part a + pos_part b)

abbrev pub is_zero : ℤ → Bool
is_zero (pos n) = n == 0
is_zero (negsuc _) = false

abbrev pub is_positive : ℤ → Bool
is_positive z = ltb_ℤ (pos 0) z

-- `percent a b` is the text of the truncated quotient, computed in floating point.
unfoldable pub calculate_progress : (ℤ → ℤ → String) → ℤ → ℤ → String
calculate_progress percent a b =
    if is_zero b then "0.00%" else if ltb_ℤ b a then "99.99%" else percent a b

abbrev pub zero_counters : Counters
zero_counters = record {
  handled = pos 0;
  copied = pos 0;
  copied_bytes = pos 0;
  failed = pos 0;
  skipped = pos 0;
  skipped_bytes = pos 0;
  checked = pos 0;
  checked_bytes = pos 0;
  lost = pos 0;
  deleted = pos 0;
  excluded = pos 0;
  exclude_bytes = pos 0;
  extra = pos 0;
  extra_bytes = pos 0;
  scanned = pos 0;
  pending = pos 0;
  last_updated = none;
}

-- A value of a map, 0 for a missing key.
abbrev count_at : String → List (String × ℤ) → ℤ
count_at key m = from_option (pos 0) (lookup key m)

-- The counters of the log's summary line.
unfoldable pub log_counters : List (String × ℤ) → Counters
log_counters m = record zero_counters {
  handled = count_at "found" m;
  copied = count_at "copied" m;
  copied_bytes = count_at "copied_bytes" m;
  failed = count_at "failed" m;
  skipped = count_at "skipped" m;
  skipped_bytes = count_at "skipped_bytes" m;
  checked = count_at "checked" m;
  checked_bytes = count_at "checked_bytes" m;
  lost = count_at "lost" m;
  deleted = count_at "deleted" m;
  excluded = count_at "excluded" m;
  exclude_bytes = count_at "exclude_bytes" m;
  extra = count_at "extra" m;
  extra_bytes = count_at "extra_bytes" m;
}

-- The counters of the metrics of a running manager.
unfoldable pub metric_counters : ℕ → List (String × ℤ) → Counters
metric_counters now m = record zero_counters {
  handled = count_at "juicefs_sync_handled" m;
  copied = count_at "juicefs_sync_copied" m;
  failed = count_at "juicefs_sync_failed" m;
  skipped = count_at "juicefs_sync_skipped" m;
  checked = count_at "juicefs_sync_checked" m;
  copied_bytes = count_at "juicefs_sync_copied_bytes" m;
  scanned = count_at "juicefs_sync_scanned" m;
  pending = count_at "juicefs_sync_pending" m;
  deleted = count_at "juicefs_sync_deleted" m;
  extra = count_at "juicefs_sync_extra" m;
  excluded = count_at "juicefs_sync_excluded" m;
  checked_bytes = count_at "juicefs_sync_checked_bytes" m;
  skipped_bytes = count_at "juicefs_sync_skipped_bytes" m;
  extra_bytes = count_at "juicefs_sync_extra_bytes" m;
  exclude_bytes = count_at "juicefs_sync_exclude_bytes" m;
  last_updated = some now;
}

-- What the manager pod and its process answer. `log` is `none` when the log cannot be read;
-- `parsed` is what ParseLog makes of a text; `metrics` is `none` when they cannot be fetched.
pub record ManagerAnswers : Type 0 where
  pub phase : PodPhase
  pub ready : Bool
  pub now : ℕ
  pub log : Option String
  pub parsed : String → Option (List (String × ℤ))
  pub metrics : Option (List (String × ℤ))

-- The second component tells whether an error is returned.
module _ (percent : ℤ → ℤ → String) where
  with_log_counters : Status → Option (List (String × ℤ)) → Status
  with_log_counters status none = record status { reason = unparsed_log }
  with_log_counters status (some m) =
      let stats = log_counters m in
      record status {
        phase =
            if is_positive stats.lost || is_positive stats.failed
            then Phase.failed
            else status.phase;
        progress =
            calculate_progress percent (◌-ℤ◌ (◌-ℤ◌ stats.handled stats.failed) stats.lost)
              stats.handled;
        stats = record stats { pending = pos 0 };
      }

  with_log : Status → ManagerAnswers → Option String → Status × Bool
  unfolding with_log_counters
  with_log ended a none = (record ended { reason = no_manager_log }, true)
  with_log ended a (some log) =
      let finish_log = if str_eq log "" then ended.finish_log else log in
      (with_log_counters (record ended { finish_log = finish_log }) (a.parsed finish_log), false)

  finished_stats : Status → ManagerAnswers → Phase → Status × Bool
  unfolding with_log
  finished_stats status a phase =
      with_log (record status { phase = phase; completed_at = some a.now }) a a.log

  abbrev updated_recently : ℕ → Option ℕ → Bool
  updated_recently now none = false
  updated_recently now (some t) = ltb now (t + 3 * 1000000000)

  running_stats : Status → ManagerAnswers → Status
  running_stats status a =
      if updated_recently a.now status.stats.last_updated
      then status
      else if not a.ready
      then status
      else elim a.metrics [
        | none ↦ status
        | some m ↦
            if not (is_some (lookup "juicefs_sync_scanned" m))
            then status
            else let stats = metric_counters a.now m in
              record status {
                progress = calculate_progress percent stats.handled stats.scanned;
                stats = stats;
              }
      ]

  stats_for : Status → ManagerAnswers → PodPhase → Status × Bool
  unfolding finished_stats running_stats
  stats_for status a PodPhase.succeeded = finished_stats status a Phase.completed
  stats_for status a PodPhase.failed = finished_stats status a Phase.failed
  stats_for status a _ = (running_stats status a, false)

  unfoldable pub calculate_sync_stats : Status → ManagerAnswers → Status × Bool
  unfolding stats_for
  calculate_sync_stats status a = stats_for status a a.phase
