-- ===== src/Sync.antt =====
-- The Sync resource (api/v1/sync_types.go) as its controller reads and writes it. Instants are
-- numbers of nanoseconds since Go's zero time.
pub mod Checks
pub mod Pods
pub mod Stats
pub mod Reconcile
pub mod Sinks
pub mod Logs
pub mod Command
pub mod Affinity
pub mod Template
use juicefs_operator.Base.{ℕ, String, Bool, Option, none, some, List, [], ◌∷◌, ltb, true, false}
use juicefs_operator.Base.Int.{ℤ}
use juicefs_operator.Base.Text.{Text}
use juicefs_operator.Kube.{ApiError}

-- SyncPhase; `unset` is the empty string of a new object.
pub data Phase : Type 0 where
  unset pending preparing progressing failed completed : Phase

-- The status reasons that the controller writes.
pub data Reason : Type 0 where
  no_reason ce_to_ee bad_from bad_to old_ee_for_files old_ce_for_files hdfs_to_hdfs
        trailing_separator manager_not_found no_manager_log unparsed_log :
      Reason
  preparing_timeout : ℕ → Reason

pub record Counters : Type 0 where
  pub handled : ℤ
  pub copied : ℤ
  pub copied_bytes : ℤ
  pub failed : ℤ
  pub skipped : ℤ
  pub skipped_bytes : ℤ
  pub checked : ℤ
  pub checked_bytes : ℤ
  pub lost : ℤ
  pub deleted : ℤ
  pub excluded : ℤ
  pub exclude_bytes : ℤ
  pub extra : ℤ
  pub extra_bytes : ℤ
  pub scanned : ℤ
  pub pending : ℤ
  pub last_updated : Option ℕ

pub record Status : Type 0 where
  pub phase : Phase
  pub reason : Reason
  pub progress : String
  pub stats : Counters
  pub finish_log : String
  pub preparing_at : Option ℕ
  pub start_at : Option ℕ
  pub completed_at : Option ℕ

-- Which of the three kinds of endpoint a sink names; the source allows several at once.
pub record SinkKinds : Type 0 where
  pub external : Bool
  pub juicefs : Bool
  pub juicefs_ce : Bool

-- What ParseSyncSink returns, as far as the controller reads it.
pub record ParsedSink : Type 0 where
  pub uri : Text
  pub files_from : Bool

pub record Spec : Type 0 where
  pub from_kinds : SinkKinds
  pub to_kinds : SinkKinds
  pub image : Text
  pub replicas : Option ℕ
  pub preparing_timeout_seconds : Option ℕ
  pub ttl_seconds_after_finished : Option ℕ

pub record Sync : Type 0 where
  pub deleting : Bool
  pub spec : Spec
  pub status : Status

abbrev pub more_than_one : Option ℕ → Bool
more_than_one none = false
more_than_one (some n) = ltb 1 n

-- pkg/utils/sync.go
unfoldable pub is_distributed : Sync → Bool
is_distributed s = more_than_one s.spec.replicas
