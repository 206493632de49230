-- ===== src/CacheGroup.antt =====
-- The data of a cache group (api/v1/cachegroup_types.go) as its controllers read it, and the
-- constants of pkg/common/common.go. Instants and durations are numbers of nanoseconds, instants
-- counted from Go's zero time; durations and byte counters are taken to be non-negative.
pub mod Calls
pub mod Join
pub mod Update
pub mod Sampling
pub mod Collecting
pub mod Retire
pub mod GroupStatus
pub mod Reconcile
pub mod Expected
pub mod Volumes
use juicefs_operator.Base.{ℕ, ◌*◌, String, Bool, Option, List, from_option}
use juicefs_operator.Base.Text.{Text}

abbrev pub second : ℕ
second = 1000000000

abbrev pub minute : ℕ
minute = 60 * second

abbrev pub hour : ℕ
hour = 60 * minute

abbrev pub default_rebalance_delay : ℕ
default_rebalance_delay = 10 * minute

abbrev pub rebalance_delay_margin : ℕ
rebalance_delay_margin = minute

abbrev pub worker_stats_max_age : ℕ
worker_stats_max_age = 2 * minute

abbrev pub min_leave_worker_duration : ℕ
min_leave_worker_duration = minute

abbrev pub rebalance_idle_rate : ℕ
rebalance_idle_rate = 1048576

abbrev pub default_backup_worker_duration : ℕ
default_backup_worker_duration = hour

abbrev pub default_waiting_max_duration : ℕ
default_waiting_max_duration = hour

pub data UpdateStrategyType : Type 0 where
  rolling_update on_delete : UpdateStrategyType

-- appsv1.DaemonSetUpdateStrategy; `other` is any type name but the two.
pub data StrategyName : Type 0 where
  rolling_update_name on_delete_name other_name : StrategyName

-- intstr.IntOrString.
pub data IntOrString : Type 0 where
  int : ℕ → IntOrString
  str : String → IntOrString

pub record UpdateStrategy : Type 0 where
  pub type : StrategyName
  pub max_unavailable : Option IntOrString

pub record WorkerStats : Type 0 where
  pub name : String
  pub cache_bytes : Option ℕ
  pub capacity_bytes : Option ℕ
  pub transfer_bytes : Option ℕ
  pub receive_bytes : Option ℕ
  pub transfer_rate : Option ℕ
  pub receive_rate : Option ℕ
  pub start_time : Option ℕ
  pub last_sample_time : Option ℕ

pub record Rebalance : Type 0 where
  pub members : List String
  pub start_at : ℕ

pub data Phase : Type 0 where
  waiting progressing ready : Phase

-- `ready_str` is "-" or "ready/expect".
pub record Status : Type 0 where
  pub phase : Phase
  pub rebalance : Option Rebalance
  pub stats : List WorkerStats
  pub cache_size : String
  pub file_system : String
  pub ready_worker : ℕ
  pub backup_worker : ℕ
  pub waiting_deleted_worker : ℕ
  pub expect_worker : ℕ
  pub ready_str : Option (ℕ × ℕ)
  pub cache_group : String

-- The fields of CacheGroupWorkerTemplate that the lifecycle reads.
pub record Template : Type 0 where
  pub image : Text
  pub opts : List String

pub record Spec : Type 0 where
  pub cache_group : String
  pub replicas : Option ℕ
  pub enable_scheduling : Bool
  pub update_strategy : Option UpdateStrategy
  pub backup_duration : Option ℕ
  pub waiting_deleted_max_duration : Option ℕ
  pub clean_cache : Bool

pub record CacheGroup : Type 0 where
  pub name : String
  pub namespace : String
  pub spec : Spec
  pub status : Status

-- pkg/utils/utils.go
unfoldable pub get_waiting_deleted_max_duration : Option ℕ → ℕ
get_waiting_deleted_max_duration d = from_option default_waiting_max_duration d

unfoldable pub get_backup_worker_duration : Option ℕ → ℕ
get_backup_worker_duration d = from_option default_backup_worker_duration d
