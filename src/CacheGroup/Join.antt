-- ===== src/CacheGroup/Join.antt =====
-- The join phase of a worker: CanAddWorker, ShouldAddJoinOption, WorkerCounterIdle and the rebalance
-- delays of pkg/utils/worker.go. `now` is the clock's reading; `parse_duration` is time.ParseDuration.
pub mod Laws
use Prim.Native.Nat.{Ordering}
use juicefs_operator.Base.{
  ℕ, ◌+◌, ◌*◌, String, Bool, true, false, not, ◌&&◌, ◌||◌, Option, none, some, List, [], ◌∷◌,
  str_eq, leb, ltb, ◌==◌, if◌then◌else◌, from_option, is_some, contains,
}
use juicefs_operator.Base.Text.{codes}
use juicefs_operator.Version.{compare_image_version, is_ee_image_at_least, at_least}
use juicefs_operator.Kube.{EnvVar, Container, Pod, pod_ready}
use juicefs_operator.CacheGroup.{
  second, default_rebalance_delay, rebalance_delay_margin, worker_stats_max_age,
  rebalance_idle_rate, WorkerStats, Rebalance, CacheGroup, Template, get_backup_worker_duration,
}

unfoldable pub is_worker_v2 : Pod → Bool
is_worker_v2 worker = str_eq worker.annotations.template "v2"

abbrev is_empty : List String → Bool
is_empty [] = true
is_empty (_ ∷ _) = false

unfoldable pub can_add_worker : ℕ → CacheGroup → Bool
can_add_worker now cg =
    if str_eq cg.status.cache_size "0B" then true else elim cg.status.rebalance [
      | none ↦ true
      | some batch ↦ is_empty batch.members || ltb (now + rebalance_delay_margin) batch.start_at
    ]

abbrev worker_container_name : String
worker_container_name = "juicefs-cg-worker"

module _ (parse_duration : String → Option ℕ) where
  env_delay : List EnvVar → Option ℕ
  env_delay [] = none
  env_delay (e ∷ es) =
      let rest = env_delay es in
      if str_eq e.name "JFS_CACHE_REBALANCE_DELAY"
      then elim (parse_duration e.value) [ some d ↦ some d | none ↦ rest ]
      else rest

  containers_delay : List Container → Option ℕ
  unfolding env_delay
  containers_delay [] = none
  containers_delay (c ∷ cs) =
      let rest = containers_delay cs in
      if str_eq c.name worker_container_name
      then elim (env_delay c.env) [ some d ↦ some d | none ↦ rest ]
      else rest

  unfoldable pub worker_rebalance_delay : Pod → ℕ
  unfolding containers_delay
  worker_rebalance_delay worker =
      from_option
        (if is_some worker.annotations.waiting_delete then 10 * second else default_rebalance_delay)
        (containers_delay worker.containers)

  smallest_delay : ℕ → List Pod → ℕ
  unfolding worker_rebalance_delay
  smallest_delay delay [] = delay
  smallest_delay delay (w ∷ ws) =
      let d = worker_rebalance_delay w in smallest_delay (if ltb d delay then d else delay) ws

  unfoldable pub cache_group_rebalance_delay : List Pod → ℕ
  unfolding smallest_delay
  cache_group_rebalance_delay [] = default_rebalance_delay
  cache_group_rebalance_delay (w ∷ ws) = smallest_delay (worker_rebalance_delay w) ws

abbrev pub counter_bytes : Bool → WorkerStats → Option ℕ
counter_bytes is_join s = if is_join then s.receive_bytes else s.transfer_bytes

abbrev pub counter_rate : Bool → WorkerStats → Option ℕ
counter_rate is_join s = if is_join then s.receive_rate else s.transfer_rate

idle_sample : ℕ → ℕ → ℕ → (bytes rate sample_at start : ℕ) → Bool
idle_sample now since min_idle bytes rate sample_at start =
    if ltb (sample_at + worker_stats_max_age) now || ltb sample_at since
    then false
    else if leb rebalance_idle_rate rate
    then false
    else if not (bytes == 0)
    then true
    else leb (start + min_idle) sample_at

idle_counters : ℕ → ℕ → ℕ → (bytes rate sample_at start : Option ℕ) → Bool
unfolding idle_sample
idle_counters now since min_idle (some b) (some r) (some t) (some s) =
    idle_sample now since min_idle b r t s
idle_counters now since min_idle _ _ _ _ = false

unfoldable pub worker_counter_idle :
    (now : ℕ) (worker : Pod) (stats : WorkerStats) (is_join : Bool) (since min_idle : ℕ) → Bool
unfolding idle_counters
worker_counter_idle now worker stats is_join since min_idle =
    pod_ready worker
    && idle_counters now since min_idle (counter_bytes is_join stats) (counter_rate is_join stats)
        stats.last_sample_time stats.start_time

abbrev pub no_stats : WorkerStats
no_stats = record {
  name = "";
  cache_bytes = none;
  capacity_bytes = none;
  transfer_bytes = none;
  receive_bytes = none;
  transfer_rate = none;
  receive_rate = none;
  start_time = none;
  last_sample_time = none;
}

abbrev later_of : ℕ → Option ℕ → ℕ
later_of t none = t
later_of t (some s) = if ltb t s then s else t

-- The loop over the stats: the worker's own, and the latest start of any worker.
scan_stats : String → List WorkerStats → WorkerStats → ℕ → WorkerStats × ℕ
scan_stats name [] own after = (own, after)
scan_stats name (s ∷ rest) own after =
    scan_stats name rest (if str_eq s.name name then s else own) (later_of after s.start_time)

abbrev pub has_manual_option : Template → Bool
has_manual_option t =
    contains t.opts "commission" || contains t.opts "group-backup" || contains t.opts "decommission"

module _ (parse_duration : String → Option ℕ) (now : ℕ) where
  unfoldable pub keeps_joining : CacheGroup → Pod → ℕ → Bool
  unfolding scan_stats worker_counter_idle
  keeps_joining cg actual joined_at =
      let (stats, latest) = scan_stats actual.name cg.status.stats no_stats joined_at in
      let check_after =
        latest + (worker_rebalance_delay parse_duration actual + rebalance_delay_margin) in
      not (worker_counter_idle now actual stats true check_after 0)

  join_actual : CacheGroup → Option Pod → Bool
  unfolding keeps_joining
  join_actual cg none =
      not (str_eq cg.status.cache_size "") && not (str_eq cg.status.cache_size "0B")
  join_actual cg (some actual) = elim actual.annotations.backup_worker [
    | none ↦ false
    | some joined_at ↦
        if leb (joined_at + get_backup_worker_duration cg.spec.backup_duration) now
        then false
        else keeps_joining cg actual joined_at
  ]

  unfoldable pub should_add_join_option : CacheGroup → Option Pod → Template → Bool
  unfolding join_actual get_backup_worker_duration
  should_add_join_option cg actual template =
      if not (at_least (compare_image_version template.image (codes "5.1.0")))
      then false
      else if leb (get_backup_worker_duration cg.spec.backup_duration) second
      then false
      else if has_manual_option template
      then false
      else join_actual cg actual
