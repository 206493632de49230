-- ===== src/CacheGroup/Join/Laws.antt =====
-- When a worker starts and leaves the join phase (pkg/utils/worker.go).
use juicefs_operator.Base.{
  ℕ, ◌+◌, ◌<◌, ◌≤◌, ◌≡◌, refl, Bool, true, Option, some, arith, String, List, ◌∷◌, false,
  if◌then◌else◌, Option-cases, str_eq, inl, inr, [], none, ◌⊎◌,
}
use juicefs_operator.Kube.{Pod, pod_ready}
use juicefs_operator.CacheGroup.{
  worker_stats_max_age, rebalance_idle_rate, WorkerStats, CacheGroup, Template,
  get_backup_worker_duration,
}
use juicefs_operator.CacheGroup.Join.{
  counter_bytes, counter_rate, idle_counters, worker_counter_idle, should_add_join_option,
  has_manual_option,
}

-- What a sample must show for a worker's byte counter to be idle.
pub record IsIdle (now : ℕ) (worker : Pod) (stats : WorkerStats) (is_join : Bool)
    (since min_idle : ℕ) : Type 0 where
  pub ready : pod_ready worker ≡ true
  pub bytes : ℕ
  pub rate : ℕ
  pub sample_at : ℕ
  pub start : ℕ
  pub has_bytes : counter_bytes is_join stats ≡ some bytes
  pub has_rate : counter_rate is_join stats ≡ some rate
  pub sampled : stats.last_sample_time ≡ some sample_at
  pub started : stats.start_time ≡ some start
  pub fresh : now ≤ sample_at + worker_stats_max_age
  pub sampled_after : since ≤ sample_at
  pub slow : rate < rebalance_idle_rate
  pub ran : (1 ≤ bytes) ⊎ (start + min_idle ≤ sample_at)

idle_counters_sound :
    (now since min_idle : ℕ) (worker : Pod) (stats : WorkerStats) (is_join : Bool)
    (b r t s : Option ℕ)
    → counter_bytes is_join stats ≡ b
    → counter_rate is_join stats ≡ r
    → stats.last_sample_time ≡ t
    → stats.start_time ≡ s
    → pod_ready worker ≡ true
    → idle_counters now since min_idle b r t s ≡ true
    → IsIdle now worker stats is_join since min_idle
unfolding idle_counters
idle_counters_sound now since min_idle worker stats is_join (some b) (some r) (some t) (some s) hb
      hr ht hs ready h =
    record {
      ready = ready;
      bytes = b;
      rate = r;
      sample_at = t;
      start = s;
      has_bytes = hb;
      has_rate = hr;
      sampled = ht;
      started = hs;
      fresh = ground arith;
      sampled_after = ground arith;
      slow = ground arith;
      ran = ground arith;
    }
idle_counters_sound now since min_idle worker stats is_join _ _ _ _ hb hr ht hs ready h =
    absurd (ground arith)

-- A counter is reported idle only on a fresh, slow sample of a ready worker.
pub worker_counter_idle_sound :
    (now : ℕ) (worker : Pod) (stats : WorkerStats) (is_join : Bool) (since min_idle : ℕ)
    → worker_counter_idle now worker stats is_join since min_idle ≡ true
    → IsIdle now worker stats is_join since min_idle
unfolding worker_counter_idle
worker_counter_idle_sound now worker stats is_join since min_idle h =
    idle_counters_sound now since min_idle worker stats is_join _ _ _ _ refl refl refl refl
      (ground arith) (ground arith)

-- Until the join ends, no worker of the group has started after the instant that is returned.
abbrev pub StartedBy : ℕ → WorkerStats → Type 0
StartedBy latest s = elim s.start_time [ none ↦ Unit {0} | some t ↦ t ≤ latest ]

-- The last entry of a name.
abbrev pub last_of : String → List WorkerStats → Option WorkerStats
last_of name [] = none
last_of name (s ∷ rest) = elim (last_of name rest) [
  | some found ↦ some found
  | none ↦ if str_eq s.name name then some s else none
]

module _ (parse_duration : String → Option ℕ) (now : ℕ) (cg : CacheGroup) where
  -- A worker that exists keeps its join option only while it carries the join annotation and the
  -- join phase is younger than the configured duration, and never beside a manual option.
  pub should_add_join_option_bounded :
      (actual : Pod) (template : Template)
      → should_add_join_option parse_duration now cg (some actual) template ≡ true
      → (joined_at : ℕ) × (actual.annotations.backup_worker ≡ some joined_at)
        × (now < joined_at + get_backup_worker_duration cg.spec.backup_duration)
        × (has_manual_option template ≡ false)
  unfolding should_add_join_option
  should_add_join_option_bounded actual template h =
      elim (Option-cases actual.annotations.backup_worker) [
        | inl e ↦ absurd (ground arith)
        | inr (joined_at, e) ↦ (joined_at, e, ground arith, ground arith)
      ]
