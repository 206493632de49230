-- ===== src/CacheGroup/Sampling.antt =====
-- The samples of the workers' byte counters: internal/controller/cachegroup_stats_controller.go.
-- `per_second bytes interval` is int64(float64(bytes) / interval.Seconds()).
use juicefs_operator.Base.{
  ℕ, ◌+◌, ◌-◌, ◌*◌, ◌≡◌, refl, String, Bool, true, false, not, ◌&&◌, ◌||◌, Option, none, some, List,
  [], ◌∷◌, str_eq, leb, ltb, if◌then◌else◌, from_option, arith, ◌<◌, ◌≤◌,
}
use juicefs_operator.Kube.{Pod, pod_ready}
use juicefs_operator.CacheGroup.{second, worker_stats_max_age, WorkerStats}
use juicefs_operator.CacheGroup.Join.{no_stats}

abbrev pub worker_stats_min_interval : ℕ
worker_stats_min_interval = 30 * second

abbrev pub worker_start_time_tolerance : ℕ
worker_start_time_tolerance = 5 * second

unfoldable pub same_worker_process : Option ℕ → Option ℕ → Bool
same_worker_process (some a) (some b) =
    leb b (a + worker_start_time_tolerance) && leb a (b + worker_start_time_tolerance)
same_worker_process _ _ = false

module _ (per_second : ℕ → ℕ → ℕ) where
  rate : ℕ → Option ℕ → Option ℕ → Option ℕ
  rate interval (some before) (some bytes) =
      if ltb bytes before then none else some (per_second (bytes - before) interval)
  rate interval _ _ = none

  with_rates : ℕ → WorkerStats → WorkerStats → WorkerStats
  unfolding rate
  with_rates interval previous sample = record sample {
    transfer_rate = rate interval previous.transfer_bytes sample.transfer_bytes;
    receive_rate = rate interval previous.receive_bytes sample.receive_bytes;
  }

  -- `now` is after `last` in a positive interval exactly when `last < now`.
  sampled_since : ℕ → Option ℕ → WorkerStats → WorkerStats → WorkerStats
  unfolding with_rates
  sampled_since now none previous sample = sample
  sampled_since now (some last) previous sample =
      if not (same_worker_process previous.start_time sample.start_time)
      then sample
      else if leb now last || ltb (last + worker_stats_max_age) now
      then sample
      else with_rates (now - last) previous sample

  unfoldable pub next_worker_stats : WorkerStats → WorkerStats → ℕ → WorkerStats
  unfolding sampled_since same_worker_process
  next_worker_stats previous sample now =
      sampled_since now previous.last_sample_time previous
        (record sample { last_sample_time = some now })

  -- `previousStats[name]`.
  find_stats : String → List WorkerStats → Option WorkerStats
  find_stats name [] = none
  find_stats name (s ∷ stats) = elim (find_stats name stats) [
    | some t ↦ some t
    | none ↦ if str_eq s.name name then some s else none
  ]

  sampled_recently : ℕ → Option WorkerStats → Bool
  sampled_recently now none = false
  sampled_recently now (some s) = elim s.last_sample_time [
    | none ↦ false
    | some t ↦ ltb now (t + worker_stats_min_interval)
  ]

  -- One worker of the parallel loop: `sample` is what GetWorkerStats answers, `none` for an error.
  unfoldable pub collect_worker :
      ℕ → List WorkerStats → Pod → Option WorkerStats → Option WorkerStats
  unfolding find_stats sampled_recently next_worker_stats
  collect_worker now previous_stats worker sample =
      let previous = find_stats worker.name previous_stats in
      if worker.deleting
      then none
      else if not (sampled_recently now previous) && pod_ready worker
      then elim sample [
        | none ↦ previous
        | some s ↦ some (next_worker_stats (from_option no_stats previous) s now)
      ]
      else previous

  -- A rate is derived only from two samples of one process, at most the maximal age apart, of a
  -- counter that did not fall.
  pub record IsRated (previous sample : WorkerStats) (now r : ℕ) : Type 0 where
    pub last : ℕ
    pub before : ℕ
    pub bytes : ℕ
    pub sampled : previous.last_sample_time ≡ some last
    pub same_process : same_worker_process previous.start_time sample.start_time ≡ true
    pub was : previous.receive_bytes ≡ some before
    pub is : sample.receive_bytes ≡ some bytes
    pub later : last < now
    pub near : now ≤ last + worker_stats_max_age
    pub grown : before ≤ bytes
    pub averaged : r ≡ per_second (bytes - before) (now - last)

  sampled_since-IsRated :
      (previous sample : WorkerStats) (now : ℕ) (l b c : Option ℕ) {r : ℕ}
      → previous.last_sample_time ≡ l
      → previous.receive_bytes ≡ b
      → sample.receive_bytes ≡ c
      → sample.receive_rate ≡ none
      → (next_worker_stats previous sample now).receive_rate ≡ some r
      → IsRated previous sample now r
  unfolding next_worker_stats
  sampled_since-IsRated previous sample now (some last) (some before) (some bytes) hl hb hc fresh
        h =
      record {
        last = last;
        before = before;
        bytes = bytes;
        sampled = hl;
        same_process = ground arith;
        was = hb;
        is = hc;
        later = ground arith;
        near = ground arith;
        grown = ground arith;
        averaged = ground arith;
      }
  sampled_since-IsRated previous sample now _ _ _ hl hb hc fresh h = absurd (ground arith)

  -- The receive rate of a new sample, which itself carries no rate, is the average over the
  -- interval since the previous sample of the same process.
  pub next_worker_stats-IsRated :
      (previous sample : WorkerStats) (now r : ℕ)
      → sample.receive_rate ≡ none
      → (next_worker_stats previous sample now).receive_rate ≡ some r
      → IsRated previous sample now r
  next_worker_stats-IsRated previous sample now r fresh h =
      sampled_since-IsRated previous sample now _ _ _ refl refl refl fresh h
