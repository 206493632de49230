-- ===== src/CacheGroup/Collecting.antt =====
-- The controller that collects the counters of a group's workers: Reconcile and sumBytes of
-- internal/controller/cachegroup_stats_controller.go. `format_bytes` is utils.FormatBytes.
use juicefs_operator.Base.{
  ℕ, ◌+◌, String, Bool, true, false, Option, none, some, List, [], ◌∷◌, if◌then◌else◌,
}
use juicefs_operator.Base.Sort.{sort_by, string_before}
use juicefs_operator.Kube.{ApiError, Pod}
use juicefs_operator.CacheGroup.{WorkerStats, minute}
use juicefs_operator.CacheGroup.Sampling.{collect_worker}

-- The running sum of a counter, `none` while no worker has reported it.
add_count : Option ℕ → Option ℕ → Option ℕ
add_count total none = total
add_count none (some n) = some n
add_count (some total) (some n) = some (total + n)

total_of : (WorkerStats → Option ℕ) → List WorkerStats → Option ℕ → Option ℕ
unfolding add_count
total_of counter [] total = total
total_of counter (s ∷ ss) total = total_of counter ss (add_count total (counter s))

abbrev by_worker : List WorkerStats → List WorkerStats
by_worker stats = sort_by (λ (a b : WorkerStats). string_before a.name b.name) stats

pub record Collected : Type 0 where
  pub stats : List WorkerStats
  pub cache_size : String
  pub cache_capacity : String

pub record Outcome : Type 0 where
  pub patched : Option Collected
  pub requeue_after : Option ℕ
  pub failed : Bool

abbrev idle : Outcome
idle = record { patched = none; requeue_after = none; failed = false }

-- `per_second` as in Sampling; `same` is the comparison of the three fields.
module _ (per_second : ℕ → ℕ → ℕ) (format_bytes : ℕ → String)
    (same : Collected → Collected → Bool) where
  -- The workers, each with the answer of GetWorkerStats. The goroutines append in any order, and the
  -- list is sorted afterwards.
  unfoldable pub collect_workers :
      ℕ → List WorkerStats → List (Pod × Option WorkerStats) → List WorkerStats
  collect_workers now previous [] = []
  collect_workers now previous ((w, sample) ∷ ws) =
      elim (collect_worker per_second now previous w sample) [
        | none ↦ collect_workers now previous ws
        | some s ↦ s ∷ collect_workers now previous ws
      ]

  unfoldable pub sum_bytes : (WorkerStats → Option ℕ) → List WorkerStats → String
  unfolding total_of
  sum_bytes counter stats = elim (total_of counter stats none) [
    | none ↦ ""
    | some total ↦ format_bytes total
  ]

  unfoldable pub collect : ℕ → List WorkerStats → List (Pod × Option WorkerStats) → Collected
  unfolding collect_workers sum_bytes
  collect now previous workers =
      let stats = by_worker (collect_workers now previous workers) in
      record {
        stats = stats;
        cache_size = sum_bytes (λ (s : WorkerStats). s.cache_bytes) stats;
        cache_capacity = sum_bytes (λ (s : WorkerStats). s.capacity_bytes) stats;
      }

  unfoldable pub write_collected : Collected → Collected → Option ApiError → Outcome
  write_collected old new patch_error =
      if same old new
      then record { patched = none; requeue_after = some minute; failed = false }
      else elim patch_error [
        | none ↦ record { patched = some new; requeue_after = some minute; failed = false }
        | some _ ↦ record { patched = some new; requeue_after = none; failed = true }
      ]

  -- `listed` answers the list of the group's workers.
  unfoldable pub reconcile :
      (deleting : Bool)
      → ℕ
      → Collected
      → (listed : Option (List (Pod × Option WorkerStats))) → (patch_error : Option ApiError)
      → Outcome
  unfolding collect write_collected
  reconcile true now old listed patch_error = idle
  reconcile false now old none patch_error = record idle { failed = true }
  reconcile false now old (some workers) patch_error =
      write_collected old (collect now old.stats workers) patch_error
