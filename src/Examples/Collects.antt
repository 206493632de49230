-- ===== src/Examples/Collects.antt =====
-- Collecting the counters of workers, on concrete samples.
use juicefs_operator.Kube.{is_pod_ready}
use juicefs_operator.CacheGroup.Sampling.{collect_worker}
use juicefs_operator.Base.Sort.{sort_by}
use juicefs_operator.Base.{String, ◌≡◌, refl, false, none, some, [], ◌∷◌}
use juicefs_operator.CacheGroup.{WorkerStats, minute}
use juicefs_operator.CacheGroup.Collecting.{Collected, reconcile}
use juicefs_operator.Examples.{worker, stats}

abbrev nothing : Collected
nothing = record { stats = []; cache_size = ""; cache_capacity = "" }

abbrev first : String → WorkerStats
first name = record (stats name) { last_sample_time = some 5 }

-- The first samples of two workers, in the order of their names; the third cannot be read.
first_samples :
    reconcile
      (λ b i. 0)
      (λ n. "sum")
      (λ a b. false)
      false
      5
      nothing
      (some (
        (worker "w2", some (stats "w2"))
        ∷ (worker "w1", some (stats "w1"))
        ∷ (worker "w3", none)
        ∷ []))
      none
    ≡ record {
      patched = some (record {
        stats = first "w1" ∷ first "w2" ∷ [];
        cache_size = "sum";
        cache_capacity = "sum";
      });
      requeue_after = some minute;
      failed = false;
    }
unfolding reconcile sort_by collect_worker is_pod_ready
first_samples = refl
