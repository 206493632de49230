-- ===== src/Sync/Pods/Workers.antt =====
-- When the worker pods of a sync are ready (prepareWorkerPod).
use juicefs_operator.Base.{
  ℕ, String, ◌≡◌, refl, true, false, Option, none, some, List, [], ◌∷◌, length, all, All, Memᴰ,
  arith, is_some, inl, inr, Bool-cases, ◌<◌,
}
use juicefs_operator.Sync.{Sync, is_distributed}
use juicefs_operator.Sync.Pods.{
  WorkerPod, list_workers, ready_prefix, is_up, poll_ready, wait_workers, WorkerAnswers,
  worker_count, prepare_worker_pod,
}

ready_prefix-length :
    (pods : List WorkerPod) → ready_prefix pods ≡ length pods → all is_up pods ≡ true
unfolding ready_prefix
ready_prefix-length [] h = refl
ready_prefix-length (p ∷ ps) h = ground (arith, ready_prefix-length ps)

-- A poll that finds as many labelled pods as are expected, all of them up.
pub record IsUp (label : String) (expected : ℕ) (pods : List WorkerPod) : Type 0 where
  pub counted : length (list_workers label pods) ≡ expected
  pub ready : all is_up (list_workers label pods) ≡ true

poll_ready-IsUp :
    (label : String) (expected : ℕ) (pods : List WorkerPod)
    → poll_ready label expected (some pods) ≡ true
    → IsUp label expected pods
unfolding poll_ready
poll_ready-IsUp label expected pods h = record {
  counted = ground arith;
  ready = ready_prefix-length (list_workers label pods) (ground arith);
}

poll_ready-none : (label : String) (expected : ℕ) → poll_ready label expected none ≡ false
unfolding poll_ready
poll_ready-none label expected = refl

abbrev pub Answered : String → ℕ → List (Option (List WorkerPod)) → Type 0
Answered label expected polls =
    (pods : List WorkerPod) × Memᴰ (some pods) polls × IsUp label expected pods

wait_workers-IsUp :
    (label : String) (expected : ℕ) (polls : List (Option (List WorkerPod)))
    → (wait_workers label expected polls).1 ≡ none
    → Answered label expected polls
unfolding wait_workers
wait_workers-IsUp label expected [] h = absurd (ground arith)
wait_workers-IsUp label expected (none ∷ polls) h =
    let (pods, m, up) =
      wait_workers-IsUp label expected polls (ground (arith, poll_ready-none label expected)) in
    (pods, Memᴰ.tail m, up)
wait_workers-IsUp label expected (some pods ∷ polls) h =
    elim (Bool-cases (poll_ready label expected (some pods))) [
      | inl e ↦ (pods, Memᴰ.head refl, poll_ready-IsUp label expected pods e)
      | inr e ↦
          let (found, m, up) = wait_workers-IsUp label expected polls (ground arith) in
          (found, Memᴰ.tail m, up)
    ]

-- The workers of a distributed sync count as prepared only when a poll has found as many labelled
-- pods as are expected, one less than the replicas, and all of them up.
pub prepare_worker_pod-IsUp :
    (label : String) (s : Sync) (a : WorkerAnswers)
    → is_distributed s ≡ true
    → (prepare_worker_pod label s a).1 ≡ none
    → (pods : List WorkerPod) × Memᴰ (some pods) a.polls
      × IsUp label (worker_count s.spec.replicas) pods
unfolding prepare_worker_pod
prepare_worker_pod-IsUp label s a d h =
    wait_workers-IsUp label (worker_count s.spec.replicas) a.polls (ground arith)

-- A poll that finds a pod too many.
abbrev pub Crowded : String → ℕ → Option (List WorkerPod) → Type 0
Crowded label expected poll = elim poll [
  | none ↦ Unit {0}
  | some pods ↦ expected < length (list_workers label pods)
]

poll_ready-Crowded :
    (label : String) (expected : ℕ) (poll : Option (List WorkerPod))
    → Crowded label expected poll
    → poll_ready label expected poll ≡ false
unfolding poll_ready
poll_ready-Crowded label expected none h = refl
poll_ready-Crowded label expected (some pods) h = ground arith

wait_workers-Crowded :
    (label : String) (expected : ℕ) (polls : List (Option (List WorkerPod)))
    → All (Crowded label expected) polls
    → is_some (wait_workers label expected polls).1 ≡ true
unfolding wait_workers
wait_workers-Crowded label expected [] h = refl
wait_workers-Crowded label expected (poll ∷ polls) (h, hs) =
    ground (
      arith,
      poll_ready-Crowded label expected poll h,
      wait_workers-Crowded label expected polls hs,
    )

-- If every answered poll finds more pods with the label of a distributed sync's workers than the
-- sync expects, in whatever namespaces, the preparation of the workers fails.
pub prepare_worker_pod-Crowded :
    (label : String) (s : Sync) (a : WorkerAnswers)
    → is_distributed s ≡ true
    → All (Crowded label (worker_count s.spec.replicas)) a.polls
    → is_some (prepare_worker_pod label s a).1 ≡ true
unfolding prepare_worker_pod
prepare_worker_pod-Crowded label s a d h =
    ground (arith, wait_workers-Crowded label (worker_count s.spec.replicas) a.polls h)
