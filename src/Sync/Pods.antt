-- ===== src/Sync/Pods.antt =====
-- Preparing the secret, the worker pods and the manager pod of a sync, and deleting the workers:
-- internal/controller/sync_controller.go. A list of polls ends where the loop's deadline has passed.
pub mod Workers
use juicefs_operator.Base.{
  ℕ, suc, ◌-◌, String, Bool, true, false, not, ◌&&◌, ◌||◌, Option, none, some, List, [], ◌∷◌, ◌++◌,
  str_eq, ◌==◌, if◌then◌else◌, length, filterb, contains, map,
}
use juicefs_operator.Kube.{ApiError, not_found, already_exists, PodPhase}
use juicefs_operator.Sync.{Sync, Status, is_distributed}

pub data Call : Type 0 where
  update_status : Status → Call
  create_secret create_manager_pod delete_sync : Call
  create_worker_pod : String → Call
  -- With the flag only the pods that have succeeded.
  delete_worker_pods : (succeeded_only : Bool) → Call

pub data Failure : Type 0 where
  api : ApiError → Failure
  timed_out secret_failed : Failure

-- The calls that were made, and how the preparation ended.
abbrev pub Run : Type 0
Run = List Call × Option Failure

infixl 10 ◌>>◌
abbrev pub ◌>>◌ : Run → Run → Run
(cs, none) >> (ds, e) = (cs ++ ds, e)
(cs, some f) >> next = (cs, some f)

abbrev pub fail : Failure → Run
fail f = ([], some f)

abbrev pub done : Run
done = ([], none)

abbrev pub answered : Call → Option ApiError → Run
answered c none = (c ∷ [], none)
answered c (some e) = (c ∷ [], some (api e))

-- A pod with the label of sync workers, in whatever namespace.
pub record WorkerPod : Type 0 where
  pub namespace : String
  pub sync_label : String
  pub name : String
  pub ready : Bool
  pub phase : PodPhase

-- `r.List(ctx, pods, labelSelector)`: the selector names no namespace.
unfoldable pub list_workers : String → List WorkerPod → List WorkerPod
list_workers label pods = filterb (λ p. str_eq p.sync_label label) pods

create_missing : List String → List (String × Option ApiError) → Run
create_missing existing [] = done
create_missing existing ((name, answer) ∷ rest) =
    (if contains existing name then done else elim answer [
      | some already_exists ↦ (create_worker_pod name ∷ [], none)
      | other ↦ answered (create_worker_pod name) other
    ])
    >> create_missing existing rest

abbrev is_up : WorkerPod → Bool
is_up p = p.ready || elim p.phase [ PodPhase.succeeded ↦ true | _ ↦ false ]

-- How many pods are up before the first that is not: the loop breaks there.
ready_prefix : List WorkerPod → ℕ
ready_prefix [] = 0
ready_prefix (p ∷ ps) = let n = ready_prefix ps in if is_up p then suc n else 0

-- One answer to a poll: the labelled pods of the cluster, or an error.
unfoldable pub poll_ready : String → ℕ → Option (List WorkerPod) → Bool
unfolding list_workers ready_prefix
poll_ready label expected none = false
poll_ready label expected (some pods) =
    length (list_workers label pods) == expected
    && ready_prefix (list_workers label pods) == expected

unfoldable pub wait_workers : String → ℕ → List (Option (List WorkerPod)) → Run
unfolding poll_ready
wait_workers label expected [] = fail timed_out
wait_workers label expected (poll ∷ polls) =
    let rest = wait_workers label expected polls in
    if poll_ready label expected poll then done else rest

-- `listed` answers the first list; `wanted` are the names that NewWorkerPods gives, each with the
-- answer to its creation.
pub record WorkerAnswers : Type 0 where
  pub listed : Option (List WorkerPod)
  pub wanted : List (String × Option ApiError)
  pub polls : List (Option (List WorkerPod))

abbrev pub worker_count : Option ℕ → ℕ
worker_count none = 0
worker_count (some n) = n - 1

unfoldable pub prepare_worker_pod : String → Sync → WorkerAnswers → Run
unfolding create_missing wait_workers
prepare_worker_pod label s a = if not (is_distributed s) then done else elim a.listed [
  | none ↦ fail (api ApiError.other_error)
  | some pods ↦
      let expected = worker_count s.spec.replicas in
      let existing = list_workers label pods in
      (if length existing == expected
        then done
        else create_missing (map (λ (p : WorkerPod). p.name) existing) a.wanted)
      >> wait_workers label expected a.polls
]

-- What a Get of the manager pod answers.
pub data ManagerPoll : Type 0 where
  missing : ManagerPoll
  broken : ApiError → ManagerPoll
  found : (ready : Bool) → PodPhase → ManagerPoll

abbrev has_ended : PodPhase → Bool
has_ended PodPhase.succeeded = true
has_ended PodPhase.failed = true
has_ended _ = false

unfoldable pub wait_manager : List ManagerPoll → Run
wait_manager [] = fail timed_out
wait_manager (missing ∷ polls) = wait_manager polls
wait_manager (broken e ∷ polls) = fail (api e)
wait_manager (found ready phase ∷ polls) =
    let rest = wait_manager polls in if ready || has_ended phase then done else rest

pub record ManagerPodAnswers : Type 0 where
  pub get_error : Option ApiError
  pub create_error : Option ApiError
  pub polls : List ManagerPoll

unfoldable pub prepare_manager_pod : ManagerPodAnswers → Run
unfolding wait_manager
prepare_manager_pod a = elim a.get_error [
  | none ↦ wait_manager a.polls
  | some not_found ↦ answered create_manager_pod a.create_error >> wait_manager a.polls
  | some e ↦ fail (api e)
]

pub record SecretAnswers : Type 0 where
  pub get_error : Option ApiError
  pub build_fails : Bool
  pub create_error : Option ApiError

unfoldable pub prepare_sync_secrets : SecretAnswers → Run
prepare_sync_secrets a = elim a.get_error [
  | none ↦ done
  | some not_found ↦
      if a.build_fails then fail secret_failed else answered create_secret a.create_error
  | some e ↦ fail (api e)
]

unfoldable pub delete_workers : (all : Bool) → Option ApiError → Run
delete_workers all (some not_found) = (delete_worker_pods (not all) ∷ [], none)
delete_workers all answer = answered (delete_worker_pods (not all)) answer
