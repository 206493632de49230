-- ===== src/CacheGroup/Update.antt =====
-- Bringing workers to their expected state: syncWorkers, workerUpdateAction, syncWorker,
-- smoothRestartWorker and recordWorkerJoin of internal/controller/cachegroup_worker_lifecycle.go,
-- ParseUpdateStrategy of pkg/utils/pod.go and WaitForWorkerRestart of pkg/utils/worker.go.
pub mod Laws
pub mod Restart
use juicefs_operator.Base.Text.{text_eq}
use juicefs_operator.Base.{
  length, ℕ, suc, ◌+◌, String, Bool, true, false, not, ◌&&◌, ◌||◌, Option, none, some, List, [],
  ◌∷◌, ◌++◌, str_eq, leb, ltb, ◌==◌, if◌then◌else◌, is_some, contains, ◌≡◌, str_append,
}
use juicefs_operator.Kube.{Annotations, Pod, PodPhase, failed, unknown, succeeded, pod_ready}
use juicefs_operator.CacheGroup.{
  UpdateStrategyType, rolling_update, on_delete, StrategyName, rolling_update_name, on_delete_name,
  other_name, IntOrString, UpdateStrategy, Rebalance, CacheGroup, Template,
}
use juicefs_operator.CacheGroup.Join.{is_worker_v2, can_add_worker, should_add_join_option}

pub data WorkerUpdate : Type 0 where
  up_to_date recreate smooth_restart : WorkerUpdate

-- What pkg/builder promises of the pods that it builds: `build cg node template add_join`, and the
-- hash of the v1 rendering. A built pod is in the join phase just when it was asked to be.
pub record WorkerBuilder : Type 0 where
  pub build : CacheGroup → String → Template → Bool → Pod
  pub v1_worker_hash : CacheGroup → String → Template → Bool → String
  pub joins :
      (cg : CacheGroup) (node : String) (t : Template) (add_join : Bool)
      → is_some (build cg node t add_join).annotations.backup_worker ≡ add_join

unfoldable pub gen_worker_name : String → String → String
gen_worker_name cg_name node =
    str_append "juicefs-cg-worker-" (str_append cg_name (str_append "-" node))

unfoldable pub get_pod_name : CacheGroup → String → String
unfolding gen_worker_name
get_pod_name cg node = if is_some cg.spec.replicas then node else gen_worker_name cg.name node

module _ (scaled : IntOrString → ℕ → Option ℕ) where
  scaled_or_one : Option IntOrString → ℕ → ℕ
  scaled_or_one none total = 1
  scaled_or_one (some v) total = elim (scaled v total) [ none ↦ 1 | some n ↦ n ]

  strategy_of : StrategyName → Option IntOrString → ℕ → UpdateStrategyType × ℕ
  unfolding scaled_or_one
  strategy_of on_delete_name v total = (on_delete, 1)
  strategy_of rolling_update_name v total = (rolling_update, scaled_or_one v total)
  strategy_of other_name v total = (rolling_update, 1)

  -- `scaled` is intstr.GetScaledValueFromIntOrPercent, rounding down.
  unfoldable pub parse_update_strategy : Option UpdateStrategy → ℕ → UpdateStrategyType × ℕ
  unfolding strategy_of
  parse_update_strategy none total = (rolling_update, 1)
  parse_update_strategy (some s) total = strategy_of s.type s.max_unavailable total

abbrev pub is_terminal : PodPhase → Bool
is_terminal failed = true
is_terminal unknown = true
is_terminal succeeded = true
is_terminal _ = false

on_delete_action : Pod → Pod → WorkerUpdate
on_delete_action expect actual =
    if is_worker_v2 actual
      && is_some actual.annotations.backup_worker
      && not (is_some expect.annotations.backup_worker)
      && str_eq actual.annotations.worker_hash expect.annotations.worker_hash
    then smooth_restart
    else up_to_date

rolling_action : String → Pod → Pod → WorkerUpdate
rolling_action v1_hash expect actual =
    let expect_hash =
      if not (is_worker_v2 actual) && is_worker_v2 expect
      then v1_hash
      else expect.annotations.worker_hash in
    if is_terminal actual.phase
    then recreate
    else if not (str_eq expect_hash actual.annotations.worker_hash)
    then recreate
    else if is_worker_v2 actual
        && not (text_eq actual.annotations.mount_opts expect.annotations.mount_opts)
    then smooth_restart
    else up_to_date

unfoldable pub worker_update_action : UpdateStrategyType → String → Pod → Option Pod → WorkerUpdate
unfolding on_delete_action rolling_action is_worker_v2
worker_update_action strategy v1_hash expect none = recreate
worker_update_action strategy v1_hash expect (some actual) =
    if actual.deleting then up_to_date else elim strategy [
      | on_delete ↦ on_delete_action expect actual
      | rolling_update ↦ rolling_action v1_hash expect actual
    ]

-- What the loop of syncWorkers decides for a worker, before its goroutine starts.
pub record Plan : Type 0 where
  pub name : String
  pub actual : Option Pod
  pub expect : Pod
  pub template : Template
  pub update : WorkerUpdate

abbrev pub changes : WorkerUpdate → Bool
changes up_to_date = false
changes _ = true

abbrev pub is_ready : Option Pod → Bool
is_ready none = false
is_ready (some p) = pod_ready p

-- A plan that takes a ready worker down.
abbrev pub disrupts : Plan → Bool
disrupts p = changes p.update && is_ready p.actual

unfoldable pub unavailable : Pod → Bool
unavailable w = w.deleting || not (pod_ready w)

-- `workers[name]`: a later worker of the list overwrites an earlier one.
unfoldable pub find_worker : String → List Pod → Option Pod
find_worker name [] = none
find_worker name (w ∷ ws) =
    let rest = find_worker name ws in
    elim rest [ some p ↦ some p | none ↦ if str_eq w.name name then some w else none ]

unfoldable pub count_unavailable : List Pod → ℕ
unfolding unavailable
count_unavailable [] = 0
count_unavailable (w ∷ ws) = let n = count_unavailable ws in if unavailable w then suc n else n

abbrev in_batch : CacheGroup → String → Bool
in_batch cg name = elim cg.status.rebalance [
  | none ↦ false
  | some batch ↦ contains batch.members name
]

unfoldable pub blocked_by_batch : ℕ → CacheGroup → String → Option Pod → Bool
blocked_by_batch now cg name none = not (can_add_worker now cg) && not (in_batch cg name)
blocked_by_batch now cg name (some _) = false

module _ (parse_duration : String → Option ℕ) (builder : WorkerBuilder) (now : ℕ)
    (cg : CacheGroup) where
  unfoldable pub plan_of : UpdateStrategyType → List Pod → String → Template → Plan
  unfolding worker_update_action
  plan_of strategy actual_workers node template =
      let name = get_pod_name cg node in
      let actual = find_worker name actual_workers in
      let join = should_add_join_option parse_duration now cg actual template in
      let expect = builder.build cg node template join in
      record {
        name = name;
        actual = actual;
        expect = expect;
        template = template;
        update =
            worker_update_action strategy (builder.v1_worker_hash cg node template join) expect
              actual;
      }

  -- The loop, with `num_unavailable` so far. Go's range over the map gives any order of the states.
  unfoldable pub plan_workers :
      UpdateStrategyType
      → (max_unavailable : ℕ) → List Pod
      → ℕ
      → List (String × Template)
      → List Plan
  unfolding blocked_by_batch
  plan_workers strategy max_unavailable actual_workers n [] = []
  plan_workers strategy max_unavailable actual_workers n ((node, template) ∷ states) =
      let p = plan_of strategy actual_workers node template in
      let over = leb max_unavailable n in
      let rest =
        plan_workers strategy max_unavailable actual_workers
          (if not (blocked_by_batch now cg p.name p.actual) && disrupts p && not over
            then suc n
            else n)
          states in
      if blocked_by_batch now cg p.name p.actual
      then rest
      else if disrupts p && over
      then record p { update = up_to_date } ∷ rest
      else p ∷ rest

  -- syncWorkers up to its goroutines; `scaled` as in `parse_update_strategy`.
  unfoldable pub sync_workers_plan :
      (IntOrString → ℕ → Option ℕ) → List (String × Template) → List Pod → List Plan
  unfolding plan_workers count_unavailable
  sync_workers_plan scaled states actual_workers =
      let (strategy, max_unavailable) =
        parse_update_strategy scaled cg.spec.update_strategy (length states) in
      plan_workers strategy max_unavailable actual_workers (count_unavailable actual_workers) states
